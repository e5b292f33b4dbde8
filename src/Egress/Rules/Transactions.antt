-- ===== src/Egress/Rules/Transactions.antt =====
-- The transactions on the rules, with the validation that the Control Plane hands them: what holds of
-- the stored rules after any history.
use pi_container.Prelude.{ℕ, ◌≡◌, Bool, Option, none, some, List, [], ◌∷◌, All, Memᴰ, select}
use pi_container.Egress.{Ipv4Interval}
use pi_container.Egress.Text.{Text, interval_list}
use pi_container.Egress.Rules.{
  EgressRuleRecord, Verdict, accepted, is_allow, denied_texts, validate_egress_rules,
}
use pi_container.Egress.Rules.Validation.{Opens}
use pi_container.Egress.Rules.Store.{
  EgressDb, EgressAuditMetadata, create_egress_rule, delete_egress_rule,
}

-- The fields are the arguments of `createEgressRule` and of `deleteEgressRule`.
pub data RuleCall : Type 0 where
  creates_rule : EgressRuleRecord → EgressAuditMetadata → RuleCall
  deletes_rule : ℕ → EgressAuditMetadata → RuleCall

abbrev pub kept_or {ℓ} : {A : Type ℓ} → EgressDb → Option (A × EgressDb) → EgressDb
kept_or db none = db
kept_or db (some (result, db')) = db'

unfoldable pub SameRules : List EgressRuleRecord → List EgressRuleRecord → Type 0
SameRules xs ys =
    ((a : EgressRuleRecord) → Memᴰ a xs → Memᴰ a ys)
    × ((a : EgressRuleRecord) → Memᴰ a ys → Memᴰ a xs)

-- The stored rules, in some order, are accepted.
unfoldable pub IsAccepted : List Text → List EgressRuleRecord → Type 0
unfolding SameRules
IsAccepted protected rules =
    (listed : List EgressRuleRecord) × SameRules listed rules
    × (validate_egress_rules listed protected ≡ accepted)

-- All networks can be read, and each stored allow entry has a network whose addresses are all denied
-- otherwise, by the default or by a stored deny entry, and none of them protected.
unfoldable pub IsSafe : List Text → List EgressRuleRecord → Type 0
unfolding SameRules
IsSafe protected rules =
    (listed : List EgressRuleRecord) × SameRules listed rules
    × ((denied : List Ipv4Interval) × (safe : List Ipv4Interval) × (interval_list
            (denied_texts listed)
          ≡ some denied)
        × (interval_list protected ≡ some safe)
        × All (Opens denied safe) (select is_allow rules))

module _ (network_rank : Text → ℕ) where
  module _ (accepts : EgressRuleRecord → Bool) (protected : List Text) where
    abbrev pub validate : List EgressRuleRecord → Verdict
    validate rules = validate_egress_rules rules protected

    unfoldable pub apply_rule : RuleCall → EgressDb → EgressDb
    apply_rule (creates_rule rule audit) db =
        kept_or db (create_egress_rule network_rank accepts validate rule audit db)
    apply_rule (deletes_rule id audit) db =
        kept_or db (delete_egress_rule network_rank accepts validate id audit db)

    unfoldable pub run_rules : List RuleCall → EgressDb → EgressDb
    run_rules [] db = db
    run_rules (call ∷ calls) db = run_rules calls (apply_rule call db)
