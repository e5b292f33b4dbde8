-- ===== src/Egress/Rules/Tests.antt =====
-- One allow entry inside a range that the default denies.
use pi_container.Prelude.{
  ℕ, Bool, true, List, [], ◌∷◌, ◌≡◌, ◌≤◌, refl, none, some, select, length, All,
}
use pi_container.Prelude.Sort.{order_by}
use pi_container.Egress.{Ipv4Interval, interval_covered, cidr_interval, intervals_overlap}
use pi_container.Egress.Text.{Text, interval_list}
use pi_container.Egress.Rules.{
  EgressRuleRecord, EgressRuleAction, accepted, is_allow, is_deny, egress_max_entries, denied_texts,
  validate_egress_rules,
}
use pi_container.Egress.Rules.Store.{
  EgressDb, EgressAuditMetadata, rule_created, create_egress_rule, delete_egress_rule, list_rules,
  is_duplicate,
}
use pi_container.Egress.Rules.Validation.{Opens, validate_egress_rules-Opens}
use pi_container.Egress.Rules.Transactions.{
  RuleCall, creates_rule, deletes_rule, run_rules, apply_rule,
}

-- 10.0.0.1/32.
abbrev database_host : Text
database_host = 49 ∷ 48 ∷ 46 ∷ 48 ∷ 46 ∷ 48 ∷ 46 ∷ 49 ∷ 47 ∷ 51 ∷ 50 ∷ []

-- 10.0.0.8/32.
abbrev opened_host : Text
opened_host = 49 ∷ 48 ∷ 46 ∷ 48 ∷ 46 ∷ 48 ∷ 46 ∷ 56 ∷ 47 ∷ 51 ∷ 50 ∷ []

abbrev opening : EgressRuleRecord
opening = record {
  id = 1;
  action = EgressRuleAction.allow;
  network = opened_host;
  protocol = none;
  port_min = none;
  port_max = none;
  description = "";
  created_by = 3;
  created_at = 100;
}

abbrev metadata : EgressAuditMetadata
metadata = record { actor_user_id = 3; request_id = 4 }

abbrev empty_db : EgressDb
empty_db = record { revision = 6; rules = []; audit = [] }

opening-accepted : validate_egress_rules (opening ∷ []) (database_host ∷ []) ≡ accepted
unfolding validate_egress_rules interval_list interval_covered order_by cidr_interval
    intervals_overlap
opening-accepted = refl

validate_egress_rules-Opens_example :
    (length (select is_allow (opening ∷ [])) ≤ egress_max_entries)
    × (length (select is_deny (opening ∷ [])) ≤ egress_max_entries)
    × ((denied : List Ipv4Interval) × (protected : List Ipv4Interval) × (interval_list
            (denied_texts (opening ∷ []))
          ≡ some denied)
        × (interval_list (database_host ∷ []) ≡ some protected)
        × All (Opens denied protected) (select is_allow (opening ∷ [])))
validate_egress_rules-Opens_example =
    validate_egress_rules-Opens (opening ∷ []) (database_host ∷ []) opening-accepted

abbrev no_rank : Text → ℕ
no_rank network = 0

abbrev any_row : EgressRuleRecord → Bool
any_row rule = true

abbrev calls : List RuleCall
calls = creates_rule opening metadata ∷ creates_rule opening metadata ∷ deletes_rule 9 metadata ∷ []

-- The second creation is a duplicate, and the rule to delete does not exist.
after-calls :
    run_rules no_rank any_row (database_host ∷ []) calls empty_db
    ≡ record { revision = 7; rules = opening ∷ []; audit = rule_created opening 7 metadata ∷ [] }
unfolding run_rules apply_rule create_egress_rule delete_egress_rule list_rules
    validate_egress_rules interval_list interval_covered order_by cidr_interval intervals_overlap
    is_duplicate
after-calls = refl
