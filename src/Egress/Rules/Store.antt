-- ===== src/Egress/Rules/Store.antt =====
-- packages/database/src/egress.ts: the transactions on the rules, and `egressPolicyForWorkers` of
-- apps/control-plane/src/egress.ts. The revision is the row of `egress_policy_state`, which every
-- transaction locks. Of the audit metadata, the actor and the request are kept. `none` is a
-- validation that throws, which rolls the transaction back.
use pi_container.Prelude.{
  ℕ, ◌+◌, Bool, true, false, ◌&&◌, ◌||◌, not, leb, length, is_null, Option, none, some, List, [],
  ◌∷◌, ◌++◌, map, any, select, find, ◌==◌, if◌then◌else◌,
}
use pi_container.Prelude.Table.{delete_where}
use pi_container.Prelude.Sort.{order_by}
use pi_container.Prelude.Texts.{codes}
use pi_container.Egress.Text.{Text}
use pi_container.Egress.Rules.{
  EgressRuleRecord, EgressRuleAction, allow, deny, EgressProtocol, tcp, udp, EgressRuleError,
  Verdict, accepted, threw, rejected, is_allow, is_deny, rule_network,
}

pub record EgressAuditMetadata : Type 0 where
  pub actor_user_id : ℕ
  pub request_id : ℕ

pub data EgressEvent : Type 0 where
  rule_created rule_deleted : EgressRuleRecord → ℕ → EgressAuditMetadata → EgressEvent

pub record EgressDb : Type 0 where
  pub revision : ℕ
  pub rules : List EgressRuleRecord
  pub audit : List EgressEvent

pub record EgressPolicyRecord : Type 0 where
  pub revision : ℕ
  pub rules : List EgressRuleRecord

pub data CreateEgressRuleResult : Type 0 where
  created : EgressRuleRecord → ℕ → CreateEgressRuleResult
  duplicate : CreateEgressRuleResult
  create_rejected : EgressRuleError → CreateEgressRuleResult

pub data DeleteEgressRuleResult : Type 0 where
  deleted : ℕ → DeleteEgressRuleResult
  not_found : DeleteEgressRuleResult
  delete_rejected : EgressRuleError → DeleteEgressRuleResult

same_action : EgressRuleAction → EgressRuleAction → Bool
same_action allow allow = true
same_action deny deny = true
same_action allow deny = false
same_action deny allow = false

same_text : Text → Text → Bool
same_text [] [] = true
same_text [] (d ∷ ds) = false
same_text (c ∷ cs) [] = false
same_text (c ∷ cs) (d ∷ ds) = c == d && same_text cs ds

same_protocol : Option EgressProtocol → Option EgressProtocol → Bool
same_protocol none none = true
same_protocol (some tcp) (some tcp) = true
same_protocol (some udp) (some udp) = true
same_protocol none (some p) = false
same_protocol (some p) none = false
same_protocol (some tcp) (some udp) = false
same_protocol (some udp) (some tcp) = false

same_port : Option ℕ → Option ℕ → Bool
same_port none none = true
same_port none (some b) = false
same_port (some a) none = false
same_port (some a) (some b) = a == b

unfoldable pub is_duplicate : EgressRuleRecord → EgressRuleRecord → Bool
unfolding same_action same_text same_protocol same_port
is_duplicate rule candidate =
    same_action candidate.action rule.action
    && same_text candidate.network rule.network
    && same_protocol candidate.protocol rule.protocol
    && same_port candidate.port_min rule.port_min
    && same_port candidate.port_max rule.port_max

abbrev pub has_id : ℕ → EgressRuleRecord → Bool
has_id id rule = rule.id == id

abbrev is_port : Option ℕ → Bool
is_port none = false
is_port (some port) = leb 1 port && leb port 65535

abbrev ports_ascend : Option ℕ → Option ℕ → Bool
ports_ascend (some a) (some b) = leb a b
ports_ascend _ _ = false

-- The constraints of `egress_rules` on the columns of one row, but for those on the network and the
-- foreign key.
abbrev pub fits_columns : EgressRuleRecord → Bool
fits_columns rule =
    (is_allow rule || (is_null rule.protocol && is_null rule.port_min && is_null rule.port_max))
    && ((is_null rule.port_min && is_null rule.port_max)
        || (not (is_null rule.protocol)
            && is_port rule.port_min
            && is_port rule.port_max
            && ports_ascend rule.port_min rule.port_max))
    && leb (length (codes rule.description)) 200

-- The primary key and `egress_rules_unique`.
abbrev pub meets_key : EgressRuleRecord → EgressRuleRecord → Bool
meets_key rule candidate = has_id rule.id candidate || is_duplicate rule candidate

abbrev pub stored : EgressRuleRecord → EgressAuditMetadata → EgressDb → EgressDb
stored rule audit db = record {
  revision = db.revision + 1;
  rules = rule ∷ db.rules;
  audit = db.audit ++ rule_created rule (db.revision + 1) audit ∷ [];
}

-- The rest of `createEgressRule`, after the validation. `accepts` is what the column of type `cidr` and
-- the foreign key to `users` say of the row; an insert that violates a constraint throws.
unfoldable pub insert_rule :
    (EgressRuleRecord → Bool)
    → EgressRuleRecord
    → EgressAuditMetadata
    → EgressDb
    → Verdict
    → Option (CreateEgressRuleResult × EgressDb)
insert_rule accepts rule audit db threw = none
insert_rule accepts rule audit db (rejected code) = some (create_rejected code, db)
insert_rule accepts rule audit db accepted =
    if accepts rule && fits_columns rule && not (any (meets_key rule) db.rules)
    then some (created rule (db.revision + 1), stored rule audit db)
    else none

abbrev action_key : EgressRuleRecord → ℕ
action_key rule = if is_allow rule then 0 else 1

abbrev protocol_key : EgressRuleRecord → ℕ
protocol_key rule = elim rule.protocol [ none ↦ 0 | some p ↦ (elim p [ tcp ↦ 1 | udp ↦ 2 ]) ]

abbrev port_key : EgressRuleRecord → ℕ
port_key rule = elim rule.port_min [ none ↦ 0 | some port ↦ port + 1 ]

-- `order by action, network, protocol nulls first, port_min nulls first, id`: the sort is stable, so the
-- minor keys come first. How PostgreSQL orders networks is a parameter.
unfoldable pub list_rules : (Text → ℕ) → List EgressRuleRecord → List EgressRuleRecord
list_rules network_rank rules = order_by action_key (
    order_by (λ (rule : EgressRuleRecord). network_rank rule.network)
      (order_by protocol_key
        (order_by port_key (order_by (λ (rule : EgressRuleRecord). rule.id) rules))))

unfoldable pub remove_rule :
    EgressRuleRecord
    → EgressAuditMetadata
    → EgressDb
    → Verdict
    → Option (DeleteEgressRuleResult × EgressDb)
remove_rule rule audit db threw = none
remove_rule rule audit db (rejected code) = some (delete_rejected code, db)
remove_rule rule audit db accepted = some (
  deleted (db.revision + 1),
  record {
    revision = db.revision + 1;
    rules = delete_where (has_id rule.id) db.rules;
    audit = db.audit ++ rule_deleted rule (db.revision + 1) audit ∷ [];
  },
)

module _ (network_rank : Text → ℕ) (accepts : EgressRuleRecord → Bool)
    (validate : List EgressRuleRecord → Verdict) where
  unfoldable pub create_egress_rule :
      EgressRuleRecord → EgressAuditMetadata → EgressDb → Option (CreateEgressRuleResult × EgressDb)
  unfolding insert_rule
  create_egress_rule rule audit db =
      if any (is_duplicate rule) (list_rules network_rank db.rules)
      then some (duplicate, db)
      else insert_rule accepts rule audit db
          (validate (list_rules network_rank db.rules ++ rule ∷ []))

  -- The candidate rule set is without the rule that was found; IDs are the table's primary key.
  unfoldable pub delete_found :
      Option EgressRuleRecord
      → EgressAuditMetadata
      → EgressDb
      → Option (DeleteEgressRuleResult × EgressDb)
  unfolding remove_rule delete_where
  delete_found none audit db = some (not_found, db)
  delete_found (some rule) audit db =
      remove_rule rule audit db
        (validate (delete_where (has_id rule.id) (list_rules network_rank db.rules)))

  unfoldable pub delete_egress_rule :
      ℕ → EgressAuditMetadata → EgressDb → Option (DeleteEgressRuleResult × EgressDb)
  unfolding delete_found
  delete_egress_rule rule audit db =
      delete_found (find (has_id rule) (list_rules network_rank db.rules)) audit db

  unfoldable pub get_egress_policy : EgressDb → EgressPolicyRecord
  get_egress_policy db = record { revision = db.revision; rules = list_rules network_rank db.rules }

-- An entry of the policy that goes to the Workers.
pub record EgressAllowEntry : Type 0 where
  pub network : Text
  pub protocol : Option EgressProtocol
  pub ports : Option (ℕ × ℕ)

pub record EgressPolicy : Type 0 where
  pub revision : ℕ
  pub allow : List EgressAllowEntry
  pub deny_extra : List Text
  pub protected : List Text

abbrev both_ports : Option ℕ → Option ℕ → Option (ℕ × ℕ)
both_ports none b = none
both_ports (some a) none = none
both_ports (some a) (some b) = some (a, b)

allow_entry : EgressRuleRecord → EgressAllowEntry
allow_entry rule = record {
  network = rule.network;
  protocol = rule.protocol;
  ports = both_ports rule.port_min rule.port_max;
}

unfoldable pub egress_policy_for_workers : EgressPolicyRecord → List Text → EgressPolicy
unfolding allow_entry
egress_policy_for_workers policy protected_cidrs = record {
  revision = policy.revision;
  allow = map allow_entry (select is_allow policy.rules);
  deny_extra = map rule_network (select is_deny policy.rules);
  protected = protected_cidrs;
}
