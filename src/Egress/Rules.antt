-- ===== src/Egress/Rules.antt =====
-- apps/control-plane/src/egress.ts and packages/database/src/egress.ts: the rules of the egress policy,
-- their validation and their transactions. The transactions read the table in the order of the
-- query, which is a parameter; times and UUIDs are arguments.
pub mod Validation
pub mod Store
pub mod Transactions
mod Tests
use pi_container.Prelude.{
  ℕ, ◌+◌, Bool, true, false, not, ◌&&◌, ◌||◌, Option, none, some, List, [], ◌∷◌, ◌++◌, map, any,
  select, find, length, ◌==◌, ltb, if◌then◌else◌, String,
}
use pi_container.Prelude.Table.{delete_where}
use pi_container.Egress.{Ipv4Interval, interval_covered, intervals_overlap}
use pi_container.Egress.Text.{Text, cidr_text_interval, interval_list}

pub data EgressRuleAction : Type 0 where
  allow deny : EgressRuleAction

pub data EgressProtocol : Type 0 where
  tcp udp : EgressProtocol

pub record EgressRuleRecord : Type 0 where
  pub id : ℕ
  pub action : EgressRuleAction
  pub network : Text
  pub protocol : Option EgressProtocol
  pub port_min : Option ℕ
  pub port_max : Option ℕ
  pub description : String
  pub created_by : ℕ
  pub created_at : ℕ

pub data EgressRuleError : Type 0 where
  rule_limit allow_outside_deny allow_overlaps_protected : EgressRuleError

-- What a validation gives: an error code, no error, or an exception.
pub data Verdict : Type 0 where
  accepted threw : Verdict
  rejected : EgressRuleError → Verdict

abbrev pub is_allow : EgressRuleRecord → Bool
is_allow rule = elim rule.action [ allow ↦ true | deny ↦ false ]

abbrev pub is_deny : EgressRuleRecord → Bool
is_deny rule = elim rule.action [ allow ↦ false | deny ↦ true ]

abbrev pub egress_max_entries : ℕ
egress_max_entries = 1000

-- 10.0.0.0/8, 172.16.0.0/12 and 192.168.0.0/16.
abbrev pub egress_default_deny_v4 : List Text
egress_default_deny_v4 =
    (49 ∷ 48 ∷ 46 ∷ 48 ∷ 46 ∷ 48 ∷ 46 ∷ 48 ∷ 47 ∷ 56 ∷ [])
    ∷ (49 ∷ 55 ∷ 50 ∷ 46 ∷ 49 ∷ 54 ∷ 46 ∷ 48 ∷ 46 ∷ 48 ∷ 47 ∷ 49 ∷ 50 ∷ [])
    ∷ (49 ∷ 57 ∷ 50 ∷ 46 ∷ 49 ∷ 54 ∷ 56 ∷ 46 ∷ 48 ∷ 46 ∷ 48 ∷ 47 ∷ 49 ∷ 54 ∷ [])
    ∷ []

-- What one round of the loop over the allow entries decides of the entry's network.
pub check_network : List Ipv4Interval → List Ipv4Interval → Option Ipv4Interval → Verdict → Verdict
check_network denied protected none others = threw
check_network denied protected (some network) others =
    if not (interval_covered network denied)
    then rejected allow_outside_deny
    else if any (λ candidate. intervals_overlap candidate network) protected
    then rejected allow_overlaps_protected
    else others

pub check_allowed : List Ipv4Interval → List Ipv4Interval → List EgressRuleRecord → Verdict
unfolding check_network
check_allowed denied protected [] = accepted
check_allowed denied protected (rule ∷ rules) =
    check_network denied protected (cidr_text_interval rule.network)
      (check_allowed denied protected rules)

-- The loop, once the denied and the protected networks are read.
pub check_all :
    Option (List Ipv4Interval) → Option (List Ipv4Interval) → List EgressRuleRecord → Verdict
unfolding check_allowed
check_all none protected rules = threw
check_all (some denied) none rules = threw
check_all (some denied) (some protected) rules = check_allowed denied protected rules

abbrev pub rule_network : EgressRuleRecord → Text
rule_network rule = rule.network

abbrev pub denied_texts : List EgressRuleRecord → List Text
denied_texts rules = egress_default_deny_v4 ++ map rule_network (select is_deny rules)

pub validate_egress_rules : List EgressRuleRecord → List Text → Verdict
unfolding check_all
validate_egress_rules rules protected_cidrs =
    if ltb egress_max_entries (length (select is_allow rules))
      || ltb egress_max_entries (length (select is_deny rules))
    then rejected rule_limit
    else check_all (interval_list (denied_texts rules)) (interval_list protected_cidrs)
        (select is_allow rules)
