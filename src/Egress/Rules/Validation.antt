-- ===== src/Egress/Rules/Validation.antt =====
-- `validateEgressRules`: what an accepted rule set opens.
use native.Mathlib.Nat.{one-le-pow}
use pi_container.Prelude.{
  ℕ, ◌≡◌, ◌≤◌, Option, some, none, List, ◌∷◌, [], select, true, false, arith, All, refl, length,
  Option-cases, ◌-◌, inl, inr,
}
use pi_container.Egress.{
  Ipv4Interval, Ipv4Cidr, interval_covered, intervals_overlap, cidr_interval, any,
}
use pi_container.Egress.Text.{cidr_text_interval, interval_list, Text, parse_ipv4_cidr}
use pi_container.Egress.Merging.{In, InSome}
use pi_container.Egress.Covering.{interval_covered_iff}
use pi_container.Egress.Rules.{
  EgressRuleRecord, Verdict, accepted, is_allow, is_deny, validate_egress_rules, check_allowed,
  check_network, check_all, denied_texts, egress_max_entries,
}

cidr_interval-nonempty : (c : Ipv4Cidr) → (cidr_interval c).start ≤ (cidr_interval c).end
unfolding cidr_interval
cidr_interval-nonempty c = omega (arith, one-le-pow (32 - c.prefix) 2 (omega arith))

text-nonempty :
    (text : Text) (i : Ipv4Interval) → cidr_text_interval text ≡ some i → i.start ≤ i.end
unfolding cidr_text_interval
text-nonempty text i h = elim (Option-cases (parse_ipv4_cidr text)) [
  | inl e ↦ ground (arith, h, e)
  | inr (c, e) ↦ ground (arith, h, e, cidr_interval-nonempty c)
]

-- The entry's network has addresses that are denied otherwise, and none that is protected.
abbrev pub Opens : List Ipv4Interval → List Ipv4Interval → EgressRuleRecord → Type 0
Opens denied protected rule =
    (network : Ipv4Interval) × (cidr_text_interval rule.network ≡ some network)
    × ((x : ℕ) → In x network → InSome x denied × (InSome x protected → ⊥))

shared :
    (left right : Ipv4Interval) (x : ℕ)
    → In x left
    → In x right
    → intervals_overlap left right ≡ true
unfolding intervals_overlap
shared left right x h k = ground arith

no_overlap :
    (network : Ipv4Interval) (protected : List Ipv4Interval) (x : ℕ)
    → any (λ candidate. intervals_overlap candidate network) protected ≡ false
    → In x network
    → InSome x protected
    → ⊥
no_overlap network [] x h k m = m
no_overlap network (p ∷ ps) x h k (inl here) = ground (arith, h, shared p network x here k)
no_overlap network (p ∷ ps) x h k (inr there) = no_overlap network ps x (ground (arith, h)) k there

-- What one round without an error has found.
abbrev Passed : List Ipv4Interval → List Ipv4Interval → Option Ipv4Interval → Verdict → Type 0
Passed denied protected o others =
    (network : Ipv4Interval) × (o ≡ some network)
    × (interval_covered network denied ≡ true)
    × (any (λ candidate. intervals_overlap candidate network) protected ≡ false)
    × (others ≡ accepted)

check_network-Passed :
    (denied protected : List Ipv4Interval) (o : Option Ipv4Interval) (others : Verdict)
    → check_network denied protected o others ≡ accepted
    → Passed denied protected o others
unfolding check_network
check_network-Passed denied protected none others h = ground (arith, h)
check_network-Passed denied protected (some network) others h =
    (network, refl, ground (arith, h), ground (arith, h), ground (arith, h))

check_allowed-Opens :
    (denied protected : List Ipv4Interval) (rules : List EgressRuleRecord)
    → check_allowed denied protected rules ≡ accepted
    → All (Opens denied protected) rules
unfolding check_allowed
check_allowed-Opens denied protected [] h = tt
check_allowed-Opens denied protected (rule ∷ rules) h =
    let (network, read, covered, apart, rest) =
      check_network-Passed denied protected (cidr_text_interval rule.network) _ h in
    (
      (
        network,
        read,
        λ x k. (
          (interval_covered_iff network denied (text-nonempty rule.network network read)).0 covered
              x k,
          no_overlap network protected x apart k,
        ),
      ),
      check_allowed-Opens denied protected rules rest,
    )

abbrev OpensAll :
    List EgressRuleRecord → Option (List Ipv4Interval) → Option (List Ipv4Interval) → Type 0
OpensAll allowed denied protected =
    (ds : List Ipv4Interval) × (ps : List Ipv4Interval) × (denied ≡ some ds)
    × (protected ≡ some ps)
    × All (Opens ds ps) allowed

check_all-OpensAll :
    (denied protected : Option (List Ipv4Interval)) (allowed : List EgressRuleRecord)
    → check_all denied protected allowed ≡ accepted
    → OpensAll allowed denied protected
unfolding check_all
check_all-OpensAll none protected allowed h = ground (arith, h)
check_all-OpensAll (some denied) none allowed h = ground (arith, h)
check_all-OpensAll (some denied) (some protected) allowed h =
    (denied, protected, refl, refl, check_allowed-Opens denied protected allowed h)

-- If a rule set is accepted, its lists are within the limit, every network in it and every protected
-- one can be read, and each allow entry opens only addresses that the default or a deny entry
-- denies and that are not protected.
pub validate_egress_rules-Opens :
    (rules : List EgressRuleRecord) (protected_cidrs : List Text)
    → validate_egress_rules rules protected_cidrs ≡ accepted
    → (length (select is_allow rules) ≤ egress_max_entries)
      × (length (select is_deny rules) ≤ egress_max_entries)
      × ((denied : List Ipv4Interval) × (protected : List Ipv4Interval) × (interval_list
              (denied_texts rules)
            ≡ some denied)
          × (interval_list protected_cidrs ≡ some protected)
          × All (Opens denied protected) (select is_allow rules))
unfolding validate_egress_rules
validate_egress_rules-Opens rules protected_cidrs h = (
  ground (arith, h),
  ground (arith, h),
  check_all-OpensAll (interval_list (denied_texts rules)) (interval_list protected_cidrs)
      (select is_allow rules) (ground (arith, h)),
)
