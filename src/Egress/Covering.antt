-- ===== src/Egress/Covering.antt =====
-- `intervalCovered` and `intervalsOverlap` decide what their names say of the addresses.
use pi_container.Prelude.{
  ◌≡◌, ◌≤◌, ℕ, List, ◌∷◌, [], true, ◌↔◌, inl, inr, any, leb, ◌&&◌, arith, Bool, ◌+◌,
}
use pi_container.Egress.{Ipv4Interval, merge_intervals, interval_covered, intervals_overlap, max}
use pi_container.Egress.Merging.{In, InSome, StartsFrom, Apart, merge_intervals-Apart}

abbrev contains : Ipv4Interval → Ipv4Interval → Bool
contains inner candidate = leb candidate.start inner.start && leb inner.end candidate.end

abbrev Within : Ipv4Interval → List Ipv4Interval → Type 0
Within inner is = (x : ℕ) → In x inner → InSome x is

module _ (inner : Ipv4Interval) where
  within_some :
      (is : List Ipv4Interval) (x : ℕ) → any (contains inner) is ≡ true → In x inner → InSome x is
  within_some [] x h k = ground arith
  within_some (i ∷ is) x h k = ground (arith, within_some is x)

  -- No interval of the list holds an address below all of them.
  below : (low x : ℕ) (is : List Ipv4Interval) → StartsFrom low is → InSome x is → low ≤ x
  below low x [] s m = ground arith
  below low x (i ∷ is) s m = ground (arith, below low x is)

  one_contains :
      (is : List Ipv4Interval)
      → inner.start ≤ inner.end
      → Apart is
      → Within inner is
      → any (contains inner) is ≡ true
  one_contains [] h a w = ground (arith, w inner.start)
  one_contains (i ∷ is) h a w = elim (w inner.start (ground arith)) [
    | inl here ↦ ground (arith, w (i.end + 1), below (i.end + 2) (i.end + 1) is)
    | inr there ↦
        ground (
          arith,
          one_contains is h a.1 λ x k. ground (arith, w x, below (i.end + 2) inner.start is),
        )
  ]

-- For an interval that is not empty, the test holds exactly if each of its addresses is in one of the
-- outer intervals, which may overlap and stand in any order.
pub interval_covered_iff :
    (inner : Ipv4Interval) (outer : List Ipv4Interval)
    → inner.start ≤ inner.end
    → (interval_covered inner outer ≡ true) ↔ ((x : ℕ) → In x inner → InSome x outer)
unfolding interval_covered
interval_covered_iff inner outer h =
    let (same, apart) = merge_intervals-Apart outer in
    (
      λ c x k. (same x).0 (within_some inner (merge_intervals outer) x c k),
      λ w. one_contains inner (merge_intervals outer) h apart λ x k. (same x).1 (w x k),
    )

-- Two intervals that are not empty overlap exactly if they share an address.
pub intervals_overlap_iff :
    (left right : Ipv4Interval)
    → left.start ≤ left.end
    → right.start ≤ right.end
    → (intervals_overlap left right ≡ true) ↔ ((x : ℕ) × In x left × In x right)
unfolding intervals_overlap
intervals_overlap_iff left right h k = (
  λ o. (max left.start right.start, ground (arith, o), ground (arith, o)),
  λ s. ground (arith, s),
)
