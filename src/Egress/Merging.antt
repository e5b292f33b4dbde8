-- ===== src/Egress/Merging.antt =====
-- `mergeIntervals`: the merged intervals hold the same addresses and stand apart.
use pi_container.Prelude.{◌⊎◌, ◌↔◌}
use pi_container.Prelude.Sort.{insert_by, order_by}
use pi_container.Egress.{
  Ipv4Interval, merge_after, ℕ, List, order_by, ◌∷◌, leb, max, merge_intervals, merge_sorted,
}
use pi_container.Prelude.Sort.{insert_by}
use pi_container.Prelude.{◌≤◌, ◌↔◌, arith, Bool-cases, ◌+◌, [], inl, inr}

abbrev pub In : ℕ → Ipv4Interval → Type 0
In x i = (i.start ≤ x) × (x ≤ i.end)

-- An address is in one of the intervals.
abbrev pub InSome : ℕ → List Ipv4Interval → Type 0
InSome x [] = ⊥
InSome x (i ∷ is) = In x i ⊎ InSome x is

abbrev pub StartsFrom : ℕ → List Ipv4Interval → Type 0
StartsFrom low [] = Unit {0}
StartsFrom low (i ∷ is) = (low ≤ i.start) × StartsFrom low is

-- In ascending order, with an address between each interval and the next one.
abbrev pub Apart : List Ipv4Interval → Type 0
Apart [] = Unit {0}
Apart (i ∷ is) = StartsFrom (i.end + 2) is × Apart is

abbrev Ascending : List Ipv4Interval → Type 0
Ascending [] = Unit {0}
Ascending (i ∷ is) = StartsFrom i.start is × Ascending is

StartsFrom-mono :
    (low high : ℕ) (is : List Ipv4Interval) → low ≤ high → StartsFrom high is → StartsFrom low is
StartsFrom-mono low high [] h k = tt
StartsFrom-mono low high (i ∷ is) h k = (omega (arith, k.0), StartsFrom-mono low high is h k.1)

abbrev start_of : Ipv4Interval → ℕ
start_of i = i.start

abbrev inserted : Ipv4Interval → List Ipv4Interval → List Ipv4Interval
inserted i is = insert_by start_of i is

StartsFrom-insert :
    (low : ℕ) (i : Ipv4Interval) (is : List Ipv4Interval)
    → low ≤ i.start
    → StartsFrom low is
    → StartsFrom low (inserted i is)
unfolding insert_by
StartsFrom-insert low i [] h k = (h, tt)
StartsFrom-insert low i (j ∷ is) h k = ground (arith, StartsFrom-insert low i is h k.1)

Ascending-insert :
    (i : Ipv4Interval) (is : List Ipv4Interval) → Ascending is → Ascending (inserted i is)
unfolding insert_by
Ascending-insert i [] a = (tt, tt)
Ascending-insert i (j ∷ is) a = elim (Bool-cases (leb i.start j.start)) [
  | inl e ↦ rw e ((ground arith, StartsFrom-mono i.start j.start is (ground arith) a.0), a)
  | inr e ↦ rw e (StartsFrom-insert j.start i is (ground arith) a.0, Ascending-insert i is a.1)
]

Ascending-order_by : (is : List Ipv4Interval) → Ascending (order_by start_of is)
unfolding order_by
Ascending-order_by [] = tt
Ascending-order_by (i ∷ is) = Ascending-insert i (order_by start_of is) (Ascending-order_by is)

module _ (x : ℕ) where
  InSome-insert :
      (i : Ipv4Interval) (is : List Ipv4Interval) → InSome x (inserted i is) ↔ InSome x (i ∷ is)
  unfolding insert_by
  InSome-insert i [] = ground arith
  InSome-insert i (j ∷ is) = ground (arith, InSome-insert i is)

  InSome-order_by : (is : List Ipv4Interval) → InSome x (order_by start_of is) ↔ InSome x is
  unfolding order_by
  InSome-order_by [] = ground arith
  InSome-order_by (i ∷ is) =
      ground (arith, InSome-insert i (order_by start_of is), InSome-order_by is)

  InSome-merge_after :
      (last : Ipv4Interval) (is : List Ipv4Interval)
      → StartsFrom last.start is
      → Ascending is
      → InSome x (merge_after last is) ↔ InSome x (last ∷ is)
  unfolding merge_after
  InSome-merge_after last [] h a = ground arith
  InSome-merge_after last (i ∷ is) h a = elim (Bool-cases (leb i.start (last.end + 1))) [
    | inl e ↦
        rw (e, InSome)
          (ground (
            arith,
            e,
            InSome-merge_after (record last { end = max last.end i.end }) is
                (StartsFrom-mono _ i.start is h.0 a.0) a.1,
          ))
    | inr e ↦ rw (e, InSome) (ground (arith, InSome-merge_after i is a.0 a.1))
  ]

StartsFrom-merge_after :
    (low : ℕ) (last : Ipv4Interval) (is : List Ipv4Interval)
    → low ≤ last.start
    → StartsFrom low is
    → StartsFrom low (merge_after last is)
unfolding merge_after
StartsFrom-merge_after low last [] h k = (h, tt)
StartsFrom-merge_after low last (i ∷ is) h k = elim (Bool-cases (leb i.start (last.end + 1))) [
  | inl e ↦ rw (e, StartsFrom) (StartsFrom-merge_after low _ is h k.1)
  | inr e ↦ rw (e, StartsFrom) (h, StartsFrom-merge_after low i is k.0 k.1)
]

Apart-merge_after :
    (last : Ipv4Interval) (is : List Ipv4Interval) → Ascending is → Apart (merge_after last is)
unfolding merge_after
Apart-merge_after last [] a = (tt, tt)
Apart-merge_after last (i ∷ is) a = elim (Bool-cases (leb i.start (last.end + 1))) [
  | inl e ↦ rw (e, Apart) (Apart-merge_after _ is a.1)
  | inr e ↦
      rw (e, Apart)
        (
          StartsFrom-merge_after (last.end + 2) i is (ground arith)
              (StartsFrom-mono (last.end + 2) i.start is (ground arith) a.0),
          Apart-merge_after i is a.1,
        )
]

merge_sorted-Apart :
    (is : List Ipv4Interval)
    → Ascending is
    → ((x : ℕ) → InSome x (merge_sorted is) ↔ InSome x is) × Apart (merge_sorted is)
unfolding merge_sorted
merge_sorted-Apart [] a = (λ x. ground arith, tt)
merge_sorted-Apart (i ∷ is) a = (λ x. InSome-merge_after x i is a.0 a.1, Apart-merge_after i is a.1)

-- Whatever the order and overlap of the intervals, the merged ones hold the same addresses, and they
-- are in ascending order with an address in no interval between each and the next.
pub merge_intervals-Apart :
    (intervals : List Ipv4Interval)
    → ((x : ℕ) → InSome x (merge_intervals intervals) ↔ InSome x intervals)
      × Apart (merge_intervals intervals)
unfolding merge_intervals
merge_intervals-Apart intervals =
    let sorted = order_by start_of intervals in
    let (same, apart) = merge_sorted-Apart sorted (Ascending-order_by intervals) in
    (λ x. ground (arith, same x, InSome-order_by x intervals), apart)
