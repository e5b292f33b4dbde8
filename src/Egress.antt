-- ===== src/Egress.antt =====
-- packages/protocol/src/egress.ts: sets of IPv4 addresses as intervals and as CIDR blocks. An address
-- is an unsigned 32-bit number; no operation here wraps, and the arithmetic is that of exact numbers.
pub mod Text
pub mod Reading
pub mod Merging
pub mod Covering
pub mod Blocks
pub mod Rules
mod Tests
use pi_container.Prelude.{
  ℕ, suc, zero, ◌+◌, ◌-◌, ◌%◌, ◌^◌, Bool, true, false, ◌&&◌, List, [], ◌∷◌, any, max, ◌==◌, leb,
  if◌then◌else◌,
}
use pi_container.Prelude.Sort.{order_by}

-- Inclusive IPv4 address interval.
pub record Ipv4Interval : Type 0 where
  pub start : ℕ
  pub end : ℕ

pub record Ipv4Cidr : Type 0 where
  pub address : ℕ
  pub prefix : ℕ

abbrev pub prefix_size : ℕ → ℕ
prefix_size prefix = 2 ^ (32 - prefix)

pub cidr_interval : Ipv4Cidr → Ipv4Interval
cidr_interval cidr = record {
  start = cidr.address;
  end = cidr.address + prefix_size cidr.prefix - 1;
}

-- One round of the loop of `mergeIntervals` and the rounds after it, where `last` is `merged.at(-1)`.
pub merge_after : Ipv4Interval → List Ipv4Interval → List Ipv4Interval
merge_after last [] = last ∷ []
merge_after last (interval ∷ rest) = elim (leb interval.start (last.end + 1)) [
  | true ↦ merge_after (record last { end = max last.end interval.end }) rest
  | false ↦ last ∷ merge_after interval rest
]

merge_sorted : List Ipv4Interval → List Ipv4Interval
unfolding merge_after
merge_sorted [] = []
merge_sorted (interval ∷ rest) = merge_after interval rest

-- Sorts and merges overlapping or adjacent intervals into a disjoint list.
pub merge_intervals : List Ipv4Interval → List Ipv4Interval
unfolding merge_sorted
merge_intervals intervals = merge_sorted (order_by (λ (i : Ipv4Interval). i.start) intervals)

-- The inner loop of `intervalToCidrs`: the shortest prefix that is reached from `prefix`.
pub widen : ℕ → ℕ → ℕ → ℕ
widen start end zero = 0
widen start end (suc prefix) =
    if start % prefix_size prefix == 0 && leb (start + prefix_size prefix - 1) end
    then widen start end prefix
    else suc prefix

-- The outer loop, for at most as many rounds as the fuel says.
pub split_from : ℕ → ℕ → ℕ → List Ipv4Cidr
unfolding widen
split_from zero start end = []
split_from (suc fuel) start end = elim (leb start end) [
  | true ↦
      record { address = start; prefix = widen start end 32 }
      ∷ split_from fuel (start + prefix_size (widen start end 32)) end
  | false ↦ []
]

-- Splits an interval into aligned CIDR blocks: every round takes an address at least.
pub interval_to_cidrs : Ipv4Interval → List Ipv4Cidr
unfolding split_from
interval_to_cidrs interval =
    split_from (interval.end + 1 - interval.start) interval.start interval.end

-- True when `inner` lies entirely inside the union of `outer`.
pub interval_covered : Ipv4Interval → List Ipv4Interval → Bool
unfolding merge_intervals
interval_covered inner outer =
    any
      (λ (candidate : Ipv4Interval). leb candidate.start inner.start && leb inner.end candidate.end)
      (merge_intervals outer)

pub intervals_overlap : Ipv4Interval → Ipv4Interval → Bool
intervals_overlap left right = leb left.start right.end && leb right.start left.end
