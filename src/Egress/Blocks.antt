-- ===== src/Egress/Blocks.antt =====
-- `intervalToCidrs`: the blocks tile the interval.
use native.Mathlib.Nat.{one-le-pow}
use pi_container.Prelude.{
  ◌≡◌, ◌≤◌, ◌<◌, ℕ, suc, zero, refl, List, ◌∷◌, [], ◌⊎◌, inl, inr, leb, ◌&&◌, ◌%◌, arith, Bool, ◌+◌,
  ◌-◌, ◌≢◌, Bool-cases, ◌==◌,
}
use pi_container.Egress.{
  Ipv4Interval, Ipv4Cidr, prefix_size, widen, split_from, interval_to_cidrs, true, false,
}

-- The block is aligned, and its prefix is one that exists.
abbrev pub Aligned : Ipv4Cidr → Type 0
Aligned block = (block.prefix ≤ 32) × (block.address % prefix_size block.prefix ≡ 0)

-- The block with the next shorter prefix is not aligned or does not end by `end`.
abbrev pub Widest : Ipv4Cidr → ℕ → Type 0
Widest block end =
    (block.prefix ≡ 0)
    ⊎ ((p : ℕ) × (block.prefix ≡ suc p)
        × ((block.address % prefix_size p ≢ 0) ⊎ (end + 1 < block.address + prefix_size p)))

-- The blocks follow each other from `start` to `end` without a gap or an overlap.
abbrev pub Tiles : ℕ → ℕ → List Ipv4Cidr → Type 0
Tiles start end [] = end < start
Tiles start end (b ∷ bs) =
    (b.address ≡ start)
    × Aligned b
    × Widest b end
    × (start + prefix_size b.prefix ≤ end + 1)
    × Tiles (start + prefix_size b.prefix) end bs

prefix_size_pos : (p : ℕ) → 1 ≤ prefix_size p
prefix_size_pos p = one-le-pow (32 - p) 2 (omega arith)

abbrev Fits : ℕ → ℕ → ℕ → Type 0
Fits start end p = (start % prefix_size p ≡ 0) × (start + prefix_size p ≤ end + 1)

abbrev Widened : ℕ → ℕ → ℕ → ℕ → Type 0
Widened start end from p =
    (p ≤ from) × Fits start end p × Widest (record { address = start; prefix = p }) end

-- The condition of the inner loop, with the remainder and the size of the wider block.
abbrev may_widen : ℕ → ℕ → ℕ → ℕ → Bool
may_widen remainder size start end = remainder == 0 && leb (start + size - 1) end

may_widen-true :
    (remainder size start end : ℕ)
    → 1 ≤ size
    → may_widen remainder size start end ≡ true
    → (remainder ≡ 0) × (start + size ≤ end + 1)
may_widen-true remainder size start end pos h = ground arith

may_widen-false :
    (remainder size start end : ℕ)
    → 1 ≤ size
    → may_widen remainder size start end ≡ false
    → (remainder ≢ 0) ⊎ (end + 1 < start + size)
may_widen-false remainder size start end pos h = ground arith

widen-Widened :
    (start end from : ℕ) → Fits start end from → Widened start end from (widen start end from)
unfolding widen
widen-Widened start end zero f = (omega arith, f, inl refl)
widen-Widened start end (suc p) f =
    elim (Bool-cases (may_widen (start % prefix_size p) (prefix_size p) start end)) [
      | inl e ↦
          let (least, fits, widest) = widen-Widened start end p (
            may_widen-true (start % prefix_size p) (prefix_size p) start end (prefix_size_pos p)
              e) in
          rw e (omega (arith, least), fits, widest)
      | inr e ↦ rw e (
        omega arith,
        f,
        inr (
          p,
          refl,
          may_widen-false (start % prefix_size p) (prefix_size p) start end (prefix_size_pos p) e,
        ),
      )
    ]

first_block : (start end : ℕ) → start ≤ end → Widened start end 32 (widen start end 32)
first_block start end h = widen-Widened start end 32 (omega arith, omega (arith, h))

split_from-Tiles :
    (fuel start end : ℕ) → end + 1 ≤ start + fuel → Tiles start end (split_from fuel start end)
unfolding split_from
split_from-Tiles zero start end h = omega (arith, h)
split_from-Tiles (suc fuel) start end h = elim (Bool-cases (leb start end)) [
  | inl e ↦
      let (least, fits, widest) = first_block start end (ground (arith, e)) in
      let size = prefix_size (widen start end 32) in
      rw (e, Tiles)
        (
          refl,
          (least, fits.0),
          widest,
          fits.1,
          split_from-Tiles fuel (start + size) end
              (omega (arith, h, prefix_size_pos (widen start end 32))),
        )
  | inr e ↦ rw (e, Tiles) (ground (arith, e))
]

-- The fuel is enough, and the blocks are aligned and follow each other without a gap or an overlap
-- from the interval's first address to its last; the next wider block in place of one of them would
-- not be aligned, would pass the interval's end, or does not exist.
pub interval_to_cidrs-Tiles :
    (interval : Ipv4Interval) → Tiles interval.start interval.end (interval_to_cidrs interval)
unfolding interval_to_cidrs
interval_to_cidrs-Tiles interval =
    split_from-Tiles (interval.end + 1 - interval.start) interval.start interval.end (omega arith)
