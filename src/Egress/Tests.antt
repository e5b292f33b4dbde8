-- ===== src/Egress/Tests.antt =====
-- Intervals that touch and overlap.
use pi_container.Prelude.{some, refl, ◌≤◌, ◌<◌, ◌%◌, ℕ, true, List, [], ◌∷◌, ◌≡◌, ◌↔◌, arith}
use pi_container.Egress.{
  Ipv4Cidr, prefix_size, Ipv4Interval, merge_intervals, interval_to_cidrs, interval_covered,
}
use pi_container.Egress.Text.{Text, parse_ipv4_cidr, parse_ipv4_address, before_slash}
use pi_container.Egress.Reading.{parse_ipv4_cidr-aligned}
use pi_container.Egress.Merging.{In, InSome, Apart, merge_intervals-Apart}
use pi_container.Egress.Covering.{interval_covered_iff}
use pi_container.Egress.Blocks.{Tiles, interval_to_cidrs-Tiles}

abbrev range : ℕ → ℕ → Ipv4Interval
range start end = record { start = start; end = end }

abbrev outer : List Ipv4Interval
outer = range 20 40 ∷ range 5 9 ∷ range 10 22 ∷ []

merge_intervals-Apart_example :
    ((x : ℕ) → InSome x (merge_intervals outer) ↔ InSome x outer) × Apart (merge_intervals outer)
merge_intervals-Apart_example = merge_intervals-Apart outer

interval_covered_iff_example :
    (interval_covered (range 7 30) outer ≡ true) ↔ ((x : ℕ) → In x (range 7 30) → InSome x outer)
interval_covered_iff_example = interval_covered_iff (range 7 30) outer (omega arith)

interval_to_cidrs-Tiles_example :
    Tiles (range 5 9).start (range 5 9).end (interval_to_cidrs (range 5 9))
interval_to_cidrs-Tiles_example = interval_to_cidrs-Tiles (range 5 9)

-- 10.0.0.0/8.
abbrev private_text : Text
private_text = 49 ∷ 48 ∷ 46 ∷ 48 ∷ 46 ∷ 48 ∷ 46 ∷ 48 ∷ 47 ∷ 56 ∷ []

abbrev private_cidr : Ipv4Cidr
private_cidr = record { address = 167772160; prefix = 8 }

private_text-cidr : parse_ipv4_cidr private_text ≡ some private_cidr
unfolding parse_ipv4_cidr
private_text-cidr = refl

parse_ipv4_cidr-aligned_example :
    (private_cidr.prefix ≤ 32)
    × (private_cidr.address < 4294967296)
    × (parse_ipv4_address (before_slash private_text) ≡ some private_cidr.address)
    × (private_cidr.address % prefix_size private_cidr.prefix ≡ 0)
parse_ipv4_cidr-aligned_example =
    parse_ipv4_cidr-aligned private_text private_cidr private_text-cidr
