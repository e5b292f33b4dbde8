-- ===== src/Egress/Reading.antt =====
-- What a text that is accepted as an address or a CIDR stands for.
use mathlib.Core.Option.{some-injective}
use pi_container.Prelude.{
  ap, sym, subst, ℕ, ◌+◌, ◌*◌, ◌%◌, ◌≡◌, ◌≤◌, ◌<◌, Option, none, some, List, [], ◌∷◌, length, arith,
  Bool-cases, inl, inr, ◌==◌, leb, ◌&&◌,
}
use pi_container.Egress.{Ipv4Cidr, prefix_size}
use pi_container.Egress.Text.{
  Text, is_decimal, number_from, split_text, parse_octets, parse_ipv4_address, with_prefix,
  parse_ipv4_cidr, prefix_text, before_slash,
}

octet_step :
    (value v : ℕ) (part : Text) (parts : List Text)
    → parse_octets value (part ∷ parts) ≡ some v
    → (number_from 0 part ≤ 255) × (parse_octets (value * 256 + number_from 0 part) parts ≡ some v)
unfolding parse_octets
octet_step value v part parts h =
    elim (Bool-cases (is_decimal 3 part && leb (number_from 0 part) 255)) [
      | inl e ↦ (ground (arith, e), rw e at h)
      | inr e ↦ absurd (let k : none ≡ some v = rw e at h in cc)
    ]

octets_end : (value v : ℕ) → parse_octets value [] ≡ some v → value ≡ v
unfolding parse_octets
octets_end value v h = ground (arith, h)

four_octets :
    (parts : List Text) (v : ℕ) → length parts ≡ 4 → parse_octets 0 parts ≡ some v → v < 4294967296
four_octets [] v n h = ground (arith, n)
four_octets (a ∷ []) v n h = ground (arith, n)
four_octets (a ∷ b ∷ []) v n h = ground (arith, n)
four_octets (a ∷ b ∷ c ∷ []) v n h = ground (arith, n)
four_octets (a ∷ b ∷ c ∷ d ∷ []) v n h =
    let (la, ha) = octet_step 0 v a (b ∷ c ∷ d ∷ []) h in
    let (lb, hb) = octet_step _ v b (c ∷ d ∷ []) ha in
    let (lc, hc) = octet_step _ v c (d ∷ []) hb in
    let (ld, hd) = octet_step _ v d [] hc in omega (arith, la, lb, lc, ld, octets_end _ v hd)
four_octets (a ∷ b ∷ c ∷ d ∷ e ∷ parts) v n h = omega (arith, n)

parse_ipv4_address-lt : (text : Text) (v : ℕ) → parse_ipv4_address text ≡ some v → v < 4294967296
unfolding parse_ipv4_address
parse_ipv4_address-lt text v h = elim (Bool-cases (length (split_text 46 text) == 4)) [
  | inl e ↦ four_octets (split_text 46 text) v (ground (arith, e)) (rw e at h)
  | inr e ↦ absurd (let k : none ≡ some v = rw e at h in cc)
]

with_prefix-aligned :
    (address : Option ℕ) (prefix : ℕ) (cidr : Ipv4Cidr)
    → with_prefix address prefix ≡ some cidr
    → (address ≡ some cidr.address)
      × (cidr.prefix ≡ prefix)
      × (cidr.address % prefix_size cidr.prefix ≡ 0)
unfolding with_prefix
with_prefix-aligned none prefix cidr h = ground (arith, h)
with_prefix-aligned (some address) prefix cidr h =
    elim (Bool-cases (address % prefix_size prefix == 0)) [
      | inl e ↦
          let same =
            some-injective (record { address = address; prefix = prefix }) cidr (rw e at h) in
          (
            ap (λ (c : Ipv4Cidr). some c.address) same,
            sym (ap (λ (c : Ipv4Cidr). c.prefix) same),
            subst (λ (c : Ipv4Cidr). c.address % prefix_size c.prefix ≡ 0) same (ground (arith, e)),
          )
      | inr e ↦ absurd (let k : none ≡ some cidr = rw e at h in cc)
    ]

-- A text that is read as a CIDR has a prefix of 32 at most, an address of 32 bits that its part
-- before the slash is read as, and host bits that are zero.
pub parse_ipv4_cidr-aligned :
    (text : Text) (cidr : Ipv4Cidr)
    → parse_ipv4_cidr text ≡ some cidr
    → (cidr.prefix ≤ 32)
      × (cidr.address < 4294967296)
      × (parse_ipv4_address (before_slash text) ≡ some cidr.address)
      × (cidr.address % prefix_size cidr.prefix ≡ 0)
unfolding parse_ipv4_cidr
parse_ipv4_cidr-aligned text cidr h =
    let prefix = number_from 0 (prefix_text text) in
    elim (Bool-cases (is_decimal 2 (prefix_text text) && leb prefix 32)) [
      | inl e ↦
          let (read, same, aligned) =
            with_prefix-aligned (parse_ipv4_address (before_slash text)) prefix cidr (rw e at h) in
          (
            ground (arith, e, same),
            parse_ipv4_address-lt (before_slash text) cidr.address read,
            read,
            aligned,
          )
      | inr e ↦ absurd (let k : none ≡ some cidr = rw e at h in cc)
    ]
