-- ===== src/Egress/Text.antt =====
-- packages/protocol/src/egress.ts: the reading of IPv4 addresses and CIDRs. A text is the list of its
-- UTF-16 code units: a dot is 46, a slash 47, and the digits are 48 to 57.
use pi_container.Prelude.{
  ℕ, ◌+◌, ◌-◌, ◌*◌, ◌%◌, Bool, false, ◌&&◌, Option, none, some, List, [], ◌∷◌, all, length, ◌==◌,
  leb, if◌then◌else◌, ◌||◌,
}
use pi_container.Egress.{Ipv4Interval, Ipv4Cidr, prefix_size, cidr_interval}

abbrev pub Text : Type 0
Text = List ℕ

abbrev pub add_unit : ℕ → List Text → List Text
add_unit c [] = (c ∷ []) ∷ []
add_unit c (part ∷ parts) = (c ∷ part) ∷ parts

-- `text.split(separator)`.
unfoldable pub split_text : ℕ → Text → List Text
split_text separator [] = [] ∷ []
split_text separator (c ∷ cs) =
    let parts = split_text separator cs in if c == separator then [] ∷ parts else add_unit c parts

abbrev is_digit : ℕ → Bool
is_digit c = leb 48 c && leb c 57

-- A decimal without leading zeros of so many digits at most: `OCTET` with 3, a prefix with 2.
abbrev pub is_decimal : ℕ → Text → Bool
is_decimal limit [] = false
is_decimal limit (c ∷ cs) =
    (c == 48 && length cs == 0)
    || (leb 49 c && leb c 57 && all is_digit cs && leb (length cs + 1) limit)

-- `Number(text)` of decimal digits.
abbrev pub number_from : ℕ → Text → ℕ
number_from value [] = value
number_from value (c ∷ cs) = number_from (value * 10 + (c - 48)) cs

-- The loop of `parseIpv4Address` over the parts.
unfoldable pub parse_octets : ℕ → List Text → Option ℕ
parse_octets value [] = some value
parse_octets value (part ∷ parts) =
    let rest = parse_octets (value * 256 + number_from 0 part) parts in
    if is_decimal 3 part && leb (number_from 0 part) 255 then rest else none

unfoldable pub parse_ipv4_address : Text → Option ℕ
unfolding parse_octets split_text
parse_ipv4_address text =
    let parts = split_text 46 text in if length parts == 4 then parse_octets 0 parts else none

-- The text before the first slash, and the one after it.
abbrev pub before_slash : Text → Text
before_slash [] = []
before_slash (c ∷ cs) = if c == 47 then [] else c ∷ before_slash cs

abbrev after_slash : Text → Option Text
after_slash [] = none
after_slash (c ∷ cs) = if c == 47 then some cs else after_slash cs

-- A bare address has the prefix 32.
abbrev pub prefix_text : Text → Text
prefix_text text = elim (after_slash text) [ none ↦ 51 ∷ 50 ∷ [] | some prefix ↦ prefix ]

-- The last test of `parseIpv4Cidr`: the host bits are zero.
unfoldable pub with_prefix : Option ℕ → ℕ → Option Ipv4Cidr
with_prefix none prefix = none
with_prefix (some address) prefix =
    if address % prefix_size prefix == 0
    then some (record { address = address; prefix = prefix })
    else none

unfoldable pub parse_ipv4_cidr : Text → Option Ipv4Cidr
unfolding parse_ipv4_address with_prefix
parse_ipv4_cidr text =
    if is_decimal 2 (prefix_text text) && leb (number_from 0 (prefix_text text)) 32
    then with_prefix (parse_ipv4_address (before_slash text)) (number_from 0 (prefix_text text))
    else none

abbrev interval_of : Option Ipv4Cidr → Option Ipv4Interval
interval_of none = none
interval_of (some cidr) = some (cidr_interval cidr)

-- `none` is the exception for a text that is no CIDR.
unfoldable pub cidr_text_interval : Text → Option Ipv4Interval
unfolding parse_ipv4_cidr
cidr_text_interval text = interval_of (parse_ipv4_cidr text)

abbrev prepended {ℓ} : {A : Type ℓ} → Option A → Option (List A) → Option (List A)
prepended none xs = none
prepended (some x) none = none
prepended (some x) (some xs) = some (x ∷ xs)

-- `texts.map(cidrTextInterval)`.
unfoldable pub interval_list : List Text → Option (List Ipv4Interval)
unfolding cidr_text_interval
interval_list [] = some []
interval_list (text ∷ texts) = prepended (cidr_text_interval text) (interval_list texts)
