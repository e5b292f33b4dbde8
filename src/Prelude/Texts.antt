-- ===== src/Prelude/Texts.antt =====
-- Texts as lists of UTF-16 code units: `===`, `toLowerCase`, `trim`, `startsWith` and `endsWith`.
use Prim.Native.Nat.{ℕ, zero, suc, ◌+◌, ◌-◌}
use Prim.Native.Char.{code}
use Prim.Native.String.{String}
use mathlib.Core.Path.{◌≡◌, refl, ap, ◌∙◌}
use mathlib.Core.Bool.{Bool, true, false, ◌&&◌, ◌||◌}
use mathlib.Core.List.{List, [], ◌∷◌, ◌++◌, map, reverse}
use native.Mathlib.Omega.{arith}
use pi_container.Prelude.Tests.{◌==◌, leb, if◌then◌else◌}
use pi_container.Prelude.Lists.{length, first_of, any}

-- The code units of an ASCII text.
abbrev pub codes : String → List ℕ
codes String.[] = []
codes (String.◌∷◌ c s) = code c ∷ codes s

abbrev pub same_text : List ℕ → List ℕ → Bool
same_text [] [] = true
same_text (c ∷ cs) (d ∷ ds) = c == d && same_text cs ds
same_text _ _ = false

pub same_text_sound : (a b : List ℕ) → same_text a b ≡ true → a ≡ b
same_text_sound [] [] h = refl
same_text_sound [] (d ∷ ds) h = ground (arith, h)
same_text_sound (c ∷ cs) [] h = ground (arith, h)
same_text_sound (c ∷ cs) (d ∷ ds) h =
    let first : c ≡ d = ground (arith, h) in
    let rest = same_text_sound cs ds (ground (arith, h)) in
    ap (λ x. x ∷ cs) first ∙ ap (λ xs. d ∷ xs) rest

pub same_text_refl : (a : List ℕ) → same_text a a ≡ true
same_text_refl [] = refl
same_text_refl (c ∷ cs) = ground (arith, same_text_refl cs)

-- For units below 256, `toLowerCase` changes none of the others into an ASCII letter.
abbrev pub lower_unit : ℕ → ℕ
lower_unit c = if leb 65 c && leb c 90 then c + 32 else c

abbrev pub to_lower : List ℕ → List ℕ
to_lower text = map lower_unit text

abbrev is_space : ℕ → Bool
is_space c =
    (leb 9 c && leb c 13)
    || c == 32
    || c == 160
    || c == 5760
    || (leb 8192 c && leb c 8202)
    || c == 8232
    || c == 8233
    || c == 8239
    || c == 8287
    || c == 12288
    || c == 65279

abbrev pub trim_start : List ℕ → List ℕ
trim_start [] = []
trim_start (c ∷ cs) = let rest = trim_start cs in if is_space c then rest else c ∷ cs

abbrev pub trim : List ℕ → List ℕ
trim text = reverse (trim_start (reverse (trim_start text)))

abbrev pub starts_with : List ℕ → List ℕ → Bool
starts_with [] text = true
starts_with (c ∷ cs) [] = false
starts_with (c ∷ cs) (d ∷ ds) = c == d && starts_with cs ds

-- `slice(n)`.
abbrev pub skip_first : ℕ → List ℕ → List ℕ
skip_first zero text = text
skip_first (suc n) [] = []
skip_first (suc n) (c ∷ cs) = skip_first n cs

abbrev pub ends_with : List ℕ → List ℕ → Bool
ends_with suffix text =
    leb (length suffix) (length text)
    && same_text (skip_first (length text - length suffix) text) suffix

-- The units before the first separator, or all of them.
abbrev pub before : ℕ → List ℕ → List ℕ
before separator [] = []
before separator (c ∷ cs) = if c == separator then [] else c ∷ before separator cs

abbrev pub among : List (List ℕ) → List ℕ → Bool
among texts text = any (same_text text) texts

pub first_of-append : (a b : List ℕ) → first_of (length a) (a ++ b) ≡ a
first_of-append [] [] = refl
first_of-append [] (c ∷ cs) = refl
first_of-append (c ∷ cs) b = ap (λ xs. c ∷ xs) (first_of-append cs b)

pub skip_first-append : (a b : List ℕ) → skip_first (length a) (a ++ b) ≡ b
skip_first-append [] b = refl
skip_first-append (c ∷ cs) b = skip_first-append cs b

pub to_lower-append : (a b : List ℕ) → to_lower (a ++ b) ≡ to_lower a ++ to_lower b
to_lower-append [] b = refl
to_lower-append (c ∷ cs) b = ap (λ xs. lower_unit c ∷ xs) (to_lower-append cs b)
