-- ===== src/Prelude/Lists.antt =====
-- Lists measured by native numbers and filtered by Boolean tests, and what holds of all elements.
use Prim.Native.Nat.{ℕ, zero, suc, ◌+◌, ◌≤◌}
use mathlib.Core.Path.{refl, ◌≡◌, sym, ap, ◌∙◌, subst}
use mathlib.Core.Bool.{Bool, true, false, ◌&&◌, ◌||◌}
use mathlib.Core.List.{List, [], ◌∷◌, ◌++◌, Memᴰ, map}
use mathlib.Core.Logic.{◌≢◌, inl, inr}
use mathlib.Core.Option.{some-injective, Option, none, some}
use native.Mathlib.Omega.{arith}
use pi_container.Prelude.Tests.{Bool-cases, if◌then◌else◌}

module _ {ℓ} {A : Type ℓ} where
  abbrev pub length : List A → ℕ
  length [] = 0
  length (x ∷ xs) = suc (length xs)

  -- `Array.prototype.some`, `every`, `filter` and `find`.
  abbrev pub any : (A → Bool) → List A → Bool
  any p [] = false
  any p (x ∷ xs) = p x || any p xs

  abbrev pub all : (A → Bool) → List A → Bool
  all p [] = true
  all p (x ∷ xs) = p x && all p xs

  abbrev pub select : (A → Bool) → List A → List A
  select p [] = []
  select p (x ∷ xs) = if p x then x ∷ select p xs else select p xs

  abbrev pub find : (A → Bool) → List A → Option A
  find p [] = none
  find p (x ∷ xs) = if p x then some x else find p xs

  abbrev pub head : List A → Option A
  head [] = none
  head (x ∷ xs) = some x

  pub length-append : (xs ys : List A) → length (xs ++ ys) ≡ length xs + length ys
  length-append [] ys = omega arith
  length-append (x ∷ xs) ys = omega (arith, length-append xs ys)

module _ {ℓ κ} {A : Type ℓ} (P : A → Type κ) where
  abbrev pub All : List A → Type κ
  All [] = Unit
  All (x ∷ xs) = P x × All xs

module _ {ℓ} {A : Type ℓ} (p : A → Bool) where
  pub All-select {κ} :
      {P : A → Type κ} → ((a : A) → p a ≡ true → P a) → (xs : List A) → All P (select p xs)
  All-select h [] = tt
  All-select h (x ∷ xs) = elim (Bool-cases (p x)) [
    | inl e ↦ rw e (h x e, All-select h xs)
    | inr e ↦ rw e (All-select h xs)
  ]

-- Membership in a list that is not empty, by its two cases.
pub mem_cases {ℓ κ} :
    {A : Type ℓ} {P : Type κ} {a x : A} {xs : List A}
    → Memᴰ a (x ∷ xs)
    → (a ≡ x → P)
    → (Memᴰ a xs → P)
    → P
mem_cases (Memᴰ.head q) f g = f q
mem_cases (Memᴰ.tail m) f g = g m

module _ {ℓ} {A : Type ℓ} (p : A → Bool) where
  pub mem_of_select : (a : A) (xs : List A) → Memᴰ a (select p xs) → Memᴰ a xs × (p a ≡ true)
  mem_of_select a [] m = elim m [ ]
  mem_of_select a (x ∷ xs) m = elim (Bool-cases (p x)) [
    | inl e ↦
        mem_cases (rw e at m) (λ q. (Memᴰ.head q, rw q e))
          (λ m'. let (m'', h) = mem_of_select a xs m' in (Memᴰ.tail m'', h))
    | inr e ↦ let (m', h) = mem_of_select a xs (rw e at m) in (Memᴰ.tail m', h)
  ]

  pub mem_select : (a : A) (xs : List A) → Memᴰ a xs → p a ≡ true → Memᴰ a (select p xs)
  mem_select a [] m h = elim m [ ]
  mem_select a (x ∷ xs) m h = elim (Bool-cases (p x)) [
    | inl e ↦ rw e (mem_cases m (λ q. Memᴰ.head q) (λ m'. Memᴰ.tail (mem_select a xs m' h)))
    | inr e ↦ rw e (
        mem_cases m (λ q. absurd (let k : true ≡ false = sym h ∙ ap p q ∙ e in cc))
          (λ m'. mem_select a xs m' h))
  ]

  pub mem_of_find : (a : A) (xs : List A) → find p xs ≡ some a → Memᴰ a xs × (p a ≡ true)
  mem_of_find a [] h = cc
  mem_of_find a (x ∷ xs) h = elim (Bool-cases (p x)) [
    | inl e ↦
        let q : x ≡ a = some-injective x a (rw e at h) in
        (Memᴰ.head (sym q), subst (λ k. p k ≡ true) q e)
    | inr e ↦ let (m, k) = mem_of_find a xs (rw e at h) in (Memᴰ.tail m, k)
  ]

pub All-mem {ℓ κ} : {A : Type ℓ} (P : A → Type κ) {a : A} (xs : List A) → All P xs → Memᴰ a xs → P a
All-mem P [] h m = elim m [ ]
All-mem P {a} (x ∷ xs) h m = mem_cases m (λ q. subst P (sym q) h.0) (λ m'. All-mem P xs h.1 m')

pub All-of_mem {ℓ κ} :
    {A : Type ℓ} (P : A → Type κ) (xs : List A) → ((a : A) → Memᴰ a xs → P a) → All P xs
All-of_mem P [] h = tt
All-of_mem P (x ∷ xs) h = (h x (Memᴰ.head refl), All-of_mem P xs (λ a m. h a (Memᴰ.tail m)))

pub mem_map {ℓ κ} :
    {A : Type ℓ} {B : Type κ} (f : A → B) (a : A) (xs : List A) → Memᴰ a xs → Memᴰ (f a) (map f xs)
mem_map f a [] m = elim m [ ]
mem_map f a (x ∷ xs) m = mem_cases m (λ q. Memᴰ.head (ap f q)) (λ m'. Memᴰ.tail (mem_map f a xs m'))

pub mem_of_map {ℓ κ} :
    {A : Type ℓ} {B : Type κ} (f : A → B) (b : B) (xs : List A)
    → Memᴰ b (map f xs)
    → (a : A) × Memᴰ a xs × (b ≡ f a)
mem_of_map f b [] m = elim m [ ]
mem_of_map f b (x ∷ xs) m =
    mem_cases m (λ q. (x, Memᴰ.head refl, q))
      (λ m'. let (a, m'', e) = mem_of_map f b xs m' in (a, Memᴰ.tail m'', e))

-- A primary key: no two rows have the same.
module _ {ℓ} {A : Type ℓ} (key : A → ℕ) where
  abbrev pub Distinct : List A → Type 0
  Distinct [] = Unit
  Distinct (x ∷ xs) = All (λ y. key y ≢ key x) xs × Distinct xs

  pub Distinct-mem :
      (a b : A) (xs : List A) → Distinct xs → Memᴰ a xs → Memᴰ b xs → key a ≡ key b → a ≡ b
  Distinct-mem a b [] d m n e = elim m [ ]
  Distinct-mem a b (x ∷ xs) d m n e =
      mem_cases m
        (λ p.
          mem_cases n (λ q. p ∙ sym q)
            (λ n'. absurd (All-mem (λ y. key y ≢ key x) xs d.0 n' (sym e ∙ ap key p))))
        (λ m'.
          mem_cases n (λ q. absurd (All-mem (λ y. key y ≢ key x) xs d.0 m' (e ∙ ap key q)))
            (λ n'. Distinct-mem a b xs d.1 m' n' e))

module _ {ℓ} {A : Type ℓ} where
  pub mem_append_left : (a : A) (xs ys : List A) → Memᴰ a xs → Memᴰ a (xs ++ ys)
  mem_append_left a [] ys m = elim m [ ]
  mem_append_left a (x ∷ xs) ys m =
      mem_cases m (λ q. Memᴰ.head q) (λ m'. Memᴰ.tail (mem_append_left a xs ys m'))

  pub mem_append_right : (a : A) (xs ys : List A) → Memᴰ a ys → Memᴰ a (xs ++ ys)
  mem_append_right a [] ys m = m
  mem_append_right a (x ∷ xs) ys m = Memᴰ.tail (mem_append_right a xs ys m)

-- `limit`, and `slice(0, limit)`.
abbrev pub first_of {ℓ} : {A : Type ℓ} → ℕ → List A → List A
first_of limit [] = []
first_of zero (x ∷ xs) = []
first_of (suc limit) (x ∷ xs) = x ∷ first_of limit xs

pub first_of-all {ℓ} :
    {A : Type ℓ} (limit : ℕ) (xs : List A) → length xs ≤ limit → first_of limit xs ≡ xs
first_of-all limit [] h = refl
first_of-all zero (x ∷ xs) h = absurd (omega (arith, h))
first_of-all (suc limit) (x ∷ xs) h =
    ap (λ rest. x ∷ rest) (first_of-all limit xs (omega (arith, h)))

pub length-select {ℓ} : {A : Type ℓ} (p : A → Bool) (xs : List A) → length (select p xs) ≤ length xs
length-select p [] = omega arith
length-select p (x ∷ xs) = ground (arith, length-select p xs)
