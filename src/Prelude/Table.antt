-- ===== src/Prelude/Table.antt =====
-- A database table as a list of rows: `update ... where ... returning`, `delete ... where`, and
-- the relation between the rows before and after a statement.
use Prim.Native.Nat.{suc}
use mathlib.Core.Path.{◌≡◌, refl, sym, ap, ◌∙◌}
use mathlib.Core.Bool.{Bool, true, false}
use mathlib.Core.Logic.{inl, inr}
use mathlib.Core.List.{List, [], ◌∷◌, Memᴰ}
use pi_container.Prelude.Tests.{if◌then◌else◌, Bool-cases}
use pi_container.Prelude.Lists.{All, length, mem_cases}

module _ {ℓ} {A : Type ℓ} where
  unfoldable pub update_where : (A → Bool) → (A → A) → List A → List A
  update_where p f [] = []
  update_where p f (r ∷ rs) = (if p r then f r else r) ∷ update_where p f rs

  unfoldable pub delete_where : (A → Bool) → List A → List A
  delete_where p [] = []
  delete_where p (r ∷ rs) = if p r then delete_where p rs else r ∷ delete_where p rs

-- How the rows of a table evolve: each row is kept in a changed form that `R` allows, is deleted
-- as `Gone` allows, or is new as `Born` allows.
pub data Evolves {ℓ κ} {A : Type ℓ} (Born : A → Type κ) (R : A → A → Type κ) (Gone : A → Type κ)
    : List A → List A → Type (ℓ ⊔ κ) where
  nil : Evolves Born R Gone [] []
  born :
      {b : A} {xs ys : List A}
      → Born b
      → Evolves Born R Gone xs ys
      → Evolves Born R Gone xs (b ∷ ys)
  kept :
      {a b : A} {xs ys : List A}
      → R a b
      → Evolves Born R Gone xs ys
      → Evolves Born R Gone (a ∷ xs) (b ∷ ys)
  gone :
      {a : A} {xs ys : List A}
      → Gone a
      → Evolves Born R Gone xs ys
      → Evolves Born R Gone (a ∷ xs) ys

module _ {ℓ κ} {A : Type ℓ} (Born : A → Type κ) (R : A → A → Type κ) (Gone : A → Type κ)
    (same : (a : A) → R a a) where
  pub Evolves-refl : (xs : List A) → Evolves Born R Gone xs xs
  Evolves-refl [] = nil
  Evolves-refl (a ∷ xs) = kept (same a) (Evolves-refl xs)

  pub Evolves-update_where :
      (p : A → Bool) (f : A → A)
      → ((a : A) → p a ≡ true → R a (f a))
      → (xs : List A) → Evolves Born R Gone xs (update_where p f xs)
  unfolding update_where
  Evolves-update_where p f h [] = nil
  Evolves-update_where p f h (a ∷ xs) = elim (Bool-cases (p a)) [
    | inl e ↦ rw e (kept (h a e) (Evolves-update_where p f h xs))
    | inr e ↦ rw e (kept (same a) (Evolves-update_where p f h xs))
  ]

  pub Evolves-delete_where :
      (p : A → Bool)
      → ((a : A) → p a ≡ true → Gone a)
      → (xs : List A) → Evolves Born R Gone xs (delete_where p xs)
  unfolding delete_where
  Evolves-delete_where p h [] = nil
  Evolves-delete_where p h (a ∷ xs) = elim (Bool-cases (p a)) [
    | inl e ↦ rw e (gone (h a e) (Evolves-delete_where p h xs))
    | inr e ↦ rw e (kept (same a) (Evolves-delete_where p h xs))
  ]

-- What holds of new rows and is kept by each allowed change holds of every row.
pub Evolves-All {ℓ κ μ} :
    {A : Type ℓ} {Born : A → Type κ} {R : A → A → Type κ} {Gone : A → Type κ} (P : A → Type μ)
    → ((b : A) → Born b → P b)
    → ((a b : A) → R a b → P a → P b)
    → {xs ys : List A} → Evolves Born R Gone xs ys
    → All P xs
    → All P ys
Evolves-All P start step nil h = tt
Evolves-All P start step (born b e) h = (start _ b, Evolves-All P start step e h)
Evolves-All P start step (kept r e) h = (step _ _ r h.0, Evolves-All P start step e h.1)
Evolves-All P start step (gone g e) h = Evolves-All P start step e h.1

pub length-update_where {ℓ} :
    {A : Type ℓ} (p : A → Bool) (f : A → A) (xs : List A) → length (update_where p f xs) ≡ length xs
unfolding update_where
length-update_where p f [] = refl
length-update_where p f (x ∷ xs) = ap suc (length-update_where p f xs)

pub All-update_where {ℓ κ} :
    {A : Type ℓ} (P : A → Type κ) (p : A → Bool) (f : A → A)
    → ((a : A) → p a ≡ true → P (f a))
    → ((a : A) → p a ≡ false → P a)
    → (xs : List A) → All P (update_where p f xs)
unfolding update_where
All-update_where P p f changed same [] = tt
All-update_where P p f changed same (a ∷ xs) =
    let rest = All-update_where P p f changed same xs in
    elim (Bool-cases (p a)) [ inl e ↦ rw e (changed a e, rest) | inr e ↦ rw e (same a e, rest) ]

pub mem_update_where {ℓ} :
    {A : Type ℓ} (p : A → Bool) (f : A → A) (a : A) (xs : List A)
    → Memᴰ a xs
    → p a ≡ true
    → Memᴰ (f a) (update_where p f xs)
unfolding update_where
mem_update_where p f a [] m h = elim m [ ]
mem_update_where p f a (x ∷ xs) m h =
    mem_cases m
      (λ q. elim (Bool-cases (p x)) [
        | inl e ↦ rw e (Memᴰ.head (ap f q))
        | inr e ↦ absurd (let k : true ≡ false = sym h ∙ ap p q ∙ e in cc)
      ])
      (λ m'. Memᴰ.tail (mem_update_where p f a xs m' h))

pub mem_delete_where {ℓ} :
    {A : Type ℓ} (p : A → Bool) (a : A) (xs : List A)
    → Memᴰ a xs
    → p a ≡ false
    → Memᴰ a (delete_where p xs)
unfolding delete_where
mem_delete_where p a [] m h = elim m [ ]
mem_delete_where p a (x ∷ xs) m h = elim (Bool-cases (p x)) [
  | inl e ↦
      mem_cases m (λ q. absurd (let k : true ≡ false = sym e ∙ sym (ap p q) ∙ h in cc))
        (λ m'. rw e (mem_delete_where p a xs m' h))
  | inr e ↦
      mem_cases m (λ q. rw e (Memᴰ.head q)) (λ m'. rw e (Memᴰ.tail (mem_delete_where p a xs m' h)))
]

pub mem_of_delete_where {ℓ} :
    {A : Type ℓ} (p : A → Bool) (a : A) (xs : List A)
    → Memᴰ a (delete_where p xs)
    → Memᴰ a xs × (p a ≡ false)
unfolding delete_where
mem_of_delete_where p a [] m = elim m [ ]
mem_of_delete_where p a (x ∷ xs) m = elim (Bool-cases (p x)) [
  | inl e ↦ let (k, h) = mem_of_delete_where p a xs (rw e at m) in (Memᴰ.tail k, h)
  | inr e ↦
      mem_cases (rw e at m) (λ q. (Memᴰ.head q, ap p q ∙ e))
        (λ m'. let (k, h) = mem_of_delete_where p a xs m' in (Memᴰ.tail k, h))
]
