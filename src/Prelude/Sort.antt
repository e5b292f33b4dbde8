-- ===== src/Prelude/Sort.antt =====
-- `Array.prototype.sort` with a numeric key, and `order by`: a stable insertion sort.
use Prim.Native.Nat.{ℕ, suc}
use mathlib.Core.Path.{◌≡◌, refl}
use mathlib.Core.Logic.{inl, inr}
use mathlib.Core.List.{Memᴰ, List, [], ◌∷◌}
use native.Mathlib.Omega.{arith}
use pi_container.Prelude.Lists.{mem_cases, length}
use pi_container.Prelude.Tests.{Bool-cases, leb, if◌then◌else◌}

module _ {ℓ} {A : Type ℓ} (key : A → ℕ) where
  unfoldable pub insert_by : A → List A → List A
  insert_by x [] = x ∷ []
  insert_by x (y ∷ ys) = if leb (key x) (key y) then x ∷ y ∷ ys else y ∷ insert_by x ys

  unfoldable pub order_by : List A → List A
  unfolding insert_by
  order_by [] = []
  order_by (x ∷ xs) = insert_by x (order_by xs)

  pub mem_of_insert_by : (a x : A) (ys : List A) → Memᴰ a (insert_by x ys) → Memᴰ a (x ∷ ys)
  unfolding insert_by
  mem_of_insert_by a x [] m = m
  mem_of_insert_by a x (y ∷ ys) m = elim (Bool-cases (leb (key x) (key y))) [
    | inl e ↦ rw e at m
    | inr e ↦
        mem_cases (rw e at m) (λ q. Memᴰ.tail (Memᴰ.head q))
          (λ m'.
            mem_cases (mem_of_insert_by a x ys m') (λ q. Memᴰ.head q)
              (λ m''. Memᴰ.tail (Memᴰ.tail m'')))
  ]

  pub mem_of_order_by : (a : A) (xs : List A) → Memᴰ a (order_by xs) → Memᴰ a xs
  unfolding order_by
  mem_of_order_by a [] m = m
  mem_of_order_by a (x ∷ xs) m =
      mem_cases (mem_of_insert_by a x (order_by xs) m) (λ q. Memᴰ.head q)
        (λ m'. Memᴰ.tail (mem_of_order_by a xs m'))

  mem_insert_by : (a x : A) (ys : List A) → Memᴰ a (x ∷ ys) → Memᴰ a (insert_by x ys)
  unfolding insert_by
  mem_insert_by a x [] m = m
  mem_insert_by a x (y ∷ ys) m = elim (Bool-cases (leb (key x) (key y))) [
    | inl e ↦ rw e m
    | inr e ↦ rw e (
        mem_cases m (λ q. Memᴰ.tail (mem_insert_by a x ys (Memᴰ.head q)))
          (λ m'.
            mem_cases m' (λ q. Memᴰ.head q)
              (λ m''. Memᴰ.tail (mem_insert_by a x ys (Memᴰ.tail m'')))))
  ]

  pub mem_order_by : (a : A) (xs : List A) → Memᴰ a xs → Memᴰ a (order_by xs)
  unfolding order_by
  mem_order_by a [] m = m
  mem_order_by a (x ∷ xs) m =
      mem_insert_by a x (order_by xs)
        (mem_cases m (λ q. Memᴰ.head q) (λ m'. Memᴰ.tail (mem_order_by a xs m')))

  length-insert_by : (x : A) (ys : List A) → length (insert_by x ys) ≡ suc (length ys)
  unfolding insert_by
  length-insert_by x [] = refl
  length-insert_by x (y ∷ ys) = ground (arith, length-insert_by x ys)

  pub length-order_by : (xs : List A) → length (order_by xs) ≡ length xs
  unfolding order_by
  length-order_by [] = refl
  length-order_by (x ∷ xs) = ground (arith, length-insert_by x (order_by xs), length-order_by xs)
