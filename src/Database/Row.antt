-- ===== src/Database/Row.antt =====
-- The row with an ID, through the statements of a repository, when IDs are unique.
use mathlib.Core.Option.{some-injective, some, none}
use pi_container.Prelude.Table.{update_where, delete_where}
use pi_container.Database.Records.{Workspace}
use pi_container.Database.Tables.{Db, update_workspaces, delete_workspaces}
use pi_container.Database.Lifecycle.{one_row}
use pi_container.Prelude.{
  map, ℕ, Bool, ◌==◌, Distinct, if◌then◌else◌, ◌≡◌, find, true, List, All, ◌∷◌, length, ◌≢◌,
  Bool-cases, select, [], arith, inl, subst, inr, refl, sym, false, ◌∙◌,
}

abbrev pub row_id : Workspace → ℕ
row_id w = w.id

abbrev pub has_id : ℕ → Workspace → Bool
has_id id w = w.id == id

-- The database has unique IDs and this row.
pub record HasRow (id : ℕ) (w : Workspace) (db : Db) : Type 0 where
  pub unique : Distinct row_id db.workspaces
  pub found : find (has_id id) db.workspaces ≡ some w

abbrev choose : Bool → Workspace → Workspace → Workspace
choose flag a b = if flag then a else b

module _ (id : ℕ) (p : Workspace → Bool) (f : Workspace → Workspace)
    (only : (w : Workspace) → p w ≡ true → w.id ≡ id)
    (same : (w : Workspace) → (f w).id ≡ w.id) where
  absent-select : (ws : List Workspace) → All (λ (w : Workspace). w.id ≢ id) ws → select p ws ≡ []
  absent-select [] h = refl
  absent-select (w ∷ ws) h = elim (Bool-cases (p w)) [
    | inl e ↦ absurd (h.0 (only w e))
    | inr e ↦ rw e (absent-select ws h.1)
  ]

  absent-update_where :
      (other : ℕ) (ws : List Workspace)
      → All (λ (w : Workspace). w.id ≢ other) ws
      → All (λ (w : Workspace). w.id ≢ other) (update_where p f ws)
  unfolding update_where
  absent-update_where other [] h = tt
  absent-update_where other (w ∷ ws) h =
      (ground (arith, same w, h.0), absent-update_where other ws h.1)

  Distinct-update_where :
      (ws : List Workspace) → Distinct row_id ws → Distinct row_id (update_where p f ws)
  unfolding update_where
  Distinct-update_where [] d = tt
  Distinct-update_where (w ∷ ws) d = elim (Bool-cases (p w)) [
    | inl e ↦ rw e (
      subst (λ k. All (λ (y : Workspace). y.id ≢ k) (update_where p f ws)) (sym (same w))
          (absent-update_where w.id ws d.0),
      Distinct-update_where ws d.1,
    )
    | inr e ↦ rw e (absent-update_where w.id ws d.0, Distinct-update_where ws d.1)
  ]

  find_here :
      (flag : Bool) (v : Workspace) (vs : List Workspace)
      → v.id ≡ id
      → find (has_id id) ((if flag then f v else v) ∷ vs) ≡ some (if flag then f v else v)
  find_here true v vs e = ground (arith, same v, e)
  find_here false v vs e = ground (arith, e)

  find_later :
      (flag : Bool) (v : Workspace) (vs : List Workspace)
      → has_id id v ≡ false
      → find (has_id id) ((if flag then f v else v) ∷ vs) ≡ find (has_id id) vs
  find_later true v vs e = ground (arith, same v, e)
  find_later false v vs e = ground (arith, e)

  find-update_where :
      (w : Workspace) (ws : List Workspace)
      → find (has_id id) ws ≡ some w
      → find (has_id id) (update_where p f ws) ≡ some (if p w then f w else w)
  unfolding update_where
  find-update_where w [] e = cc
  find-update_where w (v ∷ vs) e = elim (Bool-cases (has_id id v)) [
    | inl this ↦
        let q : v ≡ w = some-injective v w (rw this at e) in
        subst
          (λ x.
            find (has_id id) ((if p v then f v else v) ∷ update_where p f vs)
            ≡ some (if p x then f x else x))
          q (find_here (p v) v (update_where p f vs) (ground (arith, this)))
    | inr other ↦
        find_later (p v) v (update_where p f vs) other ∙ find-update_where w vs (rw other at e)
  ]

  count_head :
      (v : Workspace) (vs : List Workspace)
      → select p vs ≡ []
      → length (select p (v ∷ vs)) ≡ (if p v then 1 else 0)
  count_head v vs e = elim (Bool-cases (p v)) [ inl h ↦ rw (h, e) refl | inr h ↦ rw (h, e) refl ]

  count_other :
      (v : Workspace) (vs : List Workspace)
      → (p v ≡ true → ⊥)
      → length (select p (v ∷ vs)) ≡ length (select p vs)
  count_other v vs h = elim (Bool-cases (p v)) [ inl e ↦ absurd (h e) | inr e ↦ rw e refl ]

  count_row :
      (w : Workspace) (ws : List Workspace)
      → Distinct row_id ws
      → find (has_id id) ws ≡ some w
      → length (select p ws) ≡ (if p w then 1 else 0)
  count_row w [] d e = cc
  count_row w (v ∷ vs) d e = elim (Bool-cases (has_id id v)) [
    | inl this ↦
        let q : v ≡ w = some-injective v w (rw this at e) in
        let rest = absent-select vs (
          subst (λ k. All (λ (y : Workspace). y.id ≢ k) vs)
            (let k : v.id ≡ id = ground (arith, this) in k) d.0) in
        subst (λ x. length (select p (v ∷ vs)) ≡ (if p x then 1 else 0)) q (count_head v vs rest)
    | inr other ↦
        count_other v vs (λ h. ground (arith, only v h, other)) ∙ count_row w vs d.1 (rw other at e)
  ]

  length-updated : (ws : List Workspace) → length (map f (select p ws)) ≡ length (select p ws)
  length-updated [] = refl
  length-updated (w ∷ ws) = ground (arith, length-updated ws)

  -- An update of the row: whether it happens, and the row after it.
  pub HasRow-update :
      (w : Workspace) (db : Db)
      → HasRow id w db
      → let (done, after) = one_row (update_workspaces p f db) in
        (done ≡ p w) × HasRow id (if p w then f w else w) after
  unfolding update_workspaces
  HasRow-update w db h = (
    elim (Bool-cases (p w)) [
      | inl e ↦
          let one = count_row w db.workspaces h.unique h.found in
          ground (arith, length-updated db.workspaces, one, e)
      | inr e ↦
          let one = count_row w db.workspaces h.unique h.found in
          ground (arith, length-updated db.workspaces, one, e)
    ],
    record {
      unique = Distinct-update_where db.workspaces h.unique;
      found = find-update_where w db.workspaces h.found;
    },
  )

module _ (id : ℕ) (p : Workspace → Bool) (only : (w : Workspace) → p w ≡ true → w.id ≡ id) where
  absent-delete_where :
      (other : ℕ) (ws : List Workspace)
      → All (λ (w : Workspace). w.id ≢ other) ws
      → All (λ (w : Workspace). w.id ≢ other) (delete_where p ws)
  unfolding delete_where
  absent-delete_where other [] h = tt
  absent-delete_where other (w ∷ ws) h = elim (Bool-cases (p w)) [
    | inl e ↦ rw e (absent-delete_where other ws h.1)
    | inr e ↦ rw e (h.0, absent-delete_where other ws h.1)
  ]

  not_found :
      (ws : List Workspace)
      → All (λ (w : Workspace). w.id ≢ id) ws
      → find (has_id id) (delete_where p ws) ≡ none
  unfolding delete_where
  not_found [] h = refl
  not_found (w ∷ ws) h = ground (arith, h.0, not_found ws h.1)

  stays_other : (v : Workspace) → has_id id v ≡ false → p v ≡ false
  stays_other v other = elim (Bool-cases (p v)) [
    | inl e ↦ absurd (let same = only v e in ground (arith, same, other))
    | inr e ↦ e
  ]

  find-delete_where :
      (w : Workspace) (ws : List Workspace)
      → Distinct row_id ws
      → find (has_id id) ws ≡ some w
      → p w ≡ true
      → find (has_id id) (delete_where p ws) ≡ none
  unfolding delete_where
  find-delete_where w [] d e h = refl
  find-delete_where w (v ∷ vs) d e h = elim (Bool-cases (has_id id v)) [
    | inl this ↦
        let q : v ≡ w = some-injective v w (rw this at e) in
        let gone : p v ≡ true = subst (λ x. p x ≡ true) (sym q) h in
        let same : v.id ≡ id = ground (arith, this) in
        rw gone (not_found vs (subst (λ k. All (λ (y : Workspace). y.id ≢ k) vs) same d.0))
    | inr other ↦
        let stays : p v ≡ false = stays_other v other in
        rw (stays, other) (find-delete_where w vs d.1 (rw other at e) h)
  ]

  -- A deletion of the row.
  pub HasRow-delete :
      (now : ℕ) (w : Workspace) (db : Db)
      → HasRow id w db
      → p w ≡ true
      → let (done, after) = one_row (delete_workspaces now p db) in
        (done ≡ true) × (find (has_id id) after.workspaces ≡ none)
  unfolding delete_workspaces
  HasRow-delete now w db h e =
      let one = count_row id p (λ v. v) only (λ v. refl) w db.workspaces h.unique h.found in
      (ground (arith, one, e), find-delete_where w db.workspaces h.unique h.found e)
