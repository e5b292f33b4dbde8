-- ===== src/Database/ModelKeys/Live.antt =====
-- The unique indexes of `model_keys`: one live key of a Workspace, and one key of an alias.
use pi_container.Prelude.Table.{update_where}
use pi_container.Database.Records.{ModelKey, ModelKeyStatus, IssueReason, KeyAlias}
use pi_container.Database.Tables.{Db, revocable, is_live}
use pi_container.Database.ModelKeys.{new_key, meets_index, any, ℕ, List, Bool, ◌∷◌, true}
use pi_container.Database.ModelKeys.States.{
  KeyRequest, apply_key, run_keys, apply_key_cases, Keeps, MovesOn, status_follows,
}
use pi_container.Prelude.{
  false, ◌≡◌, ◌≤◌, All, ◌≢◌, arith, if◌then◌else◌, [], ◌+◌, refl, sym, subst, ap, ◌∙◌,
}

-- How many keys of a Workspace are issuing or active.
unfoldable pub live_count : ℕ → List ModelKey → ℕ
live_count workspace [] = 0
live_count workspace (key ∷ keys) =
    (if revocable workspace key then 1 else 0) + live_count workspace keys

abbrev pub AliasesDiffer : List ModelKey → Type 0
AliasesDiffer [] = Unit
AliasesDiffer (key ∷ keys) =
    All (λ (other : ModelKey). other.key_alias ≢ key.key_alias) keys × AliasesDiffer keys

-- No Workspace has two live keys, and no two keys have the same alias.
abbrev pub IsIndexed : List ModelKey → Type 0
IsIndexed keys = ((workspace : ℕ) → live_count workspace keys ≤ 1) × AliasesDiffer keys

follows-live :
    (a b : ModelKeyStatus) → status_follows a b ≡ true → is_live b ≡ true → is_live a ≡ true
follows-live a b h k = ground (arith, h, k)

module _ (p : ModelKey → Bool) (f : ModelKey → ModelKey) (same : Keeps f)
    (moves : MovesOn p f) where
  revocable-moved :
      (workspace : ℕ) (key : ModelKey)
      → p key ≡ true
      → revocable workspace (f key) ≡ true
      → revocable workspace key ≡ true
  revocable-moved workspace key h k =
      let live = follows-live key.status (f key).status (moves key h).0 in
      let place = (same key).2 in ground (arith, live, place, k)

  live_count-update_where :
      (workspace : ℕ) (keys : List ModelKey)
      → live_count workspace (update_where p f keys) ≤ live_count workspace keys
  unfolding live_count update_where
  live_count-update_where workspace [] = omega arith
  live_count-update_where workspace (key ∷ keys) =
      ground (arith, revocable-moved workspace key, live_count-update_where workspace keys)

  key_alias-kept :
      (moved : Bool) (key : ModelKey) → (if moved then f key else key).key_alias ≡ key.key_alias
  key_alias-kept true key = (same key).3
  key_alias-kept false key = refl

  absent-update_where :
      (name : KeyAlias) (keys : List ModelKey)
      → All (λ (other : ModelKey). other.key_alias ≢ name) keys
      → All (λ (other : ModelKey). other.key_alias ≢ name) (update_where p f keys)
  unfolding update_where
  absent-update_where name [] h = tt
  absent-update_where name (key ∷ keys) h =
      (λ e. h.0 (sym (key_alias-kept (p key) key) ∙ e), absent-update_where name keys h.1)

  AliasesDiffer-update_where :
      (keys : List ModelKey) → AliasesDiffer keys → AliasesDiffer (update_where p f keys)
  unfolding update_where
  AliasesDiffer-update_where [] h = tt
  AliasesDiffer-update_where (key ∷ keys) h = (
    subst (λ name. All (λ (other : ModelKey). other.key_alias ≢ name) (update_where p f keys))
        (sym (key_alias-kept (p key) key)) (absent-update_where key.key_alias keys h.0),
    AliasesDiffer-update_where keys h.1,
  )

no_conflict-count :
    (id workspace : ℕ) (alias : KeyAlias) (keys : List ModelKey)
    → any (meets_index id workspace alias) keys ≡ false
    → live_count workspace keys ≡ 0
unfolding live_count
no_conflict-count id workspace alias [] h = refl
no_conflict-count id workspace alias (key ∷ keys) h =
    ground (arith, h, no_conflict-count id workspace alias keys)

inserted-count :
    (id w user : ℕ) (alias : KeyAlias) (reason : IssueReason) (now : ℕ) (keys : List ModelKey)
    (workspace : ℕ)
    → any (meets_index id w alias) keys ≡ false
    → live_count workspace keys ≤ 1
    → live_count workspace (new_key id w user alias reason now ∷ keys) ≤ 1
unfolding live_count
inserted-count id w user alias reason now keys workspace e h =
    ground (arith, no_conflict-count id w alias keys e, h)

inserted-absent :
    (id workspace : ℕ) (alias : KeyAlias) (keys : List ModelKey)
    → any (meets_index id workspace alias) keys ≡ false
    → All (λ (other : ModelKey). other.key_alias ≢ alias) keys
inserted-absent id workspace alias [] h = tt
inserted-absent id workspace alias (key ∷ keys) h = (
  λ e.
      let place : key.key_alias.workspace ≡ alias.workspace =
        ap (λ (a : KeyAlias). a.workspace) e in
      let number : key.key_alias.sequence ≡ alias.sequence = ap (λ (a : KeyAlias). a.sequence) e in
      ground (arith, h, place, number),
  inserted-absent id workspace alias keys (ground (arith, h)),
)

-- Each call keeps the indexes.
apply_key-IsIndexed :
    (now : ℕ) (request : KeyRequest) (db : Db)
    → IsIndexed db.model_keys
    → IsIndexed (apply_key now request db).model_keys
apply_key-IsIndexed now request db h =
    apply_key_cases now db IsIndexed h
      (λ p f same moves. (
        λ workspace.
            let fewer = live_count-update_where p f same moves workspace db.model_keys in
            let before = h.0 workspace in omega (arith, fewer, before),
        AliasesDiffer-update_where p f same moves db.model_keys h.1,
      ))
      (λ id w user alias reason e. (
        λ workspace.
            inserted-count id w user alias reason now db.model_keys workspace e (h.0 workspace),
        (inserted-absent id w alias db.model_keys e, h.1),
      ))
      request

-- After any calls with any arguments, no Workspace has two live keys and no two keys have the same
-- alias, if that was so before, whatever an issue saw before others overtook its insert.
pub run_keys-IsIndexed :
    (requests : List (ℕ × KeyRequest)) (db : Db)
    → IsIndexed db.model_keys
    → IsIndexed (run_keys requests db).model_keys
unfolding run_keys
run_keys-IsIndexed [] db h = h
run_keys-IsIndexed ((now, request) ∷ requests) db h =
    run_keys-IsIndexed requests (apply_key now request db) (apply_key-IsIndexed now request db h)
