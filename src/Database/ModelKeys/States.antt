-- ===== src/Database/ModelKeys/States.antt =====
-- The calls of packages/database/src/model-keys.ts as one step function, and the states of a key:
-- issuing, active, revoking, revoked.
use pi_container.Prelude.Table.{Evolves, born, Evolves-refl, Evolves-update_where, update_where}
use pi_container.Database.Records.{
  ModelKey, ModelKeyStatus, IssueReason, RevokeReason, Workspace, KeyAlias,
}
use pi_container.Database.Tables.{Db, revocable}
use pi_container.Database.ModelKeys.{
  begin_model_key_issue, activate_model_key, request_model_key_revoke, RevokeTarget,
  record_model_key_revoke_result, expire_stale_model_key_issues, revoke_stale, these_keys,
  is_stale_issue, new_key, next_alias, ℕ, List, Bool, Option, false, true, none, find, some,
  BeginModelKeyIssueResult, issue_unless_live, issue_on, issue_for, if◌then◌else◌, insert_key,
  lost_race, meets_index, state_is, not, WorkspaceState, any, workspace_unavailable, is_user,
  has_relay, User, relay_disabled, is_active, user_disabled, select, can_revoke, can_activate,
  revocation_begun, activated, can_settle, deletion_confirmed, deletion_failed,
}
use pi_container.Prelude.{◌≡◌, arith, ◌∷◌, refl, [], sym, ◌∙◌, ◌&&◌, Bool-cases, inl, inr}

-- The fields are the methods' arguments, without the time; an issue has the database that its first
-- queries saw, which may be any.
pub data KeyRequest : Type 0 where
  begins_issue : Db → ℕ → ℕ → IssueReason → KeyRequest
  activates : ℕ → KeyRequest
  requests_revoke : RevokeTarget → RevokeReason → Option ℕ → Option ℕ → KeyRequest
  records_result : ℕ → Option ℕ → KeyRequest
  expires_stale : ℕ → KeyRequest

unfoldable pub apply_key : ℕ → KeyRequest → Db → Db
apply_key now (begins_issue seen id workspace reason) db =
    (begin_model_key_issue seen id workspace reason now db).1
apply_key now (activates id) db = (activate_model_key id db).1
apply_key now (requests_revoke target reason error actor) db =
    (request_model_key_revoke target reason error actor now db).1
apply_key now (records_result id outcome) db = record_model_key_revoke_result id outcome now db
apply_key now (expires_stale older_than) db = (expire_stale_model_key_issues older_than now db).1

unfoldable pub run_keys : List (ℕ × KeyRequest) → Db → Db
run_keys [] db = db
run_keys ((now, request) ∷ requests) db = run_keys requests (apply_key now request db)

-- Which status may follow another in one call.
abbrev pub status_follows : ModelKeyStatus → ModelKeyStatus → Bool
status_follows ModelKeyStatus.issuing ModelKeyStatus.revoked = false
status_follows ModelKeyStatus.issuing status = true
status_follows ModelKeyStatus.active ModelKeyStatus.issuing = false
status_follows ModelKeyStatus.active ModelKeyStatus.revoked = false
status_follows ModelKeyStatus.active status = true
status_follows ModelKeyStatus.revoking ModelKeyStatus.revoking = true
status_follows ModelKeyStatus.revoking ModelKeyStatus.revoked = true
status_follows ModelKeyStatus.revoking status = false
status_follows ModelKeyStatus.revoked ModelKeyStatus.revoked = true
status_follows ModelKeyStatus.revoked status = false

abbrev pub is_revoked : ModelKeyStatus → Bool
is_revoked ModelKeyStatus.revoked = true
is_revoked _ = false

-- The same key, in a state that may follow; a revoked key is as it was.
pub record Moves (a b : ModelKey) : Type 0 where
  pub same_id : b.id ≡ a.id
  pub same_owner : b.user_id ≡ a.user_id
  pub same_workspace : b.workspace_id ≡ a.workspace_id
  pub same_alias : b.key_alias ≡ a.key_alias
  pub follows : status_follows a.status b.status ≡ true
  pub final : is_revoked a.status ≡ true → b ≡ a

-- A new key is being issued, was never revoked, and is the first of the table.
abbrev pub Issuing : ModelKey → Type 0
Issuing key = (key.status ≡ ModelKeyStatus.issuing) × (key.revoked_at ≡ none)

abbrev pub Never : ModelKey → Type 0
Never key = ⊥

abbrev pub KeysMove : Db → Db → Type 0
KeysMove old new = Evolves Issuing Moves Never old.model_keys new.model_keys

Moves-refl : (key : ModelKey) → Moves key key
Moves-refl key = record {
  same_id = refl;
  same_owner = refl;
  same_workspace = refl;
  same_alias = refl;
  follows = ground arith;
  final = λ _. refl;
}

keys_stay : (db : Db) → KeysMove db db
keys_stay db = Evolves-refl Issuing Moves Never Moves-refl db.model_keys

refused_or :
    (refused : Bool) (result : BeginModelKeyIssueResult) (db : Db)
    (other : BeginModelKeyIssueResult × Db) (P : List ModelKey → Type 0)
    → P db.model_keys
    → P other.1.model_keys
    → P (if◌then◌else◌ {A = BeginModelKeyIssueResult × Db} refused (result, db) other).1.model_keys
refused_or true result db other P same h = same
refused_or false result db other P same h = h

module _ (id : ℕ) (reason : IssueReason) (now : ℕ) (seen db : Db) (P : List ModelKey → Type 0)
    (same : P db.model_keys)
    (inserted : (w user : ℕ) (alias : KeyAlias)
      → any (meets_index id w alias) db.model_keys ≡ false
      → P (new_key id w user alias reason now ∷ db.model_keys)) where
  lost_race_cases : (winner : Option ModelKey) → P (lost_race winner db).1.model_keys
  unfolding lost_race
  lost_race_cases none = same
  lost_race_cases (some key) = same

  insert_key_cases :
      (w user worker : ℕ) (alias : KeyAlias)
      → P (insert_key id w user worker alias reason now db).1.model_keys
  unfolding insert_key
  insert_key_cases w user worker alias =
      elim (Bool-cases (any (meets_index id w alias) db.model_keys)) [
        | inl e ↦ rw (e, insert_key) (lost_race_cases (find (revocable w) db.model_keys))
        | inr e ↦ rw (e, insert_key) (inserted w user alias e)
      ]

  issue_unless_live_cases :
      (w user worker : ℕ) (live : Option ModelKey)
      → P (issue_unless_live seen live id w user worker reason now db).1.model_keys
  unfolding issue_unless_live
  issue_unless_live_cases w user worker none =
      insert_key_cases w user worker (next_alias w seen.model_keys)
  issue_unless_live_cases w user worker (some key) = same

  issue_on_cases :
      (worker : Option ℕ) (w : Workspace) → P (issue_on seen worker id w reason now db).1.model_keys
  unfolding issue_on
  issue_on_cases none w = same
  issue_on_cases (some worker) w =
      refused_or (state_is w.state WorkspaceState.deleting) workspace_unavailable db _ P same (
        refused_or (not (any (has_relay worker) seen.workers)) relay_disabled db _ P same
          (issue_unless_live_cases w.id w.user_id worker (find (revocable w.id) seen.model_keys)))

  issue_for_cases : (w : Option Workspace) → P (issue_for seen w id reason now db).1.model_keys
  unfolding issue_for
  issue_for_cases none = same
  issue_for_cases (some w) =
      refused_or (not (any (is_user w.user_id) seen.users)) workspace_unavailable db _ P same (
        refused_or (not (any (λ (u : User). is_user w.user_id u && is_active u.status) seen.users))
          user_disabled db _ P same (issue_on_cases w.worker_id w))

  -- The insert happens when it conflicts with no key, or nothing does.
  pub begin_model_key_issue_cases :
      (workspace : ℕ) → P (begin_model_key_issue seen id workspace reason now db).1.model_keys
  unfolding begin_model_key_issue
  begin_model_key_issue_cases workspace = issue_for_cases _

-- An update that leaves the identity of a key alone.
abbrev pub Keeps : (ModelKey → ModelKey) → Type 0
Keeps f =
    (key : ModelKey)
    → ((f key).id ≡ key.id)
      × ((f key).user_id ≡ key.user_id)
      × ((f key).workspace_id ≡ key.workspace_id)
      × ((f key).key_alias ≡ key.key_alias)

-- The keys it is for are not revoked, and their new status may follow.
abbrev pub MovesOn : (ModelKey → Bool) → (ModelKey → ModelKey) → Type 0
MovesOn p f =
    (key : ModelKey)
    → p key ≡ true
    → (status_follows key.status (f key).status ≡ true) × (is_revoked key.status ≡ false)

-- What holds after a call, if it holds before it, after an insert that conflicts with no key, and after an update that moves keys on.
module _ (now : ℕ) (db : Db) (P : List ModelKey → Type 0) (same : P db.model_keys)
    (updated : (p : ModelKey → Bool) (f : ModelKey → ModelKey)
      → Keeps f
      → MovesOn p f
      → P (update_where p f db.model_keys)) where
  request_cases :
      (target : RevokeTarget) (reason : RevokeReason) (error actor : Option ℕ)
      → P (request_model_key_revoke target reason error actor now db).1.model_keys
  unfolding request_model_key_revoke
  request_cases target reason error actor =
      updated (can_revoke target) (revocation_begun reason error now)
        (λ key. (refl, refl, refl, refl)) (λ key h. (ground (arith, h), ground (arith, h)))

  revoke_stale_cases : (stale : List ModelKey) → P (revoke_stale stale now db).1.model_keys
  unfolding revoke_stale
  revoke_stale_cases [] = same
  revoke_stale_cases (key ∷ keys) =
      request_cases (these_keys (key ∷ keys)) RevokeReason.issue_failed (some 0) none

  pub apply_key_cases :
      ((id w user : ℕ) (alias : KeyAlias) (reason : IssueReason)
        → any (meets_index id w alias) db.model_keys ≡ false
        → P (new_key id w user alias reason now ∷ db.model_keys))
      → (request : KeyRequest) → P (apply_key now request db).model_keys
  unfolding apply_key activate_model_key record_model_key_revoke_result
      expire_stale_model_key_issues
  apply_key_cases inserted (begins_issue seen id workspace reason) =
      begin_model_key_issue_cases id reason now seen db P same
        (λ w user alias. inserted id w user alias reason) workspace
  apply_key_cases inserted (activates id) =
      updated (can_activate id) activated (λ key. (refl, refl, refl, refl))
        (λ key h. (ground (arith, h), ground (arith, h)))
  apply_key_cases inserted (requests_revoke target reason error actor) =
      request_cases target reason error actor
  apply_key_cases inserted (records_result id none) =
      updated (can_settle id) (deletion_confirmed now) (λ key. (refl, refl, refl, refl))
        (λ key h. (ground (arith, h), ground (arith, h)))
  apply_key_cases inserted (records_result id (some error)) =
      updated (can_settle id) (deletion_failed error now) (λ key. (refl, refl, refl, refl))
        (λ key h. (ground (arith, h), ground (arith, h)))
  apply_key_cases inserted (expires_stale older_than) =
      revoke_stale_cases (select (is_stale_issue older_than) db.model_keys)

update-KeysMove :
    (p : ModelKey → Bool) (f : ModelKey → ModelKey) (keys : List ModelKey)
    → Keeps f
    → MovesOn p f
    → Evolves Issuing Moves Never keys (update_where p f keys)
update-KeysMove p f keys same moves =
    Evolves-update_where Issuing Moves Never Moves-refl p f
      (λ key h. record {
        same_id = (same key).0;
        same_owner = (same key).1;
        same_workspace = (same key).2;
        same_alias = (same key).3;
        follows = (moves key h).0;
        final = λ k. let never : true ≡ false = sym k ∙ (moves key h).1 in cc;
      })
      keys

-- Each call, with any arguments, keeps every key with its owner, Workspace and alias, and moves it on
-- as its state allows, or adds a key that is being issued: no key is forgotten or comes back to life,
-- and a revoked key never changes.
pub apply_key-KeysMove :
    (now : ℕ) (request : KeyRequest) (db : Db) → KeysMove db (apply_key now request db)
apply_key-KeysMove now request db =
    apply_key_cases now db (Evolves Issuing Moves Never db.model_keys) (keys_stay db)
      (λ p f. update-KeysMove p f db.model_keys)
      (λ id w user alias reason e. born (refl, refl) (keys_stay db)) request
