-- ===== src/Database/ModelKeys.antt =====
-- packages/database/src/model-keys.ts: the virtual keys of the model gateway, from their issue to the
-- confirmed deletion at the gateway. A transaction is one step, but for the issue, which others may
-- overtake; the primary key and the unique indexes are tests of its insert, which does nothing on a
-- conflict.
pub mod Queries
pub mod States
pub mod Live
pub mod Retries
mod Tests
use pi_container.Prelude.{
  first_of, ℕ, zero, suc, ◌+◌, ◌*◌, ◌^◌, Bool, true, false, ◌&&◌, ◌||◌, not, Option, none, some,
  List, [], ◌∷◌, ◌++◌, map, any, find, select, length, min, max, ltb, leb, holds_value, is_null,
  ◌==◌, if◌then◌else◌,
}
use pi_container.Prelude.Table.{update_where}
use pi_container.Prelude.Sort.{order_by}
use pi_container.Database.Records.{
  Workspace, WorkspaceState, Worker, User, ModelKey, ModelKeyStatus, KeyAlias, IssueReason,
  RevokeReason, AuditEvent, AuditDetails, state_is, is_online, key_issued, key_revoked,
  key_revoke_requested,
}
use pi_container.Database.Tables.{Db, append_audit, is_live, revocable}
use pi_container.Database.Users.{is_active, is_user}

-- Retry delay after so many failed deletions: 30 s doubling, at most 10 minutes.
pub model_key_retry_delay_seconds : ℕ → ℕ
model_key_retry_delay_seconds attempts = min (30 * 2 ^ min attempts 10) 600

pub record ModelKeyIssue : Type 0 where
  pub id : ℕ
  pub workspace_id : ℕ
  pub user_id : ℕ
  pub key_alias : KeyAlias
  pub worker_id : ℕ

pub data BeginModelKeyIssueResult : Type 0 where
  issuing : ModelKeyIssue → BeginModelKeyIssueResult
  already_live : KeyAlias → ModelKeyStatus → BeginModelKeyIssueResult
  user_disabled workspace_unavailable relay_disabled : BeginModelKeyIssueResult

abbrev pub is_issuing : ModelKeyStatus → Bool
is_issuing ModelKeyStatus.issuing = true
is_issuing _ = false

abbrev pub is_revoking : ModelKeyStatus → Bool
is_revoking ModelKeyStatus.revoking = true
is_revoking _ = false

abbrev pub has_key_id : ℕ → ModelKey → Bool
has_key_id id key = key.id == id

-- The greatest sequence in the aliases of a Workspace, or 0.
abbrev pub last_sequence : ℕ → List ModelKey → ℕ
last_sequence workspace [] = 0
last_sequence workspace (key ∷ keys) =
    if key.key_alias.workspace == workspace
    then max key.key_alias.sequence (last_sequence workspace keys)
    else last_sequence workspace keys

abbrev pub next_alias : ℕ → List ModelKey → KeyAlias
next_alias workspace keys = record {
  workspace = workspace;
  sequence = last_sequence workspace keys + 1;
}

abbrev pub new_key : ℕ → ℕ → ℕ → KeyAlias → IssueReason → ℕ → ModelKey
new_key id workspace user alias reason now = record {
  id = id;
  workspace_id = some workspace;
  user_id = user;
  key_alias = alias;
  status = ModelKeyStatus.issuing;
  issue_reason = reason;
  revoke_reason = none;
  created_at = now;
  revoke_requested_at = none;
  revoked_at = none;
  revoke_attempts = 0;
  next_attempt_at = none;
  last_error_code = none;
}

abbrev pub same_alias : KeyAlias → KeyAlias → Bool
same_alias a b = a.workspace == b.workspace && a.sequence == b.sequence

-- A row that the insert meets: in the primary key, or in the unique index on live keys or on aliases.
abbrev pub meets_index : ℕ → ℕ → KeyAlias → ModelKey → Bool
meets_index id workspace alias key =
    has_key_id id key || revocable workspace key || same_alias key.key_alias alias

lost_race : Option ModelKey → Db → BeginModelKeyIssueResult × Db
lost_race none db = (workspace_unavailable, db)
lost_race (some winner) db = (already_live winner.key_alias winner.status, db)

-- `insert ... on conflict do nothing`, and the look for the winner if nothing was inserted.
insert_key : ℕ → ℕ → ℕ → ℕ → KeyAlias → IssueReason → ℕ → Db → BeginModelKeyIssueResult × Db
unfolding lost_race
insert_key id workspace user worker alias reason now db =
    if any (meets_index id workspace alias) db.model_keys
    then lost_race (find (revocable workspace) db.model_keys) db
    else (
      issuing (record {
        id = id;
        workspace_id = workspace;
        user_id = user;
        key_alias = alias;
        worker_id = worker;
      }),
      record db { model_keys = new_key id workspace user alias reason now ∷ db.model_keys },
    )

abbrev pub has_relay : ℕ → Worker → Bool
has_relay worker w = w.id == worker && w.model_relay_enabled

-- What the first queries of the transaction see is `seen`.
module _ (seen : Db) where
  issue_unless_live :
      Option ModelKey → ℕ → ℕ → ℕ → ℕ → IssueReason → ℕ → Db → BeginModelKeyIssueResult × Db
  unfolding insert_key
  issue_unless_live (some key) id workspace user worker reason now db =
      (already_live key.key_alias key.status, db)
  issue_unless_live none id workspace user worker reason now db =
      insert_key id workspace user worker (next_alias workspace seen.model_keys) reason now db

  issue_on : Option ℕ → ℕ → Workspace → IssueReason → ℕ → Db → BeginModelKeyIssueResult × Db
  unfolding issue_unless_live
  issue_on none id w reason now db = (workspace_unavailable, db)
  issue_on (some worker) id w reason now db =
      if state_is w.state WorkspaceState.deleting
      then (workspace_unavailable, db)
      else if not (any (has_relay worker) seen.workers)
      then (relay_disabled, db)
      else issue_unless_live (find (revocable w.id) seen.model_keys) id w.id w.user_id worker reason
          now db

  issue_for : Option Workspace → ℕ → IssueReason → ℕ → Db → BeginModelKeyIssueResult × Db
  unfolding issue_on
  issue_for none id reason now db = (workspace_unavailable, db)
  issue_for (some w) id reason now db =
      if not (any (is_user w.user_id) seen.users)
      then (workspace_unavailable, db)
      else if not (any (λ (u : User). is_user w.user_id u && is_active u.status) seen.users)
      then (user_disabled, db)
      else issue_on w.worker_id id w reason now db

abbrev has_workspace_id : ℕ → Workspace → Bool
has_workspace_id id w = w.id == id

-- The transaction takes shared locks, so another one may insert a key between its first queries, which
-- see the database `seen`, and its insert.
unfoldable pub begin_model_key_issue :
    Db → ℕ → ℕ → IssueReason → ℕ → Db → BeginModelKeyIssueResult × Db
unfolding issue_for
begin_model_key_issue seen id workspace reason now db =
    issue_for seen (find (has_workspace_id workspace) seen.workspaces) id reason now db

abbrev key_event : Option ℕ → ModelKey → AuditDetails → AuditEvent
key_event actor key details = record {
  actor = actor;
  owner = some key.user_id;
  workspace = key.workspace_id;
  worker = none;
  details = details;
}

abbrev pub can_activate : ℕ → ModelKey → Bool
can_activate id key = has_key_id id key && is_issuing key.status

abbrev pub activated : ModelKey → ModelKey
activated key = record key { status = ModelKeyStatus.active }

abbrev issued_event : ModelKey → AuditEvent
issued_event key = key_event none key (key_issued key.key_alias key.issue_reason)

-- False when the row was revoked meanwhile.
unfoldable pub activate_model_key : ℕ → Db → Bool × Db
unfolding update_where
activate_model_key id db = (
  any (can_activate id) db.model_keys,
  append_audit (record db { model_keys = update_where (can_activate id) activated db.model_keys })
      (map issued_event (select (can_activate id) db.model_keys)),
)

-- Which live keys `requestModelKeyRevoke` is for.
pub record RevokeTarget : Type 0 where
  pub key_ids : Option (List ℕ)
  pub workspace_id : Option ℕ
  pub user_id : Option ℕ

abbrev id_among : Option (List ℕ) → ℕ → Bool
id_among none id = true
id_among (some ids) id = any (◌==◌ id) ids

abbrev for_workspace : Option ℕ → Option ℕ → Bool
for_workspace none workspace = true
for_workspace (some target) workspace = holds_value workspace target

abbrev for_user : Option ℕ → ℕ → Bool
for_user none user = true
for_user (some target) user = user == target

abbrev pub can_revoke : RevokeTarget → ModelKey → Bool
can_revoke target key =
    is_live key.status
    && id_among target.key_ids key.id
    && for_workspace target.workspace_id key.workspace_id
    && for_user target.user_id key.user_id

abbrev pub revocation_begun : RevokeReason → Option ℕ → ℕ → ModelKey → ModelKey
revocation_begun reason error now key = record key {
  status = ModelKeyStatus.revoking;
  revoke_reason = some reason;
  revoke_requested_at = some now;
  next_attempt_at = some now;
  last_error_code = error;
}

abbrev request_event : RevokeReason → Option ℕ → ModelKey → AuditEvent
request_event reason actor key = key_event actor key (key_revoke_requested key.key_alias reason)

unfoldable pub request_model_key_revoke :
    RevokeTarget → RevokeReason → Option ℕ → Option ℕ → ℕ → Db → ℕ × Db
unfolding update_where
request_model_key_revoke target reason error actor now db =
    let keys = select (can_revoke target) db.model_keys in
    (
      length keys,
      append_audit
          (record db {
            model_keys =
                update_where (can_revoke target) (revocation_begun reason error now) db.model_keys;
          })
          (map (request_event reason actor) keys),
    )

abbrev pub can_settle : ℕ → ModelKey → Bool
can_settle id key = has_key_id id key && is_revoking key.status

abbrev pub deletion_confirmed : ℕ → ModelKey → ModelKey
deletion_confirmed now key = record key {
  status = ModelKeyStatus.revoked;
  revoked_at = some now;
  next_attempt_at = none;
  last_error_code = none;
}

abbrev pub deletion_failed : ℕ → ℕ → ModelKey → ModelKey
deletion_failed error now key = record key {
  revoke_attempts = key.revoke_attempts + 1;
  next_attempt_at = some (now + min (30 * 2 ^ min key.revoke_attempts 10) 600 * 1000);
  last_error_code = some error;
}

abbrev revoked_event : ModelKey → AuditEvent
revoked_event key = key_event none key (key_revoked key.key_alias key.revoke_reason)

-- The gateway's answer to a deletion: `none` is success, a number its error code.
unfoldable pub record_model_key_revoke_result : ℕ → Option ℕ → ℕ → Db → Db
unfolding update_where
record_model_key_revoke_result id none now db =
    append_audit
      (record db {
        model_keys = update_where (can_settle id) (deletion_confirmed now) db.model_keys;
      })
      (map revoked_event (select (can_settle id) db.model_keys))
record_model_key_revoke_result id (some error) now db = record db {
  model_keys = update_where (can_settle id) (deletion_failed error now) db.model_keys;
}

abbrev pub is_stale_issue : ℕ → ModelKey → Bool
is_stale_issue older_than key = is_issuing key.status && ltb key.created_at older_than

abbrev pub these_keys : List ModelKey → RevokeTarget
these_keys keys = record {
  key_ids = some (map (λ (key : ModelKey). key.id) keys);
  workspace_id = none;
  user_id = none;
}

-- 0 is the error code ISSUE_INTERRUPTED.
revoke_stale : List ModelKey → ℕ → Db → ℕ × Db
unfolding request_model_key_revoke
revoke_stale [] now db = (0, db)
revoke_stale (key ∷ keys) now db =
    request_model_key_revoke (these_keys (key ∷ keys)) RevokeReason.issue_failed (some 0) none now
      db

-- Issuing rows that a crash left behind.
unfoldable pub expire_stale_model_key_issues : ℕ → ℕ → Db → ℕ × Db
unfolding revoke_stale
expire_stale_model_key_issues older_than now db =
    revoke_stale (select (is_stale_issue older_than) db.model_keys) now db
