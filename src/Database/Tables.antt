-- ===== src/Database/Tables.antt =====
-- The database as one state, with the statements that change it and the triggers that they fire
-- (packages/database/migrations/0012_model_gateway.sql and 0013_lifecycle.sql). A transaction is
-- one step: the statements of the code run under row locks or an advisory lock.
use pi_container.Prelude.{
  ℕ, Bool, true, false, ◌&&◌, Option, none, some, List, [], ◌∷◌, ◌++◌, map, select, ◌==◌,
  holds_value, if◌then◌else◌,
}
use pi_container.Prelude.Table.{update_where, delete_where}
use pi_container.Database.Records.{
  WorkerStatus, User, Session, Workspace, Worker, ModelKey, ModelKeyStatus, RevokeReason,
  AuditEvent, workspace_created, workspace_scheduled, state_changed, workspace_deleted,
  key_revoke_requested, worker_status_changed, state_is,
}

pub record Db : Type 0 where
  pub workspaces : List Workspace
  pub workers : List Worker
  pub users : List User
  pub sessions : List Session
  pub model_keys : List ModelKey
  pub egress_revision : Option ℕ
  pub audit : List AuditEvent

abbrev pub append_audit : Db → List AuditEvent → Db
append_audit db events = record db { audit = db.audit ++ events }

-- The `AFTER UPDATE` trigger of `workspaces`.
same_worker : Option ℕ → Option ℕ → Bool
same_worker none none = true
same_worker (some a) (some b) = a == b
same_worker _ _ = false

scheduled_audit : Workspace → Workspace → Option ℕ → List AuditEvent
unfolding same_worker
scheduled_audit old new none = []
scheduled_audit old new (some worker) =
    if same_worker old.worker_id (some worker)
    then []
    else record {
      actor = none;
      owner = some new.user_id;
      workspace = some new.id;
      worker = some worker;
      details = workspace_scheduled (elim old.worker_id [ none ↦ false | some _ ↦ true ]);
    }
      ∷ []

update_audit : Workspace → Workspace → List AuditEvent
unfolding scheduled_audit
update_audit old new =
    scheduled_audit old new new.worker_id
    ++ (if state_is old.state new.state
        then []
        else record {
          actor = none;
          owner = some new.user_id;
          workspace = some new.id;
          worker = new.worker_id;
          details = state_changed old.state new.state;
        }
          ∷ [])

updates_audit : (Workspace → Workspace) → List Workspace → List AuditEvent
updates_audit f [] = []
updates_audit f (w ∷ ws) = update_audit w (f w) ++ updates_audit f ws

-- `update workspaces set ... where ... returning ...`: the updated rows, and the new state.
unfoldable pub update_workspaces :
    (Workspace → Bool) → (Workspace → Workspace) → Db → List Workspace × Db
unfolding updates_audit update_audit update_where
update_workspaces p f db =
    let chosen = select p db.workspaces in
    (
      map f chosen,
      record db {
        workspaces = update_where p f db.workspaces;
        audit = db.audit ++ updates_audit f chosen;
      },
    )

abbrev pub is_live : ModelKeyStatus → Bool
is_live ModelKeyStatus.issuing = true
is_live ModelKeyStatus.active = true
is_live _ = false

abbrev pub revocable : ℕ → ModelKey → Bool
revocable workspace key = is_live key.status && holds_value key.workspace_id workspace

unfoldable pub revoke_key : RevokeReason → ℕ → ModelKey → ModelKey
revoke_key reason now key = record key {
  status = ModelKeyStatus.revoking;
  revoke_reason = some reason;
  revoke_requested_at = some now;
  next_attempt_at = some now;
}

revoke_audit : RevokeReason → ModelKey → AuditEvent
revoke_audit reason key = record {
  actor = none;
  owner = some key.user_id;
  workspace = key.workspace_id;
  worker = none;
  details = key_revoke_requested key.key_alias reason;
}

-- `model_keys_request_revoke` for the keys of a Workspace or of a user.
unfoldable pub revoke_where : (ModelKey → Bool) → RevokeReason → ℕ → Db → Db
unfolding revoke_key revoke_audit update_where
revoke_where p reason now db = record db {
  model_keys = update_where p (revoke_key reason now) db.model_keys;
  audit = db.audit ++ map (revoke_audit reason) (select p db.model_keys);
}

unfoldable pub request_revoke : ℕ → RevokeReason → ℕ → Db → Db
unfolding revoke_where
request_revoke workspace reason now db = revoke_where (revocable workspace) reason now db

abbrev pub revocable_for : ℕ → ModelKey → Bool
revocable_for user key = is_live key.status && key.user_id == user

-- `ON DELETE SET NULL` of `model_keys.workspace_id`.
detach_key : ℕ → ModelKey → ModelKey
detach_key workspace key =
    if holds_value key.workspace_id workspace then record key { workspace_id = none } else key

-- The `BEFORE DELETE` trigger revokes the keys of the row, and the `AFTER DELETE` one records it.
delete_row : ℕ → Workspace → Db → Db
unfolding request_revoke detach_key
delete_row now w db =
    let revoked = request_revoke w.id RevokeReason.workspace_deleted now db in
    record revoked {
      model_keys = map (detach_key w.id) revoked.model_keys;
      audit =
          revoked.audit
          ++ record {
            actor = none;
            owner = some w.user_id;
            workspace = some w.id;
            worker = w.worker_id;
            details = workspace_deleted w.name w.state;
          }
            ∷ [];
    }

delete_rows : ℕ → List Workspace → Db → Db
unfolding delete_row
delete_rows now [] db = db
delete_rows now (w ∷ ws) db = delete_rows now ws (delete_row now w db)

-- `delete from workspaces where ... returning id`.
unfoldable pub delete_workspaces : ℕ → (Workspace → Bool) → Db → List Workspace × Db
unfolding delete_rows delete_where
delete_workspaces now p db =
    let chosen = select p db.workspaces in
    (chosen, record (delete_rows now chosen db) { workspaces = delete_where p db.workspaces })

-- `insert into workspaces`, with the `AFTER INSERT` trigger.
unfoldable pub insert_workspace : Workspace → Db → Db
insert_workspace w db = record db {
  workspaces = w ∷ db.workspaces;
  audit =
      db.audit
      ++ record {
        actor = none;
        owner = some w.user_id;
        workspace = some w.id;
        worker = w.worker_id;
        details = workspace_created w.name w.runtime_image;
      }
        ∷ [];
}

-- `update workers set status = ...` where `enabled` does not change.
status_code : WorkerStatus → ℕ
status_code WorkerStatus.registered = 0
status_code WorkerStatus.online = 1
status_code WorkerStatus.offline = 2
status_code WorkerStatus.disabled = 3

workers_audit : (Worker → Worker) → List Worker → List AuditEvent
unfolding status_code
workers_audit f [] = []
workers_audit f (w ∷ ws) =
    (if status_code w.status == status_code (f w).status
      then []
      else record {
        actor = none;
        owner = none;
        workspace = none;
        worker = some w.id;
        details = worker_status_changed w.status (f w).status;
      }
        ∷ [])
    ++ workers_audit f ws

unfoldable pub update_workers : (Worker → Bool) → (Worker → Worker) → Db → List Worker × Db
unfolding workers_audit update_where
update_workers p f db =
    let chosen = select p db.workers in
    (
      map f chosen,
      record db {
        workers = update_where p f db.workers;
        audit = db.audit ++ workers_audit f chosen;
      },
    )
