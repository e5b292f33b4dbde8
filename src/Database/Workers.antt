-- ===== src/Database/Workers.antt =====
-- packages/database/src/workers.ts: the credential, the revocation and the gateway route of a Worker, with
-- the triggers of packages/database/migrations/0013_lifecycle.sql on `enabled`.
pub mod Revocation
pub mod Rows
mod Tests
use pi_container.Database.Records.{
  Workspace, WorkspaceState, Worker, WorkerStatus, RevokeReason, AuditEvent, AuditDetails, state_in,
  is_online, worker_deleted, worker_enabled, lost,
}
use pi_container.Database.Tables.{
  Db, update_workspaces, update_workers, append_audit, revocable, request_revoke,
}
use pi_container.Database.Recovery.{is_assigned_to, went_offline}
use pi_container.Prelude.{
  ℕ, Bool, List, if◌then◌else◌, none, false, select, Option, find, true, length, ◌==◌, ◌∷◌, ◌&&◌,
  some, [], ◌+◌, not, at_most, ltb, map, is_null,
}
use pi_container.Prelude.Table.{update_where, delete_where}
use pi_container.Prelude.Sort.{order_by}

abbrev pub is_worker_id : ℕ → Worker → Bool
is_worker_id id w = w.id == id

-- The states of a Workspace that its Worker reported.
abbrev pub reported_states : List WorkspaceState
reported_states =
    WorkspaceState.starting ∷ WorkspaceState.running ∷ WorkspaceState.stopping
    ∷ WorkspaceState.stopped ∷ WorkspaceState.error ∷ WorkspaceState.upgrading ∷ []

abbrev pub is_reported : ℕ → Workspace → Bool
is_reported worker w = is_assigned_to worker w && state_in w.state reported_states

-- `update workspaces set state = 'WORKER_OFFLINE' ...`.
unfoldable pub forget_reports : ℕ → ℕ → Db → Db
unfolding is_assigned_to
forget_reports worker now db = (update_workspaces (is_reported worker) (went_offline now) db).1

abbrev pub credential_rotated : ℕ → ℕ → Worker → Worker
credential_rotated hash now w = record w {
  credential_hash = hash;
  status = if w.enabled then WorkerStatus.offline else WorkerStatus.disabled;
  last_heartbeat_at = none;
  updated_at = now;
}

unfoldable pub rotate_worker_credential : ℕ → ℕ → ℕ → Db → Bool × Db
unfolding forget_reports
rotate_worker_credential worker hash now db =
    let (rows, changed) = update_workers (is_worker_id worker) (credential_rotated hash now) db in
    if length rows == 1 then (true, forget_reports worker now changed) else (false, changed)

pub data WorkerDisableResult : Type 0 where
  disabled : ℕ → ℕ → WorkerDisableResult
  not_found already_disabled : WorkerDisableResult

abbrev worker_event : ℕ → AuditDetails → AuditEvent
worker_event worker details = record {
  actor = none;
  owner = none;
  workspace = none;
  worker = some worker;
  details = details;
}

-- The loop of the trigger over the Workspaces, with the number of keys.
unfoldable pub revoke_each : ℕ → List Workspace → ℕ × Db → ℕ × Db
revoke_each now [] result = result
revoke_each now (w ∷ ws) (count, db) = revoke_each now ws (
  count + length (select (revocable w.id) db.model_keys),
  request_revoke w.id RevokeReason.worker_disabled now db,
)

-- With the status that `workers_enabled_status` gives.
abbrev pub switched_off : ℕ → Worker → Worker
switched_off now w = record w { enabled = false; status = WorkerStatus.disabled; updated_at = now }

-- The change of status is not audited by itself, since `enabled` changes with it.
abbrev pub set_workers : (Worker → Worker) → ℕ → Db → Db
set_workers f worker db = record db { workers = update_where (is_worker_id worker) f db.workers }

-- `workers_after_enabled_change` for a Worker that is switched off, once its Workspaces are offline.
unfoldable pub record_disable : ℕ → WorkerStatus → ℕ → Db → WorkerDisableResult × Db
unfolding revoke_each is_assigned_to
record_disable worker status now offline =
    let assigned = select (is_assigned_to worker) offline.workspaces in
    let (keys, revoked) = revoke_each now assigned (0, offline) in
    (
      disabled (length assigned) keys,
      append_audit revoked
          (worker_event worker (AuditDetails.worker_disabled status (length assigned) keys) ∷ []),
    )

unfoldable pub after_disable : ℕ → WorkerStatus → ℕ → Db → WorkerDisableResult × Db
unfolding record_disable forget_reports
after_disable worker status now db = record_disable worker status now (forget_reports worker now db)

unfoldable pub disable_found : Option Worker → ℕ → ℕ → Db → WorkerDisableResult × Db
unfolding after_disable update_where
disable_found none worker now db = (not_found, db)
disable_found (some w) worker now db =
    if not w.enabled
    then (already_disabled, db)
    else after_disable worker w.status now (set_workers (switched_off now) worker db)

unfoldable pub disable_worker : ℕ → ℕ → Db → WorkerDisableResult × Db
unfolding disable_found
disable_worker worker now db = disable_found (find (is_worker_id worker) db.workers) worker now db

pub data WorkerEnableResult : Type 0 where
  enabled unknown already_enabled : WorkerEnableResult

abbrev switched_on : ℕ → ℕ → Worker → Worker
switched_on hash now w = record w {
  enabled = true;
  status = WorkerStatus.offline;
  credential_hash = hash;
  last_heartbeat_at = none;
  updated_at = now;
}

enable_found : Option Worker → ℕ → ℕ → ℕ → Db → WorkerEnableResult × Db
unfolding update_where
enable_found none worker hash now db = (unknown, db)
enable_found (some w) worker hash now db = if w.enabled then (already_enabled, db) else (
  WorkerEnableResult.enabled,
  append_audit (set_workers (switched_on hash now) worker db)
      (worker_event worker worker_enabled ∷ []),
)

-- A row that is not enabled is DISABLED, by a constraint of the table.
unfoldable pub enable_worker : ℕ → ℕ → ℕ → Db → WorkerEnableResult × Db
unfolding enable_found
enable_worker worker hash now db =
    enable_found (find (is_worker_id worker) db.workers) worker hash now db

abbrev pub is_silent : ℕ → Worker → Bool
is_silent cutoff w = w.enabled && is_online w.status && at_most w.last_heartbeat_at cutoff

abbrev pub lost_contact : ℕ → Worker → Worker
lost_contact now w = record w { status = WorkerStatus.offline; updated_at = now }

unfoldable pub forget_each : ℕ → List Worker → Db → Db
unfolding forget_reports
forget_each now [] db = db
forget_each now (w ∷ ws) db = forget_each now ws (forget_reports w.id now db)

unfoldable pub mark_workers_offline : ℕ → ℕ → Db → ℕ × Db
unfolding forget_each
mark_workers_offline cutoff now db =
    let (rows, changed) = update_workers (is_silent cutoff) (lost_contact now) db in
    (length rows, forget_each now rows changed)

abbrev beats_after : ℕ → Option ℕ → Bool
beats_after cutoff none = false
beats_after cutoff (some at) = ltb cutoff at

abbrev pub is_routable : ℕ → ℕ → Worker → Bool
is_routable worker cutoff w =
    is_worker_id worker w
    && w.enabled
    && is_online w.status
    && beats_after cutoff w.last_heartbeat_at
    && not (is_null w.gateway_base_url)

-- The row of the route, whose gateway URL is not null.
unfoldable pub find_worker_gateway_route : ℕ → ℕ → Db → Option Worker
find_worker_gateway_route worker cutoff db = find (is_routable worker cutoff) db.workers

unfoldable pub configure_worker_gateway : ℕ → ℕ → ℕ → Db → Bool × Db
unfolding update_where
configure_worker_gateway worker url now db = (
  length (select (is_worker_id worker) db.workers) == 1,
  set_workers (λ (w : Worker). record w { gateway_base_url = some url; updated_at = now }) worker
      db,
)

unfoldable pub find_worker_by_credential_hash : ℕ → Db → Option Worker
find_worker_by_credential_hash hash db = find (λ (w : Worker). w.credential_hash == hash) db.workers

unfoldable pub assignments_of : List Worker → List Workspace → List (ℕ × List ℕ)
unfolding is_assigned_to
assignments_of [] rows = []
assignments_of (w ∷ ws) rows =
    let rest = assignments_of ws rows in
    if w.enabled
    then rest
    else (w.id, map (λ (x : Workspace). x.id) (select (is_assigned_to w.id) rows)) ∷ rest

unfoldable pub list_revoked_worker_assignments : Db → List (ℕ × List ℕ)
unfolding assignments_of
list_revoked_worker_assignments db =
    assignments_of (order_by (λ (w : Worker). w.id) db.workers) db.workspaces

pub data WorkerDeleteResult : Type 0 where
  deleted missing still_enabled : WorkerDeleteResult
  has_workspaces : ℕ → WorkerDeleteResult

delete_found : Option Worker → ℕ → Db → WorkerDeleteResult × Db
unfolding delete_where is_assigned_to
delete_found none worker db = (missing, db)
delete_found (some w) worker db =
    let assigned = length (select (is_assigned_to worker) db.workspaces) in
    if w.enabled
    then (still_enabled, db)
    else if ltb 0 assigned
    then (has_workspaces assigned, db)
    else (
      deleted,
      append_audit (record db { workers = delete_where (is_worker_id worker) db.workers })
          (worker_event worker worker_deleted ∷ []),
    )

unfoldable pub delete_worker : ℕ → Db → WorkerDeleteResult × Db
unfolding delete_found
delete_worker worker db = delete_found (find (is_worker_id worker) db.workers) worker db
