-- ===== src/Database/Recovery.antt =====
-- packages/database/src/recovery.ts: Workspaces after a restart of the Control Plane and after a
-- reconnect of their Worker.
use pi_container.Prelude.{
  [], ℕ, Bool, true, false, ◌&&◌, not, Option, none, some, List, map, any, length, ◌==◌, ltb,
  holds_value, is_null, if◌then◌else◌, ◌∷◌,
}
use pi_container.Prelude.Sort.{order_by}
use pi_container.Database.Records.{
  WorkspaceState, DesiredState, WorkerStatus, Workspace, Worker, state_is, desires, is_online,
}
use pi_container.Database.Tables.{Db, update_workspaces, update_workers, delete_workspaces}
use pi_container.Database.Lifecycle.{one_row, assigned, owned}

silent_since : ℕ → Option ℕ → Bool
silent_since started_at none = true
silent_since started_at (some at) = ltb at started_at

unfoldable pub is_stale : ℕ → Worker → Bool
unfolding silent_since
is_stale started_at worker =
    is_online worker.status && silent_since started_at worker.last_heartbeat_at

unfoldable pub worker_lost : ℕ → Worker → Worker
worker_lost now worker = record worker {
  status = if worker.enabled then WorkerStatus.offline else WorkerStatus.disabled;
  updated_at = now;
}

abbrev pub assigned_to_any : List ℕ → Option ℕ → Bool
assigned_to_any ids none = false
assigned_to_any ids (some worker) = any (◌==◌ worker) ids

unfoldable pub is_abandoned : List ℕ → Workspace → Bool
is_abandoned ids w =
    assigned_to_any ids w.worker_id && not (state_is w.state WorkspaceState.worker_offline)

unfoldable pub went_offline : ℕ → Workspace → Workspace
went_offline now w = record w { state = WorkspaceState.worker_offline; updated_at = now }

unfoldable pub abandon : ℕ → List ℕ → Db → Db
abandon now [] db = db
abandon now (id ∷ ids) db = (update_workspaces (is_abandoned (id ∷ ids)) (went_offline now) db).1

unfoldable pub mark_all_workers_offline_for_recovery : ℕ → ℕ → Db → ℕ × Db
mark_all_workers_offline_for_recovery started_at now db =
    let (workers, marked) = update_workers (is_stale started_at) (worker_lost now) db in
    (length workers, abandon now (map (λ (w : Worker). w.id) workers) marked)

unfoldable pub is_assigned_to : ℕ → Workspace → Bool
is_assigned_to worker w = holds_value w.worker_id worker

-- A UUID sorts like the number that it stands for.
unfoldable pub begin_worker_reconciliation : ℕ → ℕ → Db → List Workspace × Db
begin_worker_reconciliation worker now db =
    let (rows, changed) = update_workspaces (is_assigned_to worker) (went_offline now) db in
    (order_by (λ (w : Workspace). w.id) rows, changed)

-- What the caller may settle a recovered Workspace as.
pub data RecoveredState : Type 0 where
  running stopped error : RecoveredState

abbrev pub recovered_state : RecoveredState → WorkspaceState
recovered_state running = WorkspaceState.running
recovered_state stopped = WorkspaceState.stopped
recovered_state error = WorkspaceState.error

-- An unknown intent follows the observation.
abbrev pub settled_intent : RecoveredState → DesiredState → DesiredState
settled_intent running DesiredState.unknown = DesiredState.running
settled_intent stopped DesiredState.unknown = DesiredState.stopped
settled_intent _ desired = desired

abbrev is_observed : RecoveredState → Bool
is_observed error = false
is_observed _ = true

unfoldable pub can_reconcile : ℕ → ℕ → ℕ → DesiredState → Workspace → Bool
can_reconcile workspace worker image desired w =
    assigned workspace worker w
    && w.runtime_image == image
    && desires w.desired_state desired
    && state_is w.state WorkspaceState.worker_offline

unfoldable pub reconciled : RecoveredState → ℕ → Workspace → Workspace
reconciled observed now w = record w {
  state = recovered_state observed;
  desired_state = settled_intent observed w.desired_state;
  runtime_changed_at =
      if is_observed observed
        && not (is_null w.previous_runtime_image)
        && is_null w.runtime_changed_at
      then some now
      else w.runtime_changed_at;
  updated_at = now;
}

unfoldable pub reconcile_workspace_recovery :
    ℕ → ℕ → ℕ → DesiredState → RecoveredState → ℕ → Db → Bool × Db
reconcile_workspace_recovery workspace worker image desired observed now db =
    one_row (
      update_workspaces (can_reconcile workspace worker image desired) (reconciled observed now) db)

unfoldable pub can_delete_recovered : ℕ → ℕ → ℕ → ℕ → Workspace → Bool
can_delete_recovered workspace user worker image w =
    owned workspace user worker w
    && w.runtime_image == image
    && desires w.desired_state DesiredState.deleted
    && state_is w.state WorkspaceState.worker_offline

unfoldable pub delete_recovered_workspace : ℕ → ℕ → ℕ → ℕ → ℕ → Db → Bool × Db
delete_recovered_workspace workspace user worker image now db =
    one_row (delete_workspaces now (can_delete_recovered workspace user worker image) db)
