-- ===== src/Database/Lifecycle.antt =====
-- packages/database/src/workspace-lifecycle.ts: the methods that move a Workspace through a run.
-- Each is one guarded update; the guard and the new columns have a definition of their own.
use pi_container.Prelude.{
  ℕ, Bool, true, false, ◌&&◌, not, none, [], ◌∷◌, List, ◌==◌, length, holds_value, if◌then◌else◌,
}
use pi_container.Database.Records.{
  WorkspaceState, DesiredState, Workspace, RevokeReason, state_is, state_in,
}
use pi_container.Database.Tables.{Db, update_workspaces, delete_workspaces, request_revoke}

-- `rows.length === 1`.
abbrev pub one_row : List Workspace × Db → Bool × Db
one_row (rows, db) = (length rows == 1, db)

abbrev pub assigned : ℕ → ℕ → Workspace → Bool
assigned workspace worker w = w.id == workspace && holds_value w.worker_id worker

abbrev pub owned : ℕ → ℕ → ℕ → Workspace → Bool
owned workspace user worker w =
    w.id == workspace && w.user_id == user && holds_value w.worker_id worker

unfoldable pub can_finish_start : ℕ → ℕ → Workspace → Bool
can_finish_start workspace worker w =
    assigned workspace worker w && state_is w.state WorkspaceState.starting

unfoldable pub start_finished : ℕ → Workspace → Workspace
start_finished now w = record w {
  state = WorkspaceState.running;
  updated_at = now;
  last_activity_at = now;
  last_stop_reason = none;
}

unfoldable pub finish_workspace_start : ℕ → ℕ → ℕ → Db → Bool × Db
finish_workspace_start workspace worker now db =
    one_row (update_workspaces (can_finish_start workspace worker) (start_finished now) db)

unfoldable pub can_begin_stop : ℕ → ℕ → ℕ → Workspace → Bool
can_begin_stop workspace user worker w =
    owned workspace user worker w && state_is w.state WorkspaceState.running

unfoldable pub stop_begun : ℕ → Workspace → Workspace
stop_begun now w = record w {
  state = WorkspaceState.stopping;
  desired_state = DesiredState.stopped;
  updated_at = now;
  last_activity_at = now;
}

unfoldable pub begin_workspace_stop : ℕ → ℕ → ℕ → ℕ → Db → Bool × Db
begin_workspace_stop workspace user worker now db =
    one_row (update_workspaces (can_begin_stop workspace user worker) (stop_begun now) db)

unfoldable pub can_finish_stop : ℕ → ℕ → Workspace → Bool
can_finish_stop workspace worker w =
    assigned workspace worker w && state_is w.state WorkspaceState.stopping

unfoldable pub stop_finished : ℕ → Workspace → Workspace
stop_finished now w = record w {
  state = WorkspaceState.stopped;
  updated_at = now;
  last_activity_at = now;
}

unfoldable pub finish_workspace_stop : ℕ → ℕ → ℕ → Db → Bool × Db
finish_workspace_stop workspace worker now db =
    one_row (update_workspaces (can_finish_stop workspace worker) (stop_finished now) db)

abbrev pub transient_states : List WorkspaceState
transient_states =
    WorkspaceState.starting ∷ WorkspaceState.stopping ∷ WorkspaceState.deleting
    ∷ WorkspaceState.upgrading ∷ []

unfoldable pub can_begin_delete : ℕ → ℕ → ℕ → Workspace → Bool
can_begin_delete workspace user worker w =
    owned workspace user worker w && not (state_in w.state transient_states)

unfoldable pub delete_begun : ℕ → Workspace → Workspace
delete_begun now w = record w {
  state = WorkspaceState.deleting;
  desired_state = DesiredState.deleted;
  updated_at = now;
  last_activity_at = now;
}

-- The model key stops working when the delete begins.
unfoldable pub begin_workspace_delete : ℕ → ℕ → ℕ → ℕ → Db → Bool × Db
begin_workspace_delete workspace user worker now db =
    let (rows, updated) =
      update_workspaces (can_begin_delete workspace user worker) (delete_begun now) db in
    if length rows == 1
    then (true, request_revoke workspace RevokeReason.workspace_deleted now updated)
    else (false, updated)

unfoldable pub can_delete_confirmed : ℕ → ℕ → ℕ → Workspace → Bool
can_delete_confirmed workspace user worker w =
    owned workspace user worker w && state_is w.state WorkspaceState.deleting

unfoldable pub delete_confirmed_workspace : ℕ → ℕ → ℕ → ℕ → Db → Bool × Db
delete_confirmed_workspace workspace user worker now db =
    one_row (delete_workspaces now (can_delete_confirmed workspace user worker) db)

unfoldable pub can_fail : ℕ → ℕ → Workspace → Bool
can_fail workspace worker w = assigned workspace worker w && state_in w.state transient_states

unfoldable pub failed : Bool → ℕ → Workspace → Workspace
failed worker_offline now w = record w {
  state = if worker_offline then WorkspaceState.worker_offline else WorkspaceState.error;
  updated_at = now;
}

unfoldable pub mark_workspace_runtime_failure : ℕ → ℕ → Bool → ℕ → Db → Db
mark_workspace_runtime_failure workspace worker worker_offline now db =
    (update_workspaces (can_fail workspace worker) (failed worker_offline now) db).1
