-- ===== src/Database/RuntimeChanges.antt =====
-- packages/database/src/runtime-changes.ts: a Runtime change is written down as an intent before
-- the Worker is asked, and is then completed or taken back.
pub mod Rows
use pi_container.Prelude.{
  ℕ, Bool, true, false, ◌&&◌, ◌||◌, not, Option, none, some, [], ◌∷◌, String, ◌==◌, holds_value,
  is_null,
}
use pi_container.Database.Records.{
  WorkspaceState, DesiredState, Workspace, RuntimeChangeDirection, AuditDetails,
  runtime_change_requested, runtime_changed, runtime_change_reverted, state_is, desires,
}
use pi_container.Database.Tables.{Db, update_workspaces, append_audit}
use pi_container.Database.Lifecycle.{assigned}
use pi_container.Prelude.{List}

-- The states that a clean refusal restores.
pub data RestoredState : Type 0 where
  stopped error : RestoredState

abbrev pub restored_state : RestoredState → WorkspaceState
restored_state stopped = WorkspaceState.stopped
restored_state error = WorkspaceState.error

pub record RuntimeChangeRestore : Type 0 where
  pub runtime_image : ℕ
  pub previous_runtime_image : Option ℕ
  pub runtime_changed_at : Option ℕ
  pub state : RestoredState

-- What the three methods do with the rows of their update: nothing, or one Audit event.
record_change : ℕ → ℕ → ℕ → (Workspace → AuditDetails) → List Workspace × Db → Bool × Db
record_change workspace worker actor details ([], db) = (false, db)
record_change workspace worker actor details (row ∷ rows, db) = (
  true,
  append_audit db (
      record {
        actor = some actor;
        owner = some row.user_id;
        workspace = some workspace;
        worker = some worker;
        details = details row;
      }
      ∷ []),
)

unfoldable pub can_begin_change : ℕ → ℕ → ℕ → ℕ → Workspace → Bool
can_begin_change workspace worker from to w =
    assigned workspace worker w
    && desires w.desired_state DesiredState.stopped
    && (state_is w.state WorkspaceState.stopped && w.runtime_image == from
        || state_is w.state WorkspaceState.error
          && not (is_null w.previous_runtime_image)
          && is_null w.runtime_changed_at
          && (w.runtime_image == from || w.runtime_image == to)
          && (holds_value w.previous_runtime_image from || holds_value w.previous_runtime_image to))

unfoldable pub change_begun : ℕ → ℕ → ℕ → Workspace → Workspace
change_begun from to now w = record w {
  state = WorkspaceState.upgrading;
  runtime_image = to;
  previous_runtime_image = some from;
  runtime_changed_at = none;
  updated_at = now;
}

pub begin_workspace_runtime_change : ℕ → ℕ → ℕ → ℕ → RuntimeChangeDirection → ℕ → ℕ → Db → Bool × Db
unfolding record_change
begin_workspace_runtime_change workspace worker from to direction actor now db =
    record_change workspace worker actor (λ _. runtime_change_requested from to direction)
      (update_workspaces (can_begin_change workspace worker from to) (change_begun from to now) db)

unfoldable pub can_finish_change : ℕ → ℕ → ℕ → Workspace → Bool
can_finish_change workspace worker to w =
    assigned workspace worker w
    && state_is w.state WorkspaceState.upgrading
    && w.runtime_image == to

unfoldable pub change_finished : ℕ → Workspace → Workspace
change_finished now w = record w {
  state = WorkspaceState.stopped;
  runtime_changed_at = some now;
  updated_at = now;
}

pub finish_workspace_runtime_change : ℕ → ℕ → ℕ → ℕ → ℕ → Db → Bool × Db
unfolding record_change
finish_workspace_runtime_change workspace worker to actor now db =
    record_change workspace worker actor (λ row. runtime_changed row.previous_runtime_image to)
      (update_workspaces (can_finish_change workspace worker to) (change_finished now) db)

unfoldable pub can_revert_change : ℕ → ℕ → Workspace → Bool
can_revert_change workspace worker w =
    assigned workspace worker w && state_is w.state WorkspaceState.upgrading

unfoldable pub change_reverted : RuntimeChangeRestore → ℕ → Workspace → Workspace
change_reverted restore now w = record w {
  state = restored_state restore.state;
  runtime_image = restore.runtime_image;
  previous_runtime_image = restore.previous_runtime_image;
  runtime_changed_at = restore.runtime_changed_at;
  updated_at = now;
}

-- The Worker refused before changing anything: the Workspace is as it was.
pub revert_workspace_runtime_change : ℕ → ℕ → RuntimeChangeRestore → String → ℕ → ℕ → Db → Bool × Db
unfolding record_change
revert_workspace_runtime_change workspace worker restore code actor now db =
    record_change workspace worker actor (λ _. runtime_change_reverted restore.runtime_image code)
      (update_workspaces (can_revert_change workspace worker) (change_reverted restore now) db)
