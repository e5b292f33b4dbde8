-- ===== src/Database/RuntimeChanges/Rows.antt =====
-- The rows of `workspaces` after a method of runtime-changes.ts.
use pi_container.Prelude.{ℕ, List, [], ◌∷◌, String, ◌≡◌, refl}
use pi_container.Prelude.Table.{update_where}
use pi_container.Database.Records.{Workspace, AuditDetails, RuntimeChangeDirection}
use pi_container.Database.Tables.{Db, update_workspaces}
use pi_container.Database.RuntimeChanges.{
  RuntimeChangeRestore, record_change, can_begin_change, change_begun, can_finish_change,
  change_finished, can_revert_change, change_reverted, begin_workspace_runtime_change,
  finish_workspace_runtime_change, revert_workspace_runtime_change,
}

record_change-workspaces :
    (workspace worker actor : ℕ) (details : Workspace → AuditDetails) (rows : List Workspace)
    (db : Db)
    → (record_change workspace worker actor details (rows, db)).1.workspaces ≡ db.workspaces
unfolding record_change
record_change-workspaces workspace worker actor details [] db = refl
record_change-workspaces workspace worker actor details (row ∷ rows) db = refl

module _ (workspace worker : ℕ) where
  pub workspaces-begin_change :
      (from to : ℕ) (direction : RuntimeChangeDirection) (actor now : ℕ) (db : Db)
      → (begin_workspace_runtime_change workspace worker from to direction actor now
          db).1.workspaces
        ≡ update_where
            (can_begin_change workspace worker from to)
            (change_begun from to now)
            db.workspaces
  unfolding begin_workspace_runtime_change update_workspaces
  workspaces-begin_change from to direction actor now db =
      record_change-workspaces workspace worker actor _ _ _

  pub workspaces-finish_change :
      (to actor now : ℕ) (db : Db)
      → (finish_workspace_runtime_change workspace worker to actor now db).1.workspaces
        ≡ update_where (can_finish_change workspace worker to) (change_finished now) db.workspaces
  unfolding finish_workspace_runtime_change update_workspaces
  workspaces-finish_change to actor now db = record_change-workspaces workspace worker actor _ _ _

  pub workspaces-revert_change :
      (restore : RuntimeChangeRestore) (code : String) (actor now : ℕ) (db : Db)
      → (revert_workspace_runtime_change workspace worker restore code actor now db).1.workspaces
        ≡ update_where
            (can_revert_change workspace worker)
            (change_reverted restore now)
            db.workspaces
  unfolding revert_workspace_runtime_change update_workspaces
  workspaces-revert_change restore code actor now db =
      record_change-workspaces workspace worker actor _ _ _
