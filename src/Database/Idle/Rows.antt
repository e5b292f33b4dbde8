-- ===== src/Database/Idle/Rows.antt =====
-- The rows of `workspaces` after an idle stop has begun.
use pi_container.Prelude.{ℕ, List, [], ◌∷◌, ◌≡◌, refl}
use pi_container.Prelude.Table.{update_where}
use pi_container.Database.Records.{Workspace}
use pi_container.Database.Tables.{Db, update_workspaces}
use pi_container.Database.Idle.{
  record_idle_stop, can_begin_idle_stop, idle_stop_begun, begin_idle_stop,
}

record_idle_stop-workspaces :
    (workspace worker hours cores : ℕ) (rows : List Workspace) (db : Db)
    → (record_idle_stop workspace worker hours cores (rows, db)).1.workspaces ≡ db.workspaces
unfolding record_idle_stop
record_idle_stop-workspaces workspace worker hours cores [] db = refl
record_idle_stop-workspaces workspace worker hours cores (row ∷ rows) db = refl

pub workspaces-begin_idle_stop :
    (workspace worker cutoff hours cores now : ℕ) (db : Db)
    → (begin_idle_stop workspace worker cutoff hours cores now db).1.workspaces
      ≡ update_where
          (can_begin_idle_stop workspace worker cutoff)
          (idle_stop_begun now)
          db.workspaces
unfolding begin_idle_stop update_workspaces
workspaces-begin_idle_stop workspace worker cutoff hours cores now db =
    record_idle_stop-workspaces workspace worker hours cores _ _
