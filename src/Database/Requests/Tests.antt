-- ===== src/Database/Requests/Tests.antt =====
-- A start, its confirmation and a deletion on the sample rows.
use pi_container.Prelude.{find, any, none, some, true, false, ◌≡◌, ℕ, List, [], ◌∷◌, refl, All}
use pi_container.Scheduler.{select_worker}
use pi_container.Database.Lifecycle.{begin_workspace_delete}
use pi_container.Database.Keys.{has_live_key, begin_workspace_delete-none}
use pi_container.Database.WorkerEgress.{record_worker_egress, reporting, can_stop_unenforced}
use pi_container.Database.WorkerEgress.Stopping.{record_worker_egress-none}
use pi_container.Database.Samples.{worker_row, small_db}
use pi_container.Database.Coherence.{IsCoherent}
use pi_container.Database.Requests.{
  Request, schedules_start, finishes_start, begins_delete, apply, run,
}
use pi_container.Database.Requests.Evolution.{RowsEvolve, apply-RowsEvolve, run-IsCoherent}

abbrev calls : List (ℕ × Request)
calls =
    (200, schedules_start 7 3 (1 ∷ []) 150)
    ∷ (210, finishes_start 7 1)
    ∷ (220, begins_delete 7 3 1)
    ∷ []

apply-RowsEvolve_example :
    RowsEvolve small_db (apply select_worker 200 (schedules_start 7 3 (1 ∷ []) 150) small_db)
apply-RowsEvolve_example =
    apply-RowsEvolve select_worker 200 (schedules_start 7 3 (1 ∷ []) 150) small_db

run-IsCoherent_example : All IsCoherent (run select_worker calls small_db).workspaces
run-IsCoherent_example = run-IsCoherent select_worker calls small_db (refl, (refl, tt))

begin_workspace_delete-none_example :
    let after = begin_workspace_delete 8 3 1 220 small_db in
    (after.0 ≡ true → has_live_key 8 after.1 ≡ false)
    × (after.0 ≡ false → after.1.model_keys ≡ small_db.model_keys)
begin_workspace_delete-none_example = begin_workspace_delete-none 8 3 1 220 small_db

worker_row-found : find (reporting 1) small_db.workers ≡ some worker_row
worker_row-found = refl

record_worker_egress-none_example :
    any (can_stop_unenforced 1) (record_worker_egress 1 false none 220 small_db).workspaces ≡ false
record_worker_egress-none_example =
    record_worker_egress-none 1 none 220 small_db worker_row worker_row-found
