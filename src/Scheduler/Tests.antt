-- ===== src/Scheduler/Tests.antt =====
-- A placement on the sample rows.
use pi_container.Prelude.{[], ◌∷◌, none, some, ◌≡◌, ◌⊎◌, arith}
use pi_container.Scheduler.{select_worker}
use pi_container.Scheduler.Selection.{Selected, NobodyFits, select_worker-Selected}
use pi_container.Scheduler.Capacity.{WithinCapacity, schedule-WithinCapacity}
use pi_container.Database.Samples.{small_db, new_row}
use pi_container.Database.Scheduling.{
  WorkerSelectionInput, WorkerScheduleCandidate, selection_input, schedule_workspace_start,
  assigned_count,
}
use pi_container.Database.Requests.{rolled_back}

abbrev one_input : WorkerSelectionInput
one_input = selection_input new_row (1 ∷ []) 150 small_db

select_worker-Selected_example :
    ((select_worker one_input ≡ some none) × NobodyFits one_input)
    ⊎ ((c : WorkerScheduleCandidate) × Selected one_input c)
select_worker-Selected_example = select_worker-Selected one_input

schedule-WithinCapacity_example :
    let db' =
      rolled_back small_db (schedule_workspace_start select_worker 7 3 (1 ∷ []) 150 200 small_db) in
    WithinCapacity db'.workers db'.workspaces
unfolding assigned_count
schedule-WithinCapacity_example =
    schedule-WithinCapacity 7 3 (1 ∷ []) 150 200 small_db (tt, tt) ((ground arith, tt), (tt, tt))
      (omega arith, tt)
