-- ===== src/Database/Requests.antt =====
-- The methods of the repositories that change Workspaces as one step function: what any sequence of calls, in any
-- order and with any arguments, does to the database.
pub mod Evolution
mod Tests
use pi_container.Prelude.{ℕ, Bool, Option, none, some, List, [], ◌∷◌, String}
use pi_container.Database.Records.{DesiredState, RuntimeChangeDirection}
use pi_container.Database.Tables.{Db}
use pi_container.Database.Workspaces.{create_workspace, delete_owned_workspace}
use pi_container.Database.Lifecycle.{
  finish_workspace_start, begin_workspace_stop, finish_workspace_stop, begin_workspace_delete,
  delete_confirmed_workspace, mark_workspace_runtime_failure,
}
use pi_container.Database.RuntimeChanges.{
  RuntimeChangeRestore, begin_workspace_runtime_change, finish_workspace_runtime_change,
  revert_workspace_runtime_change,
}
use pi_container.Database.Recovery.{
  RecoveredState, mark_all_workers_offline_for_recovery, begin_worker_reconciliation,
  reconcile_workspace_recovery, delete_recovered_workspace,
}
use pi_container.Database.Workers.{rotate_worker_credential, disable_worker, mark_workers_offline}
use pi_container.Database.WorkerEgress.{record_worker_egress}
use pi_container.Database.Idle.{record_workspace_access, begin_idle_stop}
use pi_container.Database.Scheduling.{
  WorkerSelector, ScheduleResult, schedule_workspace_start, set_worker_schedulable,
}

-- The fields are the methods' arguments, without the time and the selector.
pub data Request : Type 0 where
  creates : ℕ → ℕ → String → ℕ → ℕ → Request
  deletes_owned : ℕ → ℕ → Request
  schedules_start : ℕ → ℕ → List ℕ → ℕ → Request
  sets_schedulable : ℕ → Bool → ℕ → Request
  finishes_start : ℕ → ℕ → Request
  begins_stop : ℕ → ℕ → ℕ → Request
  finishes_stop : ℕ → ℕ → Request
  begins_delete : ℕ → ℕ → ℕ → Request
  deletes_confirmed : ℕ → ℕ → ℕ → Request
  marks_failure : ℕ → ℕ → Bool → Request
  begins_change : ℕ → ℕ → ℕ → ℕ → RuntimeChangeDirection → ℕ → Request
  finishes_change : ℕ → ℕ → ℕ → ℕ → Request
  reverts_change : ℕ → ℕ → RuntimeChangeRestore → String → ℕ → Request
  marks_all_offline : ℕ → Request
  begins_reconciliation : ℕ → Request
  reconciles : ℕ → ℕ → ℕ → DesiredState → RecoveredState → Request
  deletes_recovered : ℕ → ℕ → ℕ → ℕ → Request
  records_access : List (ℕ × ℕ) → Request
  reports_egress : ℕ → Bool → Option ℕ → Request
  begins_idle_stop : ℕ → ℕ → ℕ → ℕ → ℕ → Request
  rotates_credential : ℕ → ℕ → Request
  disables_worker : ℕ → Request
  marks_workers_offline : ℕ → Request

-- A call that throws rolls its transaction back.
abbrev pub rolled_back {ℓ} : {A : Type ℓ} → Db → Option (A × Db) → Db
rolled_back db none = db
rolled_back db (some (result, db')) = db'

module _ (select_worker : WorkerSelector) where
  pub apply : ℕ → Request → Db → Db
  apply now (creates workspace user name image limit) db =
      rolled_back db (create_workspace workspace user name image limit now db)
  apply now (deletes_owned workspace user) db = (delete_owned_workspace workspace user now db).1
  apply now (schedules_start workspace user connected cutoff) db =
      rolled_back db (schedule_workspace_start select_worker workspace user connected cutoff now db)
  apply now (sets_schedulable worker flag actor) db =
      (set_worker_schedulable worker flag actor now db).1
  apply now (finishes_start workspace worker) db =
      (finish_workspace_start workspace worker now db).1
  apply now (begins_stop workspace user worker) db =
      (begin_workspace_stop workspace user worker now db).1
  apply now (finishes_stop workspace worker) db = (finish_workspace_stop workspace worker now db).1
  apply now (begins_delete workspace user worker) db =
      (begin_workspace_delete workspace user worker now db).1
  apply now (deletes_confirmed workspace user worker) db =
      (delete_confirmed_workspace workspace user worker now db).1
  apply now (marks_failure workspace worker offline) db =
      mark_workspace_runtime_failure workspace worker offline now db
  apply now (begins_change workspace worker from to direction actor) db =
      (begin_workspace_runtime_change workspace worker from to direction actor now db).1
  apply now (finishes_change workspace worker to actor) db =
      (finish_workspace_runtime_change workspace worker to actor now db).1
  apply now (reverts_change workspace worker restore code actor) db =
      (revert_workspace_runtime_change workspace worker restore code actor now db).1
  apply now (marks_all_offline started_at) db =
      (mark_all_workers_offline_for_recovery started_at now db).1
  apply now (begins_reconciliation worker) db = (begin_worker_reconciliation worker now db).1
  apply now (reconciles workspace worker image desired observed) db =
      (reconcile_workspace_recovery workspace worker image desired observed now db).1
  apply now (deletes_recovered workspace user worker image) db =
      (delete_recovered_workspace workspace user worker image now db).1
  apply now (records_access entries) db = record_workspace_access entries db
  apply now (reports_egress worker enforced revision) db =
      record_worker_egress worker enforced revision now db
  apply now (begins_idle_stop workspace worker cutoff hours cores) db =
      (begin_idle_stop workspace worker cutoff hours cores now db).1
  apply now (rotates_credential worker hash) db = (rotate_worker_credential worker hash now db).1
  apply now (disables_worker worker) db = (disable_worker worker now db).1
  apply now (marks_workers_offline cutoff) db = (mark_workers_offline cutoff now db).1

  pub run : List (ℕ × Request) → Db → Db
  run [] db = db
  run ((now, request) ∷ requests) db = run requests (apply now request db)
