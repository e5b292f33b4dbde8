-- ===== src/Database/Requests/Evolution.antt =====
-- What every call does to the rows of `workspaces`, and what holds after any history.
use pi_container.Prelude.{
  String, ℕ, Bool, true, List, [], ◌∷◌, ◌≡◌, refl, inl, inr, All, Bool-cases, arith, length, ◌==◌,
}
use pi_container.Prelude.Table.{
  Evolves, born, Evolves-refl, Evolves-update_where, Evolves-delete_where, Evolves-All,
  update_where,
}
use pi_container.Database.Records.{Workspace}
use pi_container.Database.Tables.{
  Db, update_workspaces, delete_workspaces, insert_workspace, request_revoke, update_workers,
}
use pi_container.Database.RuntimeChanges.Rows.{
  workspaces-begin_change, workspaces-finish_change, workspaces-revert_change,
}
use pi_container.Database.WorkerEgress.Stopping.{workspaces-record_report, stop_unenforced-Allowed}
use pi_container.Database.Workers.Rows.{
  workspaces-rotate_credential, workspaces-disable, workspaces-mark_offline,
}
use pi_container.Database.Idle.Rows.{workspaces-begin_idle_stop}
use pi_container.Database.Scheduling.Cases.{
  workspaces-set_schedulable, schedule_cases, workspaces-start_on,
}
use pi_container.Database.Coherence.{Fresh, Allowed, Deletable, IsCoherent}
use pi_container.Database.Steps
use pi_container.Database.Workspaces.{
  create_workspace, fits_table, delete_owned_workspace, can_delete_owned,
}
use pi_container.Database.Lifecycle.{
  finish_workspace_start, begin_workspace_stop, finish_workspace_stop, begin_workspace_delete,
  delete_confirmed_workspace, can_delete_confirmed, mark_workspace_runtime_failure,
  can_begin_delete, delete_begun,
}
use pi_container.Database.Recovery.{
  abandon, went_offline, mark_all_workers_offline_for_recovery, begin_worker_reconciliation,
  reconcile_workspace_recovery, delete_recovered_workspace, can_delete_recovered,
}
use pi_container.Database.WorkerEgress.{record_worker_egress}
use pi_container.Database.Idle.{record_workspace_access, is_accessed, accessed}
use pi_container.Database.Scheduling.{
  WorkerSelector, schedule_workspace_start, set_worker_schedulable,
}
use pi_container.Database.Requests.{
  Request, creates, deletes_owned, schedules_start, sets_schedulable, finishes_start, begins_stop,
  finishes_stop, begins_delete, deletes_confirmed, marks_failure, begins_change, finishes_change,
  reverts_change, marks_all_offline, begins_reconciliation, reconciles, deletes_recovered,
  records_access, reports_egress, begins_idle_stop, rotates_credential, disables_worker,
  marks_workers_offline, rolled_back, apply, run,
}

-- The rows of one database against those of another.
abbrev pub RowsEvolve : Db → Db → Type 0
RowsEvolve old new = Evolves Fresh Allowed Deletable old.workspaces new.workspaces

unchanged : (db : Db) → RowsEvolve db db
unchanged db = Evolves-refl Fresh Allowed Deletable Steps.unchanged-Allowed db.workspaces

update-RowsEvolve :
    (p : Workspace → Bool) (f : Workspace → Workspace) (db : Db)
    → ((w : Workspace) → p w ≡ true → Allowed w (f w))
    → RowsEvolve db (update_workspaces p f db).1
unfolding update_workspaces
update-RowsEvolve p f db h =
    Evolves-update_where Fresh Allowed Deletable Steps.unchanged-Allowed p f h db.workspaces

rows :
    {p : Workspace → Bool} {f : Workspace → Workspace}
    → ((w : Workspace) → p w ≡ true → Allowed w (f w))
    → (db : Db) → Evolves Fresh Allowed Deletable db.workspaces (update_where p f db.workspaces)
rows {p} {f} h db =
    Evolves-update_where Fresh Allowed Deletable Steps.unchanged-Allowed p f h db.workspaces

deletes_owned-Deletable :
    (workspace user : ℕ) (w : Workspace) → can_delete_owned workspace user w ≡ true → Deletable w
unfolding can_delete_owned
deletes_owned-Deletable workspace user w h = ground arith

delete_confirmed-Deletable :
    (workspace user worker : ℕ) (w : Workspace)
    → can_delete_confirmed workspace user worker w ≡ true
    → Deletable w
unfolding can_delete_confirmed
delete_confirmed-Deletable workspace user worker w h = ground arith

delete_recovered-Deletable :
    (workspace user worker image : ℕ) (w : Workspace)
    → can_delete_recovered workspace user worker image w ≡ true
    → Deletable w
unfolding can_delete_recovered
delete_recovered-Deletable workspace user worker image w h = ground arith

delete-RowsEvolve :
    (now : ℕ) (p : Workspace → Bool) (db : Db)
    → ((w : Workspace) → p w ≡ true → Deletable w)
    → RowsEvolve db (delete_workspaces now p db).1
unfolding delete_workspaces
delete-RowsEvolve now p db h =
    Evolves-delete_where Fresh Allowed Deletable Steps.unchanged-Allowed p h db.workspaces

begin_delete-RowsEvolve :
    (workspace user worker now : ℕ) (db : Db)
    → RowsEvolve db (begin_workspace_delete workspace user worker now db).1
unfolding begin_workspace_delete request_revoke
begin_delete-RowsEvolve workspace user worker now db =
    let begun =
      update-RowsEvolve (can_begin_delete workspace user worker) (delete_begun now) db
        (Steps.begin_delete-Allowed workspace user worker now) in
    elim (Bool-cases (
      length (update_workspaces (can_begin_delete workspace user worker) (delete_begun now) db).0
      == 1)) [
        | inl e ↦ rw (e, begin_workspace_delete) begun
        | inr e ↦ rw (e, begin_workspace_delete) begun
      ]

-- The rows after a placement, whatever its outcome.
schedule-RowsEvolve :
    (select_worker : WorkerSelector) (workspace user : ℕ) (connected : List ℕ) (cutoff now : ℕ)
    (db : Db)
    → RowsEvolve db (
        rolled_back db
          (schedule_workspace_start select_worker workspace user connected cutoff now db))
schedule-RowsEvolve select_worker workspace user connected cutoff now db =
    schedule_cases select_worker connected cutoff now db (λ r. RowsEvolve db (rolled_back db r))
      (unchanged db) (unchanged db) (unchanged db) workspace user
      λ w n sticky _ _.
        rw (workspaces-start_on w.id w.user_id n sticky now db)
          (rows (Steps.start-Allowed w.id w.user_id n now) db)

access-RowsEvolve :
    (entries : List (ℕ × ℕ)) (db : Db) → RowsEvolve db (record_workspace_access entries db)
unfolding record_workspace_access
access-RowsEvolve [] db = unchanged db
access-RowsEvolve (entry ∷ entries) db =
    update-RowsEvolve (is_accessed (entry ∷ entries)) (accessed (entry ∷ entries)) db
      (λ w _. Steps.access-Allowed (entry ∷ entries) w)

abandon-RowsEvolve : (now : ℕ) (ids : List ℕ) (db : Db) → RowsEvolve db (abandon now ids db)
unfolding abandon
abandon-RowsEvolve now [] db = unchanged db
abandon-RowsEvolve now (id ∷ ids) db =
    update-RowsEvolve _ _ db (Steps.abandon-Allowed (id ∷ ids) now)

recovery-RowsEvolve :
    (started_at now : ℕ) (db : Db)
    → RowsEvolve db (mark_all_workers_offline_for_recovery started_at now db).1
unfolding mark_all_workers_offline_for_recovery update_workers
recovery-RowsEvolve started_at now db = abandon-RowsEvolve now _ _

set_schedulable-RowsEvolve :
    (worker : ℕ) (flag : Bool) (actor now : ℕ) (db : Db)
    → RowsEvolve db (set_worker_schedulable worker flag actor now db).1
set_schedulable-RowsEvolve worker flag actor now db =
    rw (workspaces-set_schedulable worker flag actor now db) (unchanged db)

create-RowsEvolve :
    (workspace user : ℕ) (name : String) (image limit now : ℕ) (db : Db)
    → RowsEvolve db (rolled_back db (create_workspace workspace user name image limit now db))
unfolding create_workspace insert_workspace
create-RowsEvolve workspace user name image limit now db =
    elim (Bool-cases (fits_table workspace user name db)) [
      | inl e ↦ rw (e, create_workspace) (born (refl, refl) (unchanged db))
      | inr e ↦ rw (e, create_workspace) (unchanged db)
    ]

offline-RowsEvolve :
    (now : ℕ) (db : Db) (p : Workspace → Bool)
    → ((w : Workspace) → p w ≡ true → Allowed w (went_offline now w))
    → Evolves Fresh Allowed Deletable db.workspaces
        (update_where p (went_offline now) db.workspaces)
offline-RowsEvolve now db p h = rows h db

-- Every call that changes Workspaces, with any arguments, keeps each row, changes it as the state
-- machine allows, deletes a row that may be deleted, or adds one that is new.
pub apply-RowsEvolve :
    (select_worker : WorkerSelector) (now : ℕ) (request : Request) (db : Db)
    → RowsEvolve db (apply select_worker now request db)
unfolding apply finish_workspace_start begin_workspace_stop finish_workspace_stop
    delete_confirmed_workspace mark_workspace_runtime_failure begin_worker_reconciliation
    reconcile_workspace_recovery delete_recovered_workspace delete_owned_workspace
    record_worker_egress
apply-RowsEvolve select_worker now (creates workspace user name image limit) db =
    create-RowsEvolve workspace user name image limit now db
apply-RowsEvolve select_worker now (deletes_owned workspace user) db =
    delete-RowsEvolve now (can_delete_owned workspace user) db
      (deletes_owned-Deletable workspace user)
apply-RowsEvolve select_worker now (schedules_start workspace user connected cutoff) db =
    schedule-RowsEvolve select_worker workspace user connected cutoff now db
apply-RowsEvolve select_worker now (sets_schedulable worker flag actor) db =
    set_schedulable-RowsEvolve worker flag actor now db
apply-RowsEvolve select_worker now (finishes_start workspace worker) db =
    update-RowsEvolve _ _ db (Steps.finish_start-Allowed workspace worker now)
apply-RowsEvolve select_worker now (begins_stop workspace user worker) db =
    update-RowsEvolve _ _ db (Steps.begin_stop-Allowed workspace user worker now)
apply-RowsEvolve select_worker now (finishes_stop workspace worker) db =
    update-RowsEvolve _ _ db (Steps.finish_stop-Allowed workspace worker now)
apply-RowsEvolve select_worker now (begins_delete workspace user worker) db =
    begin_delete-RowsEvolve workspace user worker now db
apply-RowsEvolve select_worker now (deletes_confirmed workspace user worker) db =
    delete-RowsEvolve now _ db (delete_confirmed-Deletable workspace user worker)
apply-RowsEvolve select_worker now (marks_failure workspace worker offline) db =
    update-RowsEvolve _ _ db (Steps.fail-Allowed workspace worker offline now)
apply-RowsEvolve select_worker now (begins_change workspace worker from to direction actor) db =
    rw (workspaces-begin_change workspace worker from to direction actor now db)
      (rows (Steps.begin_change-Allowed workspace worker from to now) db)
apply-RowsEvolve select_worker now (finishes_change workspace worker to actor) db =
    rw (workspaces-finish_change workspace worker to actor now db)
      (rows (Steps.finish_change-Allowed workspace worker to now) db)
apply-RowsEvolve select_worker now (reverts_change workspace worker restore code actor) db =
    rw (workspaces-revert_change workspace worker restore code actor now db)
      (rows (Steps.revert_change-Allowed workspace worker restore now) db)
apply-RowsEvolve select_worker now (marks_all_offline started_at) db =
    recovery-RowsEvolve started_at now db
apply-RowsEvolve select_worker now (begins_reconciliation worker) db =
    update-RowsEvolve _ _ db (Steps.reconnect-Allowed worker now)
apply-RowsEvolve select_worker now (reconciles workspace worker image desired observed) db =
    update-RowsEvolve _ _ db (Steps.reconcile-Allowed workspace worker image desired observed now)
apply-RowsEvolve select_worker now (deletes_recovered workspace user worker image) db =
    delete-RowsEvolve now _ db (delete_recovered-Deletable workspace user worker image)
apply-RowsEvolve select_worker now (records_access entries) db = access-RowsEvolve entries db
apply-RowsEvolve select_worker now (reports_egress worker enforced revision) db =
    workspaces-record_report (Evolves Fresh Allowed Deletable db.workspaces) _ worker enforced
      revision now db (unchanged db) (rows (stop_unenforced-Allowed worker now) db)
apply-RowsEvolve select_worker now (begins_idle_stop workspace worker cutoff hours cores) db =
    rw (workspaces-begin_idle_stop workspace worker cutoff hours cores now db)
      (rows (Steps.begin_idle_stop-Allowed workspace worker cutoff now) db)
apply-RowsEvolve select_worker now (rotates_credential worker hash) db =
    workspaces-rotate_credential (Evolves Fresh Allowed Deletable db.workspaces) now db
      (unchanged db) (offline-RowsEvolve now db) worker hash
apply-RowsEvolve select_worker now (disables_worker worker) db =
    workspaces-disable (Evolves Fresh Allowed Deletable db.workspaces) now db (unchanged db)
      (offline-RowsEvolve now db) worker
apply-RowsEvolve select_worker now (marks_workers_offline cutoff) db =
    workspaces-mark_offline (Evolves Fresh Allowed Deletable db.workspaces) now db (unchanged db)
      (offline-RowsEvolve now db) cutoff

fresh-IsCoherent : (w : Workspace) → Fresh w → IsCoherent w
fresh-IsCoherent w h = ground arith

-- Each call keeps every row coherent.
apply-IsCoherent :
    (select_worker : WorkerSelector) (now : ℕ) (request : Request) (db : Db)
    → All IsCoherent db.workspaces
    → All IsCoherent (apply select_worker now request db).workspaces
apply-IsCoherent select_worker now request db h =
    Evolves-All IsCoherent fresh-IsCoherent (λ a b step c. (step c).coherent)
      (apply-RowsEvolve select_worker now request db) h

-- After any history that starts from coherent rows, every row is coherent.
pub run-IsCoherent :
    (select_worker : WorkerSelector) (requests : List (ℕ × Request)) (db : Db)
    → All IsCoherent db.workspaces
    → All IsCoherent (run select_worker requests db).workspaces
unfolding run
run-IsCoherent select_worker [] db h = h
run-IsCoherent select_worker ((now, request) ∷ requests) db h =
    run-IsCoherent select_worker requests (apply select_worker now request db)
      (apply-IsCoherent select_worker now request db h)
