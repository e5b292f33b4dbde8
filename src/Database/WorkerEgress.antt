-- ===== src/Database/WorkerEgress.antt =====
-- packages/database/src/egress.ts: what a Worker reports about its egress rules. `egress_checked_at` is
-- no column of the model, since nothing modelled reads it.
pub mod Stopping
use pi_container.Prelude.{
  ℕ, Bool, true, false, ◌&&◌, not, Option, none, some, List, [], ◌∷◌, ◌++◌, find, holds_value, ◌==◌,
  if◌then◌else◌,
}
use pi_container.Database.Records.{
  Workspace, Worker, WorkspaceState, AuditEvent, state_is, worker_egress_enforced,
  worker_egress_unenforced,
}
use pi_container.Database.Tables.{Db, append_audit, update_workers, update_workspaces}

abbrev pub reporting : ℕ → Worker → Bool
reporting worker w = w.id == worker

abbrev reported : Bool → Option ℕ → Worker → Worker
reported enforced revision w = record w { egress_enforced = enforced; egress_revision = revision }

abbrev same_enforcement : Bool → Bool → Bool
same_enforcement true enforced = enforced
same_enforcement false enforced = not enforced

report_audit : ℕ → Bool → Option ℕ → Worker → List AuditEvent
report_audit worker enforced revision previous =
    if same_enforcement previous.egress_enforced enforced
    then []
    else record {
      actor = none;
      owner = none;
      workspace = none;
      worker = some worker;
      details =
          if enforced then worker_egress_enforced revision else worker_egress_unenforced revision;
    }
      ∷ []

pub can_stop_unenforced : ℕ → Workspace → Bool
can_stop_unenforced worker w =
    holds_value w.worker_id worker && state_is w.state WorkspaceState.running

pub stopped_unenforced : ℕ → Workspace → Workspace
stopped_unenforced now w = record w { state = WorkspaceState.error; updated_at = now }

-- While a Worker cannot enforce the rules, its running Workspaces are in ERROR.
pub stop_unenforced : ℕ → Bool → ℕ → Db → Db
unfolding can_stop_unenforced stopped_unenforced
stop_unenforced worker true now db = db
stop_unenforced worker false now db =
    (update_workspaces (can_stop_unenforced worker) (stopped_unenforced now) db).1

pub record_report : Option Worker → ℕ → Bool → Option ℕ → ℕ → Db → Db
unfolding report_audit stop_unenforced
record_report none worker enforced revision now db = db
record_report (some previous) worker enforced revision now db =
    stop_unenforced worker enforced now (
      append_audit (update_workers (reporting worker) (reported enforced revision) db).1
        (report_audit worker enforced revision previous))

unfoldable pub record_worker_egress : ℕ → Bool → Option ℕ → ℕ → Db → Db
unfolding record_report
record_worker_egress worker enforced revision now db =
    record_report (find (reporting worker) db.workers) worker enforced revision now db
