-- ===== src/Database/WorkerEgress/Stopping.antt =====
-- The Workspaces of a Worker that does not enforce its egress rules.
use pi_container.Prelude.{
  ℕ, Bool, true, false, Option, none, some, List, [], ◌∷◌, ◌≡◌, refl, any, find, arith,
}
use pi_container.Prelude.Table.{update_where}
use pi_container.Database.Records.{Workspace, Worker}
use pi_container.Database.Tables.{Db, update_workers, update_workspaces}
use pi_container.Database.Coherence.{Allowed}
use pi_container.Database.WorkerEgress.{
  reporting, can_stop_unenforced, stopped_unenforced, stop_unenforced, record_report,
  record_worker_egress,
}

pub stop_unenforced-Allowed :
    (worker now : ℕ) (w : Workspace)
    → can_stop_unenforced worker w ≡ true
    → Allowed w (stopped_unenforced now w)
unfolding can_stop_unenforced stopped_unenforced
stop_unenforced-Allowed worker now w h c = ground arith

-- The rows of `workspaces` stay, or those on the Worker stop.
pub workspaces-record_report {ℓ} :
    (P : List Workspace → Type ℓ) (found : Option Worker) (worker : ℕ) (enforced : Bool)
    (revision : Option ℕ) (now : ℕ) (db : Db)
    → P db.workspaces
    → P (update_where (can_stop_unenforced worker) (stopped_unenforced now) db.workspaces)
    → P (record_report found worker enforced revision now db).workspaces
unfolding record_report stop_unenforced update_workspaces update_workers
workspaces-record_report P none worker enforced revision now db h k = h
workspaces-record_report P (some previous) worker true revision now db h k = h
workspaces-record_report P (some previous) worker false revision now db h k = k

none_running :
    (worker now : ℕ) (ws : List Workspace)
    → any
        (can_stop_unenforced worker)
        (update_where (can_stop_unenforced worker) (stopped_unenforced now) ws)
      ≡ false
unfolding update_where can_stop_unenforced stopped_unenforced
none_running worker now [] = refl
none_running worker now (w ∷ ws) = ground (arith, none_running worker now ws)

-- After a known Worker reports that it does not enforce its egress rules, none of its Workspaces is
-- RUNNING.
pub record_worker_egress-none :
    (worker : ℕ) (revision : Option ℕ) (now : ℕ) (db : Db) (previous : Worker)
    → find (reporting worker) db.workers ≡ some previous
    → any
        (can_stop_unenforced worker)
        (record_worker_egress worker false revision now db).workspaces
      ≡ false
unfolding record_worker_egress record_report stop_unenforced update_workspaces update_workers
record_worker_egress-none worker revision now db previous h =
    rw h (none_running worker now db.workspaces)
