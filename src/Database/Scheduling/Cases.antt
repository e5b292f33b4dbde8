-- ===== src/Database/Scheduling/Cases.antt =====
-- The outcomes of a placement, as one elimination principle.
use pi_container.Prelude.{
  ℕ, Bool, true, false, Option, none, some, List, [], ◌∷◌, ◌≡◌, refl, ◌⊎◌, inl, inr, find,
  Bool-cases, Option-cases, arith,
}
use pi_container.Prelude.Table.{update_where}
use pi_container.Database.Records.{Workspace, state_in}
use pi_container.Database.Tables.{Db, update_workspaces, update_workers}
use pi_container.Database.Scheduling.{
  WorkerSelector, WorkerScheduleCandidate, ScheduleResult, workspace_changed, no_eligible_worker,
  started, can_start_on, start_begun, start_on, start_found, place, is_owned_by, selection_input,
  startable_states, schedule_workspace_start, set_worker_schedulable,
}

started-workspaces :
    (sticky : Bool) (rows : List Workspace) (db : Db)
    → (started sticky (rows, db)).1.workspaces ≡ db.workspaces
unfolding started
started-workspaces sticky [] db = refl
started-workspaces sticky (row ∷ rows) db = refl

pub workspaces-start_on :
    (workspace user worker : ℕ) (sticky : Bool) (now : ℕ) (db : Db)
    → (start_on workspace user worker sticky now db).1.workspaces
      ≡ update_where (can_start_on workspace user worker) (start_begun worker now) db.workspaces
unfolding start_on update_workspaces
workspaces-start_on workspace user worker sticky now db = started-workspaces sticky _ _

started-workers :
    (sticky : Bool) (rows : List Workspace) (db : Db)
    → (started sticky (rows, db)).1.workers ≡ db.workers
unfolding started
started-workers sticky [] db = refl
started-workers sticky (row ∷ rows) db = refl

pub workers-start_on :
    (workspace user worker : ℕ) (sticky : Bool) (now : ℕ) (db : Db)
    → (start_on workspace user worker sticky now db).1.workers ≡ db.workers
unfolding start_on update_workspaces
workers-start_on workspace user worker sticky now db = started-workers sticky _ _

pub workspaces-set_schedulable :
    (worker : ℕ) (flag : Bool) (actor now : ℕ) (db : Db)
    → (set_worker_schedulable worker flag actor now db).1.workspaces ≡ db.workspaces
unfolding set_worker_schedulable update_workers
workspaces-set_schedulable worker flag actor now db = ground arith

module _ (select_worker : WorkerSelector) (connected : List ℕ) (cutoff now : ℕ) (db : Db) where
  -- The Worker that a Workspace starts on: its own, or the selected one.
  abbrev pub StartsOn : Workspace → ℕ → Type 0
  StartsOn w worker =
      (w.worker_id ≡ some worker)
      ⊎ ((w.worker_id ≡ none)
          × ((selected : WorkerScheduleCandidate) × (select_worker
                  (selection_input w connected cutoff db)
                ≡ some (some selected))
              × (selected.id ≡ worker)))

  module _ {ℓ} (P : Option (ScheduleResult × Db) → Type ℓ) (thrown : P none)
      (changed : P (some (workspace_changed, db)))
      (refused : P (some (no_eligible_worker, db))) where
    place_cases :
        (w : Workspace) (selected : Option (Option WorkerScheduleCandidate))
        → ((c : WorkerScheduleCandidate)
            → selected ≡ some (some c)
            → P (some (start_on w.id w.user_id c.id false now db)))
        → P (place selected w now db)
    unfolding place
    place_cases w none k = thrown
    place_cases w (some none) k = refused
    place_cases w (some (some c)) k = k c refl

    start_found_cases :
        (w : Workspace) (worker : Option ℕ)
        → w.worker_id ≡ worker
        → ((n : ℕ) (sticky : Bool)
            → StartsOn w n
            → P (some (start_on w.id w.user_id n sticky now db)))
        → P (start_found select_worker w worker connected cutoff now db)
    unfolding start_found
    start_found_cases w none e k =
        place_cases w (select_worker (selection_input w connected cutoff db))
          (λ c s. k c.id false (inr (e, (c, s, refl))))
    start_found_cases w (some n) e k = k n true (inl e)

    pub schedule_cases :
        (workspace user : ℕ)
        → ((w : Workspace) (n : ℕ) (sticky : Bool)
            → find (is_owned_by workspace user) db.workspaces ≡ some w
            → StartsOn w n
            → P (some (start_on w.id w.user_id n sticky now db)))
        → P (schedule_workspace_start select_worker workspace user connected cutoff now db)
    unfolding schedule_workspace_start
    schedule_cases workspace user k =
        elim (Option-cases (find (is_owned_by workspace user) db.workspaces)) [
          | inl e ↦ rw (e, schedule_workspace_start) changed
          | inr (w, e) ↦ elim (Bool-cases (state_in w.state startable_states)) [
            | inl s ↦
                rw (e, s, schedule_workspace_start)
                  (start_found_cases w w.worker_id refl (λ n sticky h. k w n sticky e h))
            | inr s ↦ rw (e, s, schedule_workspace_start) changed
          ]
        ]
