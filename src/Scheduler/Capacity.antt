-- ===== src/Scheduler/Capacity.antt =====
-- Placement keeps every Worker within its declared capacity.
use pi_container.Prelude.{
  ℕ, ◌+◌, ◌≤◌, false, ◌&&◌, Option, none, some, List, [], ◌∷◌, ◌≡◌, refl, ◌≢◌, Memᴰ, All, All-mem,
  Distinct, mem_cases, ◌==◌, is_null, if◌then◌else◌, arith, ◌<◌, subst, ap, sym, mem_of_map,
  Distinct-mem, ◌∙◌, inl, inr, All-of_mem, mem_of_find,
}
use pi_container.Prelude.Table.{update_where}
use pi_container.Database.Records.{Workspace, Worker}
use pi_container.Database.Scheduling.{
  assigned_count, can_start_on, start_begun, selection_input, candidate_of, WorkerScheduleCandidate,
  schedule_workspace_start, is_owned_by,
}
use pi_container.Database.Tables.{Db}
use pi_container.Scheduler.Selection.{Selected, Selected-of_chosen}
use native.Mathlib.Decide.{ℕ_discrete}
use pi_container.Prelude.Sort.{mem_of_order_by}
use pi_container.Database.Scheduling.Cases.{
  StartsOn, schedule_cases, workers-start_on, workspaces-start_on,
}
use pi_container.Database.Requests.{rolled_back}
use pi_container.Scheduler.{select_worker}

abbrev Within : Option ℕ → ℕ → Type 0
Within none n = Unit {0}
Within (some limit) n = n ≤ limit

-- No Worker has more assigned Workspaces than it declares.
abbrev pub WithinCapacity : List Worker → List Workspace → Type 0
WithinCapacity workers workspaces =
    All (λ (v : Worker). Within v.max_workspaces (assigned_count v.id workspaces)) workers

abbrev pub workspace_key : Workspace → ℕ
workspace_key w = w.id

abbrev pub worker_key : Worker → ℕ
worker_key w = w.id

-- The unassigned rows with an ID.
unassigned : ℕ → List Workspace → ℕ
unassigned id [] = 0
unassigned id (w ∷ ws) = (if w.id == id && is_null w.worker_id then 1 else 0) + unassigned id ws

module _ (id user n now : ℕ) where
  after : List Workspace → List Workspace
  after ws = update_where (can_start_on id user n) (start_begun n now) ws

  count_other :
      (v : ℕ) (ws : List Workspace) → v ≢ n → assigned_count v (after ws) ≡ assigned_count v ws
  unfolding after update_where assigned_count can_start_on start_begun
  count_other v [] h = refl
  count_other v (w ∷ ws) h = ground (arith, count_other v ws h)

  count_self :
      (ws : List Workspace) → assigned_count n (after ws) ≤ assigned_count n ws + unassigned id ws
  unfolding after update_where assigned_count can_start_on start_begun unassigned
  count_self [] = omega arith
  count_self (w ∷ ws) = ground (arith, count_self ws)

unassigned_absent :
    (id : ℕ) (ws : List Workspace) → All (λ w. workspace_key w ≢ id) ws → unassigned id ws ≡ 0
unfolding unassigned
unassigned_absent id [] h = refl
unassigned_absent id (w ∷ ws) h = ground (arith, unassigned_absent id ws h.1)

unassigned-le : (id : ℕ) (ws : List Workspace) → Distinct workspace_key ws → unassigned id ws ≤ 1
unfolding unassigned
unassigned-le id [] d = omega arith
unassigned-le id (w ∷ ws) d = ground (arith, unassigned-le id ws d.1, unassigned_absent w.id ws d.0)

unassigned_of_assigned :
    (w : Workspace) (ws : List Workspace)
    → Distinct workspace_key ws
    → Memᴰ w ws
    → is_null w.worker_id ≡ false
    → unassigned w.id ws ≡ 0
unfolding unassigned
unassigned_of_assigned w [] d m h = elim m [ ]
unassigned_of_assigned w (x ∷ ws) d m h =
    mem_cases m (λ q. ground (arith, unassigned_absent x.id ws d.0, q))
      (λ m'. ground (
        arith,
        unassigned_of_assigned w ws d.1 m' h,
        All-mem (λ y. workspace_key y ≢ workspace_key x) ws d.0 m',
      ))

Within-mono : (limit : Option ℕ) (m n : ℕ) → m ≤ n → Within limit n → Within limit m
Within-mono none m n h k = tt
Within-mono (some limit) m n h k = omega arith

Within-below : (limit : Option ℕ) (m n : ℕ) → limit ≡ some m → n < m → Within limit (n + 1)
Within-below none m n e h = tt
Within-below (some limit) m n e h = ground arith

-- One row moves to a Worker that has room, or to the Worker that it already has.
module _ (db : Db) (distinct : Distinct workspace_key db.workspaces) where
  abbrev CapacityOf : List Workspace → Worker → Type 0
  CapacityOf ws v = Within v.max_workspaces (assigned_count v.id ws)

  other_worker :
      (w : Workspace) (n now : ℕ) (v : Worker)
      → v.id ≢ n
      → CapacityOf db.workspaces v
      → CapacityOf (after w.id w.user_id n now db.workspaces) v
  other_worker w n now v h k =
      subst (Within v.max_workspaces) (sym (count_other w.id w.user_id n now v.id db.workspaces h))
        k

  sticky_worker :
      (w : Workspace) (n now : ℕ) (v : Worker)
      → Memᴰ w db.workspaces
      → w.worker_id ≡ some n
      → v.id ≡ n
      → CapacityOf db.workspaces v
      → CapacityOf (after w.id w.user_id n now db.workspaces) v
  sticky_worker w n now v m e same k =
      Within-mono v.max_workspaces _ _
        (ground (
          arith,
          count_self w.id w.user_id n now db.workspaces,
          unassigned_of_assigned w db.workspaces distinct m (ap is_null e),
        ))
        k

  selected_worker :
      (w : Workspace) (n now limit : ℕ) (v : Worker)
      → v.id ≡ n
      → v.max_workspaces ≡ some limit
      → assigned_count n db.workspaces < limit
      → CapacityOf (after w.id w.user_id n now db.workspaces) v
  selected_worker w n now limit v same e room =
      Within-mono v.max_workspaces _ _
        (ground (
          arith,
          count_self w.id w.user_id n now db.workspaces,
          unassigned-le w.id db.workspaces distinct,
        ))
        (Within-below v.max_workspaces limit (assigned_count n db.workspaces) e room)

  -- The Worker behind a selected candidate.
  candidate_room :
      (w : Workspace) (connected : List ℕ) (cutoff : ℕ) (c : WorkerScheduleCandidate) (v : Worker)
      → Distinct worker_key db.workers
      → Memᴰ v db.workers
      → Selected (selection_input w connected cutoff db) c
      → v.id ≡ c.id
      → (limit : ℕ) × (v.max_workspaces ≡ some limit) × (assigned_count c.id db.workspaces < limit)
  unfolding selection_input candidate_of
  candidate_room w connected cutoff c v workers m s same =
      let (limit, e, room) = s.eligible.room in
      let (r, listed, is_r) = mem_of_map (candidate_of db.workspaces) c _ s.listed in
      let v_is_r =
        Distinct-mem worker_key v r db.workers workers m
          (mem_of_order_by worker_key r db.workers listed)
          (same ∙ ap (λ (k : WorkerScheduleCandidate). k.id) is_r) in
      (limit, ground arith, ground arith)

  started_worker :
      (w : Workspace) (connected : List ℕ) (cutoff n now : ℕ) (v : Worker)
      → Distinct worker_key db.workers
      → Memᴰ w db.workspaces
      → StartsOn select_worker connected cutoff now db w n
      → Memᴰ v db.workers
      → CapacityOf db.workspaces v
      → CapacityOf (after w.id w.user_id n now db.workspaces) v
  started_worker w connected cutoff n now v workers mw on mv k = elim (ℕ_discrete v.id n) [
    | no other ↦ other_worker w n now v other k
    | yes same ↦ elim on [
      | inl mine ↦ sticky_worker w n now v mw mine same k
      | inr (free, (c, chosen, is_n)) ↦
          let (limit, e, room) =
            candidate_room w connected cutoff c v workers mv
              (Selected-of_chosen (selection_input w connected cutoff db) c chosen)
              (same ∙ sym is_n) in
          selected_worker w n now limit v same e
            (subst (λ k. assigned_count k db.workspaces < limit) is_n room)
    ]
  ]

-- A placement, whatever its outcome, leaves every Worker within the capacity that it declares, if it
-- was so before and the IDs of Workers and of Workspaces are unique.
pub schedule-WithinCapacity :
    (workspace user : ℕ) (connected : List ℕ) (cutoff now : ℕ) (db : Db)
    → Distinct worker_key db.workers
    → Distinct workspace_key db.workspaces
    → WithinCapacity db.workers db.workspaces
    → let db' =
        rolled_back db
          (schedule_workspace_start select_worker workspace user connected cutoff now db) in
      WithinCapacity db'.workers db'.workspaces
unfolding after
schedule-WithinCapacity workspace user connected cutoff now db workers distinct k =
    schedule_cases select_worker connected cutoff now db
      (λ r. WithinCapacity (rolled_back db r).workers (rolled_back db r).workspaces) k k k workspace
      user
      λ w n sticky found on.
        rw
          (
            workers-start_on w.id w.user_id n sticky now db,
            workspaces-start_on w.id w.user_id n sticky now db,
          )
          (All-of_mem _ db.workers λ v mv.
            started_worker db distinct w connected cutoff n now v workers
              (mem_of_find (is_owned_by workspace user) w db.workspaces found).0 on mv
              (All-mem _ db.workers k mv))
