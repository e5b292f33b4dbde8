-- ===== src/Database/Scheduling.antt =====
-- packages/database/src/scheduling.ts: the placement of a Workspace on a Worker, under the placement
-- lock. The selector is the argument that the code takes; `none` means that it threw.
pub mod Cases
use pi_container.Prelude.{
  ℕ, ◌+◌, Bool, true, false, ◌&&◌, ◌||◌, not, Option, none, some, List, [], ◌∷◌, map, find, ◌==◌,
  holds_value, is_null, if◌then◌else◌,
}
use pi_container.Prelude.Sort.{order_by}
use pi_container.Database.Records.{
  WorkspaceState, DesiredState, Workspace, Worker, WorkerStatus, Architecture, Capability,
  WorkerRuntimeImage, scheduling_resumed, scheduling_paused, state_in,
}
use pi_container.Database.Tables.{Db, update_workspaces, update_workers, append_audit}

pub record WorkspaceSchedulingRequirements : Type 0 where
  pub runtime_image : ℕ
  pub required_architecture : Option Architecture
  pub required_capabilities : List (Capability × Bool)

pub record WorkerScheduleCandidate : Type 0 where
  pub id : ℕ
  pub architecture : Option Architecture
  pub status : WorkerStatus
  pub enabled : Bool
  pub schedulable : Bool
  pub runtime_images : List WorkerRuntimeImage
  pub max_workspaces : Option ℕ
  pub assigned_workspaces : ℕ
  pub last_heartbeat_at : Option ℕ
  pub egress_enforced : Bool
  pub egress_revision : Option ℕ
  pub storage_enforced : Bool

pub record WorkerSelectionInput : Type 0 where
  pub workspace : WorkspaceSchedulingRequirements
  pub candidates : List WorkerScheduleCandidate
  pub connected_worker_ids : List ℕ
  pub heartbeat_cutoff : ℕ
  pub egress_revision : ℕ

abbrev pub WorkerSelector : Type 0
WorkerSelector = WorkerSelectionInput → Option (Option WorkerScheduleCandidate)

pub data ScheduleResult : Type 0 where
  starting : Workspace → Bool → ScheduleResult
  no_eligible_worker workspace_changed : ScheduleResult

-- `count(assigned.id)` of the left join.
unfoldable pub assigned_count : ℕ → List Workspace → ℕ
assigned_count worker [] = 0
assigned_count worker (w ∷ ws) =
    (if holds_value w.worker_id worker then 1 else 0) + assigned_count worker ws

unfoldable pub candidate_of : List Workspace → Worker → WorkerScheduleCandidate
unfolding assigned_count
candidate_of workspaces w = record {
  id = w.id;
  architecture = w.architecture;
  status = w.status;
  enabled = w.enabled;
  schedulable = w.schedulable;
  runtime_images = w.runtime_images;
  max_workspaces = w.max_workspaces;
  assigned_workspaces = assigned_count w.id workspaces;
  last_heartbeat_at = w.last_heartbeat_at;
  egress_enforced = w.egress_enforced;
  egress_revision = w.egress_revision;
  storage_enforced = w.storage_enforced;
}

abbrev pub startable_states : List WorkspaceState
startable_states =
    WorkspaceState.created ∷ WorkspaceState.stopped ∷ WorkspaceState.error
    ∷ WorkspaceState.worker_offline ∷ []

unfoldable pub is_owned_by : ℕ → ℕ → Workspace → Bool
is_owned_by workspace user w = w.id == workspace && w.user_id == user

unfoldable pub can_start_on : ℕ → ℕ → ℕ → Workspace → Bool
can_start_on workspace user worker w =
    w.id == workspace
    && w.user_id == user
    && (is_null w.worker_id || holds_value w.worker_id worker)
    && state_in w.state startable_states

unfoldable pub start_begun : ℕ → ℕ → Workspace → Workspace
start_begun worker now w = record w {
  worker_id = some worker;
  state = WorkspaceState.starting;
  desired_state = DesiredState.running;
  updated_at = now;
  last_activity_at = now;
}

started : Bool → List Workspace × Db → ScheduleResult × Db
started sticky ([], db) = (workspace_changed, db)
started sticky (w ∷ ws, db) = (starting w sticky, db)

pub start_on : ℕ → ℕ → ℕ → Bool → ℕ → Db → ScheduleResult × Db
unfolding started
start_on workspace user worker sticky now db =
    started sticky
      (update_workspaces (can_start_on workspace user worker) (start_begun worker now) db)

abbrev policy_revision : Option ℕ → ℕ
policy_revision none = 0
policy_revision (some revision) = revision

unfoldable pub selection_input : Workspace → List ℕ → ℕ → Db → WorkerSelectionInput
unfolding candidate_of order_by
selection_input w connected cutoff db = record {
  workspace = record {
    runtime_image = w.runtime_image;
    required_architecture = w.required_architecture;
    required_capabilities = w.required_capabilities;
  };
  candidates =
      map (candidate_of db.workspaces) (order_by (λ (worker : Worker). worker.id) db.workers);
  connected_worker_ids = connected;
  heartbeat_cutoff = cutoff;
  egress_revision = policy_revision db.egress_revision;
}

place : Option (Option WorkerScheduleCandidate) → Workspace → ℕ → Db → Option (ScheduleResult × Db)
unfolding start_on
place none w now db = none
place (some none) w now db = some (no_eligible_worker, db)
place (some (some selected)) w now db = some (start_on w.id w.user_id selected.id false now db)

start_found :
    WorkerSelector → Workspace → Option ℕ → List ℕ → ℕ → ℕ → Db → Option (ScheduleResult × Db)
unfolding place selection_input start_on
start_found select_worker w none connected cutoff now db =
    place (select_worker (selection_input w connected cutoff db)) w now db
start_found select_worker w (some worker) connected cutoff now db =
    some (start_on w.id w.user_id worker true now db)

pub schedule_workspace_start :
    WorkerSelector → ℕ → ℕ → List ℕ → ℕ → ℕ → Db → Option (ScheduleResult × Db)
unfolding start_found is_owned_by
schedule_workspace_start select_worker workspace user connected cutoff now db =
    elim (find (is_owned_by workspace user) db.workspaces) [
      | none ↦ some (workspace_changed, db)
      | some w ↦
          if state_in w.state startable_states
          then start_found select_worker w w.worker_id connected cutoff now db
          else some (workspace_changed, db)
    ]

pub data SetSchedulableResult : Type 0 where
  updated not_found : SetSchedulableResult

has_worker_id : ℕ → Worker → Bool
has_worker_id worker w = w.id == worker

abbrev same_flag : Bool → Bool → Bool
same_flag true b = b
same_flag false b = not b

schedulable_set : Bool → ℕ → Worker → Worker
schedulable_set flag now w = record w { schedulable = flag; updated_at = now }

-- The result's Worker row is read back by `listWorkersWithAssignments`, outside the transaction.
pub set_worker_schedulable : ℕ → Bool → ℕ → ℕ → Db → SetSchedulableResult × Db
unfolding has_worker_id schedulable_set
set_worker_schedulable worker flag actor now db = elim (find (has_worker_id worker) db.workers) [
  | none ↦ (not_found, db)
  | some current ↦ if same_flag current.schedulable flag then (updated, db) else (
    updated,
    append_audit (update_workers (has_worker_id worker) (schedulable_set flag now) db).1 (
        record {
          actor = some actor;
          owner = none;
          workspace = none;
          worker = some worker;
          details = if flag then scheduling_resumed else scheduling_paused;
        }
        ∷ []),
  )
]
