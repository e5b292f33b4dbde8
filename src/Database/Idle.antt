-- ===== src/Database/Idle.antt =====
-- packages/database/src/idle.ts: access times and the start of an idle stop.
pub mod Rows
use pi_container.Prelude.Sort.{order_by}
use pi_container.Prelude.{
  first_of, not, is_null, ℕ, Bool, true, false, ◌&&◌, Option, none, some, List, [], ◌∷◌, ◌==◌, leb,
  at_most, if◌then◌else◌, select, any, ◌++◌,
}
use pi_container.Database.Records.{
  WorkspaceState, DesiredState, StopReason, Workspace, idle_stopped, state_is, desires, Worker,
  is_online,
}
use pi_container.Database.Tables.{Db, update_workspaces, append_audit}
use pi_container.Database.Lifecycle.{assigned}

-- `greatest(coalesce(last_access_at, '-infinity'), at)`.
abbrev pub latest_of : Option ℕ → ℕ → ℕ
latest_of none at = at
latest_of (some old) at = if leb old at then at else old

-- The entry of `access(id, at)` that joins a row; the caller names each Workspace once.
access_at : List (ℕ × ℕ) → ℕ → Option ℕ
access_at [] workspace = none
access_at ((id, at) ∷ entries) workspace =
    if id == workspace then some at else access_at entries workspace

unfoldable pub is_accessed : List (ℕ × ℕ) → Workspace → Bool
unfolding access_at
is_accessed entries w = not (is_null (access_at entries w.id))

unfoldable pub accessed : List (ℕ × ℕ) → Workspace → Workspace
unfolding access_at
accessed entries w = elim (access_at entries w.id) [
  | none ↦ w
  | some at ↦ record w { last_access_at = some (latest_of w.last_access_at at) }
]

unfoldable pub record_workspace_access : List (ℕ × ℕ) → Db → Db
record_workspace_access [] db = db
record_workspace_access (entry ∷ entries) db =
    (update_workspaces (is_accessed (entry ∷ entries)) (accessed (entry ∷ entries)) db).1

pub has_been_idle : ℕ → Workspace → Bool
has_been_idle cutoff w =
    state_is w.state WorkspaceState.running
    && desires w.desired_state DesiredState.running
    && leb w.last_activity_at cutoff
    && at_most w.last_access_at cutoff

unfoldable pub can_begin_idle_stop : ℕ → ℕ → ℕ → Workspace → Bool
unfolding has_been_idle
can_begin_idle_stop workspace worker cutoff w =
    assigned workspace worker w && has_been_idle cutoff w

unfoldable pub idle_stop_begun : ℕ → Workspace → Workspace
idle_stop_begun now w = record w {
  state = WorkspaceState.stopping;
  desired_state = DesiredState.stopped;
  last_stop_reason = some StopReason.idle;
  updated_at = now;
  last_activity_at = now;
}

unfoldable pub record_idle_stop : ℕ → ℕ → ℕ → ℕ → List Workspace × Db → Bool × Db
record_idle_stop workspace worker hours cores ([], db) = (false, db)
record_idle_stop workspace worker hours cores (row ∷ rows, db) = (
  true,
  append_audit db (
      record {
        actor = none;
        owner = some row.user_id;
        workspace = some workspace;
        worker = some worker;
        details = idle_stopped hours cores row.last_access_at;
      }
      ∷ []),
)

-- An access that races with the sweep wins.
unfoldable pub begin_idle_stop : ℕ → ℕ → ℕ → ℕ → ℕ → ℕ → Db → Bool × Db
unfolding record_idle_stop
begin_idle_stop workspace worker cutoff hours cores now db =
    record_idle_stop workspace worker hours cores
      (update_workspaces (can_begin_idle_stop workspace worker cutoff) (idle_stop_begun now) db)

pub record IdleStopCandidate : Type 0 where
  pub workspace_id : ℕ
  pub user_id : ℕ
  pub worker_id : ℕ
  pub runtime_image : ℕ
  pub last_access_at : Option ℕ

abbrev is_reachable : ℕ → Worker → Bool
is_reachable worker v = v.id == worker && v.enabled && is_online v.status

-- The Worker of the join.
abbrev candidate_on : List Worker → Workspace → Option ℕ → List IdleStopCandidate
candidate_on workers w none = []
candidate_on workers w (some worker) =
    if any (is_reachable worker) workers
    then record {
      workspace_id = w.id;
      user_id = w.user_id;
      worker_id = worker;
      runtime_image = w.runtime_image;
      last_access_at = w.last_access_at;
    }
      ∷ []
    else []

abbrev candidates_of : List Worker → List Workspace → List IdleStopCandidate
candidates_of workers [] = []
candidates_of workers (w ∷ ws) = candidate_on workers w w.worker_id ++ candidates_of workers ws

-- `coalesce(last_access_at, last_activity_at)`.
abbrev idle_from : Workspace → ℕ
idle_from w = elim w.last_access_at [ none ↦ w.last_activity_at | some at ↦ at ]

unfoldable pub list_idle_stop_candidates : ℕ → ℕ → Db → List IdleStopCandidate
unfolding has_been_idle
list_idle_stop_candidates cutoff limit db = first_of limit (
    candidates_of db.workers (
      order_by idle_from
        (order_by (λ (w : Workspace). w.id) (select (has_been_idle cutoff) db.workspaces))))
