-- ===== src/Reconciliation.antt =====
-- apps/control-plane/src/runtime-commands.ts: `reconcileWorkerWorkspaces`, which settles the Workspaces of a
-- Worker that connects by what the Worker observes. The answer to `worker.reconcile` is a parameter, as
-- are the connection and what other requests do before each transaction. The keys that the manager of
-- model keys looks at, and the issues that are only reported, are left out.
pub mod Settled
mod Tests
use pi_container.Database.Records.{Workspace, WorkspaceState, DesiredState, state_is, desires, lost}
use pi_container.Database.Tables.{Db}
use pi_container.Database.Recovery.{
  RecoveredState, begin_worker_reconciliation, reconcile_workspace_recovery,
  delete_recovered_workspace,
}
use pi_container.RuntimeCommands.{WorkspaceObservation}
use pi_container.Prelude.{
  ℕ, if◌then◌else◌, Bool, List, ◌==◌, true, false, ◌&&◌, Option, not, none, ◌∷◌, length, some,
  is_null, all, ◌+◌, [],
}

pub data ReconcileResult : Type 0 where
  observed : WorkspaceObservation → ReconcileResult
  missing : ℕ → ReconcileResult
  invalid : ℕ → Bool → ReconcileResult

abbrev pub result_id : ReconcileResult → ℕ
result_id (observed o) = o.workspace_id
result_id (missing id) = id
result_id (invalid id retryable) = id

-- `results.get(id)`: the last entry for a key stands.
unfoldable pub result_of : ℕ → List ReconcileResult → Option ReconcileResult
result_of id [] = none
result_of id (r ∷ rs) =
    let later = result_of id rs in if is_null later && result_id r == id then some r else later

-- `results.size`.
pub count_ids : List ReconcileResult → ℕ
unfolding result_of
count_ids [] = 0
count_ids (r ∷ rs) =
    let rest = count_ids rs in if is_null (result_of (result_id r) rs) then rest + 1 else rest

abbrev pub is_complete : List Workspace → List ReconcileResult → Bool
is_complete workspaces results =
    count_ids results == length workspaces
    && all (λ (w : Workspace). not (is_null (result_of w.id results))) workspaces

-- The state that an observation of the right image settles.
abbrev pub observed_as : DesiredState → WorkspaceState → RecoveredState
observed_as DesiredState.running WorkspaceState.running = RecoveredState.running
observed_as DesiredState.stopped WorkspaceState.stopped = RecoveredState.stopped
observed_as DesiredState.unknown WorkspaceState.running = RecoveredState.running
observed_as DesiredState.unknown WorkspaceState.stopped = RecoveredState.stopped
observed_as _ _ = RecoveredState.error

abbrev pub recovered_as : Workspace → ReconcileResult → RecoveredState
recovered_as w (observed o) =
    if o.runtime_image == w.runtime_image
    then observed_as w.desired_state o.state
    else RecoveredState.error
recovered_as w _ = RecoveredState.error

abbrev pub is_gone : ReconcileResult → Bool
is_gone (missing id) = true
is_gone _ = false

abbrev pub is_retried : ReconcileResult → Bool
is_retried (invalid id retryable) = retryable
is_retried _ = false

-- The body of the loop for a Workspace that has a result.
unfoldable pub settle_workspace : ℕ → Workspace → ReconcileResult → ℕ → Db → Db
settle_workspace worker w r now db =
    if is_gone r && desires w.desired_state DesiredState.deleted
    then (delete_recovered_workspace w.id w.user_id worker w.runtime_image now db).1
    else if is_retried r
    then db
    else (reconcile_workspace_recovery w.id worker w.runtime_image w.desired_state
        (recovered_as w r) now db).1

pub record WorkerAnswer : Type 0 where
  -- `none` if the call throws or is answered with something else.
  pub report : List Workspace → Option (List ReconcileResult)
  pub connected : ℕ → Bool
  pub meanwhile : ℕ → Db → Db
  pub clock : ℕ → ℕ

module _ (answer : WorkerAnswer) (worker : ℕ) where
  settle_if : Workspace → Option ReconcileResult → ℕ → Db → Db
  unfolding settle_workspace
  settle_if w none place db = db
  settle_if w (some r) place db =
      settle_workspace worker w r (answer.clock place) (answer.meanwhile place db)

  pub settle_all : List ReconcileResult → ℕ → List Workspace → Db → Db
  unfolding settle_if result_of
  settle_all results place [] db = db
  settle_all results place (w ∷ ws) db =
      let rest =
        settle_all results (place + 1) ws (settle_if w (result_of w.id results) place db) in
      if not (answer.connected place) then db else rest

  settle_report : List Workspace → Option (List ReconcileResult) → Db → Db
  unfolding settle_all count_ids
  settle_report workspaces none db = db
  settle_report workspaces (some results) db =
      if is_complete workspaces results then settle_all results 1 workspaces db else db

  unfoldable pub reconcile_worker_workspaces : Db → Db
  unfolding settle_report
  reconcile_worker_workspaces db =
      let (workspaces, begun) = begin_worker_reconciliation worker (answer.clock 0) db in
      if not (answer.connected 0)
      then begun
      else settle_report workspaces (answer.report workspaces) begun
