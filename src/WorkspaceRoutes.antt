-- ===== src/WorkspaceRoutes.antt =====
-- apps/control-plane/src/routes/workspaces.ts: the handlers that stop and delete a Workspace, from the
-- request of a signed-in user on: their transactions, the command to the Worker, and the reply. Other
-- requests may change the database between the transactions.
pub mod Deleting
pub mod Settling
mod Tests
use pi_container.Database.Records.{Workspace, WorkspaceState, state_is}
use pi_container.Database.Tables.{Db}
use pi_container.Database.Workspaces.{find_owned_workspace, delete_owned_workspace}
use pi_container.Database.Lifecycle.{
  begin_workspace_stop, finish_workspace_stop, begin_workspace_delete, delete_confirmed_workspace,
}
use pi_container.RuntimeCommands.{
  DispatchOutcome, DispatchFailure, command_failure, mark_runtime_failure,
}
use pi_container.Prelude.{true, ℕ, Option, Bool, some, ◌∷◌, false, [], if◌then◌else◌, none, not}

-- The world of one request: whether a Worker is connected, how the promise of the command settles, what
-- other requests do to the database before each transaction, and the time of the transaction.
pub record Surroundings : Type 0 where
  pub connected : ℕ → Bool
  pub outcome : DispatchOutcome
  pub meanwhile : ℕ → Db → Db
  pub clock : ℕ → ℕ

-- 200 with the Workspace, 204, 404, 409, 503, or the failure of the command.
pub data Reply : Type 0 where
  shown : Workspace → Reply
  no_content workspace_not_found workspace_changed worker_unavailable : Reply
  workspace_delete_requires_worker : Reply
  dispatch_failed : DispatchFailure → Reply

module _ (around : Surroundings) where
  show_current : Option Workspace → Db → Reply × Db
  show_current none db = (workspace_not_found, db)
  show_current (some w) db = (shown w, db)

  after_finish : Workspace → Bool × Db → Reply × Db
  unfolding show_current
  after_finish w (false, db) = (workspace_changed, db)
  after_finish w (true, db) =
      let later = around.meanwhile 2 db in
      show_current (find_owned_workspace w.id w.user_id later) later

  settle_stop : Workspace → ℕ → Option DispatchFailure → Db → Reply × Db
  unfolding after_finish
  settle_stop w worker (some f) db =
      (dispatch_failed f, mark_runtime_failure w.id worker f (around.clock 1) db)
  settle_stop w worker none db =
      after_finish w (finish_workspace_stop w.id worker (around.clock 1) db)

  after_begin_stop : Workspace → ℕ → Bool × Db → Reply × Db
  unfolding settle_stop
  after_begin_stop w worker (false, db) = (workspace_changed, db)
  after_begin_stop w worker (true, db) =
      settle_stop w worker
        (command_failure w.id w.runtime_image (WorkspaceState.stopped ∷ []) around.outcome)
        (around.meanwhile 1 db)

  stop_on : Option ℕ → Workspace → Db → Reply × Db
  unfolding after_begin_stop
  stop_on none w db = (worker_unavailable, db)
  stop_on (some worker) w db =
      if not (around.connected worker)
      then (worker_unavailable, db)
      else after_begin_stop w worker
          (begin_workspace_stop w.id w.user_id worker (around.clock 0) (around.meanwhile 0 db))

  stop_found : Option Workspace → Db → Reply × Db
  unfolding stop_on
  stop_found none db = (workspace_not_found, db)
  stop_found (some w) db =
      if state_is w.state WorkspaceState.stopped then (shown w, db) else stop_on w.worker_id w db

  -- `POST /api/workspaces/:id/stop`.
  pub stop_workspace : ℕ → ℕ → Db → Reply × Db
  unfolding stop_found
  stop_workspace workspace user db = stop_found (find_owned_workspace workspace user db) db

  after_delete : Bool × Db → Reply × Db
  after_delete (false, db) = (workspace_changed, db)
  after_delete (true, db) = (no_content, db)

  settle_delete : Workspace → ℕ → Option DispatchFailure → Db → Reply × Db
  unfolding after_delete
  settle_delete w worker (some f) db =
      (dispatch_failed f, mark_runtime_failure w.id worker f (around.clock 1) db)
  settle_delete w worker none db =
      after_delete (delete_confirmed_workspace w.id w.user_id worker (around.clock 1) db)

  after_begin_delete : Workspace → ℕ → Bool × Db → Reply × Db
  unfolding settle_delete
  after_begin_delete w worker (false, db) = (workspace_changed, db)
  after_begin_delete w worker (true, db) =
      settle_delete w worker
        (command_failure w.id w.runtime_image (WorkspaceState.created ∷ []) around.outcome)
        (around.meanwhile 1 db)

  delete_on : Option ℕ → Workspace → Db → Reply × Db
  unfolding after_begin_delete after_delete
  delete_on (some worker) w db =
      if not (around.connected worker)
      then (worker_unavailable, db)
      else after_begin_delete w worker
          (begin_workspace_delete w.id w.user_id worker (around.clock 0) (around.meanwhile 0 db))
  delete_on none w db =
      if not (state_is w.state WorkspaceState.created)
      then (workspace_delete_requires_worker, db)
      else after_delete
          (delete_owned_workspace w.id w.user_id (around.clock 0) (around.meanwhile 0 db))

  delete_found : Option Workspace → Db → Reply × Db
  unfolding delete_on
  delete_found none db = (workspace_not_found, db)
  delete_found (some w) db = delete_on w.worker_id w db

  -- `DELETE /api/workspaces/:id`.
  pub delete_workspace : ℕ → ℕ → Db → Reply × Db
  unfolding delete_found
  delete_workspace workspace user db = delete_found (find_owned_workspace workspace user db) db
