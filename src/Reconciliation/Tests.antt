-- ===== src/Reconciliation/Tests.antt =====
-- A Workspace of the sample database that its Worker sees running.
use pi_container.Prelude.{refl, arith, some, map, ◌∷◌, [], ◌≡◌, true, ◌+◌}
use pi_container.Database.Records.{Workspace, WorkspaceState}
use pi_container.Prelude.Sort.{order_by}
use pi_container.Database.Tables.{Db, update_workspaces}
use pi_container.Database.Recovery.{
  begin_worker_reconciliation, is_assigned_to, went_offline, reconcile_workspace_recovery,
  can_reconcile, reconciled,
}
use pi_container.Database.Row.{HasRow}
use pi_container.Database.Samples.{small_db, running_row, new_row}
use pi_container.Reconciliation.{
  ReconcileResult, observed, settle_workspace, WorkerAnswer, reconcile_worker_workspaces,
}
use pi_container.Reconciliation.Settled.{Outcome, settle_workspace-Outcome}

abbrev offline_row : Workspace
offline_row = record running_row { state = WorkspaceState.worker_offline }

abbrev offline_db : Db
offline_db = record small_db { workspaces = new_row ∷ offline_row ∷ [] }

abbrev seen : ReconcileResult
seen = observed (record {
  workspace_id = 8;
  state = WorkspaceState.running;
  runtime_image = running_row.runtime_image;
})

offline-HasRow : HasRow 8 offline_row offline_db
offline-HasRow = record { unique = ((ground arith, tt), (tt, tt)); found = refl }

settle_workspace-Outcome_example :
    Outcome offline_row seen (settle_workspace 1 offline_row seen 300 offline_db)
settle_workspace-Outcome_example =
    settle_workspace-Outcome 1 offline_row seen 300 offline_db refl refl offline-HasRow

abbrev answer : WorkerAnswer
answer = record {
  report = λ workspaces. some (seen ∷ []);
  connected = λ place. true;
  meanwhile = λ place db. db;
  clock = λ place. 300 + place;
}

-- The whole reconciliation leaves it running.
states :
    map (λ (w : Workspace). w.state) (reconcile_worker_workspaces answer 1 small_db).workspaces
    ≡ new_row.state ∷ WorkspaceState.running ∷ []
unfolding reconcile_worker_workspaces begin_worker_reconciliation order_by update_workspaces
    is_assigned_to went_offline reconcile_workspace_recovery can_reconcile reconciled
states = refl
