-- ===== src/WorkspaceRoutes/Tests.antt =====
-- Stopping the running Workspace of the sample database.
use pi_container.Database.Row.{HasRow}
use pi_container.Database.Samples.{small_db, running_row}
use pi_container.WorkerChannel.{WorkerChannelError}
use pi_container.RuntimeCommands.{DispatchOutcome, channel_failed, answered, workspace_response}
use pi_container.WorkspaceRoutes.{
  Surroundings, stop_workspace, true, delete_workspace, WorkspaceState,
}
use pi_container.WorkspaceRoutes.Deleting.{DeleteOutcome, delete_workspace-settles}
use pi_container.WorkspaceRoutes.Settling.{StopOutcome, stop_workspace-settles}
use pi_container.Prelude.{arith, ◌+◌, refl}

abbrev quiet : DispatchOutcome → Surroundings
quiet outcome = record {
  connected = λ worker. true;
  outcome = outcome;
  meanwhile = λ place db. db;
  clock = λ place. 300 + place;
}

running-HasRow : HasRow 8 running_row small_db
running-HasRow = record { unique = ((ground arith, tt), (tt, tt)); found = refl }

stop_workspace-settles_example :
    StopOutcome (quiet (channel_failed WorkerChannelError.worker_connection_closed)) running_row (
      stop_workspace
        (quiet (channel_failed WorkerChannelError.worker_connection_closed))
        8
        running_row.user_id
        small_db)
stop_workspace-settles_example =
    stop_workspace-settles (quiet (channel_failed WorkerChannelError.worker_connection_closed))
      running_row (λ place w db h. h) small_db running-HasRow

abbrev deleted_observation : DispatchOutcome
deleted_observation = answered (
    workspace_response (record {
      workspace_id = 8;
      state = WorkspaceState.created;
      runtime_image = running_row.runtime_image;
    }))

delete_workspace-settles_example :
    DeleteOutcome
      (quiet deleted_observation)
      running_row
      (delete_workspace (quiet deleted_observation) 8 running_row.user_id small_db)
delete_workspace-settles_example =
    delete_workspace-settles (quiet deleted_observation) running_row (λ place w db h. h) small_db
      running-HasRow
