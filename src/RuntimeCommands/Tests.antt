-- ===== src/RuntimeCommands/Tests.antt =====
-- A stop that the Worker confirms.
use pi_container.Database.Records.{WorkspaceState}
use pi_container.RuntimeCommands.{
  DispatchOutcome, DispatchFailure, answered, workspace_response, command_failure, List,
}
use pi_container.RuntimeCommands.Failures.{is_accepted, is_gone, status_of, command_failure-kind}
use pi_container.Prelude.{◌≡◌, ◌∷◌, true, [], none, ◌⊎◌, false, some}

abbrev confirmed : DispatchOutcome
confirmed = answered (
    workspace_response
      (record { workspace_id = 8; state = WorkspaceState.stopped; runtime_image = 40 }))

abbrev wanted : List WorkspaceState
wanted = WorkspaceState.stopped ∷ []

command_failure-kind_example :
    ((is_accepted 8 40 wanted confirmed ≡ true) × (command_failure 8 40 wanted confirmed ≡ none))
    ⊎ ((is_accepted 8 40 wanted confirmed ≡ false)
        × ((f : DispatchFailure) × (command_failure 8 40 wanted confirmed ≡ some f)
            × (f.worker_offline ≡ is_gone confirmed)
            × (f.status_code ≡ status_of confirmed)))
command_failure-kind_example = command_failure-kind 8 40 wanted confirmed
