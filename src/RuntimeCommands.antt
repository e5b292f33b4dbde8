-- ===== src/RuntimeCommands.antt =====
-- apps/control-plane/src/runtime-commands.ts: what the Control Plane makes of a Worker's answer to a
-- command on a Workspace. Messages for people are left out.
pub mod Failures
mod Tests
use pi_container.Database.Records.{WorkspaceState, state_is}
use pi_container.Database.Tables.{Db}
use pi_container.Database.Lifecycle.{mark_workspace_runtime_failure}
use pi_container.WorkerChannel.{WorkerChannelError}
use pi_container.Prelude.{
  ℕ, Bool, false, true, if◌then◌else◌, List, ◌==◌, Option, ◌&&◌, some, any, none,
}

-- The state of an observation is never UPGRADING, which the schema excludes.
pub record WorkspaceObservation : Type 0 where
  pub workspace_id : ℕ
  pub state : WorkspaceState
  pub runtime_image : ℕ

-- A response: an error with its code, or a payload with or without a `workspace`.
pub data RuntimeResponse : Type 0 where
  error_response : Bool → ℕ → RuntimeResponse
  workspace_response : WorkspaceObservation → RuntimeResponse
  other_response : RuntimeResponse

-- How the promise of `WorkerChannel.dispatch` settles.
pub data DispatchOutcome : Type 0 where
  answered : RuntimeResponse → DispatchOutcome
  channel_failed : WorkerChannelError → DispatchOutcome
  threw : DispatchOutcome

pub data FailureCode : Type 0 where
  worker_reported : ℕ → FailureCode
  invalid_worker_response worker_unavailable worker_command_failed : FailureCode

pub record DispatchFailure : Type 0 where
  pub worker_offline : Bool
  pub status_code : ℕ
  pub code : FailureCode

pub data DispatchResult : Type 0 where
  ok : WorkspaceObservation → DispatchResult
  failure : DispatchFailure → DispatchResult

abbrev pub is_disconnection : WorkerChannelError → Bool
is_disconnection WorkerChannelError.worker_not_connected = true
is_disconnection WorkerChannelError.worker_connection_closed = true
is_disconnection _ = false

abbrev pub invalid_response : DispatchFailure
invalid_response = record {
  worker_offline = false;
  status_code = 502;
  code = FailureCode.invalid_worker_response;
}

abbrev pub not_completed : Bool → DispatchFailure
not_completed offline = record {
  worker_offline = offline;
  status_code = 503;
  code = if offline then FailureCode.worker_unavailable else FailureCode.worker_command_failed;
}

-- `dispatchRuntimeCommand`, for a command on this Workspace.
unfoldable pub dispatch_result : ℕ → DispatchOutcome → DispatchResult
dispatch_result workspace (answered (error_response retryable code)) = failure (record {
  worker_offline = false;
  status_code = if retryable then 503 else 409;
  code = worker_reported code;
})
dispatch_result workspace (answered (workspace_response observed)) =
    if observed.workspace_id == workspace then ok observed else failure invalid_response
dispatch_result workspace (answered other_response) = failure invalid_response
dispatch_result workspace (channel_failed reason) =
    failure (not_completed (is_disconnection reason))
dispatch_result workspace threw = failure (not_completed false)

unfoldable pub validate_runtime_result :
    WorkspaceObservation → ℕ → List WorkspaceState → Option DispatchFailure
validate_runtime_result observed image states =
    if observed.runtime_image == image && any (state_is observed.state) states
    then none
    else some invalid_response

validated : DispatchResult → ℕ → List WorkspaceState → Option DispatchFailure
unfolding validate_runtime_result
validated (ok observed) image states = validate_runtime_result observed image states
validated (failure f) image states = some f

-- The failure of a command whose result must have this image and one of these states.
unfoldable pub command_failure :
    ℕ → ℕ → List WorkspaceState → DispatchOutcome → Option DispatchFailure
unfolding validated dispatch_result
command_failure workspace image states outcome =
    validated (dispatch_result workspace outcome) image states

unfoldable pub mark_runtime_failure : ℕ → ℕ → DispatchFailure → ℕ → Db → Db
mark_runtime_failure workspace worker f now db =
    mark_workspace_runtime_failure workspace worker f.worker_offline now db
