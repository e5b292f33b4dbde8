-- ===== src/RuntimeCommands/Failures.antt =====
-- When a command counts as failed, and as what.
use pi_container.Database.Records.{WorkspaceState, state_is}
use pi_container.RuntimeCommands.{
  DispatchOutcome, DispatchFailure, command_failure, answered, channel_failed, threw,
  workspace_response, error_response, other_response, is_disconnection, ℕ, Bool, dispatch_result,
  List, false, true, if◌then◌else◌, validate_runtime_result, ◌==◌,
}
use pi_container.Prelude.{◌≡◌, none, ◌&&◌, any, ◌⊎◌, some, inr, Bool-cases, inl, refl}

-- The Worker answered with what was asked for.
abbrev pub is_accepted : ℕ → ℕ → List WorkspaceState → DispatchOutcome → Bool
is_accepted workspace image states (answered (workspace_response observed)) =
    observed.workspace_id == workspace
    && observed.runtime_image == image
    && any (state_is observed.state) states
is_accepted workspace image states _ = false

-- The Worker has no connection, or lost it before it answered.
abbrev pub is_gone : DispatchOutcome → Bool
is_gone (channel_failed reason) = is_disconnection reason
is_gone _ = false

-- The Worker refused for good.
abbrev pub is_refused : DispatchOutcome → Bool
is_refused (answered (error_response false code)) = true
is_refused _ = false

-- The Worker's answer makes no sense.
abbrev pub is_answered : DispatchOutcome → Bool
is_answered (answered (error_response retryable code)) = false
is_answered (answered _) = true
is_answered _ = false

abbrev pub status_of : DispatchOutcome → ℕ
status_of outcome = if is_refused outcome then 409 else if is_answered outcome then 502 else 503

-- A command succeeds exactly if the Worker answered with an observation of that Workspace, its image and
-- one of the states. A failure counts as a lost Worker exactly if there was no connection or it closed,
-- and its status is 409 for a refusal that is final, 502 for a wrong answer, and else 503.
pub command_failure-kind :
    (workspace image : ℕ) (states : List WorkspaceState) (outcome : DispatchOutcome)
    → ((is_accepted workspace image states outcome ≡ true)
        × (command_failure workspace image states outcome ≡ none))
      ⊎ ((is_accepted workspace image states outcome ≡ false)
          × ((f : DispatchFailure) × (command_failure workspace image states outcome ≡ some f)
              × (f.worker_offline ≡ is_gone outcome)
              × (f.status_code ≡ status_of outcome)))
unfolding command_failure dispatch_result validate_runtime_result
command_failure-kind workspace image states (answered (error_response true code)) =
    inr (refl, (_, refl, refl, refl))
command_failure-kind workspace image states (answered (error_response false code)) =
    inr (refl, (_, refl, refl, refl))
command_failure-kind workspace image states (answered other_response) =
    inr (refl, (_, refl, refl, refl))
command_failure-kind workspace image states (channel_failed reason) =
    inr (refl, (_, refl, refl, refl))
command_failure-kind workspace image states threw = inr (refl, (_, refl, refl, refl))
command_failure-kind workspace image states (answered (workspace_response observed)) =
    elim (Bool-cases (observed.workspace_id == workspace)) [
      | inr e ↦ rw e (inr (refl, (_, refl, refl, refl)))
      | inl e ↦
          elim (Bool-cases
            (observed.runtime_image == image && any (state_is observed.state) states)) [
              | inl k ↦ rw (e, k) (inl (refl, refl))
              | inr k ↦ rw (e, k) (inr (refl, (_, refl, refl, refl)))
            ]
    ]
