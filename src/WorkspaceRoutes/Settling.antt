-- ===== src/WorkspaceRoutes/Settling.antt =====
-- How the handlers leave the Workspace, when no other request changes its row meanwhile.
use mathlib.Core.Option.{some-injective, Option}
use pi_container.Database.Records.{Workspace, WorkspaceState, state_is}
use pi_container.Database.Tables.{Db}
use pi_container.Database.Row.{HasRow, HasRow-update, has_id}
use pi_container.Database.Scheduling.{is_owned_by}
use pi_container.Database.Workspaces.{find_owned_workspace}
use pi_container.Database.Lifecycle.{
  stop_begun, finish_workspace_stop, can_finish_stop, stop_finished, mark_workspace_runtime_failure,
  can_fail, failed, can_begin_stop, begin_workspace_stop,
}
use pi_container.RuntimeCommands.{
  DispatchFailure, DispatchOutcome, answered, channel_failed, threw, workspace_response,
  error_response, other_response, command_failure, dispatch_result, validate_runtime_result,
  mark_runtime_failure,
}
use pi_container.WorkspaceRoutes.{
  Surroundings, Reply, settle_stop, after_finish, show_current, ℕ, if◌then◌else◌, shown,
  dispatch_failed, after_begin_stop, stop_on, stop_found, stop_workspace,
}
use pi_container.Prelude.{
  none, ◌≡◌, List, some, ◌⊎◌, arith, true, find, holds_value, refl, ◌∷◌, Bool-cases, inl, subst,
  sym, inr, ap, Bool, false, ◌∙◌, [], ◌&&◌, is_null, ◌==◌,
}

-- Other requests do not change the row with this ID.
abbrev pub LeavesAlone : ℕ → Surroundings → Type 0
LeavesAlone id around =
    (place : ℕ) (w : Workspace) (db : Db) → HasRow id w db → HasRow id w (around.meanwhile place db)

found_owned :
    (row : Workspace) (id user : ℕ) (ws : List Workspace)
    → row.user_id ≡ user
    → find (has_id id) ws ≡ some row
    → find (is_owned_by id user) ws ≡ some row
unfolding is_owned_by
found_owned row id user [] u e = cc
found_owned row id user (v ∷ vs) u e = elim (Bool-cases (has_id id v)) [
  | inl this ↦
      let q : v ≡ row = some-injective v row (rw this at e) in
      let owned : is_owned_by id user v ≡ true =
        ground (arith, this, subst (λ (x : Workspace). x.user_id ≡ user) (sym q) u) in
      rw owned (ap (λ x. some x) q)
  | inr other ↦
      let owned : is_owned_by id user v ≡ false = ground (arith, other) in
      rw owned (found_owned row id user vs u (rw other at e))
]

pub find_owned-HasRow :
    (row : Workspace) (id user : ℕ) (db : Db)
    → row.user_id ≡ user
    → HasRow id row db
    → find_owned_workspace id user db ≡ some row
unfolding find_owned_workspace
find_owned-HasRow row id user db u h = found_owned row id user db.workspaces u h.found

abbrev pub failed_state : DispatchFailure → WorkspaceState
failed_state f = if f.worker_offline then WorkspaceState.worker_offline else WorkspaceState.error

abbrev is_reachable : Surroundings → Option ℕ → Bool
is_reachable around none = false
is_reachable around (some worker) = around.connected worker

-- It runs on a Worker that is connected.
abbrev pub can_be_reached : Surroundings → Workspace → Bool
can_be_reached around w = state_is w.state WorkspaceState.running && is_reachable around w.worker_id

-- The Worker answers that it sees the Workspace, with its image, in this state.
abbrev pub is_seen : Workspace → WorkspaceState → DispatchOutcome → Bool
is_seen w state (answered (workspace_response o)) =
    o.workspace_id == w.id && o.runtime_image == w.runtime_image && state_is o.state state
is_seen w state _ = false

pub is_seen_iff :
    (w : Workspace) (state : WorkspaceState) (outcome : DispatchOutcome)
    → is_null (command_failure w.id w.runtime_image (state ∷ []) outcome) ≡ is_seen w state outcome
unfolding command_failure dispatch_result validate_runtime_result
is_seen_iff w state (answered (workspace_response o)) = ground arith
is_seen_iff w state (answered (error_response retryable code)) = refl
is_seen_iff w state (answered other_response) = refl
is_seen_iff w state (channel_failed reason) = refl
is_seen_iff w state threw = refl

-- The row is as it was since it could not be stopped, or it was running and is stopped and shown, as the
-- Worker sees it, or the Worker does not, and the reply names a failure and the row has the state that
-- goes with it.
abbrev pub StopSettles : Surroundings → Workspace → Reply → Workspace → Type 0
StopSettles around w reply after =
    ((after ≡ w) × (can_be_reached around w ≡ false))
    ⊎ ((state_is w.state WorkspaceState.running ≡ true)
        × (((is_seen w WorkspaceState.stopped around.outcome ≡ true)
              × (reply ≡ shown after)
              × (after.state ≡ WorkspaceState.stopped))
            ⊎ ((is_seen w WorkspaceState.stopped around.outcome ≡ false)
                × ((f : DispatchFailure) × (reply ≡ dispatch_failed f)
                    × (after.state ≡ failed_state f)))))

abbrev pub StopOutcome : Surroundings → Workspace → Reply × Db → Type 0
StopOutcome around w result =
    (after : Workspace) × HasRow w.id after result.1 × StopSettles around w result.0 after

module _ (around : Surroundings) (w : Workspace) (alone : LeavesAlone w.id around) where
  begins_running :
      (worker : ℕ)
      → can_begin_stop w.id w.user_id worker w ≡ true
      → (state_is w.state WorkspaceState.running ≡ true) × (holds_value w.worker_id worker ≡ true)
  unfolding can_begin_stop
  begins_running worker e = (ground (arith, e), ground (arith, e))

  cannot_begin :
      (worker : ℕ)
      → w.worker_id ≡ some worker
      → can_begin_stop w.id w.user_id worker w ≡ false
      → can_be_reached around w ≡ false
  unfolding can_begin_stop
  cannot_begin worker on e = ground (arith, on, e)

  shown-Outcome :
      (row : Workspace) (db : Db)
      → row.user_id ≡ w.user_id
      → state_is w.state WorkspaceState.running ≡ true
      → is_seen w WorkspaceState.stopped around.outcome ≡ true
      → row.state ≡ WorkspaceState.stopped
      → HasRow w.id row db
      → StopOutcome around w (show_current around (find_owned_workspace w.id w.user_id db) db)
  unfolding show_current
  shown-Outcome row db u running told stopped h =
      let found : find_owned_workspace w.id w.user_id db ≡ some row =
        find_owned-HasRow row w.id w.user_id db u h in
      rw (found, show_current) (row, h, inr (running, inl (told, refl, stopped)))

  finish_stop-Outcome :
      (worker now then_at : ℕ) (finished : Bool × Db)
      → state_is w.state WorkspaceState.running ≡ true
      → is_seen w WorkspaceState.stopped around.outcome ≡ true
      → finished.0 ≡ true
      → HasRow w.id (stop_finished then_at (stop_begun now w)) finished.1
      → StopOutcome around w (after_finish around w finished)
  unfolding after_finish stop_finished stop_begun
  finish_stop-Outcome worker now then_at (false, db) running told done h =
      absurd (ground (arith, done))
  finish_stop-Outcome worker now then_at (true, db) running told done h =
      shown-Outcome (stop_finished then_at (stop_begun now w)) (around.meanwhile 2 db) refl running
        told refl (alone 2 _ db h)

  settle_stop-Outcome :
      (worker now : ℕ) (fails : Option DispatchFailure) (db : Db)
      → state_is w.state WorkspaceState.running ≡ true
      → holds_value w.worker_id worker ≡ true
      → is_null fails ≡ is_seen w WorkspaceState.stopped around.outcome
      → HasRow w.id (stop_begun now w) db
      → StopOutcome around w (settle_stop around w worker fails db)
  unfolding settle_stop mark_runtime_failure mark_workspace_runtime_failure finish_workspace_stop
      can_fail failed can_finish_stop stop_begun stop_finished
  settle_stop-Outcome worker now (some f) db running on told h =
      let after =
        HasRow-update w.id (can_fail w.id worker) (failed f.worker_offline (around.clock 1))
          (λ v k. ground (arith, k)) (λ v. refl) (stop_begun now w) db h in
      let can : can_fail w.id worker (stop_begun now w) ≡ true = ground (arith, on) in
      (
        failed f.worker_offline (around.clock 1) (stop_begun now w),
        (let k = after.1 in rw can at k),
        inr (running, inr (sym told, (f, refl, refl))),
      )
  settle_stop-Outcome worker now none db running on told h =
      let after =
        HasRow-update w.id (can_finish_stop w.id worker) (stop_finished (around.clock 1))
          (λ v k. ground (arith, k)) (λ v. refl) (stop_begun now w) db h in
      let can : can_finish_stop w.id worker (stop_begun now w) ≡ true = ground (arith, on) in
      finish_stop-Outcome worker now (around.clock 1) _ running (sym told) (after.0 ∙ can)
        (let k = after.1 in rw can at k)

  begin_stop-Outcome :
      (worker now : ℕ) (begun : Bool × Db)
      → w.worker_id ≡ some worker
      → begun.0 ≡ can_begin_stop w.id w.user_id worker w
      → HasRow w.id (if can_begin_stop w.id w.user_id worker w then stop_begun now w else w) begun.1
      → StopOutcome around w (after_begin_stop around w worker begun)
  unfolding after_begin_stop
  begin_stop-Outcome worker now (false, db) on e h =
      (w, (rw (sym e) at h), inl (refl, cannot_begin worker on (sym e)))
  begin_stop-Outcome worker now (true, db) on e h =
      settle_stop-Outcome worker now _ (around.meanwhile 1 db) (begins_running worker (sym e)).0
        (begins_running worker (sym e)).1 (is_seen_iff w WorkspaceState.stopped around.outcome)
        (alone 1 (stop_begun now w) db (rw (sym e) at h))

  stop_on-Outcome :
      (worker : Option ℕ) (db : Db)
      → w.worker_id ≡ worker
      → HasRow w.id w db
      → StopOutcome around w (stop_on around worker w db)
  unfolding stop_on begin_workspace_stop can_begin_stop stop_begun
  stop_on-Outcome none db on h = (w, h, inl (refl, ground (arith, on)))
  stop_on-Outcome (some worker) db on h = elim (Bool-cases (around.connected worker)) [
    | inr e ↦ rw (e, stop_on) (w, h, inl (refl, ground (arith, on, e)))
    | inl e ↦
        let begun =
          HasRow-update w.id (can_begin_stop w.id w.user_id worker) (stop_begun (around.clock 0))
            (λ v k. ground (arith, k)) (λ v. refl) w (around.meanwhile 0 db) (alone 0 w db h) in
        rw (e, stop_on) (begin_stop-Outcome worker (around.clock 0) _ on begun.0 begun.1)
  ]

  stop_found-Outcome :
      (db : Db) → HasRow w.id w db → StopOutcome around w (stop_found around (some w) db)
  unfolding stop_found
  stop_found-Outcome db h = elim (Bool-cases (state_is w.state WorkspaceState.stopped)) [
    | inl e ↦ rw (e, stop_found) (w, h, inl (refl, ground (arith, e)))
    | inr e ↦ rw (e, stop_found) (stop_on-Outcome w.worker_id db refl h)
  ]

  -- If no other request changes its row, a Workspace whose owner asks to stop it is left as it was and
  -- did not run on a connected Worker, or was running and is stopped and shown, if the Worker answers
  -- that it sees it stopped with its image, or, if the Worker does not, was running and is in the error
  -- state that goes with the failure in the reply.
  pub stop_workspace-settles :
      (db : Db) → HasRow w.id w db → StopOutcome around w (stop_workspace around w.id w.user_id db)
  unfolding stop_workspace
  stop_workspace-settles db h =
      rw (find_owned-HasRow w w.id w.user_id db refl h) (stop_found-Outcome db h)
