-- ===== src/Reconciliation/Settled.antt =====
-- How one Workspace is settled by what its Worker observes.
use pi_container.Database.Records.{Workspace, WorkspaceState, DesiredState, state_is, desires}
use pi_container.Database.Tables.{Db}
use pi_container.Database.Row.{HasRow, HasRow-update, HasRow-delete, has_id}
use pi_container.Database.Recovery.{
  RecoveredState, reconcile_workspace_recovery, can_reconcile, reconciled, recovered_state,
  settled_intent, delete_recovered_workspace, can_delete_recovered,
}
use pi_container.RuntimeCommands.{WorkspaceObservation}
use pi_container.Reconciliation.{
  ReconcileResult, observed, missing, invalid, observed_as, recovered_as, is_gone, is_retried,
  settle_workspace, Bool,
}
use pi_container.Prelude.{
  ◌≡◌, true, ◌⊎◌, ◌&&◌, ◌||◌, false, arith, ℕ, ◌==◌, Bool-cases, refl, inr, inl, find, some, none,
  if◌then◌else◌, not,
}

-- It runs and is meant to, or is stopped and is meant to.
abbrev pub is_as_meant : WorkspaceState → DesiredState → Bool
is_as_meant state desired =
    (state_is state WorkspaceState.running && desires desired DesiredState.running)
    || (state_is state WorkspaceState.stopped && desires desired DesiredState.stopped)

-- What is meant, if it is known, is to run for a Workspace that runs, and to be stopped for one that
-- is stopped.
abbrev pub agrees : DesiredState → WorkspaceState → Bool
agrees desired state =
    not (desires desired DesiredState.deleted)
    && ((state_is state WorkspaceState.running && not (desires desired DesiredState.stopped))
        || (state_is state WorkspaceState.stopped && not (desires desired DesiredState.running)))

-- The Worker saw the Workspace with its image, and as meant.
abbrev pub sees_as_meant : Workspace → ReconcileResult → Bool
sees_as_meant w (observed o) = o.runtime_image == w.runtime_image && agrees w.desired_state o.state
sees_as_meant w _ = false

abbrev is_error : RecoveredState → Bool
is_error RecoveredState.error = true
is_error _ = false

error_iff :
    (desired : DesiredState) (state : WorkspaceState)
    → is_error (observed_as desired state) ≡ not (agrees desired state)
error_iff desired state = ground arith

observed_cases :
    (desired : DesiredState) (state : WorkspaceState)
    → is_error (observed_as desired state)
        || (state_is (recovered_state (observed_as desired state)) state
            && is_as_meant
                (recovered_state (observed_as desired state))
                (settled_intent (observed_as desired state) desired))
      ≡ true
observed_cases desired state = ground arith

error_intent :
    (found : RecoveredState) (desired : DesiredState)
    → is_error found ≡ true
    → (recovered_state found ≡ WorkspaceState.error) × (settled_intent found desired ≡ desired)
error_intent RecoveredState.error desired h = (refl, refl)
error_intent RecoveredState.running desired h = absurd (ground (arith, h))
error_intent RecoveredState.stopped desired h = absurd (ground (arith, h))

or_false : (a b : Bool) → a ≡ false → a || b ≡ true → b ≡ true
or_false a b h k = ground (arith, h, k)

and_both : (a b : Bool) → a && b ≡ true → (a ≡ true) × (b ≡ true)
and_both a b h = (ground (arith, h), ground (arith, h))

-- The Worker saw its image in the state that the row has now, which is as meant.
abbrev pub Follows : Workspace → ReconcileResult → Workspace → Type 0
Follows w r after =
    (o : WorkspaceObservation) × (r ≡ observed o)
    × (o.runtime_image == w.runtime_image ≡ true)
    × (state_is after.state o.state ≡ true)
    × (is_as_meant after.state after.desired_state ≡ true)

-- An error keeps what is meant.
abbrev pub Failed : Workspace → Workspace → Type 0
Failed w after = (after.state ≡ WorkspaceState.error) × (after.desired_state ≡ w.desired_state)

-- As the Worker saw it if that is as meant, and in error if not.
abbrev pub Settled : Workspace → ReconcileResult → Workspace → Type 0
Settled w r after =
    ((sees_as_meant w r ≡ true) × Follows w r after)
    ⊎ ((sees_as_meant w r ≡ false) × Failed w after)

observed-Settled :
    (w : Workspace) (o : WorkspaceObservation) (now : ℕ)
    → Settled w (observed o) (reconciled (recovered_as w (observed o)) now w)
unfolding reconciled
observed-Settled w o now = elim (Bool-cases (o.runtime_image == w.runtime_image)) [
  | inr e ↦ rw e (inr (refl, (refl, refl)))
  | inl e ↦
      let same = error_iff w.desired_state o.state in
      elim (Bool-cases (is_error (observed_as w.desired_state o.state))) [
        | inl bad ↦ rw e (inr (ground (arith, same, bad), error_intent _ w.desired_state bad))
        | inr good ↦
            let fits = and_both _ _ (or_false _ _ good (observed_cases w.desired_state o.state)) in
            rw e (inl (ground (arith, same, good), (o, refl, e, fits.0, fits.1)))
      ]
]

result-Settled :
    (w : Workspace) (r : ReconcileResult) (now : ℕ)
    → Settled w r (reconciled (recovered_as w r) now w)
unfolding reconciled
result-Settled w (observed o) now = observed-Settled w o now
result-Settled w (missing id) now = inr (refl, (refl, refl))
result-Settled w (invalid id retryable) now = inr (refl, (refl, refl))

-- The Worker does not have it, and it is to be deleted.
abbrev pub is_gone_as_meant : Workspace → ReconcileResult → Bool
is_gone_as_meant w r = is_gone r && desires w.desired_state DesiredState.deleted

-- Gone exactly if it is gone as meant, left exactly if the Worker wants to be asked again, and
-- settled otherwise.
abbrev pub Outcome : Workspace → ReconcileResult → Db → Type 0
Outcome w r db =
    ((is_gone_as_meant w r ≡ true) × (find (has_id w.id) db.workspaces ≡ none))
    ⊎ (((is_gone_as_meant w r ≡ false) × (is_retried r ≡ true) × HasRow w.id w db)
        ⊎ ((is_gone_as_meant w r ≡ false)
            × (is_retried r ≡ false)
            × ((after : Workspace) × HasRow w.id after db × Settled w r after)))

whichever :
    (again : Bool) (db other : Db) (P : Db → Type 0)
    → (again ≡ true → P db)
    → (again ≡ false → P other)
    → P (if again then db else other)
whichever true db other P h k = h refl
whichever false db other P h k = k refl

module _ (worker : ℕ) (w : Workspace) (r : ReconcileResult) (now : ℕ) (db : Db)
    (offline : w.state ≡ WorkspaceState.worker_offline) (on : w.worker_id ≡ some worker)
    (row : HasRow w.id w db) where
  is_lost : state_is w.state WorkspaceState.worker_offline ≡ true
  is_lost = rw offline refl

  reconcile-Outcome :
      (found : RecoveredState)
      → is_gone_as_meant w r ≡ false
      → Settled w r (reconciled found now w)
      → is_retried r ≡ false
      → Outcome w r
          (reconcile_workspace_recovery w.id worker w.runtime_image w.desired_state found now db).1
  unfolding reconcile_workspace_recovery can_reconcile reconciled
  reconcile-Outcome found there h again =
      let after =
        HasRow-update w.id (can_reconcile w.id worker w.runtime_image w.desired_state)
          (reconciled found now) (λ v k. ground (arith, k)) (λ v. refl) w db row in
      let can : can_reconcile w.id worker w.runtime_image w.desired_state w ≡ true =
        ground (arith, on, is_lost) in
      inr (inr (there, again, (reconciled found now w, (let k = after.1 in rw can at k), h)))

  -- A Workspace that is offline on its Worker is deleted exactly if the Worker does not have it and it is
  -- to be deleted; if not, it is left alone exactly if the Worker wants to be asked again; and otherwise
  -- it gets the state that the Worker saw, which is as meant, if that is with its image and agrees with
  -- what was meant, and it is in error, with what is meant unchanged, if not.
  pub settle_workspace-Outcome : Outcome w r (settle_workspace worker w r now db)
  unfolding settle_workspace delete_recovered_workspace can_delete_recovered
  settle_workspace-Outcome =
      whichever (is_gone_as_meant w r) _ _ (Outcome w r)
        (λ e.
          let both = and_both (is_gone r) (desires w.desired_state DesiredState.deleted) e in
          let can : can_delete_recovered w.id w.user_id worker w.runtime_image w ≡ true =
            ground (arith, on, is_lost, both.1) in
          let gone =
            HasRow-delete w.id (can_delete_recovered w.id w.user_id worker w.runtime_image)
              (λ v k. ground (arith, k)) now w db row can in
          inl (e, gone.1))
        (λ e.
          whichever (is_retried r) db _ (Outcome w r) (λ f. inr (inl (e, f, row)))
            (reconcile-Outcome (recovered_as w r) e (result-Settled w r now)))
