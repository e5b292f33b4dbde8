-- ===== src/WorkspaceRoutes/Deleting.antt =====
-- How the handler of a deletion leaves the Workspace, when no other request changes its row meanwhile.
use pi_container.Database.Records.{
  Workspace, WorkspaceState, DesiredState, state_is, state_in, RevokeReason,
}
use pi_container.Database.Tables.{Db, request_revoke}
use pi_container.Database.Row.{HasRow, HasRow-update, HasRow-delete, has_id, row_id}
use pi_container.Database.Workspaces.{delete_owned_workspace, can_delete_owned}
use pi_container.Database.Lifecycle.{
  begin_workspace_delete, can_begin_delete, delete_begun, delete_confirmed_workspace,
  can_delete_confirmed, mark_workspace_runtime_failure, can_fail, failed, transient_states,
}
use pi_container.RuntimeCommands.{DispatchFailure, mark_runtime_failure}
use pi_container.WorkspaceRoutes.{
  Surroundings, Reply, delete_workspace, delete_found, delete_on, after_begin_delete, settle_delete,
  after_delete, Option, ℕ, Bool, dispatch_failed, no_content,
}
use pi_container.WorkspaceRoutes.Settling.{
  is_seen, is_seen_iff, LeavesAlone, failed_state, find_owned-HasRow,
}
use pi_container.Prelude.{
  ◌≡◌, ◌⊎◌, refl, some, false, if◌then◌else◌, subst, true, ◌&&◌, find, Distinct, arith, inr,
  Bool-cases, not, is_null, ◌||◌, none, inl, sym,
}

-- Never started, or at rest on a connected Worker.
abbrev can_delete_on : Surroundings → Option ℕ → WorkspaceState → Bool
can_delete_on around none state = state_is state WorkspaceState.created
can_delete_on around (some worker) state =
    around.connected worker && not (state_in state transient_states)

-- The failure of the command is in the reply, and its state in the row, which is still to be deleted.
abbrev pub HasFailed : Workspace → Reply × Db → Type 0
HasFailed w result =
    (f : DispatchFailure) × (after : Workspace) × (result.0 ≡ dispatch_failed f)
    × HasRow w.id after result.1
    × (after.state ≡ failed_state f)
    × (after.desired_state ≡ DesiredState.deleted)

abbrev pub IsGone : Workspace → Reply × Db → Type 0
IsGone w result = (result.0 ≡ no_content) × (find (has_id w.id) result.1.workspaces ≡ none)

-- It was never started, or the Worker answers that it sees it as it was before the first start.
abbrev pub is_confirmed : Surroundings → Workspace → Bool
is_confirmed around w = is_null w.worker_id || is_seen w WorkspaceState.created around.outcome

abbrev pub DeleteOutcome : Surroundings → Workspace → Reply × Db → Type 0
DeleteOutcome around w result =
    ((can_delete_on around w.worker_id w.state ≡ true)
      × (is_confirmed around w ≡ true)
      × IsGone w result)
    ⊎ (((can_delete_on around w.worker_id w.state ≡ true)
          × (is_confirmed around w ≡ false)
          × HasFailed w result)
        ⊎ ((can_delete_on around w.worker_id w.state ≡ false) × HasRow w.id w result.1))

-- The revocation of the keys leaves the rows of `workspaces` alone.
begun_or :
    (done : Bool) (w row : Workspace) (now : ℕ) (db : Db) (P : Bool × Db → Type 0)
    → P (done, db)
    → ((d : Db) → d.workspaces ≡ db.workspaces → P (done, d))
    → P (
        if◌then◌else◌ {A = Bool × Db} done
          (true, request_revoke w.id RevokeReason.workspace_deleted now db)
          (false, db))
unfolding request_revoke
begun_or true w row now db P h k = k _ refl
begun_or false w row now db P h k = h

same_rows :
    (id : ℕ) (w : Workspace) (db d : Db)
    → d.workspaces ≡ db.workspaces
    → HasRow id w db
    → HasRow id w d
same_rows id w db d e h = record {
  unique = subst (λ ws. Distinct row_id ws) (sym e) h.unique;
  found = subst (λ ws. find (has_id id) ws ≡ some w) (sym e) h.found;
}

begin_delete-row :
    (worker now : ℕ) (w : Workspace) (db : Db)
    → HasRow w.id w db
    → let begun = begin_workspace_delete w.id w.user_id worker now db in
      let can = can_begin_delete w.id w.user_id worker w in
      (begun.0 ≡ can) × HasRow w.id (if can then delete_begun now w else w) begun.1
unfolding begin_workspace_delete request_revoke can_begin_delete delete_begun
begin_delete-row worker now w db h =
    let after =
      HasRow-update w.id (can_begin_delete w.id w.user_id worker) (delete_begun now)
        (λ v k. ground (arith, k)) (λ v. refl) w db h in
    begun_or _ w w now _
      (λ (r : Bool × Db).
        (r.0 ≡ can_begin_delete w.id w.user_id worker w)
        × HasRow w.id (if can_begin_delete w.id w.user_id worker w then delete_begun now w else w)
            r.1)
      (after.0, after.1) (λ d e. (after.0, same_rows _ _ _ d e after.1))

module _ (around : Surroundings) (w : Workspace) (alone : LeavesAlone w.id around) where
  deleted-Gone :
      (deleted : Bool × Db)
      → can_delete_on around w.worker_id w.state ≡ true
      → is_confirmed around w ≡ true
      → deleted.0 ≡ true
      → find (has_id w.id) deleted.1.workspaces ≡ none
      → DeleteOutcome around w (after_delete around deleted)
  unfolding after_delete
  deleted-Gone (true, db) able told e h = inl (able, told, (refl, h))
  deleted-Gone (false, db) able told e h = absurd (ground (arith, e))

  settle_delete-Outcome :
      (worker now : ℕ) (fails : Option DispatchFailure) (db : Db)
      → w.worker_id ≡ some worker
      → can_delete_on around w.worker_id w.state ≡ true
      → is_null fails ≡ is_seen w WorkspaceState.created around.outcome
      → HasRow w.id (delete_begun now w) db
      → DeleteOutcome around w (settle_delete around w worker fails db)
  unfolding settle_delete mark_runtime_failure mark_workspace_runtime_failure can_fail failed
      delete_begun delete_confirmed_workspace can_delete_confirmed
  settle_delete-Outcome worker now (some f) db on able told h =
      let after =
        HasRow-update w.id (can_fail w.id worker) (failed f.worker_offline (around.clock 1))
          (λ v k. ground (arith, k)) (λ v. refl) (delete_begun now w) db h in
      let can : can_fail w.id worker (delete_begun now w) ≡ true = ground (arith, on) in
      inr (
        inl (
          able,
          ground (arith, on, told),
          (
            f,
            failed f.worker_offline (around.clock 1) (delete_begun now w),
            refl,
            (let k = after.1 in rw can at k),
            refl,
            refl,
          ),
        ))
  settle_delete-Outcome worker now none db on able told h =
      let can : can_delete_confirmed w.id w.user_id worker (delete_begun now w) ≡ true =
        ground (arith, on) in
      let gone =
        HasRow-delete w.id (can_delete_confirmed w.id w.user_id worker) (λ v k. ground (arith, k))
          (around.clock 1) (delete_begun now w) db h can in
      deleted-Gone _ able (ground (arith, told)) gone.0 gone.1

  cannot_begin :
      (worker : ℕ)
      → w.worker_id ≡ some worker
      → can_begin_delete w.id w.user_id worker w ≡ false
      → can_delete_on around w.worker_id w.state ≡ false
  unfolding can_begin_delete
  cannot_begin worker on e = ground (arith, on, e)

  can_begin :
      (worker : ℕ)
      → w.worker_id ≡ some worker
      → around.connected worker ≡ true
      → can_begin_delete w.id w.user_id worker w ≡ true
      → can_delete_on around w.worker_id w.state ≡ true
  unfolding can_begin_delete
  can_begin worker on up e = ground (arith, on, up, e)

  begin_delete-Outcome :
      (worker now : ℕ) (begun : Bool × Db)
      → w.worker_id ≡ some worker
      → around.connected worker ≡ true
      → begun.0 ≡ can_begin_delete w.id w.user_id worker w
      → HasRow w.id
          (if can_begin_delete w.id w.user_id worker w then delete_begun now w else w)
          begun.1
      → DeleteOutcome around w (after_begin_delete around w worker begun)
  unfolding after_begin_delete
  begin_delete-Outcome worker now (false, db) on up e h =
      inr (inr (cannot_begin worker on (sym e), (rw (sym e) at h)))
  begin_delete-Outcome worker now (true, db) on up e h =
      settle_delete-Outcome worker now _ (around.meanwhile 1 db) on (can_begin worker on up (sym e))
        (is_seen_iff w WorkspaceState.created around.outcome)
        (alone 1 (delete_begun now w) db (rw (sym e) at h))

  delete_on-Outcome :
      (worker : Option ℕ) (db : Db)
      → w.worker_id ≡ worker
      → HasRow w.id w db
      → DeleteOutcome around w (delete_on around worker w db)
  unfolding delete_on delete_owned_workspace can_delete_owned
  delete_on-Outcome (some worker) db on h = elim (Bool-cases (around.connected worker)) [
    | inr e ↦ rw (e, delete_on) (inr (inr (ground (arith, on, e), h)))
    | inl e ↦
        let begun =
          begin_delete-row worker (around.clock 0) w (around.meanwhile 0 db) (alone 0 w db h) in
        rw (e, delete_on) (begin_delete-Outcome worker (around.clock 0) _ on e begun.0 begun.1)
  ]
  delete_on-Outcome none db on h = elim (Bool-cases (state_is w.state WorkspaceState.created)) [
    | inr e ↦ rw (e, delete_on) (inr (inr (ground (arith, on, e), h)))
    | inl e ↦
        let can : can_delete_owned w.id w.user_id w ≡ true = ground (arith, on, e) in
        let gone =
          HasRow-delete w.id (can_delete_owned w.id w.user_id) (λ v k. ground (arith, k))
            (around.clock 0) w (around.meanwhile 0 db) (alone 0 w db h) can in
        rw (e, delete_on)
          (deleted-Gone _ (ground (arith, on, e)) (ground (arith, on)) gone.0 gone.1)
  ]

  -- If no other request changes its row, a Workspace whose owner asks to delete it can be deleted exactly
  -- if it was never started, or is on a connected Worker and not starting, stopping, upgrading or
  -- being deleted. If so, it is gone exactly if it was never started or the Worker answers that it
  -- sees it as CREATED with its image, and otherwise it is in the error state that goes with the
  -- failure in the reply and still to be deleted. If not, it is as it was.
  pub delete_workspace-settles :
      (db : Db)
      → HasRow w.id w db
      → DeleteOutcome around w (delete_workspace around w.id w.user_id db)
  unfolding delete_workspace delete_found
  delete_workspace-settles db h =
      rw (find_owned-HasRow w w.id w.user_id db refl h) (delete_on-Outcome w.worker_id db refl h)
