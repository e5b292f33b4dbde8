-- ===== src/WorkerRevocation/Closing.antt =====
-- No connection to a Workspace of a disabled Worker stays, and each is disconnected.
use pi_container.Prelude.Sort.{order_by, mem_order_by}
use pi_container.Database.Records.{Workspace, Worker}
use pi_container.Database.Tables.{Db}
use pi_container.Database.Recovery.{is_assigned_to}
use pi_container.Database.Workers.{list_revoked_worker_assignments, assignments_of}
use pi_container.WorkerChannel.{WorkerChannel}
use pi_container.SessionConnections.Disconnecting.{
  is_called, all_disconnected, all_disconnected_of, close_workspaces-stays, close_workspaces-calls,
  close_workspaces-keeps,
}
use pi_container.SessionConnections.{TrackedConnection, Registry, close_workspaces, active_count}
use pi_container.SessionConnections.Closing.{targeted, active_count-close_workspaces}
use pi_container.WorkerRevocation.{enforce, enforce_worker_revocations, ℕ, List, Bool}
use pi_container.Prelude.{
  Memᴰ, mem_map, ◌≡◌, true, Bool-cases, false, ◌∷◌, inl, refl, mem_cases, inr, [], arith, ap,
  select, mem_select, subst, map, sym, ◌∙◌,
}

targeted_of_mem : (id : ℕ) (ids : List ℕ) → Memᴰ id ids → targeted ids id ≡ true
targeted_of_mem id [] m = elim m [ ]
targeted_of_mem id (x ∷ xs) m =
    mem_cases m (λ q. ground (arith, q)) (λ m'. ground (arith, targeted_of_mem id xs m'))

closed_stays :
    (targets : List ℕ) (workspace : ℕ) (registry : Registry)
    → active_count workspace registry ≡ 0
    → active_count workspace (close_workspaces targets registry) ≡ 0
closed_stays targets workspace registry h = elim (Bool-cases (targeted targets workspace)) [
  | inl e ↦ rw (active_count-close_workspaces targets workspace registry, e) refl
  | inr e ↦ rw (active_count-close_workspaces targets workspace registry, e) h
]

closed_now :
    (targets : List ℕ) (workspace : ℕ) (registry : Registry)
    → Memᴰ workspace targets
    → active_count workspace (close_workspaces targets registry) ≡ 0
closed_now targets workspace registry m =
    rw
      (
        active_count-close_workspaces targets workspace registry,
        targeted_of_mem workspace targets m,
      )
      refl

module _ (ready : ℕ → Bool) where
  enforce_stays :
      (revoked : List (ℕ × List ℕ)) (channel : WorkerChannel) (registry : Registry) (workspace : ℕ)
      → active_count workspace registry ≡ 0
      → active_count workspace (enforce ready revoked (channel, registry)).1 ≡ 0
  unfolding enforce
  enforce_stays [] channel registry workspace h = h
  enforce_stays ((worker, targets) ∷ revoked) channel registry workspace h =
      enforce_stays revoked _ _ workspace (closed_stays targets workspace registry h)

  enforce_closes :
      (workers : List Worker) (rows : List Workspace) (v : Worker) (x : Workspace)
      (channel : WorkerChannel) (registry : Registry)
      → Memᴰ v workers
      → v.enabled ≡ false
      → Memᴰ x rows
      → is_assigned_to v.id x ≡ true
      → active_count x.id (enforce ready (assignments_of workers rows) (channel, registry)).1 ≡ 0
  unfolding enforce assignments_of
  enforce_closes [] rows v x channel registry m off n on = elim m [ ]
  enforce_closes (w ∷ ws) rows v x channel registry m off n on = elim (Bool-cases w.enabled) [
    | inl e ↦
        mem_cases m
          (λ q.
            let same : v.enabled ≡ w.enabled = ap (λ (y : Worker). y.enabled) q in
            absurd (ground (arith, e, off, same)))
          (λ m'. rw e (enforce_closes ws rows v x channel registry m' off n on))
    | inr e ↦
        mem_cases m
          (λ q.
            let here =
              mem_map (λ (w : Workspace). w.id) x (select (is_assigned_to w.id) rows)
                (mem_select (is_assigned_to w.id) x rows n
                  (subst (λ (y : Worker). is_assigned_to y.id x ≡ true) q on)) in
            rw e
              (enforce_stays (assignments_of ws rows) _ _ x.id (closed_now _ x.id registry here)))
          (λ m'. rw e (enforce_closes ws rows v x _ _ m' off n on))
  ]

  enforce_called :
      (revoked : List (ℕ × List ℕ)) (channel : WorkerChannel) (registry : Registry)
      (c : TrackedConnection)
      → is_called registry.disconnected c ≡ true
      → is_called (enforce ready revoked (channel, registry)).1.disconnected c ≡ true
  unfolding enforce
  enforce_called [] channel registry c h = h
  enforce_called ((worker, targets) ∷ revoked) channel registry c h =
      enforce_called revoked _ _ c (close_workspaces-stays targets registry c h)

  module _ (rows : List Workspace) (x : Workspace) (n : Memᴰ x rows) (c : TrackedConnection)
      (to : c.workspace_id ≡ x.id) where
    enforce_calls :
        (workers : List Worker) (v : Worker) (channel : WorkerChannel) (registry : Registry)
        → Memᴰ v workers
        → v.enabled ≡ false
        → is_assigned_to v.id x ≡ true
        → Memᴰ c registry.connections
        → is_called
            (enforce ready (assignments_of workers rows) (channel, registry)).1.disconnected
            c
          ≡ true
    unfolding enforce assignments_of
    enforce_calls [] v channel registry m off on k = elim m [ ]
    enforce_calls (w ∷ ws) v channel registry m off on k = elim (Bool-cases w.enabled) [
      | inl e ↦
          mem_cases m
            (λ q.
              let same : v.enabled ≡ w.enabled = ap (λ (y : Worker). y.enabled) q in
              absurd (ground (arith, e, off, same)))
            (λ m'. rw e (enforce_calls ws v channel registry m' off on k))
      | inr e ↦
          let targets = map (λ (y : Workspace). y.id) (select (is_assigned_to w.id) rows) in
          elim (Bool-cases (targeted targets c.workspace_id)) [
            | inl hit ↦ rw e (
                enforce_called (assignments_of ws rows) _ _ c
                  (close_workspaces-calls targets registry c k hit))
            | inr missed ↦
                mem_cases m
                  (λ q.
                    let here =
                      mem_map (λ (y : Workspace). y.id) x (select (is_assigned_to w.id) rows)
                        (mem_select (is_assigned_to w.id) x rows n
                          (subst (λ (y : Worker). is_assigned_to y.id x ≡ true) q on)) in
                    let hit : targeted targets c.workspace_id ≡ true =
                      subst (λ t. targeted targets t ≡ true) (sym to)
                        (targeted_of_mem x.id targets here) in
                    absurd (let no : true ≡ false = sym hit ∙ missed in cc))
                  (λ m'. rw e (
                    enforce_calls ws v _ _ m' off on
                      (close_workspaces-keeps targets registry c k missed)))
          ]
    ]

  -- After the sweep over the disabled Workers, no connection to a Workspace that is assigned to one of
  -- them is active, and each one that was has been disconnected.
  pub enforce_worker_revocations-closes :
      (db : Db) (channel : WorkerChannel) (registry : Registry) (v : Worker) (x : Workspace)
      → Memᴰ v db.workers
      → v.enabled ≡ false
      → Memᴰ x db.workspaces
      → is_assigned_to v.id x ≡ true
      → let after = (enforce_worker_revocations ready db (channel, registry)).1 in
        (active_count x.id after ≡ 0)
        × (all_disconnected x.id registry.connections after.disconnected ≡ true)
  unfolding enforce_worker_revocations list_revoked_worker_assignments
  enforce_worker_revocations-closes db channel registry v x m off n on =
      let workers = order_by (λ (w : Worker). w.id) db.workers in
      let there = mem_order_by (λ (w : Worker). w.id) v db.workers m in
      (
        enforce_closes workers db.workspaces v x channel registry there off n on,
        all_disconnected_of x.id _ registry.connections (λ c k to.
            enforce_calls db.workspaces x n c to workers v channel registry there off on k),
      )
