-- ===== src/SessionConnections/Closing.antt =====
-- Closing the connections of Workspaces: none stays open, and no other one is closed.
use native.Mathlib.Decide.{ℕ_discrete}
use pi_container.Prelude.{ℕ, ◌≡◌, refl, Bool, List, [], ◌∷◌, any, arith, ◌==◌, if◌then◌else◌}
use pi_container.Prelude.Table.{delete_where}
use pi_container.SessionConnections.{
  TrackedConnection, Registry, close_workspaces, close_matching, active_count, count_active,
}

abbrev pub targeted : List ℕ → ℕ → Bool
targeted targets workspace = any (λ t. t == workspace) targets

count_closed :
    (targets : List ℕ) (workspace : ℕ) (cs : List TrackedConnection)
    → count_active workspace (delete_where (λ c. targeted targets c.workspace_id) cs)
      ≡ (if targeted targets workspace then 0 else count_active workspace cs)
unfolding count_active delete_where
count_closed targets workspace [] = ground arith
count_closed targets workspace (c ∷ cs) = elim (ℕ_discrete c.workspace_id workspace) [
  | yes e ↦ rw e (ground (arith, count_closed targets workspace cs))
  | no n ↦ ground (arith, count_closed targets workspace cs, n)
]

-- After closing the connections of some Workspaces, each of them has no active connection, and every
-- other Workspace has as many as before.
pub active_count-close_workspaces :
    (targets : List ℕ) (workspace : ℕ) (registry : Registry)
    → active_count workspace (close_workspaces targets registry)
      ≡ (if targeted targets workspace then 0 else active_count workspace registry)
unfolding active_count close_workspaces close_matching
active_count-close_workspaces [] workspace registry = refl
active_count-close_workspaces (target ∷ targets) workspace registry =
    count_closed (target ∷ targets) workspace registry.connections
