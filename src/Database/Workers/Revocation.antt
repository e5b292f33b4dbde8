-- ===== src/Database/Workers/Revocation.antt =====
-- What is left of a Worker that is disabled.
use pi_container.Database.Records.{Workspace}
use pi_container.Database.Tables.{Db}
use pi_container.Database.Keys.{has_live_key}
use pi_container.Database.Recovery.{is_assigned_to}
use pi_container.Database.Workers.{is_reported, find_worker_gateway_route, ℕ, false, none, select}
use pi_container.Prelude.{◌≡◌, All, any}

-- No traffic is routed to the Worker, no Workspace of it counts as started or stopped, and none has a
-- live model key.
pub record Revoked (worker : ℕ) (db : Db) : Type 0 where
  pub unrouted : (cutoff : ℕ) → find_worker_gateway_route worker cutoff db ≡ none
  pub unreported : any (is_reported worker) db.workspaces ≡ false
  pub keyless :
      All
        (λ (w : Workspace). has_live_key w.id db ≡ false)
        (select (is_assigned_to worker) db.workspaces)
