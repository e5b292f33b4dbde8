-- ===== src/WorkerRevocation.antt =====
-- apps/control-plane/src/worker-revocation.ts: a Worker that was disabled in the database loses its control
-- connection, and the connections to its Workspaces are closed.
pub mod Closing
mod Tests
use pi_container.Prelude.{[], ◌∷◌}
use pi_container.Database.Tables.{Db}
use pi_container.Database.Workers.{list_revoked_worker_assignments}
use pi_container.WorkerChannel.{WorkerChannel, is_connected, disconnect}
use pi_container.SessionConnections.{Registry, close_workspaces}
use pi_container.Prelude.{ℕ, Bool, if◌then◌else◌, List}

-- Sockets that are open have `readyState` 1.
module _ (ready : ℕ → Bool) where
  abbrev close_connected : ℕ → WorkerChannel → WorkerChannel
  close_connected worker channel =
      if is_connected ready worker channel then (disconnect worker 1008 channel).1 else channel

  pub enforce : List (ℕ × List ℕ) → WorkerChannel × Registry → WorkerChannel × Registry
  enforce [] state = state
  enforce ((worker, workspaces) ∷ revoked) (channel, registry) =
      enforce revoked (close_connected worker channel, close_workspaces workspaces registry)

  unfoldable pub enforce_worker_revocations :
      Db → WorkerChannel × Registry → WorkerChannel × Registry
  unfolding enforce
  enforce_worker_revocations db state = enforce (list_revoked_worker_assignments db) state
