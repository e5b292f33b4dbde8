-- ===== src/WorkerRevocation/Tests.antt =====
-- The Worker of the sample database is disabled while a connection to its Workspace is open.
use pi_container.Prelude.{refl, false, ℕ, ◌∷◌, [], Bool, ◌≡◌, true, Memᴰ}
use pi_container.Database.Records.{Worker, WorkerStatus}
use pi_container.Database.Tables.{Db}
use pi_container.Database.Samples.{small_db, worker_row, running_row}
use pi_container.WorkerChannel.{WorkerChannel}
use pi_container.SessionConnections.{Registry, active_count}
use pi_container.SessionConnections.Disconnecting.{all_disconnected}
use pi_container.WorkerRevocation.{enforce_worker_revocations}
use pi_container.WorkerRevocation.Closing.{enforce_worker_revocations-closes}
use pi_container.Database.Recovery.{is_assigned_to}

abbrev off_row : Worker
off_row = record worker_row { enabled = false; status = WorkerStatus.disabled }

abbrev off_db : Db
off_db = record small_db { workers = off_row ∷ [] }

abbrev registry : Registry
registry = record {
  connections = record { connection = 1; user_id = 3; session_id = 70; workspace_id = 8 } ∷ [];
  disconnected = [];
}

abbrev channel : WorkerChannel
channel = record { connections = (1, 5) ∷ []; pending = []; trace = [] }

abbrev open_socket : ℕ → Bool
open_socket socket = true

enforce_worker_revocations-closes_example :
    let after = (enforce_worker_revocations open_socket off_db (channel, registry)).1 in
    (active_count 8 after ≡ 0) × (all_disconnected 8 registry.connections after.disconnected ≡ true)
unfolding is_assigned_to
enforce_worker_revocations-closes_example =
    enforce_worker_revocations-closes open_socket off_db channel registry off_row running_row
      (Memᴰ.head refl) refl (Memᴰ.tail (Memᴰ.head refl)) refl
