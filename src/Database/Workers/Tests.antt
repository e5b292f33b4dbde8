-- ===== src/Database/Workers/Tests.antt =====
-- The sample Worker is disabled: its Workspace goes offline and loses its key.
use pi_container.Prelude.{refl, ◌≡◌}
use pi_container.Database.Tables.{update_workspaces}
use pi_container.Database.Recovery.{went_offline}
use pi_container.Database.Samples.{small_db}
use pi_container.Database.Workers.{disabled, disable_worker}

counted : (disable_worker 1 300 small_db).0 ≡ disabled 1 1
unfolding disable_worker update_workspaces went_offline
counted = refl
