-- ===== src/IdleStopper/Tests.antt =====
-- A sweep over the sample database, with a Workspace that has been quiet for 2 hours.
use pi_container.Prelude.Sort.{order_by}
use pi_container.Database.Tables.{Db, update_workspaces}
use pi_container.Database.Idle.{
  IdleStopCandidate, list_idle_stop_candidates, begin_idle_stop, can_begin_idle_stop,
}
use pi_container.SessionConnections.{active_count}
use pi_container.ComputeActivity.{last_active_at}
use pi_container.AccessTracker.{latest_access}
use pi_container.Database.Samples.{small_db}
use pi_container.IdleStopper.{
  IdlePolicy, ActivityView, sweep, started_sweep, Bool, ℕ, true, [], none,
}
use pi_container.IdleStopper.Warranted.{Sound, sweep-Sound}
use pi_container.Prelude.{◌<◌, ◌≡◌, ◌+◌, refl, ◌*◌, ◌-◌, ◌∷◌}

abbrev policy : IdlePolicy
policy = record { stop_after_hours = 1; cpu_threshold = 50000 }

abbrev stop : IdleStopCandidate → Db → Bool × Db
stop c db = (true, db)

abbrev view : ℕ → ActivityView
view place = record {
  worker_connected = λ worker. true;
  registry = record { connections = []; disconnected = [] };
  access =
      record { workspace_id = 8; latest = 150; persisted = none; pending = true; writing = none }
      ∷ [];
  compute =
      record {
        workspace_id = 8;
        worker_id = 1;
        bucket_start = record { at = 7200100; nanos = 100 };
        last = record { at = 7200200; nanos = 100 };
        active_at = 120;
      }
      ∷ [];
  meanwhile = λ db. db;
  clock = 7200300;
}

sweep-Sound_example :
    (7200300 < 100 + policy.stop_after_hours * 3600000
      → sweep stop policy view 100 7200300 small_db ≡ started_sweep small_db)
    × Sound policy
        (7200300 - policy.stop_after_hours * 3600000)
        7200300
        (sweep stop policy view 100 7200300 small_db)
sweep-Sound_example = sweep-Sound stop policy view 100 7200300 small_db

-- The Workspace is stopped.
one_stopped : (sweep stop policy view 100 7200300 small_db).stopped_count ≡ 1
unfolding sweep list_idle_stop_candidates begin_idle_stop active_count last_active_at latest_access
    order_by update_workspaces can_begin_idle_stop
one_stopped = refl
