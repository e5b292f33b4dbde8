-- ===== src/IdleStopper.antt =====
-- apps/control-plane/src/idle/idle-stopper.ts: the sweep that stops Workspaces without connections,
-- accesses and CPU activity. While it runs, other requests go on: each candidate is looked at in a view
-- of its own, and the database may have changed before its transaction. The command that stops the
-- container is a parameter.
pub mod Warranted
mod Tests
use pi_container.Database.Tables.{Db}
use pi_container.Database.Idle.{IdleStopCandidate, list_idle_stop_candidates, begin_idle_stop}
use pi_container.AccessTracker.{AccessState, latest_access}
use pi_container.ComputeActivity.{ComputeState, last_active_at}
use pi_container.SessionConnections.{Registry, active_count}
use pi_container.Prelude.{
  ℕ, Bool, List, Option, if◌then◌else◌, ◌+◌, [], ◌*◌, false, not, ◌∷◌, ltb, some, leb, ◌-◌, true,
  none,
}

-- The CPU threshold is in nanoseconds per millisecond, as in ComputeActivity.
pub record IdlePolicy : Type 0 where
  pub stop_after_hours : ℕ
  pub cpu_threshold : ℕ

abbrev pub candidates_per_sweep : ℕ
candidates_per_sweep = 50

abbrev pub stops_per_sweep : ℕ
stops_per_sweep = 10

pub data IdleStopResult : Type 0 where
  stopped skipped_race failed : IdleStopResult

-- What the process knows when it looks at a candidate, what other requests do to the database before
-- the transaction for it, and the time of that transaction.
pub record ActivityView : Type 0 where
  pub worker_connected : ℕ → Bool
  pub registry : Registry
  pub access : List AccessState
  pub compute : List ComputeState
  pub meanwhile : Db → Db
  pub clock : ℕ

-- `recordStop`, with what the sweep saw.
pub record StopEvent : Type 0 where
  pub candidate : IdleStopCandidate
  pub view : ActivityView
  pub before : Db
  pub result : IdleStopResult

pub record Sweep : Type 0 where
  pub stopped_count : ℕ
  pub skipped_count : ℕ
  pub events : List StopEvent
  pub db : Db

abbrev pub after_cutoff : ℕ → Option ℕ → Bool
after_cutoff cutoff none = false
after_cutoff cutoff (some accessed) = ltb cutoff accessed

abbrev pub idle_since : IdlePolicy → ActivityView → IdleStopCandidate → ℕ → ℕ → Bool
idle_since policy view c cutoff now =
    if not (view.worker_connected c.worker_id)
    then false
    else if ltb 0 (active_count c.workspace_id view.registry)
    then false
    else if after_cutoff cutoff (latest_access c.workspace_id view.access)
    then false
    else leb (last_active_at policy.cpu_threshold c.workspace_id now view.compute) cutoff

abbrev pub event_of : IdleStopCandidate → ActivityView → Db → IdleStopResult → StopEvent
event_of c view before result = record {
  candidate = c;
  view = view;
  before = before;
  result = result;
}

abbrev pub started_sweep : Db → Sweep
started_sweep db = record { stopped_count = 0; skipped_count = 0; events = []; db = db }

module _ (stop : IdleStopCandidate → Db → Bool × Db) (policy : IdlePolicy) where
  settle_stop : IdleStopCandidate → ActivityView → Db → Bool × Db → Sweep → Sweep
  settle_stop c view before (true, db) sweep = record sweep {
    stopped_count = sweep.stopped_count + 1;
    events = event_of c view before stopped ∷ sweep.events;
    db = db;
  }
  settle_stop c view before (false, db) sweep = record sweep {
    events = event_of c view before failed ∷ sweep.events;
    db = db;
  }

  settle_begin : IdleStopCandidate → ActivityView → Db → Bool × Db → Sweep → Sweep
  unfolding settle_stop
  settle_begin c view before (true, db) sweep = settle_stop c view before (stop c db) sweep
  settle_begin c view before (false, db) sweep = record sweep {
    skipped_count = sweep.skipped_count + 1;
    events = event_of c view before skipped_race ∷ sweep.events;
    db = db;
  }

  sweep_candidate : ℕ → ℕ → ActivityView → IdleStopCandidate → Sweep → Sweep
  unfolding settle_begin
  sweep_candidate cutoff now view c sweep =
      let before = view.meanwhile sweep.db in
      if not (idle_since policy view c cutoff now)
      then sweep
      else settle_begin c view before
          (begin_idle_stop c.workspace_id c.worker_id cutoff policy.stop_after_hours
            policy.cpu_threshold view.clock before)
          sweep

  -- The view of a candidate is that of its place in the list.
  sweep_from : ℕ → ℕ → (ℕ → ActivityView) → ℕ → List IdleStopCandidate → Sweep → Sweep
  unfolding sweep_candidate
  sweep_from cutoff now views place [] sweep = sweep
  sweep_from cutoff now views place (c ∷ cs) sweep =
      let rest =
        sweep_from cutoff now views (place + 1) cs
          (sweep_candidate cutoff now (views place) c sweep) in
      if leb stops_per_sweep sweep.stopped_count then sweep else rest

  unfoldable pub sweep : (ℕ → ActivityView) → ℕ → ℕ → Db → Sweep
  unfolding sweep_from
  sweep views started_at now db =
      let window = policy.stop_after_hours * 3600000 in
      if ltb now (started_at + window)
      then started_sweep db
      else sweep_from (now - window) now views 0
          (list_idle_stop_candidates (now - window) candidates_per_sweep db) (started_sweep db)
