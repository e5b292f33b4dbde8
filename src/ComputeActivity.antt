-- ===== src/ComputeActivity.antt =====
-- apps/control-plane/src/idle/compute-activity.ts: when each running Workspace last did real work, from
-- the CPU counter that the Worker reports. The threshold in cores is a number of nanoseconds of CPU per
-- millisecond (cores times 10^6), and an average is compared without rounding.
pub mod Tracked
pub mod Quiet
mod Tests
use pi_container.Prelude.{
  ℕ, Option, Bool, if◌then◌else◌, List, leb, not, ◌∷◌, some, select, ltb, [], ◌*◌, ◌==◌, ◌-◌, none,
  ◌+◌, ◌||◌, ◌&&◌,
}

abbrev pub compute_bucket_ms : ℕ
compute_bucket_ms = 300000

abbrev pub compute_max_sample_gap_ms : ℕ
compute_max_sample_gap_ms = 60000

pub record Point : Type 0 where
  pub at : ℕ
  pub nanos : ℕ

pub record ComputeState : Type 0 where
  pub workspace_id : ℕ
  pub worker_id : ℕ
  pub bucket_start : Point
  pub last : Point
  pub active_at : ℕ

-- A time that cannot be read is `none`.
pub record UsageSample : Type 0 where
  pub workspace_id : ℕ
  pub sampled_at : Option ℕ
  pub cpu_usage_nanos : ℕ

-- The average between two points is at least the threshold.
abbrev pub is_computing : ℕ → Point → Point → Bool
is_computing threshold from to =
    leb (threshold * to.at + from.nanos) (to.nanos + threshold * from.at)

abbrev pub first_state : ℕ → ℕ → Point → ComputeState
first_state workspace worker point = record {
  workspace_id = workspace;
  worker_id = worker;
  bucket_start = point;
  last = point;
  active_at = point.at;
}

abbrev pub restarted : Point → ComputeState → ComputeState
restarted point state = record state { active_at = point.at; bucket_start = point; last = point }

abbrev pub bucket_closed : ℕ → Point → ComputeState → ComputeState
bucket_closed threshold point state = record state {
  active_at = if is_computing threshold state.bucket_start point then point.at else state.active_at;
  bucket_start = point;
  last = point;
}

abbrev pub bucket_filled : Point → ComputeState → ComputeState
bucket_filled point state = record state { last = point }

-- One sample of a Workspace that the tracker knows.
pub observe : ℕ → ℕ → Point → ComputeState → ComputeState
observe threshold worker point state =
    if not (state.worker_id == worker)
    then first_state state.workspace_id worker point
    else if leb point.at state.last.at
    then state
    else if ltb compute_max_sample_gap_ms (point.at - state.last.at)
        || ltb point.nanos state.last.nanos
    then restarted point state
    else if leb compute_bucket_ms (point.at - state.bucket_start.at)
    then bucket_closed threshold point state
    else bucket_filled point state

pub record_point : ℕ → ℕ → ℕ → Point → List ComputeState → List ComputeState
unfolding observe
record_point threshold worker workspace point [] = first_state workspace worker point ∷ []
record_point threshold worker workspace point (state ∷ states) =
    if state.workspace_id == workspace
    then observe threshold worker point state ∷ states
    else state ∷ record_point threshold worker workspace point states

abbrev point_of : ℕ → ℕ → Point
point_of at nanos = record { at = at; nanos = nanos }

pub record_sample : ℕ → ℕ → ℕ → Option ℕ → ℕ → List ComputeState → List ComputeState
unfolding record_point
record_sample threshold worker workspace none nanos states = states
record_sample threshold worker workspace (some at) nanos states =
    record_point threshold worker workspace (point_of at nanos) states

-- The samples of one heartbeat.
pub record_samples : ℕ → ℕ → List UsageSample → List ComputeState → List ComputeState
unfolding record_sample
record_samples threshold worker [] states = states
record_samples threshold worker (s ∷ samples) states =
    record_samples threshold worker samples
      (record_sample threshold worker s.workspace_id s.sampled_at s.cpu_usage_nanos states)

pub forget_worker : ℕ → List ComputeState → List ComputeState
forget_worker worker states =
    select (λ (state : ComputeState). not (state.worker_id == worker)) states

pub active_time : ℕ → ℕ → ComputeState → ℕ
active_time threshold now state =
    if ltb compute_max_sample_gap_ms (now - state.last.at)
    then now
    else if leb 60000 (state.last.at - state.bucket_start.at)
        && is_computing threshold state.bucket_start state.last
    then state.last.at
    else state.active_at

unfoldable pub last_active_at : ℕ → ℕ → ℕ → List ComputeState → ℕ
unfolding active_time
last_active_at threshold workspace now [] = now
last_active_at threshold workspace now (state ∷ states) =
    if state.workspace_id == workspace
    then active_time threshold now state
    else last_active_at threshold workspace now states

-- A heartbeat's samples, or a disconnection.
pub data ComputeStep : Type 0 where
  records : ℕ → List UsageSample → ComputeStep
  forgets : ℕ → ComputeStep

unfoldable pub run_compute : ℕ → List ComputeStep → List ComputeState → List ComputeState
unfolding record_samples forget_worker
run_compute threshold [] states = states
run_compute threshold (records worker samples ∷ steps) states =
    run_compute threshold steps (record_samples threshold worker samples states)
run_compute threshold (forgets worker ∷ steps) states =
    run_compute threshold steps (forget_worker worker states)
