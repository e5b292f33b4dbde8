-- ===== src/AccessTracker.antt =====
-- apps/control-plane/src/idle/access-tracker.ts: the last access to each Workspace, which goes to the
-- database at most once a minute. `flush` waits for the write, so it is two steps, and accesses
-- may come between them; each state holds the time that a write under way has for it. A second flush
-- while one is under way is not modelled.
pub mod Durability
mod Tests
use pi_container.Prelude.{
  ℕ, ◌-◌, Bool, true, false, ◌||◌, Option, none, some, List, [], ◌∷◌, ◌++◌, map, ltb, leb, ◌==◌,
  if◌then◌else◌, is_null, any, all,
}

abbrev pub access_persist_interval_ms : ℕ
access_persist_interval_ms = 60000

pub record AccessState : Type 0 where
  pub workspace_id : ℕ
  pub latest : ℕ
  pub persisted : Option ℕ
  pub pending : Bool
  pub writing : Option ℕ

-- Never persisted, or an interval ago.
abbrev is_due : ℕ → Option ℕ → Bool
is_due now none = true
is_due now (some persisted) = leb access_persist_interval_ms (now - persisted)

pub touched : ℕ → Bool → AccessState → AccessState
touched now connection_ended state = record state {
  latest = if ltb state.latest now then now else state.latest;
  pending = state.pending || (connection_ended || is_due now state.persisted);
}

abbrev pub first_access : ℕ → ℕ → AccessState
first_access workspace now = record {
  workspace_id = workspace;
  latest = now;
  persisted = none;
  pending = true;
  writing = none;
}

pub touch : ℕ → Bool → ℕ → List AccessState → List AccessState
unfolding touched
touch workspace connection_ended now [] = first_access workspace now ∷ []
touch workspace connection_ended now (state ∷ states) =
    if state.workspace_id == workspace
    then touched now connection_ended state ∷ states
    else state ∷ touch workspace connection_ended now states

-- The latest access this process has seen.
unfoldable pub latest_access : ℕ → List AccessState → Option ℕ
latest_access workspace [] = none
latest_access workspace (state ∷ states) =
    if state.workspace_id == workspace then some state.latest else latest_access workspace states

-- The entries that `flush` writes.
pub pending_entries : List AccessState → List (ℕ × ℕ)
pending_entries [] = []
pending_entries (state ∷ states) =
    (if state.pending then (state.workspace_id, state.latest) ∷ [] else [])
    ++ pending_entries states

pub taken : AccessState → AccessState
taken state =
    if state.pending then record state { pending = false; writing = some state.latest } else state

-- `flush` up to the write.
pub begin_flush : List AccessState → List (ℕ × ℕ) × List AccessState
unfolding taken pending_entries
begin_flush states = (pending_entries states, map taken states)

written : Bool → Option ℕ → AccessState → AccessState
written success none state = state
written true (some at) state = record state { persisted = some at; writing = none }
written false (some at) state = record state { pending = true; writing = none }

-- `flush` after the write, whether it succeeded or threw.
pub end_flush : Bool → List AccessState → List AccessState
unfolding written
end_flush success states = map (λ (s : AccessState). written success s.writing s) states

pub data TrackerStep : Type 0 where
  touches : ℕ → Bool → ℕ → TrackerStep
  flush_begins : TrackerStep
  flush_ends : Bool → TrackerStep

abbrev is_idle : List AccessState → Bool
is_idle states = all (λ (s : AccessState). is_null s.writing) states

pub tracker_step : TrackerStep → List AccessState → List AccessState
unfolding touch begin_flush end_flush
tracker_step (touches workspace ended now) states = touch workspace ended now states
tracker_step flush_begins states = if is_idle states then (begin_flush states).1 else states
tracker_step (flush_ends success) states = end_flush success states

pub tracker_run : List TrackerStep → List AccessState → List AccessState
unfolding tracker_step
tracker_run [] states = states
tracker_run (step ∷ steps) states = tracker_run steps (tracker_step step states)
