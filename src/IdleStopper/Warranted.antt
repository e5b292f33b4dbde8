-- ===== src/IdleStopper/Warranted.antt =====
-- What a sweep stops.
use pi_container.Database.Records.{Workspace}
use pi_container.Database.Tables.{Db, update_workspaces}
use pi_container.Database.Idle.{
  IdleStopCandidate, list_idle_stop_candidates, begin_idle_stop, can_begin_idle_stop,
  idle_stop_begun, record_idle_stop,
}
use pi_container.AccessTracker.{latest_access}
use pi_container.ComputeActivity.{last_active_at}
use pi_container.SessionConnections.{active_count}
use pi_container.IdleStopper.{
  IdlePolicy, ActivityView, StopEvent, Sweep, IdleStopResult, idle_since, settle_stop, settle_begin,
  sweep_candidate, sweep_from, sweep, stops_per_sweep, event_of, started_sweep, ℕ, Bool, Option,
  true, List, some, false, after_cutoff, [], ◌∷◌, leb, ltb, candidates_per_sweep,
}
use pi_container.Prelude.{
  any, ◌≡◌, ◌≤◌, map, arith, none, select, refl, Bool-cases, length, All, ◌<◌, inl, inr, ◌+◌, sym,
  ◌*◌, ◌∙◌, ◌-◌,
}

abbrev pub NoLater : ℕ → Option ℕ → Type 0
NoLater cutoff none = Unit {0}
NoLater cutoff (some at) = at ≤ cutoff

abbrev pub is_race : IdleStopResult → Bool
is_race IdleStopResult.skipped_race = true
is_race _ = false

-- A row that the transaction may stop.
abbrev pub is_stoppable : ℕ → StopEvent → Bool
is_stoppable cutoff e =
    any (can_begin_idle_stop e.candidate.workspace_id e.candidate.worker_id cutoff)
      e.before.workspaces

-- What the sweep saw of a candidate, and what the transaction found unless it skipped it.
pub record Warranted (policy : IdlePolicy) (cutoff now : ℕ) (e : StopEvent) : Type 0 where
  pub connected : e.view.worker_connected e.candidate.worker_id ≡ true
  pub no_connection : active_count e.candidate.workspace_id e.view.registry ≡ 0
  pub no_access : NoLater cutoff (latest_access e.candidate.workspace_id e.view.access)
  pub no_work :
      last_active_at policy.cpu_threshold e.candidate.workspace_id now e.view.compute ≤ cutoff
  pub still_idle : is_race e.result ≡ false → is_stoppable cutoff e ≡ true

begun_rows :
    (p : Workspace → Bool) (f : Workspace → Workspace) (ws : List Workspace)
    → any p ws ≡ false
    → map f (select p ws) ≡ []
begun_rows p f [] h = refl
begun_rows p f (w ∷ ws) h = ground (arith, begun_rows p f ws, h)

none_recorded :
    (workspace worker hours cores : ℕ) (rows : List Workspace) (db : Db)
    → rows ≡ []
    → (record_idle_stop workspace worker hours cores (rows, db)).0 ≡ false
unfolding record_idle_stop
none_recorded workspace worker hours cores [] db e = refl
none_recorded workspace worker hours cores (row ∷ rows) db e = absurd (cc)

begin_idle_stop-any :
    (workspace worker cutoff hours cores now : ℕ) (db : Db)
    → (begin_idle_stop workspace worker cutoff hours cores now db).0 ≡ true
    → any (can_begin_idle_stop workspace worker cutoff) db.workspaces ≡ true
unfolding begin_idle_stop update_workspaces
begin_idle_stop-any workspace worker cutoff hours cores now db h =
    elim (Bool-cases (any (can_begin_idle_stop workspace worker cutoff) db.workspaces)) [
      | inl e ↦ e
      | inr e ↦
          let rows =
            begun_rows (can_begin_idle_stop workspace worker cutoff) (idle_stop_begun now)
              db.workspaces e in
          let never : true ≡ false = sym h ∙ none_recorded workspace worker hours cores _ _ rows in
          cc
    ]

no_later :
    (cutoff : ℕ) (latest : Option ℕ) → after_cutoff cutoff latest ≡ false → NoLater cutoff latest
no_later cutoff none h = tt
no_later cutoff (some at) h = ground (arith, h)

abbrev is_stopped : IdleStopResult → Bool
is_stopped IdleStopResult.stopped = true
is_stopped _ = false

abbrev pub count_results : (IdleStopResult → Bool) → List StopEvent → ℕ
count_results p events = length (select (λ (e : StopEvent). p e.result) events)

-- The counts are those of the events, every event is warranted, and the stops are not too many.
pub record Sound (policy : IdlePolicy) (cutoff now : ℕ) (s : Sweep) : Type 0 where
  pub warranted : All (Warranted policy cutoff now) s.events
  pub few : s.stopped_count ≤ stops_per_sweep
  pub stops : s.stopped_count ≡ count_results is_stopped s.events
  pub skips : s.skipped_count ≡ count_results is_race s.events

module _ (stop : IdleStopCandidate → Db → Bool × Db) (policy : IdlePolicy) (cutoff now : ℕ) where
  settle_stop-Sound :
      (c : IdleStopCandidate) (view : ActivityView) (before : Db) (settled : Bool × Db) (s : Sweep)
      → ((result : IdleStopResult) → Warranted policy cutoff now (event_of c view before result))
      → s.stopped_count < stops_per_sweep
      → Sound policy cutoff now s
      → Sound policy cutoff now (settle_stop stop policy c view before settled s)
  unfolding settle_stop
  settle_stop-Sound c view before (true, db) s w h k = record {
    warranted = (w IdleStopResult.stopped, k.warranted);
    few = omega (arith, h);
    stops = let e = k.stops in omega (arith, e);
    skips = k.skips;
  }
  settle_stop-Sound c view before (false, db) s w h k = record {
    warranted = (w IdleStopResult.failed, k.warranted);
    few = k.few;
    stops = k.stops;
    skips = k.skips;
  }

  settle_begin-Sound :
      (c : IdleStopCandidate) (view : ActivityView) (before : Db) (begun : Bool × Db) (s : Sweep)
      → ((result : IdleStopResult)
          → (is_race result ≡ false → begun.0 ≡ true)
          → Warranted policy cutoff now (event_of c view before result))
      → s.stopped_count < stops_per_sweep
      → Sound policy cutoff now s
      → Sound policy cutoff now (settle_begin stop policy c view before begun s)
  unfolding settle_begin
  settle_begin-Sound c view before (true, db) s w h k =
      settle_stop-Sound c view before (stop c db) s (λ result. w result (λ _. refl)) h k
  settle_begin-Sound c view before (false, db) s w h k = record {
    warranted = (w IdleStopResult.skipped_race (λ e. ground (arith, e)), k.warranted);
    few = k.few;
    stops = k.stops;
    skips = let e = k.skips in omega (arith, e);
  }

  idle-Warranted :
      (c : IdleStopCandidate) (view : ActivityView) (before : Db) (result : IdleStopResult)
      → idle_since policy view c cutoff now ≡ true
      → (is_race result ≡ false → is_stoppable cutoff (event_of c view before result) ≡ true)
      → Warranted policy cutoff now (event_of c view before result)
  idle-Warranted c view before result idle h = record {
    connected = ground (arith, idle);
    no_connection = ground (arith, idle);
    no_access = no_later cutoff (latest_access c.workspace_id view.access) (ground (arith, idle));
    no_work = ground (arith, idle);
    still_idle = h;
  }

  sweep_candidate-Sound :
      (view : ActivityView) (c : IdleStopCandidate) (s : Sweep)
      → s.stopped_count < stops_per_sweep
      → Sound policy cutoff now s
      → Sound policy cutoff now (sweep_candidate stop policy cutoff now view c s)
  unfolding sweep_candidate
  sweep_candidate-Sound view c s h k = elim (Bool-cases (idle_since policy view c cutoff now)) [
    | inr e ↦ rw (e, idle_since) k
    | inl e ↦
        rw (e, idle_since)
          (settle_begin-Sound c view (view.meanwhile s.db) _ s
            (λ result begun. idle-Warranted c view (view.meanwhile s.db) result e (λ r.
              begin_idle_stop-any c.workspace_id c.worker_id cutoff policy.stop_after_hours
                policy.cpu_threshold view.clock (view.meanwhile s.db) (begun r)))
            h k)
  ]

  sweep_from-Sound :
      (views : ℕ → ActivityView) (place : ℕ) (cs : List IdleStopCandidate) (s : Sweep)
      → Sound policy cutoff now s
      → Sound policy cutoff now (sweep_from stop policy cutoff now views place cs s)
  unfolding sweep_from
  sweep_from-Sound views place [] s k = k
  sweep_from-Sound views place (c ∷ cs) s k =
      elim (Bool-cases (leb stops_per_sweep s.stopped_count)) [
        | inl e ↦ rw e k
        | inr e ↦ rw e (
            sweep_from-Sound views (place + 1) cs _
              (sweep_candidate-Sound (views place) c s (ground (arith, e)) k))
      ]

nothing-Sound :
    {policy : IdlePolicy} {cutoff now : ℕ} {db : Db} → Sound policy cutoff now (started_sweep db)
nothing-Sound = record { warranted = tt; few = omega arith; stops = refl; skips = refl }

module _ (stop : IdleStopCandidate → Db → Bool × Db) (policy : IdlePolicy)
    (views : ℕ → ActivityView) (started_at now : ℕ) (db : Db) where
  -- A sweep does nothing before the process has run for the policy's window. It stops 10 Workspaces
  -- at most and counts rightly, and whatever it stops or tries to stop was seen, one window back from
  -- now, on a connected Worker without a connection, an access or CPU work since, and was still
  -- running, meant to run and not accessed since in the database when its stop began.
  pub sweep-Sound :
      (now < started_at + policy.stop_after_hours * 3600000
        → sweep stop policy views started_at now db ≡ started_sweep db)
      × Sound policy
          (now - policy.stop_after_hours * 3600000)
          now
          (sweep stop policy views started_at now db)
  unfolding sweep
  sweep-Sound = elim (Bool-cases (ltb now (started_at + policy.stop_after_hours * 3600000))) [
    | inl e ↦ rw e (λ _. refl, nothing-Sound)
    | inr e ↦ rw e (
      λ early. absurd (ground (arith, early, e)),
      sweep_from-Sound stop policy _ now views 0
          (list_idle_stop_candidates _ candidates_per_sweep db) (started_sweep db) nothing-Sound,
    )
  ]
