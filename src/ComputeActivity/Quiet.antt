-- ===== src/ComputeActivity/Quiet.antt =====
-- What the tracker knows when it says that a Workspace has not computed since some time.
use pi_container.ComputeActivity.{
  Point, ComputeState, is_computing, ℕ, ◌+◌, leb, ltb, compute_max_sample_gap_ms, UsageSample,
  active_time, last_active_at, ComputeStep, run_compute, List, some, Option, records, ◌∷◌, forgets,
}
use pi_container.Prelude.{
  ◌≡◌, arith, Bool-cases, ◌≤◌, ◌==◌, inr, refl, inl, ◌<◌, false, ◌-◌, ◌⊎◌, ◌&&◌, All, Memᴰ, subst,
  ◌++◌, [], ap, All-of_mem, mem_append_left, mem_append_right,
}
use pi_container.ComputeActivity.Tracked.{
  Below, Tracked, SeenSample, record_samples-Tracked, forget_worker-Tracked,
}

module _ (threshold : ℕ) (Seen : ℕ → Point → Type 0) where
  -- A Workspace has not computed since `since`: of the points seen, one is at that time; up to a later
  -- one the average is at most the threshold; and the last, which is recent, comes less than a minute
  -- after that one or with an average below the threshold.
  pub record QuietSince (workspace since now : ℕ) : Type 0 where
    pub first : Point
    pub middle : Point
    pub last : Point
    pub first_seen : Seen workspace first
    pub middle_seen : Seen workspace middle
    pub last_seen : Seen workspace last
    pub first_at : first.at ≡ since
    pub ascending : (first.at ≤ middle.at) × (middle.at ≤ last.at)
    pub recent : now ≤ last.at + compute_max_sample_gap_ms
    pub below : Below threshold first middle
    pub current : (last.at < middle.at + 60000) ⊎ Below threshold middle last

  open_bucket :
      (state : ComputeState)
      → (leb 60000 (state.last.at - state.bucket_start.at)
          && is_computing threshold state.bucket_start state.last)
        ≡ false
      → (state.last.at < state.bucket_start.at + 60000)
        ⊎ Below threshold state.bucket_start state.last
  open_bucket state h = elim (Bool-cases (leb 60000 (state.last.at - state.bucket_start.at))) [
    | inl e ↦ inr (ground (arith, e, h))
    | inr e ↦ inl (ground (arith, e))
  ]

  active_time-QuietSince :
      (now : ℕ) (state : ComputeState)
      → Tracked threshold Seen state
      → (active_time threshold now state ≡ now)
        ⊎ QuietSince state.workspace_id (active_time threshold now state) now
  unfolding active_time
  active_time-QuietSince now state t =
      elim (Bool-cases (ltb compute_max_sample_gap_ms (now - state.last.at))) [
        | inl gap ↦ rw gap (inl refl)
        | inr near ↦
            elim (Bool-cases (
              leb 60000 (state.last.at - state.bucket_start.at)
              && is_computing threshold state.bucket_start state.last)) [
                | inl busy ↦
                    rw (near, busy)
                      (inr (record {
                        first = state.last;
                        middle = state.last;
                        last = state.last;
                        first_seen = t.last_seen;
                        middle_seen = t.last_seen;
                        last_seen = t.last_seen;
                        first_at = refl;
                        ascending = (omega arith, omega arith);
                        recent = ground (arith, near);
                        below = ground arith;
                        current = inl (omega arith);
                      }))
                | inr quiet ↦
                    rw (near, quiet)
                      (inr (record {
                        first = t.origin;
                        middle = state.bucket_start;
                        last = state.last;
                        first_seen = t.origin_seen;
                        middle_seen = t.bucket_seen;
                        last_seen = t.last_seen;
                        first_at = t.origin_at;
                        ascending =
                            let before = t.before_bucket in
                            let at = t.origin_at in (omega (arith, before, at), t.before_last);
                        recent = ground (arith, near);
                        below = t.below;
                        current = open_bucket state quiet;
                      }))
              ]
      ]

  last_active_at-QuietSince :
      (workspace now : ℕ) (states : List ComputeState)
      → All (Tracked threshold Seen) states
      → (last_active_at threshold workspace now states ≡ now)
        ⊎ QuietSince workspace (last_active_at threshold workspace now states) now
  unfolding last_active_at
  last_active_at-QuietSince workspace now [] t = inl refl
  last_active_at-QuietSince workspace now (state ∷ states) t =
      elim (Bool-cases (state.workspace_id == workspace)) [
        | inl e ↦
            let same : state.workspace_id ≡ workspace = ground (arith, e) in
            rw e (
              subst
                (λ id.
                  (active_time threshold now state ≡ now)
                  ⊎ QuietSince id (active_time threshold now state) now)
                same (active_time-QuietSince now state t.0))
        | inr e ↦ rw e (last_active_at-QuietSince workspace now states t.1)
      ]

  SeenStep : ComputeStep → Type 0
  SeenStep (records worker samples) = All (SeenSample threshold Seen) samples
  SeenStep (forgets worker) = Unit

  run_compute-Tracked :
      (steps : List ComputeStep) (states : List ComputeState)
      → All SeenStep steps
      → All (Tracked threshold Seen) states
      → All (Tracked threshold Seen) (run_compute threshold steps states)
  unfolding run_compute SeenStep
  run_compute-Tracked [] states h t = t
  run_compute-Tracked (records worker samples ∷ steps) states h t =
      run_compute-Tracked steps _ h.1
        (record_samples-Tracked threshold Seen worker samples states h.0 t)
  run_compute-Tracked (forgets worker ∷ steps) states h t =
      run_compute-Tracked steps _ h.1 (forget_worker-Tracked threshold Seen worker states t)

-- The samples of a history, in their order.
abbrev pub samples_of : List ComputeStep → List UsageSample
samples_of [] = []
samples_of (records worker samples ∷ steps) = samples ++ samples_of steps
samples_of (forgets worker ∷ steps) = samples_of steps

-- A point that was reported for a Workspace in a history.
abbrev pub Reported : List ComputeStep → ℕ → Point → Type 0
Reported steps workspace point =
    Memᴰ
      (record {
        workspace_id = workspace;
        sampled_at = some point.at;
        cpu_usage_nanos = point.nanos;
      })
      (samples_of steps)

Reported-SeenSample :
    (steps : List ComputeStep) (threshold : ℕ) (s : UsageSample)
    → Memᴰ s (samples_of steps)
    → SeenSample threshold (Reported steps) s
Reported-SeenSample steps threshold s m at e =
    subst (λ x. Memᴰ x (samples_of steps))
      (ap
        (λ (time : Option ℕ).
          let sample : UsageSample = record {
            workspace_id = s.workspace_id;
            sampled_at = time;
            cpu_usage_nanos = s.cpu_usage_nanos;
          } in
          sample)
        e)
      m

SeenStep-of_mem :
    (threshold : ℕ) (Seen : ℕ → Point → Type 0) (steps : List ComputeStep)
    → ((s : UsageSample) → Memᴰ s (samples_of steps) → SeenSample threshold Seen s)
    → All (SeenStep threshold Seen) steps
unfolding SeenStep
SeenStep-of_mem threshold Seen [] h = tt
SeenStep-of_mem threshold Seen (records worker samples ∷ steps) h = (
  All-of_mem (SeenSample threshold Seen) samples
      (λ s m. h s (mem_append_left s samples (samples_of steps) m)),
  SeenStep-of_mem threshold Seen steps
      (λ s m. h s (mem_append_right s samples (samples_of steps) m)),
)
SeenStep-of_mem threshold Seen (forgets worker ∷ steps) h =
    (tt, SeenStep-of_mem threshold Seen steps h)

-- After any heartbeats and disconnections, the time of the last work of a Workspace is now, or some
-- points that were reported for it show that it has been quiet since: one is at that time, the average
-- from there to a later one is at most the threshold, and the last one is at most a minute old and
-- follows in less than a minute or with an average of at most the threshold.
pub last_active_at-Reported :
    (threshold workspace now : ℕ) (steps : List ComputeStep)
    → let since = last_active_at threshold workspace now (run_compute threshold steps []) in
      (since ≡ now) ⊎ QuietSince threshold (Reported steps) workspace since now
last_active_at-Reported threshold workspace now steps =
    last_active_at-QuietSince threshold (Reported steps) workspace now
      (run_compute threshold steps [])
      (run_compute-Tracked threshold (Reported steps) steps []
        (SeenStep-of_mem threshold (Reported steps) steps (Reported-SeenSample steps threshold)) tt)
