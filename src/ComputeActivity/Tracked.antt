-- ===== src/ComputeActivity/Tracked.antt =====
-- What the tracker remembers of a Workspace: points that were reported for it, and averages between them
-- that are at most the threshold.
use pi_container.ComputeActivity.{
  Point, ComputeState, is_computing, first_state, observe, ℕ, ◌+◌, restarted, leb, bucket_filled,
  bucket_closed, ltb, compute_max_sample_gap_ms, compute_bucket_ms, record_point, UsageSample,
  record_sample, record_samples, forget_worker, List, some, Option, ◌∷◌, point_of,
}
use pi_container.Prelude.{
  ◌≡◌, arith, Bool-cases, ◌≤◌, ◌*◌, ◌==◌, inr, refl, inl, ◌<◌, false, ◌-◌, ◌||◌, All, subst, [],
  sym, none,
}

-- The average from one point to a later one is at most the threshold.
abbrev pub Below : ℕ → Point → Point → Type 0
Below threshold from to = to.nanos + threshold * from.at ≤ from.nanos + threshold * to.at

-- What a state remembers: `Seen` holds of its points, one of them is at the time of the last work, and
-- the average from there to the bucket's start is at most the threshold.
pub record Tracked (threshold : ℕ) (Seen : ℕ → Point → Type 0) (state : ComputeState) : Type 0 where
  pub origin : Point
  pub origin_at : origin.at ≡ state.active_at
  pub origin_seen : Seen state.workspace_id origin
  pub bucket_seen : Seen state.workspace_id state.bucket_start
  pub last_seen : Seen state.workspace_id state.last
  pub before_bucket : state.active_at ≤ state.bucket_start.at
  pub before_last : state.bucket_start.at ≤ state.last.at
  pub below : Below threshold origin state.bucket_start

module _ (threshold : ℕ) (Seen : ℕ → Point → Type 0) where
  first_state-Tracked :
      (workspace worker : ℕ) (point : Point)
      → Seen workspace point
      → Tracked threshold Seen (first_state workspace worker point)
  first_state-Tracked workspace worker point h = record {
    origin = point;
    origin_at = refl;
    origin_seen = h;
    bucket_seen = h;
    last_seen = h;
    before_bucket = omega arith;
    before_last = omega arith;
    below = ground arith;
  }

  restarted-Tracked :
      (point : Point) (state : ComputeState)
      → Seen state.workspace_id point
      → Tracked threshold Seen (restarted point state)
  restarted-Tracked point state h = record {
    origin = point;
    origin_at = refl;
    origin_seen = h;
    bucket_seen = h;
    last_seen = h;
    before_bucket = omega arith;
    before_last = omega arith;
    below = ground arith;
  }

  filled-Tracked :
      (point : Point) (state : ComputeState)
      → state.last.at < point.at
      → Seen state.workspace_id point
      → Tracked threshold Seen state
      → Tracked threshold Seen (bucket_filled point state)
  filled-Tracked point state later h t = record {
    origin = t.origin;
    origin_at = t.origin_at;
    origin_seen = t.origin_seen;
    bucket_seen = t.bucket_seen;
    last_seen = h;
    before_bucket = t.before_bucket;
    before_last = let order = t.before_last in omega (arith, order, later);
    below = t.below;
  }

  closed-Tracked :
      (point : Point) (state : ComputeState)
      → state.last.at < point.at
      → Seen state.workspace_id point
      → Tracked threshold Seen state
      → Tracked threshold Seen (bucket_closed threshold point state)
  closed-Tracked point state later h t =
      elim (Bool-cases (is_computing threshold state.bucket_start point)) [
        | inl e ↦ rw (e, bucket_closed) (restarted-Tracked point state h)
        | inr e ↦
            rw (e, bucket_closed)
              (record {
                origin = t.origin;
                origin_at = t.origin_at;
                origin_seen = t.origin_seen;
                bucket_seen = h;
                last_seen = h;
                before_bucket =
                    let start = t.before_bucket in
                    let order = t.before_last in omega (arith, start, order, later);
                before_last = omega arith;
                below = let below = t.below in ground (arith, below, e);
              })
      ]

  observe-Tracked :
      (worker : ℕ) (point : Point) (state : ComputeState)
      → Seen state.workspace_id point
      → Tracked threshold Seen state
      → Tracked threshold Seen (observe threshold worker point state)
  unfolding observe
  observe-Tracked worker point state h t =
      let later : leb point.at state.last.at ≡ false → state.last.at < point.at =
        λ k. ground (arith, k) in
      elim (Bool-cases (state.worker_id == worker)) [
        | inr e ↦ rw e (first_state-Tracked state.workspace_id worker point h)
        | inl e ↦ elim (Bool-cases (leb point.at state.last.at)) [
          | inl old ↦ rw (e, old) t
          | inr new ↦
              elim (Bool-cases (
                ltb compute_max_sample_gap_ms (point.at - state.last.at)
                || ltb point.nanos state.last.nanos)) [
                  | inl gap ↦ rw (e, new, gap) (restarted-Tracked point state h)
                  | inr next ↦
                      elim (Bool-cases (leb compute_bucket_ms (point.at - state.bucket_start.at))) [
                        | inl full ↦
                            rw (e, new, next, full) (closed-Tracked point state (later new) h t)
                        | inr room ↦
                            rw (e, new, next, room) (filled-Tracked point state (later new) h t)
                      ]
                ]
        ]
      ]

  record_point-Tracked :
      (worker workspace : ℕ) (point : Point) (states : List ComputeState)
      → Seen workspace point
      → All (Tracked threshold Seen) states
      → All (Tracked threshold Seen) (record_point threshold worker workspace point states)
  unfolding record_point
  record_point-Tracked worker workspace point [] h t =
      (first_state-Tracked workspace worker point h, tt)
  record_point-Tracked worker workspace point (state ∷ states) h t =
      elim (Bool-cases (state.workspace_id == workspace)) [
        | inl e ↦
            let same : state.workspace_id ≡ workspace = ground (arith, e) in
            rw e (
              observe-Tracked worker point state (subst (λ id. Seen id point) (sym same) h) t.0,
              t.1,
            )
        | inr e ↦ rw e (t.0, record_point-Tracked worker workspace point states h t.1)
      ]

  -- The point of a sample with a time.
  abbrev pub SeenSample : UsageSample → Type 0
  SeenSample s =
      (at : ℕ) → s.sampled_at ≡ some at → Seen s.workspace_id (point_of at s.cpu_usage_nanos)

  record_sample-Tracked :
      (worker workspace : ℕ) (at : Option ℕ) (nanos : ℕ) (states : List ComputeState)
      → ((time : ℕ) → at ≡ some time → Seen workspace (point_of time nanos))
      → All (Tracked threshold Seen) states
      → All (Tracked threshold Seen) (record_sample threshold worker workspace at nanos states)
  unfolding record_sample
  record_sample-Tracked worker workspace none nanos states h t = t
  record_sample-Tracked worker workspace (some at) nanos states h t =
      record_point-Tracked worker workspace (point_of at nanos) states (h at refl) t

  pub record_samples-Tracked :
      (worker : ℕ) (samples : List UsageSample) (states : List ComputeState)
      → All SeenSample samples
      → All (Tracked threshold Seen) states
      → All (Tracked threshold Seen) (record_samples threshold worker samples states)
  unfolding record_samples
  record_samples-Tracked worker [] states h t = t
  record_samples-Tracked worker (s ∷ samples) states h t =
      record_samples-Tracked worker samples _ h.1
        (record_sample-Tracked worker s.workspace_id s.sampled_at s.cpu_usage_nanos states h.0 t)

  pub forget_worker-Tracked :
      (worker : ℕ) (states : List ComputeState)
      → All (Tracked threshold Seen) states
      → All (Tracked threshold Seen) (forget_worker worker states)
  unfolding forget_worker
  forget_worker-Tracked worker [] t = tt
  forget_worker-Tracked worker (state ∷ states) t = elim (Bool-cases (state.worker_id == worker)) [
    | inl e ↦ rw e (forget_worker-Tracked worker states t.1)
    | inr e ↦ rw e (t.0, forget_worker-Tracked worker states t.1)
  ]
