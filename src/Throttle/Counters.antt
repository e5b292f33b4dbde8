-- ===== src/Throttle/Counters.antt =====
-- The SQL upsert and `nextAuthThrottleState` are the same transition.
use pi_container.Prelude.{
  ℕ, true, Option, none, some, List, [], ◌∷◌, ◌≡◌, refl, if◌then◌else◌, arith, Bool-cases, inl, inr,
  false, ◌∙◌, ap,
}
use pi_container.Throttle.{
  AuthThrottleKey, AuthThrottleHit, AuthThrottleState, Counter, next_auth_throttle_state, same_key,
  upsert, inserted, conflicting, record_hit, ThrottleDb, record_auth_throttle_hits,
}

abbrev pub state_of : Counter → AuthThrottleState
state_of c = record {
  window_start = c.window_start;
  failures = c.failures;
  locked_until = c.locked_until;
}

-- The counter that a table holds under a key.
pub counter_at : AuthThrottleKey → List Counter → Option AuthThrottleState
counter_at key [] = none
counter_at key (c ∷ cs) = if same_key c.key key then some (state_of c) else counter_at key cs

conflicting-next :
    (hit : AuthThrottleHit) (now : ℕ) (c : Counter)
    → state_of (conflicting hit now c) ≡ next_auth_throttle_state (some (state_of c)) hit.policy now
unfolding conflicting next_auth_throttle_state
conflicting-next hit now c = ground arith

inserted-next :
    (id : ℕ) (hit : AuthThrottleHit) (now : ℕ)
    → state_of (inserted id hit now) ≡ next_auth_throttle_state none hit.policy now
unfolding inserted next_auth_throttle_state
inserted-next id hit now = refl

same_key_refl : (k : AuthThrottleKey) → same_key k k ≡ true
unfolding same_key
same_key_refl k = ground arith

same_key_trans : (a b c : AuthThrottleKey) → same_key a b ≡ true → same_key a c ≡ same_key b c
unfolding same_key
same_key_trans a b c h = ground arith

same_key_sym : (a b : AuthThrottleKey) → same_key a b ≡ same_key b a
unfolding same_key
same_key_sym a b = ground arith

inserted-key : (id : ℕ) (hit : AuthThrottleHit) (now : ℕ) → (inserted id hit now).key ≡ hit.key
unfolding inserted
inserted-key id hit now = refl

conflicting-key :
    (hit : AuthThrottleHit) (now : ℕ) (c : Counter) → (conflicting hit now c).key ≡ c.key
unfolding conflicting
conflicting-key hit now c = refl

module _ (id : ℕ) (hit : AuthThrottleHit) (now : ℕ) (key : AuthThrottleKey) where
  -- The counter of the hit moves on, and no other counter changes.
  abbrev Counted : List Counter → Type 0
  Counted cs = counter_at key (upsert id hit now cs).1 ≡ (
      if same_key hit.key key
      then some (next_auth_throttle_state (counter_at hit.key cs) hit.policy now)
      else counter_at key cs)

  upsert_head : (c : Counter) (cs : List Counter) → same_key c.key hit.key ≡ true → Counted (c ∷ cs)
  unfolding counter_at upsert
  upsert_head c cs h = ground (
    arith,
    h,
    conflicting-key hit now c,
    conflicting-next hit now c,
    same_key_trans c.key hit.key key h,
  )

  upsert_tail :
      (c : Counter) (cs : List Counter)
      → same_key c.key hit.key ≡ false
      → Counted cs
      → Counted (c ∷ cs)
  unfolding counter_at upsert
  upsert_tail c cs h rest = ground (
    arith,
    h,
    rest,
    same_key_sym c.key hit.key,
    same_key_sym c.key key,
    same_key_trans hit.key key c.key,
  )

  pub counter_at-upsert : (cs : List Counter) → Counted cs
  unfolding counter_at upsert
  counter_at-upsert [] = rw (inserted-key id hit now, inserted-next id hit now) refl
  counter_at-upsert (c ∷ cs) = elim (Bool-cases (same_key c.key hit.key)) [
    | inl h ↦ upsert_head c cs h
    | inr h ↦ upsert_tail c cs h (counter_at-upsert cs)
  ]

counter_at-same_key :
    (a b : AuthThrottleKey) (cs : List Counter)
    → same_key a b ≡ true
    → counter_at a cs ≡ counter_at b cs
unfolding counter_at
counter_at-same_key a b [] h = refl
counter_at-same_key a b (c ∷ cs) h = ground (
  arith,
  counter_at-same_key a b cs h,
  same_key_trans a b c.key h,
  same_key_sym c.key a,
  same_key_sym c.key b,
)

-- One key's counter over a list of hits, by `nextAuthThrottleState` alone.
pub progress :
    AuthThrottleKey
    → ℕ
    → List (ℕ × AuthThrottleHit)
    → Option AuthThrottleState
    → Option AuthThrottleState
progress key now [] state = state
progress key now ((id, hit) ∷ hits) state =
    progress key now hits
      (if same_key hit.key key then some (next_auth_throttle_state state hit.policy now) else state)

counters-record_hit :
    (id : ℕ) (hit : AuthThrottleHit) (now : ℕ) (db : ThrottleDb)
    → (record_hit id hit now db).1.counters ≡ (upsert id hit now db.counters).1
unfolding record_hit
counters-record_hit id hit now db = ground arith

progress_step :
    (id : ℕ) (hit : AuthThrottleHit) (now : ℕ) (key : AuthThrottleKey) (db : ThrottleDb)
    → counter_at key (record_hit id hit now db).1.counters ≡ (
        if same_key hit.key key
        then some (next_auth_throttle_state (counter_at key db.counters) hit.policy now)
        else counter_at key db.counters)
progress_step id hit now key db = rw (counters-record_hit id hit now db) (
    counter_at-upsert id hit now key db.counters ∙ (elim (Bool-cases (same_key hit.key key)) [
      | inl e ↦ rw (e, counter_at-same_key hit.key key db.counters e) refl
      | inr e ↦ rw e refl
    ]))

-- Recording hits, whatever the table holds, moves the counter of a key as `nextAuthThrottleState`
-- does on the hits of that key, in their order, and on no other.
pub record_hits-progress :
    (hits : List (ℕ × AuthThrottleHit)) (now : ℕ) (key : AuthThrottleKey) (db : ThrottleDb)
    → counter_at key (record_auth_throttle_hits hits now db).1.counters
      ≡ progress key now hits (counter_at key db.counters)
unfolding record_auth_throttle_hits progress
record_hits-progress [] now key db = refl
record_hits-progress ((id, hit) ∷ hits) now key db =
    record_hits-progress hits now key (record_hit id hit now db).1
    ∙ ap (progress key now hits) (progress_step id hit now key db)
