-- ===== src/Throttle/Cleanup.antt =====
-- The cleanup of old counters: it changes no later decision.
use pi_container.Prelude.{
  ℕ, ◌≤◌, ◌≡◌, ◌&&◌, any, refl, some, none, List, [], ◌∷◌, arith, true, false, Bool, select,
  Bool-cases, inl, ◌∙◌, inr, sym,
}
use pi_container.Throttle.{
  AuthThrottleKey, AuthThrottlePolicy, Counter, ThrottleDb, next_auth_throttle_state, is_over,
  same_key, find_auth_lock, delete_expired_auth_throttle, latest_lock, locked_after,
}
use pi_container.Throttle.Counters.{state_of}
use pi_container.Prelude.Table.{delete_where}

-- A counter that the cleanup deletes, with a window no shorter than the policy's, counts no more: at
-- any later time the next failure gives the counter that it gives without one.
pub next-is_over :
    (c : Counter) (policy : AuthThrottlePolicy) (now later max_window : ℕ)
    → is_over now max_window c ≡ true
    → policy.window_ms ≤ max_window
    → now ≤ later
    → next_auth_throttle_state (some (state_of c)) policy later
      ≡ next_auth_throttle_state none policy later
unfolding is_over next_auth_throttle_state
next-is_over c policy now later max_window h w l = ground arith

is_over-unlocked :
    (c : Counter) (now later max_window : ℕ)
    → is_over now max_window c ≡ true
    → now ≤ later
    → locked_after c.locked_until later ≡ false
unfolding is_over
is_over-unlocked c now later max_window h l = ground arith

module _ (keys : List AuthThrottleKey) (now later max_window : ℕ) (l : now ≤ later) where
  live : Counter → Bool
  live c = any (same_key c.key) keys && locked_after c.locked_until later

  dead_head :
      (c : Counter) (cs : List Counter)
      → is_over now max_window c ≡ true
      → latest_lock (select live (c ∷ cs)) ≡ latest_lock (select live cs)
  unfolding live
  dead_head c cs h = ground (arith, is_over-unlocked c now later max_window h l)

  live_step :
      (c : Counter) (xs ys : List Counter)
      → latest_lock (select live xs) ≡ latest_lock (select live ys)
      → latest_lock (select live (c ∷ xs)) ≡ latest_lock (select live (c ∷ ys))
  unfolding latest_lock
  live_step c xs ys h = elim (Bool-cases (live c)) [
    | inl e ↦ rw (e, h) refl
    | inr e ↦ rw (e, h) refl
  ]

  live_after :
      (cs : List Counter)
      → latest_lock (select live (delete_where (is_over now max_window) cs))
        ≡ latest_lock (select live cs)
  unfolding live delete_where latest_lock
  live_after [] = refl
  live_after (c ∷ cs) = elim (Bool-cases (is_over now max_window c)) [
    | inl e ↦ rw (e) (live_after cs ∙ sym (dead_head c cs e))
    | inr e ↦ rw e (live_step c _ cs (live_after cs))
  ]

  -- The cleanup hides no lock: at any later time the lookup finds what it found without the cleanup.
  pub find_auth_lock-delete_expired :
      (db : ThrottleDb)
      → find_auth_lock keys later (delete_expired_auth_throttle now max_window db).1
        ≡ find_auth_lock keys later db
  unfolding find_auth_lock delete_expired_auth_throttle live
  find_auth_lock-delete_expired db = live_after db.counters
