-- ===== src/Throttle/Windows.antt =====
-- `nextAuthThrottleState` over a window: when repeated failures lock.
use pi_container.Prelude.{
  ℕ, ◌+◌, ◌<◌, ◌≡◌, refl, some, none, List, [], ◌∷◌, All, length, arith, ◌==◌, suc, if◌then◌else◌,
}
use pi_container.Throttle.{AuthThrottlePolicy, AuthThrottleState, next_auth_throttle_state}

-- The counter after a first failure at `first` and further ones, the latest at the head.
pub after_failures : AuthThrottlePolicy → ℕ → List ℕ → AuthThrottleState
after_failures policy first [] = next_auth_throttle_state none policy first
after_failures policy first (now ∷ times) =
    next_auth_throttle_state (some (after_failures policy first times)) policy now

abbrev pub InWindow : AuthThrottlePolicy → ℕ → ℕ → Type 0
InWindow policy first now = now < first + policy.window_ms

unlocked_step :
    (policy : AuthThrottlePolicy) (first n now : ℕ)
    → n + 1 < policy.threshold
    → InWindow policy first now
    → next_auth_throttle_state
        (some (record { window_start = first; failures = n; locked_until = none }))
        policy
        now
      ≡ record { window_start = first; failures = suc n; locked_until = none }
unfolding next_auth_throttle_state
unlocked_step policy first n now h w = ground arith

first_step :
    (policy : AuthThrottlePolicy) (first : ℕ)
    → 1 < policy.threshold
    → next_auth_throttle_state none policy first
      ≡ record { window_start = first; failures = 1; locked_until = none }
unfolding next_auth_throttle_state
first_step policy first h = ground arith

-- Failures below the threshold, all in the window of the first, are counted and do not lock.
after_failures-unlocked :
    (policy : AuthThrottlePolicy) (first : ℕ) (times : List ℕ)
    → All (InWindow policy first) times
    → length times + 1 < policy.threshold
    → after_failures policy first times
      ≡ record { window_start = first; failures = suc (length times); locked_until = none }
unfolding after_failures
after_failures-unlocked policy first [] w h = first_step policy first h
after_failures-unlocked policy first (now ∷ times) w h =
    rw (after_failures-unlocked policy first times w.1 (omega (arith, h)))
      (unlocked_step policy first (suc (length times)) now (omega (arith, h)) w.0)

last_step :
    (policy : AuthThrottlePolicy) (first n now : ℕ)
    → n < policy.threshold
    → InWindow policy first now
    → (next_auth_throttle_state
        (some (record { window_start = first; failures = n; locked_until = none }))
        policy
        now).locked_until
      ≡ (if n + 1 == policy.threshold then some (now + policy.lock_ms) else none)
unfolding next_auth_throttle_state
last_step policy first n now h w = ground arith

-- If at least one failure and fewer than the threshold came so far, all within the window of the
-- first, there is no lock, and one more failure in that window locks for `lock_ms` exactly if it is
-- the one that meets the threshold.
pub locks_at_threshold :
    (policy : AuthThrottlePolicy) (first : ℕ) (times : List ℕ) (now : ℕ)
    → All (InWindow policy first) times
    → length times + 1 < policy.threshold
    → InWindow policy first now
    → ((after_failures policy first times).locked_until ≡ none)
      × ((next_auth_throttle_state
            (some (after_failures policy first times))
            policy
            now).locked_until
          ≡ (if suc (length times) + 1 == policy.threshold
              then some (now + policy.lock_ms)
              else none))
locks_at_threshold policy first times now w h k =
    rw (after_failures-unlocked policy first times w h)
      (refl, (last_step policy first (suc (length times)) now (omega (arith, h)) k))
