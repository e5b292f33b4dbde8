-- ===== src/Throttle/Tests.antt =====
-- Failures from one address, with a threshold of three.
use pi_container.Prelude.{
  true, [], ◌∷◌, refl, none, some, ◌≡◌, arith, ◌==◌, if◌then◌else◌, suc, length, ◌+◌, List, ℕ,
}
use pi_container.Throttle.{
  AuthThrottleScope, AuthThrottleKey, AuthThrottlePolicy, AuthThrottleHit, Counter, ThrottleDb,
  next_auth_throttle_state, record_auth_throttle_hits, find_auth_lock, delete_expired_auth_throttle,
  is_over,
}
use pi_container.Throttle.Counters.{counter_at, progress, record_hits-progress}
use pi_container.Throttle.Windows.{after_failures, locks_at_threshold}
use pi_container.Throttle.Cleanup.{find_auth_lock-delete_expired}

abbrev key : AuthThrottleKey
key = record { scope = AuthThrottleScope.ip; key_hash = 11 }

abbrev policy : AuthThrottlePolicy
policy = record { threshold = 3; window_ms = 1000; lock_ms = 5000 }

abbrev hit : AuthThrottleHit
hit = record { key = key; policy = policy; ip_address = some 9; user_id = none }

abbrev old_counter : Counter
old_counter = record {
  id = 1;
  key = key;
  ip_address = some 9;
  user_id = none;
  window_start = 100;
  failures = 2;
  locked_until = none;
}

abbrev db : ThrottleDb
db = record { counters = old_counter ∷ []; audit = [] }

abbrev times : List ℕ
times = 400 ∷ []

record_hits-progress_example :
    counter_at key (record_auth_throttle_hits ((2, hit) ∷ (3, hit) ∷ []) 900 db).1.counters
    ≡ progress key 900 ((2, hit) ∷ (3, hit) ∷ []) (counter_at key db.counters)
record_hits-progress_example = record_hits-progress ((2, hit) ∷ (3, hit) ∷ []) 900 key db

locks_at_threshold_example :
    ((after_failures policy 100 times).locked_until ≡ none)
    × ((next_auth_throttle_state (some (after_failures policy 100 times)) policy 700).locked_until
        ≡ (if suc (length times) + 1 == policy.threshold
            then some (700 + policy.lock_ms)
            else none))
locks_at_threshold_example =
    locks_at_threshold policy 100 times 700 (omega arith, tt) (omega arith) (omega arith)

old_counter-is_over : is_over 1200 1000 old_counter ≡ true
unfolding is_over
old_counter-is_over = refl

find_auth_lock-delete_expired_example :
    find_auth_lock (key ∷ []) 1300 (delete_expired_auth_throttle 1200 1000 db).1
    ≡ find_auth_lock (key ∷ []) 1300 db
find_auth_lock-delete_expired_example =
    find_auth_lock-delete_expired (key ∷ []) 1200 1300 1000 (omega arith) db
