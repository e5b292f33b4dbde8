-- ===== src/Throttle.antt =====
-- packages/database/src/auth-throttle.ts: the counters that slow down password guessing. A key hash, an
-- address and a UUID are numbers, since they are only compared; times are milliseconds.
pub mod Counters
pub mod Windows
pub mod Cleanup
mod Tests
use pi_container.Prelude.{
  ℕ, suc, ◌+◌, ◌-◌, Bool, true, false, ◌&&◌, ◌||◌, not, Option, none, some, List, [], ◌∷◌, ◌++◌,
  map, any, select, length, max, ◌==◌, ltb, leb, holds_value, if◌then◌else◌, reverse,
}
use pi_container.Prelude.Sort.{order_by}
use pi_container.Prelude.Table.{delete_where}

pub data AuthThrottleScope : Type 0 where
  login_ip ip login sso_start : AuthThrottleScope

pub record AuthThrottleKey : Type 0 where
  pub scope : AuthThrottleScope
  pub key_hash : ℕ

pub record AuthThrottlePolicy : Type 0 where
  pub threshold : ℕ
  pub window_ms : ℕ
  pub lock_ms : ℕ

pub record AuthThrottleHit : Type 0 where
  pub key : AuthThrottleKey
  pub policy : AuthThrottlePolicy
  pub ip_address : Option ℕ
  pub user_id : Option ℕ

pub record AuthThrottleState : Type 0 where
  pub window_start : ℕ
  pub failures : ℕ
  pub locked_until : Option ℕ

-- The lock is over: `lockedUntil !== null && lockedUntil <= now`.
abbrev pub lock_over : Option ℕ → ℕ → Bool
lock_over none now = false
lock_over (some until) now = leb until now

pub has_expired : Option AuthThrottleState → AuthThrottlePolicy → ℕ → Bool
has_expired none policy now = true
has_expired (some previous) policy now =
    leb (previous.window_start + policy.window_ms) now || lock_over previous.locked_until now

-- The counter that goes on when the window and the lock have not run out.
continued : Bool → Option AuthThrottleState → AuthThrottlePolicy → ℕ → AuthThrottleState
continued expired none policy now = record {
  window_start = now;
  failures = 1;
  locked_until = if leb policy.threshold 1 then some (now + policy.lock_ms) else none;
}
continued expired (some previous) policy now =
    let failures = if expired then 1 else previous.failures + 1 in
    record {
      window_start = if expired then now else previous.window_start;
      failures = failures;
      locked_until =
          if leb policy.threshold failures
          then some (now + policy.lock_ms)
          else if expired
          then none
          else previous.locked_until;
    }

pub next_auth_throttle_state : Option AuthThrottleState → AuthThrottlePolicy → ℕ → AuthThrottleState
unfolding continued has_expired
next_auth_throttle_state previous policy now =
    continued (has_expired previous policy now) previous policy now

-- A row of `auth_throttle`.
pub record Counter : Type 0 where
  pub id : ℕ
  pub key : AuthThrottleKey
  pub ip_address : Option ℕ
  pub user_id : Option ℕ
  pub window_start : ℕ
  pub failures : ℕ
  pub locked_until : Option ℕ

-- Who cleared a lock.
pub data ClearSource : Type 0 where
  admin cli password_reset : ClearSource

pub data ThrottleEvent : Type 0 where
  login_locked : Option ℕ → AuthThrottleScope → ℕ → ThrottleEvent
  lock_cleared :
      Option ℕ → Option ℕ → AuthThrottleScope → Option ℕ → ClearSource → Option ℕ → ThrottleEvent

pub record ThrottleDb : Type 0 where
  pub counters : List Counter
  pub audit : List ThrottleEvent

scope_code : AuthThrottleScope → ℕ
scope_code login_ip = 0
scope_code ip = 1
scope_code login = 2
scope_code sso_start = 3

pub same_key : AuthThrottleKey → AuthThrottleKey → Bool
unfolding scope_code
same_key a b = scope_code a.scope == scope_code b.scope && a.key_hash == b.key_hash

-- The guard that the three `case` expressions of the upsert repeat. A time before the epoch is
-- before every window.
starts_over : Counter → AuthThrottleHit → ℕ → Bool
starts_over c hit now =
    leb hit.policy.window_ms now && leb c.window_start (now - hit.policy.window_ms)
    || lock_over c.locked_until now

pub inserted : ℕ → AuthThrottleHit → ℕ → Counter
inserted id hit now = record {
  id = id;
  key = hit.key;
  ip_address = hit.ip_address;
  user_id = hit.user_id;
  window_start = now;
  failures = 1;
  locked_until = if leb hit.policy.threshold 1 then some (now + hit.policy.lock_ms) else none;
}

pub conflicting : AuthThrottleHit → ℕ → Counter → Counter
unfolding starts_over
conflicting hit now c = record {
  id = c.id;
  key = c.key;
  ip_address = hit.ip_address;
  user_id = hit.user_id;
  window_start = if starts_over c hit now then now else c.window_start;
  failures = if starts_over c hit now then 1 else c.failures + 1;
  locked_until =
      if leb hit.policy.threshold (if starts_over c hit now then 1 else c.failures + 1)
      then some (now + hit.policy.lock_ms)
      else if starts_over c hit now
      then none
      else c.locked_until;
}

-- `insert ... on conflict (scope, key_hash) do update ... returning`: the row, and the table.
pub upsert : ℕ → AuthThrottleHit → ℕ → List Counter → Counter × List Counter
upsert id hit now [] = (inserted id hit now, inserted id hit now ∷ [])
upsert id hit now (c ∷ cs) =
    let rest = upsert id hit now cs in
    elim (same_key c.key hit.key) [
      | true ↦ (conflicting hit now c, conflicting hit now c ∷ cs)
      | false ↦ (rest.0, c ∷ rest.1)
    ]

-- `row.locked_until ?? lockedUntil`.
abbrev lock_end : Counter → AuthThrottleHit → ℕ → ℕ
lock_end row hit now = elim row.locked_until [
  | none ↦ now + hit.policy.lock_ms
  | some until ↦ until
]

-- One round of `recordAuthThrottleHits`: the scope is reported when the threshold is met exactly.
pub record_hit : ℕ → AuthThrottleHit → ℕ → ThrottleDb → Bool × ThrottleDb
unfolding upsert
record_hit id hit now db =
    let (row, counters) = upsert id hit now db.counters in
    if row.failures == hit.policy.threshold
    then (
      true,
      record {
        counters = counters;
        audit = db.audit ++ login_locked hit.user_id hit.key.scope (lock_end row hit now) ∷ [];
      },
    )
    else (false, record { counters = counters; audit = db.audit })

-- Each hit comes with the UUID that is drawn for it.
pub record_auth_throttle_hits :
    List (ℕ × AuthThrottleHit) → ℕ → ThrottleDb → List AuthThrottleScope × ThrottleDb
unfolding record_hit
record_auth_throttle_hits [] now db = ([], db)
record_auth_throttle_hits ((id, hit) ∷ hits) now db =
    let (is_locked, db') = record_hit id hit now db in
    let (locked, db'') = record_auth_throttle_hits hits now db' in
    (if is_locked then hit.key.scope ∷ locked else locked, db'')

abbrev pub key_in : List AuthThrottleKey → AuthThrottleKey → Bool
key_in keys key = any (same_key key) keys

-- `locked_until > now`, where NULL is not.
abbrev pub locked_after : Option ℕ → ℕ → Bool
locked_after none now = false
locked_after (some until) now = ltb now until

abbrev later_of : Option ℕ → Option ℕ → Option ℕ
later_of none b = b
later_of (some a) none = some a
later_of (some a) (some b) = some (max a b)

-- `max(locked_until)`.
latest_lock : List Counter → Option ℕ
latest_lock [] = none
latest_lock (c ∷ cs) = later_of c.locked_until (latest_lock cs)

pub find_auth_lock : List AuthThrottleKey → ℕ → ThrottleDb → Option ℕ
unfolding latest_lock same_key
find_auth_lock keys now db =
    latest_lock
      (select (λ (c : Counter). key_in keys c.key && locked_after c.locked_until now) db.counters)

unfoldable pub clear_auth_throttle : List AuthThrottleKey → ThrottleDb → ThrottleDb
unfolding same_key
clear_auth_throttle keys db = record db {
  counters = delete_where (λ (c : Counter). key_in keys c.key) db.counters;
}

pub data ClearTarget : Type 0 where
  by_id by_user by_ip : ℕ → ClearTarget
  by_keys : List AuthThrottleKey → ClearTarget
  everything : ClearTarget

pub is_target : ClearTarget → Counter → Bool
unfolding same_key
is_target (by_id id) c = c.id == id
is_target (by_user user) c = holds_value c.user_id user
is_target (by_ip address) c = holds_value c.ip_address address
is_target (by_keys keys) c = key_in keys c.key
is_target everything c = true

cleared_event : Option ℕ → ClearSource → Option ℕ → Counter → ThrottleEvent
cleared_event actor source request c =
    lock_cleared actor c.user_id c.key.scope c.ip_address source request

unfoldable pub clear_auth_locks :
    ClearTarget → ℕ → ClearSource → Option ℕ → Option ℕ → ThrottleDb → ℕ × ThrottleDb
unfolding is_target cleared_event
clear_auth_locks target now source actor request db =
    let removed = select (is_target target) db.counters in
    let locked = select (λ (c : Counter). locked_after c.locked_until now) removed in
    (
      length locked,
      record {
        counters = delete_where (is_target target) db.counters;
        audit = db.audit ++ map (cleared_event actor source request) locked;
      },
    )

pub is_over : ℕ → ℕ → Counter → Bool
is_over now max_window_ms c =
    leb max_window_ms now
    && leb c.window_start (now - max_window_ms)
    && not (locked_after c.locked_until now)

-- Drops counters whose window and lock are both over.
pub delete_expired_auth_throttle : ℕ → ℕ → ThrottleDb → ℕ × ThrottleDb
unfolding is_over
delete_expired_auth_throttle now max_window_ms db = (
  length (select (is_over now max_window_ms) db.counters),
  record db { counters = delete_where (is_over now max_window_ms) db.counters },
)
