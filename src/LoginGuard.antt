-- ===== src/LoginGuard.antt =====
-- apps/control-plane/src/login-guard.ts: the client address of a request behind trusted proxies, and the
-- counters of a login attempt. What is an IP address, its normal form, whether it is in a network,
-- and the keyed hash are parameters; an address and a hash are texts and numbers.
pub mod Addresses
pub mod Counters
mod Tests
use pi_container.Prelude.Texts.{to_lower, trim, codes}
use pi_container.Egress.Text.{Text, split_text}
use pi_container.Throttle.{
  AuthThrottlePolicy, AuthThrottleKey, AuthThrottleHit, login_ip, ip, login, sso_start,
}
use pi_container.Prelude.{
  Bool, List, Option, ◌∷◌, some, if◌then◌else◌, not, reverse, [], map, none, ℕ, max, ◌++◌, ◌-◌, ◌+◌,
  ◌/◌,
}

module _ (is_ip : Text → Bool) (normalize_address : Text → Text) (is_trusted : Text → Bool) where
  -- The loop over the hops, from the last to the first.
  unfoldable pub resolve_hops : Text → List Text → Text
  resolve_hops client [] = client
  resolve_hops client (hop ∷ hops) =
      let address = normalize_address hop in
      let rest = resolve_hops address hops in
      if not (is_ip address) then client else if not (is_trusted address) then address else rest

  -- The hops of a header, or of several joined by commas.
  unfoldable pub resolve_client_address : Text → Option Text → Text
  unfolding split_text
  resolve_client_address peer none = normalize_address peer
  resolve_client_address peer (some forwarded_for) =
      if not (is_trusted (normalize_address peer))
      then normalize_address peer
      else resolve_hops (normalize_address peer)
          (reverse (map (λ (hop : Text). trim hop) (split_text b',' forwarded_for)))

-- Thresholds per counter.
pub record LoginGuardPolicies : Type 0 where
  pub login_ip : AuthThrottlePolicy
  pub ip : AuthThrottlePolicy
  pub login : AuthThrottlePolicy
  pub sso_start : AuthThrottlePolicy

-- The hash of a text, the number that stands for an address in the table, the policies, and the networks
-- in which an account is not locked.
module _ (hash : Text → ℕ) (number_of : Text → ℕ) (policies : LoginGuardPolicies)
    (is_management : Text → Bool) where
  abbrev account_key : Text → Option Text → Text
  account_key typed none = codes "login:" ++ to_lower (trim typed)
  account_key typed (some user) = codes "user:" ++ user

  abbrev pub login_ip_key : Text → Text → AuthThrottleKey
  login_ip_key account address = record {
    scope = login_ip;
    key_hash = hash (account ++ b'|' ∷ address);
  }

  abbrev pub ip_key : Text → AuthThrottleKey
  ip_key address = record { scope = ip; key_hash = hash (codes "ip:" ++ address) }

  abbrev pub login_key : Text → AuthThrottleKey
  login_key account = record { scope = login; key_hash = hash account }

  abbrev pub sso_start_key : Text → AuthThrottleKey
  sso_start_key address = record { scope = sso_start; key_hash = hash (codes "sso:" ++ address) }

  unfoldable pub local_login_keys : Text → Text → List AuthThrottleKey
  local_login_keys account address =
      login_ip_key account address
      ∷ ip_key address
      ∷ (if is_management address then [] else login_key account ∷ [])

  abbrev hit_of : AuthThrottleKey → AuthThrottlePolicy → Option ℕ → Option ℕ → AuthThrottleHit
  hit_of key policy address user = record {
    key = key;
    policy = policy;
    ip_address = address;
    user_id = user;
  }

  abbrev pub address_failure_hit : Text → AuthThrottleHit
  address_failure_hit address = hit_of (ip_key address) policies.ip (some (number_of address)) none

  unfoldable pub local_login_failure_hits : Text → Text → Option ℕ → List AuthThrottleHit
  local_login_failure_hits account address user =
      hit_of (login_ip_key account address) policies.login_ip (some (number_of address)) user
      ∷ address_failure_hit address
      ∷ hit_of (login_key account) policies.login none user
      ∷ []

  abbrev pub sso_start_keys : Text → List AuthThrottleKey
  sso_start_keys address = sso_start_key address ∷ ip_key address ∷ []

  abbrev pub sso_start_hit : Text → AuthThrottleHit
  sso_start_hit address =
      hit_of (sso_start_key address) policies.sso_start (some (number_of address)) none

  unfoldable pub max_window_ms : ℕ
  max_window_ms =
      max policies.login_ip.window_ms
        (max policies.ip.window_ms (max policies.login.window_ms policies.sso_start.window_ms))

-- `Math.max(1, Math.ceil((lockedUntil - now) / 1000))`.
unfoldable pub retry_after_seconds : ℕ → ℕ → ℕ
retry_after_seconds locked_until now = max 1 ((locked_until - now + 999) / 1000)
