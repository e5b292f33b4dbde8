-- ===== src/LoginGuard/Counters.antt =====
-- The counters that a login attempt looks at and those that its failure counts.
use pi_container.Prelude.{true, false, refl, arith, if◌then◌else◌}
use pi_container.Egress.Text.{Text}
use pi_container.Throttle.{AuthThrottleKey, AuthThrottleHit}
use pi_container.LoginGuard.{
  LoginGuardPolicies, local_login_keys, local_login_failure_hits, max_window_ms, sso_start_keys,
  sso_start_hit, List, ℕ, map, Bool, Option, ◌∷◌, [],
}
use pi_container.Prelude.{◌≤◌, All, Memᴰ, ◌++◌}

abbrev pub keys_of : List AuthThrottleHit → List AuthThrottleKey
keys_of hits = map (λ (hit : AuthThrottleHit). hit.key) hits

module _ (hash : Text → ℕ) (number_of : Text → ℕ) (policies : LoginGuardPolicies)
    (is_management : Text → Bool) (account address : Text) (user : Option ℕ) where
  -- Every hit of a request from this address.
  abbrev pub all_hits : List AuthThrottleHit
  all_hits =
      sso_start_hit hash number_of policies is_management address
      ∷ local_login_failure_hits hash number_of policies is_management account address user

  abbrev pub CountsWithin : AuthThrottleHit → Type 0
  CountsWithin hit = hit.policy.window_ms ≤ max_window_ms hash number_of policies is_management

  unless-All :
      (absent : Bool) (key : AuthThrottleKey)
      → Memᴰ key (keys_of all_hits)
      → All (λ k. Memᴰ k (keys_of all_hits)) (if absent then [] else key ∷ [])
  unless-All true key m = tt
  unless-All false key m = (m, tt)

  -- Each counter that can refuse a local login, or the start of an external one, is one that a failure
  -- or a start counts, and each of these counts within the longest window.
  pub local_login_keys-counted :
      All
        (λ key. Memᴰ key (keys_of all_hits))
        (sso_start_keys hash number_of policies is_management address
          ++ local_login_keys hash number_of policies is_management account address)
      × All CountsWithin all_hits
  unfolding local_login_keys local_login_failure_hits max_window_ms
  local_login_keys-counted = (
    (
      Memᴰ.head refl,
      (
        Memᴰ.tail (Memᴰ.tail (Memᴰ.head refl)),
        (
          Memᴰ.tail (Memᴰ.head refl),
          (
            Memᴰ.tail (Memᴰ.tail (Memᴰ.head refl)),
            unless-All (is_management address) _
                (Memᴰ.tail (Memᴰ.tail (Memᴰ.tail (Memᴰ.head refl)))),
          ),
        ),
      ),
    ),
    (omega arith, (omega arith, (omega arith, (omega arith, tt)))),
  )
