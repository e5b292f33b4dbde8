-- ===== src/AccessTracker/Durability.antt =====
-- How far the database may be behind the accesses that were seen.
use pi_container.Prelude.{ℕ, ◌+◌, ◌≡◌, ◌≤◌, ◌<◌, ◌⊎◌, Bool, true, Option, none, some}
use pi_container.AccessTracker.{AccessState, access_persist_interval_ms}

abbrev pub UpTo : Option ℕ → ℕ → Type 0
UpTo none latest = Unit {0}
UpTo (some time) latest = time ≤ latest

abbrev pub Recent : Option ℕ → ℕ → Type 0
Recent none latest = ⊥
Recent (some time) latest = latest < time + access_persist_interval_ms

-- What is stored, or is being stored, is no access from the future, and an access that neither is
-- pending nor so is less than an interval behind it.
abbrev Durable : Bool → Option ℕ → Option ℕ → ℕ → Type 0
Durable pending persisted none latest =
    UpTo persisted latest × ((pending ≡ true) ⊎ Recent persisted latest)
Durable pending persisted (some at) latest =
    UpTo persisted at × (at ≤ latest) × ((pending ≡ true) ⊎ Recent (some at) latest)

abbrev pub IsDurable : AccessState → Type 0
IsDurable s = Durable s.pending s.persisted s.writing s.latest
