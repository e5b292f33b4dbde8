-- ===== src/ComputeActivity/Tests.antt =====
-- A Workspace of one Worker that works for one bucket and then rests.
use pi_container.ComputeActivity.{
  UsageSample, ComputeStep, records, forgets, run_compute, last_active_at, ℕ, List, [], some, ◌∷◌,
}
use pi_container.ComputeActivity.Quiet.{QuietSince, Reported, last_active_at-Reported}
use pi_container.Prelude.{◌≡◌, ◌⊎◌, refl}

abbrev sample : ℕ → ℕ → UsageSample
sample at nanos = record { workspace_id = 8; sampled_at = some at; cpu_usage_nanos = nanos }

abbrev heartbeats : List ComputeStep
heartbeats =
    records 1 (sample 1000 0 ∷ sample 61000 10 ∷ sample 121000 900 ∷ sample 181000 900 ∷ [])
    ∷ forgets 2
    ∷ []

last_active_at-Reported_example :
    let since = last_active_at 5 8 182000 (run_compute 5 heartbeats []) in
    (since ≡ 182000) ⊎ QuietSince 5 (Reported heartbeats) 8 since 182000
last_active_at-Reported_example = last_active_at-Reported 5 8 182000 heartbeats

-- The first sample counts as work, and what follows stays below the threshold.
first_sample : last_active_at 5 8 182000 (run_compute 5 heartbeats []) ≡ 1000
unfolding last_active_at run_compute
first_sample = refl
