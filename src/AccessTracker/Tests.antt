-- ===== src/AccessTracker/Tests.antt =====
-- Two accesses around a write that fails.
use pi_container.Prelude.{false, List, [], ◌∷◌}
use pi_container.AccessTracker.{TrackerStep, touches, flush_begins, flush_ends}

abbrev steps : List TrackerStep
steps = touches 7 false 100 ∷ flush_begins ∷ touches 7 false 200 ∷ flush_ends false ∷ []
