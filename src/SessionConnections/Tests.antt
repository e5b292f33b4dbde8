-- ===== src/SessionConnections/Tests.antt =====
-- Two connections of one user to two Workspaces.
use pi_container.Prelude.{[], ◌∷◌, ◌≡◌, refl}
use pi_container.SessionConnections.{Registry, close_workspaces, active_count, close_matching}

abbrev two_connections : Registry
two_connections = record {
  connections =
      record { connection = 1; user_id = 3; session_id = 5; workspace_id = 7 }
      ∷ record { connection = 2; user_id = 3; session_id = 5; workspace_id = 8 }
      ∷ [];
  disconnected = [];
}

one_left : active_count 8 (close_workspaces (7 ∷ []) two_connections) ≡ 1
unfolding active_count close_workspaces close_matching
one_left = refl
