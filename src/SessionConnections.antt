-- ===== src/SessionConnections.antt =====
-- apps/control-plane/src/session-connections.ts: the open Gateway connections. A connection is known by
-- a number that stands for the object, and its `disconnect` callback by a call in the trace.
pub mod Closing
pub mod Disconnecting
mod Tests
use pi_container.Prelude.{ℕ, ◌+◌, Bool, true, List, [], ◌∷◌, any, select, ◌==◌, if◌then◌else◌}
use pi_container.Prelude.Table.{delete_where}

pub record TrackedConnection : Type 0 where
  pub connection : ℕ
  pub user_id : ℕ
  pub session_id : ℕ
  pub workspace_id : ℕ

-- `#connections`, in the order of registration, and the calls of `disconnect`, latest first.
pub record Registry : Type 0 where
  pub connections : List TrackedConnection
  pub disconnected : List ℕ

abbrev add_last : TrackedConnection → List TrackedConnection → List TrackedConnection
add_last c [] = c ∷ []
add_last c (d ∷ ds) = d ∷ add_last c ds

unfoldable pub register_connection : TrackedConnection → Registry → Registry
register_connection c registry = record registry { connections = add_last c registry.connections }

-- The function that `register` returns.
unfoldable pub release : ℕ → Registry → Registry
unfolding delete_where
release connection registry = record registry {
  connections =
      delete_where (λ (c : TrackedConnection). c.connection == connection) registry.connections;
}

unfoldable pub disconnect_all : List TrackedConnection → List ℕ → List ℕ
disconnect_all [] trace = trace
disconnect_all (c ∷ cs) trace = disconnect_all cs (c.connection ∷ trace)

pub close_matching : (TrackedConnection → Bool) → Registry → Registry
unfolding delete_where disconnect_all
close_matching predicate registry = record {
  connections = delete_where predicate registry.connections;
  disconnected = disconnect_all (select predicate registry.connections) registry.disconnected;
}

unfoldable pub close_session : ℕ → Registry → Registry
unfolding close_matching
close_session session = close_matching (λ c. c.session_id == session)

unfoldable pub close_user : ℕ → Registry → Registry
unfolding close_matching
close_user user = close_matching (λ c. c.user_id == user)

pub close_workspaces : List ℕ → Registry → Registry
unfolding close_matching
close_workspaces [] registry = registry
close_workspaces (target ∷ targets) registry =
    close_matching (λ c. any (λ t. t == c.workspace_id) (target ∷ targets)) registry

unfoldable pub close_all : Registry → Registry
unfolding close_matching
close_all = close_matching (λ c. true)

count_active : ℕ → List TrackedConnection → ℕ
count_active workspace [] = 0
count_active workspace (c ∷ cs) =
    (if c.workspace_id == workspace then 1 else 0) + count_active workspace cs

-- Open HTTP requests, SSE streams and WebSockets of one Workspace.
unfoldable pub active_count : ℕ → Registry → ℕ
unfolding count_active
active_count workspace registry = count_active workspace registry.connections
