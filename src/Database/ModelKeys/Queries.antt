-- ===== src/Database/ModelKeys/Queries.antt =====
-- packages/database/src/model-keys.ts: the keys whose deletion is due, and the Workspaces that need a key.
use pi_container.Prelude.{
  first_of, ℕ, Bool, true, false, holds_value, ◌&&◌, not, Option, none, some, List, any, find,
  select, leb, ◌==◌,
}
use pi_container.Prelude.Sort.{order_by}
use pi_container.Database.Records.{
  Workspace, WorkspaceState, Worker, User, ModelKey, ModelKeyStatus, state_is, is_online,
}
use pi_container.Database.Recovery.{is_assigned_to}
use pi_container.Database.Tables.{Db, revocable}
use pi_container.Database.Users.{is_active, is_user}
use pi_container.Database.ModelKeys.{is_revoking}

abbrev pub is_active_key : ModelKeyStatus → Bool
is_active_key ModelKeyStatus.active = true
is_active_key _ = false

abbrev pub due_by : Option ℕ → ℕ → Bool
due_by none now = false
due_by (some at) now = leb at now

abbrev pub is_due : ℕ → ModelKey → Bool
is_due now key = is_revoking key.status && due_by key.next_attempt_at now

abbrev pub attempt_key : ModelKey → ℕ
attempt_key key = elim key.next_attempt_at [ none ↦ 0 | some at ↦ at ]

unfoldable pub list_due_model_key_revocations : ℕ → ℕ → Db → List ModelKey
list_due_model_key_revocations now limit db =
    first_of limit (order_by attempt_key (select (is_due now) db.model_keys))

unfoldable pub find_live_model_key : ℕ → Db → Option ModelKey
find_live_model_key workspace db = find (revocable workspace) db.model_keys

-- The join of a key with the Workspace it is for.
abbrev pub is_active_on : ℕ → List Workspace → ModelKey → Bool
is_active_on worker workspaces key =
    is_active_key key.status
    && any (λ (w : Workspace). holds_value key.workspace_id w.id && is_assigned_to worker w)
        workspaces

unfoldable pub list_active_model_keys_for_worker : ℕ → Db → List ModelKey
list_active_model_keys_for_worker worker db =
    select (is_active_on worker db.workspaces) db.model_keys

abbrev holds_key : Db → Workspace → Bool
holds_key db w = any (revocable w.id) db.model_keys

abbrev serves : ℕ → Worker → Bool
serves worker w =
    w.id == worker
    && is_online w.status
    && w.enabled
    && w.model_relay_enabled
    && w.model_relay_listening

abbrev is_served : Db → Option ℕ → Bool
is_served db none = false
is_served db (some worker) = any (serves worker) db.workers

abbrev needs_key : Db → Workspace → Bool
needs_key db w =
    state_is w.state WorkspaceState.running
    && any (λ (u : User). is_user w.user_id u && is_active u.status) db.users
    && is_served db w.worker_id
    && not (holds_key db w)

-- Running Workspaces of active users on Workers with a listening relay that have no live key.
unfoldable pub list_workspaces_needing_model_key : ℕ → Db → List Workspace
list_workspaces_needing_model_key limit db =
    first_of limit
      (order_by (λ (w : Workspace). w.updated_at) (select (needs_key db) db.workspaces))
