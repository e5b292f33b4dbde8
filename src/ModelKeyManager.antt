-- ===== src/ModelKeyManager.antt =====
-- apps/control-plane/src/model-gateway/key-manager.ts: `ensureWorkspaceKey` and `reconcileWorker` over the
-- rows of `model_keys`. The gateway's administration, the answers of the Worker and what other
-- requests do while a call is in flight are parameters. The log, a database that
-- fails (but for a revocation in `revokeOne`) and the maintenance that `kick` starts, which runs on
-- its own, are left out.
pub mod Revoked
mod Tests
use pi_container.Database.Records.{ModelKey, ModelKeyStatus, KeyAlias, IssueReason, RevokeReason}
use pi_container.Database.Tables.{Db}
use pi_container.Database.ModelKeys.{
  ModelKeyIssue, BeginModelKeyIssueResult, issuing, already_live, begin_model_key_issue,
  activate_model_key, request_model_key_revoke, these_keys, same_alias, RevokeTarget,
}
use pi_container.Database.ModelKeys.Queries.{is_active_key, list_active_model_keys_for_worker}
use pi_container.Prelude.{
  ℕ, Bool, true, false, List, [], ◌∷◌, Option, none, some, ◌==◌, ◌&&◌, ◌||◌, not, map, select,
  is_null, if◌then◌else◌, ◌+◌,
}

pub data ModelKeyAvailability : Type 0 where
  available unavailable : ModelKeyAvailability

-- Error codes of the rows: MODEL_GATEWAY_UNAVAILABLE, MODEL_KEY_DELIVERY_FAILED, MODEL_KEY_NOT_HELD.
abbrev pub gateway_unavailable : ℕ
gateway_unavailable = 1

abbrev pub key_delivery_failed : ℕ
key_delivery_failed = 2

abbrev pub key_not_held : ℕ
key_not_held = 3

pub data GatewayAnswer : Type 0 where
  generated : ℕ → GatewayAnswer
  refused : ℕ → GatewayAnswer

pub data KeyCommand : Type 0 where
  set_key : ℕ → KeyAlias → ℕ → KeyCommand
  clear_key : ℕ → KeyAlias → KeyCommand

-- `none` is a dispatch that throws, and `key_response` a `response.ok` with a model key.
pub data KeyResponse : Type 0 where
  key_response : ℕ → Option KeyAlias → KeyResponse
  other_response : KeyResponse

abbrev pub is_alias : Option KeyAlias → KeyAlias → Bool
is_alias none alias = false
is_alias (some a) alias = same_alias a alias

abbrev pub confirms : KeyCommand → Option KeyResponse → Bool
confirms command none = false
confirms command (some other_response) = false
confirms (set_key workspace alias secret) (some (key_response id held)) =
    id == workspace && is_alias held alias
confirms (clear_key workspace alias) (some (key_response id held)) = id == workspace

-- What a Worker says it holds.
pub record WorkerModelKeyHolding : Type 0 where
  pub workspace_id : ℕ
  pub key_alias : KeyAlias

-- A map from Workspaces to aliases, in which the later entry of a Workspace stands.
unfoldable pub alias_of : ℕ → List (Option ℕ × KeyAlias) → Option KeyAlias
alias_of workspace [] = none
alias_of workspace ((id, alias) ∷ entries) =
    let later = alias_of workspace entries in
    elim id [
      | none ↦ later
      | some owner ↦ if is_null later && owner == workspace then some alias else later
    ]

abbrev pub expected_aliases : List ModelKey → List (Option ℕ × KeyAlias)
expected_aliases keys = map (λ (key : ModelKey). (key.workspace_id, key.key_alias)) keys

abbrev pub held_aliases : List WorkerModelKeyHolding → List (Option ℕ × KeyAlias)
held_aliases holdings =
    map (λ (h : WorkerModelKeyHolding). (some h.workspace_id, h.key_alias)) holdings

abbrev pub is_expected : List ModelKey → WorkerModelKeyHolding → Bool
is_expected active h = is_alias (alias_of h.workspace_id (expected_aliases active)) h.key_alias

abbrev pub alias_for : Option ℕ → List (Option ℕ × KeyAlias) → Option KeyAlias
alias_for none entries = none
alias_for (some workspace) entries = alias_of workspace entries

abbrev pub is_held : List WorkerModelKeyHolding → ModelKey → Bool
is_held holdings key = is_alias (alias_for key.workspace_id (held_aliases holdings)) key.key_alias

unfoldable pub revoke_lost : List ModelKey → ℕ → Db → Db
revoke_lost [] now db = db
revoke_lost (key ∷ keys) now db =
    (request_model_key_revoke (these_keys (key ∷ keys)) RevokeReason.lost (some key_not_held) none
      now db).1

-- The commands sent to the Worker, and the database, which other requests changed by `meanwhile`
-- while the commands were sent.
unfoldable pub reconcile_worker :
    (Db → Db) → ℕ → List WorkerModelKeyHolding → ℕ → Db → List KeyCommand × Db
unfolding revoke_lost
reconcile_worker meanwhile worker holdings now db =
    let active = list_active_model_keys_for_worker worker db in
    (
      map (λ (h : WorkerModelKeyHolding). clear_key h.workspace_id h.key_alias)
          (select (λ (h : WorkerModelKeyHolding). not (is_expected active h)) holdings),
      revoke_lost (select (λ (key : ModelKey). not (is_held holdings key)) active) now
          (meanwhile db),
    )

abbrev pub this_key : ℕ → RevokeTarget
this_key id = record { key_ids = some (id ∷ []); workspace_id = none; user_id = none }

-- A revocation that fails is only logged.
unfoldable pub revoke_one : Bool → ℕ → RevokeReason → ℕ → ℕ → Db → Db
revoke_one fails id reason error now db =
    if fails then db else (request_model_key_revoke (this_key id) reason (some error) none now db).1

-- What is outside: setting the user's budget at the gateway (`none` is success, a number its error
-- code; the budget is left out), the generated key, the Worker's answer, whether a revocation throws,
-- and the other requests during these calls.
pub record Surroundings : Type 0 where
  pub ensure_user : ℕ → Option ℕ
  pub generate_key : ModelKeyIssue → GatewayAnswer
  pub response_to : ℕ → KeyCommand → Option KeyResponse
  pub revocation_fails : Bool
  pub while_beginning : Db → Db
  pub while_generating : Db → Db
  pub while_delivering : Db → Db

pub record Ensured : Type 0 where
  pub availability : ModelKeyAvailability
  pub gateway_down : Bool
  pub db : Db

abbrev pub asked : Surroundings → ModelKeyIssue → GatewayAnswer
asked world key = elim (world.ensure_user key.user_id) [
  | none ↦ world.generate_key key
  | some error ↦ refused error
]

unfoldable pub deliver : Surroundings → ModelKeyIssue → ℕ → ℕ → Bool → Db → Ensured
unfolding revoke_one
deliver world key secret now down db =
    let command = set_key key.workspace_id key.key_alias secret in
    let after = world.while_delivering db in
    if confirms command (world.response_to key.worker_id command)
    then record { availability = available; gateway_down = down; db = after }
    else record {
      availability = unavailable;
      gateway_down = down;
      db = revoke_one world.revocation_fails key.id RevokeReason.lost key_delivery_failed now after;
    }

unfoldable pub after_gateway :
    GatewayAnswer → Surroundings → ModelKeyIssue → ℕ → Bool → Db → Ensured
unfolding revoke_one deliver
after_gateway (refused error) world key now down db = record {
  availability = unavailable;
  gateway_down = down || error == gateway_unavailable;
  db = revoke_one world.revocation_fails key.id RevokeReason.issue_failed error now db;
}
after_gateway (generated secret) world key now down db =
    let (ok, changed) = activate_model_key key.id db in
    if ok
    then deliver world key secret now down changed
    else record { availability = unavailable; gateway_down = down; db = changed }

unfoldable pub ensure_begun : BeginModelKeyIssueResult → Surroundings → ℕ → Bool → Db → Ensured
unfolding after_gateway
ensure_begun (already_live alias status) world now down db = record {
  availability = if is_active_key status then available else unavailable;
  gateway_down = down;
  db = db;
}
ensure_begun (issuing key) world now down db =
    after_gateway (asked world key) world key now down (world.while_generating db)
ensure_begun _ world now down db = record {
  availability = unavailable;
  gateway_down = down;
  db = db;
}

-- The id of the new row is the number that the database would generate.
unfoldable pub ensure_workspace_key : Surroundings → ℕ → ℕ → IssueReason → ℕ → Bool → Db → Ensured
unfolding ensure_begun
ensure_workspace_key world id workspace reason now down db =
    let (begun, changed) =
      begin_model_key_issue db id workspace reason now (world.while_beginning db) in
    ensure_begun begun world now down changed
