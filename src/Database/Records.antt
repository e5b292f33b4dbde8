-- ===== src/Database/Records.antt =====
-- packages/database/src/records.ts and the column types of packages/database/migrations: the rows
-- of the tables. An identifier (a UUID, a Worker ID, an image reference) is a number, since the
-- modelled code only compares identifiers; a time is a number of milliseconds.
use pi_container.Prelude.{ℕ, Bool, true, false, Option, List, String, ◌==◌, any}

pub data WorkspaceState : Type 0 where
  created scheduling starting running stopping stopped deleting error : WorkspaceState
  worker_offline upgrading : WorkspaceState

pub data DesiredState : Type 0 where
  running stopped deleted unknown : DesiredState

pub data StopReason : Type 0 where
  idle : StopReason

pub data WorkerStatus : Type 0 where
  registered online offline disabled : WorkerStatus

pub data Architecture : Type 0 where
  amd64 arm64 : Architecture

pub data Capability : Type 0 where
  browser office ffmpeg python node rust : Capability

abbrev state_code : WorkspaceState → ℕ
state_code WorkspaceState.created = 0
state_code WorkspaceState.scheduling = 1
state_code WorkspaceState.starting = 2
state_code WorkspaceState.running = 3
state_code WorkspaceState.stopping = 4
state_code WorkspaceState.stopped = 5
state_code WorkspaceState.deleting = 6
state_code WorkspaceState.error = 7
state_code WorkspaceState.worker_offline = 8
state_code WorkspaceState.upgrading = 9

-- `state = s` and `state in (...)`.
abbrev pub state_is : WorkspaceState → WorkspaceState → Bool
state_is a b = state_code a == state_code b

abbrev pub state_in : WorkspaceState → List WorkspaceState → Bool
state_in a states = any (state_is a) states

abbrev pub desires : DesiredState → DesiredState → Bool
desires DesiredState.running DesiredState.running = true
desires DesiredState.stopped DesiredState.stopped = true
desires DesiredState.deleted DesiredState.deleted = true
desires DesiredState.unknown DesiredState.unknown = true
desires _ _ = false

abbrev pub is_online : WorkerStatus → Bool
is_online WorkerStatus.online = true
is_online _ = false

-- The data-project limit and the Worker's latest usage sample.
pub record WorkspaceDisk : Type 0 where
  pub limit_bytes : ℕ
  pub used_bytes : Option ℕ
  pub used_inodes : Option ℕ
  pub pi_used_bytes : Option ℕ
  pub pi_limit_bytes : Option ℕ
  pub sampled_at : Option ℕ

pub record Workspace : Type 0 where
  pub id : ℕ
  pub user_id : ℕ
  pub name : String
  pub worker_id : Option ℕ
  pub state : WorkspaceState
  pub desired_state : DesiredState
  pub runtime_image : ℕ
  pub required_architecture : Option Architecture
  pub required_capabilities : List (Capability × Bool)
  pub previous_runtime_image : Option ℕ
  pub runtime_changed_at : Option ℕ
  pub created_at : ℕ
  pub updated_at : ℕ
  pub last_activity_at : ℕ
  pub last_access_at : Option ℕ
  pub last_stop_reason : Option StopReason
  pub disk : WorkspaceDisk

pub record Capabilities : Type 0 where
  pub browser : Bool
  pub office : Bool
  pub ffmpeg : Bool
  pub python : Bool
  pub node : Bool
  pub rust : Bool

pub record WorkerRuntimeImage : Type 0 where
  pub image : ℕ
  pub image_id : Option String
  pub runtime_version : String
  pub pi_web_version : Option String
  pub pi_version : Option String
  pub capabilities : Capabilities

-- The columns of `workers` that the modelled code reads; what it only shows is left out.
pub record Worker : Type 0 where
  pub id : ℕ
  pub architecture : Option Architecture
  pub status : WorkerStatus
  pub enabled : Bool
  pub schedulable : Bool
  pub runtime_images : List WorkerRuntimeImage
  pub max_workspaces : Option ℕ
  pub last_heartbeat_at : Option ℕ
  pub egress_enforced : Bool
  pub egress_revision : Option ℕ
  pub storage_enforced : Bool
  pub credential_hash : ℕ
  pub gateway_base_url : Option ℕ
  pub model_relay_enabled : Bool
  pub model_relay_listening : Bool
  pub updated_at : ℕ

pub data ModelKeyStatus : Type 0 where
  issuing active revoking revoked : ModelKeyStatus

pub data RevokeReason : Type 0 where
  workspace_deleted user_disabled lost admin issue_failed worker_disabled : RevokeReason

pub data IssueReason : Type 0 where
  start reissue rotation : IssueReason

-- `arw-<Workspace>-<sequence>`.
pub record KeyAlias : Type 0 where
  pub workspace : ℕ
  pub sequence : ℕ

-- A row of `model_keys`. Error codes are only stored, and are numbers.
pub record ModelKey : Type 0 where
  pub id : ℕ
  pub workspace_id : Option ℕ
  pub user_id : ℕ
  pub key_alias : KeyAlias
  pub status : ModelKeyStatus
  pub issue_reason : IssueReason
  pub revoke_reason : Option RevokeReason
  pub created_at : ℕ
  pub revoke_requested_at : Option ℕ
  pub revoked_at : Option ℕ
  pub revoke_attempts : ℕ
  pub next_attempt_at : Option ℕ
  pub last_error_code : Option ℕ

pub data UserRole : Type 0 where
  user admin : UserRole

pub data UserStatus : Type 0 where
  active disabled : UserStatus

-- A row of `users`. An address, a name and a password hash are only compared, and are numbers.
pub record User : Type 0 where
  pub id : ℕ
  pub email : Option ℕ
  pub username : Option ℕ
  pub password_hash : Option ℕ
  pub role : UserRole
  pub status : UserStatus
  pub last_login_at : Option ℕ
  pub created_at : ℕ
  pub updated_at : ℕ

-- A row of `user_sessions`.
pub record Session : Type 0 where
  pub id : ℕ
  pub user_id : ℕ
  pub token_hash : ℕ
  pub expires_at : ℕ
  pub revoked_at : Option ℕ

pub data SessionRevokeReason : Type 0 where
  user_disabled admin_request : SessionRevokeReason

pub data RuntimeChangeDirection : Type 0 where
  upgrade rollback retry admin : RuntimeChangeDirection

-- `event_type` with its `details`.
pub data AuditDetails : Type 0 where
  workspace_created : String → ℕ → AuditDetails
  workspace_scheduled : Bool → AuditDetails
  state_changed : WorkspaceState → WorkspaceState → AuditDetails
  workspace_deleted : String → WorkspaceState → AuditDetails
  idle_stopped : ℕ → ℕ → Option ℕ → AuditDetails
  runtime_change_requested : ℕ → ℕ → RuntimeChangeDirection → AuditDetails
  runtime_changed : Option ℕ → ℕ → AuditDetails
  runtime_change_reverted : ℕ → String → AuditDetails
  key_revoke_requested : KeyAlias → RevokeReason → AuditDetails
  worker_status_changed : WorkerStatus → WorkerStatus → AuditDetails
  scheduling_resumed scheduling_paused : AuditDetails
  worker_egress_enforced worker_egress_unenforced : Option ℕ → AuditDetails
  worker_storage_enforced worker_storage_unenforced : AuditDetails
  worker_disabled : WorkerStatus → ℕ → ℕ → AuditDetails
  worker_enabled worker_deleted worker_runtime_reported worker_registered : AuditDetails
  storage_limit_changed : ℕ → ℕ → AuditDetails
  key_issued : KeyAlias → IssueReason → AuditDetails
  key_revoked : KeyAlias → Option RevokeReason → AuditDetails
  user_created : UserRole → AuditDetails
  user_enabled user_disabled : UserStatus → UserStatus → AuditDetails
  role_changed : UserRole → UserRole → AuditDetails
  session_revoked : SessionRevokeReason → AuditDetails
  login_succeeded logout password_reset : AuditDetails

pub record AuditEvent : Type 0 where
  pub actor : Option ℕ
  pub owner : Option ℕ
  pub workspace : Option ℕ
  pub worker : Option ℕ
  pub details : AuditDetails
