-- ===== src/Database/Samples.antt =====
-- Rows for the tests: one Worker with room for two, and two Workspaces, one with a model key.
use pi_container.Prelude.{true, false, none, some, [], ◌∷◌}
use pi_container.Database.Records.{
  ModelKeyStatus, IssueReason, User, UserRole, UserStatus, WorkspaceState, DesiredState,
  WorkerStatus, Architecture, Workspace, Worker,
}
use pi_container.Database.Tables.{Db}

abbrev pub new_row : Workspace
new_row = record {
  id = 7;
  user_id = 3;
  name = "notes";
  worker_id = none;
  state = WorkspaceState.created;
  desired_state = DesiredState.stopped;
  runtime_image = 40;
  required_architecture = none;
  required_capabilities = [];
  previous_runtime_image = none;
  runtime_changed_at = none;
  created_at = 100;
  updated_at = 100;
  last_activity_at = 100;
  last_access_at = none;
  last_stop_reason = none;
  disk = record {
    limit_bytes = 1000;
    used_bytes = none;
    used_inodes = none;
    pi_used_bytes = none;
    pi_limit_bytes = none;
    sampled_at = none;
  };
}

abbrev pub running_row : Workspace
running_row = record new_row {
  id = 8;
  worker_id = some 1;
  state = WorkspaceState.running;
  desired_state = DesiredState.running;
}

abbrev pub worker_row : Worker
worker_row = record {
  id = 1;
  architecture = some Architecture.amd64;
  status = WorkerStatus.online;
  enabled = true;
  schedulable = true;
  runtime_images =
      record {
        image = 40;
        image_id = none;
        runtime_version = "1";
        pi_web_version = none;
        pi_version = none;
        capabilities = record {
          browser = true;
          office = false;
          ffmpeg = false;
          python = true;
          node = true;
          rust = false;
        };
      }
      ∷ [];
  max_workspaces = some 2;
  last_heartbeat_at = some 190;
  egress_enforced = true;
  egress_revision = some 5;
  storage_enforced = true;
  credential_hash = 90;
  gateway_base_url = some 91;
  model_relay_enabled = true;
  model_relay_listening = true;
  updated_at = 100;
}

abbrev pub admin_row : User
admin_row = record {
  id = 2;
  email = some 20;
  username = none;
  password_hash = some 21;
  role = UserRole.admin;
  status = UserStatus.active;
  last_login_at = none;
  created_at = 100;
  updated_at = 100;
}

abbrev pub owner_row : User
owner_row = record admin_row { id = 3; email = some 30; role = UserRole.user }

abbrev pub small_db : Db
small_db = record {
  workspaces = new_row ∷ running_row ∷ [];
  workers = worker_row ∷ [];
  users = admin_row ∷ owner_row ∷ [];
  sessions =
      record { id = 70; user_id = 3; token_hash = 71; expires_at = 900; revoked_at = none } ∷ [];
  model_keys =
      record {
        id = 60;
        workspace_id = some 8;
        user_id = 3;
        key_alias = record { workspace = 8; sequence = 1 };
        issue_reason = IssueReason.start;
        created_at = 100;
        revoked_at = none;
        revoke_attempts = 0;
        last_error_code = none;
        status = ModelKeyStatus.active;
        revoke_reason = none;
        revoke_requested_at = none;
        next_attempt_at = none;
      }
      ∷ [];
  egress_revision = some 5;
  audit = [];
}
