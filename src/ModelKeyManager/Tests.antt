-- ===== src/ModelKeyManager/Tests.antt =====
-- The running Workspace of the sample database while its Worker connects without the key, and the
-- issue of a key that the Worker does not confirm.
use pi_container.Prelude.{List, false, none, some, [], ◌∷◌, refl, Memᴰ}
use pi_container.Database.Records.{ModelKey, IssueReason, ModelKeyStatus}
use pi_container.Database.Tables.{Db}
use pi_container.Database.Samples.{small_db}
use pi_container.Database.Recovery.{is_assigned_to}
use pi_container.Database.ModelKeys.{activate_model_key, ModelKeyIssue, begin_model_key_issue}
use pi_container.Database.ModelKeys.Queries.{list_active_model_keys_for_worker}
use pi_container.ModelKeyManager.{
  WorkerModelKeyHolding, Surroundings, generated, other_response, alias_of, reconcile_worker,
  ensure_workspace_key,
}
use pi_container.ModelKeyManager.Revoked.{
  NotUsable, reconcile_worker-NotUsable, ensure_workspace_key-NotUsable, IsClearedOrActive,
  reconcile_worker-cleared,
}

abbrev active_key : ModelKey
active_key = record {
  id = 60;
  workspace_id = some 8;
  user_id = 3;
  key_alias = record { workspace = 8; sequence = 1 };
  issue_reason = IssueReason.start;
  created_at = 100;
  revoked_at = none;
  revoke_attempts = 0;
  last_error_code = none;
  status = ModelKeyStatus.active;
  revoke_reason = none;
  revoke_requested_at = none;
  next_attempt_at = none;
}

abbrev old_holding : WorkerModelKeyHolding
old_holding = record { workspace_id = 8; key_alias = record { workspace = 8; sequence = 0 } }

abbrev holdings : List WorkerModelKeyHolding
holdings = old_holding ∷ []

abbrev nothing_else : Db → Db
nothing_else db = db

reconcile_worker-NotUsable_example :
    NotUsable 60 (reconcile_worker nothing_else 1 holdings 200 small_db).1
unfolding list_active_model_keys_for_worker alias_of is_assigned_to
reconcile_worker-NotUsable_example =
    reconcile_worker-NotUsable nothing_else 1 holdings 200 small_db active_key (Memᴰ.head refl) refl

reconcile_worker-cleared_example :
    IsClearedOrActive nothing_else 1 holdings 200 small_db old_holding
reconcile_worker-cleared_example =
    reconcile_worker-cleared nothing_else 1 holdings 200 small_db old_holding (Memᴰ.head refl)

abbrev keyless_db : Db
keyless_db = record small_db { model_keys = [] }

abbrev no_confirmation : Surroundings
no_confirmation = record {
  ensure_user = λ user. none;
  generate_key = λ key. generated 77;
  response_to = λ worker command. some other_response;
  revocation_fails = false;
  while_beginning = nothing_else;
  while_generating = nothing_else;
  while_delivering = nothing_else;
}

abbrev begun_key : ModelKeyIssue
begun_key = record {
  id = 61;
  workspace_id = 8;
  user_id = 3;
  key_alias = record { workspace = 8; sequence = 1 };
  worker_id = 1;
}

ensure_workspace_key-NotUsable_example :
    NotUsable 61
      (ensure_workspace_key no_confirmation 61 8 IssueReason.start 200 false keyless_db).db
unfolding begin_model_key_issue ensure_workspace_key activate_model_key
ensure_workspace_key-NotUsable_example =
    ensure_workspace_key-NotUsable no_confirmation 61 8 IssueReason.start 200 false keyless_db
      begun_key refl refl (refl, tt) refl
