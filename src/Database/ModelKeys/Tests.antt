-- ===== src/Database/ModelKeys/Tests.antt =====
-- The active key of the sample database, through its revocation and the issue of the next one.
use pi_container.Prelude.{refl}
use pi_container.Database.Samples.{small_db}
use pi_container.Database.Records.{ModelKey, IssueReason, RevokeReason}
use pi_container.Database.ModelKeys.{
  expire_stale_model_key_issues, activate_model_key, begin_model_key_issue, RevokeTarget,
  deletion_failed, record_model_key_revoke_result, none, List, map, ℕ, some, Db, ModelKeyStatus, [],
  request_model_key_revoke,
}
use pi_container.Database.ModelKeys.States.{
  KeyRequest, begins_issue, activates, requests_revoke, records_result, expires_stale, apply_key,
  run_keys, KeysMove, apply_key-KeysMove,
}
use pi_container.Database.ModelKeys.Live.{IsIndexed, live_count, run_keys-IsIndexed}
use pi_container.Database.ModelKeys.Retries.{list_due-record_result}
use pi_container.Prelude.{Memᴰ, ◌≡◌, ◌≤◌, arith, ◌∷◌}
use pi_container.Database.ModelKeys.Queries.{list_due_model_key_revocations}

abbrev whole_workspace : RevokeTarget
whole_workspace = record { key_ids = none; workspace_id = some 8; user_id = none }

-- The database that the issue sees, in which the first key is revoked already.
abbrev seen_db : Db
seen_db = (request_model_key_revoke whole_workspace RevokeReason.admin none none 200 small_db).1

abbrev requests : List (ℕ × KeyRequest)
requests =
    (200, requests_revoke whole_workspace RevokeReason.admin none none)
    ∷ (210, begins_issue seen_db 61 8 IssueReason.start)
    ∷ (220, records_result 60 none)
    ∷ (230, activates 61)
    ∷ (240, expires_stale 235)
    ∷ []

-- The first key is revoked, and the second is issued under the next alias and active.
statuses :
    map {B = ℕ × ModelKeyStatus}
      (λ (key : ModelKey). (key.id, key.status))
      (run_keys requests small_db).model_keys
    ≡ (61, ModelKeyStatus.active) ∷ (60, ModelKeyStatus.revoked) ∷ []
unfolding run_keys apply_key expire_stale_model_key_issues activate_model_key
    record_model_key_revoke_result begin_model_key_issue request_model_key_revoke
statuses = refl

one_live : (workspace : ℕ) → live_count workspace small_db.model_keys ≤ 1
unfolding live_count
one_live workspace = ground arith

run_keys-IsIndexed_example : IsIndexed (run_keys requests small_db).model_keys
run_keys-IsIndexed_example = run_keys-IsIndexed requests small_db (one_live, (tt, tt))

apply_key-KeysMove_example :
    KeysMove small_db
      (apply_key 200 (requests_revoke whole_workspace RevokeReason.admin none none) small_db)
apply_key-KeysMove_example =
    apply_key-KeysMove 200 (requests_revoke whole_workspace RevokeReason.admin none none) small_db

abbrev first_key : ModelKey
first_key = record {
  id = 60;
  workspace_id = some 8;
  user_id = 3;
  key_alias = record { workspace = 8; sequence = 1 };
  issue_reason = IssueReason.start;
  created_at = 100;
  revoked_at = none;
  revoke_attempts = 0;
  last_error_code = none;
  status = ModelKeyStatus.revoking;
  revoke_reason = some RevokeReason.admin;
  revoke_requested_at = some 200;
  next_attempt_at = some 200;
}

abbrev revoking_db : Db
revoking_db = record small_db { model_keys = first_key ∷ [] }

list_due-record_result_example : Memᴰ (deletion_failed 7 300 first_key) (
    list_due_model_key_revocations 600300 1
      (record_model_key_revoke_result 60 (some 7) 300 revoking_db))
unfolding record_model_key_revoke_result
list_due-record_result_example =
    list_due-record_result 60 7 300 600300 1 revoking_db first_key (Memᴰ.head refl) refl
      (omega arith) (omega arith)
