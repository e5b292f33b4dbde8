-- ===== src/Database/ModelKeys/Retries.antt =====
-- When a key whose deletion failed is tried again.
use pi_container.Prelude.Table.{update_where}
use pi_container.Prelude.Sort.{order_by, mem_order_by, length-order_by}
use pi_container.Database.Records.{ModelKey}
use pi_container.Database.Tables.{Db}
use pi_container.Prelude.Table.{mem_update_where}
use pi_container.Database.ModelKeys.{
  record_model_key_revoke_result, can_settle, deletion_failed, model_key_retry_delay_seconds, ℕ,
  length, select, true, suc, some, min,
}
use pi_container.Prelude.{◌≤◌, Memᴰ, ◌≡◌, arith, ◌+◌, zero, ◌^◌, mem_select, first_of-all}
use pi_container.Database.ModelKeys.Queries.{list_due_model_key_revocations, is_due, attempt_key}

positive_pow : (n : ℕ) → 1 ≤ 2 ^ n
positive_pow zero = omega arith
positive_pow (suc n) = let rest = positive_pow n in omega (arith, rest)

retry_delay-bounds :
    (attempts : ℕ)
    → (30 ≤ model_key_retry_delay_seconds attempts) × (model_key_retry_delay_seconds attempts ≤ 600)
unfolding model_key_retry_delay_seconds
retry_delay-bounds attempts =
    let growth = positive_pow (min attempts 10) in (omega (arith, growth), omega arith)

failed-is_due :
    (id error now later : ℕ) (key : ModelKey)
    → can_settle id key ≡ true
    → now + 600000 ≤ later
    → is_due later (deletion_failed error now key) ≡ true
unfolding model_key_retry_delay_seconds
failed-is_due id error now later key h after =
    let delay = retry_delay-bounds key.revoke_attempts in ground (arith, h, after, delay)

-- A key whose deletion fails is among those to try at any time from 10 minutes later on, if no
-- more keys are due then than the list takes.
pub list_due-record_result :
    (id error now later limit : ℕ) (db : Db) (key : ModelKey)
    → Memᴰ key db.model_keys
    → can_settle id key ≡ true
    → now + 600000 ≤ later
    → length
        (select (is_due later) (record_model_key_revoke_result id (some error) now db).model_keys)
      ≤ limit
    → Memᴰ (deletion_failed error now key) (
        list_due_model_key_revocations later limit
          (record_model_key_revoke_result id (some error) now db))
unfolding list_due_model_key_revocations record_model_key_revoke_result
list_due-record_result id error now later limit db key m h after enough =
    let keys = update_where (can_settle id) (deletion_failed error now) db.model_keys in
    let moved =
      mem_update_where (can_settle id) (deletion_failed error now) key db.model_keys m h in
    let due =
      mem_select (is_due later) (deletion_failed error now key) keys moved
        (failed-is_due id error now later key h after) in
    let ordered = length-order_by attempt_key (select (is_due later) keys) in
    rw
      (first_of-all limit (order_by attempt_key (select (is_due later) keys))
        (omega (arith, ordered, enough)))
      (mem_order_by attempt_key (deletion_failed error now key) (select (is_due later) keys) due)
