-- ===== src/ModelKeyManager/Revoked.antt =====
-- No key that failed to reach its Worker, and none that the Worker lost, stays usable.
use pi_container.Database.Records.{ModelKey, KeyAlias, IssueReason, RevokeReason}
use pi_container.Database.Tables.{Db, is_live}
use pi_container.Database.ModelKeys.{
  RevokeTarget, request_model_key_revoke, can_revoke, revocation_begun, these_keys, can_activate,
  activated, activate_model_key, issuing, ModelKeyIssue, begin_model_key_issue,
}
use pi_container.Database.ModelKeys.Queries.{list_active_model_keys_for_worker, is_active_key}
use pi_container.ModelKeyManager.{
  Surroundings, clear_key, set_key, confirms, asked, refused, generated, revoke_one, ensure_begun,
  ensure_workspace_key, available, unavailable, is_held, is_expected, WorkerModelKeyHolding,
  reconcile_worker, GatewayAnswer, this_key, key_delivery_failed, revoke_lost, deliver,
  after_gateway, key_not_held, alias_of, is_alias, expected_aliases, same_alias,
}
use pi_container.Prelude.Table.{All-update_where, update_where}
use pi_container.Prelude.{
  ℕ, Bool, true, false, List, [], ◌∷◌, Option, none, some, ◌==◌, ◌&&◌, not, map, any, ◌≡◌, refl, ap,
  All, Memᴰ, mem_cases, mem_select, Bool-cases, inl, inr, arith, holds_value, mem_map, ◌⊎◌,
}

-- A key with the id is usable.
abbrev pub usable : ℕ → ModelKey → Bool
usable id key = key.id == id && is_live key.status

abbrev pub NotUsable : ℕ → Db → Type 0
NotUsable id db = All (λ (key : ModelKey). usable id key ≡ false) db.model_keys

module _ (target : RevokeTarget) (reason : RevokeReason) (error : Option ℕ) (now id : ℕ)
    (covers : (key : ModelKey) → usable id key ≡ true → can_revoke target key ≡ true) where
  revoke-NotUsable :
      (db : Db) → NotUsable id (request_model_key_revoke target reason error none now db).1
  unfolding request_model_key_revoke
  revoke-NotUsable db =
      All-update_where (λ (key : ModelKey). usable id key ≡ false) (can_revoke target)
        (revocation_begun reason error now) (λ key e. ground arith)
        (λ key e. let h = covers key in ground (arith, e, h)) db.model_keys

revoke_one-NotUsable :
    (fails : Bool) (id : ℕ) (reason : RevokeReason) (error now : ℕ) (db : Db)
    → fails ≡ false
    → NotUsable id (revoke_one fails id reason error now db)
unfolding revoke_one
revoke_one-NotUsable fails id reason error now db h =
    rw h (revoke-NotUsable (this_key id) reason (some error) now id (λ key h. ground (arith, h)) db)

among_of_mem :
    (key : ModelKey) (keys : List ModelKey) (id : ℕ)
    → Memᴰ key keys
    → id ≡ key.id
    → any (◌==◌ id) (map (λ (k : ModelKey). k.id) keys) ≡ true
among_of_mem key [] id m e = elim m [ ]
among_of_mem key (k ∷ keys) id m e =
    mem_cases m (λ q. let p = ap (λ (k : ModelKey). k.id) q in ground (arith, p, e))
      (λ m'. let h = among_of_mem key keys id m' e in ground (arith, h))

revoke_lost-NotUsable :
    (key : ModelKey) (now : ℕ) (db : Db) (keys : List ModelKey)
    → Memᴰ key keys
    → NotUsable key.id (revoke_lost keys now db)
unfolding revoke_lost
revoke_lost-NotUsable key now db [] m = elim m [ ]
revoke_lost-NotUsable key now db (k ∷ keys) m =
    revoke-NotUsable (these_keys (k ∷ keys)) RevokeReason.lost (some key_not_held) now key.id
      (λ other h.
        let among = among_of_mem key (k ∷ keys) other.id m (ground (arith, h)) in
        ground (arith, h, among))
      db

deliver-NotUsable :
    (world : Surroundings) (key : ModelKeyIssue) (secret now : ℕ) (down : Bool) (db : Db)
    → world.revocation_fails ≡ false
    → (deliver world key secret now down db).availability ≡ unavailable
    → NotUsable key.id (deliver world key secret now down db).db
unfolding deliver
deliver-NotUsable world key secret now down db works e =
    let command = set_key key.workspace_id key.key_alias secret in
    elim (Bool-cases (confirms command (world.response_to key.worker_id command))) [
      | inl c ↦ absurd (let k : available ≡ unavailable = rw c at e in ground (arith, k))
      | inr c ↦ rw c (
          revoke_one-NotUsable world.revocation_fails key.id RevokeReason.lost key_delivery_failed
            now _ works)
    ]

not_activated :
    (id : ℕ) (keys : List ModelKey)
    → any (can_activate id) keys ≡ false
    → All (λ (k : ModelKey). (k.id == id && is_active_key k.status) ≡ false) keys
    → All (λ (k : ModelKey). usable id k ≡ false) (update_where (can_activate id) activated keys)
unfolding update_where
not_activated id [] e h = tt
not_activated id (key ∷ keys) e h =
    let here = h.0 in (ground (arith, e, here), not_activated id keys (ground (arith, e)) h.1)

not_activated-NotUsable :
    (id : ℕ) (db : Db)
    → (activate_model_key id db).0 ≡ false
    → All (λ (k : ModelKey). (k.id == id && is_active_key k.status) ≡ false) db.model_keys
    → NotUsable id (activate_model_key id db).1
unfolding activate_model_key
not_activated-NotUsable id db e h = not_activated id db.model_keys e h

after_gateway-NotUsable :
    (answer : GatewayAnswer) (world : Surroundings) (key : ModelKeyIssue) (now : ℕ) (down : Bool)
    (db : Db)
    → world.revocation_fails ≡ false
    → All (λ (k : ModelKey). (k.id == key.id && is_active_key k.status) ≡ false) db.model_keys
    → (after_gateway answer world key now down db).availability ≡ unavailable
    → NotUsable key.id (after_gateway answer world key now down db).db
unfolding after_gateway
after_gateway-NotUsable (refused error) world key now down db works h e =
    revoke_one-NotUsable world.revocation_fails key.id RevokeReason.issue_failed error now db works
after_gateway-NotUsable (generated secret) world key now down db works h e =
    elim (Bool-cases (activate_model_key key.id db).0) [
      | inl a ↦ rw a (deliver-NotUsable world key secret now down _ works (rw a at e))
      | inr a ↦ rw a (not_activated-NotUsable key.id db a h)
    ]

-- Once the Worker that connects is reconciled, a key that was active for it at the start and that it
-- does not hold is not usable, whatever other requests did while the commands were sent.
pub reconcile_worker-NotUsable :
    (meanwhile : Db → Db) (worker : ℕ) (holdings : List WorkerModelKeyHolding) (now : ℕ) (db : Db)
    (key : ModelKey)
    → Memᴰ key (list_active_model_keys_for_worker worker db)
    → is_held holdings key ≡ false
    → NotUsable key.id (reconcile_worker meanwhile worker holdings now db).1
unfolding reconcile_worker
reconcile_worker-NotUsable meanwhile worker holdings now db key m h =
    revoke_lost-NotUsable key now (meanwhile db) _
      (mem_select (λ (k : ModelKey). not (is_held holdings k)) key _ m (ap not h))

alias_of-mem :
    (workspace : ℕ) (keys : List ModelKey) (alias : KeyAlias)
    → is_alias (alias_of workspace (expected_aliases keys)) alias ≡ true
    → (key : ModelKey) × Memᴰ key keys
      × (holds_value key.workspace_id workspace ≡ true)
      × (same_alias key.key_alias alias ≡ true)
unfolding alias_of
alias_of-mem workspace [] alias h = absurd (ground (arith, h))
alias_of-mem workspace (key ∷ keys) alias h =
    let later = is_alias (alias_of workspace (expected_aliases keys)) alias in
    elim (Bool-cases later) [
      | inl e ↦
          let (k, m, place, name) = alias_of-mem workspace keys alias e in
          (k, Memᴰ.tail m, place, name)
      | inr e ↦ (key, Memᴰ.head refl, ground (arith, h, e), ground (arith, h, e))
    ]

-- A clear command for a holding is sent, or an active key on the Worker has its Workspace and alias.
abbrev pub IsClearedOrActive :
    (Db → Db) → ℕ → List WorkerModelKeyHolding → ℕ → Db → WorkerModelKeyHolding → Type 0
IsClearedOrActive meanwhile worker holdings now db holding =
    Memᴰ (clear_key holding.workspace_id holding.key_alias)
      (reconcile_worker meanwhile worker holdings now db).0
    ⊎ ((key : ModelKey) × Memᴰ key (list_active_model_keys_for_worker worker db)
        × (holds_value key.workspace_id holding.workspace_id ≡ true)
        × (same_alias key.key_alias holding.key_alias ≡ true))

-- While a Worker that connects is reconciled, a clear command is sent for each key that it holds for
-- a Workspace, unless an active key of a Workspace on that Worker has this Workspace and alias.
pub reconcile_worker-cleared :
    (meanwhile : Db → Db) (worker : ℕ) (holdings : List WorkerModelKeyHolding) (now : ℕ) (db : Db)
    (holding : WorkerModelKeyHolding)
    → Memᴰ holding holdings
    → IsClearedOrActive meanwhile worker holdings now db holding
unfolding reconcile_worker
reconcile_worker-cleared meanwhile worker holdings now db holding m =
    let active = list_active_model_keys_for_worker worker db in
    elim (Bool-cases (is_expected active holding)) [
      | inl e ↦ inr (alias_of-mem holding.workspace_id active holding.key_alias e)
      | inr e ↦ inl (
          mem_map (λ (h : WorkerModelKeyHolding). clear_key h.workspace_id h.key_alias) holding _
            (mem_select (λ (h : WorkerModelKeyHolding). not (is_expected active h)) holding holdings
              m (ap not e)))
    ]

-- A key whose issue begins and that does not become available is not usable in the end: whether the
-- gateway refuses it, it was revoked meanwhile or the Worker does not confirm it, provided that no
-- other request activates the key while the gateway is asked and that the revocation does not throw.
pub ensure_workspace_key-NotUsable :
    (world : Surroundings) (id workspace : ℕ) (reason : IssueReason) (now : ℕ) (down : Bool)
    (db : Db) (key : ModelKeyIssue)
    → world.revocation_fails ≡ false
    → (begin_model_key_issue db id workspace reason now (world.while_beginning db)).0 ≡ issuing key
    → All
        (λ (k : ModelKey). (k.id == key.id && is_active_key k.status) ≡ false)
        (world.while_generating
          (begin_model_key_issue db id workspace reason now
            (world.while_beginning db)).1).model_keys
    → (ensure_workspace_key world id workspace reason now down db).availability ≡ unavailable
    → NotUsable key.id (ensure_workspace_key world id workspace reason now down db).db
unfolding ensure_workspace_key ensure_begun
ensure_workspace_key-NotUsable world id workspace reason now down db key works begun h e =
    rw begun (
      after_gateway-NotUsable (asked world key) world key now down
        (world.while_generating
          (begin_model_key_issue db id workspace reason now (world.while_beginning db)).1)
        works h (rw begun at e))
