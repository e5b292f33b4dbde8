-- ===== src/Database/Keys.antt =====
-- The virtual model keys of a Workspace whose deletion begins (`model_keys_request_revoke` of
-- packages/database/migrations/0012_model_gateway.sql).
use pi_container.Prelude.{
  ℕ, ◌≡◌, refl, Bool, true, false, List, [], ◌∷◌, any, Bool-cases, inl, inr, arith, ◌==◌, length,
}
use pi_container.Prelude.Table.{update_where}
use pi_container.Database.Records.{ModelKey, RevokeReason}
use pi_container.Database.Tables.{Db, revocable, revoke_key, request_revoke, update_workspaces}
use pi_container.Database.Lifecycle.{begin_workspace_delete, can_begin_delete, delete_begun}

-- A key of the Workspace is issuing or active.
abbrev pub has_live_key : ℕ → Db → Bool
has_live_key workspace db = any (revocable workspace) db.model_keys

pub revoked-none :
    (workspace : ℕ) (reason : RevokeReason) (now : ℕ) (keys : List ModelKey)
    → any (revocable workspace) (update_where (revocable workspace) (revoke_key reason now) keys)
      ≡ false
unfolding update_where revoke_key
revoked-none workspace reason now [] = refl
revoked-none workspace reason now (key ∷ keys) =
    ground (arith, revoked-none workspace reason now keys)

-- A deletion that begins leaves the Workspace no live key; one that is refused changes no key.
pub begin_workspace_delete-none :
    (workspace user worker now : ℕ) (db : Db)
    → let after = begin_workspace_delete workspace user worker now db in
      (after.0 ≡ true → has_live_key workspace after.1 ≡ false)
      × (after.0 ≡ false → after.1.model_keys ≡ db.model_keys)
unfolding begin_workspace_delete request_revoke update_workspaces
begin_workspace_delete-none workspace user worker now db =
    let revoked = revoked-none workspace RevokeReason.workspace_deleted now db.model_keys in
    elim (Bool-cases (
      length (update_workspaces (can_begin_delete workspace user worker) (delete_begun now) db).0
      == 1)) [
        | inl e ↦ rw (e, begin_workspace_delete) (λ k. revoked, λ k. ground (arith, k))
        | inr e ↦ rw (e, begin_workspace_delete) (λ k. ground (arith, k), λ k. refl)
      ]
