-- ===== src/Database/Users/Requests.antt =====
-- The methods of packages/database/src/users.ts as one step function.
use pi_container.Prelude.{ℕ, Bool, Option, none, some, List, [], ◌∷◌}
use pi_container.Database.Records.{User, UserRole, UserStatus}
use pi_container.Database.Tables.{Db}
use pi_container.Database.Users.{
  create_user, create_session, revoke_session, update_managed_user, reset_local_password,
  revoke_user_sessions,
}

-- The methods that change users or sessions.
pub data UserRequest : Type 0 where
  creates_user : ℕ → ℕ → Option ℕ → ℕ → UserRole → Option ℕ → UserRequest
  creates_session : ℕ → ℕ → ℕ → ℕ → Bool → UserRequest
  revokes_session : ℕ → Option ℕ → UserRequest
  updates_user : ℕ → Option UserRole → Option UserStatus → Option ℕ → UserRequest
  resets_password : ℕ → ℕ → Option ℕ → UserRequest
  revokes_sessions : ℕ → Option ℕ → UserRequest

-- An exception rolls the transaction back.
abbrev pub created_or : Db → Option (User × Db) → Db
created_or db none = db
created_or db (some (row, db')) = db'

unfoldable pub apply_user : ℕ → UserRequest → Db → Db
unfolding create_user create_session revoke_session update_managed_user reset_local_password
    revoke_user_sessions
apply_user now (creates_user id email username hash role actor) db =
    created_or db (create_user id email username hash role actor now db)
apply_user now (creates_session id user token expires_at audited) db =
    (create_session id user token expires_at audited now db).1
apply_user now (revokes_session token actor) db = revoke_session token now actor db
apply_user now (updates_user id role status actor) db =
    (update_managed_user id role status actor now db).1
apply_user now (resets_password id hash actor) db = (reset_local_password id hash actor now db).1
apply_user now (revokes_sessions id actor) db = (revoke_user_sessions id now actor db).1

unfoldable pub run_users : List (ℕ × UserRequest) → Db → Db
unfolding apply_user
run_users [] db = db
run_users ((now, request) ∷ requests) db = run_users requests (apply_user now request db)
