-- ===== src/Database/Users.antt =====
-- packages/database/src/users.ts: users, their sessions, and the rule that an active local
-- administrator remains. The `AFTER UPDATE OF status` trigger of 0012_model_gateway.sql revokes
-- the model keys of a user who is disabled. A login is trimmed and lower case when it gets here.
pub mod Requests
pub mod Admins
pub mod Sessions
mod Tests
use pi_container.Prelude.{
  ℕ, ◌+◌, Bool, true, false, ◌&&◌, ◌||◌, not, Option, none, some, List, [], ◌∷◌, ◌++◌, any, find,
  select, ltb, holds_value, is_null, length, ◌==◌, if◌then◌else◌,
}
use pi_container.Prelude.Table.{update_where}
use pi_container.Database.Records.{
  User, UserRole, UserStatus, Session, SessionRevokeReason, RevokeReason, AuditEvent, AuditDetails,
  user_created, user_enabled, user_disabled, role_changed, session_revoked, login_succeeded, logout,
  password_reset,
}
use pi_container.Database.Tables.{Db, append_audit, revoke_where, revocable_for}

abbrev pub is_admin : UserRole → Bool
is_admin UserRole.admin = true
is_admin UserRole.user = false

abbrev pub is_active : UserStatus → Bool
is_active UserStatus.active = true
is_active UserStatus.disabled = false

abbrev same_role : UserRole → UserRole → Bool
same_role UserRole.admin role = is_admin role
same_role UserRole.user role = not (is_admin role)

abbrev same_status : UserStatus → UserStatus → Bool
same_status UserStatus.active status = is_active status
same_status UserStatus.disabled status = not (is_active status)

abbrev pub is_user : ℕ → User → Bool
is_user id u = u.id == id

abbrev pub is_local : User → Bool
is_local u = not (is_null u.password_hash)

unfoldable pub find_user_by_login : ℕ → Db → Option User
find_user_by_login login db =
    find (λ (u : User). is_local u && (holds_value u.email login || holds_value u.username login))
      db.users

-- The unique indexes: IDs, user names, and the addresses of local users.
conflicts : ℕ → ℕ → Option ℕ → User → Bool
conflicts id email none u = u.id == id || is_local u && holds_value u.email email
conflicts id email (some username) u =
    u.id == id || is_local u && holds_value u.email email || holds_value u.username username

abbrev event : Option ℕ → Option ℕ → AuditDetails → AuditEvent
event actor owner details = record {
  actor = actor;
  owner = owner;
  workspace = none;
  worker = none;
  details = details;
}

abbrev created_audit : Option ℕ → ℕ → UserRole → List AuditEvent
created_audit none id role = []
created_audit (some actor) id role = event (some actor) (some id) (user_created role) ∷ []

abbrev new_user : ℕ → ℕ → Option ℕ → ℕ → UserRole → ℕ → User
new_user id email username hash role now = record {
  id = id;
  email = some email;
  username = username;
  password_hash = some hash;
  role = role;
  status = UserStatus.active;
  last_login_at = none;
  created_at = now;
  updated_at = now;
}

-- `none` is the violation of a unique index.
unfoldable pub create_user :
    ℕ → ℕ → Option ℕ → ℕ → UserRole → Option ℕ → ℕ → Db → Option (User × Db)
unfolding conflicts
create_user id email username hash role actor now db =
    let row = new_user id email username hash role now in
    if any (conflicts id email username) db.users
    then none
    else some
        (row, append_audit (record db { users = row ∷ db.users }) (created_audit actor id role))

abbrev pub is_active_user : ℕ → User → Bool
is_active_user id u = is_user id u && is_active u.status

abbrev logged_in : ℕ → User → User
logged_in now u = record u { last_login_at = some now; updated_at = now }

-- Nothing is inserted for a user who is not active; `audited` says that metadata was passed.
unfoldable pub create_session : ℕ → ℕ → ℕ → ℕ → Bool → ℕ → Db → Bool × Db
unfolding update_where
create_session id user token expires_at audited now db =
    if any (is_active_user user) db.users
    then (
      true,
      append_audit
          (record db {
            sessions =
                record {
                  id = id;
                  user_id = user;
                  token_hash = token;
                  expires_at = expires_at;
                  revoked_at = none;
                }
                ∷ db.sessions;
            users = update_where (is_active_user user) (logged_in now) db.users;
          })
          (if audited then event (some user) (some user) login_succeeded ∷ [] else []),
    )
    else (false, db)

-- A session that is not revoked and not over, of an active user.
abbrev pub is_current : ℕ → ℕ → List User → Session → Bool
is_current token now users s =
    s.token_hash == token
    && is_null s.revoked_at
    && ltb now s.expires_at
    && any (is_active_user s.user_id) users

unfoldable pub find_active_session : ℕ → ℕ → Db → Option Session
find_active_session token now db = find (is_current token now db.users) db.sessions

abbrev pub is_open : ℕ → Session → Bool
is_open token s = s.token_hash == token && is_null s.revoked_at

abbrev closed : ℕ → Session → Session
closed now s = record s { revoked_at = some now }

abbrev logout_audit : Option ℕ → Bool → List AuditEvent
logout_audit none one = []
logout_audit (some actor) one = if one then event (some actor) (some actor) logout ∷ [] else []

unfoldable pub revoke_session : ℕ → ℕ → Option ℕ → Db → Db
unfolding update_where
revoke_session token now actor db =
    append_audit (record db { sessions = update_where (is_open token) (closed now) db.sessions })
      (logout_audit actor (length (select (is_open token) db.sessions) == 1))

abbrev pub is_open_of : ℕ → Session → Bool
is_open_of user s = s.user_id == user && is_null s.revoked_at

unfoldable pub close_sessions : ℕ → ℕ → Db → Db
unfolding update_where
close_sessions user now db = record db {
  sessions = update_where (is_open_of user) (closed now) db.sessions;
}

pub data UpdateManagedUserResult : Type 0 where
  updated : User → UpdateManagedUserResult
  not_found last_active_local_admin : UpdateManagedUserResult

-- The users who can still administer: `remaining` counts those apart from the one that changes.
abbrev pub can_administer : User → Bool
can_administer u =
    is_admin u.role
    && is_active u.status
    && is_local u
    && (not (is_null u.email) || not (is_null u.username))

abbrev pub another_admin : ℕ → User → Bool
another_admin id u = not (is_user id u) && can_administer u

abbrev removes_active_admin : User → UserRole → UserStatus → Bool
removes_active_admin target role status =
    is_admin target.role
    && is_active target.status
    && (not (is_admin role) || not (is_active status))

abbrev pub given_or {ℓ} : {A : Type ℓ} → Option A → A → A
given_or none a = a
given_or (some b) a = b

abbrev pub managed : UserRole → UserStatus → ℕ → User → User
managed role status now u = record u { role = role; status = status; updated_at = now }

-- The trigger on `users`.
keys_revoked : User → UserStatus → ℕ → Db → Db
unfolding revoke_where
keys_revoked target status now db =
    if not (is_active status) && is_active target.status
    then revoke_where (revocable_for target.id) RevokeReason.user_disabled now db
    else db

status_audit : ℕ → User → UserStatus → List AuditEvent
status_audit actor target status =
    if same_status target.status status
    then []
    else if is_active status
    then event (some actor) (some target.id) (user_enabled target.status status) ∷ []
    else event (some actor) (some target.id) (user_disabled target.status status)
      ∷ event (some actor) (some target.id) (session_revoked SessionRevokeReason.user_disabled)
      ∷ []

role_audit : ℕ → User → UserRole → List AuditEvent
role_audit actor target role =
    if same_role target.role role
    then []
    else event (some actor) (some target.id) (role_changed target.role role) ∷ []

managed_audit : Option ℕ → User → UserRole → UserStatus → List AuditEvent
unfolding status_audit role_audit
managed_audit none target role status = []
managed_audit (some actor) target role status =
    status_audit actor target status ++ role_audit actor target role

-- The rest of the transaction, once the user is found and may change.
change_user : User → UserRole → UserStatus → Option ℕ → ℕ → Db → Db
unfolding keys_revoked close_sessions managed_audit update_where
change_user target role status actor now db =
    let changed =
      keys_revoked target status now (record db {
        users = update_where (is_user target.id) (managed role status now) db.users;
      }) in
    append_audit (if is_active status then changed else close_sessions target.id now changed)
      (managed_audit actor target role status)

update_found :
    Option User
    → Option UserRole
    → Option UserStatus
    → Option ℕ
    → ℕ
    → Db
    → UpdateManagedUserResult × Db
unfolding change_user
update_found none role status actor now db = (not_found, db)
update_found (some target) role status actor now db =
    let role' = given_or role target.role in
    let status' = given_or status target.status in
    if removes_active_admin target role' status' && not (any (another_admin target.id) db.users)
    then (last_active_local_admin, db)
    else (updated (managed role' status' now target), change_user target role' status' actor now db)

unfoldable pub update_managed_user :
    ℕ → Option UserRole → Option UserStatus → Option ℕ → ℕ → Db → UpdateManagedUserResult × Db
unfolding update_found
update_managed_user id role status actor now db =
    update_found (find (is_user id) db.users) role status actor now db

abbrev has_local_password : ℕ → User → Bool
has_local_password id u = is_user id u && is_local u

abbrev reset_audit : Option ℕ → ℕ → Bool → List AuditEvent
reset_audit none id one = []
reset_audit (some actor) id one =
    if one then event (some actor) (some id) password_reset ∷ [] else []

unfoldable pub reset_local_password : ℕ → ℕ → Option ℕ → ℕ → Db → Bool × Db
unfolding update_where
reset_local_password id hash actor now db =
    let one = length (select (has_local_password id) db.users) == 1 in
    (
      one,
      append_audit
          (record db {
            users =
                update_where (has_local_password id)
                  (λ (u : User). record u { password_hash = some hash; updated_at = now }) db.users;
          })
          (reset_audit actor id one),
    )

abbrev revoked_audit : Option ℕ → ℕ → List AuditEvent
revoked_audit none id = []
revoked_audit (some actor) id =
    event (some actor) (some id) (session_revoked SessionRevokeReason.admin_request) ∷ []

unfoldable pub revoke_user_sessions : ℕ → ℕ → Option ℕ → Db → Bool × Db
unfolding close_sessions
revoke_user_sessions id now actor db =
    if any (is_user id) db.users
    then (true, append_audit (close_sessions id now db) (revoked_audit actor id))
    else (false, db)
