-- ===== src/Database/Users/Sessions.antt =====
-- Which sessions authenticate a request.
use pi_container.Prelude.{
  ℕ, ◌≡◌, refl, Bool, true, false, ◌&&◌, Option, none, some, List, [], ◌∷◌, any, find, ltb, arith,
  inl, inr, if◌then◌else◌, ◌==◌, ◌⊎◌, ◌≢◌, sym, not,
}
use pi_container.Prelude.Table.{update_where, delete_where}
use pi_container.Database.Records.{User, Session, UserRole, UserStatus, ModelKey, RevokeReason}
use pi_container.Database.Tables.{Db, revoke_key, revoke_where, revocable_for}
use pi_container.Database.Users.{
  is_current, is_open, closed, is_open_of, is_user, is_active_user, logged_in, find_active_session,
  create_session, revoke_session, close_sessions, change_user, update_found, update_managed_user,
  is_active, keys_revoked, UpdateManagedUserResult, last_active_local_admin, updated, given_or,
  is_admin, can_administer, another_admin, removes_active_admin,
}

abbrev pub has_token : ℕ → Session → Bool
has_token token s = s.token_hash == token

not_current :
    (token now : ℕ) (users : List User) (ss : List Session)
    → any (has_token token) ss ≡ false
    → find (is_current token now users) ss ≡ none
not_current token now users [] h = refl
not_current token now users (s ∷ ss) h = ground (arith, h, not_current token now users ss)

active-logged_in :
    (user now : ℕ) (us : List User)
    → any (is_active_user user) us ≡ true
    → any (is_active_user user) (update_where (is_active_user user) (logged_in now) us) ≡ true
unfolding update_where
active-logged_in user now [] h = h
active-logged_in user now (u ∷ us) h = ground (arith, h, active-logged_in user now us)

closed-none :
    (token later : ℕ) (now : ℕ) (users : List User) (ss : List Session)
    → find (is_current token later users) (update_where (is_open token) (closed now) ss) ≡ none
unfolding update_where
closed-none token later now users [] = refl
closed-none token later now users (s ∷ ss) = ground (arith, closed-none token later now users ss)

-- A session that is revoked is found at no later time, whatever its user's state.
pub find_active_session-revoke_session :
    (token : ℕ) (actor : Option ℕ) (now later : ℕ) (db : Db)
    → find_active_session token later (revoke_session token now actor db) ≡ none
unfolding find_active_session revoke_session
find_active_session-revoke_session token actor now later db =
    closed-none token later now db.users db.sessions

-- A session that is created under a token that no session has is refused if the user is not active,
-- and otherwise found exactly until it ends.
pub find_active_session-create_session :
    (id user token expires_at now later : ℕ) (audited : Bool) (db : Db)
    → any (has_token token) db.sessions ≡ false
    → let (created, db') = create_session id user token expires_at audited now db in
      (created ≡ any (is_active_user user) db.users)
      × (find_active_session token later db' ≡ (
          if any (is_active_user user) db.users && ltb later expires_at
          then some (record {
            id = id;
            user_id = user;
            token_hash = token;
            expires_at = expires_at;
            revoked_at = none;
          })
          else none))
unfolding find_active_session create_session
find_active_session-create_session id user token expires_at now later audited db fresh = ground (
  arith,
  active-logged_in user now db.users,
  not_current token later db.users db.sessions fresh,
  not_current token later (update_where (is_active_user user) (logged_in now) db.users) db.sessions
      fresh,
)

none_open :
    (user now : ℕ) (ss : List Session)
    → any (is_open_of user) (update_where (is_open_of user) (closed now) ss) ≡ false
unfolding update_where
none_open user now [] = refl
none_open user now (s ∷ ss) = ground (arith, none_open user now ss)

none_live :
    (user : ℕ) (reason : RevokeReason) (now : ℕ) (keys : List ModelKey)
    → any (revocable_for user) (update_where (revocable_for user) (revoke_key reason now) keys)
      ≡ false
unfolding update_where revoke_key
none_live user reason now [] = refl
none_live user reason now (key ∷ keys) = ground (arith, none_live user reason now keys)

keys_revoked-none :
    (target : User) (now : ℕ) (db : Db)
    → is_active target.status ≡ true
    → any (revocable_for target.id) (keys_revoked target UserStatus.disabled now db).model_keys
      ≡ false
unfolding keys_revoked revoke_where
keys_revoked-none target now db e =
    rw e (none_live target.id RevokeReason.user_disabled now db.model_keys)

-- Nothing that authenticates as the user is left.
abbrev pub IsShutOut : User → Db → Type 0
IsShutOut target db =
    (any (is_open_of target.id) db.sessions ≡ false)
    × (is_active target.status ≡ true → any (revocable_for target.id) db.model_keys ≡ false)

change-IsShutOut :
    (target : User) (role : UserRole) (actor : Option ℕ) (now : ℕ) (db : Db)
    → IsShutOut target (change_user target role UserStatus.disabled actor now db)
unfolding change_user close_sessions
change-IsShutOut target role actor now db =
    (none_open target.id now _, λ e. keys_revoked-none target now _ e)

-- An active administrator without whom no one is left who can administer.
abbrev pub is_last_admin : User → List User → Bool
is_last_admin target users =
    is_admin target.role
    && is_active target.status
    && not (any can_administer (delete_where (is_user target.id) users))

another-delete_where :
    (id : ℕ) (users : List User)
    → any (another_admin id) users ≡ any can_administer (delete_where (is_user id) users)
unfolding delete_where
another-delete_where id [] = refl
another-delete_where id (u ∷ us) = ground (arith, another-delete_where id us)

disabling-removes :
    (target : User) (role : UserRole) (users : List User)
    → (removes_active_admin target role UserStatus.disabled
        && not (any (another_admin target.id) users))
      ≡ is_last_admin target users
disabling-removes target role users = ground (arith, another-delete_where target.id users)

-- Refused as the last administrator, or shut out.
abbrev pub Disabled : User → Db → UpdateManagedUserResult → Db → Type 0
Disabled target db result after =
    ((is_last_admin target db.users ≡ true) × (result ≡ last_active_local_admin) × (after ≡ db))
    ⊎ ((is_last_admin target db.users ≡ false)
        × (result ≢ last_active_local_admin)
        × IsShutOut target after)

refused_or :
    (refused : Bool) (target u : User) (db db' : Db)
    → refused ≡ is_last_admin target db.users
    → IsShutOut target db'
    → let (result, after) =
        if◌then◌else◌ {A = UpdateManagedUserResult × Db} refused
          (last_active_local_admin, db)
          (updated u, db') in
      Disabled target db result after
refused_or true target u db db' e k = inl (sym e, refl, refl)
refused_or false target u db db' e k = inr (sym e, (λ q. cc), k)

-- Disabling a user who exists is refused and changes nothing exactly if that is an active administrator
-- without whom no active local administrator is left; if not, no session of the user is open any
-- more, and no model key is live if the user was active.
pub update_managed_user-IsShutOut :
    (id : ℕ) (role : Option UserRole) (actor : Option ℕ) (now : ℕ) (db : Db) (target : User)
    → find (is_user id) db.users ≡ some target
    → let (result, after) = update_managed_user id role (some UserStatus.disabled) actor now db in
      Disabled target db result after
unfolding update_managed_user update_found
update_managed_user-IsShutOut id role actor now db target e =
    rw (e, update_found)
      (refused_or _ target _ db _ (disabling-removes target (given_or role target.role) db.users)
        (change-IsShutOut target (given_or role target.role) actor now db))
