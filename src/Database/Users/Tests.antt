-- ===== src/Database/Users/Tests.antt =====
-- The sample users: an administrator and an owner with one session and one model key.
use pi_container.Prelude.{
  ℕ, ◌≡◌, refl, true, false, ◌&&◌, none, some, List, [], ◌∷◌, any, find, ltb, arith, if◌then◌else◌,
}
use pi_container.Database.Samples.{small_db, owner_row}
use pi_container.Database.Records.{UserStatus}
use pi_container.Database.Users.{
  is_user, find_active_session, create_session, update_managed_user, is_active_user,
}
use pi_container.Database.Users.Admins.{IsManageable, run_users-IsManageable}
use pi_container.Database.Users.Sessions.{
  Disabled, update_managed_user-IsShutOut, find_active_session-create_session, has_token,
}
use pi_container.Database.Users.Requests.{UserRequest, run_users, updates_user, resets_password}

abbrev requests : List (ℕ × UserRequest)
requests =
    (200, updates_user 2 none (some UserStatus.disabled) none)
    ∷ (210, resets_password 2 22 none)
    ∷ []

run_users-IsManageable_example : IsManageable (run_users requests small_db)
run_users-IsManageable_example =
    run_users-IsManageable requests small_db (((ground arith, tt), (tt, tt)), refl)

owner-found : find (is_user 3) small_db.users ≡ some owner_row
owner-found = refl

update_managed_user-IsShutOut_example :
    let (result, after) =
      update_managed_user 3 none (some UserStatus.disabled) (some 2) 200 small_db in
    Disabled owner_row small_db result after
update_managed_user-IsShutOut_example =
    update_managed_user-IsShutOut 3 none (some 2) 200 small_db owner_row owner-found

no_token : any (has_token 72) small_db.sessions ≡ false
no_token = refl

find_active_session-create_session_example :
    let (created, db') = create_session 73 3 72 900 true 200 small_db in
    (created ≡ any (is_active_user 3) small_db.users)
    × (find_active_session 72 300 db' ≡ (
        if any (is_active_user 3) small_db.users && ltb 300 900
        then some
            (record { id = 73; user_id = 3; token_hash = 72; expires_at = 900; revoked_at = none })
        else none))
find_active_session-create_session_example =
    find_active_session-create_session 73 3 72 900 200 300 true small_db no_token
