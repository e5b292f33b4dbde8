-- ===== src/Database/Users/Admins.antt =====
-- An active local administrator remains: what `pg_advisory_xact_lock` and the count are for.
use mathlib.Core.Option.{some-injective}
use pi_container.Prelude.{
  sym, subst, Distinct, All, ◌≢◌, ℕ, ◌≡◌, Bool, true, false, List, [], ◌∷◌, any, arith, ◌&&◌,
  Bool-cases, inl, inr, ==_iff, mem_of_find, refl, none, if◌then◌else◌,
}
use pi_container.Prelude.Table.{update_where}
use pi_container.Database.Records.{User, UserRole, UserStatus}
use pi_container.Database.Users.{
  can_administer, is_user, managed, removes_active_admin, not, change_user, find, Option, some, Db,
  update_found, conflicts, create_user, create_session, revoke_session, update_managed_user,
  reset_local_password, revoke_user_sessions, is_active_user, logged_in, has_local_password,
  given_or,
}
use pi_container.Database.Users.Requests.{
  UserRequest, apply_user, run_users, created_or, creates_user, creates_session, revokes_session,
  updates_user, resets_password, revokes_sessions,
}

abbrev pub has_admin : List User → Bool
has_admin users = any can_administer users

abbrev pub user_key : User → ℕ
user_key u = u.id

-- An update that leaves whoever could administer able to.
has_admin-update_where :
    (p : User → Bool) (f : User → User) (us : List User)
    → ((u : User) → can_administer u ≡ true → can_administer (f u) ≡ true)
    → has_admin us ≡ true
    → has_admin (update_where p f us) ≡ true
unfolding update_where
has_admin-update_where p f [] k h = h
has_admin-update_where p f (u ∷ us) k h = ground (arith, k u, has_admin-update_where p f us k, h)

-- Those with another ID are left alone.
abbrev another : ℕ → User → Bool
another id u = not (is_user id u) && can_administer u

has_admin-another :
    (id : ℕ) (f : User → User) (us : List User)
    → any (another id) us ≡ true
    → has_admin (update_where (is_user id) f us) ≡ true
unfolding update_where
has_admin-another id f [] h = ground (arith, h)
has_admin-another id f (u ∷ us) h = ground (arith, has_admin-another id f us, h)

managed-kept :
    (target : User) (role : UserRole) (status : UserStatus) (now : ℕ) (u : User)
    → removes_active_admin target role status ≡ false
    → can_administer target ≡ true
    → can_administer u ≡ true
    → can_administer (managed role status now u) ≡ true
managed-kept target role status now u h k l = ground arith

users-change_user :
    (target : User) (role : UserRole) (status : UserStatus) (actor : Option ℕ) (now : ℕ) (db : Db)
    → (change_user target role status actor now db).users
      ≡ update_where (is_user target.id) (managed role status now) db.users
unfolding change_user
users-change_user target role status actor now db = ground arith

another_among :
    (id : ℕ) (us : List User)
    → All (λ (u : User). u.id ≢ id) us
    → has_admin us ≡ true
    → any (another id) us ≡ true
another_among id [] d h = ground (arith, h)
another_among id (u ∷ us) d h = ground (arith, h, d.0, another_among id us d.1)

another_admin_of :
    (id : ℕ) (target : User) (us : List User)
    → Distinct user_key us
    → find (is_user id) us ≡ some target
    → can_administer target ≡ false
    → has_admin us ≡ true
    → any (another id) us ≡ true
another_admin_of id target [] d e n h = ground (arith, h)
another_admin_of id target (u ∷ us) d e n h = elim (Bool-cases (is_user id u)) [
  | inl same ↦
      let is_target : u ≡ target = some-injective u target (rw same at e) in
      let same_id : u.id ≡ id = ground (arith, same) in
      let fails : can_administer u ≡ false =
        subst (λ t. can_administer t ≡ false) (sym is_target) n in
      let rest =
        another_among id us (subst (λ k. All (λ (y : User). y.id ≢ k) us) same_id d.0)
          (ground (arith, h, fails)) in
      ground (arith, rest)
  | inr other ↦ ground (arith, other, h, e, another_admin_of id target us d.1)
]

-- What a method must keep: no two users have the same ID, and one of them can administer.
abbrev pub IsManageable : Db → Type 0
IsManageable db = Distinct user_key db.users × (has_admin db.users ≡ true)

absent-update_where :
    (id : ℕ) (p : User → Bool) (f : User → User) (us : List User)
    → ((u : User) → (f u).id ≡ u.id)
    → All (λ (u : User). u.id ≢ id) us
    → All (λ (u : User). u.id ≢ id) (update_where p f us)
unfolding update_where
absent-update_where id p f [] k h = tt
absent-update_where id p f (u ∷ us) k h =
    (ground (arith, k u, h.0), absent-update_where id p f us k h.1)

Distinct-update_where :
    (p : User → Bool) (f : User → User) (us : List User)
    → ((u : User) → (f u).id ≡ u.id)
    → Distinct user_key us
    → Distinct user_key (update_where p f us)
unfolding update_where
Distinct-update_where p f [] k d = tt
Distinct-update_where p f (u ∷ us) k d = elim (Bool-cases (p u)) [
  | inl e ↦ rw e (
    subst (λ id. All (λ (y : User). y.id ≢ id) (update_where p f us)) (sym (k u))
        (absent-update_where u.id p f us k d.0),
    Distinct-update_where p f us k d.1,
  )
  | inr e ↦ rw e (absent-update_where u.id p f us k d.0, Distinct-update_where p f us k d.1)
]

-- Updates that take nobody the power to administer.
updated-IsManageable :
    (p : User → Bool) (f : User → User) (us : List User)
    → ((u : User) → (f u).id ≡ u.id)
    → ((u : User) → can_administer u ≡ true → can_administer (f u) ≡ true)
    → Distinct user_key us × (has_admin us ≡ true)
    → Distinct user_key (update_where p f us) × (has_admin (update_where p f us) ≡ true)
updated-IsManageable p f us k c (d, h) =
    (Distinct-update_where p f us k d, has_admin-update_where p f us c h)

changed-has_admin :
    (id : ℕ) (target : User) (role : UserRole) (status : UserStatus) (now : ℕ) (us : List User)
    → Distinct user_key us
    → has_admin us ≡ true
    → find (is_user id) us ≡ some target
    → removes_active_admin target role status ≡ false
    → has_admin (update_where (is_user id) (managed role status now) us) ≡ true
changed-has_admin id target role status now us d h e n = elim (Bool-cases (can_administer target)) [
  | inl c ↦
      has_admin-update_where (is_user id) (managed role status now) us
        (λ u k. managed-kept target role status now u n c k) h
  | inr c ↦
      has_admin-another id (managed role status now) us (another_admin_of id target us d e c h)
]

update-IsManageable :
    (id : ℕ) (target : User) (role : UserRole) (status : UserStatus) (actor : Option ℕ) (now : ℕ)
    (db : Db)
    → find (is_user id) db.users ≡ some target
    → (removes_active_admin target role status && not (any (another target.id) db.users)) ≡ false
    → IsManageable db
    → IsManageable (change_user target role status actor now db)
update-IsManageable id target role status actor now db e allowed (d, h) =
    let same : target.id ≡ id =
      (==_iff target.id id).0 (mem_of_find (is_user id) target db.users e).1 in
    let f = managed role status now in
    rw (users-change_user target role status actor now db) (
      Distinct-update_where (is_user target.id) f db.users (λ u. refl) d,
      elim (Bool-cases (removes_active_admin target role status)) [
        | inl removes ↦ has_admin-another target.id f db.users (ground (arith, removes, allowed))
        | inr keeps ↦
            changed-has_admin target.id target role status now db.users d h
              (subst (λ k. find (is_user k) db.users ≡ some target) (sym same) e) keeps
      ],
    )

found-IsManageable :
    (id : ℕ) (found : Option User) (role : Option UserRole) (status : Option UserStatus)
    (actor : Option ℕ) (now : ℕ) (db : Db)
    → find (is_user id) db.users ≡ found
    → IsManageable db
    → IsManageable (update_found found role status actor now db).1
unfolding update_found
found-IsManageable id none role status actor now db e m = m
found-IsManageable id (some target) role status actor now db e m =
    let role' = given_or role target.role in
    let status' = given_or status target.status in
    elim (Bool-cases
      (removes_active_admin target role' status' && not (any (another target.id) db.users))) [
        | inl refused ↦ rw refused m
        | inr allowed ↦
            rw allowed (update-IsManageable id target role' status' actor now db e allowed m)
      ]

create-IsManageable :
    (id email : ℕ) (username : Option ℕ) (us : List User)
    → any (conflicts id email username) us ≡ false
    → All (λ (u : User). u.id ≢ id) us
unfolding conflicts
create-IsManageable id email username [] h = tt
create-IsManageable id email none (u ∷ us) h =
    (ground (arith, h), create-IsManageable id email none us (ground (arith, h)))
create-IsManageable id email (some username) (u ∷ us) h =
    (ground (arith, h), create-IsManageable id email (some username) us (ground (arith, h)))

created_or-IsManageable :
    (conflict : Bool) (db : Db) (row : User) (db' : Db)
    → IsManageable db
    → (conflict ≡ false → IsManageable db')
    → IsManageable (created_or db (if conflict then none else some (row, db')))
created_or-IsManageable true db row db' m k = m
created_or-IsManageable false db row db' m k = k refl

either-IsManageable :
    (test a b : Bool) (db db' : Db)
    → IsManageable db'
    → IsManageable db
    → IsManageable (if◌then◌else◌ {A = Bool × Db} test (a, db') (b, db)).1
either-IsManageable true a b db db' k m = k
either-IsManageable false a b db db' k m = m

apply_user-IsManageable :
    (now : ℕ) (request : UserRequest) (db : Db)
    → IsManageable db
    → IsManageable (apply_user now request db)
unfolding apply_user create_user create_session revoke_session update_managed_user
    reset_local_password revoke_user_sessions
apply_user-IsManageable now (creates_user id email username hash role actor) db m =
    created_or-IsManageable (any (conflicts id email username) db.users) db _ _ m
      λ e. ((create-IsManageable id email username db.users e, m.0), ground (arith, m.1))
apply_user-IsManageable now (creates_session id user token expires_at audited) db m =
    either-IsManageable (any (is_active_user user) db.users) true false db _
      (updated-IsManageable (is_active_user user) (logged_in now) db.users (λ u. refl) (λ u k. k) m)
      m
apply_user-IsManageable now (revokes_session token actor) db m = m
apply_user-IsManageable now (updates_user id role status actor) db m =
    found-IsManageable id _ role status actor now db refl m
apply_user-IsManageable now (resets_password id hash actor) db m =
    updated-IsManageable (has_local_password id) _ db.users (λ u. refl) (λ u k. ground (arith, k)) m
apply_user-IsManageable now (revokes_sessions id actor) db m =
    either-IsManageable (any (is_user id) db.users) true false db _ m m

-- After any calls that create users and sessions, change roles and states, reset passwords or revoke
-- sessions, some active local administrator with a login is left, and no two users have the same
-- ID, if it was so before.
pub run_users-IsManageable :
    (requests : List (ℕ × UserRequest)) (db : Db)
    → IsManageable db
    → IsManageable (run_users requests db)
unfolding run_users
run_users-IsManageable [] db m = m
run_users-IsManageable ((now, request) ∷ requests) db m =
    run_users-IsManageable requests (apply_user now request db)
      (apply_user-IsManageable now request db m)
