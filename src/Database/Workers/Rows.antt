-- ===== src/Database/Workers/Rows.antt =====
-- What the calls on a Worker do to the rows of `workspaces`: those that it reported go offline.
use pi_container.Prelude.{
  ℕ, Bool, true, false, Option, none, some, List, [], ◌∷◌, ◌≡◌, refl, sym, ap, ◌∙◌, ◌||◌, select,
  subst, find, Bool-cases, inl, inr, arith, length, ◌==◌,
}
use pi_container.Prelude.Table.{update_where}
use pi_container.Database.Records.{Workspace, Worker, WorkerStatus}
use pi_container.Database.Tables.{Db, update_workspaces, update_workers, request_revoke}
use pi_container.Database.Recovery.{went_offline, is_assigned_to}
use pi_container.Database.Coherence.{Allowed}
use pi_container.Database.Workers.{
  is_reported, forget_reports, forget_each, revoke_each, record_disable, after_disable,
  disable_found, disable_worker, rotate_worker_credential, mark_workers_offline, is_worker_id,
  credential_rotated, is_silent, lost_contact,
}

-- Two updates that set the same, the second for none of the rows that the first one changed.
update_where-update_where {ℓ} :
    {A : Type ℓ} (p q : A → Bool) (f : A → A)
    → ((a : A) → q (f a) ≡ false)
    → (xs : List A) → update_where q f (update_where p f xs) ≡ update_where (λ a. p a || q a) f xs
unfolding update_where
update_where-update_where p q f h [] = refl
update_where-update_where p q f h (x ∷ xs) =
    let rest = update_where-update_where p q f h xs in
    elim (Bool-cases (p x)) [ inl e ↦ rw (e, h x, rest) refl | inr e ↦ rw (e, rest) refl ]

-- Reported by one of the Workers.
abbrev pub is_reported_by : List Worker → Workspace → Bool
is_reported_by [] w = false
is_reported_by (v ∷ vs) w = is_reported v.id w || is_reported_by vs w

went_offline-unreported :
    (vs : List Worker) (now : ℕ) (w : Workspace) → is_reported_by vs (went_offline now w) ≡ false
unfolding went_offline
went_offline-unreported [] now w = refl
went_offline-unreported (v ∷ vs) now w = ground (arith, went_offline-unreported vs now w)

is_reported-Allowed :
    (worker now : ℕ) (w : Workspace) → is_reported worker w ≡ true → Allowed w (went_offline now w)
unfolding went_offline is_assigned_to
is_reported-Allowed worker now w h c = ground (arith, h, c)

is_reported_by-Allowed :
    (vs : List Worker) (now : ℕ) (w : Workspace)
    → is_reported_by vs w ≡ true
    → Allowed w (went_offline now w)
is_reported_by-Allowed [] now w h c = absurd (ground (arith, h))
is_reported_by-Allowed (v ∷ vs) now w h c = elim (Bool-cases (is_reported v.id w)) [
  | inl e ↦ is_reported-Allowed v.id now w e c
  | inr e ↦ is_reported_by-Allowed vs now w (ground (arith, h, e)) c
]

update_where-nothing {ℓ} :
    {A : Type ℓ} (f : A → A) (xs : List A) → update_where (λ a. false) f xs ≡ xs
unfolding update_where
update_where-nothing f [] = refl
update_where-nothing f (x ∷ xs) = ap (λ ys. x ∷ ys) (update_where-nothing f xs)

pub workspaces-forget_each :
    (now : ℕ) (vs : List Worker) (db : Db)
    → (forget_each now vs db).workspaces
      ≡ update_where (is_reported_by vs) (went_offline now) db.workspaces
unfolding forget_each forget_reports update_workspaces
workspaces-forget_each now [] db = sym (update_where-nothing (went_offline now) db.workspaces)
workspaces-forget_each now (v ∷ vs) db =
    workspaces-forget_each now vs _
    ∙ update_where-update_where (is_reported v.id) (is_reported_by vs) (went_offline now)
        (went_offline-unreported vs now) db.workspaces

workspaces-revoke_each :
    (now : ℕ) (ws : List Workspace) (result : ℕ × Db)
    → (revoke_each now ws result).1.workspaces ≡ result.1.workspaces
unfolding revoke_each request_revoke
workspaces-revoke_each now [] result = refl
workspaces-revoke_each now (w ∷ ws) (count, db) = workspaces-revoke_each now ws _

workspaces-after_disable :
    (worker : ℕ) (status : WorkerStatus) (now : ℕ) (db : Db)
    → (after_disable worker status now db).1.workspaces
      ≡ update_where (is_reported worker) (went_offline now) db.workspaces
unfolding after_disable record_disable forget_reports update_workspaces
workspaces-after_disable worker status now db =
    let offline = forget_reports worker now db in
    workspaces-revoke_each now (select (is_assigned_to worker) offline.workspaces) (0, offline)

-- What holds of the rows, and when rows go offline as the state machine allows, holds after each call.
module _ {ℓ} (P : List Workspace → Type ℓ) (now : ℕ) (db : Db) (same : P db.workspaces)
    (offline : (p : Workspace → Bool)
      → ((w : Workspace) → p w ≡ true → Allowed w (went_offline now w))
      → P (update_where p (went_offline now) db.workspaces)) where
  one_offline :
      (worker : ℕ) → P (update_where (is_reported worker) (went_offline now) db.workspaces)
  one_offline worker = offline (is_reported worker) (is_reported-Allowed worker now)

  pub workspaces-rotate_credential :
      (worker hash : ℕ) → P (rotate_worker_credential worker hash now db).1.workspaces
  unfolding rotate_worker_credential update_workers forget_reports update_workspaces
  workspaces-rotate_credential worker hash =
      elim (Bool-cases
        (length (update_workers (is_worker_id worker) (credential_rotated hash now) db).0 == 1)) [
          | inl e ↦ rw (e, rotate_worker_credential) (one_offline worker)
          | inr e ↦ rw (e, rotate_worker_credential) same
        ]

  found_disabled :
      (found : Option Worker) (worker : ℕ) → P (disable_found found worker now db).1.workspaces
  unfolding disable_found
  found_disabled none worker = same
  found_disabled (some w) worker = elim (Bool-cases w.enabled) [
    | inl e ↦
        rw (e, disable_found)
          (subst P (sym (workspaces-after_disable worker w.status now _)) (one_offline worker))
    | inr e ↦ rw (e, disable_found) same
  ]

  pub workspaces-disable : (worker : ℕ) → P (disable_worker worker now db).1.workspaces
  unfolding disable_worker
  workspaces-disable worker = found_disabled (find (is_worker_id worker) db.workers) worker

  pub workspaces-mark_offline : (cutoff : ℕ) → P (mark_workers_offline cutoff now db).1.workspaces
  unfolding mark_workers_offline update_workers
  workspaces-mark_offline cutoff =
      let rows = (update_workers (is_silent cutoff) (lost_contact now) db).0 in
      subst P (sym (workspaces-forget_each now rows _))
        (offline (is_reported_by rows) (is_reported_by-Allowed rows now))
