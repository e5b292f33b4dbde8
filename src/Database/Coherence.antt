-- ===== src/Database/Coherence.antt =====
-- Which combinations of columns a Workspace row may have, and how a row may change, stated apart from
-- the code: the state, its assignment, the desired state and a Runtime change agree.
use pi_container.Prelude.{ℕ, Bool, true, false, ◌&&◌, not, Option, none, is_null, ◌≡◌, ◌⊎◌}
use pi_container.Database.Records.{WorkspaceState, DesiredState, Workspace, desires}

abbrev pub fits : WorkspaceState → Option ℕ → DesiredState → Option ℕ → Option ℕ → Bool
fits WorkspaceState.created worker desired previous changed = is_null worker
fits WorkspaceState.scheduling worker desired previous changed = false
fits WorkspaceState.starting worker desired previous changed =
    not (is_null worker) && desires desired DesiredState.running
fits WorkspaceState.stopping worker desired previous changed =
    not (is_null worker) && desires desired DesiredState.stopped
fits WorkspaceState.deleting worker desired previous changed =
    not (is_null worker) && desires desired DesiredState.deleted
fits WorkspaceState.upgrading worker desired previous changed =
    not (is_null worker)
    && desires desired DesiredState.stopped
    && not (is_null previous)
    && is_null changed
fits _ worker desired previous changed = not (is_null worker)

-- A Worker exactly when the Workspace has left CREATED; STARTING means to run, STOPPING and
-- UPGRADING to be stopped, DELETING to be deleted; a change in progress names its source image.
abbrev pub IsCoherent : Workspace → Type 0
IsCoherent w =
    fits w.state w.worker_id w.desired_state w.previous_runtime_image w.runtime_changed_at ≡ true

-- The state machine of a Workspace.
abbrev pub may_follow : WorkspaceState → WorkspaceState → Bool
may_follow WorkspaceState.created WorkspaceState.created = true
may_follow WorkspaceState.created WorkspaceState.starting = true
may_follow WorkspaceState.starting WorkspaceState.starting = true
may_follow WorkspaceState.starting WorkspaceState.running = true
may_follow WorkspaceState.starting WorkspaceState.error = true
may_follow WorkspaceState.starting WorkspaceState.worker_offline = true
may_follow WorkspaceState.running WorkspaceState.running = true
may_follow WorkspaceState.running WorkspaceState.stopping = true
may_follow WorkspaceState.running WorkspaceState.error = true
may_follow WorkspaceState.running WorkspaceState.deleting = true
may_follow WorkspaceState.running WorkspaceState.worker_offline = true
may_follow WorkspaceState.stopping WorkspaceState.stopping = true
may_follow WorkspaceState.stopping WorkspaceState.stopped = true
may_follow WorkspaceState.stopping WorkspaceState.error = true
may_follow WorkspaceState.stopping WorkspaceState.worker_offline = true
may_follow WorkspaceState.stopped WorkspaceState.stopped = true
may_follow WorkspaceState.stopped WorkspaceState.starting = true
may_follow WorkspaceState.stopped WorkspaceState.deleting = true
may_follow WorkspaceState.stopped WorkspaceState.upgrading = true
may_follow WorkspaceState.stopped WorkspaceState.worker_offline = true
may_follow WorkspaceState.deleting WorkspaceState.deleting = true
may_follow WorkspaceState.deleting WorkspaceState.error = true
may_follow WorkspaceState.deleting WorkspaceState.worker_offline = true
may_follow WorkspaceState.error WorkspaceState.error = true
may_follow WorkspaceState.error WorkspaceState.starting = true
may_follow WorkspaceState.error WorkspaceState.deleting = true
may_follow WorkspaceState.error WorkspaceState.upgrading = true
may_follow WorkspaceState.error WorkspaceState.worker_offline = true
may_follow WorkspaceState.worker_offline WorkspaceState.worker_offline = true
may_follow WorkspaceState.worker_offline WorkspaceState.starting = true
may_follow WorkspaceState.worker_offline WorkspaceState.deleting = true
may_follow WorkspaceState.worker_offline WorkspaceState.running = true
may_follow WorkspaceState.worker_offline WorkspaceState.stopped = true
may_follow WorkspaceState.worker_offline WorkspaceState.error = true
may_follow WorkspaceState.upgrading WorkspaceState.upgrading = true
may_follow WorkspaceState.upgrading WorkspaceState.stopped = true
may_follow WorkspaceState.upgrading WorkspaceState.error = true
may_follow WorkspaceState.upgrading WorkspaceState.worker_offline = true
may_follow _ _ = false

-- What a statement may do to a row.
pub record Changes (old new : Workspace) : Type 0 where
  pub same_id : new.id ≡ old.id
  pub same_owner : new.user_id ≡ old.user_id
  pub same_name : new.name ≡ old.name
  pub sticky : (old.worker_id ≡ none) ⊎ (new.worker_id ≡ old.worker_id)
  pub follows : may_follow old.state new.state ≡ true
  pub coherent : IsCoherent new

-- The change that a statement may make to a coherent row.
abbrev pub Allowed : Workspace → Workspace → Type 0
Allowed old new = IsCoherent old → Changes old new

-- A row that may be deleted: never started, being deleted, or to be deleted and then lost.
abbrev pub may_delete : WorkspaceState → Option ℕ → DesiredState → Bool
may_delete WorkspaceState.created none desired = true
may_delete WorkspaceState.deleting worker desired = true
may_delete WorkspaceState.worker_offline worker desired = desires desired DesiredState.deleted
may_delete _ worker desired = false

abbrev pub Deletable : Workspace → Type 0
Deletable w = may_delete w.state w.worker_id w.desired_state ≡ true

abbrev pub Fresh : Workspace → Type 0
Fresh w = (w.state ≡ WorkspaceState.created) × (w.worker_id ≡ none)
