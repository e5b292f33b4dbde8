-- ===== src/Database/Workspaces.antt =====
-- packages/database/src/workspaces.ts: creation, lookup and deletion of Workspaces.
use pi_container.Prelude.{
  ℕ, Bool, ◌&&◌, ◌||◌, not, any, leb, length, if◌then◌else◌, Option, none, some, List, [], String,
  find, select, ◌==◌, is_null,
}
use pi_container.Prelude.Sort.{order_by}
use pi_container.Database.Records.{WorkspaceState, DesiredState, Workspace, User, state_is}
use pi_container.Prelude.Texts.{codes, same_text}
use pi_container.Database.Tables.{Db, insert_workspace, delete_workspaces}
use pi_container.Database.Lifecycle.{one_row}
use pi_container.Database.Scheduling.{is_owned_by}

-- The column defaults of the migrations fill what the insert does not name.
pub new_workspace : ℕ → ℕ → String → ℕ → ℕ → ℕ → Workspace
new_workspace workspace user name image limit now = record {
  id = workspace;
  user_id = user;
  name = name;
  worker_id = none;
  state = WorkspaceState.created;
  desired_state = DesiredState.stopped;
  runtime_image = image;
  required_architecture = none;
  required_capabilities = [];
  previous_runtime_image = none;
  runtime_changed_at = none;
  created_at = now;
  updated_at = now;
  last_activity_at = now;
  last_access_at = none;
  last_stop_reason = none;
  disk = record {
    limit_bytes = limit;
    used_bytes = none;
    used_inodes = none;
    pi_used_bytes = none;
    pi_limit_bytes = none;
    sampled_at = none;
  };
}

-- A row that the insert meets, in the primary key or in `workspaces_user_name_unique`.
abbrev takes_key : ℕ → ℕ → String → Workspace → Bool
takes_key workspace user name w =
    w.id == workspace || w.user_id == user && same_text (codes w.name) (codes name)

-- The constraints of the table: the keys, the owner's row, and `workspaces_name_length`.
abbrev pub fits_table : ℕ → ℕ → String → Db → Bool
fits_table workspace user name db =
    not (any (takes_key workspace user name) db.workspaces)
    && any (λ (u : User). u.id == user) db.users
    && leb 1 (length (codes name))
    && leb (length (codes name)) 80

-- `none` if the insert violates a constraint, which throws.
unfoldable pub create_workspace : ℕ → ℕ → String → ℕ → ℕ → ℕ → Db → Option (Workspace × Db)
unfolding new_workspace
create_workspace workspace user name image limit now db =
    let w = new_workspace workspace user name image limit now in
    if fits_table workspace user name db then some (w, insert_workspace w db) else none

unfoldable pub find_owned_workspace : ℕ → ℕ → Db → Option Workspace
find_owned_workspace workspace user db = find (is_owned_by workspace user) db.workspaces

-- `order by created_at asc, id asc`: the sort is stable, so the ID is the minor key.
unfoldable pub list_workspaces : ℕ → Db → List Workspace
list_workspaces user db =
    order_by (λ (w : Workspace). w.created_at)
      (order_by (λ (w : Workspace). w.id)
        (select (λ (w : Workspace). w.user_id == user) db.workspaces))

unfoldable pub can_delete_owned : ℕ → ℕ → Workspace → Bool
can_delete_owned workspace user w =
    w.id == workspace
    && w.user_id == user
    && is_null w.worker_id
    && state_is w.state WorkspaceState.created

unfoldable pub delete_owned_workspace : ℕ → ℕ → ℕ → Db → Bool × Db
delete_owned_workspace workspace user now db =
    one_row (delete_workspaces now (can_delete_owned workspace user) db)
