-- ===== src/Scheduler.antt =====
-- apps/control-plane/src/scheduler.ts: which Worker a Workspace is placed on.
mod Load
pub mod Selection
pub mod Capacity
mod Tests
use Prim.Native.Nat.{compare, Ordering}
use pi_container.Prelude.{
  ℕ, ◌*◌, Bool, true, false, ◌&&◌, ◌||◌, not, Option, none, some, List, [], ◌∷◌, map, find, select,
  all, any, head, ◌==◌, leb, holds_value, if◌then◌else◌,
}
use pi_container.Database.Records.{
  Architecture, Capability, Capabilities, WorkerRuntimeImage, is_online,
}
use pi_container.Database.Scheduling.{
  WorkspaceSchedulingRequirements, WorkerScheduleCandidate, WorkerSelectionInput,
}

abbrev capability_of : Capabilities → Capability → Bool
capability_of c Capability.browser = c.browser
capability_of c Capability.office = c.office
capability_of c Capability.ffmpeg = c.ffmpeg
capability_of c Capability.python = c.python
capability_of c Capability.node = c.node
capability_of c Capability.rust = c.rust

abbrev equal_flags : Bool → Bool → Bool
equal_flags true b = b
equal_flags false b = not b

-- No requirement, or the required architecture is the reported one.
abbrev same_architecture : Architecture → Option Architecture → Bool
same_architecture Architecture.amd64 (some Architecture.amd64) = true
same_architecture Architecture.arm64 (some Architecture.arm64) = true
same_architecture _ _ = false

abbrev fits_architecture : Option Architecture → Option Architecture → Bool
fits_architecture none reported = true
fits_architecture (some required) reported = same_architecture required reported

abbrev is_fresh : Option ℕ → ℕ → Bool
is_fresh none cutoff = false
is_fresh (some at) cutoff = not (leb at cutoff)

abbrev has_room : ℕ → Option ℕ → Bool
has_room assigned none = false
has_room assigned (some limit) = not (leb limit assigned)

has_capabilities : Option WorkerRuntimeImage → List (Capability × Bool) → Bool
has_capabilities none required = false
has_capabilities (some image) required =
    all
      (λ (entry : Capability × Bool).
        equal_flags (capability_of image.capabilities entry.0) entry.1)
      required

offered_image : WorkerSelectionInput → WorkerScheduleCandidate → Option WorkerRuntimeImage
offered_image input candidate =
    find (λ (entry : WorkerRuntimeImage). entry.image == input.workspace.runtime_image)
      candidate.runtime_images

pub is_compatible : WorkerSelectionInput → WorkerScheduleCandidate → Bool
unfolding has_capabilities offered_image
is_compatible input candidate =
    any (◌==◌ candidate.id) input.connected_worker_ids
    && candidate.enabled
    && candidate.schedulable
    && is_online candidate.status
    && is_fresh candidate.last_heartbeat_at input.heartbeat_cutoff
    && has_room candidate.assigned_workspaces candidate.max_workspaces
    && candidate.egress_enforced
    && holds_value candidate.egress_revision input.egress_revision
    && candidate.storage_enforced
    && fits_architecture input.workspace.required_architecture candidate.architecture
    && has_capabilities (offered_image input candidate) input.workspace.required_capabilities

-- The comparison of two loads by cross-multiplication, then by ID.
compare_scaled : WorkerScheduleCandidate → ℕ → WorkerScheduleCandidate → ℕ → Ordering
compare_scaled left left_max right right_max =
    elim (compare (left.assigned_workspaces * right_max) (right.assigned_workspaces * left_max)) [
      | Ordering.lt ↦ Ordering.lt
      | Ordering.gt ↦ Ordering.gt
      | Ordering.eq ↦ compare left.id right.id
    ]

-- `none` is the thrown error.
compare_load : WorkerScheduleCandidate → WorkerScheduleCandidate → Option Ordering
unfolding compare_scaled
compare_load left right = elim left.max_workspaces [
  | none ↦ none
  | some left_max ↦ elim right.max_workspaces [
    | none ↦ none
    | some right_max ↦ some (compare_scaled left left_max right right_max)
  ]
]

-- `Array.prototype.sort` with a comparator that may throw: a stable insertion sort.
insert_sorted :
    WorkerScheduleCandidate → List WorkerScheduleCandidate → Option (List WorkerScheduleCandidate)
unfolding compare_load
insert_sorted x [] = some (x ∷ [])
insert_sorted x (y ∷ ys) =
    let rest = insert_sorted x ys in
    elim (compare_load x y) [
      | none ↦ none
      | some Ordering.gt ↦ elim rest [ none ↦ none | some zs ↦ some (y ∷ zs) ]
      | some _ ↦ some (x ∷ y ∷ ys)
    ]

pub sort_by_load : List WorkerScheduleCandidate → Option (List WorkerScheduleCandidate)
unfolding insert_sorted
sort_by_load [] = some []
sort_by_load (x ∷ xs) = elim (sort_by_load xs) [ none ↦ none | some ys ↦ insert_sorted x ys ]

first : Option (List WorkerScheduleCandidate) → Option (Option WorkerScheduleCandidate)
first none = none
first (some sorted) = some (head sorted)

unfoldable pub select_worker : WorkerSelectionInput → Option (Option WorkerScheduleCandidate)
unfolding is_compatible sort_by_load first
select_worker input = first (sort_by_load (select (is_compatible input) input.candidates))
