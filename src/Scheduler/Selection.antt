-- ===== src/Scheduler/Selection.antt =====
-- What the selector promises: it never throws, and it returns a least loaded Worker among those that
-- are compatible, or nothing when there is none.
use mathlib.Core.Option.{some-injective}
use pi_container.Prelude.{
  ℕ, true, Option, none, some, List, [], ◌∷◌, ◌≡◌, refl, subst, ◌⊎◌, inl, inr, Memᴰ, All, select,
  arith, sym, All-select, mem_of_select, ◌∙◌,
}
use pi_container.Database.Records.{is_online}
use pi_container.Database.Scheduling.{WorkerScheduleCandidate, WorkerSelectionInput}
use pi_container.Scheduler.{is_compatible, has_room, select_worker, first}
use pi_container.Scheduler.Load.{NoWorse, HasRoom, BestFirst, sort_by_load-BestFirst}

-- What a Worker must meet before anything is placed on it.
pub record Eligible (input : WorkerSelectionInput) (c : WorkerScheduleCandidate) : Type 0 where
  pub enabled : c.enabled ≡ true
  pub schedulable : c.schedulable ≡ true
  pub online : is_online c.status ≡ true
  pub room : HasRoom c
  pub egress_enforced : c.egress_enforced ≡ true
  pub current_policy : c.egress_revision ≡ some input.egress_revision
  pub storage_enforced : c.storage_enforced ≡ true

has_room-HasRoom :
    (c : WorkerScheduleCandidate) (limit : Option ℕ)
    → c.max_workspaces ≡ limit
    → has_room c.assigned_workspaces limit ≡ true
    → HasRoom c
has_room-HasRoom c none e h = cc
has_room-HasRoom c (some m) e h = (m, e, ground arith)

is_compatible-HasRoom :
    (input : WorkerSelectionInput) (c : WorkerScheduleCandidate)
    → is_compatible input c ≡ true
    → HasRoom c
unfolding is_compatible
is_compatible-HasRoom input c h = has_room-HasRoom c c.max_workspaces refl (ground arith)

is_compatible-Eligible :
    (input : WorkerSelectionInput) (c : WorkerScheduleCandidate)
    → is_compatible input c ≡ true
    → Eligible input c
unfolding is_compatible
is_compatible-Eligible input c h = record {
  enabled = ground arith;
  schedulable = ground arith;
  online = ground arith;
  room = is_compatible-HasRoom input c h;
  egress_enforced = ground arith;
  current_policy = ground arith;
  storage_enforced = ground arith;
}

eligible : WorkerSelectionInput → List WorkerScheduleCandidate
eligible input = select (is_compatible input) input.candidates

abbrev Chooses : List WorkerScheduleCandidate → Option (Option WorkerScheduleCandidate) → Type 0
Chooses [] r = r ≡ some none
Chooses (x ∷ xs) r =
    (c : WorkerScheduleCandidate) × (r ≡ some (some c)) × Memᴰ c (x ∷ xs) × All (NoWorse c) (x ∷ xs)

first-Chooses :
    (xs : List WorkerScheduleCandidate) (r : Option (List WorkerScheduleCandidate))
    → BestFirst xs r
    → Chooses xs (first r)
unfolding first
first-Chooses [] r h = rw (h, first) refl
first-Chooses (x ∷ xs) r (h, zs, e, ok, member, best) = (h, rw (e, first) refl, member, best)

pub record Selected (input : WorkerSelectionInput) (c : WorkerScheduleCandidate) : Type 0 where
  pub chosen : select_worker input ≡ some (some c)
  pub listed : Memᴰ c input.candidates
  pub eligible : Eligible input c
  pub best : All (NoWorse c) (select (is_compatible input) input.candidates)

-- No candidate is compatible.
abbrev pub NobodyFits : WorkerSelectionInput → Type 0
NobodyFits input = select (is_compatible input) input.candidates ≡ []

choice_cases :
    (input : WorkerSelectionInput) (xs : List WorkerScheduleCandidate)
    → xs ≡ select (is_compatible input) input.candidates
    → Chooses xs (select_worker input)
    → ((select_worker input ≡ some none) × NobodyFits input)
      ⊎ ((c : WorkerScheduleCandidate) × Selected input c)
choice_cases input [] e h = inl (h, sym e)
choice_cases input (x ∷ xs) e (c, r, member, best) =
    let (listed, fits) =
      mem_of_select (is_compatible input) c input.candidates (subst (Memᴰ c) e member) in
    inr (
      c,
      record {
        chosen = r;
        listed = listed;
        eligible = is_compatible-Eligible input c fits;
        best = subst (All (NoWorse c)) e best;
      },
    )

-- The selector never throws. It returns nothing exactly when nobody fits, and otherwise an eligible
-- candidate whose share of used capacity is least among the compatible ones, ties going to the
-- smaller ID.
pub select_worker-Selected :
    (input : WorkerSelectionInput)
    → ((select_worker input ≡ some none) × NobodyFits input)
      ⊎ ((c : WorkerScheduleCandidate) × Selected input c)
select_worker-Selected input = choice_cases input _ refl (
    unfold select_worker in
    first-Chooses _ _ (
      sort_by_load-BestFirst _
        (All-select (is_compatible input) (is_compatible-HasRoom input) input.candidates)))

-- What is known of a candidate that was returned.
pub Selected-of_chosen :
    (input : WorkerSelectionInput) (c : WorkerScheduleCandidate)
    → select_worker input ≡ some (some c)
    → Selected input c
Selected-of_chosen input c e = elim (select_worker-Selected input) [
  | inl (nobody, _) ↦ absurd (let k : some (some c) ≡ some none = sym e ∙ nobody in cc)
  | inr (d, s) ↦
      let same : d ≡ c = some-injective d c (some-injective (some d) (some c) (sym s.chosen ∙ e)) in
      subst (Selected input) same s
]
