-- ===== src/Scheduler/Load.antt =====
-- The order of candidates by load: shares of the capacity used, then IDs, as the comparison of
-- apps/control-plane/src/scheduler.ts computes it without division.
use Prim.Native.Nat.{Ordering}
use native.Mathlib.Nat.{mul-le-mul_right, le_of_mul-le-mul_right}
use pi_container.Prelude.{
  ℕ, ◌*◌, ◌≤◌, ◌<◌, ◌≡◌, refl, ◌≢◌, ◌⊎◌, inl, inr, Option, some, arith, List, ◌∷◌, All, Memᴰ, [],
  subst, sym,
}
use pi_container.Database.Scheduling.{WorkerScheduleCandidate}
use pi_container.Scheduler.{compare_scaled, compare_load, insert_sorted, sort_by_load}

-- `assigned / limit` is smaller on the left, or the same with a smaller ID.
abbrev NotAfter : ℕ → ℕ → ℕ → ℕ → ℕ → ℕ → Type 0
NotAfter a am aid b bm bid = (a * bm < b * am) ⊎ ((a * bm ≡ b * am) × (aid ≤ bid))

abbrev pub NoWorse : WorkerScheduleCandidate → WorkerScheduleCandidate → Type 0
NoWorse left right =
    (lm : ℕ) × (rm : ℕ) × (left.max_workspaces ≡ some lm)
    × (right.max_workspaces ≡ some rm)
    × NotAfter left.assigned_workspaces lm left.id right.assigned_workspaces rm right.id

-- A declared capacity that is not used up.
abbrev pub HasRoom : WorkerScheduleCandidate → Type 0
HasRoom c = (m : ℕ) × (c.max_workspaces ≡ some m) × (c.assigned_workspaces < m)

cross_le : (a am b bm c cm : ℕ) → 0 < bm → a * bm ≤ b * am → b * cm ≤ c * bm → a * cm ≤ c * am
cross_le a am b bm c cm pos h k =
    le_of_mul-le-mul_right {k = bm} (omega (arith, mul-le-mul_right cm h, mul-le-mul_right am k))
      pos

NotAfter-trans :
    (a am aid b bm bid c cm cid : ℕ)
    → 0 < am
    → 0 < bm
    → 0 < cm
    → NotAfter a am aid b bm bid
    → NotAfter b bm bid c cm cid
    → NotAfter a am aid c cm cid
NotAfter-trans a am aid b bm bid c cm cid pa pb pc h k =
    ground
      (arith, cross_le a am b bm c cm pb, cross_le c cm a am b bm pa, cross_le b bm c cm a am pc)

compare_scaled-lt :
    (l : WorkerScheduleCandidate) (lm : ℕ) (r : WorkerScheduleCandidate) (rm : ℕ)
    → ((compare_scaled l lm r rm ≡ Ordering.gt)
        × NotAfter r.assigned_workspaces rm r.id l.assigned_workspaces lm l.id)
      ⊎ ((compare_scaled l lm r rm ≢ Ordering.gt)
          × NotAfter l.assigned_workspaces lm l.id r.assigned_workspaces rm r.id)
unfolding compare_scaled
compare_scaled-lt l lm r rm = ground arith

compare_load-some :
    (l : WorkerScheduleCandidate) (lm : ℕ) (r : WorkerScheduleCandidate) (rm : ℕ)
    → l.max_workspaces ≡ some lm
    → r.max_workspaces ≡ some rm
    → compare_load l r ≡ some (compare_scaled l lm r rm)
unfolding compare_load
compare_load-some l lm r rm p q = rw (p, q, compare_load)

NoWorse-refl : (c : WorkerScheduleCandidate) → HasRoom c → NoWorse c c
NoWorse-refl c (m, e, room) = (m, m, e, e, inr (refl, omega arith))

NoWorse-trans :
    (a b c : WorkerScheduleCandidate)
    → HasRoom a
    → HasRoom b
    → HasRoom c
    → NoWorse a b
    → NoWorse b c
    → NoWorse a c
NoWorse-trans a b c (am, ea, ra) (bm, eb, rb) (cm, ec, rc) (am', bm', pa, pb, h)
      (bm'', cm', qb, qc, k) =
    (
      am,
      cm,
      ea,
      ec,
      NotAfter-trans a.assigned_workspaces am a.id b.assigned_workspaces bm b.id
          c.assigned_workspaces cm c.id (omega arith) (omega arith) (omega arith) (ground arith)
          (ground arith),
    )

-- Inserting into a list whose candidates have room does not throw, and the new head is the better
-- one of the candidate and the old head.
abbrev NewHead :
    WorkerScheduleCandidate → List WorkerScheduleCandidate → WorkerScheduleCandidate → Type 0
NewHead x [] h = h ≡ x
NewHead x (y ∷ ys) h = ((h ≡ x) × NoWorse x y) ⊎ ((h ≡ y) × NoWorse y x)

abbrev Inserts :
    WorkerScheduleCandidate
    → List WorkerScheduleCandidate
    → Option (List WorkerScheduleCandidate)
    → Type 0
Inserts x ys r =
    (h : WorkerScheduleCandidate) × (zs : List WorkerScheduleCandidate) × (r ≡ some (h ∷ zs))
    × All HasRoom (h ∷ zs)
    × NewHead x ys h

insert_step :
    (x y : WorkerScheduleCandidate) (ys : List WorkerScheduleCandidate)
    → HasRoom x
    → HasRoom y
    → All HasRoom ys
    → Inserts x ys (insert_sorted x ys)
    → Inserts x (y ∷ ys) (insert_sorted x (y ∷ ys))
unfolding insert_sorted
insert_step x y ys (xm, ex, rx) (ym, ey, ry) rs (h, zs, e, ok, new) =
    let c = compare_load-some x xm y ym ex ey in
    elim (compare_scaled-lt x xm y ym) [
      | inl (g, after) ↦
          (y, h ∷ zs, ground (arith, c), ((ym, ey, ry), ok), inr (refl, (ym, xm, ey, ex, after)))
      | inr (g, before) ↦ (
        x,
        y ∷ ys,
        ground (arith, c),
        ((xm, ex, rx), ((ym, ey, ry), rs)),
        inl (refl, (xm, ym, ex, ey, before)),
      )
    ]

insert_sorted-Inserts :
    (x : WorkerScheduleCandidate) (ys : List WorkerScheduleCandidate)
    → HasRoom x
    → All HasRoom ys
    → Inserts x ys (insert_sorted x ys)
unfolding insert_sorted
insert_sorted-Inserts x [] r rs = (x, [], refl, (r, tt), refl)
insert_sorted-Inserts x (y ∷ ys) r rs =
    insert_step x y ys r rs.0 rs.1 (insert_sorted-Inserts x ys r rs.1)

-- What sorting gives: no exception, and a head that is a candidate no worse than any other.
abbrev pub BestFirst : List WorkerScheduleCandidate → Option (List WorkerScheduleCandidate) → Type 0
BestFirst [] r = r ≡ some []
BestFirst (x ∷ xs) r =
    (h : WorkerScheduleCandidate) × (zs : List WorkerScheduleCandidate) × (r ≡ some (h ∷ zs))
    × All HasRoom (h ∷ zs)
    × Memᴰ h (x ∷ xs)
    × All (NoWorse h) (x ∷ xs)

All-NoWorse :
    (a b : WorkerScheduleCandidate) (xs : List WorkerScheduleCandidate)
    → HasRoom a
    → HasRoom b
    → All HasRoom xs
    → NoWorse a b
    → All (NoWorse b) xs
    → All (NoWorse a) xs
All-NoWorse a b [] ra rb rs h k = tt
All-NoWorse a b (x ∷ xs) ra rb rs h k =
    (NoWorse-trans a b x ra rb rs.0 h k.0, All-NoWorse a b xs ra rb rs.1 h k.1)

best_step :
    (x y h : WorkerScheduleCandidate) (xs zs : List WorkerScheduleCandidate)
    → HasRoom x
    → All HasRoom (y ∷ xs)
    → sort_by_load (y ∷ xs) ≡ some (h ∷ zs)
    → HasRoom h
    → Memᴰ h (y ∷ xs)
    → All (NoWorse h) (y ∷ xs)
    → Inserts x (h ∷ zs) (insert_sorted x (h ∷ zs))
    → BestFirst (x ∷ y ∷ xs) (sort_by_load (x ∷ y ∷ xs))
unfolding sort_by_load
best_step x y h xs zs rx rs e rh member best (h', zs', e', ok, inl (same, better)) = (
  h',
  zs',
  rw (e, sort_by_load) e',
  ok,
  Memᴰ.head same,
  subst (λ k. All (NoWorse k) (x ∷ y ∷ xs)) (sym same)
      (NoWorse-refl x rx, All-NoWorse x h (y ∷ xs) rx rh rs better best),
)
best_step x y h xs zs rx rs e rh member best (h', zs', e', ok, inr (same, better)) = (
  h',
  zs',
  rw (e, sort_by_load) e',
  ok,
  Memᴰ.tail (rw same member),
  subst (λ k. All (NoWorse k) (x ∷ y ∷ xs)) (sym same) (better, best),
)

pub sort_by_load-BestFirst :
    (xs : List WorkerScheduleCandidate) → All HasRoom xs → BestFirst xs (sort_by_load xs)
unfolding sort_by_load insert_sorted
sort_by_load-BestFirst [] rs = refl
sort_by_load-BestFirst (x ∷ []) (r, rs) =
    (x, [], refl, (r, tt), Memᴰ.head refl, (NoWorse-refl x r, tt))
sort_by_load-BestFirst (x ∷ y ∷ xs) (r, rs) =
    let (h, zs, e, ok, member, best) = sort_by_load-BestFirst (y ∷ xs) rs in
    best_step x y h xs zs r rs e ok.0 member best (insert_sorted-Inserts x (h ∷ zs) r ok)
