-- ===== src/TaskRepo/Progress.antt =====
-- `ClaimNext` takes the oldest task that can be claimed, and takes one whenever there is one.
use get_magnet.Common.{
  ℕ, ◌≤◌, ◌==◌, leb, ◌≡◌, refl, sym, ap, ◌∙◌, Bool, true, false, ◌&&◌, Option, none, some, String,
  List, [], ◌∷◌, All, All-map, All-first, All-select, exists, select, first-exists, self-exists,
  select-exists, All-unselect, ◌⊎◌, inl, inr, Bool-cases, Option-cases, some-injective, arith,
  first_meets,
}
use mathlib.Core.Path.{subst}
use get_magnet.Table.Rows.{CrawlTask}
use get_magnet.TaskRepo.Claims.{Claim, claim_next, claim_task, claim_row, oldest, lease_or_default}
use get_magnet.TaskRepo.Claiming.{taking}
use get_magnet.TaskRepo.Invariant.{IsConsistent}
use get_magnet.TaskRepo.Invariant.Keys.{keyed_unique}
use get_magnet.TaskRepo.Store.{Db, claimable, run_is_active}

-- The oldest of some rows is one of them, and none is older.
oldest-some : (t : CrawlTask) (ts : List CrawlTask) → (c : CrawlTask) × (oldest (t ∷ ts) ≡ some c)
unfolding oldest
oldest-some t ts = elim (Option-cases (oldest ts)) [
  | inl e ↦ rw (e, oldest) (t, refl)
  | inr (u, e) ↦ elim (Bool-cases (leb t.created_at u.created_at)) [
    | inl le ↦ rw (e, le, oldest) (t, refl)
    | inr gt ↦ rw (e, gt, oldest) (u, refl)
  ]
]

oldest-All :
    (P : CrawlTask → Type 0) (ts : List CrawlTask) {c : CrawlTask}
    → All P ts
    → oldest ts ≡ some c
    → P c × All (λ t. c.created_at ≤ t.created_at) ts
unfolding oldest
oldest-All P [] h e = absurd (ground arith)
oldest-All P (t ∷ ts) {c} h e = elim (Option-cases (oldest ts)) [
  | inl f ↦
      let same : t ≡ c = some-injective (rw (f, oldest) at e) in
      subst (λ c. P c × All (λ t. c.created_at ≤ t.created_at) (t ∷ ts)) same
        (h.0, (omega arith, empty ts f))
  | inr (u, f) ↦ elim (Bool-cases (leb t.created_at u.created_at)) [
    | inl le ↦
        let same : t ≡ c = some-injective (rw (f, le, oldest) at e) in
        let rest = oldest-All P ts h.1 f in
        subst (λ c. P c × All (λ t. c.created_at ≤ t.created_at) (t ∷ ts)) same
          (h.0, (omega arith, All-map (λ x p. ground (arith, le, p)) ts rest.1))
    | inr gt ↦
        let same : u ≡ c = some-injective (rw (f, gt, oldest) at e) in
        let rest = oldest-All P ts h.1 f in
        subst (λ c. P c × All (λ t. c.created_at ≤ t.created_at) (t ∷ ts)) same
          (rest.0, (ground (arith, gt), rest.1))
  ]
]
  where
    empty : (xs : List CrawlTask) → oldest xs ≡ none → All (λ x. t.created_at ≤ x.created_at) xs
    empty [] f = tt
    empty (x ∷ xs) f = absurd (apart (oldest-some x xs).1 f)
      where
        apart : {o : Option CrawlTask} {d : CrawlTask} → o ≡ some d → o ≡ none → ⊥
        apart p q = cc

claimable-run :
    (now : ℕ) (db : Db) (task_type : String) (t : CrawlTask)
    → claimable now db.runs task_type t ≡ true
    → run_is_active t.run_id db.runs ≡ true
unfolding claimable
claimable-run now db task_type t h = ground arith

abbrev same_age : CrawlTask → CrawlTask → Bool
same_age c t = (t.id == c.id) && (t.created_at == c.created_at)

-- A claimable row of the table is claimed if it is the candidate.
claim_task-some :
    (now : ℕ) (worker : String) (lease : ℕ) (task_type : String) (candidate : CrawlTask) (db : Db)
    → IsConsistent db
    → claimable now db.runs task_type candidate ≡ true
    → ((c : CrawlTask → Bool) → c candidate ≡ true → exists c db.tasks ≡ true)
    → (r : Db × Claim) × ((claim_task now worker lease task_type candidate db ≡ some r)
        × (r.1.task.created_at ≡ candidate.created_at))
unfolding claim_task claim_row
claim_task-some now worker lease task_type candidate db v can here =
    let active = claimable-run now db task_type candidate can in
    let taken =
      first-exists (taking now task_type candidate.id db) db.tasks
        (here (taking now task_type candidate.id db) (ground (arith, can))) in
    let twin =
      first-exists (same_age candidate) db.tasks (here (same_age candidate) (ground arith)) in
    let only =
      keyed_unique candidate.id (taking now task_type candidate.id db) (λ t h. ground arith)
        db.tasks v.distinct taken.1 in
    let age = first_meets (same_age candidate) db.tasks twin.1 in
    let same : twin.0 ≡ taken.0 =
      All-first (λ t. t.id ≡ candidate.id → t ≡ taken.0) (same_age candidate) db.tasks only twin.1
        (ground (arith, age)) in
    (
      claim_row now worker lease task_type taken.0 db,
      (
        rw (active, taken.1, claim_task) refl,
        sym (ap (λ (x : CrawlTask). x.created_at) same) ∙ ground (arith, age),
      ),
    )

-- In a consistent state, if there is a task that can be claimed (of the type asked for, if one
-- is), a worker that reads this state claims one, and no such task is older.
pub claim_next-Oldest :
    (now : ℕ) (worker : String) (lease : ℕ) (task_type : String) (db : Db)
    → IsConsistent db
    → exists (claimable now db.runs task_type) db.tasks ≡ true
    → (r : Db × Claim) × ((claim_next db now worker lease task_type db ≡ some r)
        × All
            (λ t.
              (claimable now db.runs task_type t ≡ false) ⊎ (r.1.task.created_at ≤ t.created_at))
            db.tasks)
unfolding claim_next
claim_next-Oldest now worker lease task_type db v there =
    let can = claimable now db.runs task_type in
    let (y, (ys, filled)) = select-exists can db.tasks there in
    let (c, first_of) = oldest-some y ys in
    let found : oldest (select can db.tasks) ≡ some c = rw filled first_of in
    let old =
      oldest-All
        (λ t. ((c : CrawlTask → Bool) → c t ≡ true → exists c db.tasks ≡ true) × (can t ≡ true))
        (select can db.tasks)
        (All-select (λ t. (c : CrawlTask → Bool) → c t ≡ true → exists c db.tasks ≡ true) can
          db.tasks (self-exists db.tasks))
        found in
    let (r, (claimed, age)) =
      claim_task-some now worker (lease_or_default lease) task_type c db v old.0.1 old.0.0 in
    (
      r,
      (
        rw (found, claim_next) claimed,
        All-unselect (λ t. r.1.task.created_at ≤ t.created_at) can db.tasks
            (All-map (λ t le. omega (arith, age, le)) (select can db.tasks) old.1),
      ),
    )
