-- ===== src/TaskRepo/Subtree.antt =====
-- `CancelTask` cancels the task and the live tasks below it, all of them and no other.
use get_magnet.Common.{
  ℕ, suc, ◌==◌, ◌≡◌, refl, sym, ◌↔◌, Bool, true, false, ◌&&◌, none, some, List, [], ◌∷◌, map,
  length, All, All-map, All-first, All-select, All-every, count_le_length, exists, exists-first,
  first-exists, first_meets, select, update, select-update_apart, holds, inl, inr, ◌⊎◌, Bool-cases,
  Option-cases, arith, Ensures, Ensures-guard, Ensures-or_fail, succeeds, of_Ensures, ok,
}
use mathlib.Core.Path.{subst}
use get_magnet.Table.Status.{is_active_task}
use get_magnet.Table.Rows.{CrawlTask}
use get_magnet.TaskRepo.Cancel.{member, task_id_of, descendants, cancel_row, cancel_task_commit}
use get_magnet.TaskRepo.Descent.{
  Below, top, child, IsClosed, IsDone, Open, missing, descend-IsDone, descend-Below, All-ids,
  member-All, member-ids,
}
use get_magnet.TaskRepo.Evolution.Several.{cancel_all-tasks}
use get_magnet.TaskRepo.Store.{Db, find_task}

abbrev has_id : ℕ → CrawlTask → Bool
has_id id t = t.id == id

descendants-Below : (id : ℕ) (tasks : List CrawlTask) → All (Below tasks id) (descendants id tasks)
unfolding descendants
descendants-Below id tasks =
    let roots = All-ids (Below tasks id) (select (has_id id) tasks) (
      All-map (λ t h. subst (Below tasks id) (sym (self t h.1)) top) (select (has_id id) tasks)
        (All-select (λ t. Unit {0}) (has_id id) tasks
          (All-every (λ t. Unit {0}) (λ t. tt) tasks))) in
    descend-Below (suc (length tasks)) tasks id (map task_id_of (select (has_id id) tasks))
      (map task_id_of (select (has_id id) tasks)) roots roots
  where
    self : (t : CrawlTask) → has_id id t ≡ true → t.id ≡ id
    self t h = ground (arith, h)

descendants-IsDone :
    (id : ℕ) (tasks : List CrawlTask)
    → IsDone (map task_id_of (select (has_id id) tasks)) tasks (descendants id tasks)
unfolding descendants
descendants-IsDone id tasks =
    let roots = map task_id_of (select (has_id id) tasks) in
    descend-IsDone (suc (length tasks)) tasks roots roots
      (All-every (Open roots roots) (λ t into out. into) tasks)
      (omega (arith, count_le_length (missing roots) tasks))

root-member :
    (id : ℕ) (tasks : List CrawlTask)
    → exists (has_id id) tasks ≡ true
    → member id (map task_id_of (select (has_id id) tasks)) ≡ true
root-member id tasks there =
    let (t, found) = first-exists (has_id id) tasks there in
    let hit = first_meets (has_id id) tasks found in
    let same : t.id ≡ id = ground (arith, hit) in
    subst (λ x. member x (map task_id_of (select (has_id id) tasks)) ≡ true) same
      (All-first _ (has_id id) tasks (member-ids (has_id id) tasks) found hit)

Below-member :
    (id : ℕ) (tasks : List CrawlTask) (x : ℕ)
    → exists (has_id id) tasks ≡ true
    → Below tasks id x
    → member x (descendants id tasks) ≡ true
unfolding IsClosed
Below-member id tasks _ there top =
    (descendants-IsDone id tasks).kept id (root-member id tasks there)
Below-member id tasks _ there (child {p} t row below) =
    let above = Below-member id tasks p there below in
    let (u, found) =
      first-exists (λ u. (u.id == t.id) && holds (λ q. q == p) u.parent_task_id) tasks row in
    let meets =
      first_meets (λ u. (u.id == t.id) && holds (λ q. q == p) u.parent_task_id) tasks found in
    let same : u.id ≡ t.id = ground (arith, meets) in
    let closed =
      All-first _ (λ u. (u.id == t.id) && holds (λ q. q == p) u.parent_task_id) tasks
        (descendants-IsDone id tasks).closed found in
    elim (Option-cases u.parent_task_id) [
      | inl none_there ↦ absurd (ground (arith, none_there, meets))
      | inr (q, e) ↦
          let is : q ≡ p = ground (arith, e, meets) in
          let into : holds (λ q. member q (descendants id tasks)) u.parent_task_id ≡ true =
            rw (e, is) above in
          elim closed [
            | inl out ↦ absurd (ground (arith, into, out))
            | inr listed ↦ rw (← same) listed
          ]
    ]

-- The recursive query gives the ids of the task, if it is there, and of all tasks below it, and
-- no other ids.
pub descendants_iff :
    (id x : ℕ) (tasks : List CrawlTask)
    → exists (λ t. t.id == id) tasks ≡ true
    → (member x (descendants id tasks) ≡ true) ↔ Below tasks id x
descendants_iff id x tasks there = (
  λ m. member-All (Below tasks id) x (descendants id tasks) m (descendants-Below id tasks),
  λ b. Below-member id tasks x there b,
)

cancel_row-inactive : (now : ℕ) (t : CrawlTask) → is_active_task (cancel_row now t).status ≡ false
cancel_row-inactive now t = refl

unlisted-inactive :
    (x : ℕ) (ids : List ℕ) (t : CrawlTask)
    → member x ids ≡ true
    → (member t.id ids && is_active_task t.status) ≡ false
    → ((t.id == x) && is_active_task t.status) ≡ false
unlisted-inactive x ids t m miss = elim (Bool-cases (t.id == x)) [
  | inr other ↦ rw other refl
  | inl same ↦
      let is : t.id ≡ x = ground (arith, same) in
      let listed : member t.id ids ≡ true = rw is m in ground (arith, same, listed, miss)
]

-- A row of a listed id is inactive after the loop.
listed-inactive :
    (now x : ℕ) (ids : List ℕ) (ts : List CrawlTask)
    → member x ids ≡ true
    → All
        (λ t. ((t.id == x) && is_active_task t.status) ≡ false)
        (update (λ t. member t.id ids && is_active_task t.status) (cancel_row now) ts)
unfolding update
listed-inactive now x ids [] m = tt
listed-inactive now x ids (t ∷ ts) m =
    elim (Bool-cases (member t.id ids && is_active_task t.status)) [
      | inl hit ↦ rw hit (ground arith, listed-inactive now x ids ts m)
      | inr miss ↦ rw miss (unlisted-inactive x ids t m miss, listed-inactive now x ids ts m)
    ]

-- The transaction as one update.
abbrev Cut : ℕ → ℕ → Db → Db → Type 0
Cut now id db db' =
    (db'.tasks
      ≡ update (λ t. member t.id (descendants id db.tasks) && is_active_task t.status)
          (cancel_row now) db.tasks)
    × (exists (has_id id) db.tasks ≡ true)

cancel_task_commit-Cut :
    (early : Db) (now id : ℕ) (db : Db)
    → Ensures (Cut now id db) (cancel_task_commit early now id db)
unfolding cancel_task_commit
cancel_task_commit-Cut early now id db = Ensures-or_fail _ λ task read. Ensures-guard _ λ active.
    Ensures-guard _ λ live. succeeds (
      cancel_all-tasks now (descendants id db.tasks) db,
      there (Option-cases (find_task id db)) live,
    )
  where
    there :
        (find_task id db ≡ none) ⊎ ((t : CrawlTask) × (find_task id db ≡ some t))
        → holds (λ (t : CrawlTask). is_active_task t.status) (find_task id db) ≡ true
        → exists (has_id id) db.tasks ≡ true
    there (inl missing) live = absurd (ground (arith, missing, live))
    there (inr (t, found)) live = exists-first (has_id id) db.tasks found

-- After a task is cancelled, it and every task below it is neither queued nor running.
pub cancel_task_commit-Below :
    (early : Db) (now id x : ℕ) (db : Db) {db' : Db}
    → cancel_task_commit early now id db ≡ ok db'
    → Below db.tasks id x
    → All (λ t. ((t.id == x) && is_active_task t.status) ≡ false) db'.tasks
cancel_task_commit-Below early now id x db {db'} e below =
    let cut = of_Ensures (cancel_task_commit-Cut early now id db) e in
    rw (cut.0) (
      listed-inactive now x (descendants id db.tasks) db.tasks
        (Below-member id db.tasks x cut.1 below))

-- A cancellation leaves every task that is not below the cancelled one as it was.
pub cancel_task_commit-others :
    (early : Db) (now id x : ℕ) (db : Db) {db' : Db}
    → cancel_task_commit early now id db ≡ ok db'
    → ¬ (Below db.tasks id x)
    → select (λ t. t.id == x) db'.tasks ≡ select (λ t. t.id == x) db.tasks
cancel_task_commit-others early now id x db {db'} e apart =
    let cut = of_Ensures (cancel_task_commit-Cut early now id db) e in
    rw (cut.0) (
      select-update_apart (has_id x)
        (λ t. member t.id (descendants id db.tasks) && is_active_task t.status) (cancel_row now)
        (λ t h. (outside t (ground (arith, h)), outside t (ground (arith, h)))) db.tasks)
  where
    outside : (t : CrawlTask) → member t.id (descendants id db.tasks) ≡ true → has_id x t ≡ false
    outside t m = elim (Bool-cases (t.id == x)) [
      | inr other ↦ other
      | inl same ↦
          let is : t.id ≡ x = ground (arith, same) in
          absurd (
            apart (
              subst (Below db.tasks id) is (
                member-All (Below db.tasks id) t.id (descendants id db.tasks) m
                  (descendants-Below id db.tasks))))
    ]
