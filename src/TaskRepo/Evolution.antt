-- ===== src/TaskRepo/Evolution.antt =====
-- How a transaction may change the task rows: the state machine of a task.
pub mod Single
pub mod Several
pub mod Pages
use get_magnet.Common.{
  ℕ, suc, ◌+◌, ◌≤◌, ◌≡◌, refl, Bool, true, false, List, [], ◌∷◌, ◌++◌, update, All, inl, inr,
  Bool-cases, arith, if◌then◌else◌, Option,
}
use get_magnet.Table.Status.{TaskStatus}
use get_magnet.Table.Rows.{CrawlTask}
use get_magnet.TaskRepo.Store.{Db}

-- The moves of a task's status in one transaction. Succeeded, cancelled and limited are final; a
-- failed or dead task is only put back into the queue.
abbrev pub can_move : TaskStatus → TaskStatus → Bool
can_move TaskStatus.queued TaskStatus.queued = true
can_move TaskStatus.queued TaskStatus.running = true
can_move TaskStatus.queued TaskStatus.cancelled = true
can_move TaskStatus.queued TaskStatus.limited = true
can_move TaskStatus.running TaskStatus.failed = false
can_move TaskStatus.running _ = true
can_move TaskStatus.succeeded TaskStatus.succeeded = true
can_move TaskStatus.failed TaskStatus.failed = true
can_move TaskStatus.failed TaskStatus.queued = true
can_move TaskStatus.cancelled TaskStatus.cancelled = true
can_move TaskStatus.dead_letter TaskStatus.dead_letter = true
can_move TaskStatus.dead_letter TaskStatus.queued = true
can_move TaskStatus.limited TaskStatus.limited = true
can_move _ _ = false

-- What one transaction may do to a row.
pub record Edge (t u : CrawlTask) : Type 0 where
  pub id : u.id ≡ t.id
  pub run : u.run_id ≡ t.run_id
  pub parent : u.parent_task_id ≡ t.parent_task_id
  pub count : t.attempt_count ≤ u.attempt_count
  pub move : can_move t.status u.status ≡ true

-- A new row: queued, without an attempt, under an id that was not used.
pub record IsFresh (next : ℕ) (t : CrawlTask) : Type 0 where
  pub id : next ≤ t.id
  pub count : t.attempt_count ≡ 0
  pub status : t.status ≡ TaskStatus.queued

-- Row by row, with new rows at the end.
abbrev pub Evolve : ℕ → List CrawlTask → List CrawlTask → Type 0
Evolve next [] us = All (IsFresh next) us
Evolve next (t ∷ ts) [] = ⊥
Evolve next (t ∷ ts) (u ∷ us) = Edge t u × Evolve next ts us

pub record Evolves (db db' : Db) : Type 0 where
  pub rows : Evolve db.next_task_id db.tasks db'.tasks
  pub next : db.next_task_id ≤ db'.next_task_id

can_move_refl : (s : TaskStatus) → can_move s s ≡ true
can_move_refl TaskStatus.queued = refl
can_move_refl _ = refl

pub Edge-refl : (t : CrawlTask) → Edge t t
Edge-refl t = record {
  id = refl;
  run = refl;
  parent = refl;
  count = omega arith;
  move = can_move_refl t.status;
}

pub Evolve-refl : (next : ℕ) (ts : List CrawlTask) → Evolve next ts ts
Evolve-refl next [] = tt
Evolve-refl next (t ∷ ts) = (Edge-refl t, Evolve-refl next ts)

pub Evolve-append :
    (next : ℕ) (ts us : List CrawlTask) → All (IsFresh next) us → Evolve next ts (ts ++ us)
Evolve-append next [] us h = h
Evolve-append next (t ∷ ts) us h = (Edge-refl t, Evolve-append next ts us h)

-- An update with a premise on each row.
pub Evolve-update {κ} :
    (P : CrawlTask → Type κ) (next : ℕ) (c : CrawlTask → Bool) (f : CrawlTask → CrawlTask)
    → ((t : CrawlTask) → c t ≡ true → P t → Edge t (f t))
    → (ts : List CrawlTask) → All P ts
    → Evolve next ts (update c f ts)
unfolding update
Evolve-update P next c f edge [] h = tt
Evolve-update P next c f edge (t ∷ ts) h = elim (Bool-cases (c t)) [
  | inl hit ↦ rw hit (edge t hit h.0, Evolve-update P next c f edge ts h.1)
  | inr miss ↦ rw miss (Edge-refl t, Evolve-update P next c f edge ts h.1)
]

pub Always : (ts : List CrawlTask) → All (λ _. Unit {0}) ts
Always [] = tt
Always (t ∷ ts) = (tt, Always ts)

pub Evolves-update :
    {db db' : Db} (c : CrawlTask → Bool) (f : CrawlTask → CrawlTask)
    → ((t : CrawlTask) → c t ≡ true → Edge t (f t))
    → db'.tasks ≡ update c f db.tasks
    → db'.next_task_id ≡ db.next_task_id
    → Evolves db db'
Evolves-update {db} c f edge tasks next = record {
  rows = rw tasks (
      Evolve-update (λ _. Unit {0}) db.next_task_id c f (λ t h _. edge t h) db.tasks
        (Always db.tasks));
  next = omega (arith, next);
}

pub Evolves-keep :
    {db db' : Db} → db'.tasks ≡ db.tasks → db'.next_task_id ≡ db.next_task_id → Evolves db db'
Evolves-keep {db} tasks next = record {
  rows = rw tasks (Evolve-refl db.next_task_id db.tasks);
  next = omega (arith, next);
}
