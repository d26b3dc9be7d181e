-- ===== src/TaskRepo/Recovering.antt =====
-- `RecoverExpiredLeases`: its loop leaves no expired lease.
use get_magnet.Common.{
  ℕ, ◌==◌, ◌≡◌, refl, Bool, true, false, not, ◌&&◌, List, [], ◌∷◌, map, if◌then◌else◌, All, All-map,
  All-map_both, All-update_to, All-of_first-none, first_meets, exists, first, select, update, inl,
  inr, ◌⊎◌, Bool-cases, Option-cases, arith,
}
use get_magnet.Table.Rows.{CrawlTask}
use get_magnet.TaskRepo.Cancel.{member, task_id_of}
use get_magnet.TaskRepo.Descent.{member-ids}
use get_magnet.TaskRepo.Outcome.{try_finish_run, finish_run, is_live_in}
use get_magnet.TaskRepo.Recovery.{
  lease_expired, recover_row, recover_expired_task, recover_one, recover_all,
}
use get_magnet.TaskRepo.Store.{Db, find_task, run_is_active}

-- Expired leases are only those of the listed ids.
Pending : ℕ → List ℕ → CrawlTask → Type 0
Pending now ids t = (lease_expired now t ≡ false) ⊎ (member t.id ids ≡ true)

finish_run-tasks : (now run_id : ℕ) (db : Db) → (finish_run now run_id db).tasks ≡ db.tasks
unfolding finish_run
finish_run-tasks now run_id db =
    keep (run_is_active run_id db.runs && not (exists (is_live_in run_id) db.tasks)) _ db refl
  where
    keep : (b : Bool) (x y : Db) → x.tasks ≡ y.tasks → (if b then x else y).tasks ≡ y.tasks
    keep true x y h = h
    keep false x y h = refl

try_finish_run-tasks :
    (early : Db) (now id : ℕ) (db : Db) → (try_finish_run early now id db).tasks ≡ db.tasks
unfolding try_finish_run
try_finish_run-tasks early now id db = elim (Option-cases (find_task id early)) [
  | inl missing ↦ rw (missing, try_finish_run) refl
  | inr (t, found) ↦ rw (found, try_finish_run) (finish_run-tasks now t.run_id db)
]

recover_row-running :
    (now : ℕ) (task t : CrawlTask) → lease_expired now (recover_row now task t) ≡ false
unfolding recover_row
recover_row-running now task t = ground arith

-- The id that is treated is no longer pending.
still-Pending :
    (now id : ℕ) (ids : List ℕ) (t : CrawlTask)
    → Pending now (id ∷ ids) t
    → ((t.id == id) && lease_expired now t) ≡ false
    → Pending now ids t
unfolding Pending member
still-Pending now id ids t (inl over) clean = inl over
still-Pending now id ids t (inr listed) clean = elim (Bool-cases (t.id == id)) [
  | inl same ↦ inl (ground (arith, same, clean))
  | inr other ↦ inr (ground (arith, other, listed))
]

recovered :
    (now id : ℕ) (ids : List ℕ) (task : CrawlTask) (ts : List CrawlTask)
    → task.id ≡ id
    → All (Pending now (id ∷ ids)) ts
    → All (Pending now ids) (update (λ t. t.id == task.id) (recover_row now task) ts)
unfolding Pending
recovered now id ids task ts same h =
    All-update_to {P = Pending now (id ∷ ids)} (λ t. t.id == task.id) (recover_row now task)
      (λ t hit p. inl (recover_row-running now task t))
      (λ t miss p. still-Pending now id ids t p (ground (arith, same, miss))) ts h

recover_one-Pending :
    (now id : ℕ) (ids : List ℕ) (db : Db)
    → All (Pending now (id ∷ ids)) db.tasks
    → All (Pending now ids) (recover_one now id db).0.tasks
unfolding recover_one recover_expired_task
recover_one-Pending now id ids db h =
    elim (Option-cases (first (λ t. (t.id == id) && lease_expired now t) db.tasks)) [
      | inl missing ↦
          rw (missing, recover_one, recover_expired_task)
            (All-map_both (λ t p clean. still-Pending now id ids t p clean) db.tasks h
              (All-of_first-none _ db.tasks missing))
      | inr (task, found) ↦
          let meets = first_meets (λ t. (t.id == id) && lease_expired now t) db.tasks found in
          let same : task.id ≡ id = ground (arith, meets) in
          rw (found, recover_one, recover_expired_task, try_finish_run-tasks)
            (recovered now id ids task db.tasks same h)
    ]

nothing-Pending : (now : ℕ) (t : CrawlTask) → Pending now [] t → lease_expired now t ≡ false
unfolding Pending member
nothing-Pending now t (inl over) = over
nothing-Pending now t (inr listed) = cc

recover_all-Pending :
    (now : ℕ) (cs : List CrawlTask) (db : Db) (n : ℕ)
    → All (Pending now (map task_id_of cs)) db.tasks
    → All (λ t. lease_expired now t ≡ false) (recover_all now cs db n).0.tasks
unfolding recover_all
recover_all-Pending now [] db n h = All-map (λ t p. nothing-Pending now t p) db.tasks h
recover_all-Pending now (c ∷ cs) db n h =
    recover_all-Pending now cs _ _ (recover_one-Pending now c.id (map task_id_of cs) db h)

-- The loop over the tasks whose leases have expired, as they are read, leaves no task with an
-- expired lease.
pub recover_all-Clean :
    (now : ℕ) (db : Db)
    → All
        (λ t. lease_expired now t ≡ false)
        (recover_all now (select (lease_expired now) db.tasks) db 0).0.tasks
unfolding Pending
recover_all-Clean now db = recover_all-Pending now (select (lease_expired now) db.tasks) db 0 (
    All-map
      (λ t listed. elim (Bool-cases (lease_expired now t)) [
        | inl expired ↦ inr (listed expired)
        | inr live ↦ inl live
      ])
      db.tasks (member-ids (lease_expired now) db.tasks))
