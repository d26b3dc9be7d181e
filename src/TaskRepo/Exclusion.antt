-- ===== src/TaskRepo/Exclusion.antt =====
-- The lease of a claim against the other workers and the recovery (`claimNext` and
-- `recoverExpiredTask` of internal/repo/task_repo/tasks.go).
use get_magnet.Common.{
  ℕ, ◌+◌, ◌≤◌, ◌==◌, ◌≡◌, refl, ap, false, none, some, String, All, All-map, select, first-none,
  inl, inr, Bool-cases, arith,
}
use get_magnet.Table.Status.{is_running_task}
use get_magnet.Table.Rows.{CrawlTask}
use get_magnet.TaskRepo.Claiming.{Taken, claim_next-Taken, claimed-only, taking}
use get_magnet.TaskRepo.Claims.{Claim, claim_next, claim_task, lease_or_default, take_task}
use get_magnet.TaskRepo.Invariant.{IsConsistent}
use get_magnet.TaskRepo.Recovery.{recover_expired_task}
use get_magnet.TaskRepo.Store.{Db, run_is_active}
use get_magnet.TaskRepo.Rivals.{
  Rivals, of_task, Leased, expired_id, leased-unclaimable, leased-unexpired,
}
use get_magnet.TaskRepo.Rivals.Keeping.{Rivals-Keeps}

claimed-Leased :
    (now : ℕ) (worker : String) (lease : ℕ) (task_type : String) (db : Db) {r : Db × Claim}
    → Taken now worker lease task_type db r
    → IsConsistent db
    → All (Leased (now + lease) r.1.task.id) r.0.tasks
claimed-Leased now worker lease task_type db {r} k v =
    All-map (λ t only. leased t only) r.0.tasks (claimed-only now worker lease task_type db k v)
  where
    leased :
        (t : CrawlTask)
        → (t.id ≡ r.1.task.id
            → t ≡ take_task now worker (now + lease) (k.task.attempt_count + 1) k.task)
        → Leased (now + lease) r.1.task.id t
    leased t only = elim (Bool-cases (t.id == r.1.task.id)) [
      | inr other ↦ inl other
      | inl same ↦
          let row = only (ground (arith, same)) in
          inr (
            ap (λ (x : CrawlTask). is_running_task x.status) row,
            ap (λ (x : CrawlTask). x.lease_until) row,
          )
    ]

Leased-unclaimed :
    (until later : ℕ) (worker : String) (lease : ℕ) (task_type : String) (task : CrawlTask)
    (db : Db)
    → later ≤ until
    → All (Leased until task.id) db.tasks
    → claim_task later worker lease task_type task db ≡ none
unfolding claim_task
Leased-unclaimed until later worker lease task_type task db h held =
    let none_left =
      first-none (taking later task_type task.id db) db.tasks
        (All-map (λ t l. untaken t l) db.tasks held) in
    elim (Bool-cases (run_is_active task.run_id db.runs)) [
      | inl active ↦ rw (active, none_left, claim_task) refl
      | inr over ↦ rw (over, claim_task) refl
    ]
  where
    untaken : (t : CrawlTask) → Leased until task.id t → taking later task_type task.id db t ≡ false
    untaken t (inl other) = ground (arith, other)
    untaken t (inr (running, lease)) =
        ground (arith, leased-unclaimable until later task_type db t h running lease)

Leased-unrecovered :
    (until later id : ℕ) (db : Db)
    → later ≤ until
    → All (Leased until id) db.tasks
    → recover_expired_task later id db ≡ none
unfolding recover_expired_task
Leased-unrecovered until later id db h held =
    let none_left =
      first-none (expired_id later id) db.tasks (All-map (λ t l. unexpired t l) db.tasks held) in
    rw (none_left, recover_expired_task) refl
  where
    unexpired : (t : CrawlTask) → Leased until id t → expired_id later id t ≡ false
    unexpired t (inl other) = ground (arith, other)
    unexpired t (inr (running, lease)) = ground (arith, leased-unexpired until later t h lease)

-- After a claim from a consistent state, and any number of the others' steps that `Rivals` lists
-- (claims, starts and recoveries until the end of the lease; renewals, completions and failures of
-- other tasks), the rows of the task are exactly as the claim left them, and until the end of the
-- lease no worker claims the task and the recovery does not take it.
pub claim_next-Exclusive :
    (early : Db) (now : ℕ) (worker : String) (lease : ℕ) (task_type : String) (db : Db)
    {db' db'' : Db} {claim : Claim} (later : ℕ) (worker' : String) (lease' : ℕ)
    (task_type' : String)
    → IsConsistent db
    → claim_next early now worker lease task_type db ≡ some (db', claim)
    → Rivals claim.task.id (now + lease_or_default lease) db' db''
    → later ≤ now + lease_or_default lease
    → (select (of_task claim.task.id) db''.tasks ≡ select (of_task claim.task.id) db'.tasks)
      × ((claim_task later worker' lease' task_type' claim.task db'' ≡ none)
          × (recover_expired_task later claim.task.id db'' ≡ none))
claim_next-Exclusive early now worker lease task_type db {db'} {db''} {claim} later worker' lease'
      task_type' v e rivals h =
    let k = claim_next-Taken early now worker lease task_type db e in
    let kept =
      Rivals-Keeps (now + lease_or_default lease) claim.task.id rivals
        (claimed-Leased now worker (lease_or_default lease) task_type db k v) in
    (
      kept.0,
      (
        Leased-unclaimed (now + lease_or_default lease) later worker' lease' task_type' claim.task
            db'' h kept.1,
        Leased-unrecovered (now + lease_or_default lease) later claim.task.id db'' h kept.1,
      ),
    )
