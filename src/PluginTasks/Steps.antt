-- ===== src/PluginTasks/Steps.antt =====
-- Each operation of internal/repo/plugin_repo/tasks.go that the program calls changes the rows in
-- place, as `Moved` says, and `Enqueue` may add one. What a function reads before it writes is read
-- from any state at all.
use get_magnet.Common.{
  ℕ, suc, ◌+◌, ◌==◌, ◌≡◌, refl, inl, inr, ◌∙◌, Bool, true, false, ◌&&◌, ◌||◌, Option, none, some,
  String, [], ◌∷◌, ◌++◌, update, some-injective, ltb, first, select, exists, Result, ok, err,
  Ensures, succeeds, fails, Ensures-guard, Ensures->>=, of_Ensures, Bool-cases, Option-cases,
  and_right, Pairs, Pairs-refl, Pairs-update, Pairs-then, arith,
}
use get_magnet.PluginTasks.Rows.{
  PluginTask, Tasks, Status, Encoded, Error, is_open, is_queued, is_running, runs, find_task,
}
use get_magnet.PluginTasks.Adding.{
  EnqueueInput, enqueue, insert_or_get, has_key, new_row, cancel, retry,
}
use get_magnet.PluginTasks.Claiming.{
  claim_next, claim_found, claimable, oldest, lease_or_default, next_attempt,
}
use get_magnet.PluginTasks.Ending.{
  complete, schedule_poll, after_finish, count_attempts, fail, fail_task, finish, failed_attempts,
  message_of,
}
use get_magnet.PluginTasks.Moves.{
  Moved, stays, takes, ends, polls, delays, counts, cancels, retries, joins,
}

abbrev pub Moves : Tasks → Tasks → Type 0
Moves db db' = Pairs Moved db.rows db'.rows × (db'.next_id ≡ db.next_id)

-- The rows have changed in place, or a queued row with a new key and the next id has been added.
pub data Grows (db db' : Tasks) : Type 0 where
  moves : Moves db db' → Grows db db'
  adds :
      (now : ℕ) (i : EnqueueInput) (encoded : String)
      → first (has_key i.plugin_code i.idempotency_key) db.rows ≡ none
      → db' ≡ (record {
        rows = db.rows ++ new_row now db.next_id i encoded ∷ [];
        next_id = suc db.next_id;
      })
      → Grows db db'

Moves-then : {db mid db' : Tasks} → Moves db mid → Moves mid db' → Moves db db'
Moves-then m n = (Pairs-then (λ x y z. joins) m.0 n.0, n.1 ∙ m.1)

Moves-update :
    (id : ℕ) (c : PluginTask → Bool) (f : PluginTask → PluginTask)
    → ((t : PluginTask) → c t ≡ true → Moved t (f t))
    → (db : Tasks) → Pairs Moved db.rows (update (λ t. (t.id == id) && c t) f db.rows)
Moves-update id c f move db =
    Pairs-update (λ t. (t.id == id) && c t) f stays (λ t e. move t (and_right (t.id == id) (c t) e))
      db.rows

open_if :
    (s : Status) (a b : Bool)
    → ((is_queued s && a) || (is_running s && b)) ≡ true
    → is_open s ≡ true
open_if Status.queued a b h = refl
open_if Status.running a b h = refl
open_if Status.succeeded a b h = absurd (ground arith)
open_if Status.failed a b h = absurd (ground arith)
open_if Status.cancelled a b h = absurd (ground arith)

claimable_open : (now : ℕ) (t : PluginTask) → claimable now t ≡ true → is_open t.status ≡ true
unfolding claimable
claimable_open now t h = open_if t.status _ _ h

claim_found-Moves :
    (now : ℕ) (worker : String) (lease : ℕ) (t : PluginTask) (db : Tasks) {r : Tasks × PluginTask}
    → claim_found now worker lease t db ≡ some r
    → Moves db r.0
unfolding claim_found
claim_found-Moves now worker lease t db {r} e =
    elim (Bool-cases (exists (λ u. (u.id == t.id) && claimable now u) db.rows)) [
      | inl there ↦ rw (← (some-injective (rw (there, claim_found) at e))) (
        Moves-update t.id (claimable now) _
            (λ u c.
              takes now worker (now + lease_or_default lease) (next_attempt t) u
                (claimable_open now u c))
            db,
        refl,
      )
      | inr gone ↦ absurd (ground (arith, gone, e))
    ]

pub claim_next-Moves :
    (early : Tasks) (now : ℕ) (worker : String) (lease : ℕ) (db : Tasks) {r : Tasks × PluginTask}
    → claim_next early now worker lease db ≡ some r
    → Moves db r.0
unfolding claim_next
claim_next-Moves early now worker lease db {r} e =
    elim (Option-cases (oldest (select (claimable now) early.rows))) [
      | inl none_there ↦ absurd (ground arith)
      | inr (t, found) ↦ claim_found-Moves now worker lease t db (rw (found, claim_next) at e)
    ]

pub cancel-Moves : (now id : ℕ) (db : Tasks) → Ensures (Moves db) (cancel now id db)
unfolding cancel
cancel-Moves now id db =
    Ensures-guard _
      (λ _. succeeds (Moves-update id (λ t. is_open t.status) _ (cancels now) db, refl))

pub retry-Moves : (now id : ℕ) (db : Tasks) → Ensures (Moves db) (retry now id db)
unfolding retry
retry-Moves now id db = Ensures-guard _ (λ _. succeeds (Moves-update id _ _ (retries now) db, refl))

finish-Moves :
    (now id : ℕ) (status : Status) (output : Encoded) (external_id message : String) (db : Tasks)
    → is_open status ≡ false
    → Ensures (Moves db) (finish now id status output external_id message db)
unfolding finish
finish-Moves now id status output external_id message db h = Ensures->>= (λ encoded _.
    succeeds
      (Moves-update id runs _ (λ t r. ends now status encoded external_id message t r h) db, refl))

pub complete-Moves :
    (now id : ℕ) (output : Encoded) (external_id : String) (db : Tasks)
    → Ensures (Moves db) (complete now id output external_id db)
unfolding complete
complete-Moves now id output external_id db = finish-Moves now id _ output external_id "" db refl

pub schedule_poll-Moves :
    (now id : ℕ) (output : Encoded) (external_id : String) (delay : ℕ) (db : Tasks)
    → Ensures (Moves db) (schedule_poll now id output external_id delay db)
unfolding schedule_poll
schedule_poll-Moves now id output external_id delay db = Ensures-guard _ (λ _.
    Ensures->>= (λ encoded _.
      succeeds
        (Moves-update id runs _ (λ t r. polls now (now + delay) encoded external_id t r) db, refl)))

after_finish-Moves :
    {db counted : Tasks} (r : Result Error Tasks)
    → Moves db counted
    → Ensures (Moves counted) r
    → Moves db (after_finish counted r).0
unfolding after_finish
after_finish-Moves (ok db') m (succeeds n) = Moves-then m n
after_finish-Moves (err e) m fails = m

count_attempts-Moves : (id : ℕ) (t : PluginTask) (db : Tasks) → Moves db (count_attempts id t db)
unfolding count_attempts
count_attempts-Moves id t db = elim (Bool-cases (failed_attempts t == t.attempt_count)) [
  | inl same ↦ rw (same, count_attempts) (Pairs-refl stays db.rows, refl)
  | inr more ↦
      rw (more, count_attempts)
        (Moves-update id runs _ (λ u r. counts (failed_attempts t) u r) db, refl)
]

insert_or_get-Grows :
    (now : ℕ) (i : EnqueueInput) (encoded : String) (db : Tasks)
    → Grows db (insert_or_get now i encoded db).0
unfolding insert_or_get
insert_or_get-Grows now i encoded db =
    elim (Option-cases (first (has_key i.plugin_code i.idempotency_key) db.rows)) [
      | inl new ↦ rw (new, insert_or_get) (adds now i encoded new refl)
      | inr (t, there) ↦ rw (there, insert_or_get) (moves (Pairs-refl stays db.rows, refl))
    ]

enqueue-Grows :
    (now : ℕ) (i : EnqueueInput) (db : Tasks) → Ensures (λ r. Grows db r.0) (enqueue now i db)
unfolding enqueue
enqueue-Grows now i db = Ensures-guard _ (λ named. elim (Option-cases i.input) [
  | inl bad ↦ rw bad fails
  | inr (encoded, good) ↦
      rw good (Ensures-guard _ (λ small. succeeds (insert_or_get-Grows now i encoded db)))
])

module _ (compact : String → Option String) where
  fail_task-Moves :
      (now id : ℕ) (t : PluginTask) (cause : Option String) (retryable : Bool) (db : Tasks)
      → Moves db (fail_task compact now id t cause retryable db).0
  unfolding fail_task
  fail_task-Moves now id t cause retryable db =
      elim (Bool-cases (retryable && ltb (failed_attempts t) t.max_attempts)) [
        | inl again ↦
            rw (again, fail_task)
              (
                Moves-update id runs _
                    (λ u r. delays now (failed_attempts t) (message_of cause) u r) db,
                refl,
              )
        | inr over ↦
            rw (over, fail_task)
              (after_finish-Moves _ (count_attempts-Moves id t db)
                (finish-Moves now id Status.failed _ t.external_id _ _ refl))
      ]

  pub fail-Moves :
      (early : Tasks) (now id : ℕ) (cause : Option String) (retryable : Bool) (db : Tasks)
      → Moves db (fail compact early now id cause retryable db).0
  unfolding fail
  fail-Moves early now id cause retryable db = elim (Option-cases (find_task id early)) [
    | inl gone ↦ rw (gone, fail) (Pairs-refl stays db.rows, refl)
    | inr (t, there) ↦ rw (there, fail) (fail_task-Moves now id t cause retryable db)
  ]

  -- One statement, or the statements of one call of `Fail`.
  pub data Step : Tasks → Tasks → Type 0 where
    enqueues :
        (now : ℕ) (i : EnqueueInput) {db db' : Tasks} {row : PluginTask} {new : Bool}
        → enqueue now i db ≡ ok (db', row, new)
        → Step db db'
    claims :
        (early : Tasks) (now : ℕ) (worker : String) (lease : ℕ) {db db' : Tasks}
        {claim : PluginTask}
        → claim_next early now worker lease db ≡ some (db', claim)
        → Step db db'
    cancels_task : (now id : ℕ) {db db' : Tasks} → cancel now id db ≡ ok db' → Step db db'
    retries_task : (now id : ℕ) {db db' : Tasks} → retry now id db ≡ ok db' → Step db db'
    completes :
        (now id : ℕ) (output : Encoded) (external_id : String) {db db' : Tasks}
        → complete now id output external_id db ≡ ok db'
        → Step db db'
    schedules :
        (now id : ℕ) (output : Encoded) (external_id : String) (delay : ℕ) {db db' : Tasks}
        → schedule_poll now id output external_id delay db ≡ ok db'
        → Step db db'
    fails_task :
        (early : Tasks) (now id : ℕ) (cause : Option String) (retryable : Bool) (db : Tasks)
        → Step db (fail compact early now id cause retryable db).0

  pub data Reach (db : Tasks) : Tasks → Type 0 where
    here : Reach db db
    extend : {mid db' : Tasks} → Reach db mid → Step mid db' → Reach db db'

  -- A step changes rows in place or adds one.
  pub Step-Grows : {db db' : Tasks} → Step db db' → Grows db db'
  Step-Grows (enqueues now i {db} e) = of_Ensures (enqueue-Grows now i db) e
  Step-Grows (claims early now worker lease {db} e) =
      moves (claim_next-Moves early now worker lease db e)
  Step-Grows (cancels_task now id {db} e) = moves (of_Ensures (cancel-Moves now id db) e)
  Step-Grows (retries_task now id {db} e) = moves (of_Ensures (retry-Moves now id db) e)
  Step-Grows (completes now id output external_id {db} e) =
      moves (of_Ensures (complete-Moves now id output external_id db) e)
  Step-Grows (schedules now id output external_id delay {db} e) =
      moves (of_Ensures (schedule_poll-Moves now id output external_id delay db) e)
  Step-Grows (fails_task early now id cause retryable db) =
      moves (fail-Moves early now id cause retryable db)
