-- ===== src/TaskRepo/Budgets.antt =====
-- internal/repo/task_repo/budgets.go: a run's budget, its pages and domains, and its end when
-- the time is over.
use get_magnet.Common.{
  err, ℕ, ◌+◌, ◌*◌, ◌==◌, ltb, leb, Bool, true, not, ◌&&◌, Option, none, some, String, str_eq, List,
  [], ◌∷◌, ◌++◌, if◌then◌else◌, first, exists, select, count, update, Result, ok, guard, or_fail,
  ◌>>=◌, ◌>>◌,
}
use get_magnet.CrawlPolicy.{from_definition, Budget, Urls, allows}
use get_magnet.Table.Status.{TaskStatus, AttemptStatus}
use get_magnet.Table.Rows.{CrawlTask, WorkflowRun, Reason, DomainRow}
use get_magnet.TaskRepo.Cancel.{running_in_run}
use get_magnet.TaskRepo.Claims.{Claim, check_attempt}
use get_magnet.TaskRepo.Finish.{end_task, limit_event, limit_row}
use get_magnet.TaskRepo.Outcome.{try_finish_run, is_live_in}
use get_magnet.TaskRepo.Store.{
  Db, Error, stale_attempt, run_not_found, budget_missing, version_not_found, invalid_budget,
  second, find_run, find_task, run_is_active, fenced,
}

-- `BudgetExceeded` comes after a commit that records the limit, so it is a result, not an error.
pub data Admission : Type 0 where
  admitted : Admission
  exceeded : Reason → Admission

abbrev pub deadline_of : WorkflowRun → Budget → ℕ
deadline_of run b = run.created_at + b.max_duration_seconds * second

abbrev pub budget_row : Budget → WorkflowRun → WorkflowRun
budget_row b r = record r { budget = some b }

-- The budget with its deadline; `none` if the run has none yet.
unfoldable pub budget_from_run : ℕ → Db → Result Error (Option (Budget × ℕ))
budget_from_run run_id db = do
  run ← or_fail (find_run run_id db) run_not_found
  ok (elim run.budget [ none ↦ none | some b ↦ some (b, deadline_of run b) ])

-- A host that the run has already is admitted; a new one if there is room.
unfoldable pub reserve_domain : ℕ → Budget → String → Db → Db × Option Reason
reserve_domain run_id b hostname db =
    let known = λ (d : DomainRow). (d.run_id == run_id) && str_eq d.hostname hostname in
    if exists known db.run_domains
    then (db, none)
    else if leb b.max_domains (count (λ d. d.run_id == run_id) db.run_domains)
    then (db, some Reason.max_domains)
    else (
      record db {
        run_domains = db.run_domains ++ record { run_id = run_id; hostname = hostname } ∷ [];
      },
      none,
    )

-- The limit is recorded in the same transaction, for the task as it is named.
unfoldable pub settle : CrawlTask → String → Db × Option Reason → Db × Admission
unfolding limit_event
settle t page_url (db, none) = (db, admitted)
settle t page_url (db, some reason) =
    (limit_event (limit_row t page_url reason) db, exceeded reason)

abbrev pub reserve_row : String → CrawlTask → CrawlTask
reserve_row host t = record t { page_reserved = true; page_host = host }

abbrev pub reserved_in : ℕ → CrawlTask → Bool
reserved_in run_id t = (t.run_id == run_id) && t.page_reserved

abbrev pub no_budget : Budget
no_budget = record {
  max_discovered_per_page = 0;
  max_tasks = 0;
  max_pages = 0;
  max_depth = 0;
  max_duration_seconds = 0;
  max_domains = 0;
  allowed_domains = [];
}

module _ (urls : Urls) where
  -- The budget of the run's published version, validated.
  unfoldable pub version_budget : WorkflowRun → Db → Result Error Budget
  version_budget run db = do
    version ← or_fail (first (λ w. w.id == run.workflow_version_id) db.versions) version_not_found
    elim (from_definition urls version.definition) [ ok b ↦ ok b | err _ ↦ err invalid_budget ]

  -- `InitializeRunBudget` stores the version's budget once, and then reads the stored one.
  unfoldable pub initialize_run_budget : ℕ → Db → Result Error (Db × Budget × ℕ)
  unfolding version_budget
  initialize_run_budget run_id db = do
    run ← or_fail (find_run run_id db) run_not_found
    elim run.budget [
      | some b ↦ ok (db, b, deadline_of run b)
      | none ↦ version_budget run db >>= λ b. ok (
        record db { runs = update (λ r. r.id == run_id) (budget_row b) db.runs },
        b,
        deadline_of run b,
      )
    ]

  -- `u, _ := url.Parse(pageURL); u.Hostname()`, after `Allows` has parsed it.
  unfoldable pub hostname_of : String → String
  hostname_of page_url = elim (urls.parse page_url) [ none ↦ "" | some u ↦ u.hostname ]

  -- The tests of `ReservePage` that come before the reservation.
  unfoldable pub page_reason : ℕ → Budget → ℕ → ℕ → String → Option Reason
  page_reason now b deadline depth page_url =
      if ltb deadline now
      then some Reason.max_duration_seconds
      else if not (allows urls b page_url)
      then some Reason.allowed_domains
      else if ltb b.max_depth depth
      then some Reason.max_depth
      else none

  -- A new slot for the page: the count of reserved pages, then the domain.
  unfoldable pub reserve_slot : Budget → CrawlTask → String → Db → Db × Option Reason
  unfolding reserve_domain hostname_of
  reserve_slot b task page_url db =
      if leb b.max_pages (count (reserved_in task.run_id) db.tasks)
      then (db, some Reason.max_pages)
      else let (db', reason) = reserve_domain task.run_id b (hostname_of page_url) db in
        elim reason [
          | some r ↦ (db', some r)
          | none ↦ (
            record db' {
              tasks = update (λ t. t.id == task.id) (reserve_row (hostname_of page_url)) db'.tasks;
            },
            none,
          )
        ]

  unfoldable pub reserve_task : ℕ → Budget → ℕ → CrawlTask → String → Db → Db × Option Reason
  unfolding page_reason reserve_slot
  reserve_task now b deadline task page_url db =
      elim (page_reason now b deadline task.depth page_url) [
        | some r ↦ (db, some r)
        | none ↦ if task.page_reserved then (db, none) else reserve_slot b task page_url db
      ]

  unfoldable pub reserve_page : ℕ → Claim → String → Db → Result Error (Db × Admission)
  unfolding reserve_task settle budget_from_run
  reserve_page now claim page_url db = do
    guard (run_is_active claim.task.run_id db.runs) stale_attempt
    guard (exists (fenced now claim.task.id claim.attempt) db.tasks) stale_attempt
    budget ← budget_from_run claim.task.run_id db
    (b, deadline) ← or_fail budget budget_missing
    task ← or_fail (find_task claim.task.id db) stale_attempt
    ok (settle task page_url (reserve_task now b deadline task page_url db))

  unfoldable pub check_url : ℕ → ℕ → Budget × ℕ → String → Db → Db × Option Reason
  unfolding reserve_domain hostname_of
  check_url now run_id (b, deadline) page_url db =
      if ltb deadline now
      then (db, some Reason.max_duration_seconds)
      else if not (allows urls b page_url)
      then (db, some Reason.allowed_domains)
      else reserve_domain run_id b (hostname_of page_url) db

  -- `CheckPageURL` does not look whether the budget is there: without one it reads the zero
  -- budget, and the zero time for its deadline.
  unfoldable pub check_page_url : ℕ → Claim → String → Db → Result Error (Db × Admission)
  unfolding settle budget_from_run check_url check_attempt
  check_page_url now claim page_url db = do
    guard (run_is_active claim.task.run_id db.runs) stale_attempt
    check_attempt now claim.task.id claim.attempt db
    budget ← budget_from_run claim.task.run_id db
    let limits : Budget × ℕ = elim budget [ none ↦ (no_budget, 0) | some l ↦ l ]
    ok (settle claim.task page_url (check_url now claim.task.run_id limits page_url db))

unfoldable pub record_limits : List CrawlTask → Db → Db
unfolding limit_event
record_limits [] db = db
record_limits (t ∷ ts) db =
    record_limits ts (limit_event (limit_row t t.input.url Reason.max_duration_seconds) db)

abbrev pub limit_task : ℕ → CrawlTask → CrawlTask
limit_task now t = record (end_task now TaskStatus.limited t) {
  error_message = "run budget reached: max_duration_seconds";
}

-- The writes of `expireBudgetRun`.
unfoldable pub expire_rows : ℕ → ℕ → Db → Db
unfolding record_limits
expire_rows now run_id db =
    let db' = record_limits (select (is_live_in run_id) db.tasks) db in
    record db' {
      tasks = update (is_live_in run_id) (limit_task now) db.tasks;
      attempts =
          update (running_in_run run_id db.tasks)
            (λ a. record a {
              status = AttemptStatus.limited;
              finished_at = some now;
              error_message = "run duration budget expired";
            })
            db.attempts;
    }

-- The transaction of `expireBudgetRun`; `none` if it returns without a change.
unfoldable pub expire_commit : ℕ → ℕ → Db → Result Error (Option Db)
unfolding expire_rows budget_from_run
expire_commit now run_id db =
    if run_is_active run_id db.runs
    then (do
      budget ← budget_from_run run_id db
      ok (elim budget [
        | none ↦ none
        | some (b, deadline) ↦ if ltb now deadline then none else some (expire_rows now run_id db)
      ]))
    else ok none

-- The run ends by its first task, if it had a live one.
unfoldable pub expire_budget_run : ℕ → ℕ → Db → Result Error Db
unfolding expire_commit
expire_budget_run now run_id db = do
  expired ← expire_commit now run_id db
  ok (elim expired [
    | none ↦ db
    | some db' ↦ (elim (first (is_live_in run_id) db.tasks) [
      | none ↦ db'
      | some t ↦ try_finish_run db' now t.id db'
    ])
  ])
