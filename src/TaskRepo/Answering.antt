-- ===== src/TaskRepo/Answering.antt =====
-- What the answer of `ReservePage` says of the page.
use get_magnet.Common.{
  ℕ, ◌≤◌, ltb, ◌≡◌, refl, sym, true, Option, none, some, String, eq_iff, ◌∙◌, exists, exists-last,
  inl, inr, Bool-cases, Option-cases, arith, some-injective, Ensures, Ensures-guard,
  Ensures-or_fail, Ensures->>=, succeeds, of_Ensures, ok, ok-injective,
}
use get_magnet.CrawlPolicy.{Urls, Budget, allows}
use get_magnet.Table.Rows.{CrawlTask, LimitRow, Reason}
use get_magnet.TaskRepo.Admitting.{Answer, good, bad}
use get_magnet.TaskRepo.Budgets.{
  Admission, settle, reserve_task, reserve_page, page_reason, budget_from_run,
}
use get_magnet.TaskRepo.Claims.{Claim}
use get_magnet.TaskRepo.Finish.{limit_event, limit_row, same_limit}
use get_magnet.TaskRepo.Outcome.{same_reason}
use get_magnet.TaskRepo.Store.{Db, find_task}

same_reason_refl : (r : Reason) → same_reason r r ≡ true
same_reason_refl r = ground arith

same_limit_refl : (e : LimitRow) → same_limit e e ≡ true
same_limit_refl e =
    rw
      (
        (eq_iff e.page_role e.page_role).1 refl,
        (eq_iff e.url e.url).1 refl,
        same_reason_refl e.reason,
      )
      (ground arith)

limit_event-there :
    (e : LimitRow) (db : Db) → exists (same_limit e) (limit_event e db).limit_events ≡ true
unfolding limit_event
limit_event-there e db = elim (Bool-cases (exists (same_limit e) db.limit_events)) [
  | inl known ↦ rw (known, limit_event) known
  | inr new ↦
      rw (new, limit_event) (exists-last (same_limit e) db.limit_events e (same_limit_refl e))
]

module _ (urls : Urls) where
  page_reason-none :
      (now : ℕ) (b : Budget) (deadline depth : ℕ) (page_url : String)
      → page_reason urls now b deadline depth page_url ≡ none
      → (now ≤ deadline) × ((allows urls b page_url ≡ true) × (depth ≤ b.max_depth))
  unfolding page_reason
  page_reason-none now b deadline depth page_url e = elim (Bool-cases (ltb deadline now)) [
    | inl late ↦ absurd (ground (arith, late, e))
    | inr timely ↦ elim (Bool-cases (allows urls b page_url)) [
      | inr outside ↦ absurd (ground (arith, timely, outside, e))
      | inl inside ↦ elim (Bool-cases (ltb b.max_depth depth)) [
        | inl deep ↦ absurd (ground (arith, timely, inside, deep, e))
        | inr near ↦ (ground (arith, timely), (inside, ground (arith, near)))
      ]
    ]
  ]

  settle-Answer :
      (now : ℕ) (b : Budget) (deadline : ℕ) (task : CrawlTask) (page_url : String)
      (r : Db × Option Reason)
      → (r.1 ≡ none → page_reason urls now b deadline task.depth page_url ≡ none)
      → Answer urls now b deadline task page_url
          (settle task page_url r).0
          (settle task page_url r).1
  unfolding settle
  settle-Answer now b deadline task page_url (db, none) h =
      let p = page_reason-none now b deadline task.depth page_url (h refl) in
      good (p.0) (p.1.0) (p.1.1)
  settle-Answer now b deadline task page_url (db, some reason) h =
      bad reason (limit_event-there (limit_row task page_url reason) db)

  reserve_task-reason :
      (now : ℕ) (b : Budget) (deadline : ℕ) (task : CrawlTask) (page_url : String) (db : Db)
      → (reserve_task urls now b deadline task page_url db).1 ≡ none
      → page_reason urls now b deadline task.depth page_url ≡ none
  unfolding reserve_task
  reserve_task-reason now b deadline task page_url db e =
      elim (Option-cases (page_reason urls now b deadline task.depth page_url)) [
        | inl free ↦ free
        | inr (reason, f) ↦ absurd (apart (rw (f, reserve_task) at e))
      ]
    where
      apart : {r : Reason} → some r ≡ none → ⊥
      apart q = cc

  reserve_page-Ensures :
      (now : ℕ) (claim : Claim) (page_url : String) (db : Db) (b : Budget) (deadline : ℕ)
      (task : CrawlTask)
      → budget_from_run claim.task.run_id db ≡ ok (some (b, deadline))
      → find_task claim.task.id db ≡ some task
      → Ensures
          (λ r. Answer urls now b deadline task page_url r.0 r.1)
          (reserve_page urls now claim page_url db)
  unfolding reserve_page
  reserve_page-Ensures now claim page_url db b deadline task stored known =
      Ensures-guard _ λ active. Ensures-guard _ λ fenced. Ensures->>= λ budget read.
        Ensures-or_fail _ λ limits there. Ensures-or_fail _ λ u found.
          let same : u ≡ task = some-injective (sym found ∙ known) in
          let own : limits ≡ (b, deadline) =
            some-injective (sym there ∙ ok-injective (sym read ∙ stored)) in
          succeeds {a = settle u page_url (reserve_task urls now limits.0 limits.1 u page_url db)} (
            rw (same, own)
              (settle-Answer now b deadline task page_url
                (reserve_task urls now b deadline task page_url db)
                (λ e. reserve_task-reason now b deadline task page_url db e)))

  -- If a page is admitted, the time of the run is not over, its budget allows the page's URL, and
  -- its task is not deeper than the budget says; if not, the limit that it met is in the table
  -- afterwards. The budget and the task are those of the state the call finds.
  pub reserve_page-Answer :
      (now : ℕ) (claim : Claim) (page_url : String) (db : Db) (b : Budget) (deadline : ℕ)
      (task : CrawlTask) {db' : Db} {a : Admission}
      → budget_from_run claim.task.run_id db ≡ ok (some (b, deadline))
      → find_task claim.task.id db ≡ some task
      → reserve_page urls now claim page_url db ≡ ok (db', a)
      → Answer urls now b deadline task page_url db' a
  reserve_page-Answer now claim page_url db b deadline task stored known e =
      of_Ensures (reserve_page-Ensures now claim page_url db b deadline task stored known) e
