-- ===== src/TaskRepo/Admitting.antt =====
-- What the budget promises of pages and domains: `ReservePage`.
use get_magnet.Common.{
  ℕ, ◌+◌, ◌≤◌, ◌==◌, leb, max, ◌≡◌, refl, sym, ap, ◌∙◌, ◌≢◌, Bool, true, ◌&&◌, Option, none, some,
  String, str_eq, List, [], ◌∷◌, if◌then◌else◌, All, exists, count, count-append, update, inl, inr,
  Bool-cases, Option-cases, arith, some-injective, Ensures, Ensures-guard, Ensures-or_fail,
  Ensures->>=, succeeds, of_Ensures, ok, ok-injective,
}
use get_magnet.CrawlPolicy.{Urls, Budget, allows}
use get_magnet.Table.Rows.{CrawlTask, DomainRow, LimitRow, Reason}
use get_magnet.TaskRepo.Budgets.{
  Admission, admitted, exceeded, reserve_domain, settle, reserve_row, reserve_slot, reserve_task,
  reserve_page, page_reason, hostname_of, reserved_in, budget_from_run,
}
use get_magnet.TaskRepo.Claims.{Claim}
use get_magnet.TaskRepo.Finish.{limit_event, limit_row, same_limit}
use get_magnet.TaskRepo.Invariant.{IsConsistent, Distinct, ids}
use get_magnet.TaskRepo.Store.{Db, find_task}

abbrev pub domain_in : ℕ → DomainRow → Bool
domain_in run_id d = d.run_id == run_id

-- A run's reserved pages and its domains are no more than before, or within the budget.
pub record IsWithin (run_id : ℕ) (b : Budget) (db db' : Db) : Type 0 where
  pub pages :
      count (reserved_in run_id) db'.tasks ≤ max (count (reserved_in run_id) db.tasks) b.max_pages
  pub domains :
      count (domain_in run_id) db'.run_domains
      ≤ max (count (domain_in run_id) db.run_domains) b.max_domains

no_other :
    (id : ℕ) (f : CrawlTask → CrawlTask) (ts : List CrawlTask)
    → All (λ m. m ≢ id) (ids ts)
    → update (λ t. t.id == id) f ts ≡ ts
unfolding update
no_other id f [] h = refl
no_other id f (t ∷ ts) h = elim (Bool-cases (t.id == id)) [
  | inl same ↦ absurd (h.0 (ground (arith, same)))
  | inr other ↦ rw other (ap (◌∷◌ t) (no_other id f ts h.1))
]

-- The update of one row adds at most one to a count.
count-update_one :
    (p : CrawlTask → Bool) (id : ℕ) (f : CrawlTask → CrawlTask) (ts : List CrawlTask)
    → Distinct (ids ts)
    → count p (update (λ t. t.id == id) f ts) ≤ count p ts + 1
unfolding count update
count-update_one p id f [] d = omega arith
count-update_one p id f (t ∷ ts) d = elim (Bool-cases (t.id == id)) [
  | inl same ↦
      let is : t.id ≡ id = ground (arith, same) in
      let rest = no_other id f ts (rw is at d.0) in
      rw (same, rest) (at_most_one (p (f t)) (p t) (count p ts))
  | inr other ↦ rw other (more _ (count p ts) (p t) (count-update_one p id f ts d.1))
]
  where
    at_most_one : (b c : Bool) (n : ℕ) → (if b then 1 else 0) + n ≤ (if c then 1 else 0) + n + 1
    at_most_one b c n = ground arith

    more :
        (m n : ℕ) (c : Bool) → m ≤ n + 1 → (if c then 1 else 0) + m ≤ (if c then 1 else 0) + n + 1
    more m n c h = omega (arith, h)

reserve_domain-tasks :
    (run_id : ℕ) (b : Budget) (hostname : String) (db : Db)
    → (reserve_domain run_id b hostname db).0.tasks ≡ db.tasks
unfolding reserve_domain
reserve_domain-tasks run_id b hostname db = ground arith

reserve_domain-count :
    (run_id : ℕ) (b : Budget) (hostname : String) (db : Db)
    → count (domain_in run_id) (reserve_domain run_id b hostname db).0.run_domains
      ≤ max (count (domain_in run_id) db.run_domains) b.max_domains
unfolding reserve_domain count
reserve_domain-count run_id b hostname db =
    elim (Bool-cases (
      exists (λ (d : DomainRow). (d.run_id == run_id) && str_eq d.hostname hostname)
        db.run_domains)) [
          | inl known ↦ rw (known, reserve_domain) (omega arith)
          | inr new ↦
              elim (Bool-cases (leb b.max_domains (count (domain_in run_id) db.run_domains))) [
                | inl full ↦ rw (new, full, reserve_domain) (omega arith)
                | inr room ↦
                    rw
                      (
                        new,
                        room,
                        reserve_domain,
                        count-append (domain_in run_id) db.run_domains
                            (record { run_id = run_id; hostname = hostname } ∷ []),
                      )
                      (ground (arith, room))
              ]
        ]

IsWithin-same : (run_id : ℕ) (b : Budget) (db : Db) → IsWithin run_id b db db
IsWithin-same run_id b db = record { pages = omega arith; domains = omega arith }

limit_event-rows :
    (e : LimitRow) (db : Db)
    → ((limit_event e db).tasks ≡ db.tasks) × ((limit_event e db).run_domains ≡ db.run_domains)
unfolding limit_event
limit_event-rows e db = ground arith

settle-IsWithin :
    (run_id : ℕ) (b : Budget) (db : Db) (t : CrawlTask) (page_url : String) (r : Db × Option Reason)
    → IsWithin run_id b db r.0
    → IsWithin run_id b db (settle t page_url r).0
unfolding settle
settle-IsWithin run_id b db t page_url (db', none) w = w
settle-IsWithin run_id b db t page_url (db', some reason) w =
    let kept = limit_event-rows (limit_row t page_url reason) db' in
    record { pages = rw (kept.0) w.pages; domains = rw (kept.1) w.domains }

module _ (urls : Urls) where
  reserve_slot-IsWithin :
      (b : Budget) (task : CrawlTask) (page_url : String) (db : Db)
      → IsConsistent db
      → IsWithin task.run_id b db (reserve_slot urls b task page_url db).0
  unfolding reserve_slot
  reserve_slot-IsWithin b task page_url db v =
      let host = hostname_of urls page_url in
      let kept = reserve_domain-tasks task.run_id b host db in
      let few = reserve_domain-count task.run_id b host db in
      elim (Bool-cases (leb b.max_pages (count (reserved_in task.run_id) db.tasks))) [
        | inl full ↦ rw (full, reserve_slot) (IsWithin-same task.run_id b db)
        | inr room ↦ elim (Option-cases (reserve_domain task.run_id b host db).1) [
          | inr (reason, e) ↦
              rw (room, e, reserve_slot) (record { pages = rw kept (omega arith); domains = few })
          | inl free ↦
              rw (room, free, reserve_slot)
                (record {
                  pages = rw kept (
                      ground (
                        arith,
                        room,
                        count-update_one (reserved_in task.run_id) task.id (reserve_row host)
                            db.tasks v.distinct,
                      ));
                  domains = few;
                })
        ]
      ]

  reserve_task-IsWithin :
      (now : ℕ) (b : Budget) (deadline : ℕ) (task : CrawlTask) (page_url : String) (db : Db)
      → IsConsistent db
      → IsWithin task.run_id b db (reserve_task urls now b deadline task page_url db).0
  unfolding reserve_task
  reserve_task-IsWithin now b deadline task page_url db v =
      elim (Option-cases (page_reason urls now b deadline task.depth page_url)) [
        | inr (reason, e) ↦ rw (e, reserve_task) (IsWithin-same task.run_id b db)
        | inl free ↦ elim (Bool-cases task.page_reserved) [
          | inl before ↦ rw (free, before, reserve_task) (IsWithin-same task.run_id b db)
          | inr new ↦ rw (free, new, reserve_task) (reserve_slot-IsWithin b task page_url db v)
        ]
      ]

  reserve_page-Ensures :
      (now : ℕ) (claim : Claim) (page_url : String) (db : Db) (b : Budget) (deadline : ℕ)
      (task : CrawlTask)
      → IsConsistent db
      → budget_from_run claim.task.run_id db ≡ ok (some (b, deadline))
      → find_task claim.task.id db ≡ some task
      → Ensures (λ r. IsWithin task.run_id b db r.0) (reserve_page urls now claim page_url db)
  unfolding reserve_page
  reserve_page-Ensures now claim page_url db b deadline task v stored known =
      Ensures-guard _ λ active. Ensures-guard _ λ fenced. Ensures->>= λ budget read.
        Ensures-or_fail _ λ limits there. Ensures-or_fail _ λ u found.
          let same : u ≡ task = some-injective (sym found ∙ known) in
          let own : limits ≡ (b, deadline) =
            some-injective (sym there ∙ ok-injective (sym read ∙ stored)) in
          succeeds (
            settle-IsWithin task.run_id b db u page_url
              (reserve_task urls now limits.0 limits.1 u page_url db)
              (rw (same, own) (reserve_task-IsWithin now b deadline task page_url db v)))

  -- From a consistent state, the reservation of a page keeps the run within its budget: its
  -- reserved pages and its domains do not grow beyond the larger of the limit and what they were.
  pub reserve_page-IsWithin :
      (now : ℕ) (claim : Claim) (page_url : String) (db : Db) (b : Budget) (deadline : ℕ)
      (task : CrawlTask) {db' : Db} {a : Admission}
      → IsConsistent db
      → budget_from_run claim.task.run_id db ≡ ok (some (b, deadline))
      → find_task claim.task.id db ≡ some task
      → reserve_page urls now claim page_url db ≡ ok (db', a)
      → IsWithin task.run_id b db db'
  reserve_page-IsWithin now claim page_url db b deadline task v stored known e =
      of_Ensures (reserve_page-Ensures now claim page_url db b deadline task v stored known) e

  -- What an answer says: an admitted page is in time, on an allowed domain and not too deep; for
  -- one that is not, the limit that it met is recorded.
  pub data Answer (now : ℕ) (b : Budget) (deadline : ℕ) (task : CrawlTask) (page_url : String)
      (db : Db) : Admission → Type 0 where
    good :
        now ≤ deadline
        → allows urls b page_url ≡ true
        → task.depth ≤ b.max_depth
        → Answer now b deadline task page_url db admitted
    bad :
        (reason : Reason)
        → exists (same_limit (limit_row task page_url reason)) db.limit_events ≡ true
        → Answer now b deadline task page_url db (exceeded reason)
