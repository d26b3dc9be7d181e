-- ===== src/TaskRepo/Creating.antt =====
-- `createTask`: a workflow's child is made once, and within the run's limit of tasks.
use get_magnet.Common.{
  ◌||◌, fails, ℕ, ◌+◌, ◌≤◌, ◌<◌, ltb, leb, max, ◌≡◌, refl, ◌∙◌, Bool, true, false, not, Option,
  none, some, String, str_eq, eq_iff, [], ◌∷◌, if◌then◌else◌, count, count-append, first,
  first-append_none, All-of_first-none, inl, inr, Bool-cases, Option-cases, arith, Ensures,
  Ensures->>=, succeeds, of_Ensures, ok, chains,
}
use get_magnet.CrawlPolicy.{Urls, Budget, allows}
use get_magnet.Table.Rows.{CrawlTask, Reason, LimitRow}
use get_magnet.TaskRepo.Budgets.{budget_from_run}
use get_magnet.TaskRepo.Create.{
  Request, Created, new_task, insert_task, create_workflow_child, child_budget, child_limit,
  same_work,
}
use get_magnet.TaskRepo.Finish.{limit_event}
use get_magnet.TaskRepo.Outcome.{in_run}
use get_magnet.TaskRepo.Store.{Db, input_or_empty}

str_eq_refl : (s : String) → str_eq s s ≡ true
str_eq_refl s = (eq_iff s s).1 refl

-- The new row is the work that was asked for.
same_work-new :
    (db : Db) (now : ℕ) (q : Request) (parent : Option ℕ) (depth : ℕ)
    → same_work q (new_task db now q parent depth) ≡ true
same_work-new db now q parent depth =
    rw (str_eq_refl q.task_type, str_eq_refl q.step_name)
      (elim (Bool-cases (str_eq (input_or_empty q.input).url "")) [
        | inl blank ↦ rw (blank, str_eq_refl (input_or_empty q.input).document) (ground arith)
        | inr url ↦ rw (url, str_eq_refl (input_or_empty q.input).url) (ground arith)
      ])

not_full :
    (late outside deep full many : Bool)
    → ◌≡◌ {A = Option Reason}
        (if late
          then some Reason.max_duration_seconds
          else if outside
          then some Reason.allowed_domains
          else if deep
          then some Reason.max_depth
          else if full
          then some Reason.max_tasks
          else if many
          then some Reason.max_discovered_per_page
          else none)
        none
    → full ≡ false
not_full true outside deep full many e = cc
not_full false true deep full many e = cc
not_full false false true full many e = cc
not_full false false false true many e = cc
not_full false false false false many e = refl

-- The answer to the same request at any later time, for any parent that is read then.
abbrev pub Replays : Urls → Request → Db × Created → Type 0
Replays urls q (db', Created.made t) =
    (later : ℕ) (parent : CrawlTask)
    → create_workflow_child urls later q parent db' ≡ ok (db', Created.existing t)
Replays urls q (db', Created.existing t) =
    (later : ℕ) (parent : CrawlTask)
    → create_workflow_child urls later q parent db' ≡ ok (db', Created.existing t)
Replays urls q (db', Created.over_budget reason) = Unit {0}

module _ (urls : Urls) where
  create_workflow_child-existing :
      (now : ℕ) (q : Request) (parent t : CrawlTask) (db : Db)
      → first (same_work q) db.tasks ≡ some t
      → create_workflow_child urls now q parent db ≡ ok (db, Created.existing t)
  unfolding create_workflow_child
  create_workflow_child-existing now q parent t db e = rw (e, create_workflow_child) refl

  insert_task-Replays :
      (now : ℕ) (q : Request) (depth : ℕ) (db : Db)
      → first (same_work q) db.tasks ≡ none
      → Replays urls q (insert_task now (new_task db now q (some q.parent) depth) db)
  unfolding insert_task first
  insert_task-Replays now q depth db new later parent =
      create_workflow_child-existing later q parent (new_task db now q (some q.parent) depth)
        (insert_task now (new_task db now q (some q.parent) depth) db).0
        (first-append_none (same_work q) db.tasks (new_task db now q (some q.parent) depth ∷ [])
            (All-of_first-none (same_work q) db.tasks new)
          ∙ rw (same_work-new db now q (some q.parent) depth) refl)

  create_workflow_child-Ensures :
      (now : ℕ) (q : Request) (parent : CrawlTask) (db : Db)
      → Ensures (Replays urls q) (create_workflow_child urls now q parent db)
  unfolding create_workflow_child
  create_workflow_child-Ensures now q parent db =
      elim (Option-cases (first (same_work q) db.tasks)) [
        | inr (t, found) ↦
            rw (found, create_workflow_child)
              (succeeds (λ later p. create_workflow_child-existing later q p t db found))
        | inl new ↦
            rw (new, create_workflow_child)
              (Ensures->>= λ limit read. elim (Option-cases limit.0) [
                | inr (reason, over) ↦ rw over (succeeds tt)
                | inl free ↦ rw free (succeeds (insert_task-Replays now q limit.1 db new))
              ])
      ]

  -- A request for a workflow's child that gave a task, new or not, gives the same task again and
  -- changes nothing, whenever and for whatever parent it is repeated on the state it left; a
  -- request over the budget says nothing of later ones.
  pub create_workflow_child-Replays :
      (now : ℕ) (q : Request) (parent : CrawlTask) (db : Db) {r : Db × Created}
      → create_workflow_child urls now q parent db ≡ ok r
      → Replays urls q r
  create_workflow_child-Replays now q parent db e =
      of_Ensures (create_workflow_child-Ensures now q parent db) e

  limit_event-tasks : (db : Db) (now : ℕ) (e : LimitRow) → (limit_event e db).tasks ≡ db.tasks
  unfolding limit_event
  limit_event-tasks db now e = ground arith

  insert_task-count :
      (now : ℕ) (q : Request) (t : CrawlTask) (db : Db)
      → count (in_run q.run_id) (insert_task now t db).0.tasks
        ≤ count (in_run q.run_id) db.tasks + 1
  unfolding insert_task count
  insert_task-count now q t db =
      rw (count-append (in_run q.run_id) db.tasks (t ∷ [])) (ground arith)

  -- A child that meets no limit finds the run below its limit of tasks.
  child_limit-room :
      (now : ℕ) (b : Budget) (deadline : ℕ) (q : Request) (parent : CrawlTask) (db : Db)
      → child_limit urls now b deadline q parent db ≡ none
      → count (in_run q.run_id) db.tasks < b.max_tasks
  unfolding child_limit
  child_limit-room now b deadline q parent db e =
      let room : leb b.max_tasks (count (in_run q.run_id) db.tasks) ≡ false =
        not_full (ltb deadline now) (not (allows urls b (input_or_empty q.input).url))
          (ltb b.max_depth (parent.depth + 1)) (leb b.max_tasks (count (in_run q.run_id) db.tasks))
          _ e in
      ground (arith, room)

  create_workflow_child-few :
      (now : ℕ) (q : Request) (parent : CrawlTask) (db : Db) (b : Budget) (deadline : ℕ)
      → budget_from_run q.run_id db ≡ ok (some (b, deadline))
      → Ensures
          (λ r.
            count (in_run q.run_id) r.0.tasks ≤ max (count (in_run q.run_id) db.tasks) b.max_tasks)
          (create_workflow_child urls now q parent db)
  unfolding create_workflow_child child_budget chains
  create_workflow_child-few now q parent db b deadline stored =
      elim (Option-cases (first (same_work q) db.tasks)) [
        | inr (t, found) ↦ rw (found, create_workflow_child) (succeeds (omega arith))
        | inl new ↦ elim (Bool-cases (ltb deadline now || (input_or_empty q.input).decodes)) [
          | inr refused ↦ rw (new, create_workflow_child, stored, refused) fails
          | inl decoded ↦ elim (Option-cases (child_limit urls now b deadline q parent db)) [
            | inr (reason, over) ↦
                rw (new, create_workflow_child, stored, decoded, over)
                  (succeeds (rw (limit_event-tasks db now _) (omega arith)))
            | inl free ↦
                rw (new, create_workflow_child, stored, decoded, free)
                  (succeeds (
                    omega (
                      arith,
                      child_limit-room now b deadline q parent db free,
                      insert_task-count now q (new_task db now q (some q.parent) (parent.depth + 1))
                          db,
                    )))
          ]
        ]
      ]

  -- In a run with a budget, the creation of a workflow's child keeps the run's tasks within the
  -- larger of the budget's limit and what they were.
  pub create_workflow_child-IsWithin :
      (now : ℕ) (q : Request) (parent : CrawlTask) (db : Db) (b : Budget) (deadline : ℕ) {db' : Db}
      {made : Created}
      → budget_from_run q.run_id db ≡ ok (some (b, deadline))
      → create_workflow_child urls now q parent db ≡ ok (db', made)
      → count (in_run q.run_id) db'.tasks ≤ max (count (in_run q.run_id) db.tasks) b.max_tasks
  create_workflow_child-IsWithin now q parent db b deadline stored e =
      of_Ensures (create_workflow_child-few now q parent db b deadline stored) e
