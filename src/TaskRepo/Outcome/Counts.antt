-- ===== src/TaskRepo/Outcome/Counts.antt =====
-- The counts of tasks in a run's summary (`RunSummary.Add` of internal/repo/task_repo/run_summary.go).
use get_magnet.Common.{
  ◌+◌, ◌==◌, ◌≡◌, refl, ◌∙◌, Bool, true, false, Option, none, some, List, [], ◌∷◌, length, count,
  arith, inl, inr, Bool-cases, Option-cases,
}
use get_magnet.Table.Status.{TaskStatus}
use get_magnet.Table.Rows.{
  CrawlTask, TaskAttempt, RunSummary, Snapshot, Output, RecordResult, Decision,
}
use get_magnet.TaskRepo.Outcome.{summarize, latest_response}
use get_magnet.TaskRepo.Summary.{
  add, add_response, add_output, add_results, count_status, count_decision, decode_output,
}

abbrev pub is_succeeded : TaskStatus → Bool
is_succeeded TaskStatus.succeeded = true
is_succeeded _ = false

abbrev pub is_failure : TaskStatus → Bool
is_failure TaskStatus.failed = true
is_failure TaskStatus.dead_letter = true
is_failure _ = false

abbrev pub is_cancelled : TaskStatus → Bool
is_cancelled TaskStatus.cancelled = true
is_cancelled _ = false

-- What the counts of tasks are after some tasks more.
pub record Tallies (ts : List CrawlTask) (s s' : RunSummary) : Type 0 where
  pub pages : s'.pages ≡ s.pages + length ts
  pub succeeded : s'.succeeded ≡ s.succeeded + count (λ t. is_succeeded t.status) ts
  pub failed : s'.failed ≡ s.failed + count (λ t. is_failure t.status) ts
  pub cancelled : s'.cancelled ≡ s.cancelled + count (λ t. is_cancelled t.status) ts

-- The counts that a response does not touch.
record Untouched (s s' : RunSummary) : Type 0 where
  pages : s'.pages ≡ s.pages
  succeeded : s'.succeeded ≡ s.succeeded
  failed : s'.failed ≡ s.failed
  cancelled : s'.cancelled ≡ s.cancelled

count_decision-Untouched : (d : Decision) (s : RunSummary) → Untouched s (count_decision d s)
unfolding count_decision
count_decision-Untouched Decision.created s = record {
  pages = refl;
  succeeded = refl;
  failed = refl;
  cancelled = refl;
}
count_decision-Untouched Decision.updated s = record {
  pages = refl;
  succeeded = refl;
  failed = refl;
  cancelled = refl;
}
count_decision-Untouched Decision.unchanged s = record {
  pages = refl;
  succeeded = refl;
  failed = refl;
  cancelled = refl;
}
count_decision-Untouched Decision.other s = record {
  pages = refl;
  succeeded = refl;
  failed = refl;
  cancelled = refl;
}

Untouched-trans : {s s' s'' : RunSummary} → Untouched s s' → Untouched s' s'' → Untouched s s''
Untouched-trans h k = record {
  pages = k.pages ∙ h.pages;
  succeeded = k.succeeded ∙ h.succeeded;
  failed = k.failed ∙ h.failed;
  cancelled = k.cancelled ∙ h.cancelled;
}

Untouched-refl : (s : RunSummary) → Untouched s s
Untouched-refl s = record { pages = refl; succeeded = refl; failed = refl; cancelled = refl }

add_results-Untouched : (rs : List RecordResult) (s : RunSummary) → Untouched s (add_results rs s)
unfolding add_results
add_results-Untouched [] s = Untouched-refl s
add_results-Untouched (r ∷ rs) s = elim (Bool-cases (r.record_id == 0)) [
  | inl missing ↦ rw missing (add_results-Untouched rs s)
  | inr there ↦ rw there (
      Untouched-trans
        (Untouched-trans
          (record { pages = refl; succeeded = refl; failed = refl; cancelled = refl })
          (count_decision-Untouched r.decision (record s { records = s.records + 1 })))
        (add_results-Untouched rs
          (count_decision r.decision (record s { records = s.records + 1 }))))
]

add_output-Untouched : (o : Output) (s : RunSummary) → Untouched s (add_output o s)
unfolding add_output
add_output-Untouched o s =
    let results =
      add_results-Untouched o.record_results
        (record s { discovered = s.discovered + o.discovered_count }) in
    Untouched-trans
      {s' = add_results o.record_results
        (record s { discovered = s.discovered + o.discovered_count })}
      (Untouched-trans (record { pages = refl; succeeded = refl; failed = refl; cancelled = refl })
        results)
      (record {
        pages = ground arith;
        succeeded = ground arith;
        failed = ground arith;
        cancelled = ground arith;
      })

add_response-Untouched :
    (status : TaskStatus) (response : Option Snapshot) (s : RunSummary)
    → Untouched s (add_response status response s)
unfolding add_response
add_response-Untouched TaskStatus.succeeded (some snapshot) s =
    elim (Option-cases (decode_output snapshot)) [
      | inl bad ↦ rw (bad, add_response) (Untouched-refl s)
      | inr (o, e) ↦ rw (e, add_response) (add_output-Untouched o s)
    ]
add_response-Untouched TaskStatus.succeeded none s = Untouched-refl s
add_response-Untouched _ _ s = Untouched-refl s

add-Tallies :
    (t : CrawlTask) (response : Option Snapshot) (s : RunSummary)
    → Tallies (t ∷ []) s (add t.status response s)
unfolding add count_status count
add-Tallies t response s =
    let u =
      add_response-Untouched t.status response
        (count_status t.status (record s { pages = s.pages + 1 })) in
    record {
      pages = ground (arith, u.pages);
      succeeded = ground (arith, u.succeeded);
      failed = ground (arith, u.failed);
      cancelled = ground (arith, u.cancelled);
    }

pub summarize-Tallies :
    (attempts : List TaskAttempt) (ts : List CrawlTask) (s : RunSummary)
    → Tallies ts s (summarize attempts ts s)
unfolding summarize count
summarize-Tallies attempts [] s = record {
  pages = omega arith;
  succeeded = omega arith;
  failed = omega arith;
  cancelled = omega arith;
}
summarize-Tallies attempts (t ∷ ts) s =
    let one = add-Tallies t (latest_response attempts t) s in
    let more = summarize-Tallies attempts ts (add t.status (latest_response attempts t) s) in
    record {
      pages = omega (arith, one.pages, more.pages);
      succeeded = omega (arith, one.succeeded, more.succeeded);
      failed = omega (arith, one.failed, more.failed);
      cancelled = omega (arith, one.cancelled, more.cancelled);
    }
