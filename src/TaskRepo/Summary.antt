-- ===== src/TaskRepo/Summary.antt =====
-- internal/repo/task_repo/run_summary.go: a run's summary, rebuilt from its tasks.
use get_magnet.Common.{
  ◌+◌, ◌==◌, ltb, Bool, false, ◌&&◌, ◌||◌, Option, none, some, List, [], ◌∷◌, length, if◌then◌else◌,
}
use get_magnet.Table.Status.{RunStatus, TaskStatus}
use get_magnet.Table.Rows.{Decision, RecordResult, Output, Snapshot, Coverage, RunSummary}

abbrev pub empty_coverage : Coverage
empty_coverage = record {
  tasks = 0;
  pages_reserved = 0;
  pages_with_documents = 0;
  max_depth = 0;
  domains = [];
  limited_tasks = 0;
  limit_reasons = [];
}

abbrev pub empty_summary : RunSummary
empty_summary = record {
  pages = 0;
  succeeded = 0;
  failed = 0;
  cancelled = 0;
  limited = 0;
  discovered = 0;
  resources = 0;
  records = 0;
  created = 0;
  updated = 0;
  unchanged = 0;
  coverage = empty_coverage;
}

abbrev pub empty_output : Output
empty_output = record {
  discovered_count = 0;
  resource_id = 0;
  limited = false;
  record_results = [];
}

-- `json.Unmarshal` of a stored response; `{"value": text}` has none of the members.
unfoldable pub decode_output : Snapshot → Option Output
decode_output (Snapshot.document text output) = output
decode_output (Snapshot.wrapped text) = some empty_output

-- The first `switch` of `Add`.
unfoldable pub count_status : TaskStatus → RunSummary → RunSummary
count_status TaskStatus.succeeded s = record s { succeeded = s.succeeded + 1 }
count_status TaskStatus.failed s = record s { failed = s.failed + 1 }
count_status TaskStatus.dead_letter s = record s { failed = s.failed + 1 }
count_status TaskStatus.cancelled s = record s { cancelled = s.cancelled + 1 }
count_status TaskStatus.limited s = record s { limited = s.limited + 1 }
count_status _ s = s

unfoldable pub count_decision : Decision → RunSummary → RunSummary
count_decision Decision.created s = record s { created = s.created + 1 }
count_decision Decision.updated s = record s { updated = s.updated + 1 }
count_decision Decision.unchanged s = record s { unchanged = s.unchanged + 1 }
count_decision Decision.other s = s

-- The loop over `record_results`; a result without an id is passed over.
unfoldable pub add_results : List RecordResult → RunSummary → RunSummary
unfolding count_decision
add_results [] s = s
add_results (r ∷ rs) s = add_results rs (
    if r.record_id == 0
    then s
    else count_decision r.decision (record s { records = s.records + 1 }))

unfoldable pub add_output : Output → RunSummary → RunSummary
unfolding add_results
add_output o s =
    let s₁ =
      add_results o.record_results (record s { discovered = s.discovered + o.discovered_count }) in
    let s₂ = if ltb 0 o.resource_id then record s₁ { resources = s₁.resources + 1 } else s₁ in
    if o.limited then record s₂ { limited = s₂.limited + 1 } else s₂

-- What `Add` does with the response, of a succeeded task only.
unfoldable pub add_response : TaskStatus → Option Snapshot → RunSummary → RunSummary
unfolding add_output decode_output
add_response TaskStatus.succeeded (some snapshot) s = elim (decode_output snapshot) [
  | none ↦ s
  | some o ↦ add_output o s
]
add_response _ _ s = s

-- `none` is the empty text, which does not decode.
unfoldable pub add : TaskStatus → Option Snapshot → RunSummary → RunSummary
unfolding count_status add_response
add status response s =
    add_response status response (count_status status (record s { pages = s.pages + 1 }))

unfoldable pub status_of : RunSummary → RunStatus
status_of s =
    if ltb 0 s.cancelled
    then RunStatus.cancelled
    else if s.resources == 0 && s.records == 0
    then RunStatus.failed
    else if ltb 0 s.limited || ltb 0 (length s.coverage.limit_reasons)
    then RunStatus.limited
    else if ltb 0 s.failed
    then RunStatus.partial
    else RunStatus.succeeded

-- `aggregateRunStatus`, for runs with no workflow task.
unfoldable pub aggregate_run_status : Bool → Bool → RunStatus
aggregate_run_status failed cancelled =
    if failed
    then RunStatus.failed
    else if cancelled
    then RunStatus.cancelled
    else RunStatus.succeeded
