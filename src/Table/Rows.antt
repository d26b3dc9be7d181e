-- ===== src/Table/Rows.antt =====
-- The rows of `workflow_runs`, `crawl_tasks`, `task_attempts` and the tables of a run's limits
-- (internal/db/table/resources.go). Ids and times are natural numbers, a time in nanoseconds
-- since Go's zero time; a nullable column is an `Option`.
use get_magnet.Common.{ℕ, Bool, true, Option, String, List}
use get_magnet.CrawlPolicy.{Budget}
use get_magnet.Table.Status.{RunStatus, TaskStatus, AttemptStatus}

-- A task's input document: the text that the database keeps for it, its "url" member, which is ""
-- where the document has none, and whether a document with that member as a text can be decoded.
pub record TaskInput : Type 0 where
  pub document : String
  pub url : String
  pub decodes : Bool

abbrev pub empty_input : TaskInput
empty_input = record { document = "{}"; url = ""; decodes = true }

pub data Decision : Type 0 where
  created updated unchanged other : Decision

pub record RecordResult : Type 0 where
  pub record_id : ℕ
  pub decision : Decision

-- The members that `RunSummary.Add` reads from a task's response.
pub record Output : Type 0 where
  pub discovered_count : ℕ
  pub resource_id : ℕ
  pub limited : Bool
  pub record_results : List RecordResult

-- A stored JSON document, with what it decodes to as an `Output` (`none` if it does not), or
-- `{"value": text}` around a text that is no JSON.
pub data Snapshot : Type 0 where
  document : String → Option Output → Snapshot
  wrapped : String → Snapshot

pub data Reason : Type 0 where
  max_duration_seconds allowed_domains max_depth max_tasks max_discovered_per_page : Reason
  max_pages max_domains : Reason

pub record Coverage : Type 0 where
  pub tasks : ℕ
  pub pages_reserved : ℕ
  pub pages_with_documents : ℕ
  pub max_depth : ℕ
  pub domains : List String
  pub limited_tasks : ℕ
  pub limit_reasons : List (Reason × ℕ)

pub record RunSummary : Type 0 where
  pub pages : ℕ
  pub succeeded : ℕ
  pub failed : ℕ
  pub cancelled : ℕ
  pub limited : ℕ
  pub discovered : ℕ
  pub resources : ℕ
  pub records : ℕ
  pub created : ℕ
  pub updated : ℕ
  pub unchanged : ℕ
  pub coverage : Coverage

-- `workflow_runs.summary`: "{}", a summary at the end of the run, or a text stored before it.
pub data Summary : Type 0 where
  blank : Summary
  of_run : RunSummary → Summary
  of_worker : Snapshot → Summary

pub record WorkflowRun : Type 0 where
  pub id : ℕ
  pub workflow_id : ℕ
  pub workflow_version_id : ℕ
  pub trigger_type : String
  pub status : RunStatus
  pub input : TaskInput
  pub summary : Summary
  -- `none` is the column's default "{}".
  pub budget : Option Budget
  pub started_at : Option ℕ
  pub finished_at : Option ℕ
  pub created_by : Option ℕ
  pub created_at : ℕ

pub record CrawlTask : Type 0 where
  pub id : ℕ
  pub run_id : ℕ
  pub parent_task_id : Option ℕ
  pub step_name : String
  pub task_type : String
  pub input : TaskInput
  pub depth : ℕ
  pub page_reserved : Bool
  pub page_host : String
  pub status : TaskStatus
  pub attempt_count : ℕ
  pub max_attempts : ℕ
  pub next_retry_at : Option ℕ
  pub lease_owner : String
  pub lease_until : Option ℕ
  pub output_document_id : Option ℕ
  pub error_message : String
  pub created_at : ℕ
  pub updated_at : ℕ
  pub finished_at : Option ℕ

-- What an attempt was asked: a task's input, or `{"value": text}` around a text that is no JSON.
pub data RequestSnapshot : Type 0 where
  of_input : TaskInput → RequestSnapshot
  wrapped : String → RequestSnapshot

pub record TaskAttempt : Type 0 where
  pub id : ℕ
  pub task_id : ℕ
  pub attempt_no : ℕ
  pub worker_id : String
  pub status : AttemptStatus
  pub started_at : Option ℕ
  pub finished_at : Option ℕ
  pub duration_ms : ℕ
  pub request_snapshot : RequestSnapshot
  pub response_snapshot : Snapshot
  pub error_message : String

-- A row of `run_limit_events`.
pub record LimitRow : Type 0 where
  pub run_id : ℕ
  pub task_id : ℕ
  pub page_role : String
  pub url : String
  pub reason : Reason

-- A row of `run_domains`.
pub record DomainRow : Type 0 where
  pub run_id : ℕ
  pub hostname : String

-- What a run's end reads of `record_observations`.
pub record Observation : Type 0 where
  pub run_id : ℕ
  pub decision : Decision
