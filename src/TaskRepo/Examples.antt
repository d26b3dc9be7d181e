-- ===== src/TaskRepo/Examples.antt =====
-- A small table of tasks, for tests and concrete runs of the theorems.
pub mod Histories
pub mod Ends
pub mod Pages
use get_magnet.Common.{
  ℕ, ◌+◌, ◌≤◌, ◌<◌, ◌==◌, ltb, leb, ◌≡◌, refl, Bool, true, false, Option, none, some, String,
  str_eq, List, [], ◌∷◌, ◌++◌, if◌then◌else◌, first, arith,
}
use get_magnet.CrawlPolicy.{Url, Urls, Budget}
use get_magnet.Table.Status.{RunStatus, TaskStatus}
use get_magnet.Table.Rows.{WorkflowRun, CrawlTask, TaskInput, Summary}
use get_magnet.TaskRepo.Claims.{Claim, claim_row}
use get_magnet.TaskRepo.Invariant.{IsConsistent}
use get_magnet.TaskRepo.Store.{Db, max_attempt_no}

abbrev pub web_page : Url
web_page = record {
  scheme = "https";
  hostname = "a.com";
  port = "";
  path = "";
  raw_query = "";
  fragment = "";
  has_user = false;
}

-- An internet of one page.
abbrev pub one_page : Urls
one_page = record {
  parse = λ s. if str_eq s "https://a.com" then some web_page else none;
  to_lower = λ s. s;
  equal_fold = str_eq;
  is_ip = λ s. false;
  contains = λ s t. false;
  contains_any = λ s t. false;
}

abbrev pub small_budget : Budget
small_budget = record {
  max_discovered_per_page = 10;
  max_tasks = 3;
  max_pages = 2;
  max_depth = 4;
  max_duration_seconds = 60;
  max_domains = 1;
  allowed_domains = "a.com" ∷ [];
}

abbrev pub page_input : TaskInput
page_input = record {
  document = "{\"url\":\"https://a.com\"}";
  url = "https://a.com";
  decodes = true;
}

abbrev pub a_run : WorkflowRun
a_run = record {
  id = 1;
  workflow_id = 1;
  workflow_version_id = 1;
  trigger_type = "manual";
  status = RunStatus.running;
  input = page_input;
  summary = Summary.blank;
  budget = some small_budget;
  started_at = some 1;
  finished_at = none;
  created_by = none;
  created_at = 1;
}

abbrev pub queued_row : ℕ → Option ℕ → String → ℕ → CrawlTask
queued_row id parent step created = record {
  id = id;
  run_id = 1;
  parent_task_id = parent;
  step_name = step;
  task_type = "workflow";
  input = page_input;
  depth = 0;
  page_reserved = false;
  page_host = "";
  status = TaskStatus.queued;
  attempt_count = 0;
  max_attempts = 5;
  next_retry_at = none;
  lease_owner = "";
  lease_until = none;
  output_document_id = none;
  error_message = "";
  created_at = created;
  updated_at = created;
  finished_at = none;
}

abbrev pub root_row : CrawlTask
root_row = queued_row 1 none "list" 1

abbrev pub child_row : CrawlTask
child_row = queued_row 2 (some 1) "detail" 2

-- One run with a root task and its child.
abbrev pub start : Db
start = record {
  runs = a_run ∷ [];
  tasks = root_row ∷ child_row ∷ [];
  attempts = [];
  limit_events = [];
  run_domains = [];
  observations = [];
  versions = [];
  next_run_id = 2;
  next_task_id = 3;
  next_attempt_id = 1;
}

pub start-IsConsistent : IsConsistent start
unfolding first max_attempt_no
start-IsConsistent = record {
  rows = (
    record { live = λ h. refl; leased = refl; capped = omega arith },
    (record { live = λ h. refl; leased = refl; capped = omega arith }, tt),
  );
  numbered = (refl, (refl, tt));
  distinct = ((omega arith, tt), (tt, tt));
  fresh_tasks = (omega arith, (omega arith, tt));
  fresh_attempts = tt;
  fresh_runs = (omega arith, tt);
}

-- Worker w1 claims the root task; its lease runs out at 70, and at 100 worker w2 claims it.
abbrev pub first_claim : Db × Claim
first_claim = claim_row 10 "w1" 60 "" root_row start

abbrev pub claimed_row : CrawlTask
claimed_row = record root_row {
  status = TaskStatus.running;
  attempt_count = 1;
  lease_owner = "w1";
  lease_until = some 70;
  updated_at = 10;
}

abbrev pub second_claim : Db × Claim
second_claim = claim_row 100 "w2" 60 "" claimed_row first_claim.0
