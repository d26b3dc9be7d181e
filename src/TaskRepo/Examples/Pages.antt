-- ===== src/TaskRepo/Examples/Pages.antt =====
-- Pages, children and budgets in the example.
use get_magnet.Common.{◌≤◌, max, ◌≡◌, refl, some, [], ◌∷◌, first, update, exists, count, ok, chains}
use get_magnet.CrawlPolicy.{allows, lists_host}
use get_magnet.TaskRepo.Admitting.{IsWithin, reserve_page-IsWithin, Answer}
use get_magnet.TaskRepo.Answering.{reserve_page-Answer}
use get_magnet.TaskRepo.Budgets.{
  admitted, reserve_page, reserve_row, reserve_domain, hostname_of, page_reason, settle,
  reserve_task, reserve_slot, budget_from_run, deadline_of,
}
use get_magnet.TaskRepo.Claims.{claim_row}
use get_magnet.TaskRepo.Create.{
  Request, Created, create_workflow_child, new_task, insert_task, child_limit, child_budget,
}
use get_magnet.TaskRepo.Creating.{
  Replays, create_workflow_child-Replays, create_workflow_child-IsWithin,
}
use get_magnet.TaskRepo.Examples.{
  one_page, small_budget, page_input, a_run, child_row, claimed_row, first_claim,
}
use get_magnet.TaskRepo.Examples.Histories.{first-IsConsistent, root_found}
use get_magnet.TaskRepo.Outcome.{in_run}
use get_magnet.TaskRepo.Store.{Db, claimable, fenced, start_run, input_or_empty}

-- The first worker reserves the page of the root task.
abbrev reserved : Db
reserved = record first_claim.0 {
  tasks = reserve_row "a.com" claimed_row ∷ child_row ∷ [];
  run_domains = record { run_id = 1; hostname = "a.com" } ∷ [];
}

page_reserved :
    reserve_page one_page 20 first_claim.1 "https://a.com" first_claim.0 ≡ ok (reserved, admitted)
unfolding reserve_page chains claim_row claimable fenced first exists count update start_run
    hostname_of page_reason settle reserve_task reserve_slot reserve_domain budget_from_run allows
    lists_host
page_reserved = refl

budget_stored :
    budget_from_run 1 first_claim.0 ≡ ok (some (small_budget, deadline_of a_run small_budget))
unfolding budget_from_run chains claim_row first start_run update claimable
budget_stored = refl

reserve_page-IsWithin_example : IsWithin 1 small_budget first_claim.0 reserved
unfolding claim_row
reserve_page-IsWithin_example =
    reserve_page-IsWithin one_page 20 first_claim.1 "https://a.com" first_claim.0 small_budget
      (deadline_of a_run small_budget) claimed_row first-IsConsistent budget_stored root_found
      page_reserved

reserve_page-Answer_example :
    Answer one_page 20 small_budget
      (deadline_of a_run small_budget)
      claimed_row
      "https://a.com"
      reserved
      admitted
unfolding claim_row
reserve_page-Answer_example =
    reserve_page-Answer one_page 20 first_claim.1 "https://a.com" first_claim.0 small_budget
      (deadline_of a_run small_budget) claimed_row budget_stored root_found page_reserved

-- The root task asks for another child.
abbrev another : Request
another = record {
  run_id = 1;
  parent = 1;
  step_name = "page";
  task_type = "workflow";
  input = page_input;
  max_attempts = 5;
}

abbrev with_child : Db × Created
unfolding input_or_empty
with_child = insert_task 20 (new_task first_claim.0 20 another (some 1) 1) first_claim.0

child_made : create_workflow_child one_page 20 another claimed_row first_claim.0 ≡ ok with_child
unfolding create_workflow_child chains claim_row claimable first count update start_run child_limit
    child_budget budget_from_run allows lists_host insert_task input_or_empty
child_made = refl

create_workflow_child-Replays_example : Replays one_page another with_child
create_workflow_child-Replays_example =
    create_workflow_child-Replays one_page 20 another claimed_row first_claim.0 child_made

create_workflow_child-IsWithin_example :
    count (in_run 1) with_child.0.tasks
    ≤ max (count (in_run 1) first_claim.0.tasks) small_budget.max_tasks
create_workflow_child-IsWithin_example =
    create_workflow_child-IsWithin one_page 20 another claimed_row first_claim.0 small_budget
      (deadline_of a_run small_budget) budget_stored child_made
