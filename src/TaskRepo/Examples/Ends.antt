-- ===== src/TaskRepo/Examples/Ends.antt =====
-- The ends of attempts, tasks and runs in the example.
use get_magnet.Common.{
  ◌+◌, ◌==◌, ltb, ◌≡◌, ◌≢◌, ◌↔◌, refl, true, false, ◌&&◌, none, some, [], ◌∷◌, first, select,
  update, exists, count, arith, ◌⊎◌, All, ok, chains,
}
use get_magnet.Table.Status.{TaskStatus, AttemptStatus, is_active_task, is_limited_task}
use get_magnet.Table.Rows.{CrawlTask, Snapshot}
use get_magnet.TaskRepo.Backoff.{backoff_delay}
use get_magnet.TaskRepo.Cancel.{
  member, descendants, cancel_row, cancel_task_commit, cancel_run, cancel_run_row,
}
use get_magnet.TaskRepo.Cancelling.{IsOver, cancel_run-IsOver}
use get_magnet.TaskRepo.Claims.{claim_row}
use get_magnet.TaskRepo.Descent.{Below, top, child}
use get_magnet.TaskRepo.Examples.{
  one_page, a_run, root_row, child_row, claimed_row, start, first_claim,
}
use get_magnet.TaskRepo.Examples.Histories.{first-IsConsistent, root_found, first_found}
use get_magnet.TaskRepo.Fencing.{IsRefused, ended-IsRefused}
use get_magnet.TaskRepo.Finish.{
  Ending, Cause, complete_commit, fail_commit, end_task, end_attempt, requeue, fail_attempt,
  duration_ms, will_retry, message_of,
}
use get_magnet.TaskRepo.Finishing.{finish_run-active, run_summary-partition}
use get_magnet.TaskRepo.History.{HasStatus, Reach-final}
use get_magnet.TaskRepo.Invariant.{IsConsistent}
use get_magnet.TaskRepo.Outcome.{finish_run, try_finish_run, run_summary, in_run, is_live_in}
use get_magnet.TaskRepo.Recovering.{recover_all-Clean}
use get_magnet.TaskRepo.Recovery.{recover_all, lease_expired}
use get_magnet.TaskRepo.Settling.{Settled, fail_commit-Settled}
use get_magnet.TaskRepo.Steps.{Reach, here, extend, completes, finishes, Step-IsConsistent}
use get_magnet.TaskRepo.Store.{
  Db, JsonText, fenced, claimable, start_run, run_is_active, fallback_json,
}
use get_magnet.TaskRepo.Subtree.{
  descendants_iff, cancel_task_commit-Below, cancel_task_commit-others,
}

-- The first worker completes the root task at 60.
abbrev done : Db
done = record first_claim.0 {
  tasks = end_task 60 TaskStatus.succeeded claimed_row ∷ child_row ∷ [];
  attempts =
      end_attempt 60 0 (Snapshot.document "{}" none) AttemptStatus.succeeded first_claim.1.attempt
      ∷ [];
}

completed :
    complete_commit first_claim.0 60 1 1
      (JsonText.document "{}" none)
      Ending.succeeded
      first_claim.0
    ≡ ok done
unfolding complete_commit claim_row claimable fenced first count start_run update chains
    fallback_json duration_ms
completed = refl

done-IsConsistent : IsConsistent done
done-IsConsistent =
    Step-IsConsistent {urls = one_page}
      (completes first_claim.0 60 1 1 (JsonText.document "{}" none) Ending.succeeded completed)
      first-IsConsistent

root_succeeded : HasStatus 1 TaskStatus.succeeded done
unfolding claim_row
root_succeeded = (omega arith, ((λ e. refl), ((λ e. absurd (omega (arith, e))), tt)))

finish_step : Reach one_page done (try_finish_run done 70 1 done)
finish_step = extend here (finishes done 70 1 done)

Reach-final_example : HasStatus 1 TaskStatus.succeeded (try_finish_run done 70 1 done)
Reach-final_example =
    Reach-final 1 TaskStatus.succeeded refl done-IsConsistent finish_step root_succeeded

-- The worker that has completed the task can write no more.
ended-IsRefused_example : IsRefused one_page 65 1 1 60 first_claim.1.attempt first_claim.0 done
ended-IsRefused_example =
    ended-IsRefused {urls = one_page} 65 1 1 60 claimed_row first_claim.1.attempt first_claim.0
      TaskStatus.succeeded (omega arith) (omega arith) root_found first_found done-IsConsistent refl
      root_succeeded here

-- It fails the task instead, which is tried again.
abbrev boom : Cause
boom = record { message = some "boom"; evidence = none }

abbrev failed : Db
unfolding fail_attempt message_of
failed = record first_claim.0 {
  tasks = requeue 60 (backoff_delay 1 (λ n. 0)) "boom" claimed_row ∷ child_row ∷ [];
  attempts = fail_attempt 60 boom first_claim.1.attempt ∷ [];
}

failed_commit :
    fail_commit first_claim.0 60 (λ n. 0) 1 1 boom true first_claim.0 ≡ ok (failed, true)
unfolding fail_commit claim_row claimable fenced first count start_run update chains will_retry
    fail_attempt message_of backoff_delay
failed_commit = refl

fail_commit-Settled_example :
    (true ≡ (true && ltb claimed_row.attempt_count claimed_row.max_attempts))
    × All (λ t. (t.id ≢ 1) ⊎ Settled 60 true t) failed.tasks
fail_commit-Settled_example =
    fail_commit-Settled first_claim.0 60 (λ n. 0) 1 1 claimed_row boom true first_claim.0
      first-IsConsistent root_found failed_commit

-- Cancelling the root cancels its child too; cancelling the child leaves the root.
child-Below : Below start.tasks 1 2
unfolding exists
child-Below = child child_row refl top

descendants_iff_example : (member 2 (descendants 1 start.tasks) ≡ true) ↔ Below start.tasks 1 2
unfolding exists
descendants_iff_example = descendants_iff 1 2 start.tasks refl

abbrev both_cut : Db
both_cut = record start { tasks = cancel_row 5 root_row ∷ cancel_row 5 child_row ∷ [] }

both_cancelled : cancel_task_commit start 5 1 start ≡ ok both_cut
unfolding cancel_task_commit chains first update select exists member
both_cancelled = refl

cancel_task_commit-Below_example :
    All (λ t. ((t.id == 2) && is_active_task t.status) ≡ false) both_cut.tasks
cancel_task_commit-Below_example =
    cancel_task_commit-Below start 5 1 2 start both_cancelled child-Below

abbrev child_cut : Db
child_cut = record start { tasks = root_row ∷ cancel_row 5 child_row ∷ [] }

child_cancelled : cancel_task_commit start 5 2 start ≡ ok child_cut
unfolding cancel_task_commit chains first update select exists member
child_cancelled = refl

root_apart : ¬ (Below start.tasks 2 1)
unfolding descendants select exists member
root_apart b = apart ((descendants_iff 2 1 start.tasks refl).1 b)
  where
    apart : false ≡ true → ⊥
    apart e = cc

cancel_task_commit-others_example :
    select (λ (t : CrawlTask). t.id == 1) child_cut.tasks ≡ select (λ t. t.id == 1) start.tasks
cancel_task_commit-others_example =
    cancel_task_commit-others start 5 2 1 start child_cancelled root_apart

abbrev run_cut : Db
run_cut = record start {
  runs = cancel_run_row 5 a_run ∷ [];
  tasks = end_task 5 TaskStatus.cancelled root_row ∷ end_task 5 TaskStatus.cancelled child_row ∷ [];
}

run_cancelled : cancel_run 5 1 start ≡ ok run_cut
unfolding cancel_run chains count update
run_cancelled = refl

cancel_run-IsOver_example : IsOver 1 start run_cut
cancel_run-IsOver_example = cancel_run-IsOver 5 1 start run_cancelled

finish_run-active_example :
    run_is_active 1 (finish_run 9 1 start).runs
    ≡ (run_is_active 1 start.runs && exists (is_live_in 1) start.tasks)
finish_run-active_example = finish_run-active 9 1 start

none_live : exists (is_live_in 1) both_cut.tasks ≡ false
unfolding exists
none_live = refl

run_summary-partition_example :
    (run_summary 1 both_cut).pages
    ≡ (run_summary 1 both_cut).succeeded
      + (run_summary 1 both_cut).failed
      + (run_summary 1 both_cut).cancelled
      + count (λ t. is_limited_task t.status) (select (in_run 1) both_cut.tasks)
run_summary-partition_example = run_summary-partition 1 both_cut none_live

recover_all-Clean_example :
    All
      (λ t. lease_expired 100 t ≡ false)
      (recover_all 100 (select (lease_expired 100) first_claim.0.tasks) first_claim.0 0).0.tasks
recover_all-Clean_example = recover_all-Clean 100 first_claim.0
