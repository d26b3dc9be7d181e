-- ===== src/PluginTasks/Examples.antt =====
-- A task for one plugin, for concrete runs of the theorems.
use get_magnet.Common.{
  ◌+◌, ◌≡◌, refl, true, false, Option, some, String, [], ◌∷◌, ok, chains, count, is_blank,
  trim_space, trim_left, trim_right, put_before, is_space, first, select, exists, update, arith,
}
use get_magnet.PluginTasks.Rows.{
  PluginTask, Status, Tasks, Encoded, encode_output, find_task, is_queued,
}
use get_magnet.PluginTasks.Adding.{EnqueueInput, enqueue, insert_or_get, has_fields, new_row}
use get_magnet.PluginTasks.Claiming.{
  claim_next, claim_found, claimable, claimed, lease_or_default, next_attempt, oldest, take_row,
}
use get_magnet.PluginTasks.Ending.{complete, finish, finish_row, fail}
use get_magnet.PluginTasks.Steps.{Reach, here, extend, enqueues, claims, completes, fails_task}
use get_magnet.PluginTasks.Invariant.{IsSound, Reach-IsSound, Reach-succeeded_kept}
use get_magnet.PluginTasks.Moves.{identity}
use get_magnet.PluginTasks.Once.{enqueue_again}
use get_magnet.PluginTasks.Failing.{IsPlain, run_attempts}
use get_magnet.PluginTasks.Attempts.{Ends, attempts_end}

abbrev pub kept : String → Option String
kept s = some s

abbrev no_tasks : Tasks
no_tasks = record { rows = []; next_id = 1 }

no_tasks-IsSound : IsSound no_tasks
unfolding count
no_tasks-IsSound = record {
  rows = tt;
  fresh = tt;
  single_id = λ n. omega arith;
  single_key = λ p k. omega arith;
}

abbrev upload : EnqueueInput
upload = record {
  resource_id = 7;
  event_type = "resource_created";
  plugin_code = "upload";
  idempotency_key = "resource:7";
  input = some "{}";
  max_attempts = 2;
}

abbrev waiting : PluginTask
waiting = new_row 100 1 upload "{}"

abbrev one_task : Tasks
one_task = record { rows = waiting ∷ []; next_id = 2 }

added : enqueue 100 upload no_tasks ≡ ok (one_task, waiting, true)
unfolding enqueue insert_or_get has_fields chains is_blank trim_space trim_left trim_right
    put_before is_space first
added = refl

abbrev running_row : PluginTask
running_row = take_row 200 "worker" (200 + 5) 1 waiting

abbrev pub one_running : Tasks
one_running = record { rows = running_row ∷ []; next_id = 2 }

abbrev pub the_claim : PluginTask
the_claim = record waiting {
  status = Status.running;
  attempt_count = 1;
  lease_owner = "worker";
  lease_until = some 205;
}

taken_once : claim_next one_task 200 "worker" 5 one_task ≡ some (one_running, the_claim)
unfolding claim_next claim_found claimable claimed lease_or_default next_attempt oldest is_blank
    trim_space trim_left trim_right put_before select exists update
taken_once = refl

abbrev done_row : PluginTask
done_row = finish_row 300 Status.succeeded "{}" "" "" running_row

abbrev one_done : Tasks
one_done = record { rows = done_row ∷ []; next_id = 2 }

completed : complete 300 1 Encoded.nil "" one_running ≡ ok one_done
unfolding complete finish encode_output chains update
completed = refl

to_the_end : Reach kept no_tasks one_done
to_the_end =
    extend
      (extend (extend here (enqueues 100 upload added)) (claims one_task 200 "worker" 5 taken_once))
      (completes 300 1 Encoded.nil "" completed)

Reach-IsSound_example : IsSound one_done
Reach-IsSound_example = Reach-IsSound to_the_end no_tasks-IsSound

-- A late failure of the call that has succeeded.
abbrev after_failure : Tasks
after_failure = (fail kept one_running 400 1 (some "timeout") true one_done).0

late_failure : Reach kept one_done after_failure
late_failure = extend here (fails_task one_running 400 1 (some "timeout") true one_done)

Reach-succeeded_kept_example : find_task 1 after_failure ≡ some done_row
unfolding first
Reach-succeeded_kept_example = Reach-succeeded_kept 1 done_row late_failure refl refl

added_again : enqueue 500 upload one_done ≡ ok (one_done, done_row, false)
unfolding enqueue insert_or_get has_fields chains is_blank trim_space trim_left trim_right
    put_before is_space first
added_again = refl

after_adding : Reach kept one_task one_done
after_adding =
    extend (extend here (claims one_task 200 "worker" 5 taken_once))
      (completes 300 1 Encoded.nil "" completed)

enqueue_again_example :
    (one_done ≡ one_done) × (false ≡ false) × (identity done_row ≡ identity waiting)
enqueue_again_example =
    enqueue_again 100 500 upload upload no_tasks waiting done_row added after_adding refl refl
      added_again

waiting-IsPlain : IsPlain kept waiting
unfolding is_blank trim_space trim_left trim_right put_before
waiting-IsPlain = record { local = refl; kept = "{}"; compacts = refl; small = omega arith }

attempts_end_example :
    ((u : PluginTask) × (find_task 1 (run_attempts kept 1 "worker" 5 (some "timeout") 1 one_task)
        ≡ some u)
      × (is_queued u.status ≡ true)
      × (u.attempt_count ≡ 0 + 1))
    × Ends kept (some "timeout") 1 2 (run_attempts kept 2 "worker" 5 (some "timeout") 1 one_task)
unfolding first
attempts_end_example =
    attempts_end kept (some "timeout") 1 1 "worker" 5 waiting one_task refl refl waiting-IsPlain
      refl (omega arith)
