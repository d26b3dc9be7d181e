-- ===== src/PluginTasks/Attempts.antt =====
-- A task whose attempts all fail comes to its end (internal/repo/plugin_repo/tasks.go).
use get_magnet.Common.{
  ℕ, zero, suc, ◌+◌, ltb, ◌≤◌, ◌<◌, ◌≡◌, refl, subst, ◌∙◌, true, false, Option, some, String,
  if◌then◌else◌, inl, inr, Bool-cases, ok, chains, is_blank, arith,
}
use get_magnet.PluginTasks.Rows.{
  PluginTask, Status, Tasks, is_queued, is_failed, runs, find_task, update_row, encode_output,
}
use get_magnet.PluginTasks.Claiming.{claimable}
use get_magnet.PluginTasks.Ending.{
  fail, fail_task, failed_attempts, count_attempts, kept_output, finish, finish_row, retry_later,
  after_finish, message_of,
}
use get_magnet.PluginTasks.Failing.{
  due, run_attempt, run_attempts, IsPlain, find_task-update_row, taken_from, taken,
  claim_found-taken,
}

module _ (compact : String → Option String) (cause : Option String) where
  encode_kept :
      {t : PluginTask} (p : IsPlain compact t) → encode_output (kept_output compact t) ≡ ok (p.kept)
  unfolding kept_output encode_output chains
  encode_kept p = rw (kept_output, p.compacts) (ground (arith, p.small))

  count_attempts-same :
      (id : ℕ) (t : PluginTask) (db : Tasks)
      → is_blank t.external_id ≡ true
      → count_attempts id t db ≡ db
  unfolding count_attempts failed_attempts
  count_attempts-same id t db h = rw (count_attempts, failed_attempts, h) (ground arith)

  -- A failing attempt of a row that runs: it waits for the next, or it is the last.
  unfoldable pub after_failure : ℕ → String → PluginTask → PluginTask
  after_failure now kept t =
      if ltb t.attempt_count t.max_attempts
      then retry_later now t.attempt_count (message_of cause) t
      else finish_row now Status.failed kept t.external_id (message_of cause) t

  fail-failed :
      (now id : ℕ) (t : PluginTask) (db : Tasks)
      → find_task id db ≡ some t
      → runs t ≡ true
      → (p : IsPlain compact t)
      → find_task id (fail compact db now id cause true db).0 ≡ some (after_failure now p.kept t)
  unfolding fail fail_task after_failure failed_attempts finish after_finish chains
  fail-failed now id t db e r p = elim (Bool-cases (ltb t.attempt_count t.max_attempts)) [
    | inl again ↦
        rw (e, fail, fail_task, failed_attempts, p.local, again, after_failure)
          (find_task-update_row id runs (retry_later now t.attempt_count (message_of cause))
            (λ x. refl) db e r)
    | inr over ↦
        rw
          (
            e,
            fail,
            fail_task,
            failed_attempts,
            p.local,
            over,
            after_failure,
            count_attempts-same id t db p.local,
            finish,
            encode_kept p,
            chains,
            after_finish,
          )
          (find_task-update_row id runs
            (finish_row now Status.failed p.kept t.external_id (message_of cause)) (λ x. refl) db e
            r)
  ]

  run_attempt-row :
      (worker : String) (lease : ℕ) (t : PluginTask) (db : Tasks)
      → find_task t.id db ≡ some t
      → is_queued t.status ≡ true
      → (p : IsPlain compact t)
      → find_task t.id (run_attempt compact worker lease cause t.id db)
        ≡ some (after_failure (due t) p.kept (taken worker lease t))
  unfolding run_attempt
  run_attempt-row worker lease t db e h p =
      let (took, found) = claim_found-taken worker lease t db e h p.local in
      rw (e, run_attempt, took)
        (fail-failed (due t) t.id (taken worker lease t)
          (update_row t.id (claimable (due t)) (taken_from worker lease t) db) found refl
          (record { local = p.local; kept = p.kept; compacts = p.compacts; small = p.small }))

  -- As long as attempts are left, the row waits for the next one and has counted those made.
  run_attempts-waiting :
      (n : ℕ) (worker : String) (lease : ℕ) (t : PluginTask) (db : Tasks)
      → find_task t.id db ≡ some t
      → is_queued t.status ≡ true
      → IsPlain compact t
      → t.attempt_count + n < t.max_attempts
      → (u : PluginTask) × (find_task t.id (run_attempts compact n worker lease cause t.id db)
          ≡ some u)
        × (is_queued u.status ≡ true)
        × (u.attempt_count ≡ t.attempt_count + n)
        × (u.max_attempts ≡ t.max_attempts)
        × IsPlain compact u
        × (u.id ≡ t.id)
  unfolding run_attempts after_failure
  run_attempts-waiting zero worker lease t db e h p small = (t, e, h, omega arith, refl, p, refl)
  run_attempts-waiting (suc n) worker lease t db e h p small =
      let left : ltb (suc t.attempt_count) t.max_attempts ≡ true = ground arith in
      let u = retry_later (due t) (suc t.attempt_count) (message_of cause) (taken worker lease t) in
      let found : find_task t.id (run_attempt compact worker lease cause t.id db) ≡ some u =
        run_attempt-row worker lease t db e h p ∙ rw (after_failure, left) refl in
      let rest =
        run_attempts-waiting n worker lease u (run_attempt compact worker lease cause t.id db) found
          refl (record { local = p.local; kept = p.kept; compacts = p.compacts; small = p.small })
          (omega arith) in
      (rest.0, rest.1, rest.2, omega (arith, rest.3), rest.4, rest.5, rest.6)

  run_attempts-last :
      (n : ℕ) (worker : String) (lease id : ℕ) (db : Tasks)
      → run_attempts compact (suc n) worker lease cause id db
        ≡ run_attempt compact worker lease cause id
            (run_attempts compact n worker lease cause id db)
  unfolding run_attempts
  run_attempts-last zero worker lease id db = refl
  run_attempts-last (suc n) worker lease id db =
      run_attempts-last n worker lease id (run_attempt compact worker lease cause id db)

  -- The task has failed, with that many attempts and the error's message.
  abbrev pub Ends : ℕ → ℕ → Tasks → Type 0
  Ends id most db =
      (u : PluginTask) × (find_task id db ≡ some u)
      × (is_failed u.status ≡ true)
      × (u.attempt_count ≡ most)
      × (u.error_message ≡ message_of cause)

  -- The attempt that reaches the limit ends the task.
  run_attempt-over :
      (worker : String) (lease : ℕ) (t : PluginTask) (db : Tasks)
      → find_task t.id db ≡ some t
      → is_queued t.status ≡ true
      → IsPlain compact t
      → suc t.attempt_count ≡ t.max_attempts
      → Ends t.id t.max_attempts (run_attempt compact worker lease cause t.id db)
  unfolding after_failure
  run_attempt-over worker lease t db e h p last =
      let none_left : ltb (suc t.attempt_count) t.max_attempts ≡ false = ground arith in
      (
        finish_row (due t) Status.failed p.kept t.external_id (message_of cause)
            (taken worker lease t),
        run_attempt-row worker lease t db e h p ∙ rw (after_failure, none_left) refl,
        refl,
        last,
        refl,
      )

  run_attempts-over :
      (n : ℕ) (worker : String) (lease : ℕ) (t : PluginTask) (db : Tasks)
      → find_task t.id db ≡ some t
      → is_queued t.status ≡ true
      → IsPlain compact t
      → t.attempt_count + suc n ≡ t.max_attempts
      → Ends t.id t.max_attempts (run_attempts compact (suc n) worker lease cause t.id db)
  run_attempts-over n worker lease t db e h p all =
      let (u, found, queued, counted, most, plain, named) =
        run_attempts-waiting n worker lease t db e h p (omega arith) in
      let mid = run_attempts compact n worker lease cause t.id db in
      let over = run_attempt-over worker lease u mid (rw named found) queued plain (omega arith) in
      let last : Ends t.id t.max_attempts (run_attempt compact worker lease cause t.id mid) =
        subst (λ i. Ends i t.max_attempts (run_attempt compact worker lease cause i mid)) named
          (subst (λ m. Ends u.id m (run_attempt compact worker lease cause u.id mid)) most over) in
      rw (run_attempts-last n worker lease t.id db) last

  -- A queued task with no external id whose every attempt fails in a way that may be retried, each
  -- claimed when it is due, and whose output can be stored again: it waits, queued, as long as it has
  -- made fewer attempts than its limit, with the attempts counted, and the attempt that reaches the
  -- limit leaves it failed, with the error's message. So it ends after exactly the attempts that
  -- are left.
  pub attempts_end :
      (k n : ℕ) (worker : String) (lease : ℕ) (t : PluginTask) (db : Tasks)
      → find_task t.id db ≡ some t
      → is_queued t.status ≡ true
      → IsPlain compact t
      → t.attempt_count + suc n ≡ t.max_attempts
      → k ≤ n
      → ((u : PluginTask) × (find_task t.id (run_attempts compact k worker lease cause t.id db)
            ≡ some u)
          × (is_queued u.status ≡ true)
          × (u.attempt_count ≡ t.attempt_count + k))
        × Ends t.id t.max_attempts (run_attempts compact (suc n) worker lease cause t.id db)
  attempts_end k n worker lease t db e h p all few =
      let (u, found, queued, counted, most, plain, named) =
        run_attempts-waiting k worker lease t db e h p (omega arith) in
      ((u, found, queued, counted), run_attempts-over n worker lease t db e h p all)
