-- ===== src/PluginTasks/Ending.antt =====
-- `Complete`, `SchedulePoll`, `Fail` and `finish` of internal/repo/plugin_repo/tasks.go. None of
-- them tests who holds the lease.
use get_magnet.Common.{
  ℕ, suc, ◌+◌, ◌*◌, ◌^◌, ◌==◌, ltb, Bool, not, ◌&&◌, Option, none, some, String, if◌then◌else◌,
  Result, ok, err, guard, ◌>>=◌, ◌>>◌, is_blank,
}
use get_magnet.PluginTasks.Rows.{
  PluginTask, Status, Tasks, Error, external_id_required, Encoded, text, nil, second, runs,
  find_task, update_row, encode_output,
}

abbrev pub finish_row : ℕ → Status → String → String → String → PluginTask → PluginTask
finish_row now status output external_id message t = record t {
  status = status;
  output = output;
  external_id = external_id;
  error_message = message;
  lease_owner = "";
  lease_until = none;
  updated_at = now;
  finished_at = some now;
}

unfoldable pub finish : ℕ → ℕ → Status → Encoded → String → String → Tasks → Result Error Tasks
finish now id status output external_id message db = do
  encoded ← encode_output output
  ok (update_row id runs (finish_row now status encoded external_id message) db)

unfoldable pub complete : ℕ → ℕ → Encoded → String → Tasks → Result Error Tasks
complete now id output external_id db = finish now id Status.succeeded output external_id "" db

abbrev pub poll_row : ℕ → ℕ → String → String → PluginTask → PluginTask
poll_row now next output external_id t = record t {
  status = Status.queued;
  output = output;
  external_id = external_id;
  next_retry_at = some next;
  lease_owner = "";
  lease_until = none;
  error_message = "";
  updated_at = now;
  finished_at = none;
}

-- A negative delay is 0.
unfoldable pub schedule_poll : ℕ → ℕ → Encoded → String → ℕ → Tasks → Result Error Tasks
schedule_poll now id output external_id delay db = do
  guard (not (is_blank external_id)) external_id_required
  encoded ← encode_output output
  ok (update_row id runs (poll_row now (now + delay) encoded external_id) db)

-- The function `min` of the file.
unfoldable pub smaller : ℕ → ℕ → ℕ
smaller left right = if ltb left right then left else right

unfoldable pub retry_delay : ℕ → ℕ
unfolding smaller
retry_delay attempts = 2 ^ smaller attempts 6 * second

-- The failure of a poll counts as an attempt; that of a first call was counted by the claim.
unfoldable pub failed_attempts : PluginTask → ℕ
failed_attempts t = if is_blank t.external_id then t.attempt_count else suc t.attempt_count

abbrev pub retry_later : ℕ → ℕ → String → PluginTask → PluginTask
retry_later now attempts message t = record t {
  status = Status.queued;
  attempt_count = attempts;
  next_retry_at = some (now + retry_delay attempts);
  lease_owner = "";
  lease_until = none;
  error_message = message;
  updated_at = now;
}

unfoldable pub message_of : Option String → String
message_of none = "plugin task failed"
message_of (some m) = m

-- The attempts counted before the task is finished as failed.
unfoldable pub count_attempts : ℕ → PluginTask → Tasks → Tasks
count_attempts id t db =
    let attempts = failed_attempts t in
    if not (attempts == t.attempt_count)
    then update_row id runs (λ u. record u { attempt_count = attempts }) db
    else db

-- What has been written when `finish` returns: an error of its checks keeps what came before.
unfoldable pub after_finish : Tasks → Result Error Tasks → Tasks × Option Error
after_finish db (ok db') = (db', none)
after_finish db (err e) = (db, some e)

-- `json.Valid` and then `json.Marshal` of a `json.RawMessage`: the text without its spaces, if it
-- is JSON.
module _ (compact : String → Option String) where
  unfoldable pub kept_output : PluginTask → Encoded
  kept_output t = elim (compact t.output) [ none ↦ nil | some s ↦ text s ]

  -- `t` is the row as `Fail` read it.
  unfoldable pub fail_task :
      ℕ → ℕ → PluginTask → Option String → Bool → Tasks → Tasks × Option Error
  unfolding message_of after_finish
  fail_task now id t cause retryable db =
      let attempts = failed_attempts t in
      if retryable && ltb attempts t.max_attempts
      then (update_row id runs (retry_later now attempts (message_of cause)) db, none)
      else let counted = count_attempts id t db in
        after_finish counted
          (finish now id Status.failed (kept_output t) t.external_id (message_of cause) counted)

  -- A task that is not there is no error.
  unfoldable pub fail : Tasks → ℕ → ℕ → Option String → Bool → Tasks → Tasks × Option Error
  fail early now id cause retryable db = elim (find_task id early) [
    | none ↦ (db, none)
    | some t ↦ fail_task now id t cause retryable db
  ]
