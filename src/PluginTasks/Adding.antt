-- ===== src/PluginTasks/Adding.antt =====
-- `Enqueue`, `Cancel`, `Retry` and `MarkRunning` of internal/repo/plugin_repo/tasks.go.
use Prim.Native.String.{len}
use get_magnet.Common.{
  ℕ, suc, ◌==◌, leb, Bool, true, false, not, ◌&&◌, ◌||◌, Option, none, some, String, str_eq, [],
  ◌∷◌, ◌++◌, if◌then◌else◌, first, exists, Result, ok, err, guard, ◌>>◌, is_blank,
}
use get_magnet.PluginTasks.Rows.{
  PluginTask, Status, Tasks, Error, fields_required, not_encodable, input_too_large,
  not_cancellable, not_retryable, is_open, is_stopped, is_queued, update_row, size_limit,
}

-- `input` is what `json.Marshal(input.Input)` gives; a number that is not positive is 0.
pub record EnqueueInput : Type 0 where
  pub resource_id : ℕ
  pub event_type : String
  pub plugin_code : String
  pub idempotency_key : String
  pub input : Option String
  pub max_attempts : ℕ

abbrev pub has_key : String → String → PluginTask → Bool
has_key plugin_code key t = str_eq t.plugin_code plugin_code && str_eq t.idempotency_key key

unfoldable pub has_fields : EnqueueInput → Bool
has_fields i = not (
    (i.resource_id == 0)
    || is_blank i.event_type
    || is_blank i.plugin_code
    || is_blank i.idempotency_key)

abbrev pub new_row : ℕ → ℕ → EnqueueInput → String → PluginTask
new_row now id i encoded = record {
  id = id;
  resource_id = i.resource_id;
  event_type = i.event_type;
  plugin_code = i.plugin_code;
  idempotency_key = i.idempotency_key;
  status = Status.queued;
  attempt_count = 0;
  max_attempts = if i.max_attempts == 0 then 5 else i.max_attempts;
  next_retry_at = none;
  lease_owner = "";
  lease_until = none;
  external_id = "";
  input = encoded;
  output = "{}";
  error_message = "";
  created_at = now;
  updated_at = now;
  finished_at = none;
}

-- The insert, under the unique constraint on plugin and key: a duplicate is read instead.
unfoldable pub insert_or_get : ℕ → EnqueueInput → String → Tasks → Tasks × PluginTask × Bool
insert_or_get now i encoded db = elim (first (has_key i.plugin_code i.idempotency_key) db.rows) [
  | none ↦
      let row = new_row now db.next_id i encoded in
      (record { rows = db.rows ++ row ∷ []; next_id = suc db.next_id }, row, true)
  | some existing ↦ (db, existing, false)
]

unfoldable pub enqueue : ℕ → EnqueueInput → Tasks → Result Error (Tasks × PluginTask × Bool)
unfolding has_fields
enqueue now i db = do
  guard (has_fields i) fields_required
  elim i.input [
    | none ↦ err not_encodable
    | some encoded ↦
        guard (leb (len encoded) size_limit) input_too_large >> ok (insert_or_get now i encoded db)
  ]

abbrev pub cancel_row : ℕ → PluginTask → PluginTask
cancel_row now t = record t {
  status = Status.cancelled;
  next_retry_at = none;
  lease_owner = "";
  lease_until = none;
  updated_at = now;
  finished_at = some now;
}

-- An update that changes no row is an error of `Cancel` and `Retry`.
unfoldable pub cancel : ℕ → ℕ → Tasks → Result Error Tasks
cancel now id db = do
  guard (exists (λ t. (t.id == id) && is_open t.status) db.rows) not_cancellable
  ok (update_row id (λ t. is_open t.status) (cancel_row now) db)

abbrev pub retry_row : ℕ → PluginTask → PluginTask
retry_row now t = record t {
  status = Status.queued;
  attempt_count = 0;
  next_retry_at = none;
  lease_owner = "";
  lease_until = none;
  external_id = "";
  output = "{}";
  error_message = "";
  finished_at = none;
  updated_at = now;
}

unfoldable pub retry : ℕ → ℕ → Tasks → Result Error Tasks
retry now id db = do
  guard (exists (λ t. (t.id == id) && is_stopped t.status) db.rows) not_retryable
  ok (update_row id (λ t. is_stopped t.status) (retry_row now) db)

abbrev pub mark_row : ℕ → PluginTask → PluginTask
mark_row now t = record t { status = Status.running; attempt_count = 1; updated_at = now }

-- It sets no lease; the program does not call it.
unfoldable pub mark_running : ℕ → ℕ → Tasks → Tasks
mark_running now id db = update_row id (λ t. is_queued t.status) (mark_row now) db
