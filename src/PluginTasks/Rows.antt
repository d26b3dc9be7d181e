-- ===== src/PluginTasks/Rows.antt =====
-- The rows of `plugin_tasks` (internal/db/table/resources.go) and the conditions and updates that
-- the statements of internal/repo/plugin_repo/tasks.go share.
use Prim.Native.String.{len}
use get_magnet.Common.{
  ℕ, ◌*◌, ◌==◌, leb, Bool, true, false, ◌&&◌, Option, String, List, first, update, Result, ok, err,
  guard, ◌>>◌,
}

pub data Status : Type 0 where
  queued running succeeded failed cancelled : Status

pub record PluginTask : Type 0 where
  pub id : ℕ
  pub resource_id : ℕ
  pub event_type : String
  pub plugin_code : String
  pub idempotency_key : String
  pub status : Status
  pub attempt_count : ℕ
  pub max_attempts : ℕ
  pub next_retry_at : Option ℕ
  pub lease_owner : String
  pub lease_until : Option ℕ
  pub external_id : String
  pub input : String
  pub output : String
  pub error_message : String
  pub created_at : ℕ
  pub updated_at : ℕ
  pub finished_at : Option ℕ

pub record Tasks : Type 0 where
  pub rows : List PluginTask
  pub next_id : ℕ

pub data Error : Type 0 where
  fields_required not_encodable input_too_large output_too_large : Error
  not_cancellable not_retryable external_id_required : Error

abbrev pub second : ℕ
second = 1_000_000_000

abbrev pub is_queued : Status → Bool
is_queued Status.queued = true
is_queued _ = false

abbrev pub is_running : Status → Bool
is_running Status.running = true
is_running _ = false

-- `status IN (taskQueued, taskRunning)`
abbrev pub is_open : Status → Bool
is_open Status.queued = true
is_open Status.running = true
is_open _ = false

abbrev pub is_succeeded : Status → Bool
is_succeeded Status.succeeded = true
is_succeeded _ = false

abbrev pub is_failed : Status → Bool
is_failed Status.failed = true
is_failed _ = false

abbrev pub is_cancelled : Status → Bool
is_cancelled Status.cancelled = true
is_cancelled _ = false

-- `status IN (taskFailed, taskCancelled)`
abbrev pub is_stopped : Status → Bool
is_stopped Status.failed = true
is_stopped Status.cancelled = true
is_stopped _ = false

abbrev pub find_task : ℕ → Tasks → Option PluginTask
find_task id db = first (λ t. t.id == id) db.rows

-- `ID(id).Where(c).Update(…)`
abbrev pub update_row : ℕ → (PluginTask → Bool) → (PluginTask → PluginTask) → Tasks → Tasks
update_row id c f db = record db { rows = update (λ t. (t.id == id) && c t) f db.rows }

abbrev pub runs : PluginTask → Bool
runs t = is_running t.status

-- A Go value, as far as it is stored: nil, a value that `json.Marshal` refuses, or its JSON text.
pub data Encoded : Type 0 where
  nil unencodable : Encoded
  text : String → Encoded

abbrev pub size_limit : ℕ
size_limit = 1024 * 1024

-- The checks of `SchedulePoll` and `finish` on an output.
unfoldable pub encode_output : Encoded → Result Error String
encode_output nil = ok "{}"
encode_output unencodable = err not_encodable
encode_output (text s) = guard (leb (len s) size_limit) output_too_large >> ok s
