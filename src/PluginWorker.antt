-- ===== src/PluginWorker.antt =====
-- internal/plugin: the registry of plugins (registry.go) and what a worker does with a claimed task
-- (worker.go). A plugin is any record of functions; a call ends with a value, an error or a panic.
pub mod Settling
pub mod Examples
use get_magnet.Common.{
  ℕ, ◌*◌, Bool, true, false, not, ◌&&◌, ◌||◌, Option, none, some, String, str_eq, str_append, List,
  [], ◌∷◌, if◌then◌else◌, first, exists, map_option, is_empty, Result, ok, err,
}
use get_magnet.PluginTasks.Rows.{PluginTask, Tasks, Encoded, Error, second}
use get_magnet.PluginTasks.Ending.{complete, schedule_poll, fail, after_finish}

-- An error, and whether a `PermanentError` is in its chain.
pub record Failure : Type 0 where
  pub message : String
  pub permanent : Bool

pub data Outcome {ℓ} (A : Type ℓ) : Type ℓ where
  value : A → Outcome A
  failure : Failure → Outcome A
  panic : String → Outcome A

pub record Task (Input : Type 0) : Type 0 where
  pub resource_id : ℕ
  pub event_type : String
  pub input : Input

-- A plugin; `poll` is there for an `AsyncHandler`, `on_complete` for a `CompletionHandler`.
pub record Handler (Input : Type 0) : Type 0 where
  pub code : String
  pub handle : Task Input → Outcome (Encoded × String)
  pub poll : Option (Task Input → String → Outcome (Encoded × Bool))
  pub on_complete : Option (Task Input → Encoded → Outcome (Unit {0}))

pub data RegisterError : Type 0 where
  code_required already_registered : RegisterError

-- What a call of the queue makes of its table; its error is only logged.
abbrev pub Call : Type 0
Call = Tasks → Tasks × Option Error

-- `LeaseDuration` and `ExternalPollInterval`.
abbrev pub lease_duration : ℕ
lease_duration = 300 * second

abbrev pub external_poll_interval : ℕ
external_poll_interval = 10 * second

-- `fmt.Errorf("plugin %q is not registered", code)`, for a code with nothing to escape.
abbrev pub not_registered : String → String
not_registered code = str_append "plugin \"" (str_append code "\" is not registered")

-- The plugins by their codes.
abbrev pub Registry : Type 0 → Type 0
Registry Input = List (Handler Input)

module _ {Input : Type 0} where
  unfoldable pub get : Registry Input → String → Option (Handler Input)
  get registry code = first (λ h. str_eq h.code code) registry

  -- A nil handler is `none`.
  unfoldable pub register :
      Option (Handler Input) → Registry Input → Result RegisterError (Registry Input)
  register none registry = err code_required
  register (some h) registry =
      if is_empty h.code
      then err code_required
      else if exists (λ g. str_eq g.code h.code) registry
      then err already_registered
      else ok (h ∷ registry)

module _ (compact : String → Option String) (now id : ℕ) where
  abbrev pub panicked : String → String
  panicked m = str_append "plugin task panic: " m

  -- The calls of `plugin_repo` for the task `id`.
  abbrev pub fails : String → Bool → Call
  fails m retryable db = fail compact db now id (some m) retryable db

  abbrev pub polls : Encoded → String → Call
  polls output external_id db =
      after_finish db (schedule_poll now id output external_id external_poll_interval db)

  abbrev pub completes : Encoded → String → Call
  completes output external_id db = after_finish db (complete now id output external_id db)

  -- After `OnComplete`. A panic, here and below, is recovered by `processSafely`.
  unfoldable pub after_completion : Encoded → String → Outcome (Unit {0}) → Call
  after_completion output external_id (value done) = completes output external_id
  after_completion output external_id (failure e) = fails (e.message) true
  after_completion output external_id (panic m) = fails (panicked m) false

  module _ {Input : Type 0} where
    -- The end of a call with a result: `OnComplete`, if the plugin has it, and `Complete`.
    unfoldable pub complete_with : Handler Input → Task Input → Encoded → String → Call
    unfolding after_completion
    complete_with h task output external_id = elim (h.on_complete) [
      | none ↦ completes output external_id
      | some f ↦ after_completion output external_id (f task output)
    ]

    -- After `Poll`.
    unfoldable pub after_poll :
        Handler Input → Task Input → String → Outcome (Encoded × Bool) → Call
    unfolding complete_with
    after_poll h task external_id (failure e) = fails (e.message) (not (e.permanent))
    after_poll h task external_id (panic m) = fails (panicked m) false
    after_poll h task external_id (value (output, done)) =
        if done then complete_with h task output external_id else polls output external_id

    unfoldable pub is_async : Handler Input → Bool
    is_async h = elim (h.poll) [ none ↦ false | some p ↦ true ]

    -- After `Handle`.
    unfoldable pub after_handle : Handler Input → Task Input → Outcome (Encoded × String) → Call
    unfolding complete_with is_async
    after_handle h task (failure e) = fails (e.message) (not (e.permanent))
    after_handle h task (panic m) = fails (panicked m) false
    after_handle h task (value (output, external_id)) =
        if is_async h && not (is_empty external_id)
        then polls output external_id
        else complete_with h task output external_id

    unfoldable pub call_handler : Handler Input → Task Input → String → Call
    unfolding after_poll after_handle
    call_handler h task external_id = elim (h.poll) [
      | none ↦ after_handle h task (h.handle task)
      | some poll ↦
          if is_empty external_id
          then after_handle h task (h.handle task)
          else after_poll h task external_id (poll task external_id)
    ]

    abbrev pub task_of : PluginTask → Input → Task Input
    task_of claim input = record {
      resource_id = claim.resource_id;
      event_type = claim.event_type;
      input = input;
    }

    -- `decode` is `json.Unmarshal` into an object; its error is a text.
    unfoldable pub call_decoded : Handler Input → PluginTask → Result String Input → Call
    unfolding call_handler
    call_decoded h claim (err m) = fails m false
    call_decoded h claim (ok input) = call_handler h (task_of claim input) claim.external_id

    unfoldable pub process_claim :
        (String → Result String Input) → Registry Input → PluginTask → Call
    unfolding get call_decoded
    process_claim decode registry claim = elim (get registry claim.plugin_code) [
      | none ↦ fails (not_registered claim.plugin_code) false
      | some h ↦ call_decoded h claim (decode claim.input)
    ]

-- `processSafely` at the time `now` at which the plugin's calls are over.
unfoldable pub process_safely :
    {Input : Type 0}
    → (String → Option String)
    → (String → Result String Input)
    → Registry Input
    → ℕ
    → PluginTask
    → Tasks
    → Tasks × Option Error
unfolding process_claim
process_safely compact decode registry now claim db =
    process_claim compact now claim.id decode registry claim db
