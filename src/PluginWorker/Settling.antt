-- ===== src/PluginWorker/Settling.antt =====
-- After `processSafely` (internal/plugin/worker.go) a task no longer runs, unless its output could
-- not be stored.
use Prim.Native.String.{len}
use get_magnet.Common.{
  is_empty, not, leb, ◌>>=◌, is_blank, ℕ, ◌+◌, ◌==◌, ltb, ◌≡◌, refl, Bool, true, false, ◌&&◌,
  Option, none, some, String, List, [], ◌∷◌, inl, inr, Bool-cases, Option-cases, exists,
  exists-none, update, All-map, Result, ok, err, chains, All-of_first-none, arith,
}
use get_magnet.PluginTasks.Rows.{
  PluginTask, Tasks, Encoded, nil, unencodable, text, encode_output, size_limit, Error,
  external_id_required, Status, runs, is_running, find_task,
}
use get_magnet.PluginTasks.Ending.{
  complete, schedule_poll, fail, fail_task, finish, finish_row, poll_row, retry_later, after_finish,
  failed_attempts, message_of,
}
use get_magnet.PluginWorker.{
  Handler, Task, Outcome, value, failure, panic, Registry, get, external_poll_interval,
  process_claim, process_safely, completes, polls, after_completion, complete_with, after_poll,
  is_async, after_handle, call_handler, call_decoded,
}

-- No row of the task runs.
abbrev pub IsSettled : ℕ → Tasks → Type 0
IsSettled id db = exists (λ t. (t.id == id) && runs t) db.rows ≡ false

settle_rows :
    (id : ℕ) (f : PluginTask → PluginTask)
    → ((t : PluginTask) → runs (f t) ≡ false)
    → (rows : List PluginTask)
    → exists (λ t. (t.id == id) && runs t) (update (λ t. (t.id == id) && runs t) f rows) ≡ false
unfolding exists update
settle_rows id f stop [] = refl
settle_rows id f stop (t ∷ rows) = elim (Bool-cases ((t.id == id) && runs t)) [
  | inl e ↦ rw e (ground (arith, stop t, settle_rows id f stop rows))
  | inr e ↦ rw (e, e) (settle_rows id f stop rows)
]

-- The errors of storing an output.
abbrev pub is_storage : Error → Bool
is_storage Error.not_encodable = true
is_storage Error.output_too_large = true
is_storage _ = false

-- An external id that the row or the plugin gives.
pub data Gives {Input : Type 0} (registry : Registry Input) (claim : PluginTask)
    : String → Type 0 where
  stored_id : Gives registry claim claim.external_id
  returned_id :
      (h : Handler Input) (task : Task Input) (output : Encoded) (external_id : String)
      → get registry claim.plugin_code ≡ some h
      → h.handle task ≡ value (output, external_id)
      → Gives registry claim external_id

-- Why a call of the queue is refused: its output cannot be stored, or the external id that it was
-- given is there, but nothing but white space.
pub data Blames (Q : String → Type 0) : Error → Type 0 where
  unstorable : {e : Error} → is_storage e ≡ true → Blames Q e
  blank_id :
      (s : String) → Q s → is_empty s ≡ false → is_blank s ≡ true → Blames Q external_id_required

-- What the worker's handling of a claim comes to: tables in which the task does not run, or an error
-- with its reason.
abbrev pub Settles : (String → Type 0) → ℕ → Tasks × Option Error → Type 0
Settles Q id (db, none) = IsSettled id db
Settles Q id (db, some e) = Blames Q e

-- An operation settles the task or is refused.
data Stores (Q : String → Type 0) (id : ℕ) : Result Error Tasks → Type 0 where
  stored : {db : Tasks} → IsSettled id db → Stores Q id (ok db)
  refused : {e : Error} → Blames Q e → Stores Q id (err e)

module _ (Q : String → Type 0) where
  Stores-encode :
      (id : ℕ) (output : Encoded) (k : String → Result Error Tasks)
      → ((s : String) → Stores Q id (k s))
      → Stores Q id (encode_output output >>= k)
  unfolding encode_output chains
  Stores-encode id nil k h = h "{}"
  Stores-encode id unencodable k h = refused (unstorable refl)
  Stores-encode id (text s) k h = elim (Bool-cases (leb (len s) size_limit)) [
    | inl e ↦ rw e (h s)
    | inr e ↦ rw e (refused (unstorable refl))
  ]

  after_finish-Settles :
      (id : ℕ) (db : Tasks) (r : Result Error Tasks)
      → Stores Q id r
      → Settles Q id (after_finish db r)
  unfolding after_finish
  after_finish-Settles id db (ok db') (stored h) = h
  after_finish-Settles id db (err e) (refused h) = h

  finish-Stores :
      (now id : ℕ) (status : Status) (output : Encoded) (external_id message : String) (db : Tasks)
      → is_running status ≡ false
      → Stores Q id (finish now id status output external_id message db)
  unfolding finish
  finish-Stores now id status output external_id message db h =
      Stores-encode id output _ (λ encoded.
        stored
          (settle_rows id (finish_row now status encoded external_id message) (λ t. h) db.rows))

  schedule_poll-Stores :
      (now id : ℕ) (output : Encoded) (external_id : String) (delay : ℕ) (db : Tasks)
      → Q external_id
      → is_empty external_id ≡ false
      → Stores Q id (schedule_poll now id output external_id delay db)
  unfolding schedule_poll chains
  schedule_poll-Stores now id output external_id delay db given there =
      elim (Bool-cases (not (is_blank external_id))) [
        | inl named ↦ rw named (
            Stores-encode id output _ (λ encoded. stored (
              settle_rows id (poll_row now (now + delay) encoded external_id) (λ t. refl) db.rows)))
        | inr blank ↦ rw blank (refused (blank_id external_id given there (ground (arith, blank))))
      ]

  fail_task-Settles :
      (compact : String → Option String) (now id : ℕ) (t : PluginTask) (cause : Option String)
      (retryable : Bool) (db : Tasks)
      → Settles Q id (fail_task compact now id t cause retryable db)
  unfolding fail_task
  fail_task-Settles compact now id t cause retryable db =
      elim (Bool-cases (retryable && ltb (failed_attempts t) t.max_attempts)) [
        | inl again ↦
            rw (again, fail_task)
              (settle_rows id (retry_later now (failed_attempts t) (message_of cause)) (λ u. refl)
                db.rows)
        | inr over ↦
            rw (over, fail_task)
              (after_finish-Settles id _ _
                (finish-Stores now id Status.failed _ t.external_id _ _ refl))
      ]

  fail-Settles :
      (compact : String → Option String) (now id : ℕ) (cause : Option String) (retryable : Bool)
      (db : Tasks)
      → Settles Q id (fail compact db now id cause retryable db)
  unfolding fail
  fail-Settles compact now id cause retryable db = elim (Option-cases (find_task id db)) [
    | inl gone ↦
        rw (gone, fail)
          (exists-none (λ t. (t.id == id) && runs t) db.rows
            (All-map (λ t h. ground (arith, h)) db.rows
              (All-of_first-none (λ t. t.id == id) db.rows gone)))
    | inr (t, there) ↦ rw (there, fail) (fail_task-Settles compact now id t cause retryable db)
  ]

  module _ (compact : String → Option String) (now id : ℕ) where
    completes-Settles :
        (output : Encoded) (external_id : String) (db : Tasks)
        → Settles Q id (completes compact now id output external_id db)
    unfolding complete
    completes-Settles output external_id db =
        after_finish-Settles id db _ (finish-Stores now id _ output external_id "" db refl)

    polls-Settles :
        (output : Encoded) (external_id : String) (db : Tasks)
        → Q external_id
        → is_empty external_id ≡ false
        → Settles Q id (polls compact now id output external_id db)
    polls-Settles output external_id db given there =
        after_finish-Settles id db _
          (schedule_poll-Stores now id output external_id external_poll_interval db given there)

    after_completion-Settles :
        (output : Encoded) (external_id : String) (o : Outcome (Unit {0})) (db : Tasks)
        → Settles Q id (after_completion compact now id output external_id o db)
    unfolding after_completion
    after_completion-Settles output external_id (value done) db =
        completes-Settles output external_id db
    after_completion-Settles output external_id (failure e) db =
        fail-Settles compact now id (some e.message) true db
    after_completion-Settles output external_id (panic m) db =
        fail-Settles compact now id _ false db

    module _ {Input : Type 0} where
      complete_with-Settles :
          (h : Handler Input) (task : Task Input) (output : Encoded) (external_id : String)
          (db : Tasks)
          → Settles Q id (complete_with compact now id h task output external_id db)
      unfolding complete_with
      complete_with-Settles h task output external_id db = elim (Option-cases h.on_complete) [
        | inl no_hook ↦ rw (complete_with, no_hook) (completes-Settles output external_id db)
        | inr (f, hook) ↦
            rw (complete_with, hook)
              (after_completion-Settles output external_id (f task output) db)
      ]

      after_poll-Settles :
          (h : Handler Input) (task : Task Input) (external_id : String)
          (o : Outcome (Encoded × Bool)) (db : Tasks)
          → Q external_id
          → is_empty external_id ≡ false
          → Settles Q id (after_poll compact now id h task external_id o db)
      unfolding after_poll
      after_poll-Settles h task external_id (failure e) db given there =
          fail-Settles compact now id _ _ db
      after_poll-Settles h task external_id (panic m) db given there =
          fail-Settles compact now id _ false db
      after_poll-Settles h task external_id (value (output, true)) db given there =
          complete_with-Settles h task output external_id db
      after_poll-Settles h task external_id (value (output, false)) db given there =
          polls-Settles output external_id db given there

      after_handle-Settles :
          (h : Handler Input) (task : Task Input) (o : Outcome (Encoded × String)) (db : Tasks)
          → ((output : Encoded) (s : String) → o ≡ value (output, s) → Q s)
          → Settles Q id (after_handle compact now id h task o db)
      unfolding after_handle
      after_handle-Settles h task (failure e) db given = fail-Settles compact now id _ _ db
      after_handle-Settles h task (panic m) db given = fail-Settles compact now id _ false db
      after_handle-Settles h task (value (output, external_id)) db given =
          elim (Bool-cases (is_async compact now id h && not (is_empty external_id))) [
            | inl again ↦
                rw (after_handle, again)
                  (polls-Settles output external_id db (given output external_id refl)
                    (ground (arith, again)))
            | inr over ↦
                rw (after_handle, over) (complete_with-Settles h task output external_id db)
          ]

      call_handler-Settles :
          (h : Handler Input) (task : Task Input) (external_id : String) (db : Tasks)
          → Q external_id
          → ((output : Encoded) (s : String) → h.handle task ≡ value (output, s) → Q s)
          → Settles Q id (call_handler compact now id h task external_id db)
      unfolding call_handler
      call_handler-Settles h task external_id db stored_one given = elim (Option-cases h.poll) [
        | inl sync ↦ rw (call_handler, sync) (after_handle-Settles h task (h.handle task) db given)
        | inr (poll, async) ↦ elim (Bool-cases (is_empty external_id)) [
          | inl first_call ↦
              rw (call_handler, async, first_call)
                (after_handle-Settles h task (h.handle task) db given)
          | inr later ↦
              rw (call_handler, async, later)
                (after_poll-Settles h task external_id (poll task external_id) db stored_one later)
        ]
      ]

      call_decoded-Settles :
          (h : Handler Input) (claim : PluginTask) (r : Result String Input) (db : Tasks)
          → Q claim.external_id
          → ((task : Task Input) (output : Encoded) (s : String)
              → h.handle task ≡ value (output, s)
              → Q s)
          → Settles Q id (call_decoded compact now id h claim r db)
      unfolding call_decoded
      call_decoded-Settles h claim (err m) db stored_one given =
          fail-Settles compact now id (some m) false db
      call_decoded-Settles h claim (ok input) db stored_one given =
          call_handler-Settles h _ claim.external_id db stored_one (given _)

-- Whatever the plugin does, be it an error, a panic or a result, whatever its hooks do, and whatever
-- the registry holds: after the worker has handled a claim the task no longer runs, or a call of the
-- queue was refused, because an output could not be encoded or was too large, or because the
-- external id that the row has or that the plugin returned is not empty but nothing but white space.
pub process_safely-Settles :
    {Input : Type 0} (compact : String → Option String) (decode : String → Result String Input)
    (registry : Registry Input) (now : ℕ) (claim : PluginTask) (db : Tasks)
    → Settles (Gives registry claim) claim.id (process_safely compact decode registry now claim db)
unfolding process_safely process_claim
process_safely-Settles compact decode registry now claim db =
    elim (Option-cases (get registry claim.plugin_code)) [
      | inl unknown ↦
          rw (process_safely, process_claim, unknown)
            (fail-Settles (Gives registry claim) compact now claim.id _ false db)
      | inr (h, found) ↦
          rw (process_safely, process_claim, found)
            (call_decoded-Settles (Gives registry claim) compact now claim.id h claim
              (decode claim.input) db stored_id
              (λ task output s e. returned_id h task output s found e))
    ]
