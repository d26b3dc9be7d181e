-- ===== src/PluginTasks/Moves.antt =====
-- What the statements of internal/repo/plugin_repo/tasks.go do to one row of `plugin_tasks`, and
-- what no such change undoes.
use get_magnet.Common.{ℕ, ◌≡◌, refl, ◌∙◌, true, false, Option, none, some, String, arith}
use get_magnet.PluginTasks.Rows.{
  PluginTask, Status, is_open, is_running, is_stopped, is_succeeded, runs,
}
use get_magnet.PluginTasks.Adding.{cancel_row, retry_row}
use get_magnet.PluginTasks.Claiming.{take_row}
use get_magnet.PluginTasks.Ending.{finish_row, poll_row, retry_later}

-- The changes, with the conditions under which they are made.
pub data Moved : PluginTask → PluginTask → Type 0 where
  stays : (t : PluginTask) → Moved t t
  takes :
      (now : ℕ) (worker : String) (until attempts : ℕ) (t : PluginTask)
      → is_open t.status ≡ true
      → Moved t (take_row now worker until attempts t)
  ends :
      (now : ℕ) (status : Status) (output external_id message : String) (t : PluginTask)
      → runs t ≡ true
      → is_open status ≡ false
      → Moved t (finish_row now status output external_id message t)
  polls :
      (now next : ℕ) (output external_id : String) (t : PluginTask)
      → runs t ≡ true
      → Moved t (poll_row now next output external_id t)
  delays :
      (now attempts : ℕ) (message : String) (t : PluginTask)
      → runs t ≡ true
      → Moved t (retry_later now attempts message t)
  counts :
      (attempts : ℕ) (t : PluginTask)
      → runs t ≡ true
      → Moved t (record t { attempt_count = attempts })
  cancels : (now : ℕ) (t : PluginTask) → is_open t.status ≡ true → Moved t (cancel_row now t)
  retries : (now : ℕ) (t : PluginTask) → is_stopped t.status ≡ true → Moved t (retry_row now t)
  joins : {t u v : PluginTask} → Moved t u → Moved u v → Moved t v

-- What a row is about: these columns are written once.
abbrev pub identity : PluginTask → ℕ × ℕ × String × String × String × String × ℕ × ℕ
identity t = (
  t.id, t.resource_id, t.event_type, t.plugin_code, t.idempotency_key, t.input, t.max_attempts,
  t.created_at,
)

pub Moved-identity : {t u : PluginTask} → Moved t u → identity u ≡ identity t
Moved-identity (stays t) = refl
Moved-identity (takes now worker until attempts t h) = refl
Moved-identity (ends now status output external_id message t h k) = refl
Moved-identity (polls now next output external_id t h) = refl
Moved-identity (delays now attempts message t h) = refl
Moved-identity (counts attempts t h) = refl
Moved-identity (cancels now t h) = refl
Moved-identity (retries now t h) = refl
Moved-identity (joins m n) = Moved-identity n ∙ Moved-identity m

open_apart : (s : Status) → is_open s ≡ true → is_succeeded s ≡ true → ⊥
open_apart Status.queued h k = ground arith
open_apart Status.running h k = ground arith
open_apart Status.succeeded h k = ground arith
open_apart Status.failed h k = ground arith
open_apart Status.cancelled h k = ground arith

running_apart : (s : Status) → is_running s ≡ true → is_succeeded s ≡ true → ⊥
running_apart Status.queued h k = ground arith
running_apart Status.running h k = ground arith
running_apart Status.succeeded h k = ground arith
running_apart Status.failed h k = ground arith
running_apart Status.cancelled h k = ground arith

stopped_apart : (s : Status) → is_stopped s ≡ true → is_succeeded s ≡ true → ⊥
stopped_apart Status.queued h k = ground arith
stopped_apart Status.running h k = ground arith
stopped_apart Status.succeeded h k = ground arith
stopped_apart Status.failed h k = ground arith
stopped_apart Status.cancelled h k = ground arith

-- A succeeded row is never changed.
pub Moved-succeeded : {t u : PluginTask} → Moved t u → is_succeeded t.status ≡ true → u ≡ t
Moved-succeeded (stays t) s = refl
Moved-succeeded (takes now worker until attempts t h) s = absurd (open_apart t.status h s)
Moved-succeeded (ends now status output external_id message t h k) s =
    absurd (running_apart t.status h s)
Moved-succeeded (polls now next output external_id t h) s = absurd (running_apart t.status h s)
Moved-succeeded (delays now attempts message t h) s = absurd (running_apart t.status h s)
Moved-succeeded (counts attempts t h) s = absurd (running_apart t.status h s)
Moved-succeeded (cancels now t h) s = absurd (open_apart t.status h s)
Moved-succeeded (retries now t h) s = absurd (stopped_apart t.status h s)
Moved-succeeded (joins m n) s =
    let first_step = Moved-succeeded m s in Moved-succeeded n (rw first_step s) ∙ first_step

-- A queued row has no lease and has not ended; a running one has a lease; one that has ended has
-- its end and no lease.
abbrev pub Fits : Status → Option ℕ → Option ℕ → Type 0
Fits Status.queued lease finished = (lease ≡ none) × (finished ≡ none)
Fits Status.running lease finished = ((until : ℕ) × (lease ≡ some until)) × (finished ≡ none)
Fits _ lease finished = (lease ≡ none) × ((at : ℕ) × (finished ≡ some at))

abbrev pub IsRow : PluginTask → Type 0
IsRow t = Fits t.status t.lease_until t.finished_at

Fits-open :
    (s : Status) (lease finished : Option ℕ)
    → is_open s ≡ true
    → Fits s lease finished
    → finished ≡ none
Fits-open Status.queued lease finished h f = f.1
Fits-open Status.running lease finished h f = f.1
Fits-open Status.succeeded lease finished h f = absurd (ground arith)
Fits-open Status.failed lease finished h f = absurd (ground arith)
Fits-open Status.cancelled lease finished h f = absurd (ground arith)

running_open : (s : Status) → is_running s ≡ true → is_open s ≡ true
running_open Status.running h = refl
running_open Status.queued h = absurd (ground arith)
running_open Status.succeeded h = absurd (ground arith)
running_open Status.failed h = absurd (ground arith)
running_open Status.cancelled h = absurd (ground arith)

Fits-ended :
    (s : Status) {finished : Option ℕ} (at : ℕ)
    → is_open s ≡ false
    → finished ≡ some at
    → Fits s none finished
Fits-ended Status.succeeded at h e = (refl, (at, e))
Fits-ended Status.failed at h e = (refl, (at, e))
Fits-ended Status.cancelled at h e = (refl, (at, e))
Fits-ended Status.queued at h e = absurd (ground arith)
Fits-ended Status.running at h e = absurd (ground arith)

pub Moved-IsRow : (t u : PluginTask) → Moved t u → IsRow t → IsRow u
Moved-IsRow _ _ (stays t) v = v
Moved-IsRow _ _ (takes now worker until attempts t h) v =
    ((until, refl), Fits-open t.status t.lease_until t.finished_at h v)
Moved-IsRow _ _ (ends now status output external_id message t h k) v = Fits-ended status now k refl
Moved-IsRow _ _ (polls now next output external_id t h) v = (refl, refl)
Moved-IsRow _ _ (delays now attempts message t h) v =
    (refl, Fits-open t.status t.lease_until t.finished_at (running_open t.status h) v)
Moved-IsRow _ _ (counts attempts t h) v = v
Moved-IsRow _ _ (cancels now t h) v = (refl, (now, refl))
Moved-IsRow _ _ (retries now t h) v = (refl, refl)
Moved-IsRow t u (joins {u = w} m n) v = Moved-IsRow w u n (Moved-IsRow t w m v)
