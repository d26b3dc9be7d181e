-- ===== src/PluginTasks/Claiming.antt =====
-- `ClaimNext` of internal/repo/plugin_repo/tasks.go. The SELECT takes no lock, so the row that it
-- reads comes from a state of its own; the UPDATE tests the condition again.
use get_magnet.Common.{
  ℕ, suc, ◌+◌, ◌*◌, ◌==◌, ltb, leb, Bool, true, ◌&&◌, ◌||◌, Option, none, some, String, List, [],
  ◌∷◌, if◌then◌else◌, holds, select, exists, is_blank,
}
use get_magnet.PluginTasks.Rows.{
  PluginTask, Status, Tasks, second, is_queued, is_running, update_row,
}

unfoldable pub claimable : ℕ → PluginTask → Bool
claimable now t =
    (is_queued t.status && (elim t.next_retry_at [ none ↦ true | some at ↦ leb at now ]))
    || (is_running t.status && holds (λ until. ltb until now) t.lease_until)

-- ORDER BY created_at LIMIT 1; of equal times the first row.
unfoldable pub oldest : List PluginTask → Option PluginTask
oldest [] = none
oldest (t ∷ ts) = elim (oldest ts) [
  | none ↦ some t
  | some u ↦ if leb t.created_at u.created_at then some t else some u
]

-- A lease that is not positive, here 0, is five minutes.
unfoldable pub lease_or_default : ℕ → ℕ
lease_or_default lease = if lease == 0 then 300 * second else lease

-- An external task that is polled again is not a new attempt.
unfoldable pub next_attempt : PluginTask → ℕ
next_attempt t = if is_blank t.external_id then suc t.attempt_count else t.attempt_count

abbrev pub take_row : ℕ → String → ℕ → ℕ → PluginTask → PluginTask
take_row now worker until attempts t = record t {
  status = Status.running;
  attempt_count = attempts;
  lease_owner = worker;
  lease_until = some until;
  updated_at = now;
}

-- The claim carries the row as it was read, with the columns that the update sets.
unfoldable pub claimed : ℕ → String → ℕ → PluginTask → PluginTask
unfolding next_attempt
claimed until worker attempts t = record t {
  status = Status.running;
  attempt_count = attempts;
  lease_owner = worker;
  lease_until = some until;
}

-- The UPDATE of the row that the SELECT found; if it changes no row, nothing is claimed.
unfoldable pub claim_found : ℕ → String → ℕ → PluginTask → Tasks → Option (Tasks × PluginTask)
unfolding claimed lease_or_default
claim_found now worker lease t db =
    let until = now + lease_or_default lease in
    if exists (λ u. (u.id == t.id) && claimable now u) db.rows
    then some (
      update_row t.id (claimable now) (take_row now worker until (next_attempt t)) db,
      claimed until worker (next_attempt t) t,
    )
    else none

unfoldable pub claim_next : Tasks → ℕ → String → ℕ → Tasks → Option (Tasks × PluginTask)
unfolding claim_found
claim_next early now worker lease db = elim (oldest (select (claimable now) early.rows)) [
  | none ↦ none
  | some t ↦ claim_found now worker lease t db
]
