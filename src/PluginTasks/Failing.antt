-- ===== src/PluginTasks/Failing.antt =====
-- Attempts of a task that fail: `ClaimNext` and `Fail` of internal/repo/plugin_repo/tasks.go in turn.
use Prim.Native.String.{len}
use get_magnet.Common.{
  ℕ, zero, suc, ◌+◌, ◌==◌, ◌≤◌, ◌≡◌, refl, Bool, true, ◌&&◌, Option, none, some, String, inl, inr,
  Option-cases, first_meets, exists_both, ap, first-update, is_blank, arith,
}
use get_magnet.PluginTasks.Rows.{PluginTask, Tasks, is_queued, find_task, update_row, size_limit}
use get_magnet.PluginTasks.Claiming.{
  claimable, claim_found, claimed, take_row, lease_or_default, next_attempt,
}
use get_magnet.PluginTasks.Ending.{fail}

-- The first time at which a queued row may be claimed.
abbrev pub due : PluginTask → ℕ
due t = elim t.next_retry_at [ none ↦ 0 | some at ↦ at ]

module _ (compact : String → Option String) where
  -- One attempt: the task is claimed when it is due, and fails in a way that may be retried.
  unfoldable pub run_attempt : String → ℕ → Option String → ℕ → Tasks → Tasks
  run_attempt worker lease cause id db = elim (find_task id db) [
    | none ↦ db
    | some t ↦ elim (claim_found (due t) worker lease t db) [
      | none ↦ db
      | some r ↦ (fail compact r.0 (due t) id cause true r.0).0
    ]
  ]

  unfoldable pub run_attempts : ℕ → String → ℕ → Option String → ℕ → Tasks → Tasks
  unfolding run_attempt
  run_attempts zero worker lease cause id db = db
  run_attempts (suc n) worker lease cause id db =
      run_attempts n worker lease cause id (run_attempt worker lease cause id db)

-- A row of a task that has not been started elsewhere and whose output can be stored again.
pub record IsPlain (compact : String → Option String) (t : PluginTask) : Type 0 where
  pub local : is_blank t.external_id ≡ true
  pub kept : String
  pub compacts : compact t.output ≡ some kept
  pub small : len kept ≤ size_limit

pub find_task-update_row :
    (id : ℕ) (c : PluginTask → Bool) (f : PluginTask → PluginTask)
    → ((x : PluginTask) → (f x).id ≡ x.id)
    → (db : Tasks) {t : PluginTask} → find_task id db ≡ some t
    → c t ≡ true
    → find_task id (update_row id c f db) ≡ some (f t)
find_task-update_row id c f keep db {t} e h =
    rw
      (
        first-update (λ x. x.id == id) (λ x. (x.id == id) && c x) f
            (λ x. ap (λ n. n == id) (keep x)) db.rows,
        e,
        first_meets (λ x. x.id == id) db.rows e,
        h,
      )
      refl

pub due-claimable : (t : PluginTask) → is_queued t.status ≡ true → claimable (due t) t ≡ true
unfolding claimable
due-claimable t h = elim (Option-cases t.next_retry_at) [
  | inl e ↦ rw (h, e) refl
  | inr (at, e) ↦ rw (h, e) (ground arith)
]

-- The update of a claim of `t`, and the row that it takes.
abbrev pub taken_from : String → ℕ → PluginTask → PluginTask → PluginTask
taken_from worker lease t u =
    take_row (due t) worker (due t + lease_or_default lease) (suc t.attempt_count) u

abbrev pub taken : String → ℕ → PluginTask → PluginTask
taken worker lease t = taken_from worker lease t t

pub claim_found-taken :
    (worker : String) (lease : ℕ) (t : PluginTask) (db : Tasks)
    → find_task t.id db ≡ some t
    → is_queued t.status ≡ true
    → is_blank t.external_id ≡ true
    → let db' = update_row t.id (claimable (due t)) (λ u. taken_from worker lease t u) db in
      (claim_found (due t) worker lease t db
        ≡ some (db', claimed (due t + lease_or_default lease) worker (suc t.attempt_count) t))
      × (find_task t.id db' ≡ some (taken worker lease t))
unfolding claim_found next_attempt
claim_found-taken worker lease t db e h local = (
  rw
      (
        claim_found,
        exists_both (λ u. u.id == t.id) (claimable (due t)) db.rows e (due-claimable t h),
        local,
      )
      refl,
  find_task-update_row t.id (claimable (due t)) (taken_from worker lease t) (λ x. refl) db e
      (due-claimable t h),
)
