-- ===== src/PluginTasks/Once.antt =====
-- `Enqueue` of internal/repo/plugin_repo/tasks.go is idempotent: what it returns for a key that is
-- taken.
use get_magnet.Common.{
  ℕ, ◌≡◌, refl, ap, ◌∙◌, Bool, false, Option-cases, Ensures, Ensures-guard, succeeds, fails,
  of_Ensures, first-append_none, Option, some, String, eq_iff, inl, inr, first, All-of_first-none,
  ok,
}
use get_magnet.PluginTasks.Rows.{PluginTask, Tasks}
use get_magnet.PluginTasks.Adding.{EnqueueInput, enqueue, insert_or_get, has_key}
use get_magnet.PluginTasks.Moves.{identity, Moved-identity}
use get_magnet.PluginTasks.Steps.{Reach}
use get_magnet.PluginTasks.Invariant.{Reach-first, Moved-has_key}

insert_or_get-found :
    (now : ℕ) (i : EnqueueInput) (encoded : String) (db : Tasks)
    → let (db', t, new) = insert_or_get now i encoded db in
      first (has_key i.plugin_code i.idempotency_key) db'.rows ≡ some t
unfolding insert_or_get first
insert_or_get-found now i encoded db =
    elim (Option-cases (first (has_key i.plugin_code i.idempotency_key) db.rows)) [
      | inl new ↦
          rw (new, insert_or_get)
            (first-append_none _ db.rows _ (All-of_first-none _ db.rows new)
              ∙ rw
                  (
                    (eq_iff i.plugin_code i.plugin_code).1 refl,
                    (eq_iff i.idempotency_key i.idempotency_key).1 refl,
                    first,
                  )
                  refl)
      | inr (t, there) ↦ rw (there, insert_or_get) there
    ]

enqueue-found :
    (now : ℕ) (i : EnqueueInput) (db : Tasks)
    → Ensures
        (λ r. first (has_key i.plugin_code i.idempotency_key) r.0.rows ≡ some r.1)
        (enqueue now i db)
unfolding enqueue
enqueue-found now i db = Ensures-guard _ (λ named. elim (Option-cases i.input) [
  | inl bad ↦ rw bad fails
  | inr (encoded, good) ↦
      rw good (Ensures-guard _ (λ small. succeeds (insert_or_get-found now i encoded db)))
])

insert_or_get-known :
    (now : ℕ) (i : EnqueueInput) (encoded : String) (db : Tasks) (t : PluginTask)
    → first (has_key i.plugin_code i.idempotency_key) db.rows ≡ some t
    → insert_or_get now i encoded db ≡ (db, t, false)
unfolding insert_or_get
insert_or_get-known now i encoded db t e = rw (e, insert_or_get) refl

enqueue-known :
    (now : ℕ) (i : EnqueueInput) (db : Tasks) (t : PluginTask)
    → first (has_key i.plugin_code i.idempotency_key) db.rows ≡ some t
    → Ensures (λ r. r ≡ (db, t, false)) (enqueue now i db)
unfolding enqueue
enqueue-known now i db t e = Ensures-guard _ (λ named. elim (Option-cases i.input) [
  | inl bad ↦ rw bad fails
  | inr (encoded, good) ↦
      rw good (Ensures-guard _ (λ small. succeeds (insert_or_get-known now i encoded db t e)))
])

module _ {compact : String → Option String} where
  -- `Enqueue` is idempotent over histories: once a call has returned a task, whether new or there
  -- before, then after any sequence of calls another `Enqueue` with the same plugin and the same
  -- idempotency key, if its checks pass, adds nothing and returns that task as it has become: the
  -- same id, resource, event, input, attempt limit and time of creation.
  pub enqueue_again :
      (now later : ℕ) (i j : EnqueueInput) (db : Tasks) {mid db' after : Tasks} (t : PluginTask)
      (u : PluginTask) {new again : Bool}
      → enqueue now i db ≡ ok (mid, t, new)
      → Reach compact mid db'
      → j.plugin_code ≡ i.plugin_code
      → j.idempotency_key ≡ i.idempotency_key
      → enqueue later j db' ≡ ok (after, u, again)
      → (after ≡ db') × (again ≡ false) × (identity u ≡ identity t)
  enqueue_again now later i j db {mid} {db'} {after} t u {again} e r same_code same_key f =
      let owner : first (has_key i.plugin_code i.idempotency_key) mid.rows ≡ some t =
        of_Ensures (enqueue-found now i db) e in
      let (w, found, m) =
        Reach-first (has_key i.plugin_code i.idempotency_key)
          (Moved-has_key i.plugin_code i.idempotency_key) r t owner in
      let same : (after, u, again) ≡ (db', w, false) =
        of_Ensures (enqueue-known later j db' w (rw (same_code, same_key) found)) f in
      (ap (λ x. x.0) same, ap (λ x. x.2) same, ap (λ x. identity x.1) same ∙ Moved-identity m)
