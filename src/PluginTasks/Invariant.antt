-- ===== src/PluginTasks/Invariant.antt =====
-- What holds of the table `plugin_tasks` after any sequence of calls of
-- internal/repo/plugin_repo/tasks.go, and what no call undoes.
use get_magnet.Common.{
  ℕ, suc, ◌==◌, ◌≤◌, ◌<◌, ◌≡◌, refl, ap, ◌∙◌, Bool, true, ◌&&◌, Option, none, some, String, str_eq,
  eq_iff, inl, inr, Bool-cases, and_left, and_right, List, [], ◌∷◌, ◌++◌, first, first-append_some,
  count, count-append, count-none, All, All-append, All-map, All-of_first-none, Pairs-All,
  Pairs-first, Pairs-count, arith,
}
use get_magnet.PluginTasks.Rows.{PluginTask, Tasks, find_task, is_succeeded}
use get_magnet.PluginTasks.Adding.{EnqueueInput, has_key, new_row}
use get_magnet.PluginTasks.Moves.{
  Moved, stays, joins, Moved-identity, Moved-succeeded, IsRow, Moved-IsRow,
}
use get_magnet.PluginTasks.Steps.{Grows, Moves, moves, adds, Step-Grows, Reach, here, extend}

-- The rows fit their status, ids are below the next one, and neither an id nor a plugin's
-- idempotency key is there twice.
pub record IsSound (db : Tasks) : Type 0 where
  pub rows : All IsRow db.rows
  pub fresh : All (λ t. t.id < db.next_id) db.rows
  pub single_id : (n : ℕ) → count (λ t. t.id == n) db.rows ≤ 1
  pub single_key : (p k : String) → count (has_key p k) db.rows ≤ 1

Moved-id : (t u : PluginTask) → Moved t u → u.id ≡ t.id
Moved-id t u m = ap (λ r. r.0) (Moved-identity m)

pub Moved-has_key : (p k : String) (t u : PluginTask) → Moved t u → has_key p k u ≡ has_key p k t
Moved-has_key p k t u m = ap (λ r. str_eq r.3 p && str_eq r.4 k) (Moved-identity m)

Moved-below : (n : ℕ) (t u : PluginTask) → Moved t u → t.id < n → u.id < n
Moved-below n t u m h = rw (Moved-id t u m) h

Moves-IsSound : (db db' : Tasks) → Moves db db' → IsSound db → IsSound db'
Moves-IsSound db db' m v = record {
  rows = Pairs-All IsRow Moved-IsRow m.0 v.rows;
  fresh = rw (m.1) (Pairs-All (λ t. t.id < db.next_id) (Moved-below db.next_id) m.0 v.fresh);
  single_id = λ n.
      rw (Pairs-count (λ t. t.id == n) (λ t u k. ap (λ id. id == n) (Moved-id t u k)) m.0)
        (v.single_id n);
  single_key = λ p k. rw (Pairs-count (has_key p k) (Moved-has_key p k) m.0) (v.single_key p k);
}

-- A condition that no row meets is met at most once after one row more.
count-one_more :
    (c : PluginTask → Bool) (rows : List PluginTask) (row : PluginTask)
    → (c row ≡ true → count c rows ≡ 0)
    → count c rows ≤ 1
    → count c (rows ++ row ∷ []) ≤ 1
unfolding count
count-one_more c rows row absent single = elim (Bool-cases (c row)) [
  | inl e ↦ rw (count-append c rows (row ∷ []), absent e, count, e) (omega arith)
  | inr e ↦ rw (count-append c rows (row ∷ []), count, e) (omega (arith, single))
]

fresh_id :
    (db : Tasks) (n : ℕ)
    → All (λ t. t.id < db.next_id) db.rows
    → (db.next_id == n) ≡ true
    → count (λ t. t.id == n) db.rows ≡ 0
fresh_id db n h e = count-none (λ t. t.id == n) db.rows (All-map (λ t k. ground arith) db.rows h)

fresh_key :
    (i : EnqueueInput) (p k : String) (rows : List PluginTask)
    → first (has_key i.plugin_code i.idempotency_key) rows ≡ none
    → (str_eq i.plugin_code p && str_eq i.idempotency_key k) ≡ true
    → count (has_key p k) rows ≡ 0
fresh_key i p k rows new e =
    let same_code : i.plugin_code ≡ p = (eq_iff i.plugin_code p).0 (and_left _ _ e) in
    let same_key : i.idempotency_key ≡ k =
      (eq_iff i.idempotency_key k).0 (and_right (str_eq i.plugin_code p) _ e) in
    rw (← same_code, ← same_key)
      (count-none (has_key i.plugin_code i.idempotency_key) rows (All-of_first-none _ rows new))

adds-IsSound :
    (now : ℕ) (i : EnqueueInput) (encoded : String) (db : Tasks)
    → first (has_key i.plugin_code i.idempotency_key) db.rows ≡ none
    → IsSound db
    → IsSound (record {
      rows = db.rows ++ new_row now db.next_id i encoded ∷ [];
      next_id = suc db.next_id;
    })
adds-IsSound now i encoded db new v = record {
  rows = All-append IsRow db.rows _ v.rows ((refl, refl), tt);
  fresh =
      All-append (λ t. t.id < suc db.next_id) db.rows _
        (All-map (λ t h. omega (arith, h)) db.rows v.fresh) (omega arith, tt);
  single_id =
      λ n. count-one_more (λ t. t.id == n) db.rows _ (fresh_id db n v.fresh) (v.single_id n);
  single_key = λ p k.
      count-one_more (has_key p k) db.rows _ (fresh_key i p k db.rows new) (v.single_key p k);
}

Grows-IsSound : (db db' : Tasks) → Grows db db' → IsSound db → IsSound db'
Grows-IsSound db db' (moves m) v = Moves-IsSound db db' m v
Grows-IsSound db db' (adds now i encoded new e) v = rw e (adds-IsSound now i encoded db new v)

-- The row that a key or an id finds is still found, and has only moved.
Grows-first :
    (c : PluginTask → Bool) (db db' : Tasks)
    → ((t u : PluginTask) → Moved t u → c u ≡ c t)
    → Grows db db'
    → (t : PluginTask) → first c db.rows ≡ some t
    → (u : PluginTask) × (first c db'.rows ≡ some u) × Moved t u
Grows-first c db db' keep (moves m) t e = Pairs-first c keep m.0 t e
Grows-first c db db' keep (adds now i encoded new grown) t e =
    (t, rw grown (first-append_some c db.rows _ e), stays t)

module _ {compact : String → Option String} where
  -- After any sequence of the calls that the program makes (all but MarkRunning) from a sound table,
  -- by any workers, the table is sound: a queued row has neither lease nor end, a running one has a lease and no end, any other has an end and
  -- no lease; ids are new ones below the next id; and no id, and no idempotency key of a plugin,
  -- is there twice.
  pub Reach-IsSound : {db db' : Tasks} → Reach compact db db' → IsSound db → IsSound db'
  Reach-IsSound here v = v
  Reach-IsSound (extend {mid} {db'} r s) v =
      Grows-IsSound mid db' (Step-Grows compact s) (Reach-IsSound r v)

  pub Reach-first :
      {db db' : Tasks} (c : PluginTask → Bool)
      → ((t u : PluginTask) → Moved t u → c u ≡ c t)
      → Reach compact db db'
      → (t : PluginTask) → first c db.rows ≡ some t
      → (u : PluginTask) × (first c db'.rows ≡ some u) × Moved t u
  Reach-first c keep here t e = (t, e, stays t)
  Reach-first c keep (extend {mid} {db'} r s) t e =
      let (u, found, m) = Reach-first c keep r t e in
      let (w, found', n) = Grows-first c mid db' keep (Step-Grows compact s) u found in
      (w, found', joins m n)

  -- A task that has succeeded is the same row, column by column, after any sequence of the calls that
  -- the program makes (all but MarkRunning).
  pub Reach-succeeded_kept :
      {db db' : Tasks} (id : ℕ) (t : PluginTask)
      → Reach compact db db'
      → find_task id db ≡ some t
      → is_succeeded t.status ≡ true
      → find_task id db' ≡ some t
  Reach-succeeded_kept id t r e s =
      let (u, found, m) =
        Reach-first (λ t. t.id == id) (λ t u n. ap (λ i. i == id) (Moved-id t u n)) r t e in
      found ∙ ap some (Moved-succeeded m s)
