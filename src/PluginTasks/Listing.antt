-- ===== src/PluginTasks/Listing.antt =====
-- `Get`, `List`, `ListFiltered` and `Metrics` of internal/repo/plugin_repo/tasks.go.
use Prim.Native.Nat.{Ordering}
use Prim.Native.String.{compare}
use get_magnet.Common.{
  ℕ, zero, suc, ◌+◌, ◌-◌, ◌*◌, ◌==◌, ltb, leb, Bool, ◌&&◌, ◌||◌, String, str_eq, List, [], ◌∷◌, map,
  ◌++◌, if◌then◌else◌, length, select, exists, count, is_blank, trim_space,
}
use get_magnet.PluginTasks.Rows.{
  PluginTask, Status, Tasks, is_queued, is_running, is_succeeded, is_failed, is_cancelled,
}

pub record ListFilter : Type 0 where
  pub resource_id : ℕ
  pub plugin_code : String
  pub event_type : String
  pub status : String
  pub page : ℕ
  pub size : ℕ

abbrev pub status_name : Status → String
status_name Status.queued = "queued"
status_name Status.running = "running"
status_name Status.succeeded = "succeeded"
status_name Status.failed = "failed"
status_name Status.cancelled = "cancelled"

-- A blank text filters nothing.
unfoldable pub text_matches : String → String → Bool
text_matches wanted s = is_blank wanted || str_eq s (trim_space wanted)

unfoldable pub matches : ListFilter → PluginTask → Bool
unfolding text_matches
matches f t =
    ((f.resource_id == 0) || (t.resource_id == f.resource_id))
    && text_matches f.plugin_code t.plugin_code
    && text_matches f.event_type t.event_type
    && text_matches f.status (status_name t.status)

unfoldable pub page_of : ListFilter → ℕ
page_of f = if f.page == 0 then 1 else f.page

unfoldable pub size_of : ListFilter → ℕ
size_of f = let size = if f.size == 0 then 20 else f.size in if ltb 200 size then 200 else size

-- ORDER BY created_at DESC; of equal times the first row.
unfoldable pub insert_newest : PluginTask → List PluginTask → List PluginTask
insert_newest t [] = t ∷ []
insert_newest t (u ∷ us) =
    if leb u.created_at t.created_at then t ∷ u ∷ us else u ∷ insert_newest t us

unfoldable pub newest_first : List PluginTask → List PluginTask
newest_first [] = []
newest_first (t ∷ ts) = insert_newest t (newest_first ts)

-- OFFSET and LIMIT.
unfoldable pub skip {ℓ} : {A : Type ℓ} → ℕ → List A → List A
skip zero xs = xs
skip (suc n) [] = []
skip (suc n) (x ∷ xs) = skip n xs

unfoldable pub take {ℓ} : {A : Type ℓ} → ℕ → List A → List A
take zero xs = []
take (suc n) [] = []
take (suc n) (x ∷ xs) = x ∷ take n xs

-- The page of rows, and how many rows match.
unfoldable pub list_filtered : ListFilter → Tasks → List PluginTask × ℕ
list_filtered f db =
    let size = size_of f in
    (
      take size (skip ((page_of f - 1) * size) (newest_first (select (matches f) db.rows))),
      count (matches f) db.rows,
    )

pub record PluginCount : Type 0 where
  pub plugin_code : String
  pub total : ℕ
  pub queued : ℕ
  pub running : ℕ
  pub succeeded : ℕ
  pub failed : ℕ
  pub cancelled : ℕ

pub record Metrics : Type 0 where
  pub total : ℕ
  pub status_counts : List (Status × ℕ)
  pub plugin_counts : List PluginCount

-- The distinct plugin codes: GROUP BY plugin_code.
unfoldable pub codes_of : List PluginTask → List String
codes_of [] = []
codes_of (t ∷ ts) =
    let codes = codes_of ts in
    if exists (str_eq t.plugin_code) codes then codes else t.plugin_code ∷ codes

-- ORDER BY plugin_code ASC, in the order of the texts' code points.
unfoldable pub insert_code : String → List String → List String
insert_code c [] = c ∷ []
insert_code c (d ∷ ds) = elim (compare c d) [ Ordering.gt ↦ d ∷ insert_code c ds | _ ↦ c ∷ d ∷ ds ]

unfoldable pub sort_codes : List String → List String
sort_codes [] = []
sort_codes (c ∷ cs) = insert_code c (sort_codes cs)

-- COUNT(*) and COUNT(*) FILTER (WHERE status = …) of one group.
unfoldable pub plugin_count : List PluginTask → String → PluginCount
plugin_count rows code =
    let group = select (λ t. str_eq t.plugin_code code) rows in
    record {
      plugin_code = code;
      total = length group;
      queued = count (λ t. is_queued t.status) group;
      running = count (λ t. is_running t.status) group;
      succeeded = count (λ t. is_succeeded t.status) group;
      failed = count (λ t. is_failed t.status) group;
      cancelled = count (λ t. is_cancelled t.status) group;
    }

-- A status that no row has makes no group.
unfoldable pub status_group : (Status → Bool) → Status → List PluginTask → List (Status × ℕ)
status_group is s rows = let n = count (λ t. is t.status) rows in if n == 0 then [] else (s, n) ∷ []

unfoldable pub add_totals : List (Status × ℕ) → ℕ
add_totals [] = 0
add_totals ((s, n) ∷ groups) = n + add_totals groups

-- `result.Total` adds up the groups of the first query.
unfoldable pub metrics : Tasks → Metrics
metrics db =
    let rows = db.rows in
    let groups =
      status_group is_queued Status.queued rows
      ++ status_group is_running Status.running rows
      ++ status_group is_succeeded Status.succeeded rows
      ++ status_group is_failed Status.failed rows
      ++ status_group is_cancelled Status.cancelled rows in
    record {
      total = add_totals groups;
      status_counts = groups;
      plugin_counts = map (plugin_count rows) (sort_codes (codes_of rows));
    }
