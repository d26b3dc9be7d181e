-- ===== src/TaskRepo/Descent.antt =====
-- The recursive query `descendants` of `CancelTask`: it finds the task, all below it and nothing
-- else, and its rounds are enough.
use get_magnet.Common.{
  ℕ, zero, suc, ◌+◌, ◌≤◌, ◌<◌, ◌==◌, ◌≡◌, refl, sym, ◌∙◌, Bool, true, false, not, ◌&&◌, Option,
  none, some, List, [], ◌∷◌, ◌++◌, map, if◌then◌else◌, All, All-map, All-append, All-select, exists,
  count, select, holds, inl, inr, ◌⊎◌, Bool-cases, Option-cases, arith, self-exists, All-map_both,
}
use get_magnet.Table.Rows.{CrawlTask}
use get_magnet.TaskRepo.Cancel.{member, is_new_child, task_id_of, descend}

-- The task `root`, and the tasks whose parent is below it.
pub data Below (tasks : List CrawlTask) (root : ℕ) : ℕ → Type 0 where
  top : Below tasks root root
  child :
      {p : ℕ} (t : CrawlTask)
      → exists (λ u. (u.id == t.id) && holds (λ q. q == p) u.parent_task_id) tasks ≡ true
      → Below tasks root p
      → Below tasks root t.id

-- Nothing outside the list has its parent in it.
unfoldable pub IsClosed : List ℕ → List CrawlTask → Type 0
IsClosed found tasks =
    All (λ t. (holds (λ p. member p found) t.parent_task_id ≡ false) ⊎ (member t.id found ≡ true))
      tasks

-- The same with a last round of which the children are still to be found.
abbrev pub Open : List ℕ → List ℕ → CrawlTask → Type 0
Open work found t =
    (holds (λ p. member p found) t.parent_task_id ≡ true)
    → (member t.id found ≡ false)
    → (holds (λ p. member p work) t.parent_task_id ≡ true)

member-append :
    (x : ℕ) (xs ys : List ℕ) → member x (xs ++ ys) ≡ (if member x xs then true else member x ys)
unfolding member
member-append x [] ys = refl
member-append x (z ∷ xs) ys = ground (arith, member-append x xs ys)

-- The ids of selected rows are the rows' ids.
pub member-ids :
    (c : CrawlTask → Bool) (ts : List CrawlTask)
    → All (λ t. c t ≡ true → member t.id (map task_id_of (select c ts)) ≡ true) ts
unfolding member select
member-ids c [] = tt
member-ids c (t ∷ ts) = elim (Bool-cases (c t)) [
  | inl hit ↦
      rw hit (λ _. ground arith, All-map (λ u h e. ground (arith, h e)) ts (member-ids c ts))
  | inr miss ↦
      let drop : select c (t ∷ ts) ≡ select c ts = rw miss refl in
      ((λ e. absurd (apart miss e)), All-map (λ u h e. rw drop (h e)) ts (member-ids c ts))
]
  where
    apart : {b : Bool} → b ≡ false → b ≡ true → ⊥
    apart e f = cc

-- The rows that are not found yet.
abbrev pub missing : List ℕ → CrawlTask → Bool
missing found t = not (member t.id found)

count_fewer :
    (found more : List ℕ) (c : CrawlTask → Bool) (ts : List CrawlTask)
    → All (λ t. c t ≡ true → (member t.id found ≡ false) × (member t.id more ≡ true)) ts
    → count (missing (found ++ more)) ts + count c ts ≤ count (missing found) ts
unfolding count
count_fewer found more c [] h = omega arith
count_fewer found more c (t ∷ ts) h = elim (Bool-cases (c t)) [
  | inl hit ↦
      let (out, into) = h.0 hit in
      ground (arith, hit, out, into, member-append t.id found more, count_fewer found more c ts h.1)
  | inr miss ↦ ground (arith, miss, member-append t.id found more, count_fewer found more c ts h.1)
]

map-select-count :
    (c : CrawlTask → Bool) (ts : List CrawlTask) {id : ℕ} {ids : List ℕ}
    → map task_id_of (select c ts) ≡ id ∷ ids
    → 0 < count c ts
unfolding select count
map-select-count c [] e = absurd (ground arith)
map-select-count c (t ∷ ts) {id} {ids} e = elim (Bool-cases (c t)) [
  | inl hit ↦ rw hit (omega arith)
  | inr miss ↦
      let later = map-select-count c ts {id = id} {ids = ids} (rw miss at e) in
      rw miss (omega (arith, later))
]

holds-append :
    (xs ys : List ℕ) (o : Option ℕ)
    → holds (λ p. member p (xs ++ ys)) o
      ≡ (if holds (λ p. member p xs) o then true else holds (λ p. member p ys) o)
holds-append xs ys none = refl
holds-append xs ys (some p) = member-append p xs ys

-- The new children of a round, by their ids.
abbrev round : List ℕ → List ℕ → List CrawlTask → List ℕ
round work found tasks = map task_id_of (select (is_new_child work found) tasks)

ended-closed :
    (work found : List ℕ) (t : CrawlTask)
    → Open work found t
    → (is_new_child work found t ≡ true → member t.id [] ≡ true)
    → (holds (λ p. member p found) t.parent_task_id ≡ false) ⊎ (member t.id found ≡ true)
unfolding member
ended-closed work found t waiting none_new =
    elim (Bool-cases (holds (λ p. member p found) t.parent_task_id)) [
      | inr out ↦ inl out
      | inl into ↦ elim (Bool-cases (member t.id found)) [
        | inl there ↦ inr there
        | inr new ↦
            let waits = waiting into new in
            let is : is_new_child work found t ≡ true = ground (arith, waits, new) in
            absurd (apart (none_new is))
      ]
    ]
  where
    apart : false ≡ true → ⊥
    apart e = cc

still-waiting :
    (work found ids : List ℕ) (t : CrawlTask)
    → Open work found t
    → (is_new_child work found t ≡ true → member t.id ids ≡ true)
    → Open ids (found ++ ids) t
still-waiting work found ids t waiting listed into out =
    let split : (if holds (λ p. member p found) t.parent_task_id
          then true
          else holds (λ p. member p ids) t.parent_task_id)
        ≡ true =
      sym (holds-append found ids t.parent_task_id) ∙ into in
    let apart : (if member t.id found then true else member t.id ids) ≡ false =
      sym (member-append t.id found ids) ∙ out in
    elim (Bool-cases (holds (λ p. member p found) t.parent_task_id)) [
      | inr later ↦ ground (arith, later, split)
      | inl before ↦
          let new : member t.id found ≡ false = ground (arith, apart) in
          let not_listed : member t.id ids ≡ false = ground (arith, apart) in
          let waits = waiting before new in
          let is : is_new_child work found t ≡ true = ground (arith, waits, new) in
          absurd (clash (listed is) not_listed)
    ]
  where
    clash : {b : Bool} → b ≡ true → b ≡ false → ⊥
    clash e f = cc

-- The rounds end: the result is closed, and it has what was found before.
pub record IsDone (found : List ℕ) (tasks : List CrawlTask) (result : List ℕ) : Type 0 where
  pub closed : IsClosed result tasks
  pub kept : (x : ℕ) → member x found ≡ true → member x result ≡ true

new_child-apart :
    (work found ids : List ℕ) (t : CrawlTask)
    → (is_new_child work found t ≡ true → member t.id ids ≡ true)
    → is_new_child work found t ≡ true
    → (member t.id found ≡ false) × (member t.id ids ≡ true)
new_child-apart work found ids t listed is = (ground (arith, is), listed is)

pub descend-IsDone :
    (fuel : ℕ) (tasks : List CrawlTask) (work found : List ℕ)
    → All (Open work found) tasks
    → count (missing found) tasks < fuel
    → IsDone found tasks (descend fuel tasks work found)
unfolding descend IsClosed
descend-IsDone zero tasks work found waiting h = absurd (omega (arith, h))
descend-IsDone (suc fuel) tasks work found waiting h =
    go (λ work found. descend-IsDone fuel tasks work found) (round work found tasks) refl
  where
    go :
        ((work found : List ℕ)
          → All (Open work found) tasks
          → count (missing found) tasks < fuel
          → IsDone found tasks (descend fuel tasks work found))
        → (ids : List ℕ) → round work found tasks ≡ ids
        → IsDone found tasks
            (elim ids [ [] ↦ found | id ∷ ids ↦ descend fuel tasks (id ∷ ids) (found ++ id ∷ ids) ])
    go later [] e = record {
      closed =
          All-map_both (λ t o l. ended-closed work found t o l) tasks waiting
            (rw e at (member-ids (is_new_child work found) tasks));
      kept = λ x m. m;
    }
    go later (id ∷ ids) e =
        let listed = rw e at (member-ids (is_new_child work found) tasks) in
        let fewer =
          count_fewer found (id ∷ ids) (is_new_child work found) tasks
            (All-map (λ t l. new_child-apart work found (id ∷ ids) t l) tasks listed) in
        let some_new = map-select-count (is_new_child work found) tasks e in
        let rest =
          later (id ∷ ids) (found ++ id ∷ ids)
            (All-map_both (λ t o l. still-waiting work found (id ∷ ids) t o l) tasks waiting listed)
            (omega (arith, fewer, some_new, h)) in
        record {
          closed = rest.closed;
          kept = λ x m. rest.kept x (member-append x found (id ∷ ids) ∙ rw m refl);
        }

pub member-All : (P : ℕ → Type 0) (x : ℕ) (xs : List ℕ) → member x xs ≡ true → All P xs → P x
unfolding member
member-All P x [] m h = absurd (ground arith)
member-All P x (y ∷ xs) m h = elim (Bool-cases (y == x)) [
  | inl same ↦ let e : y ≡ x = ground (arith, same) in rw (← e) h.0
  | inr other ↦ member-All P x xs (rw other at m) h.1
]

pub All-ids :
    (P : ℕ → Type 0) (ts : List CrawlTask) → All (λ t. P t.id) ts → All P (map task_id_of ts)
All-ids P [] h = tt
All-ids P (t ∷ ts) h = (h.0, All-ids P ts h.1)

-- Each row that a round finds is a child of one of the last round's.
new_child-Below :
    (tasks : List CrawlTask) (root : ℕ) (work found : List ℕ) (t : CrawlTask)
    → All (Below tasks root) work
    → ((c : CrawlTask → Bool) → c t ≡ true → exists c tasks ≡ true)
    → is_new_child work found t ≡ true
    → Below tasks root t.id
new_child-Below tasks root work found t below here is = elim (Option-cases t.parent_task_id) [
  | inl none_there ↦ absurd (ground (arith, none_there, is))
  | inr (p, e) ↦
      let worked : member p work ≡ true = ground (arith, e, is) in
      child t
        (here (λ u. (u.id == t.id) && holds (λ q. q == p) u.parent_task_id) (ground (arith, e)))
        (member-All (Below tasks root) p work worked below)
]

pub descend-Below :
    (fuel : ℕ) (tasks : List CrawlTask) (root : ℕ) (work found : List ℕ)
    → All (Below tasks root) work
    → All (Below tasks root) found
    → All (Below tasks root) (descend fuel tasks work found)
unfolding descend
descend-Below zero tasks root work found w f = f
descend-Below (suc fuel) tasks root work found w f =
    go (λ work found. descend-Below fuel tasks root work found) (round work found tasks)
      (All-ids (Below tasks root) (select (is_new_child work found) tasks) (
        All-map (λ t h. new_child-Below tasks root work found t w h.0 h.1)
          (select (is_new_child work found) tasks)
          (All-select (λ t. (c : CrawlTask → Bool) → c t ≡ true → exists c tasks ≡ true)
            (is_new_child work found) tasks (self-exists tasks))))
  where
    go :
        ((work found : List ℕ)
          → All (Below tasks root) work
          → All (Below tasks root) found
          → All (Below tasks root) (descend fuel tasks work found))
        → (ids : List ℕ) → All (Below tasks root) ids
        → All
            (Below tasks root)
            (elim ids [ [] ↦ found | id ∷ ids ↦ descend fuel tasks (id ∷ ids) (found ++ id ∷ ids) ])
    go later [] b = f
    go later (id ∷ ids) b =
        later (id ∷ ids) (found ++ id ∷ ids) b (All-append (Below tasks root) found (id ∷ ids) f b)
