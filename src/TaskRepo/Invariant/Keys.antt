-- ===== src/TaskRepo/Invariant/Keys.antt =====
-- The ids of the task rows are a key: the row that a condition finds is the only one of its id.
use get_magnet.Common.{
  false, ◌==◌, ℕ, ◌≡◌, refl, sym, ◌∙◌, ap, ◌≢◌, Bool, true, some, List, [], ◌∷◌, ◌++◌, first, All,
  arith, inl, inr, Bool-cases, All-first, All-map, first_meets, ◌<◌, All-append, suc,
}
use get_magnet.Table.Rows.{CrawlTask}
use get_magnet.TaskRepo.Invariant.{Distinct, ids}

pub All-of_ids {κ} : (P : ℕ → Type κ) (ts : List CrawlTask) → All P (ids ts) → All (λ t. P t.id) ts
All-of_ids P [] h = tt
All-of_ids P (t ∷ ts) h = (h.0, All-of_ids P ts h.1)

pub keyed_unique :
    (id : ℕ) (k : CrawlTask → Bool)
    → ((t : CrawlTask) → k t ≡ true → t.id ≡ id)
    → (ts : List CrawlTask) {x : CrawlTask} → Distinct (ids ts)
    → first k ts ≡ some x
    → All (λ t. t.id ≡ id → t ≡ x) ts
unfolding first
keyed_unique id k key [] d e = tt
keyed_unique id k key (y ∷ ts) {x} d e = elim (Bool-cases (k y)) [
  | inl hit ↦
      let same : y ≡ x = ground arith in
      (
        λ _. same,
        All-map (λ t apart h. absurd (apart (h ∙ sym (key y hit)))) ts
            (All-of_ids (λ m. m ≢ y.id) ts d.0),
      )
  | inr miss ↦
      let later : first k ts ≡ some x = ground arith in
      let found : x.id ≡ id = key x (first_meets k ts later) in
      let apart : x.id ≢ y.id =
        All-first (λ t. t.id ≢ y.id) k ts (All-of_ids (λ m. m ≢ y.id) ts d.0) later in
      ((λ h. absurd (apart (found ∙ sym h))), keyed_unique id k key ts d.1 later)
]

-- A row that is found by any condition is the one that its id finds.
pub keyed_first :
    (k : CrawlTask → Bool) (ts : List CrawlTask) {x : CrawlTask}
    → Distinct (ids ts)
    → first k ts ≡ some x
    → first (λ t. t.id == x.id) ts ≡ some x
unfolding first
keyed_first k [] d e = absurd (ground arith)
keyed_first k (y ∷ ts) {x} d e = elim (Bool-cases (k y)) [
  | inl hit ↦
      let same : y ≡ x = ground arith in
      let own : (y.id == x.id) ≡ true = ground (arith, ap (λ (t : CrawlTask). t.id) same) in
      rw own (ap some same)
  | inr miss ↦
      let later : first k ts ≡ some x = ground arith in
      let apart : x.id ≢ y.id =
        All-first (λ t. t.id ≢ y.id) k ts (All-of_ids (λ m. m ≢ y.id) ts d.0) later in
      let other : (y.id == x.id) ≡ false = ground (arith, apart) in
      rw other (keyed_first k ts d.1 later)
]

-- A new row under an id above all others.
ids-append : (ts : List CrawlTask) (t : CrawlTask) → ids (ts ++ t ∷ []) ≡ ids ts ++ t.id ∷ []
ids-append [] t = refl
ids-append (u ∷ ts) t = ap (◌∷◌ u.id) (ids-append ts t)

Distinct-append :
    (ns : List ℕ) (n : ℕ) → Distinct ns → All (λ m. m < n) ns → Distinct (ns ++ n ∷ [])
Distinct-append [] n d h = (tt, tt)
Distinct-append (m ∷ ns) n d h =
    (All-append (λ k. k ≢ m) ns (n ∷ []) d.0 (omega (arith, h.0), tt), Distinct-append ns n d.1 h.1)

pub ids-append-Distinct :
    (ts : List CrawlTask) (t : CrawlTask)
    → Distinct (ids ts)
    → All (λ m. m < t.id) (ids ts)
    → Distinct (ids (ts ++ t ∷ []))
ids-append-Distinct ts t d h = rw (ids-append ts t) (Distinct-append (ids ts) t.id d h)

pub ids-append-fresh :
    (ts : List CrawlTask) (t : CrawlTask)
    → All (λ m. m < t.id) (ids ts)
    → All (λ m. m < suc t.id) (ids (ts ++ t ∷ []))
ids-append-fresh ts t h = rw (ids-append ts t) (
    All-append (λ m. m < suc t.id) (ids ts) (t.id ∷ []) (All-map (λ m p. omega arith) (ids ts) h)
      (omega arith, tt))
