-- ===== src/Workflow/Sound.antt =====
-- The names that `ValidateRecordSchema` knows statically (internal/workflow/records.go) cover the
-- fields that the nodes produce (internal/workflow/transform.go, extract.go).
pub mod Operations
pub mod Nodes
pub mod Candidates
use get_magnet.Common.{
  ℕ, ◌≡◌, refl, sym, subst, ap, ◌∙◌, inl, inr, Bool, true, false, not, ◌&&◌, ◌||◌, Bool-cases,
  Option-cases, Option, none, some, String, str_eq, eq_iff, List, [], ◌∷◌, if◌then◌else◌, exists,
  Result, ok, err, Ensures, succeeds, fails, arith,
}
use get_magnet.Json.{Value, Object}
use get_magnet.Json.Objects.{lookup, insert, remove, lookup-insert, lookup-remove}
use get_magnet.Workflow.{is_some_value}
use get_magnet.Workflow.Definition.{one_of}
use get_magnet.Workflow.Names.{drop_name}
use get_magnet.Workflow.Transform.{TransformError, if_there}

-- Every key of the values is one of the names.
abbrev pub Covers : List String → Object → Type 0
Covers names values = (k : String) → is_some_value (lookup k values) ≡ true → one_of names k ≡ true

pub Covers-insert :
    (names : List String) (f : String) (v : Value) (values : Object)
    → one_of names f ≡ true
    → Covers names values
    → Covers names (insert f v values)
unfolding is_some_value
Covers-insert names f v values named h k there = elim (Bool-cases (str_eq f k)) [
  | inl e ↦ subst (λ n. one_of names n ≡ true) ((eq_iff f k).0 e) named
  | inr e ↦ h k (rw (lookup-insert f k v values, e) at there)
]

one_of-drop_name :
    (names : List String) (f k : String)
    → str_eq f k ≡ false
    → one_of (drop_name f names) k ≡ one_of names k
unfolding one_of drop_name exists
one_of-drop_name [] f k h = refl
one_of-drop_name (n ∷ names) f k h =
    ground (arith, eq_iff f k, eq_iff n f, eq_iff k n, one_of-drop_name names f k h)

pub Covers-remove :
    (names : List String) (f : String) (values : Object)
    → Covers names values
    → Covers (drop_name f names) (remove f values)
unfolding is_some_value
Covers-remove names f values h k there = elim (Bool-cases (str_eq f k)) [
  | inl e ↦ absurd (ground (arith, rw (lookup-remove f k values, e) at there))
  | inr e ↦ rw (one_of-drop_name names f k e) (h k (rw (lookup-remove f k values, e) at there))
]

pub Covers-more :
    (names : List String) (n : String) (values : Object)
    → Covers names values
    → Covers (n ∷ names) values
unfolding one_of exists
Covers-more names n values h k there = rw (one_of, exists, h k there) (ground arith)

-- A name that is no key may be dropped.
pub Covers-absent :
    (names : List String) (f : String) (values : Object)
    → lookup f values ≡ none
    → Covers names values
    → Covers (drop_name f names) values
unfolding is_some_value
Covers-absent names f values gone h k there = elim (Bool-cases (str_eq f k)) [
  | inl e ↦
      let missing : lookup k values ≡ none =
        subst (λ n. lookup n values ≡ none) ((eq_iff f k).0 e) gone in
      absurd (ground (arith, rw missing at there))
  | inr e ↦ rw (one_of-drop_name names f k e) (h k there)
]

pub one_of-here : (names : List String) (n : String) → one_of (n ∷ names) n ≡ true
unfolding one_of exists
one_of-here names n = rw (one_of, exists, (eq_iff n n).1 refl) refl

pub Ensures-if_there :
    {P : Object → Type 0} (field : String) (values : Object)
    (k : Value → Result TransformError Object)
    → (lookup field values ≡ none → P values)
    → ((v : Value) → lookup field values ≡ some v → Ensures P (k v))
    → Ensures P (if_there field values k)
unfolding if_there
Ensures-if_there field values k h step = elim (Option-cases (lookup field values)) [
  | inl e ↦ rw (e, if_there) (succeeds (h e))
  | inr (v, e) ↦ rw (e, if_there) (step v e)
]
