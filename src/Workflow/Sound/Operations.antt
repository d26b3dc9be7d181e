-- ===== src/Workflow/Sound/Operations.antt =====
-- One transform operation: what `ApplyTransform` (internal/workflow/transform.go) makes of covered
-- values is covered by the names that the static pass keeps.
use get_magnet.Common.{
  ◌≡◌, refl, subst, inl, inr, Bool, true, false, ◌||◌, Bool-cases, none, some, String, str_eq,
  eq_iff, List, [], ◌∷◌, map, if◌then◌else◌, exists, Ensures, succeeds, fails, Ensures-guard,
  trim_space, is_empty, is_space, trim_left, trim_right, put_before, arith,
}
use get_magnet.Json.{Value, null, string, boolean, number, text_list, array, object, Items, Object}
use get_magnet.Json.Objects.{lookup, insert, remove}
use get_magnet.Workflow.{Engine, string_value, value_of, is_some_value, is_empty_value}
use get_magnet.Workflow.Definition.{one_of, config_text}
use get_magnet.Workflow.Names.{drop_name, operation_names}
use get_magnet.Workflow.Sound.{
  Covers, Covers-insert, Covers-remove, Covers-more, Covers-absent, one_of-here, Ensures-if_there,
}
use get_magnet.Workflow.Transform.{Op, parse_op, change_text, split_text, join_items, run_op}

abbrev pub op_word : Op → String
op_word Op.rename = "rename"
op_word Op.trim = "trim"
op_word Op.lower = "lower"
op_word Op.upper = "upper"
op_word Op.split = "split"
op_word Op.join = "join"
op_word Op.default = "default"
op_word Op.set = "set"
op_word Op.delete = "delete"

-- `strings.ToLower` keeps the nine words, which are lower case.
abbrev pub KeepsWords : Engine → Type 0
KeepsWords engine = (o : Op) → engine.lower (op_word o) ≡ op_word o

-- What an operation does to a set of names.
unfoldable pub effect : Op → String → String → List String → List String
effect Op.rename field to names = if one_of names field then to ∷ drop_name field names else names
effect Op.default field to names = field ∷ names
effect Op.set field to names = field ∷ names
effect Op.delete field to names = drop_name field names
effect _ field to names = names

change_text-Covers :
    (names : List String) (op : String) (f : String → String) (field : String) (v : Value)
    (values : Object)
    → one_of names field ≡ true
    → Covers names values
    → Ensures (Covers names) (change_text op f field v values)
unfolding change_text
change_text-Covers names op f field null values named h = succeeds h
change_text-Covers names op f field (string s) values named h =
    succeeds (Covers-insert names field _ values named h)
change_text-Covers names op f field (boolean b) values named h = fails
change_text-Covers names op f field (number n) values named h = fails
change_text-Covers names op f field (text_list ts) values named h = fails
change_text-Covers names op f field (array vs) values named h = fails
change_text-Covers names op f field (object m) values named h = fails

split_text-Covers :
    (names : List String) (f : String → List String) (field : String) (v : Value) (values : Object)
    → one_of names field ≡ true
    → Covers names values
    → Ensures (Covers names) (split_text f field v values)
unfolding split_text
split_text-Covers names f field null values named h = fails
split_text-Covers names f field (string s) values named h =
    succeeds (Covers-insert names field _ values named h)
split_text-Covers names f field (boolean b) values named h = fails
split_text-Covers names f field (number n) values named h = fails
split_text-Covers names f field (text_list ts) values named h = fails
split_text-Covers names f field (array vs) values named h = fails
split_text-Covers names f field (object m) values named h = fails

join_items-Covers :
    (names : List String) (f : Items → String) (field : String) (v : Value) (values : Object)
    → one_of names field ≡ true
    → Covers names values
    → Ensures (Covers names) (join_items f field v values)
unfolding join_items
join_items-Covers names f field null values named h = fails
join_items-Covers names f field (string s) values named h = fails
join_items-Covers names f field (boolean b) values named h = fails
join_items-Covers names f field (number n) values named h = fails
join_items-Covers names f field (text_list ts) values named h = fails
join_items-Covers names f field (array vs) values named h =
    succeeds (Covers-insert names field _ values named h)
join_items-Covers names f field (object m) values named h = fails

named_by :
    (names : List String) (field : String) (values : Object) (v : Value)
    → Covers names values
    → lookup field values ≡ some v
    → one_of names field ≡ true
unfolding is_some_value
named_by names field values v h e = h field (rw e refl)

one_of-drop_cons :
    (field to k : String) (names : List String)
    → one_of (drop_name field (to ∷ names)) k ≡ true
    → one_of (to ∷ drop_name field names) k ≡ true
unfolding one_of drop_name exists
one_of-drop_cons field to k names h = elim (Bool-cases (str_eq to field)) [
  | inl e ↦ rw (one_of, exists, (rw (drop_name, e) at h)) (ground arith)
  | inr e ↦ rw (drop_name, e) at h
]

rename_there :
    (names : List String) (field to : String) (values : Object) (v : Value)
    → Covers names values
    → Covers (to ∷ drop_name field names) (remove field (insert to v values))
rename_there names field to values v h k there = one_of-drop_cons field to k names (
    Covers-remove (to ∷ names) field (insert to v values)
      (Covers-insert (to ∷ names) to v values (one_of-here names to)
        (Covers-more names to values h))
      k there)

rename_absent :
    (names : List String) (field to : String) (values : Object)
    → lookup field values ≡ none
    → Covers names values
    → Covers (effect Op.rename field to names) values
unfolding effect
rename_absent names field to values gone h = elim (Bool-cases (one_of names field)) [
  | inl e ↦ rw (effect, e) (Covers-more _ to values (Covers-absent names field values gone h))
  | inr e ↦ rw (effect, e) h
]

Covers-if :
    (b : Bool) (names : List String) (field : String) (v : Value) (values : Object)
    → Covers names values
    → Covers (field ∷ names) (if b then insert field v values else values)
Covers-if true names field v values h =
    Covers-insert _ field v values (one_of-here names field) (Covers-more names field values h)
Covers-if false names field v values h = Covers-more names field values h

module _ (engine : Engine) where
  pub run_op-Covers :
      (o : Op) (names : List String) (field : String) (operation values : Object)
      → Covers names values
      → Ensures
          (Covers
            (effect o field (trim_space (string_value engine (value_of "to" operation))) names))
          (run_op engine o field operation values)
  unfolding run_op effect
  run_op-Covers Op.rename names field operation values h =
      let to = trim_space (string_value engine (value_of "to" operation)) in
      elim (Bool-cases (is_empty field || is_empty to)) [
        | inl e ↦ rw (run_op, e) fails
        | inr e ↦
            rw (run_op, e)
              (Ensures-if_there field values _ (λ gone. rename_absent names field to values gone h)
                (λ v there. succeeds (
                  subst (λ ns. Covers ns (remove field (insert to v values)))
                    (rw (effect, named_by names field values v h there) refl)
                    (rename_there names field to values v h))))
      ]
  run_op-Covers Op.trim names field operation values h = Ensures-guard _ (λ named.
      Ensures-if_there field values _ (λ _. h)
        (λ v there.
          change_text-Covers names _ _ field v values (named_by names field values v h there) h))
  run_op-Covers Op.lower names field operation values h = Ensures-guard _ (λ named.
      Ensures-if_there field values _ (λ _. h)
        (λ v there.
          change_text-Covers names _ _ field v values (named_by names field values v h there) h))
  run_op-Covers Op.upper names field operation values h = Ensures-guard _ (λ named.
      Ensures-if_there field values _ (λ _. h)
        (λ v there.
          change_text-Covers names _ _ field v values (named_by names field values v h there) h))
  run_op-Covers Op.split names field operation values h = Ensures-guard _ (λ named.
      Ensures-if_there field values _ (λ _. h)
        (λ v there.
          split_text-Covers names _ field v values (named_by names field values v h there) h))
  run_op-Covers Op.join names field operation values h = Ensures-guard _ (λ named.
      Ensures-if_there field values _ (λ _. h)
        (λ v there.
          join_items-Covers names _ field v values (named_by names field values v h there) h))
  run_op-Covers Op.default names field operation values h = Ensures-guard _ (λ named.
      succeeds (Covers-if (is_empty_value (value_of field values)) names field _ values h))
  run_op-Covers Op.set names field operation values h = Ensures-guard _ (λ named.
      succeeds (
        Covers-insert _ field _ values (one_of-here names field)
          (Covers-more names field values h)))
  run_op-Covers Op.delete names field operation values h =
      Ensures-guard _ (λ named. succeeds (Covers-remove names field values h))

pub word_named : (o : Op) → is_empty (op_word o) ≡ false
word_named Op.rename = refl
word_named Op.trim = refl
word_named Op.lower = refl
word_named Op.upper = refl
word_named Op.split = refl
word_named Op.join = refl
word_named Op.default = refl
word_named Op.set = refl
word_named Op.delete = refl

pub config_text-string : (v : Value) → is_empty (config_text v) ≡ false → v ≡ string (config_text v)
unfolding config_text
config_text-string (string s) h = refl
config_text-string null h = absurd (ground arith)
config_text-string (boolean b) h = absurd (ground arith)
config_text-string (number n) h = absurd (ground arith)
config_text-string (text_list ts) h = absurd (ground arith)
config_text-string (array vs) h = absurd (ground arith)
config_text-string (object m) h = absurd (ground arith)

pub op_among :
    (os : List Op) (s : String) → one_of (map op_word os) s ≡ true → (o : Op) × (s ≡ op_word o)
unfolding one_of exists
op_among [] s h = absurd (ground arith)
op_among (o ∷ os) s h = elim (Bool-cases (str_eq s (op_word o))) [
  | inl e ↦ (o, (eq_iff s (op_word o)).0 e)
  | inr e ↦ op_among os s (rw (one_of, exists, e) at h)
]

abbrev pub plain_ops : List Op
plain_ops =
    Op.trim ∷ Op.lower ∷ Op.upper ∷ Op.split ∷ Op.join ∷ Op.default ∷ Op.set ∷ Op.delete ∷ []

-- The static effect of an operation whose word is exactly one of the nine.
pub operation_names-effect :
    (o : Op) (m : Object) (field to : String) (names : List String)
    → value_of "op" m ≡ string (op_word o)
    → operation_names m field to names ≡ effect o field to names
unfolding operation_names effect
operation_names-effect Op.rename m field to names e = rw (operation_names, e) refl
operation_names-effect Op.trim m field to names e = rw (operation_names, e) refl
operation_names-effect Op.lower m field to names e = rw (operation_names, e) refl
operation_names-effect Op.upper m field to names e = rw (operation_names, e) refl
operation_names-effect Op.split m field to names e = rw (operation_names, e) refl
operation_names-effect Op.join m field to names e = rw (operation_names, e) refl
operation_names-effect Op.default m field to names e = rw (operation_names, e) refl
operation_names-effect Op.set m field to names e = rw (operation_names, e) refl
operation_names-effect Op.delete m field to names e = rw (operation_names, e) refl

pub trimmed_word : (o : Op) → trim_space (trim_space (op_word o)) ≡ op_word o
unfolding trim_space trim_left trim_right put_before is_space
trimmed_word Op.rename = refl
trimmed_word Op.trim = refl
trimmed_word Op.lower = refl
trimmed_word Op.upper = refl
trimmed_word Op.split = refl
trimmed_word Op.join = refl
trimmed_word Op.default = refl
trimmed_word Op.set = refl
trimmed_word Op.delete = refl

pub parse_op-word : (o : Op) → parse_op (op_word o) ≡ some o
unfolding parse_op
parse_op-word Op.rename = refl
parse_op-word Op.trim = refl
parse_op-word Op.lower = refl
parse_op-word Op.upper = refl
parse_op-word Op.split = refl
parse_op-word Op.join = refl
parse_op-word Op.default = refl
parse_op-word Op.set = refl
parse_op-word Op.delete = refl
