-- ===== src/Workflow/Supported.antt =====
-- The errors of `ApplyTransform` (internal/workflow/transform.go) that publication rules out.
use get_magnet.Common.{
  ℕ, suc, ◌≡◌, refl, ap, ◌∙◌, Bool, true, false, ◌&&◌, ◌||◌, some, String, is_empty, guard, List,
  Result, ◌>>◌, exists, errs, errs->>=, errs->>, errs-guard, and_left, and_right, trim_space,
  Bool-cases, Option-cases, inl, inr, arith,
}
use get_magnet.Json.{
  Value, null, string, boolean, number, text_list, array, object, Items, no_items, item, members,
  Object,
}
use get_magnet.Json.Objects.{lookup}
use get_magnet.Workflow.Definition.{one_of}
use get_magnet.Workflow.{Engine, Node, string_value, value_of}
use get_magnet.Workflow.Capabilities.{
  executable_operation, executable_operations, executable_body, array_items, is_filled,
}
use get_magnet.Workflow.Sound.Nodes.{executable_operation-IsKnown, op_of-word}
use get_magnet.Workflow.Sound.Operations.{KeepsWords, parse_op-word}
use get_magnet.Workflow.Transform.{
  TransformError, operations_not_array, operation_not_object, unsupported_operation, field_required,
  Op, parse_op, op_of, field_of, run_op, change_text, split_text, join_items, if_there,
  run_operation, run_operations, apply_operations, apply_transform,
}

-- Errors of the document, rather than of the values it runs on.
abbrev pub is_structural : TransformError → Bool
is_structural operations_not_array = true
is_structural (operation_not_object i) = true
is_structural (unsupported_operation op) = true
is_structural _ = false

change_text-errs :
    (op : String) (f : String → String) (field : String) (v : Value) (values : Object)
    → errs is_structural (change_text op f field v values) ≡ false
unfolding change_text
change_text-errs op f field null values = refl
change_text-errs op f field (string s) values = refl
change_text-errs op f field (boolean b) values = refl
change_text-errs op f field (number n) values = refl
change_text-errs op f field (text_list ts) values = refl
change_text-errs op f field (array vs) values = refl
change_text-errs op f field (object m) values = refl

split_text-errs :
    (f : String → List String) (field : String) (v : Value) (values : Object)
    → errs is_structural (split_text f field v values) ≡ false
unfolding split_text
split_text-errs f field null values = refl
split_text-errs f field (string s) values = refl
split_text-errs f field (boolean b) values = refl
split_text-errs f field (number n) values = refl
split_text-errs f field (text_list ts) values = refl
split_text-errs f field (array vs) values = refl
split_text-errs f field (object m) values = refl

join_items-errs :
    (f : Items → String) (field : String) (v : Value) (values : Object)
    → errs is_structural (join_items f field v values) ≡ false
unfolding join_items
join_items-errs f field null values = refl
join_items-errs f field (string s) values = refl
join_items-errs f field (boolean b) values = refl
join_items-errs f field (number n) values = refl
join_items-errs f field (text_list ts) values = refl
join_items-errs f field (array vs) values = refl
join_items-errs f field (object m) values = refl

if_there-errs :
    (field : String) (values : Object) (k : Value → Result TransformError Object)
    → ((v : Value) → errs is_structural (k v) ≡ false)
    → errs is_structural (if_there field values k) ≡ false
unfolding if_there
if_there-errs field values k h = elim (Option-cases (lookup field values)) [
  | inl e ↦ rw (if_there, e) refl
  | inr (v, e) ↦ rw (if_there, e) (h v)
]

-- An operation on a field, after the test that it is named.
on_field :
    (b : Bool) (op field : String) (values : Object) (k : Value → Result TransformError Object)
    → ((v : Value) → errs is_structural (k v) ≡ false)
    → errs is_structural (guard b (field_required op) >> if_there field values k) ≡ false
on_field b op field values k h =
    errs->> is_structural _ _ (errs-guard is_structural _ _ refl)
      (λ _. if_there-errs field values k h)

module _ (engine : Engine) where
  run_op-errs :
      (o : Op) (field : String) (operation values : Object)
      → errs is_structural (run_op engine o field operation values) ≡ false
  unfolding run_op
  run_op-errs Op.rename field operation values =
      elim (Bool-cases
        (is_empty field || is_empty (trim_space (string_value engine (value_of "to" operation))))) [
          | inl e ↦ rw (run_op, e) refl
          | inr e ↦ rw (run_op, e) (if_there-errs field values _ (λ v. refl))
        ]
  run_op-errs Op.trim field operation values =
      on_field _ _ field values _ (λ v. change_text-errs _ _ field v values)
  run_op-errs Op.lower field operation values =
      on_field _ _ field values _ (λ v. change_text-errs _ _ field v values)
  run_op-errs Op.upper field operation values =
      on_field _ _ field values _ (λ v. change_text-errs _ _ field v values)
  run_op-errs Op.split field operation values =
      on_field _ _ field values _ (λ v. split_text-errs _ field v values)
  run_op-errs Op.join field operation values =
      on_field _ _ field values _ (λ v. join_items-errs _ field v values)
  run_op-errs Op.default field operation values =
      errs->> is_structural _ _ (errs-guard is_structural _ _ refl) (λ _. refl)
  run_op-errs Op.set field operation values =
      errs->> is_structural _ _ (errs-guard is_structural _ _ refl) (λ _. refl)
  run_op-errs Op.delete field operation values =
      errs->> is_structural _ _ (errs-guard is_structural _ _ refl) (λ _. refl)

  run_operation-errs :
      KeepsWords engine
      → (m values : Object) → executable_operation m ≡ true
      → errs is_structural (run_operation engine m values) ≡ false
  unfolding run_operation
  run_operation-errs keeps m values h =
      let (o, known) = executable_operation-IsKnown engine m h in
      let runs : parse_op (op_of engine m) ≡ some o =
        ap parse_op (op_of-word engine keeps m o known.word) ∙ parse_op-word o in
      rw (run_operation, runs) (run_op-errs o (field_of engine m) m values)

  run_operations-errs :
      KeepsWords engine
      → (vs : Items) (i : ℕ) (values : Object) → executable_operations vs ≡ true
      → errs is_structural (run_operations engine i vs values) ≡ false
  unfolding run_operations executable_operations
  run_operations-errs keeps no_items i values h = refl
  run_operations-errs keeps (item (object m) vs) i values h =
      errs->>= is_structural _ _
        (run_operation-errs keeps (members m) values (and_left _ (executable_operations vs) h))
        (λ values' ran.
          run_operations-errs keeps vs (suc i) values'
            (and_right (executable_operation (members m)) _ h))
  run_operations-errs keeps (item null vs) i values h = absurd (ground arith)
  run_operations-errs keeps (item (string s) vs) i values h = absurd (ground arith)
  run_operations-errs keeps (item (boolean b) vs) i values h = absurd (ground arith)
  run_operations-errs keeps (item (number n) vs) i values h = absurd (ground arith)
  run_operations-errs keeps (item (text_list ts) vs) i values h = absurd (ground arith)
  run_operations-errs keeps (item (array ws) vs) i values h = absurd (ground arith)

  apply_operations-errs :
      KeepsWords engine
      → (v : Value) (values : Object) → is_filled engine v ≡ true
      → executable_operations (array_items engine v) ≡ true
      → errs is_structural (apply_operations engine v values) ≡ false
  unfolding apply_operations
  apply_operations-errs keeps (array vs) values filled h = run_operations-errs keeps vs 0 values h
  apply_operations-errs keeps null values filled h = refl
  apply_operations-errs keeps (string s) values filled h = absurd (ground arith)
  apply_operations-errs keeps (boolean b) values filled h = absurd (ground arith)
  apply_operations-errs keeps (number n) values filled h = absurd (ground arith)
  apply_operations-errs keeps (text_list ts) values filled h = absurd (ground arith)
  apply_operations-errs keeps (object m) values filled h = absurd (ground arith)

  transform_body :
      (node : Node)
      → node.kind ≡ "transform"
      → executable_body engine node ≡ true
      → (is_filled engine (value_of "operations" node.config)
          && executable_operations (array_items engine (value_of "operations" node.config)))
        ≡ true
  unfolding executable_body one_of exists
  transform_body node e h = rw (executable_body, e) at h

-- A transform node that the check of publication accepts never fails for what it says: whatever the
-- values are, its operations are an array of objects, and each is one of the nine that there are.
-- `strings.ToLower` is taken to keep the nine words of the operations.
pub apply_transform_supported :
    (engine : Engine)
    → KeepsWords engine
    → (node : Node) (values : Object) → node.kind ≡ "transform"
    → executable_body engine node ≡ true
    → errs is_structural (apply_transform engine values node.config) ≡ false
unfolding apply_transform
apply_transform_supported engine keeps node values e h =
    let body = transform_body engine node e h in
    apply_operations-errs engine keeps (value_of "operations" node.config) values
      (and_left (is_filled engine (value_of "operations" node.config)) _ body)
      (and_right (is_filled engine (value_of "operations" node.config)) _ body)
