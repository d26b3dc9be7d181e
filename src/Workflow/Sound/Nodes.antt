-- ===== src/Workflow/Sound/Nodes.antt =====
-- Whole nodes: the names of `ValidateRecordSchema` (internal/workflow/records.go) cover the values
-- after each transform node, extract node and validate node.
use get_magnet.Common.{
  ℕ, suc, ◌≡◌, refl, ap, ◌∙◌, inl, inr, Bool, true, false, not, ◌&&◌, Bool-cases, some, String,
  str_eq, eq_iff, List, if◌then◌else◌, Ensures, succeeds, fails, Ensures->>=, of_Ensures, and_left,
  and_right, trim_space, trim_space_idem, is_empty, arith,
}
use get_magnet.Json.{
  Value, null, string, boolean, number, text_list, array, object, Items, no_items, item, members,
  Object,
}
use get_magnet.Workflow.{Engine, string_value, value_of}
use get_magnet.Workflow.Capabilities.{
  executable_operation, executable_operations, keys_among, operation_keys, plain_operations,
}
use get_magnet.Workflow.Definition.{one_of, config_text}
use get_magnet.Workflow.Names.{operation_names, operations_names}
use get_magnet.Workflow.Sound.{Covers}
use get_magnet.Workflow.Sound.Operations.{
  KeepsWords, op_word, effect, run_op-Covers, word_named, config_text-string, op_among, plain_ops,
  operation_names-effect, trimmed_word, parse_op-word,
}
use get_magnet.Workflow.Transform.{Op, parse_op, run_operation, run_operations, op_of}

plain_effect :
    (o : Op) (field t u : String) (names : List String)
    → str_eq (op_word o) "rename" ≡ false
    → effect o field t names ≡ effect o field u names
unfolding effect
plain_effect Op.rename field t u names h = absurd (ground arith)
plain_effect Op.trim field t u names h = refl
plain_effect Op.lower field t u names h = refl
plain_effect Op.upper field t u names h = refl
plain_effect Op.split field t u names h = refl
plain_effect Op.join field t u names h = refl
plain_effect Op.default field t u names h = refl
plain_effect Op.set field t u names h = refl
plain_effect Op.delete field t u names h = refl

last_two : (a b c : Bool) → (a && not b && c) ≡ true → (b ≡ false) × (c ≡ true)
last_two a b c h = ground (arith, h)

module _ (engine : Engine) where
  trimmed :
      (v : Value)
      → is_empty (config_text v) ≡ false
      → trim_space (string_value engine v) ≡ string_value engine v
  unfolding string_value
  trimmed v h = rw (config_text-string v h) (trim_space_idem (config_text v))

  -- What the checks of publication say of an operation.
  pub record IsKnown (m : Object) (o : Op) : Type 0 where
    pub word : value_of "op" m ≡ string (op_word o)
    pub field :
        trim_space (string_value engine (value_of "field" m))
        ≡ string_value engine (value_of "field" m)
    pub to :
        (f : String) (names : List String)
        → effect o f (trim_space (string_value engine (value_of "to" m))) names
          ≡ effect o f (string_value engine (value_of "to" m)) names

  not_empty : (s : String) → not (is_empty s) ≡ true → is_empty s ≡ false
  not_empty s h = ground (arith, h)

  word_of :
      (m : Object) (o : Op)
      → config_text (value_of "op" m) ≡ op_word o
      → value_of "op" m ≡ string (op_word o)
  word_of m o e =
      let there : is_empty (config_text (value_of "op" m)) ≡ false = rw e (word_named o) in
      config_text-string (value_of "op" m) there ∙ ap string e

  executable_parts :
      (m : Object)
      → executable_operation m ≡ true
      → (is_empty (config_text (value_of "field" m)) ≡ false)
        × ((if str_eq (config_text (value_of "op" m)) "rename"
              then not (is_empty (config_text (value_of "to" m)))
              else one_of plain_operations (config_text (value_of "op" m)))
            ≡ true)
  unfolding executable_operation
  executable_parts m h =
      last_two (keys_among operation_keys m) (is_empty (config_text (value_of "field" m)))
        (if str_eq (config_text (value_of "op" m)) "rename"
          then not (is_empty (config_text (value_of "to" m)))
          else one_of plain_operations (config_text (value_of "op" m)))
        h

  pub op_of-word :
      KeepsWords engine
      → (m : Object) (o : Op) → value_of "op" m ≡ string (op_word o)
      → op_of engine m ≡ op_word o
  unfolding string_value
  op_of-word keeps m o e =
      ap (λ v. engine.lower (trim_space (string_value engine v))) e
      ∙ ap engine.lower (trimmed_word o)
      ∙ keeps o

  pub executable_operation-IsKnown :
      (m : Object) → executable_operation m ≡ true → (o : Op) × IsKnown m o
  executable_operation-IsKnown m h =
      let name = config_text (value_of "op" m) in
      let (named, last) = executable_parts m h in
      let field = trimmed (value_of "field" m) named in
      elim (Bool-cases (str_eq name "rename")) [
        | inl e ↦ (
          Op.rename,
          record {
            word = word_of m Op.rename ((eq_iff name "rename").0 e);
            field = field;
            to = λ f names.
                ap (λ t. effect Op.rename f t names)
                  (trimmed (value_of "to" m) (not_empty _ (rw e at last)));
          },
        )
        | inr e ↦
            let (o, same) = op_among plain_ops name (rw e at last) in
            (
              o,
              record {
                word = word_of m o same;
                field = field;
                to = λ f names. plain_effect o f _ _ names (rw same at e);
              },
            )
      ]

  run_operation-Covers :
      KeepsWords engine
      → (m : Object) (names : List String) (values : Object) → executable_operation m ≡ true
      → Covers names values
      → Ensures
          (Covers (
            operation_names m
              (string_value engine (value_of "field" m))
              (string_value engine (value_of "to" m))
              names))
          (run_operation engine m values)
  unfolding run_operation string_value
  run_operation-Covers keeps m names values h c =
      let (o, known) = executable_operation-IsKnown m h in
      let name = string_value engine (value_of "field" m) in
      let runs : parse_op (op_of engine m) ≡ some o =
        ap parse_op (op_of-word keeps m o known.word) ∙ parse_op-word o in
      rw
        (
          operation_names-effect o m name (string_value engine (value_of "to" m)) names known.word,
          ← (known.to name names),
          run_operation,
          runs,
          known.field,
        )
        (run_op-Covers engine o names name m values c)

  pub run_operations-Covers :
      KeepsWords engine
      → (vs : Items) (i : ℕ) (names : List String) (values : Object)
      → executable_operations vs ≡ true
      → Covers names values
      → Ensures
          (Covers (operations_names (string_value engine) vs names))
          (run_operations engine i vs values)
  unfolding run_operations operations_names executable_operations
  run_operations-Covers keeps no_items i names values h c = succeeds c
  run_operations-Covers keeps (item (object m) vs) i names values h c = Ensures->>= (λ values' ran.
      run_operations-Covers keeps vs (suc i) _ values'
        (and_right (executable_operation (members m)) _ h)
        (of_Ensures (run_operation-Covers keeps (members m) names values (and_left _ _ h) c) ran))
  run_operations-Covers keeps (item null vs) i names values h c = fails
  run_operations-Covers keeps (item (string s) vs) i names values h c = fails
  run_operations-Covers keeps (item (boolean b) vs) i names values h c = fails
  run_operations-Covers keeps (item (number n) vs) i names values h c = fails
  run_operations-Covers keeps (item (text_list ts) vs) i names values h c = fails
  run_operations-Covers keeps (item (array ws) vs) i names values h c = fails
