-- ===== src/Workflow/Transform.antt =====
-- `ApplyTransform` and `ValidateValues` of internal/workflow/transform.go. An error leaves the values
-- as far as they have been changed; what is returned then is not read, so only the error is kept.
use get_magnet.Common.{
  ℕ, suc, not, ◌||◌, Option, none, some, String, str_eq, str_append, List, [], ◌∷◌, map,
  if◌then◌else◌, Result, ok, err, guard, ◌>>=◌, ◌>>◌, trim_space, is_empty,
}
use get_magnet.Json.{
  Value, null, string, array, object, Items, no_items, item, members, array_of, Object,
}
use get_magnet.Json.Objects.{lookup, insert, remove}
use get_magnet.Workflow.{Engine, string_value, string_values, is_empty_value, value_of}

pub data TransformError : Type 0 where
  operations_not_array : TransformError
  operation_not_object : ℕ → TransformError
  field_required not_string not_array : String → TransformError
  to_required : TransformError
  unsupported_operation : String → TransformError

-- The words of `op`.
pub data Op : Type 0 where
  rename trim lower upper split join default set delete : Op

unfoldable pub parse_op : String → Option Op
parse_op s =
    if str_eq s "rename"
    then some Op.rename
    else if str_eq s "trim"
    then some Op.trim
    else if str_eq s "lower"
    then some Op.lower
    else if str_eq s "upper"
    then some Op.upper
    else if str_eq s "split"
    then some Op.split
    else if str_eq s "join"
    then some Op.join
    else if str_eq s "default"
    then some Op.default
    else if str_eq s "set"
    then some Op.set
    else if str_eq s "delete"
    then some Op.delete
    else none

-- `strings.Join`
unfoldable pub join_texts : String → List String → String
join_texts separator [] = ""
join_texts separator (s ∷ []) = s
join_texts separator (s ∷ t ∷ ts) =
    str_append s (str_append separator (join_texts separator (t ∷ ts)))

unfoldable pub change_text :
    String → (String → String) → String → Value → Object → Result TransformError Object
change_text op f field null values = ok values
change_text op f field (string s) values = ok (insert field (string (f s)) values)
change_text op f field _ values = err (not_string op)

unfoldable pub split_text :
    (String → List String) → String → Value → Object → Result TransformError Object
split_text parts field (string s) values =
    ok (insert field (array (array_of (map (λ t. string (trim_space t)) (parts s)))) values)
split_text parts field _ values = err (not_string "split")

unfoldable pub join_items :
    (Items → String) → String → Value → Object → Result TransformError Object
join_items text_of field (array vs) values = ok (insert field (string (text_of vs)) values)
join_items text_of field _ values = err (not_array "join")

-- `if value, exists := values[field]; exists`
unfoldable pub if_there :
    String → Object → (Value → Result TransformError Object) → Result TransformError Object
if_there field values k = elim (lookup field values) [ none ↦ ok values | some v ↦ k v ]

module _ (engine : Engine) where
  unfoldable pub separator_of : Object → String
  separator_of operation =
      let s = string_value engine (value_of "separator" operation) in if is_empty s then "," else s

  unfoldable pub run_op : Op → String → Object → Object → Result TransformError Object
  unfolding change_text split_text join_items if_there separator_of join_texts
  run_op Op.rename field operation values =
      let to = trim_space (string_value engine (value_of "to" operation)) in
      if is_empty field || is_empty to
      then err to_required
      else if_there field values (λ v. ok (remove field (insert to v values)))
  run_op Op.trim field operation values = do
    guard (not (is_empty field)) (field_required "trim")
    if_there field values (λ v. change_text "trim" trim_space field v values)
  run_op Op.lower field operation values = do
    guard (not (is_empty field)) (field_required "lower")
    if_there field values (λ v. change_text "lower" engine.lower field v values)
  run_op Op.upper field operation values = do
    guard (not (is_empty field)) (field_required "upper")
    if_there field values (λ v. change_text "upper" engine.upper field v values)
  run_op Op.split field operation values = do
    guard (not (is_empty field)) (field_required "split")
    if_there field values
        (λ v. split_text (λ s. engine.split s (separator_of operation)) field v values)
  run_op Op.join field operation values = do
    guard (not (is_empty field)) (field_required "join")
    if_there field values (λ v.
        join_items
          (λ vs.
            join_texts (string_value engine (value_of "separator" operation))
              (string_values engine vs))
          field v values)
  run_op Op.default field operation values = do
    guard (not (is_empty field)) (field_required "default")
    ok (
        if is_empty_value (value_of field values)
        then insert field (value_of "value" operation) values
        else values)
  run_op Op.set field operation values = do
    guard (not (is_empty field)) (field_required "set")
    ok (insert field (value_of "value" operation) values)
  run_op Op.delete field operation values = do
    guard (not (is_empty field)) (field_required "delete")
    ok (remove field values)

  abbrev pub op_of : Object → String
  op_of operation = engine.lower (trim_space (string_value engine (value_of "op" operation)))

  abbrev pub field_of : Object → String
  field_of operation = trim_space (string_value engine (value_of "field" operation))

  unfoldable pub run_operation : Object → Object → Result TransformError Object
  unfolding run_op parse_op
  run_operation operation values = elim (parse_op (op_of operation)) [
    | none ↦ err (unsupported_operation (op_of operation))
    | some op ↦ run_op op (field_of operation) operation values
  ]

  unfoldable pub run_operations : ℕ → Items → Object → Result TransformError Object
  unfolding run_operation
  run_operations i no_items values = ok values
  run_operations i (item (object m) vs) values =
      run_operation (members m) values >>= (λ values'. run_operations (suc i) vs values')
  run_operations i (item _ vs) values = err (operation_not_object i)

  unfoldable pub apply_operations : Value → Object → Result TransformError Object
  unfolding run_operations
  apply_operations null values = ok values
  apply_operations (array vs) values = run_operations 0 vs values
  apply_operations _ values = err operations_not_array

  unfoldable pub apply_transform : Object → Object → Result TransformError Object
  unfolding apply_operations
  apply_transform values config = apply_operations (value_of "operations" config) values
