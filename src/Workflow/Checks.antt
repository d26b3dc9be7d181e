-- ===== src/Workflow/Checks.antt =====
-- `ValidateValues` and `matchesType` of internal/workflow/transform.go.
use get_magnet.Common.{
  ℕ, suc, Bool, true, false, ◌&&◌, ◌||◌, none, some, String, str_eq, if◌then◌else◌, Result, ok, err,
  guard, ◌>>◌, trim_space, is_empty,
}
use get_magnet.Json.{
  Value, null, string, boolean, number, text_list, array, object, Items, no_items, item, members,
  Object, int64, int, int32, whole_float, other_float,
}
use get_magnet.Workflow.{Engine, string_value, is_empty_value, value_of}

pub data CheckError : Type 0 where
  fields_not_array : CheckError
  field_not_object name_required : ℕ → CheckError
  required_empty bad_type bad_regex regex_mismatch enum_not_array not_allowed : String → CheckError

abbrev pub is_string : Value → Bool
is_string (string s) = true
is_string _ = false

abbrev pub is_integer : Value → Bool
is_integer (number (int64 i)) = true
is_integer (number (int i)) = true
is_integer (number (int32 i)) = true
is_integer _ = false

abbrev pub is_float : Value → Bool
is_float (number (whole_float i)) = true
is_float (number (other_float s)) = true
is_float _ = false

abbrev pub is_boolean : Value → Bool
is_boolean (boolean b) = true
is_boolean _ = false

-- `reflect.Kind() == reflect.Slice`
abbrev pub is_slice : Value → Bool
is_slice (array vs) = true
is_slice (text_list ts) = true
is_slice _ = false

unfoldable pub matches_type : Value → String → Bool
matches_type v expected =
    (str_eq expected "string" && is_string v)
    || ((str_eq expected "int" || str_eq expected "integer") && is_integer v)
    || ((str_eq expected "float" || str_eq expected "number") && is_float v)
    || ((str_eq expected "bool" || str_eq expected "boolean") && is_boolean v)
    || (str_eq expected "array" && is_slice v)

-- `required, _ := field["required"].(bool)`
abbrev pub as_bool : Value → Bool
as_bool (boolean b) = b
as_bool _ = false

module _ (engine : Engine) where
  unfoldable pub is_allowed : Items → Value → Bool
  is_allowed no_items v = false
  is_allowed (item w ws) v =
      engine.deep_equal w v
      || str_eq (string_value engine w) (string_value engine v)
      || is_allowed ws v

  unfoldable pub check_regex : String → String → Value → Result CheckError (Unit {0})
  check_regex name pattern v = if is_empty pattern then ok tt else elim (engine.compile pattern) [
    | none ↦ err (bad_regex name)
    | some re ↦ guard (re.matches (string_value engine v)) (regex_mismatch name)
  ]

  unfoldable pub check_enum : String → Value → Value → Result CheckError (Unit {0})
  unfolding is_allowed
  check_enum name null v = ok tt
  check_enum name (array ws) v = guard (is_allowed ws v) (not_allowed name)
  check_enum name _ v = err (enum_not_array name)

  -- A value that is there and not empty.
  unfoldable pub check_present : String → Object → Value → Result CheckError (Unit {0})
  unfolding matches_type check_regex check_enum
  check_present name field v = do
    let expected = engine.lower (trim_space (string_value engine (value_of "type" field)))
    guard (is_empty expected || matches_type v expected) (bad_type name)
    check_regex name (string_value engine (value_of "regex" field)) v
    check_enum name (value_of "enum" field) v

  -- A value that is missing counts as empty.
  unfoldable pub check_field : ℕ → Object → Object → Result CheckError (Unit {0})
  unfolding check_present
  check_field i field values =
      let name = trim_space (string_value engine (value_of "name" field)) in
      let v = value_of name values in
      if is_empty name
      then err (name_required i)
      else if is_empty_value v
      then (if as_bool (value_of "required" field) then err (required_empty name) else ok tt)
      else check_present name field v

  unfoldable pub check_fields : ℕ → Items → Object → Result CheckError (Unit {0})
  unfolding check_field
  check_fields i no_items values = ok tt
  check_fields i (item (object m) vs) values =
      check_field i (members m) values >> check_fields (suc i) vs values
  check_fields i (item _ vs) values = err (field_not_object i)

  unfoldable pub validate_values : Object → Object → Result CheckError (Unit {0})
  unfolding check_fields
  validate_values values config = elim (value_of "fields" config) [
    | null ↦ ok tt
    | array vs ↦ check_fields 0 vs values
    | _ ↦ err fields_not_array
  ]
