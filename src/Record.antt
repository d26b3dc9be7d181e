-- ===== src/Record.antt =====
-- internal/record/model.go: how a candidate record is checked, normalised, keyed and merged. The
-- standard library's parsers, encoders and digest are the interface `Codec`.
pub mod Integers
pub mod Merging
pub mod LegacyKeys
pub mod Uniting
pub mod Repeating
pub mod Stable
pub mod Known
pub mod Examples
use Prim.Native.String.{len, slice}
use text.Mathlib.Text.{is_char_boundary, starts_with}
use get_magnet.Common.{
  ℕ, ◌-◌, ◌==◌, ltb, Bool, true, false, not, ◌&&◌, ◌||◌, Option, none, some, String, str_eq,
  str_append, List, [], ◌∷◌, ◌++◌, if◌then◌else◌, Result, ok, err, guard, or_fail, ◌>>=◌, ◌>>◌,
  trim_space, is_blank,
}
use get_magnet.Json.{
  Value, null, string, boolean, number, array, object, Items, items, array_of, Object, members_of,
  Number, json_number, whole_float, other_float, int64, int, int32,
}
use get_magnet.Json.Objects.{lookup}
use get_magnet.Record.Integers.{parse_int64}

-- `url.Parse` with the scheme and the host; whether `time.Parse(time.RFC3339, …)` succeeds;
-- `json.Marshal`, `none` for an error; `fmt.Sprint`; and SHA-256 in hexadecimal digits.
pub record Codec : Type 0 where
  pub parse_url : String → Option (String × String)
  pub is_rfc3339 : String → Bool
  pub marshal : Value → Option String
  pub sprint : Value → String
  pub sha256 : String → String

pub record Field : Type 0 where
  pub key : String
  pub kind : String
  pub required : Bool
  pub multiple : Bool

pub record Schema : Type 0 where
  pub version : ℕ
  pub unique_key_fields : List String
  pub empty_value_policy : String
  pub fields : List Field

-- A key is a text, or a text cut within a character, with its digest.
pub data Key : Type 0 where
  whole : String → Key
  cut_character : String → String → Key

pub record Prepared : Type 0 where
  pub key : Key
  pub values : Object
  pub hash : String

-- The words of `Field.Type`.
pub data Kind : Type 0 where
  of_string of_url of_integer of_number of_boolean of_datetime of_json : Kind
  unknown : String → Kind

unfoldable pub kind_of : String → Kind
kind_of s =
    if str_eq s "string"
    then Kind.of_string
    else if str_eq s "url"
    then Kind.of_url
    else if str_eq s "integer"
    then Kind.of_integer
    else if str_eq s "number"
    then Kind.of_number
    else if str_eq s "boolean"
    then Kind.of_boolean
    else if str_eq s "datetime"
    then Kind.of_datetime
    else if str_eq s "json"
    then Kind.of_json
    else Kind.unknown s

pub data KindError : Type 0 where
  expected_string expected_url_string expected_absolute_url expected_integer expected_number :
      KindError
  expected_boolean expected_datetime bad_datetime bad_number invalid_json : KindError
  unsupported : String → KindError

pub data Error : Type 0 where
  not_an_object no_unique_key : Error
  unknown_field must_be_array required_empty invalid_unique_key unique_key_empty : String → Error
  bad_field : String → KindError → Error

abbrev pub is_nil : List String → Bool
is_nil [] = true
is_nil (s ∷ ss) = false

-- `mustJSON`: the text is empty where `json.Marshal` fails.
abbrev pub text_or_empty : Option String → String
text_or_empty none = ""
text_or_empty (some s) = s

unfoldable pub is_empty_value : Value → Bool
is_empty_value null = true
is_empty_value (string s) = is_blank s
is_empty_value (array vs) = elim vs [ Items.no_items ↦ true | Items.item v ws ↦ false ]
is_empty_value _ = false

-- A key that is missing reads as nil.
unfoldable pub value_at : String → Object → Value
value_at k m = elim (lookup k m) [ none ↦ null | some v ↦ v ]

-- `fields[f.Key] = f`: of two fields with one key the last.
unfoldable pub field_named : String → List Field → Option Field
field_named k [] = none
field_named k (f ∷ fs) = elim (field_named k fs) [
  | some g ↦ some g
  | none ↦ if str_eq f.key k then some f else none
]

unfoldable pub as_text : KindError → Value → Result KindError String
as_text e (string s) = ok s
as_text e _ = err e

unfoldable pub normalize_integer : Value → Result KindError Value
normalize_integer (number (json_number s)) = elim (parse_int64 s) [
  | none ↦ err bad_number
  | some i ↦ ok (number (int64 i))
]
normalize_integer (number (whole_float i)) = ok (number (int64 i))
normalize_integer (number (int64 i)) = ok (number (int64 i))
normalize_integer (number (int i)) = ok (number (int i))
normalize_integer (number (int32 i)) = ok (number (int32 i))
normalize_integer _ = err expected_integer

-- An int32 is no number here.
unfoldable pub normalize_number : Value → Result KindError Value
normalize_number (number (int32 i)) = err expected_number
normalize_number (number n) = ok (number n)
normalize_number _ = err expected_number

unfoldable pub normalize_boolean : Value → Result KindError Value
normalize_boolean (boolean b) = ok (boolean b)
normalize_boolean _ = err expected_boolean

module _ (codec : Codec) where
  -- `u.Host` is there and `u.Scheme` is one of three.
  unfoldable pub is_absolute : Option (String × String) → Bool
  is_absolute none = false
  is_absolute (some (scheme, host)) =
      not (str_eq host "")
      && (str_eq scheme "http" || str_eq scheme "https" || str_eq scheme "magnet")

  unfoldable pub normalize_url : String → Result KindError Value
  unfolding is_absolute
  normalize_url s =
      let v = trim_space s in
      if is_absolute (codec.parse_url v) || starts_with v "magnet:?"
      then ok (string v)
      else err expected_absolute_url

  unfoldable pub normalize_datetime : String → Result KindError Value
  normalize_datetime s = if codec.is_rfc3339 s then ok (string s) else err bad_datetime

  -- `json.Valid(mustJSON(value))`: what `json.Marshal` returns without an error is valid JSON.
  unfoldable pub normalize_json : Value → Result KindError Value
  normalize_json v = elim (codec.marshal v) [ none ↦ err invalid_json | some s ↦ ok v ]

  -- The cases of the switch on the kind.
  unfoldable pub normalize_as : Kind → Value → Result KindError Value
  unfolding as_text normalize_url normalize_datetime normalize_json
  normalize_as Kind.of_string v = as_text expected_string v >>= (λ s. ok (string (trim_space s)))
  normalize_as Kind.of_url v = as_text expected_url_string v >>= normalize_url
  normalize_as Kind.of_integer v = normalize_integer v
  normalize_as Kind.of_number v = normalize_number v
  normalize_as Kind.of_boolean v = normalize_boolean v
  normalize_as Kind.of_datetime v = as_text expected_datetime v >>= normalize_datetime
  normalize_as Kind.of_json v = normalize_json v
  normalize_as (Kind.unknown name) v = err (unsupported name)

  unfoldable pub normalize : String → Value → Result KindError Value
  unfolding normalize_as kind_of
  normalize kind value = normalize_as (kind_of kind) value

  unfoldable pub normalize_items : String → String → Items → Result Error Items
  normalize_items name kind Items.no_items = ok Items.no_items
  normalize_items name kind (Items.item v vs) =
      let rest = normalize_items name kind vs in
      elim (normalize kind v) [
        | err e ↦ err (bad_field name e)
        | ok w ↦ rest >>= (λ ws. ok (Items.item w ws))
      ]

  unfoldable pub normalize_array : String → String → Value → Result Error Value
  normalize_array name kind (array vs) = normalize_items name kind vs >>= (λ ws. ok (array ws))
  normalize_array name kind _ = err (must_be_array name)

  -- A value that is not null, under its field: an array, or one value.
  unfoldable pub normalize_body : Field → String → Value → Result Error Value
  unfolding normalize normalize_items normalize_array
  normalize_body f name value =
      if f.multiple
      then normalize_array name f.kind value
      else elim (normalize f.kind value) [ ok w ↦ ok w | err e ↦ err (bad_field name e) ]

  -- One entry of the candidate.
  unfoldable pub normalize_entry : Field → String → Value → Result Error Value
  unfolding normalize_body
  normalize_entry f name null = ok null
  normalize_entry f name value = normalize_body f name value

  -- The first loop of `Prepare`, in the order in which Go iterates the candidate.
  unfoldable pub normalize_all : List Field → Object → Result Error Object
  unfolding normalize_entry
  normalize_all fields [] = ok []
  normalize_all fields ((name, value) ∷ raw) =
      let rest = normalize_all fields raw in
      elim (field_named name fields) [
        | none ↦ err (unknown_field name)
        | some f ↦ normalize_entry f name value >>= (λ v. rest >>= (λ out. ok ((name, v) ∷ out)))
      ]

  unfoldable pub check_required : Object → List Field → Result Error (Unit {0})
  unfolding value_at is_empty_value
  check_required out [] = ok tt
  check_required out (f ∷ fs) =
      let rest = check_required out fs in
      if f.required && is_empty_value (value_at f.key out) then err (required_empty f.key) else rest

  -- `fmt.Sprint`: of a text the text itself.
  unfoldable pub print : Value → String
  print (string s) = s
  print v = codec.sprint v

  unfoldable pub key_part : List Field → Object → String → Result Error String
  unfolding value_at is_empty_value
  key_part fields out name = elim (field_named name fields) [
    | none ↦ err (invalid_unique_key name)
    | some f ↦
        if f.multiple
        then err (invalid_unique_key name)
        else if is_empty_value (value_at name out)
        then err (unique_key_empty name)
        else ok (print (value_at name out))
  ]

  unfoldable pub key_parts : List Field → Object → List String → Result Error (List String)
  unfolding key_part
  key_parts fields out [] = ok []
  key_parts fields out (name ∷ names) =
      let rest = key_parts fields out names in
      key_part fields out name >>= (λ p. rest >>= (λ ps. ok (p ∷ ps)))

  abbrev pub texts : List String → Items
  texts [] = Items.no_items
  texts (s ∷ ss) = Items.item (string s) (texts ss)

  -- One part is the key itself; several are encoded as an array.
  unfoldable pub join_parts : List String → String
  join_parts [] = ""
  join_parts (p ∷ []) = p
  join_parts (p ∷ q ∷ ps) = text_or_empty (codec.marshal (array (texts (p ∷ q ∷ ps))))

  -- A key of more than 512 bytes is cut after 400, wherever that is, and its digest is put behind.
  unfoldable pub shorten : String → Key
  shorten key =
      let prefix = slice key 0 400 in
      if ltb 512 (len key)
      then (if is_char_boundary key 400
          then whole (str_append prefix (str_append "-" (codec.sha256 key)))
          else cut_character prefix (codec.sha256 key))
      else whole key

  unfoldable pub hash : Object → String
  hash v = codec.sha256 (text_or_empty (codec.marshal (object (members_of v))))

  -- The required fields, the key and the digest of the normalised values.
  unfoldable pub prepare_values : Schema → Object → Result Error Prepared
  unfolding check_required key_parts join_parts shorten hash
  prepare_values schema out = do
    check_required out schema.fields
    parts ← key_parts schema.fields out schema.unique_key_fields
    ok (record { key = shorten (join_parts parts); values = out; hash = hash out })

  -- `none` is a nil candidate.
  unfoldable pub prepare : Schema → Option Object → Result Error Prepared
  unfolding normalize_all prepare_values
  prepare schema raw = do
    candidate ← or_fail raw not_an_object
    guard (not (is_nil schema.unique_key_fields)) no_unique_key
    out ← normalize_all schema.fields candidate
    prepare_values schema out
