-- ===== src/Record/Stable.antt =====
-- What `Prepare` (internal/record/model.go) returns is a fixed point of it, and its keys are short.
use text.Mathlib.Text.{starts_with}
use get_magnet.Common.{
  ◌≡◌, refl, sym, subst, inl, inr, true, not, ◌||◌, Bool-cases, Option-cases, Option, some, String,
  List, [], ◌∷◌, Result, ok, ◌>>=◌, chains, Ensures, succeeds, fails, Ensures-guard,
  Ensures-or_fail, Ensures->>=, Ensures->>, Ensures-map, Ensures-by, Result-cases, of_Ensures,
  trim_space, trim_space_idem,
}
use get_magnet.Json.{
  Value, Object, Items, null, string, boolean, number, text_list, array, object, json_number,
  whole_float, other_float, int64, int, int32,
}
use get_magnet.Record.{
  Codec, Field, Schema, Kind, Prepared, Error, as_text, normalize_integer, normalize_number,
  normalize_boolean, is_absolute, normalize_url, normalize_datetime, normalize_json, normalize_as,
  kind_of, normalize, normalize_items, normalize_array, normalize_body, normalize_entry,
  field_named, normalize_all, prepare_values, prepare, is_nil,
}
use get_magnet.Record.Integers.{parse_int64}

module _ (codec : Codec) where
  abbrev IsFixed : Kind → Value → Type 0
  IsFixed k w = normalize_as codec k w ≡ ok w

  integer-IsFixed : (v : Value) → Ensures (IsFixed Kind.of_integer) (normalize_integer v)
  unfolding normalize_integer normalize_as
  integer-IsFixed (number (json_number s)) = elim (Option-cases (parse_int64 s)) [
    | inl bad ↦ rw (bad, normalize_integer) fails
    | inr (i, good) ↦ rw (good, normalize_integer) (succeeds refl)
  ]
  integer-IsFixed (number (whole_float i)) = succeeds refl
  integer-IsFixed (number (other_float s)) = fails
  integer-IsFixed (number (int64 i)) = succeeds refl
  integer-IsFixed (number (int i)) = succeeds refl
  integer-IsFixed (number (int32 i)) = succeeds refl
  integer-IsFixed null = fails
  integer-IsFixed (text_list ts) = fails
  integer-IsFixed (string s) = fails
  integer-IsFixed (boolean b) = fails
  integer-IsFixed (array vs) = fails
  integer-IsFixed (object vs) = fails

  number-IsFixed : (v : Value) → Ensures (IsFixed Kind.of_number) (normalize_number v)
  unfolding normalize_number normalize_as
  number-IsFixed (number (json_number s)) = succeeds refl
  number-IsFixed (number (whole_float i)) = succeeds refl
  number-IsFixed (number (other_float s)) = succeeds refl
  number-IsFixed (number (int64 i)) = succeeds refl
  number-IsFixed (number (int i)) = succeeds refl
  number-IsFixed (number (int32 i)) = fails
  number-IsFixed null = fails
  number-IsFixed (text_list ts) = fails
  number-IsFixed (string s) = fails
  number-IsFixed (boolean b) = fails
  number-IsFixed (array vs) = fails
  number-IsFixed (object vs) = fails

  boolean-IsFixed : (v : Value) → Ensures (IsFixed Kind.of_boolean) (normalize_boolean v)
  unfolding normalize_boolean normalize_as
  boolean-IsFixed (boolean b) = succeeds refl
  boolean-IsFixed null = fails
  boolean-IsFixed (text_list ts) = fails
  boolean-IsFixed (string s) = fails
  boolean-IsFixed (number n) = fails
  boolean-IsFixed (array vs) = fails
  boolean-IsFixed (object vs) = fails

  url-IsFixed : (s : String) → Ensures (IsFixed Kind.of_url) (normalize_url codec s)
  unfolding normalize_url normalize_as as_text chains
  url-IsFixed s =
      elim (Bool-cases (
        is_absolute codec (codec.parse_url (trim_space s))
        || starts_with (trim_space s) "magnet:?")) [
          | inl e ↦ rw e (succeeds (rw (trim_space_idem s, e) refl))
          | inr e ↦ rw e fails
        ]

  datetime-IsFixed : (s : String) → Ensures (IsFixed Kind.of_datetime) (normalize_datetime codec s)
  unfolding normalize_datetime normalize_as as_text chains
  datetime-IsFixed s = elim (Bool-cases (codec.is_rfc3339 s)) [
    | inl e ↦ rw e (succeeds (rw e refl))
    | inr e ↦ rw e fails
  ]

  json-IsFixed : (v : Value) → Ensures (IsFixed Kind.of_json) (normalize_json codec v)
  unfolding normalize_json normalize_as
  json-IsFixed v = elim (Option-cases (codec.marshal v)) [
    | inl e ↦ rw (e, normalize_json) fails
    | inr (s, e) ↦ rw (e, normalize_json) (succeeds (rw (normalize_json, e) refl))
  ]

  normalize_as-IsFixed : (k : Kind) (v : Value) → Ensures (IsFixed k) (normalize_as codec k v)
  unfolding normalize_as as_text chains
  normalize_as-IsFixed Kind.of_string v =
      Ensures->>= (λ s _. succeeds {a = string (trim_space s)} (rw (trim_space_idem s) refl))
  normalize_as-IsFixed Kind.of_url v = Ensures->>= (λ s _. url-IsFixed s)
  normalize_as-IsFixed Kind.of_integer v = integer-IsFixed v
  normalize_as-IsFixed Kind.of_number v = number-IsFixed v
  normalize_as-IsFixed Kind.of_boolean v = boolean-IsFixed v
  normalize_as-IsFixed Kind.of_datetime v = Ensures->>= (λ s _. datetime-IsFixed s)
  normalize_as-IsFixed Kind.of_json v = json-IsFixed v
  normalize_as-IsFixed (Kind.unknown name) v = fails

  normalize-fixed :
      (kind : String) (v : Value) {w : Value}
      → normalize codec kind v ≡ ok w
      → normalize codec kind w ≡ ok w
  unfolding normalize
  normalize-fixed kind v e = of_Ensures (normalize_as-IsFixed (kind_of kind) v) e

  items-fixed :
      (name kind : String) (vs : Items)
      → Ensures
          (λ ws. normalize_items codec name kind ws ≡ ok ws)
          (normalize_items codec name kind vs)
  unfolding normalize_items chains
  items-fixed name kind Items.no_items = succeeds refl
  items-fixed name kind (Items.item v vs) = elim (Result-cases (normalize codec kind v)) [
    | inr (bad, e) ↦ rw (e, normalize_items) fails
    | inl (w, e) ↦
        rw (e, normalize_items)
          (Ensures->>= (λ ws k. succeeds {a = Items.item w ws} (
            rw
              (
                normalize_items,
                normalize-fixed kind v e,
                of_Ensures (items-fixed name kind vs) k,
                chains,
              )
              refl)))
  ]

  array-fixed :
      (name kind : String) (v : Value)
      → Ensures
          (λ w. (normalize_array codec name kind w ≡ ok w))
          (normalize_array codec name kind v)
  unfolding normalize_array chains
  array-fixed name kind (array vs) =
      Ensures->>=
        (λ ws k. succeeds {a = array ws} (rw (of_Ensures (items-fixed name kind vs) k) refl))
  array-fixed name kind null = fails
  array-fixed name kind (text_list ts) = fails
  array-fixed name kind (string s) = fails
  array-fixed name kind (boolean b) = fails
  array-fixed name kind (number n) = fails
  array-fixed name kind (object m) = fails

  body-fixed :
      (f : Field) (name : String) (v : Value)
      → Ensures (λ w. normalize_body codec f name w ≡ ok w) (normalize_body codec f name v)
  unfolding normalize_body
  body-fixed f name v = elim (Bool-cases f.multiple) [
    | inl m ↦ rw (m, normalize_body) (array-fixed name f.kind v)
    | inr m ↦ elim (Result-cases (normalize codec f.kind v)) [
      | inr (bad, e) ↦ rw (m, normalize_body, e) fails
      | inl (w, e) ↦ rw (m, normalize_body, e) (succeeds (rw (normalize-fixed f.kind v e) refl))
    ]
  ]

  entry_of_body :
      (f : Field) (name : String) (w : Value)
      → normalize_body codec f name w ≡ ok w
      → normalize_entry codec f name w ≡ ok w
  unfolding normalize_entry normalize_body
  entry_of_body f name null e = refl
  entry_of_body f name (text_list ts) e = e
  entry_of_body f name (string s) e = e
  entry_of_body f name (boolean b) e = e
  entry_of_body f name (number n) e = e
  entry_of_body f name (array vs) e = e
  entry_of_body f name (object vs) e = e

  entry-fixed :
      (f : Field) (name : String) (v : Value)
      → Ensures (λ w. normalize_entry codec f name w ≡ ok w) (normalize_entry codec f name v)
  unfolding normalize_entry normalize_body
  entry-fixed f name null = succeeds refl
  entry-fixed f name (text_list ts) =
      Ensures-map (entry_of_body f name) (body-fixed f name (text_list ts))
  entry-fixed f name (string s) = Ensures-map (entry_of_body f name) (body-fixed f name (string s))
  entry-fixed f name (boolean b) =
      Ensures-map (entry_of_body f name) (body-fixed f name (boolean b))
  entry-fixed f name (number n) = Ensures-map (entry_of_body f name) (body-fixed f name (number n))
  entry-fixed f name (array vs) = Ensures-map (entry_of_body f name) (body-fixed f name (array vs))
  entry-fixed f name (object vs) =
      Ensures-map (entry_of_body f name) (body-fixed f name (object vs))

  all_step-fixed :
      (fields : List Field) (f : Field) (name : String) (v : Value) (rest : Result Error Object)
      → field_named name fields ≡ some f
      → Ensures (λ out. normalize_all codec fields out ≡ ok out) rest
      → Ensures
          (λ out. normalize_all codec fields out ≡ ok out)
          (normalize_entry codec f name v >>= (λ w. rest >>= (λ out. ok ((name, w) ∷ out))))
  unfolding normalize_all chains
  all_step-fixed fields f name v rest known h = Ensures->>= (λ w e. Ensures->>= (λ out k.
      let entry : normalize_entry codec f name w ≡ ok w = of_Ensures (entry-fixed f name v) e in
      let others : normalize_all codec fields out ≡ ok out = of_Ensures h k in
      let all : normalize_all codec fields ((name, w) ∷ out) ≡ ok ((name, w) ∷ out) =
        rw (normalize_all, known, entry, others) refl in
      succeeds all))

  all-fixed :
      (fields : List Field) (raw : Object)
      → Ensures (λ out. normalize_all codec fields out ≡ ok out) (normalize_all codec fields raw)
  unfolding normalize_all
  all-fixed fields [] = succeeds refl
  all-fixed fields ((name, v) ∷ raw) = elim (Option-cases (field_named name fields)) [
    | inl unknown ↦ rw (unknown, normalize_all) fails
    | inr (f, known) ↦
        rw (known, normalize_all)
          (all_step-fixed fields f name v (normalize_all codec fields raw) known
            (all-fixed fields raw))
  ]

  prepare_values-values :
      (schema : Schema) (out : Object)
      → Ensures (λ p. p.values ≡ out) (prepare_values codec schema out)
  unfolding prepare_values
  prepare_values-values schema out = Ensures->> (λ _. Ensures->>= (λ parts _. succeeds refl))

  prepare_of_fixed :
      (schema : Schema) (out : Object) (p : Prepared)
      → not (is_nil schema.unique_key_fields) ≡ true
      → normalize_all codec schema.fields out ≡ ok out
      → prepare_values codec schema out ≡ ok p
      → prepare codec schema (some out) ≡ ok p
  unfolding prepare chains
  prepare_of_fixed schema out p keyed fixed e = rw (prepare, keyed, fixed, chains) e

  -- What `Prepare` makes of a candidate is a fixed point: prepared again under the same schema, its
  -- values give the same values, the same key and the same digest, and no error.
  pub prepare_again :
      (schema : Schema) (raw : Option Object) (p : Prepared)
      → prepare codec schema raw ≡ ok p
      → prepare codec schema (some p.values) ≡ ok p
  unfolding prepare
  prepare_again schema raw p e =
      of_Ensures {P = λ q. prepare codec schema (some q.values) ≡ ok q}
        (Ensures-or_fail _ (λ candidate _. Ensures-guard _ (λ keyed. Ensures->>= (λ out k.
          Ensures-by (prepare_values codec schema out) (λ q made.
            let same : q.values ≡ out = of_Ensures (prepare_values-values schema out) made in
            let fixed = of_Ensures (all-fixed schema.fields candidate) k in
            subst (λ o. prepare codec schema (some o) ≡ ok q) (sym same)
              (prepare_of_fixed schema out q keyed fixed made))))))
        e
