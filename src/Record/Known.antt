-- ===== src/Record/Known.antt =====
-- The error of an unknown field comes only from an unknown field (`Prepare` of
-- internal/record/model.go).
use get_magnet.Common.{
  ◌≡◌, refl, subst, Bool, true, false, ◌&&◌, inl, inr, Bool-cases, Option-cases, some, String, List,
  [], ◌∷◌, Result, ok, ◌>>=◌, Result-cases, errs, errs->>=, errs->>, errs-guard, errs-or_fail,
  or_fail-ok, some-injective,
}
use get_magnet.Json.{Value, Object, Items, null, string, boolean, number, text_list, array, object}
use get_magnet.Record.{
  Codec, Field, Schema, Error, normalize, normalize_items, normalize_array, normalize_body,
  normalize_entry, field_named, normalize_all, check_required, key_part, key_parts, prepare_values,
  prepare, is_empty_value, value_at,
}

abbrev pub is_unknown : Error → Bool
is_unknown (Error.unknown_field name) = true
is_unknown _ = false

-- Every key has a field.
abbrev pub HasFields : List Field → Object → Type 0
HasFields fields [] = Unit {0}
HasFields fields ((k, v) ∷ m) = ((f : Field) × (field_named k fields ≡ some f)) × HasFields fields m

module _ (codec : Codec) where
  items-known :
      (name kind : String) (vs : Items)
      → errs is_unknown (normalize_items codec name kind vs) ≡ false
  unfolding normalize_items
  items-known name kind Items.no_items = refl
  items-known name kind (Items.item v vs) = elim (Result-cases (normalize codec kind v)) [
    | inl (w, e) ↦
        rw (e, normalize_items) (errs->>= is_unknown _ _ (items-known name kind vs) (λ ws _. refl))
    | inr (bad, e) ↦ rw (e, normalize_items) refl
  ]

  array-known :
      (name kind : String) (v : Value) → errs is_unknown (normalize_array codec name kind v) ≡ false
  unfolding normalize_array
  array-known name kind (array vs) =
      errs->>= is_unknown _ _ (items-known name kind vs) (λ ws _. refl)
  array-known name kind null = refl
  array-known name kind (string s) = refl
  array-known name kind (boolean b) = refl
  array-known name kind (number n) = refl
  array-known name kind (text_list ts) = refl
  array-known name kind (object m) = refl

  body-known :
      (f : Field) (name : String) (v : Value)
      → errs is_unknown (normalize_body codec f name v) ≡ false
  unfolding normalize_body
  body-known f name v = elim (Bool-cases f.multiple) [
    | inl m ↦ rw (m, normalize_body) (array-known name f.kind v)
    | inr m ↦ elim (Result-cases (normalize codec f.kind v)) [
      | inl (w, e) ↦ rw (m, normalize_body, e) refl
      | inr (bad, e) ↦ rw (m, normalize_body, e) refl
    ]
  ]

  entry-known :
      (f : Field) (name : String) (v : Value)
      → errs is_unknown (normalize_entry codec f name v) ≡ false
  unfolding normalize_entry
  entry-known f name null = refl
  entry-known f name (string s) = body-known f name (string s)
  entry-known f name (boolean b) = body-known f name (boolean b)
  entry-known f name (number n) = body-known f name (number n)
  entry-known f name (text_list ts) = body-known f name (text_list ts)
  entry-known f name (array vs) = body-known f name (array vs)
  entry-known f name (object m) = body-known f name (object m)

  step-known :
      (f : Field) (name : String) (v : Value) (rest : Result Error Object)
      → errs is_unknown rest ≡ false
      → errs is_unknown
          (normalize_entry codec f name v >>= (λ w. rest >>= (λ out. ok ((name, w) ∷ out))))
        ≡ false
  step-known f name v rest h =
      errs->>= is_unknown _ _ (entry-known f name v)
        (λ w _. errs->>= is_unknown rest _ h (λ out _. refl))

  all-known :
      (fields : List Field) (raw : Object)
      → HasFields fields raw
      → errs is_unknown (normalize_all codec fields raw) ≡ false
  unfolding normalize_all
  all-known fields [] h = refl
  all-known fields ((name, v) ∷ raw) h =
      let (f, known) = h.0 in
      rw (known, normalize_all)
        (step-known f name v (normalize_all codec fields raw) (all-known fields raw h.1))

  required-known :
      (out : Object) (fields : List Field)
      → errs is_unknown (check_required codec out fields) ≡ false
  unfolding check_required
  required-known out [] = refl
  required-known out (f ∷ fields) =
      elim (Bool-cases (f.required && is_empty_value (value_at f.key out))) [
        | inl e ↦ rw (check_required, e) refl
        | inr e ↦ rw (check_required, e) (required-known out fields)
      ]

  part-known :
      (fields : List Field) (out : Object) (name : String)
      → errs is_unknown (key_part codec fields out name) ≡ false
  unfolding key_part
  part-known fields out name = elim (Option-cases (field_named name fields)) [
    | inl e ↦ rw (key_part, e) refl
    | inr (f, e) ↦ elim (Bool-cases f.multiple) [
      | inl m ↦ rw (key_part, e, m) refl
      | inr m ↦ elim (Bool-cases (is_empty_value (value_at name out))) [
        | inl gone ↦ rw (key_part, e, m, gone) refl
        | inr there ↦ rw (key_part, e, m, there) refl
      ]
    ]
  ]

  parts-known :
      (fields : List Field) (out : Object) (names : List String)
      → errs is_unknown (key_parts codec fields out names) ≡ false
  unfolding key_parts
  parts-known fields out [] = refl
  parts-known fields out (name ∷ names) =
      errs->>= is_unknown _ _ (part-known fields out name)
        (λ p _. errs->>= is_unknown _ _ (parts-known fields out names) (λ ps _. refl))

  -- If every key of a candidate has a field, `Prepare` names no unknown field.
  pub prepare-known :
      (schema : Schema) (raw : Object)
      → HasFields schema.fields raw
      → errs is_unknown (prepare codec schema (some raw)) ≡ false
  unfolding prepare prepare_values
  prepare-known schema raw h =
      errs->>= is_unknown _ _ (errs-or_fail is_unknown (some raw) _ refl) (λ candidate same.
        errs->> is_unknown _ _ (errs-guard is_unknown _ _ refl) (λ _.
          errs->>= is_unknown _ _
            (all-known schema.fields candidate
              (subst (HasFields schema.fields) (some-injective (or_fail-ok (some raw) _ same)) h))
            (λ out _. errs->> is_unknown _ _ (required-known out schema.fields) (λ _.
              errs->>= is_unknown _ _ (parts-known schema.fields out schema.unique_key_fields)
                (λ ps _. refl)))))
