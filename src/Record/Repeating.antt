-- ===== src/Record/Repeating.antt =====
-- Merging the same record again (`Merge` of internal/record/model.go) changes nothing.
use get_magnet.Common.{
  ◌≡◌, refl, ◌∙◌, inl, inr, Bool, true, false, ◌&&◌, ◌||◌, Bool-cases, String, str_eq, eq_iff, [],
  ◌∷◌, All,
}
use get_magnet.Json.{Value, Object}
use get_magnet.Json.Objects.{insert, lookup-insert}
use get_magnet.Record.{Codec, is_empty_value, value_at}
use get_magnet.Record.Merging.{encoding, incoming, merge_entry, merge_entries, merge, sort_texts}
use get_magnet.Record.Uniting.{IsDistinct, united_again}

value_at-insert : (k : String) (v : Value) (m : Object) → value_at k (insert k v m) ≡ v
unfolding value_at
value_at-insert k v m = rw (value_at, lookup-insert k k v m, (eq_iff k k).1 refl) refl

value_at-insert_other :
    (k j : String) (v : Value) (m : Object)
    → str_eq k j ≡ false
    → value_at j (insert k v m) ≡ value_at j m
unfolding value_at
value_at-insert_other k j v m h = rw (value_at, lookup-insert k j v m, h) refl

module _ (codec : Codec) where
  incoming_again :
      (preserve : Bool) (old new : Value)
      → IsDistinct codec new
      → incoming codec preserve (incoming codec preserve old new) new
        ≡ incoming codec preserve old new
  unfolding incoming
  incoming_again true old new h = united_again codec old new h
  incoming_again false old new h = refl

  -- The entry would change nothing.
  abbrev IsSettled : Bool → String → Value → Object → Type 0
  IsSettled preserve k new out =
      ((preserve && is_empty_value new)
        || str_eq (encoding codec (value_at k out))
            (encoding codec (incoming codec preserve (value_at k out) new)))
      ≡ true

  merge_entry-of_IsSettled :
      (preserve : Bool) (k : String) (new : Value) (out : Object)
      → IsSettled preserve k new out
      → merge_entry codec preserve k new out ≡ (out, false)
  unfolding merge_entry
  merge_entry-of_IsSettled preserve k new out h =
      elim (Bool-cases (preserve && is_empty_value new)) [
        | inl e ↦ rw (merge_entry, e) refl
        | inr e ↦ rw (merge_entry, e, rw e at h) refl
      ]

  merge_entry-IsSettled :
      (preserve : Bool) (k : String) (new : Value) (out : Object)
      → IsDistinct codec new
      → IsSettled preserve k new (merge_entry codec preserve k new out).0
  unfolding merge_entry
  merge_entry-IsSettled preserve k new out d = elim (Bool-cases (preserve && is_empty_value new)) [
    | inl e ↦ rw e refl
    | inr e ↦
        let v = incoming codec preserve (value_at k out) new in
        elim (Bool-cases (str_eq (encoding codec (value_at k out)) (encoding codec v))) [
          | inl same ↦ rw (merge_entry, e, same) same
          | inr other ↦
              rw (merge_entry, e, other)
                (rw (value_at-insert k v out, incoming_again preserve (value_at k out) new d)
                  ((eq_iff (encoding codec v) (encoding codec v)).1 refl))
        ]
  ]

  -- An entry with another key leaves the value of a key alone.
  merge_entry-other :
      (preserve : Bool) (k j : String) (new : Value) (out : Object)
      → str_eq k j ≡ false
      → value_at j (merge_entry codec preserve k new out).0 ≡ value_at j out
  unfolding merge_entry
  merge_entry-other preserve k j new out h = elim (Bool-cases (preserve && is_empty_value new)) [
    | inl e ↦ rw (merge_entry, e) refl
    | inr e ↦
        let v = incoming codec preserve (value_at k out) new in
        elim (Bool-cases (str_eq (encoding codec (value_at k out)) (encoding codec v))) [
          | inl same ↦ rw (merge_entry, e, same) refl
          | inr other ↦ rw (merge_entry, e, other) (value_at-insert_other k j v out h)
        ]
  ]

  -- No key stands twice, and no array has two items with one encoding.
  abbrev pub IsClean : Object → Type 0
  IsClean [] = Unit {0}
  IsClean ((k, v) ∷ m) = All (λ e. str_eq e.0 k ≡ false) m × IsDistinct codec v × IsClean m

  merge_entries-other :
      (preserve : Bool) (j : String) (new out : Object)
      → All (λ e. str_eq e.0 j ≡ false) new
      → value_at j (merge_entries codec preserve new out).0 ≡ value_at j out
  unfolding merge_entries
  merge_entries-other preserve j [] out h = refl
  merge_entries-other preserve j ((k, v) ∷ new) out h =
      merge_entries-other preserve j new (merge_entry codec preserve k v out).0 h.1
      ∙ merge_entry-other preserve k j v out h.0

  merge_entries-IsSettled :
      (preserve : Bool) (new out : Object)
      → IsClean new
      → All (λ e. IsSettled preserve e.0 e.1 (merge_entries codec preserve new out).0) new
  unfolding merge_entries
  merge_entries-IsSettled preserve [] out h = tt
  merge_entries-IsSettled preserve ((k, v) ∷ new) out h =
      let mid = (merge_entry codec preserve k v out).0 in
      (
        rw (merge_entries-other preserve k new mid h.0)
            (merge_entry-IsSettled preserve k v out h.1),
        merge_entries-IsSettled preserve new mid h.2,
      )

  merge_entries-settled :
      (preserve : Bool) (new out : Object)
      → All (λ e. IsSettled preserve e.0 e.1 out) new
      → merge_entries codec preserve new out ≡ (out, [])
  unfolding merge_entries
  merge_entries-settled preserve [] out h = refl
  merge_entries-settled preserve ((k, v) ∷ new) out h =
      rw
        (
          merge_entries,
          merge_entry-of_IsSettled preserve k v out h.0,
          merge_entries-settled preserve new out h.1,
        )
        refl

  -- Under every policy and in every order of the entries: once a record, in which no key stands
  -- twice and no array has two items with one encoding, has been merged into any record, merging it
  -- again leaves the result as it is, and reports no changed field.
  pub merge_again :
      (old new : Object) (policy : String)
      → IsClean new
      → merge codec (merge codec old new policy).0 new policy ≡ ((merge codec old new policy).0, [])
  unfolding merge sort_texts
  merge_again old new policy h =
      let preserve = str_eq policy "preserve" in
      rw (merge, merge_entries-settled preserve new _ (merge_entries-IsSettled preserve new old h))
        refl
