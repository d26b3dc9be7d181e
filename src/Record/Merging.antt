-- ===== src/Record/Merging.antt =====
-- `Merge` of internal/record/model.go, with the maps in the order in which Go iterates them.
use Prim.Native.Nat.{Ordering}
use Prim.Native.String.{compare}
use get_magnet.Common.{
  Bool, true, false, ◌&&◌, String, str_eq, List, [], ◌∷◌, ◌++◌, if◌then◌else◌, exists,
}
use get_magnet.Json.{Value, Object, array, items, array_of}
use get_magnet.Json.Objects.{insert}
use get_magnet.Record.{Codec, text_or_empty, is_empty_value, value_at}

-- `sort.Strings`
unfoldable pub insert_text : String → List String → List String
insert_text s [] = s ∷ []
insert_text s (t ∷ ts) = elim (compare s t) [ Ordering.gt ↦ t ∷ insert_text s ts | _ ↦ s ∷ t ∷ ts ]

unfoldable pub sort_texts : List String → List String
unfolding insert_text
sort_texts [] = []
sort_texts (s ∷ ss) = insert_text s (sort_texts ss)

module _ (codec : Codec) where
  -- `string(b)` of `b, _ := json.Marshal(v)`
  abbrev pub encoding : Value → String
  encoding v = text_or_empty (codec.marshal v)

  -- The loop over the items, with the encodings seen.
  unfoldable pub distinct_items : List String → List Value → List Value
  distinct_items seen [] = []
  distinct_items seen (v ∷ vs) =
      if exists (str_eq (encoding v)) seen
      then distinct_items seen vs
      else v ∷ distinct_items (encoding v ∷ seen) vs

  -- The value that an entry brings: arrays on both sides are united.
  unfoldable pub united : Value → Value → Value
  unfolding distinct_items
  united (array old) (array new) = array (array_of (distinct_items [] (items old ++ items new)))
  united _ new = new

  unfoldable pub incoming : Bool → Value → Value → Value
  unfolding united
  incoming preserve old new = if preserve then united old new else new

  -- One entry: the map, and whether it has changed.
  unfoldable pub merge_entry : Bool → String → Value → Object → Object × Bool
  unfolding incoming value_at is_empty_value
  merge_entry preserve k new out =
      let v = incoming preserve (value_at k out) new in
      if preserve && is_empty_value new
      then (out, false)
      else if str_eq (encoding (value_at k out)) (encoding v)
      then (out, false)
      else (insert k v out, true)

  -- The loop over the new entries.
  unfoldable pub merge_entries : Bool → Object → Object → Object × List String
  unfolding merge_entry
  merge_entries preserve [] out = (out, [])
  merge_entries preserve ((k, v) ∷ new) out =
      let (mid, differs) = merge_entry preserve k v out in
      let (end, changed) = merge_entries preserve new mid in
      (end, if differs then k ∷ changed else changed)

  unfoldable pub merge : Object → Object → String → Object × List String
  unfolding merge_entries sort_texts
  merge old new policy =
      let (out, changed) = merge_entries (str_eq policy "preserve") new old in
      (out, sort_texts changed)
