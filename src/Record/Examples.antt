-- ===== src/Record/Examples.antt =====
-- A dataset of magnets, for concrete runs of the theorems.
use get_magnet.Common.{
  ◌≡◌, refl, true, false, none, some, [], ◌∷◌, ok, chains, is_blank, trim_space, trim_left,
  trim_right, put_before, is_space, exists,
}
use get_magnet.Json.{string, array, array_of, Object, pos}
use get_magnet.Json.Objects.{lookup}
use get_magnet.Record.{
  Codec, Schema, Prepared, whole, prepare, prepare_values, normalize_all, normalize_entry,
  normalize_body, normalize, normalize_as, normalize_items, normalize_array, kind_of, as_text,
  field_named, check_required, value_at, is_empty_value, key_parts, key_part, join_parts, print,
  shorten, hash,
}
use get_magnet.Record.Merging.{merge, distinct_items}
use get_magnet.Record.Repeating.{IsClean, merge_again}
use get_magnet.Record.Stable.{prepare_again}
use get_magnet.Record.Integers.{parse_int64, parse_natural, parse_digits}
use get_magnet.Record.LegacyKeys.{legacy_magnet_key, legacy_magnet_key-roundtrip}
use Prim.Native.String.{◌++◌}

-- Encodings of texts, the only values here.
abbrev pub plain : Codec
plain = record {
  parse_url = λ s. none;
  is_rfc3339 = λ s. false;
  marshal = λ v. elim v [ string s ↦ some s | _ ↦ some "" ];
  sprint = λ v. "";
  sha256 = λ s. s;
}

abbrev pub magnets : Schema
magnets = record {
  version = 1;
  unique_key_fields = "hash" ∷ [];
  empty_value_policy = "preserve";
  fields =
      (record { key = "hash"; kind = "string"; required = true; multiple = false })
      ∷ (record { key = "tags"; kind = "string"; required = false; multiple = true })
      ∷ [];
}

abbrev spaced : Object
spaced = ("hash", string " abc ") ∷ ("tags", array (array_of (string "x " ∷ string "y" ∷ []))) ∷ []

abbrev trimmed : Object
trimmed = ("hash", string "abc") ∷ ("tags", array (array_of (string "x" ∷ string "y" ∷ []))) ∷ []

abbrev prepared : Prepared
prepared = record { key = whole "abc"; values = trimmed; hash = "" }

made : prepare plain magnets (some spaced) ≡ ok prepared
unfolding prepare prepare_values normalize_all normalize_entry normalize_body normalize normalize_as
    normalize_items normalize_array kind_of as_text field_named check_required value_at
    is_empty_value key_parts key_part join_parts print shorten hash chains is_blank trim_space
    trim_left trim_right put_before is_space lookup
made = refl

prepare_again_example : prepare plain magnets (some trimmed) ≡ ok prepared
prepare_again_example = prepare_again plain magnets (some spaced) prepared made

clean : IsClean plain trimmed
unfolding distinct_items exists
clean = ((refl, tt), tt, (tt, refl, tt))

merge_again_example :
    merge plain (merge plain [] trimmed "preserve").0 trimmed "preserve"
    ≡ ((merge plain [] trimmed "preserve").0, [])
merge_again_example = merge_again plain [] trimmed "preserve" clean

read_seven : parse_int64 "7" ≡ some (pos 7)
unfolding parse_int64 parse_natural parse_digits
read_seven = refl

legacy_magnet_key-roundtrip_example : legacy_magnet_key ("abc" ++ ("#duplicate:" ++ "7")) ≡ "abc"
legacy_magnet_key-roundtrip_example = legacy_magnet_key-roundtrip "abc" "7" (pos 7) refl read_seven
