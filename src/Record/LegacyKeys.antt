-- ===== src/Record/LegacyKeys.antt =====
-- `LegacyMagnetKey` of internal/record/model.go.
use Prim.Native.Char.{code}
use Prim.Native.String.{String, ◌++◌}
use text.Mathlib.TextLemmas.{nil-append, cons-append}
use get_magnet.Common.{
  ℕ, ◌==◌, leb, ◌≡◌, refl, false, ◌&&◌, Option, none, some, if◌then◌else◌, inl, inr, Bool-cases,
  Option-cases, ==_iff, is_empty, arith,
}
use get_magnet.Json.{ℤ}
use get_magnet.Record.Integers.{parse_int64, parse_natural, parse_digits, positive, negative}

-- What stands behind a prefix.
unfoldable pub strip_prefix : String → String → Option String
strip_prefix String.[] s = some s
strip_prefix (String.◌∷◌ c p) String.[] = none
strip_prefix (String.◌∷◌ c p) (String.◌∷◌ d s) =
    let rest = strip_prefix p s in if code c == code d then rest else none

-- `strings.LastIndex`: the text before the last occurrence of the mark, and what stands behind it.
unfoldable pub cut_last : String → String → Option (String × String)
cut_last mark String.[] = none
cut_last mark (String.◌∷◌ c s) = elim (cut_last mark s) [
  | some (before, after) ↦ some (String.◌∷◌ c before, after)
  | none ↦ elim (strip_prefix mark (String.◌∷◌ c s)) [
    | some after ↦ some (String.[], after)
    | none ↦ none
  ]
]

abbrev pub duplicate_mark : String
duplicate_mark = "#duplicate:"

-- The mark is not at the beginning, and an integer stands behind it.
unfoldable pub legacy_magnet_key : String → String
unfolding parse_int64
legacy_magnet_key key = elim (cut_last duplicate_mark key) [
  | none ↦ key
  | some (before, after) ↦
      if is_empty before then key else elim (parse_int64 after) [ none ↦ key | some i ↦ before ]
]

-- A text without the mark's first character has no mark in it.
abbrev LacksHash : String → Type 0
LacksHash String.[] = Unit {0}
LacksHash (String.◌∷◌ c s) = ((35 == code c) ≡ false) × LacksHash s

cut_last-LacksHash : (s : String) → LacksHash s → cut_last duplicate_mark s ≡ none
unfolding cut_last strip_prefix
cut_last-LacksHash String.[] h = refl
cut_last-LacksHash (String.◌∷◌ c s) h = rw (cut_last-LacksHash s h.1, h.0) refl

parse_digits-LacksHash : (s : String) (n : ℕ) {m : ℕ} → parse_digits n s ≡ some m → LacksHash s
unfolding parse_digits
parse_digits-LacksHash String.[] n e = tt
parse_digits-LacksHash (String.◌∷◌ c s) n {m} e =
    elim (Bool-cases (leb 48 (code c) && leb (code c) 57)) [
      | inl digit ↦ (
        ground (arith, digit),
        parse_digits-LacksHash s _ {m = m} (rw (digit, parse_digits) at e),
      )
      | inr other ↦ absurd (ground (arith, other, e))
    ]

parse_natural-LacksHash : (s : String) {m : ℕ} → parse_natural s ≡ some m → LacksHash s
unfolding parse_natural
parse_natural-LacksHash String.[] e = tt
parse_natural-LacksHash (String.◌∷◌ c s) e = parse_digits-LacksHash (String.◌∷◌ c s) 0 e

positive-LacksHash : (s : String) {i : ℤ} → positive (parse_natural s) ≡ some i → LacksHash s
unfolding positive
positive-LacksHash s {i} e = elim (Option-cases (parse_natural s)) [
  | inl bad ↦ absurd (ground (arith, bad, e))
  | inr (m, good) ↦ parse_natural-LacksHash s good
]

negative-LacksHash : (s : String) {i : ℤ} → negative (parse_natural s) ≡ some i → LacksHash s
unfolding negative
negative-LacksHash s {i} e = elim (Option-cases (parse_natural s)) [
  | inl bad ↦ absurd (ground (arith, bad, e))
  | inr (m, good) ↦ parse_natural-LacksHash s good
]

parse_int64-LacksHash : (s : String) {i : ℤ} → parse_int64 s ≡ some i → LacksHash s
unfolding parse_int64
parse_int64-LacksHash String.[] e = tt
parse_int64-LacksHash (String.◌∷◌ c s) {i} e = elim (Bool-cases (code c == 43)) [
  | inl plus ↦ (ground (arith, plus), positive-LacksHash s {i = i} (rw (plus, parse_int64) at e))
  | inr other ↦ elim (Bool-cases (code c == 45)) [
    | inl minus ↦
        (ground (arith, minus), negative-LacksHash s {i = i} (rw (other, minus, parse_int64) at e))
    | inr digit ↦ positive-LacksHash (String.◌∷◌ c s) {i = i} (rw (other, digit, parse_int64) at e)
  ]
]

LacksHash-append : (p s : String) → LacksHash p → LacksHash s → LacksHash (p ++ s)
LacksHash-append String.[] s h k = rw (nil-append s) k
LacksHash-append (String.◌∷◌ c p) s h k = rw (cons-append c p s) (h.0, LacksHash-append p s h.1 k)

strip_prefix-append : (p s : String) → strip_prefix p (p ++ s) ≡ some s
unfolding strip_prefix
strip_prefix-append String.[] s = rw (nil-append s) refl
strip_prefix-append (String.◌∷◌ c p) s =
    rw (cons-append c p s, strip_prefix, (==_iff (code c) (code c)).1 refl, strip_prefix-append p s)
      refl

cut_last-mark :
    (s : String) → LacksHash s → cut_last duplicate_mark (duplicate_mark ++ s) ≡ some ("", s)
unfolding cut_last
cut_last-mark s h =
    let rest : LacksHash ("duplicate:" ++ s) = LacksHash-append "duplicate:" s (ground arith) h in
    let marked = strip_prefix-append duplicate_mark s in
    let whole_mark = rw (cons-append _ "duplicate:" s) at marked in
    rw (cons-append _ "duplicate:" s)
      (rw (cut_last, cut_last-LacksHash ("duplicate:" ++ s) rest, whole_mark) refl)

cut_last-append :
    (key s : String)
    → LacksHash s
    → cut_last duplicate_mark (key ++ (duplicate_mark ++ s)) ≡ some (key, s)
unfolding cut_last
cut_last-append String.[] s h = rw (nil-append (duplicate_mark ++ s)) (cut_last-mark s h)
cut_last-append (String.◌∷◌ c key) s h =
    rw (cons-append c key (duplicate_mark ++ s), cut_last, cut_last-append key s h) refl

-- A key of at least one character that was made unique by `#duplicate:` and any integer that
-- `strconv.ParseInt` reads in 64 bits gets its original key back, whatever that key is.
pub legacy_magnet_key-roundtrip :
    (key s : String) (i : ℤ)
    → is_empty key ≡ false
    → parse_int64 s ≡ some i
    → legacy_magnet_key (key ++ (duplicate_mark ++ s)) ≡ key
unfolding legacy_magnet_key
legacy_magnet_key-roundtrip key s i named e =
    rw (legacy_magnet_key, cut_last-append key s (parse_int64-LacksHash s {i = i} e), named, e) refl
