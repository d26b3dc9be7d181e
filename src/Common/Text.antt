-- ===== src/Common/Text.antt =====
-- Texts as Go's `strings` reads them: `TrimSpace` and `HasPrefix`. The length of a text is that of
-- its UTF-8 bytes, `len`.
use Prim.Native.Char.{Char, code}
use Prim.Native.String.{String}
use mathlib.Core.Path.{◌≡◌, refl}
use mathlib.Core.Logic.{inl, inr}
use mathlib.Core.Bool.{Bool, true, false, ◌&&◌, ◌||◌}
use text.Mathlib.Text.{◌==◌ as str_eq}
use get_magnet.Common.Tests.{leb, ◌==◌, if◌then◌else◌, Bool-cases}

-- `unicode.IsSpace`.
unfoldable pub is_space : Char → Bool
is_space c =
    let n = code c in
    (leb 9 n && leb n 13)
    || (n == 32)
    || (n == 133)
    || (n == 160)
    || (n == 5760)
    || (leb 8192 n && leb n 8202)
    || (n == 8232)
    || (n == 8233)
    || (n == 8239)
    || (n == 8287)
    || (n == 12288)

abbrev pub is_empty : String → Bool
is_empty String.[] = true
is_empty (String.◌∷◌ c s) = false

unfoldable pub trim_left : String → String
trim_left String.[] = String.[]
trim_left (String.◌∷◌ c s) = if is_space c then trim_left s else String.◌∷◌ c s

-- Puts a character before a trimmed rest: a space before nothing is trimmed too.
unfoldable pub put_before : Char → String → String
put_before c String.[] = if is_space c then String.[] else String.◌∷◌ c String.[]
put_before c (String.◌∷◌ d s) = String.◌∷◌ c (String.◌∷◌ d s)

unfoldable pub trim_right : String → String
trim_right String.[] = String.[]
trim_right (String.◌∷◌ c s) = put_before c (trim_right s)

unfoldable pub trim_space : String → String
trim_space s = trim_right (trim_left s)

-- `strings.TrimSpace(s) == ""`
unfoldable pub is_blank : String → Bool
unfolding trim_space trim_left trim_right put_before is_space
is_blank s = is_empty (trim_space s)

-- `strings.HasSuffix`
unfoldable pub has_suffix : String → String → Bool
has_suffix String.[] t = str_eq String.[] t
has_suffix (String.◌∷◌ c s) t = str_eq (String.◌∷◌ c s) t || has_suffix s t

trim_left_idem : (s : String) → trim_left (trim_left s) ≡ trim_left s
unfolding trim_left
trim_left_idem String.[] = refl
trim_left_idem (String.◌∷◌ c s) = elim (Bool-cases (is_space c)) [
  | inl e ↦ rw (trim_left, e) (trim_left_idem s)
  | inr e ↦ rw (trim_left, e, trim_left, e) refl
]

trim_right-put_before :
    (c : Char) (s : String) → trim_right s ≡ s → trim_right (put_before c s) ≡ put_before c s
unfolding trim_right put_before
trim_right-put_before c String.[] h = elim (Bool-cases (is_space c)) [
  | inl e ↦ rw (put_before, e) refl
  | inr e ↦ rw (put_before, e, trim_right, put_before, e) refl
]
trim_right-put_before c (String.◌∷◌ d s) h = rw h refl

trim_right_idem : (s : String) → trim_right (trim_right s) ≡ trim_right s
unfolding trim_right
trim_right_idem String.[] = refl
trim_right_idem (String.◌∷◌ c s) = trim_right-put_before c (trim_right s) (trim_right_idem s)

trim_left-put_before :
    (c : Char) (s : String) → is_space c ≡ false → trim_left (put_before c s) ≡ put_before c s
unfolding trim_left put_before
trim_left-put_before c String.[] h = rw (put_before, h, trim_left, h) refl
trim_left-put_before c (String.◌∷◌ d s) h = rw (put_before, trim_left, h) refl

trim_left-trim_right :
    (s : String) → trim_left (trim_right (trim_left s)) ≡ trim_right (trim_left s)
unfolding trim_left trim_right
trim_left-trim_right String.[] = refl
trim_left-trim_right (String.◌∷◌ c s) = elim (Bool-cases (is_space c)) [
  | inl e ↦ rw (trim_left, e) (trim_left-trim_right s)
  | inr e ↦ rw (trim_left, e, trim_right) (trim_left-put_before c (trim_right s) e)
]

pub trim_space_idem : (s : String) → trim_space (trim_space s) ≡ trim_space s
unfolding trim_space
trim_space_idem s = rw (trim_left-trim_right s) (trim_right_idem (trim_left s))
