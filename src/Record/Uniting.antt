-- ===== src/Record/Uniting.antt =====
-- Uniting two arrays (`Merge` of internal/record/model.go), and uniting the result again.
use get_magnet.Common.{
  ◌≡◌, refl, sym, ap, subst, ◌∙◌, inl, inr, Bool, true, Bool-cases, String, str_eq, eq_iff, List,
  [], ◌∷◌, ◌++◌, if◌then◌else◌, exists, All, arith,
}
use get_magnet.Json.{
  Value, null, string, boolean, number, text_list, array, object, Items, items, items-array_of,
  array_of-items,
}
use get_magnet.Record.{Codec}
use get_magnet.Record.Merging.{encoding, distinct_items, united}

append_nil {ℓ} : {A : Type ℓ} (xs : List A) → xs ++ [] ≡ xs
append_nil [] = refl
append_nil (x ∷ xs) = ap (λ l. x ∷ l) (append_nil xs)

module _ (codec : Codec) where
  -- The encodings that the loop over the items has seen.
  after : List String → List Value → List String
  after seen [] = seen
  after seen (v ∷ vs) =
      if exists (str_eq (encoding codec v)) seen
      then after seen vs
      else after (encoding codec v ∷ seen) vs

  abbrev is_seen : List String → Value → Bool
  is_seen seen v = exists (str_eq (encoding codec v)) seen

  distinct_items-append :
      (xs ys : List Value) (seen : List String)
      → distinct_items codec seen (distinct_items codec seen xs ++ ys)
        ≡ distinct_items codec seen xs ++ distinct_items codec (after seen xs) ys
  unfolding distinct_items after
  distinct_items-append [] ys seen = refl
  distinct_items-append (x ∷ xs) ys seen = elim (Bool-cases (is_seen seen x)) [
    | inl e ↦ rw (distinct_items, after, e) (distinct_items-append xs ys seen)
    | inr e ↦
        rw (distinct_items, after, e, distinct_items, e)
          (ap (λ l. x ∷ l) (distinct_items-append xs ys (encoding codec x ∷ seen)))
  ]

  after-keeps :
      (xs : List Value) (v : Value) (seen : List String)
      → is_seen seen v ≡ true
      → is_seen (after seen xs) v ≡ true
  unfolding after exists
  after-keeps [] v seen h = h
  after-keeps (x ∷ xs) v seen h = elim (Bool-cases (is_seen seen x)) [
    | inl e ↦ rw (after, e) (after-keeps xs v seen h)
    | inr e ↦
        rw (after, e) (after-keeps xs v (encoding codec x ∷ seen) (rw (exists, h) (ground arith)))
  ]

  covers_from :
      {s t : List String} (x : Value) (xs : List Value)
      → s ≡ t
      → is_seen t x ≡ true
      → All (λ v. is_seen t v ≡ true) xs
      → (is_seen s x ≡ true) × All (λ v. is_seen s v ≡ true) xs
  covers_from x xs e h k =
      subst (λ u. (is_seen u x ≡ true) × All (λ v. is_seen u v ≡ true) xs) (sym e) (h, k)

  after-covers :
      (xs : List Value) (seen : List String) → All (λ v. is_seen (after seen xs) v ≡ true) xs
  unfolding after exists
  after-covers [] seen = tt
  after-covers (x ∷ xs) seen = elim (Bool-cases (is_seen seen x)) [
    | inl e ↦
        let same : after seen (x ∷ xs) ≡ after seen xs = rw (after, e) refl in
        covers_from x xs same (after-keeps xs x seen e) (after-covers xs seen)
    | inr e ↦
        let seen' = encoding codec x ∷ seen in
        let same : after seen (x ∷ xs) ≡ after seen' xs = rw (after, e) refl in
        let itself : is_seen seen' x ≡ true =
          rw (exists, (eq_iff (encoding codec x) (encoding codec x)).1 refl) refl in
        covers_from x xs same (after-keeps xs x seen' itself) (after-covers xs seen')
  ]

  distinct_items-seen :
      (ys : List Value) (seen : List String)
      → All (λ v. is_seen seen v ≡ true) ys
      → distinct_items codec seen ys ≡ []
  unfolding distinct_items
  distinct_items-seen [] seen h = refl
  distinct_items-seen (y ∷ ys) seen h = rw (distinct_items, h.0) (distinct_items-seen ys seen h.1)

  All-behind : (P : Value → Type 0) (xs ys : List Value) → All P (xs ++ ys) → All P ys
  All-behind P [] ys h = h
  All-behind P (x ∷ xs) ys h = All-behind P xs ys h.1

  -- Items that have been united already add nothing.
  distinct_items-again :
      (xs ys : List Value)
      → distinct_items codec [] (distinct_items codec [] (xs ++ ys) ++ ys)
        ≡ distinct_items codec [] (xs ++ ys)
  distinct_items-again xs ys =
      distinct_items-append (xs ++ ys) ys []
      ∙ rw
          (distinct_items-seen ys (after [] (xs ++ ys))
            (All-behind _ xs ys (after-covers (xs ++ ys) [])))
          (append_nil _)

  -- An array has no two items with one encoding.
  abbrev pub IsDistinct : Value → Type 0
  IsDistinct (array vs) = distinct_items codec [] (items vs) ≡ items vs
  IsDistinct _ = Unit {0}

  united_arrays :
      (xs ys : Items)
      → united codec (united codec (array xs) (array ys)) (array ys)
        ≡ united codec (array xs) (array ys)
  unfolding united
  united_arrays xs ys =
      rw
        (
          united,
          items-array_of (distinct_items codec [] (items xs ++ items ys)),
          distinct_items-again (items xs) (items ys),
        )
        refl

  united_self : (v : Value) → IsDistinct v → united codec v v ≡ v
  unfolding united
  united_self (array vs) h =
      let twice : distinct_items codec [] (items vs ++ items vs) ≡ items vs =
        subst (λ l. distinct_items codec [] (l ++ items vs) ≡ l) h
          (distinct_items-again [] (items vs)) in
      rw (united, twice) (ap array (array_of-items vs))
  united_self null h = refl
  united_self (text_list ts) h = refl
  united_self (string s) h = refl
  united_self (boolean b) h = refl
  united_self (number n) h = refl
  united_self (object m) h = refl

  pub united_again :
      (old new : Value)
      → IsDistinct new
      → united codec (united codec old new) new ≡ united codec old new
  unfolding united
  united_again (array xs) (array ys) h = united_arrays xs ys
  united_again (array xs) null h = refl
  united_again (array xs) (text_list ts) h = refl
  united_again (array xs) (string s) h = refl
  united_again (array xs) (boolean b) h = refl
  united_again (array xs) (number n) h = refl
  united_again (array xs) (object m) h = refl
  united_again null new h = united_self new h
  united_again (text_list ts) new h = united_self new h
  united_again (string s) new h = united_self new h
  united_again (boolean b) new h = united_self new h
  united_again (number n) new h = united_self new h
  united_again (object m) new h = united_self new h
