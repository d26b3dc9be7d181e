-- ===== src/Common/Lists.antt =====
-- Tables as lists of rows: SELECT, UPDATE and count(*) over a condition, and what an
-- update keeps.
use Prim.Native.Nat.{ℕ, suc, ◌+◌}
use mathlib.Core.Path.{◌≡◌, refl}
use mathlib.Core.Logic.{inl, inr}
use mathlib.Core.Bool.{Bool, true, false, ◌||◌}
use mathlib.Core.Option.{Option, none, some}
use mathlib.Core.List.{List, [], ◌∷◌, ◌++◌, map}
use native.Mathlib.Omega.{arith}
use get_magnet.Common.Tests.{if◌then◌else◌, Bool-cases}

module _ {ℓ} {A : Type ℓ} where
  abbrev pub length : List A → ℕ
  length [] = 0
  length (x ∷ xs) = suc (length xs)

  -- The rows that meet a condition, in the table's order.
  unfoldable pub select : (A → Bool) → List A → List A
  select c [] = []
  select c (x ∷ xs) = if c x then x ∷ select c xs else select c xs

  -- The first row that meets a condition.
  unfoldable pub first : (A → Bool) → List A → Option A
  first c [] = none
  first c (x ∷ xs) = if c x then some x else first c xs

  unfoldable pub exists : (A → Bool) → List A → Bool
  exists c [] = false
  exists c (x ∷ xs) = c x || exists c xs

  unfoldable pub count : (A → Bool) → List A → ℕ
  count c [] = 0
  count c (x ∷ xs) = (if c x then 1 else 0) + count c xs

  -- UPDATE … SET … WHERE.
  unfoldable pub update : (A → Bool) → (A → A) → List A → List A
  update c f [] = []
  update c f (x ∷ xs) = (if c x then f x else x) ∷ update c f xs

  pub length-append : (xs ys : List A) → length (xs ++ ys) ≡ length xs + length ys
  length-append [] ys = omega arith
  length-append (x ∷ xs) ys = omega (arith, length-append xs ys)

  pub count-append : (c : A → Bool) (xs ys : List A) → count c (xs ++ ys) ≡ count c xs + count c ys
  unfolding count
  count-append c [] ys = omega arith
  count-append c (x ∷ xs) ys = omega (arith, count-append c xs ys)

  pub count-update_keep :
      (c d : A → Bool) (f : A → A)
      → ((x : A) → c (f x) ≡ c x)
      → (xs : List A) → count c (update d f xs) ≡ count c xs
  unfolding count update
  count-update_keep c d f keep [] = refl
  count-update_keep c d f keep (x ∷ xs) = ground (arith, keep x, count-update_keep c d f keep xs)

module _ {ℓ κ} {A : Type ℓ} (P : A → Type κ) where
  abbrev pub All : List A → Type κ
  All [] = Unit
  All (x ∷ xs) = P x × All xs

  pub All-append : (xs ys : List A) → All xs → All ys → All (xs ++ ys)
  All-append [] ys h k = k
  All-append (x ∷ xs) ys h k = (h.0, All-append xs ys h.1 k)

  pub All-update :
      (c : A → Bool) (f : A → A)
      → ((x : A) → c x ≡ true → P x → P (f x))
      → (xs : List A) → All xs
      → All (update c f xs)
  unfolding update
  All-update c f keep [] h = tt
  All-update c f keep (x ∷ xs) h = elim (Bool-cases (c x)) [
    | inl e ↦ rw e (keep x e h.0, All-update c f keep xs h.1)
    | inr e ↦ rw e (h.0, All-update c f keep xs h.1)
  ]

  pub All-first : (c : A → Bool) (xs : List A) {x : A} → All xs → first c xs ≡ some x → P x
  unfolding first
  All-first c [] h e = absurd (ground arith)
  All-first c (y ∷ xs) {x} h e = elim (Bool-cases (c y)) [
    | inl t ↦ let same : y ≡ x = ground arith in rw (← same) h.0
    | inr t ↦ All-first c xs h.1 (ground arith)
  ]

module _ {ℓ κ λ'} {A : Type ℓ} {P : A → Type κ} {Q : A → Type λ'} where
  pub All-map : ((x : A) → P x → Q x) → (xs : List A) → All P xs → All Q xs
  All-map f [] h = tt
  All-map f (x ∷ xs) h = (f x h.0, All-map f xs h.1)

  -- An update from one invariant to another: each row is treated by its own case.
  pub All-update_to :
      (c : A → Bool) (f : A → A)
      → ((x : A) → c x ≡ true → P x → Q (f x))
      → ((x : A) → c x ≡ false → P x → Q x)
      → (xs : List A) → All P xs
      → All Q (update c f xs)
  unfolding update
  All-update_to c f hit miss [] h = tt
  All-update_to c f hit miss (x ∷ xs) h = elim (Bool-cases (c x)) [
    | inl e ↦ rw e (hit x e h.0, All-update_to c f hit miss xs h.1)
    | inr e ↦ rw e (miss x e h.0, All-update_to c f hit miss xs h.1)
  ]

module _ {ℓ} {A : Type ℓ} where
  -- A condition that no row meets selects, updates and counts nothing.
  pub count-none : (c : A → Bool) (xs : List A) → All (λ x. c x ≡ false) xs → count c xs ≡ 0
  unfolding count
  count-none c [] h = refl
  count-none c (x ∷ xs) h = ground (arith, count-none c xs h.1)

  pub All-of_count-zero : (c : A → Bool) (xs : List A) → count c xs ≡ 0 → All (λ x. c x ≡ false) xs
  unfolding count
  All-of_count-zero c [] h = tt
  All-of_count-zero c (x ∷ xs) h = (ground arith, All-of_count-zero c xs (ground arith))

  pub All-of_exists-false :
      (c : A → Bool) (xs : List A) → exists c xs ≡ false → All (λ x. c x ≡ false) xs
  unfolding exists
  All-of_exists-false c [] h = tt
  All-of_exists-false c (x ∷ xs) h = (ground arith, All-of_exists-false c xs (ground arith))

  pub exists-first : (c : A → Bool) (xs : List A) {x : A} → first c xs ≡ some x → exists c xs ≡ true
  unfolding exists first
  exists-first c [] e = absurd (ground arith)
  exists-first c (y ∷ xs) {x} e = elim (Bool-cases (c y)) [
    | inl t ↦ rw t refl
    | inr t ↦ rw t (exists-first c xs {x = x} (ground arith))
  ]

  pub first_meets : (c : A → Bool) (xs : List A) {x : A} → first c xs ≡ some x → c x ≡ true
  unfolding first
  first_meets c [] e = absurd (ground arith)
  first_meets c (y ∷ xs) {x} e = elim (Bool-cases (c y)) [
    | inl t ↦ let same : y ≡ x = ground arith in rw (← same) t
    | inr t ↦ first_meets c xs (ground arith)
  ]

module _ {ℓ} {A : Type ℓ} where
  abbrev pub map_option {κ} : {B : Type κ} → (A → B) → Option A → Option B
  map_option f none = none
  map_option f (some a) = some (f a)

  -- A row keeps its place under an update that keeps the key.
  pub first-update :
      (k c : A → Bool) (f : A → A)
      → ((x : A) → k (f x) ≡ k x)
      → (xs : List A)
      → first k (update c f xs) ≡ map_option (λ x. if c x then f x else x) (first k xs)
  unfolding first update
  first-update k c f keep [] = refl
  first-update k c f keep (x ∷ xs) = ground (arith, keep x, first-update k c f keep xs)

  pub first-append_some :
      (k : A → Bool) (xs ys : List A) {x : A} → first k xs ≡ some x → first k (xs ++ ys) ≡ some x
  unfolding first
  first-append_some k [] ys e = absurd (ground arith)
  first-append_some k (y ∷ xs) ys {x} e = elim (Bool-cases (k y)) [
    | inl t ↦ ground arith
    | inr t ↦ rw t (first-append_some k xs ys (ground arith))
  ]

  pub first-append_none :
      (k : A → Bool) (xs ys : List A) → All (λ x. k x ≡ false) xs → first k (xs ++ ys) ≡ first k ys
  unfolding first
  first-append_none k [] ys h = refl
  first-append_none k (y ∷ xs) ys h = rw (h.0) (first-append_none k xs ys h.1)

  pub map-update {κ} :
      {B : Type κ} (g : A → B) (c : A → Bool) (f : A → A)
      → ((x : A) → g (f x) ≡ g x)
      → (xs : List A) → map g (update c f xs) ≡ map g xs
  unfolding update
  map-update g c f keep [] = refl
  map-update g c f keep (x ∷ xs) = ground (arith, keep x, map-update g c f keep xs)

module _ {ℓ κ λ' μ} {A : Type ℓ} {P : A → Type κ} {Q : A → Type λ'} {R : A → Type μ} where
  pub All-map_both : ((x : A) → P x → Q x → R x) → (xs : List A) → All P xs → All Q xs → All R xs
  All-map_both f [] h k = tt
  All-map_both f (x ∷ xs) h k = (f x h.0 k.0, All-map_both f xs h.1 k.1)
