-- ===== src/Common/Lookups.antt =====
-- Finding rows: what exists, is found or selected, and what an update changes of it.
use Prim.Native.Nat.{◌≤◌}
use mathlib.Core.Path.{◌≡◌, refl}
use mathlib.Core.Logic.{◌⊎◌, inl, inr}
use mathlib.Core.Bool.{Bool, true, false, ◌&&◌}
use mathlib.Core.Option.{none, some}
use mathlib.Core.List.{List, [], ◌∷◌, ◌++◌}
use native.Mathlib.Omega.{arith}
use get_magnet.Common.Tests.{Bool-cases}
use get_magnet.Common.Lists.{length, select, first, exists, count, update, All, All-map}

module _ {ℓ} {A : Type ℓ} where
  pub exists-none : (c : A → Bool) (xs : List A) → All (λ x. c x ≡ false) xs → exists c xs ≡ false
  unfolding exists
  exists-none c [] h = refl
  exists-none c (x ∷ xs) h = ground (arith, h.0, exists-none c xs h.1)

  pub first-none : (c : A → Bool) (xs : List A) → All (λ x. c x ≡ false) xs → first c xs ≡ none
  unfolding first
  first-none c [] h = refl
  first-none c (x ∷ xs) h = rw (h.0) (first-none c xs h.1)

  -- A row that an update changes meets a condition afterwards.
  pub exists-update :
      (p c : A → Bool) (f : A → A) (xs : List A) {x : A}
      → first c xs ≡ some x
      → p (f x) ≡ true
      → exists p (update c f xs) ≡ true
  unfolding exists first update
  exists-update p c f [] e h = absurd (ground arith)
  exists-update p c f (y ∷ xs) {x} e h = elim (Bool-cases (c y)) [
    | inl t ↦ let same : y ≡ x = ground arith in rw (t, same, h) refl
    | inr t ↦ ground (arith, t, exists-update p c f xs {x = x} (ground arith) h)
  ]

  -- An update that keeps a condition's value keeps what the condition finds.
  pub exists-update_keep :
      (p c : A → Bool) (f : A → A)
      → ((x : A) → p (f x) ≡ p x)
      → (xs : List A) → exists p (update c f xs) ≡ exists p xs
  unfolding exists update
  exists-update_keep p c f keep [] = refl
  exists-update_keep p c f keep (x ∷ xs) = ground (arith, keep x, exists-update_keep p c f keep xs)

  -- The rows that an update leaves alone are those that a condition apart from it selects.
  pub select-update_apart :
      (p c : A → Bool) (f : A → A)
      → ((x : A) → c x ≡ true → (p x ≡ false) × (p (f x) ≡ false))
      → (xs : List A) → select p (update c f xs) ≡ select p xs
  unfolding select update
  select-update_apart p c f apart [] = refl
  select-update_apart p c f apart (x ∷ xs) = elim (Bool-cases (c x)) [
    | inl t ↦ rw (t, (apart x t).0, (apart x t).1) (select-update_apart p c f apart xs)
    | inr t ↦ ground (arith, t, select-update_apart p c f apart xs)
  ]

  -- An update that keeps a property, and misses the rows that have it, keeps the selection.
  pub select-update_missed :
      (p c : A → Bool) (f : A → A)
      → ((x : A) → p (f x) ≡ p x)
      → (xs : List A) → All (λ x. (p x ≡ false) ⊎ (c x ≡ false)) xs
      → select p (update c f xs) ≡ select p xs
  unfolding select update
  select-update_missed p c f keeps [] h = refl
  select-update_missed p c f keeps (x ∷ xs) h = elim h.0 [
    | inr miss ↦ ground (arith, miss, select-update_missed p c f keeps xs h.1)
    | inl out ↦ elim (Bool-cases (c x)) [
      | inl hit ↦ rw (hit, keeps x, out) (select-update_missed p c f keeps xs h.1)
      | inr miss ↦ ground (arith, miss, select-update_missed p c f keeps xs h.1)
    ]
  ]

  -- The row that is found first meets a second condition too.
  pub exists_both :
      (c p : A → Bool) (xs : List A) {x : A}
      → first c xs ≡ some x
      → p x ≡ true
      → exists (λ y. c y && p y) xs ≡ true
  unfolding exists first
  exists_both c p [] e h = absurd (ground arith)
  exists_both c p (y ∷ xs) {x} e h = elim (Bool-cases (c y)) [
    | inl t ↦ let same : y ≡ x = ground arith in rw (t, same, h) refl
    | inr t ↦ ground (arith, t, exists_both c p xs {x = x} (ground arith) h)
  ]

  pub first-exists :
      (c : A → Bool) (xs : List A) → exists c xs ≡ true → (x : A) × (first c xs ≡ some x)
  unfolding exists first
  first-exists c [] e = absurd (ground arith)
  first-exists c (y ∷ xs) e = elim (Bool-cases (c y)) [
    | inl t ↦ rw t (y, refl)
    | inr t ↦ rw t (first-exists c xs (ground arith))
  ]

  -- A condition that one of the rows meets exists among them.
  pub self-exists : (xs : List A) → All (λ x. (c : A → Bool) → c x ≡ true → exists c xs ≡ true) xs
  unfolding exists
  self-exists [] = tt
  self-exists (x ∷ xs) =
      (λ c e. ground arith, All-map (λ y h c e. ground (arith, h c e)) xs (self-exists xs))

  pub All-select {κ} :
      (P : A → Type κ) (c : A → Bool) (xs : List A)
      → All P xs
      → All (λ x. P x × (c x ≡ true)) (select c xs)
  unfolding select
  All-select P c [] h = tt
  All-select P c (x ∷ xs) h = elim (Bool-cases (c x)) [
    | inl t ↦ rw t ((h.0, t), All-select P c xs h.1)
    | inr t ↦ rw t (All-select P c xs h.1)
  ]

  pub All-unselect {κ} :
      (P : A → Type κ) (c : A → Bool) (xs : List A)
      → All P (select c xs)
      → All (λ x. (c x ≡ false) ⊎ P x) xs
  unfolding select
  All-unselect P c [] h = tt
  All-unselect P c (x ∷ xs) h = elim (Bool-cases (c x)) [
    | inl t ↦ let h' = rw t at h in (inr h'.0, All-unselect P c xs h'.1)
    | inr t ↦ (inl t, All-unselect P c xs (rw t at h))
  ]

  pub select-exists :
      (c : A → Bool) (xs : List A)
      → exists c xs ≡ true
      → (y : A) × ((ys : List A) × (select c xs ≡ y ∷ ys))
  unfolding select exists
  select-exists c [] e = absurd (ground arith)
  select-exists c (x ∷ xs) e = elim (Bool-cases (c x)) [
    | inl t ↦ rw t (x, (select c xs, refl))
    | inr t ↦ rw t (select-exists c xs (ground arith))
  ]

  pub count_le_length : (c : A → Bool) (xs : List A) → count c xs ≤ length xs
  unfolding count
  count_le_length c [] = omega arith
  count_le_length c (x ∷ xs) = ground (arith, count_le_length c xs)

  pub All-every {κ} : (P : A → Type κ) → ((x : A) → P x) → (xs : List A) → All P xs
  All-every P h [] = tt
  All-every P h (x ∷ xs) = (h x, All-every P h xs)

  pub All-of_first-none :
      (c : A → Bool) (xs : List A) → first c xs ≡ none → All (λ x. c x ≡ false) xs
  unfolding first
  All-of_first-none c [] e = tt
  All-of_first-none c (x ∷ xs) e = elim (Bool-cases (c x)) [
    | inl t ↦ absurd (ground (arith, t, e))
    | inr t ↦ (t, All-of_first-none c xs (rw t at e))
  ]

  pub exists-last :
      (c : A → Bool) (xs : List A) (x : A) → c x ≡ true → exists c (xs ++ x ∷ []) ≡ true
  unfolding exists
  exists-last c [] x h = rw h refl
  exists-last c (y ∷ xs) x h = ground (arith, exists-last c xs x h)
