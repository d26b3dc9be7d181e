-- ===== src/Common/Changes.antt =====
-- Two lists of the same length whose members are related one by one: a table before and after its
-- rows have changed in place.
use mathlib.Core.Path.{◌≡◌, refl, subst}
use mathlib.Core.Logic.{inl, inr}
use mathlib.Core.Bool.{Bool, true}
use mathlib.Core.Option.{some}
use mathlib.Core.List.{List, [], ◌∷◌}
use native.Mathlib.Omega.{arith}
use get_magnet.Common.Tests.{Bool-cases}
use get_magnet.Common.Lists.{first, count, update, All}

pub data Pairs {ℓ κ} {A : Type ℓ} (R : A → A → Type κ) : List A → List A → Type (ℓ ⊔ κ) where
  no_pairs : Pairs R [] []
  pair : {x y : A} {xs ys : List A} → R x y → Pairs R xs ys → Pairs R (x ∷ xs) (y ∷ ys)

module _ {ℓ κ} {A : Type ℓ} {R : A → A → Type κ} where
  pub Pairs-refl : ((x : A) → R x x) → (xs : List A) → Pairs R xs xs
  Pairs-refl same [] = no_pairs
  Pairs-refl same (x ∷ xs) = pair (same x) (Pairs-refl same xs)

  pub Pairs-update :
      (c : A → Bool) (f : A → A)
      → ((x : A) → R x x)
      → ((x : A) → c x ≡ true → R x (f x))
      → (xs : List A) → Pairs R xs (update c f xs)
  unfolding update
  Pairs-update c f same move [] = no_pairs
  Pairs-update c f same move (x ∷ xs) = elim (Bool-cases (c x)) [
    | inl e ↦ rw e (pair (move x e) (Pairs-update c f same move xs))
    | inr e ↦ rw e (pair (same x) (Pairs-update c f same move xs))
  ]

  pub Pairs-then :
      {xs ys zs : List A}
      → ((x y z : A) → R x y → R y z → R x z)
      → Pairs R xs ys
      → Pairs R ys zs
      → Pairs R xs zs
  Pairs-then join no_pairs no_pairs = no_pairs
  Pairs-then join (pair {x} {y} h hs) (pair {x = y'} {y = z} k ks) =
      pair (join x y z h k) (Pairs-then join hs ks)

  pub Pairs-All {μ} :
      {xs ys : List A} (P : A → Type μ)
      → ((x y : A) → R x y → P x → P y)
      → Pairs R xs ys
      → All P xs
      → All P ys
  Pairs-All P keep no_pairs v = tt
  Pairs-All P keep (pair {x} {y} h hs) v = (keep x y h v.0, Pairs-All P keep hs v.1)

  -- A condition that the relation keeps finds related members, and as many.
  pub Pairs-first :
      {xs ys : List A} (c : A → Bool)
      → ((x y : A) → R x y → c y ≡ c x)
      → Pairs R xs ys
      → (x : A) → first c xs ≡ some x
      → (y : A) × (first c ys ≡ some y) × R x y
  unfolding first
  Pairs-first c keep no_pairs x e = absurd (ground arith)
  Pairs-first c keep (pair {x = a} {y = b} h hs) x e = elim (Bool-cases (c a)) [
    | inl t ↦
        let same : a ≡ x = ground (arith, t, e) in
        (b, rw (keep a b h, t) refl, subst (λ z. R z b) same h)
    | inr t ↦
        let rest = Pairs-first c keep hs x (rw t at e) in
        (rest.0, rw (keep a b h, t) (rest.1), rest.2)
  ]

  pub Pairs-count :
      {xs ys : List A} (c : A → Bool)
      → ((x y : A) → R x y → c y ≡ c x)
      → Pairs R xs ys
      → count c ys ≡ count c xs
  unfolding count
  Pairs-count c keep no_pairs = refl
  Pairs-count c keep (pair {x} {y} h hs) = rw (keep x y h, Pairs-count c keep hs) refl
