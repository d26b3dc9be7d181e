-- ===== src/Common/Outcomes.antt =====
-- Results with an error, and their chains. The steps of a chain stay shut in proofs about it: the
-- rules of `Ensures` take them one by one, and `chains` opens them all.
use mathlib.Core.Path.{◌≡◌, refl}
use mathlib.Core.Logic.{◌⊎◌, inl, inr}
use mathlib.Core.Bool.{Bool, true, false}
use mathlib.Core.Option.{Option, none, some}

pub data Result {ℓ κ} (E : Type κ) (A : Type ℓ) : Type (ℓ ⊔ κ) where
  ok : A → Result E A
  err : E → Result E A

infixl 5 ◌>>=◌ ◌>>◌
unfoldable pub ◌>>=◌ {ℓ κ λ'} :
    {E : Type κ} {A : Type ℓ} {B : Type λ'} → Result E A → (A → Result E B) → Result E B
ok a >>= f = f a
err e >>= f = err e

unfoldable pub ◌>>◌ {ℓ κ} :
    {E : Type κ} {B : Type ℓ} → Result E (Unit {0}) → Result E B → Result E B
unfolding ◌>>=◌
m >> k = m >>= λ _. k

-- An early `return err` unless the test holds.
unfoldable pub guard {κ} : {E : Type κ} → Bool → E → Result E (Unit {0})
guard true e = ok tt
guard false e = err e

unfoldable pub or_fail {ℓ κ} : {E : Type κ} {A : Type ℓ} → Option A → E → Result E A
or_fail none e = err e
or_fail (some a) e = ok a

-- Opens the steps: `unfolding chains`.
unfoldable pub chains : Unit {0}
unfolding ◌>>=◌ ◌>>◌ guard or_fail
chains = tt

pub ok-injective {ℓ κ} :
    {E : Type κ} {A : Type ℓ} {a b : A} → ◌≡◌ {A = Result E A} (ok a) (ok b) → a ≡ b
ok-injective e = cc

pub Result-cases {ℓ κ} :
    {E : Type κ} {A : Type ℓ} (r : Result E A) → ((a : A) × (r ≡ ok a)) ⊎ ((e : E) × (r ≡ err e))
Result-cases (ok a) = inl (a, refl)
Result-cases (err e) = inr (e, refl)

-- Inversion of a chain that succeeds.
pub >>=-ok {ℓ κ μ} :
    {E : Type κ} {A : Type ℓ} {B : Type μ} (step : Result E A) (rest : A → Result E B) {end : B}
    → (step >>= rest) ≡ ok end
    → (mid : A) × (step ≡ ok mid) × (rest mid ≡ ok end)
unfolding ◌>>=◌
>>=-ok (ok mid) rest done = (mid, refl, done)
>>=-ok (err failure) rest done = cc

pub >>-ok {ℓ κ} :
    {E : Type κ} {B : Type ℓ} (m : Result E (Unit {0})) (k : Result E B) {b : B}
    → (m >> k) ≡ ok b
    → (m ≡ ok tt) × (k ≡ ok b)
unfolding ◌>>=◌ ◌>>◌
>>-ok (ok u) k h = (refl, h)
>>-ok (err e) k h = cc

pub guard-ok {κ} : {E : Type κ} (b : Bool) (e : E) → guard b e ≡ ok tt → b ≡ true
unfolding guard
guard-ok true e h = refl
guard-ok false e h = cc

pub or_fail-ok {ℓ κ} :
    {E : Type κ} {A : Type ℓ} (o : Option A) (e : E) {a : A} → or_fail o e ≡ ok a → o ≡ some a
unfolding or_fail
or_fail-ok (some b) e h = cc
or_fail-ok none e h = cc

-- What an operation ensures if it succeeds, with a rule for each form of step.
pub data Ensures {ℓ κ μ} {E : Type κ} {A : Type ℓ} (P : A → Type μ)
    : Result E A → Type (ℓ ⊔ κ ⊔ μ) where
  succeeds : {a : A} → P a → Ensures P (ok a)
  fails : {e : E} → Ensures P (err e)

module _ {ℓ κ μ} {E : Type κ} {A : Type ℓ} {P : A → Type μ} where
  pub Ensures-guard :
      {b : Bool} {k : Result E A} (e : E) → (b ≡ true → Ensures P k) → Ensures P (guard b e >> k)
  unfolding chains
  Ensures-guard {b = true} e h = h refl
  Ensures-guard {b = false} e h = fails

  pub Ensures-or_fail {ν} :
      {B : Type ν} {o : Option B} {k : B → Result E A} (e : E)
      → ((b : B) → o ≡ some b → Ensures P (k b))
      → Ensures P (or_fail o e >>= k)
  unfolding chains
  Ensures-or_fail {o = none} e h = fails
  Ensures-or_fail {o = some b} e h = h b refl

  pub Ensures->>= {ν} :
      {B : Type ν} {m : Result E B} {k : B → Result E A}
      → ((b : B) → m ≡ ok b → Ensures P (k b))
      → Ensures P (m >>= k)
  unfolding chains
  Ensures->>= {m = ok b} h = h b refl
  Ensures->>= {m = err e} h = fails

  pub Ensures->> :
      {m : Result E (Unit {0})} {k : Result E A} → (m ≡ ok tt → Ensures P k) → Ensures P (m >> k)
  unfolding chains
  Ensures->> {m = ok u} h = h refl
  Ensures->> {m = err e} h = fails

  -- The value of a success has the property.
  pub of_Ensures : {r : Result E A} {a : A} → Ensures P r → r ≡ ok a → P a
  of_Ensures (succeeds {a = b} h) e = rw (← (ok-injective e)) h
  of_Ensures fails e = cc

pub Ensures-by {ℓ κ μ} :
    {E : Type κ} {A : Type ℓ} {P : A → Type μ} (r : Result E A)
    → ((a : A) → r ≡ ok a → P a)
    → Ensures P r
Ensures-by (ok a) h = succeeds (h a refl)
Ensures-by (err e) h = fails

pub Ensures-map {ℓ κ μ ν} :
    {E : Type κ} {A : Type ℓ} {P : A → Type μ} {Q : A → Type ν} {r : Result E A}
    → ((a : A) → P a → Q a)
    → Ensures P r
    → Ensures Q r
Ensures-map f (succeeds {a} h) = succeeds (f a h)
Ensures-map f fails = fails

-- Whether a result is an error of a kind.
abbrev pub errs {ℓ κ} : {E : Type κ} {A : Type ℓ} → (E → Bool) → Result E A → Bool
errs p (ok a) = false
errs p (err e) = p e

pub errs->>= {ℓ κ μ} :
    {E : Type κ} {A : Type ℓ} {B : Type μ} (p : E → Bool) (m : Result E A) (k : A → Result E B)
    → errs p m ≡ false
    → ((a : A) → m ≡ ok a → errs p (k a) ≡ false)
    → errs p (m >>= k) ≡ false
unfolding ◌>>=◌
errs->>= p (ok a) k h f = f a refl
errs->>= p (err e) k h f = h

pub errs->> {ℓ κ} :
    {E : Type κ} {B : Type ℓ} (p : E → Bool) (m : Result E (Unit {0})) (k : Result E B)
    → errs p m ≡ false
    → (m ≡ ok tt → errs p k ≡ false)
    → errs p (m >> k) ≡ false
unfolding ◌>>=◌ ◌>>◌
errs->> p (ok u) k h f = f refl
errs->> p (err e) k h f = h

pub errs-guard {κ} :
    {E : Type κ} (p : E → Bool) (b : Bool) (e : E) → p e ≡ false → errs p (guard b e) ≡ false
unfolding guard
errs-guard p true e h = refl
errs-guard p false e h = h

pub errs-or_fail {ℓ κ} :
    {E : Type κ} {A : Type ℓ} (p : E → Bool) (o : Option A) (e : E)
    → p e ≡ false
    → errs p (or_fail o e) ≡ false
unfolding or_fail
errs-or_fail p none e h = h
errs-or_fail p (some a) e h = refl
