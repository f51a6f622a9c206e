-- ===== src/Prelude/Result.antt =====
-- Results of code that raises: a value, or the exception.
use mathlib.Core.Path.{◌≡◌, refl, subst}
use mathlib.Core.Bool.{Bool, true, false}

pub data Result {ℓ κ} (E : Type κ) (A : Type ℓ) : Type (ℓ ⊔ κ) where
  ok : A → Result E A
  raise : E → Result E A

infixl 5 ◌>>=◌ ◌>>◌
-- Shut, so that the rules below find a bind in a goal.
unfoldable pub ◌>>=◌ {ℓ κ μ} :
    {E : Type κ} {A : Type ℓ} {B : Type μ} → Result E A → (A → Result E B) → Result E B
ok a >>= f = f a
raise e >>= f = raise e

abbrev pub ◌>>◌ {ℓ κ} : {E : Type κ} {B : Type ℓ} → Result E (Unit {0}) → Result E B → Result E B
m >> k = m >>= λ _. k

-- `if condition: raise error`
abbrev pub raise_if {κ} : {E : Type κ} → Bool → E → Result E (Unit {0})
raise_if true e = raise e
raise_if false e = ok tt

pub >>=-eq-ok {ℓ κ μ} :
    {E : Type κ} {A : Type ℓ} {B : Type μ} (m : Result E A) (f : A → Result E B) {b : B}
    → (m >>= f) ≡ ok b
    → (a : A) × (m ≡ ok a) × (f a ≡ ok b)
unfolding ◌>>=◌
>>=-eq-ok (ok a) f h = (a, refl, h)
>>=-eq-ok (raise e) f h = cc

pub >>-eq-ok {ℓ κ} :
    {E : Type κ} {B : Type ℓ} (m : Result E (Unit {0})) (k : Result E B) {b : B}
    → (m >> k) ≡ ok b
    → (m ≡ ok tt) × (k ≡ ok b)
unfolding ◌>>=◌
>>-eq-ok (ok tt) k h = (refl, h)
>>-eq-ok (raise e) k h = cc

pub raise_if-eq-ok {κ} : {E : Type κ} (b : Bool) (e : E) → raise_if b e ≡ ok tt → b ≡ false
raise_if-eq-ok true e h = cc
raise_if-eq-ok false e h = refl

-- What holds of the value, if there is one.
pub data Ensures {ℓ κ μ} {E : Type κ} {A : Type ℓ} (P : A → Type μ)
    : Result E A → Type (ℓ ⊔ κ ⊔ μ) where
  returns : {a : A} → P a → Ensures P (ok a)
  raises : {e : E} → Ensures P (raise e)

pub Ensures-bind {ℓ κ μ ν} :
    {E : Type κ} {A : Type ℓ} {B : Type ν} {P : B → Type μ} (m : Result E A) (f : A → Result E B)
    → ((a : A) → m ≡ ok a → Ensures P (f a))
    → Ensures P (m >>= f)
unfolding ◌>>=◌
Ensures-bind (ok a) f h = h a refl
Ensures-bind (raise e) f h = raises

Ensures-value {ℓ κ μ} :
    {E : Type κ} {A : Type ℓ} {P : A → Type μ} {r : Result E A} {a : A}
    → Ensures P r
    → r ≡ ok a
    → P a
Ensures-value {P} (returns p) h = subst P (cc) p
Ensures-value raises h = cc

-- Of the value that a computation returned.
pub Ensures-of {ℓ κ μ} :
    {E : Type κ} {A : Type ℓ} (P : A → Type μ) (r : Result E A) {a : A}
    → Ensures P r
    → r ≡ ok a
    → P a
Ensures-of P r e h = Ensures-value e h

pub Ensures-branch {ℓ κ μ} :
    {E : Type κ} {A : Type ℓ} {P : A → Type μ} (b : Bool) (x y : Result E A)
    → (b ≡ true → Ensures P x)
    → (b ≡ false → Ensures P y)
    → Ensures P (elim b [ true ↦ x | false ↦ y ])
Ensures-branch true x y f g = f refl
Ensures-branch false x y f g = g refl

pub Ensures-map {ℓ κ μ ν} :
    {E : Type κ} {A : Type ℓ} {P : A → Type μ} {Q : A → Type ν} {r : Result E A}
    → Ensures P r
    → ((a : A) → P a → Q a)
    → Ensures Q r
Ensures-map (returns p) f = returns (f _ p)
Ensures-map raises f = raises
