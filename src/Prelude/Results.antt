-- ===== src/Prelude/Results.antt =====
-- Code that throws: a value, or what was thrown.
use mathlib.Core.Path.{◌≡◌, refl, subst}
use mathlib.Core.Option.{Option, none, some}

pub data Result {ℓ κ} (E : Type ℓ) (A : Type κ) : Type (ℓ ⊔ κ) where
  ok : A → Result E A
  err : E → Result E A

infixl 5 ◌>>=◌
abbrev pub ◌>>=◌ {ℓ κ μ} :
    {E : Type ℓ} {A : Type κ} {B : Type μ} → Result E A → (A → Result E B) → Result E B
ok a >>= f = f a
err e >>= f = err e

-- A getter's result code, checked: `none` stands for a code other than 0.
abbrev pub or_throw {ℓ κ} : {E : Type ℓ} {A : Type κ} → E → Option A → Result E A
or_throw e none = err e
or_throw e (some a) = ok a

-- What a chain returns, its last part returned on what the first did.
pub >>=-eq-ok {ℓ κ μ} :
    {E : Type ℓ} {V : Type κ} {W : Type μ} (r : Result E V) (next : V → Result E W) {w : W}
    → (r >>= next) ≡ ok w
    → (v : V) × (r ≡ ok v) × (next v ≡ ok w)
>>=-eq-ok (err e) next h = cc
>>=-eq-ok (ok v) next h = (v, refl, h)

-- A condition on the value, if there is one.
pub data Ensures {ℓ κ μ} {E : Type ℓ} {A : Type κ} (P : A → Type μ)
    : Result E A → Type (ℓ ⊔ κ ⊔ μ) where
  value : (a : A) → P a → Ensures P (ok a)
  thrown : (e : E) → Ensures P (err e)

pub Ensures-bind {ℓ κ μ ν} :
    {E : Type ℓ} {A : Type κ} {B : Type μ} {Q : B → Type ν} (m : Result E A) {f : A → Result E B}
    → ((a : A) → m ≡ ok a → Ensures Q (f a))
    → Ensures Q (m >>= f)
Ensures-bind (ok a) h = h a refl
Ensures-bind (err e) h = thrown e

ensures_value {ℓ κ μ} :
    {E : Type ℓ} {A : Type κ} {P : A → Type μ} {r : Result E A}
    → Ensures P r
    → (a : A) → r ≡ ok a
    → P a
ensures_value {P = P} (value b p) a e = subst P (cc) p
ensures_value (thrown x) a e = cc

pub ensures-ok {ℓ κ μ} :
    {E : Type ℓ} {A : Type κ} {P : A → Type μ} {r : Result E A} {a : A}
    → Ensures P r
    → r ≡ ok a
    → P a
ensures-ok {a = a} h e = ensures_value h a e

pub Ensures-all {ℓ κ μ} :
    {E : Type ℓ} {A : Type κ} {P : A → Type μ} (r : Result E A)
    → ((a : A) → r ≡ ok a → P a)
    → Ensures P r
Ensures-all (ok a) h = value a (h a refl)
Ensures-all (err e) h = thrown e

pub or_throw-ok {ℓ κ} :
    {E : Type ℓ} {A : Type κ} (e : E) (o : Option A) {a : A} → or_throw e o ≡ ok a → o ≡ some a
or_throw-ok e none h = cc
or_throw-ok e (some b) h = cc
