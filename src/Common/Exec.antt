-- ===== src/Common/Exec.antt =====
-- Methods that change an object and may raise. What was written before a raise stays written, so
-- the state comes back beside the error too.
use mathlib.Core.Path.{◌≡◌, refl}
use mathlib.Core.Bool.{Bool, true, false}
use native.Mathlib.Omega.{arith}
use mathlib.Core.Option.{Option, none, some}

pub data Result {ℓ} (E A : Type ℓ) : Type ℓ where
  ok : A → Result E A
  err : E → Result E A

module _ {ℓ} {E A B : Type ℓ} where
  infixl 5 ◌>>=◌
  -- A chain of calls that may raise.
  abbrev pub ◌>>=◌ : Result E A → (A → Result E B) → Result E B
  err e >>= k = err e
  ok x >>= k = k x

-- `if not test: raise e`
abbrev pub guard : {E : Type 0} → Bool → E → Result E Unit
guard false e = err e
guard true _ = ok tt

abbrev pub or_raise {ℓ} : {E A : Type ℓ} → Option A → E → Result E A
or_raise none e = err e
or_raise (some a) e = ok a

abbrev pub ◌>>◌ : {E B : Type 0} → Result E Unit → Result E B → Result E B
test >> rest = test >>= λ done. rest

infixl 5 ◌>>◌
-- `except ... raise F(str(exc)) from exc`: the same outcome with another exception.
abbrev pub raise_as : {E F A : Type 0} → (E → F) → Result E A → Result F A
raise_as f (ok a) = ok a
raise_as f (err e) = err (f e)

-- The call returns.
abbrev pub IsOk {ℓ} : {E A : Type ℓ} → Result E A → Type 0
IsOk (ok _) = Unit
IsOk (err _) = ⊥

-- A chain that returns has a first call that returns.
pub >>=-eq-ok {ℓ} :
    {E A B : Type ℓ} (first : Result E A) (next : A → Result E B) {y : B}
    → (first >>= next) ≡ ok y
    → (x : A) × (first ≡ ok x) × (next x ≡ ok y)
>>=-eq-ok (err e) next h = cc
>>=-eq-ok (ok x) next h = (x, refl, h)

-- A chain that begins with an optional value and returns: the value is there.
pub or_raise-eq-ok {ℓ} :
    {E A B : Type ℓ} (o : Option A) (e : E) (f : A → Result E B) {b : B}
    → (or_raise o e >>= f) ≡ ok b
    → (a : A) × (o ≡ some a) × (f a ≡ ok b)
or_raise-eq-ok (some a) e f h = (a, refl, h)
or_raise-eq-ok none e f h = cc

-- A chain that begins with a guard and returns: the test holds.
pub guard-eq-ok :
    {E B : Type 0} (test : Bool) (e : E) (m : Result E B) {b : B}
    → (guard test e >> m) ≡ ok b
    → (test ≡ true) × (m ≡ ok b)
guard-eq-ok true e m h = (refl, h)
guard-eq-ok false e m h = cc

pub or_raise-some {ℓ} :
    {E A : Type ℓ} (o : Option A) (e : E) {a : A} → or_raise o e ≡ ok a → o ≡ some a
or_raise-some o e h = ground arith

-- A chain that begins with a translated call and returns: the call returns.
pub raise_as-eq-ok :
    {E F A B : Type 0} (f : E → F) (m : Result E A) (k : A → Result F B) {b : B}
    → (raise_as f m >>= k) ≡ ok b
    → (a : A) × (m ≡ ok a) × (k a ≡ ok b)
raise_as-eq-ok f (ok a) k h = (a, refl, h)
raise_as-eq-ok f (err e) k h = cc

pub guard-ok : {E : Type 0} (test : Bool) (e : E) → guard test e ≡ ok tt → test ≡ true
guard-ok test e h = ground arith

pub IsOk-eq-ok {ℓ} : {E A : Type ℓ} (m : Result E A) → IsOk m → (a : A) × (m ≡ ok a)
IsOk-eq-ok (ok a) h = (a, refl)
IsOk-eq-ok (err e) h = absurd h
