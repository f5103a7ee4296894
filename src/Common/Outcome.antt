-- ===== src/Common/Outcome.antt =====
-- How a C function of the repository ends: with its result, with a negative return code, or in
-- `ASSERT_MSG` (src/nbs-common/nbs_assert.h), which prints and aborts the process.
use Prim.Native.Nat.{ℕ}
use mathlib.Core.Bool.{Bool, true, false}
use mathlib.Core.Path.{◌≡◌, refl}

-- `fail k` is the return value -k.
pub data Outcome {ℓ} (A : Type ℓ) : Type ℓ where
  ok : A → Outcome A
  fail : ℕ → Outcome A
  abort : Outcome A

infixl 5 ◌>>=◌ ◌>>◌
abbrev pub ◌>>=◌ {ℓ κ} : {A : Type ℓ} {B : Type κ} → Outcome A → (A → Outcome B) → Outcome B
ok a >>= f = f a
fail k >>= f = fail k
abort >>= f = abort

abbrev pub ◌>>◌ {ℓ} : {B : Type ℓ} → Outcome (Unit {0}) → Outcome B → Outcome B
m >> k = m >>= λ _. k

-- `ASSERT_MSG(b, ...)`.
abbrev pub assert : Bool → Outcome (Unit {0})
assert true = ok tt
assert false = abort

-- `if (!b) return -k;`
abbrev pub require : Bool → ℕ → Outcome (Unit {0})
require true k = ok tt
require false k = fail k

-- What a sequence that returns has gone through.
pub bind-eq-ok {ℓ κ} :
    {A : Type ℓ} {B : Type κ} {y : B} (first : Outcome A) (rest : A → Outcome B)
    → (first >>= rest) ≡ ok y
    → (x : A) × (first ≡ ok x) × (rest x ≡ ok y)
bind-eq-ok abort rest returned = cc
bind-eq-ok (fail code) rest returned = cc
bind-eq-ok (ok x) rest returned = (x, refl, returned)

pub ok_inj {ℓ} : {A : Type ℓ} {x y : A} → ok x ≡ ok y → x ≡ y
ok_inj same = cc

-- A sequence that returns has passed its tests.
pub assert-eq-ok {ℓ} :
    {B : Type ℓ} {y : B} (b : Bool) (rest : Outcome B)
    → (assert b >> rest) ≡ ok y
    → (b ≡ true) × (rest ≡ ok y)
assert-eq-ok true rest returned = (refl, returned)
assert-eq-ok false rest returned = cc
