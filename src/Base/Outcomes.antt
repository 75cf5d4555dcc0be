-- ===== src/Base/Outcomes.antt =====
-- How a call ends: with a value, in a failed assertion, or in undefined behaviour.
use Prim.Native.Nat.{ℕ, ◌+◌, ◌^◌, ◌<◌}
use mathlib.Core.Path.{◌≡◌, refl, sym, ap, ◌∙◌}
use mathlib.Core.Bool.{Bool, true, false}
use native.Mathlib.Omega.{arith}
use network_c_http.Base.Tests.{ltb, if◌then◌else◌}

-- `abort` is a failed `assert` or `RBL_ASSERT`, which ends the process. `fault` is an access
-- outside an allocation, a division by zero, a signed overflow, or a character function called with a
-- negative character.
pub data Outcome {ℓ} (A : Type ℓ) : Type ℓ where
  ok : A → Outcome A
  abort : Outcome A
  fault : Outcome A

infixl 5 ◌>>=◌ ◌>>◌
abbrev pub ◌>>=◌ {ℓ κ} : {A : Type ℓ} {B : Type κ} → Outcome A → (A → Outcome B) → Outcome B
ok a >>= f = f a
abort >>= f = abort
fault >>= f = fault

abbrev pub ◌>>◌ {ℓ} : {B : Type ℓ} → Outcome (Unit {0}) → Outcome B → Outcome B
m >> k = m >>= λ _. k

abbrev pub assert : Bool → Outcome (Unit {0})
assert true = ok tt
assert false = abort

-- A call has one result.
pub same_ok {ℓ} : {A : Type ℓ} {r : Outcome A} {a b : A} → r ≡ ok a → r ≡ ok b → a ≡ b
same_ok {A} {r} {a} {b} p q = ok-injective (sym p ∙ q)
  where
    ok-injective : {x y : A} → ok x ≡ ok y → x ≡ y
    ok-injective e = cc

-- Two calls that agree, with continuations that agree.
pub bind_cong {ℓ κ} :
    {A : Type ℓ} {B : Type κ} {r r' : Outcome A} {f g : A → Outcome B}
    → r ≡ r'
    → ((a : A) → f a ≡ g a)
    → (r >>= f) ≡ (r' >>= g)
bind_cong {r} {r'} {f} {g} e h = ap (λ o. o >>= f) e ∙ same r'
  where
    same : (o : Outcome _) → (o >>= f) ≡ (o >>= g)
    same (ok a) = h a
    same abort = refl
    same fault = refl

-- What a call that returns has called before.
pub bind_ok {ℓ κ} :
    {A : Type ℓ} {B : Type κ} (r : Outcome A) (f : A → Outcome B) (b : B)
    → (r >>= f) ≡ ok b
    → (a : A) × (r ≡ ok a) × (f a ≡ ok b)
bind_ok (ok a) f b e = (a, refl, e)
bind_ok abort f b e = absurd cc
bind_ok fault f b e = absurd cc

-- The sum of two `int`s, none of them negative. Signed overflow is undefined behaviour.
abbrev pub int_sum : ℕ → ℕ → Outcome ℕ
int_sum a b = if ltb (a + b) (2 ^ 31) then ok (a + b) else fault

-- The `int` that a `size_t` is stored in. One that is too large becomes negative or is cut off, and
-- what is then read with it is not modelled.
abbrev pub to_int : ℕ → Outcome ℕ
to_int n = if ltb n (2 ^ 31) then ok n else fault

pub int_sum_fits : (a b : ℕ) → a + b < 2 ^ 31 → int_sum a b ≡ ok (a + b)
int_sum_fits a b h = ground (arith, h)

pub to_int_fits : (n : ℕ) → n < 2 ^ 31 → to_int n ≡ ok n
to_int_fits n h = ground (arith, h)
