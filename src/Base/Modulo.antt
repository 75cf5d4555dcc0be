-- ===== src/Base/Modulo.antt =====
-- A remainder of a number below twice the divisor: for indices that go round once at most.
use Prim.Native.Nat.{ℕ, ◌+◌, ◌-◌, ◌%◌, ◌≤◌, ◌<◌}
use mathlib.Core.Path.{◌≡◌}
use mathlib.Core.Logic.{◌⊎◌, inl, inr}
use native.Mathlib.Omega.{arith}
use native.Mathlib.Decide.{dec_lt}
use native.Mathlib.Nat.{mod-eq_of_lt, mod-eq-sub-mod}

pub mod_cases : (m c : ℕ) → m < c + c → ((m < c) × (m % c ≡ m)) ⊎ ((c ≤ m) × (m % c + c ≡ m))
mod_cases m c h = elim (dec_lt m c) [
  | yes p ↦ inl (p, mod-eq_of_lt p)
  | no p ↦ inr (
    omega arith,
    omega (
      arith,
      mod-eq-sub-mod {n = m} {m = c} (omega arith),
      mod-eq_of_lt {n = m - c} {m = c} (omega arith),
    ),
  )
]
