-- ===== src/Base/Heap.antt =====
-- Objects at addresses. The address that `malloc` gives is the choice of an allocator, of which it
-- is only known that the address is not in use and is not NULL.
use Prim.Native.Nat.{ℕ, ◌+◌, ◌≤◌, ◌<◌}
use mathlib.Core.Path.{◌≡◌, refl}
use mathlib.Core.Logic.{◌≢◌}
use mathlib.Core.Option.{Option, none, some}
use mathlib.Core.List.{List, [], ◌∷◌}
use native.Mathlib.Omega.{arith}
use network_c_http.Base.Tests.{◌==◌, if◌then◌else◌, leb}
use network_c_http.Base.Outcomes.{Outcome, ok, fault, ◌>>=◌}

abbrev pub null : ℕ
null = 0

-- The objects in use, each behind its address; a later write stands before an earlier one.
abbrev pub Heap : Type 0 → Type 0
Heap A = List (ℕ × A)

module _ {A : Type 0} where
  unfoldable pub at : Heap A → ℕ → Option A
  at [] p = none
  at ((q, a) ∷ h) p = if p == q then some a else at h p

  unfoldable pub write : Heap A → ℕ → A → Heap A
  write h p a = (p, a) ∷ h

  unfoldable pub erase : Heap A → ℕ → Heap A
  erase [] p = []
  erase ((q, a) ∷ h) p = if p == q then erase h p else (q, a) ∷ erase h p

  pub at-write :
      (h : Heap A) (p : ℕ) (a : A) (q : ℕ)
      → at (write h p a) q ≡ (if q == p then some a else at h q)
  unfolding at write
  at-write h p a q = refl

  pub at-erase : (h : Heap A) (p q : ℕ) → at (erase h p) q ≡ (if q == p then none else at h q)
  unfolding at erase
  at-erase [] p q = ground arith
  at-erase ((r, a) ∷ h) p q = ground (arith, at-erase h p q)

  -- `*p`
  unfoldable pub deref : Heap A → ℕ → Outcome A
  deref h p = if p == null then fault else elim (at h p) [ none ↦ fault | some a ↦ ok a ]

  -- `*p = a`
  unfoldable pub assign : Heap A → ℕ → A → Outcome (Heap A)
  unfolding deref
  assign h p a = do _ ← deref h p; ok (write h p a)

  -- `free(p)`; of NULL it does nothing.
  unfoldable pub free : Heap A → ℕ → Outcome (Heap A)
  unfolding deref
  free h p = if p == null then ok h else do _ ← deref h p; ok (erase h p)

  pub deref-ok : (h : Heap A) (p : ℕ) (a : A) → p ≢ null → at h p ≡ some a → deref h p ≡ ok a
  unfolding deref
  deref-ok h p a ne e = ground arith

  pub assign-ok :
      (h : Heap A) (p : ℕ) (a b : A) → p ≢ null → at h p ≡ some a → assign h p b ≡ ok (write h p b)
  unfolding assign
  assign-ok h p a b ne e = ground (arith, deref-ok h p a)

  pub free-ok :
      (h : Heap A) (p : ℕ) (a : A) → p ≢ null → at h p ≡ some a → free h p ≡ ok (erase h p)
  unfolding free
  free-ok h p a ne e = ground (arith, deref-ok h p a)

pub record Allocator (A : Type 0) : Type 0 where
  pub malloc : Heap A → ℕ
  pub fresh : (h : Heap A) → at h (malloc h) ≡ none
  pub not_null : (h : Heap A) → malloc h ≢ null

-- An allocator that takes the address behind the highest one in use.
module _ {A : Type 0} where
  abbrev pub above : Heap A → ℕ
  above [] = 1
  above ((p, a) ∷ h) = if leb (above h) p then p + 1 else above h

  pub above_pos : (h : Heap A) → 0 < above h
  above_pos [] = omega arith
  above_pos ((p, a) ∷ h) = ground (arith, above_pos h)

  pub at-above : (h : Heap A) (q : ℕ) → above h ≤ q → at h q ≡ none
  unfolding at
  at-above [] q le = refl
  at-above ((p, a) ∷ h) q le = ground (arith, at-above h q)

  abbrev pub bump_allocator : Allocator A
  bump_allocator = record {
    malloc = above;
    fresh = λ h. at-above h (above h) (omega arith);
    not_null = λ h e. absurd (omega (arith, above_pos h, e));
  }
