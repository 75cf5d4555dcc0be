-- ===== src/Base/Memory.antt =====
-- Segments of a memory in which one cell is written.
use Prim.Native.Nat.{ℕ, zero, suc, ◌+◌, ◌-◌, ◌≤◌, ◌<◌}
use mathlib.Core.Path.{◌≡◌, ap, ap₂, ◌∙◌}
use mathlib.Core.List.{List, ◌∷◌, ◌++◌}
use native.Mathlib.Omega.{arith}
use network_c_http.Base.Lists.{length, set, drop}
use native.Mathlib.Decide.{dec_lt}
use network_c_http.Base.Cells.{
  update, update_self, update_ne, segment, blit, segment-update_outside, segment-append,
  blit_outside, segment-blit_outside, segment-blit_self,
}

module _ {A : Type 0} where
  pub segment-update_inside :
      (f : ℕ → A) (k : ℕ) (v : A) (i n m : ℕ)
      → i + m ≡ k
      → m < n
      → segment (update f k v) i n ≡ set (segment f i n) m v
  unfolding segment
  segment-update_inside f k v i zero m e h = absurd (omega arith)
  segment-update_inside f k v i (suc n) zero e h =
      let at : i ≡ k = omega arith in
      ap₂ ◌∷◌ (ap (update f k v) at ∙ update_self f k v)
        (segment-update_outside f k v (i + 1) n (omega arith))
  segment-update_inside f k v i (suc n) (suc m) e h =
      ap₂ ◌∷◌ (update_ne f k i v (omega arith))
        (segment-update_inside f k v (i + 1) n m (omega arith) (omega arith))

  -- A segment without its first `k` cells.
  pub drop-segment :
      (f : ℕ → A) (i n k : ℕ) → k ≤ n → drop k (segment f i n) ≡ segment f (i + k) (n - k)
  unfolding segment
  drop-segment f i n zero h = ap₂ (segment f) (omega arith) (omega arith)
  drop-segment f i zero (suc k) h = absurd (omega arith)
  drop-segment f i (suc n) (suc k) h =
      drop-segment f (i + 1) n k (omega arith) ∙ ap₂ (segment f) (omega arith) (omega arith)

  -- What `memcpy` behind a segment makes of it.
  pub segment-blit_behind :
      (f : ℕ → A) (i n : ℕ) (xs : List A)
      → segment (blit f (i + n) xs) i (n + length xs) ≡ segment f i n ++ xs
  segment-blit_behind f i n xs =
      segment-append (blit f (i + n) xs) i n (length xs)
      ∙ ap₂ ◌++◌ (segment-blit_outside f (i + n) xs i n (omega arith))
          (segment-blit_self f (i + n) xs)

  -- A segment copied to its own place in another memory.
  pub blit-segment :
      (g f : ℕ → A) (i n j : ℕ) → i ≤ j → j < i + n → blit g i (segment f i n) j ≡ f j
  unfolding blit segment
  blit-segment g f i zero j h k = absurd (omega arith)
  blit-segment g f i (suc n) j h k =
      let g1 = update g i (f i) in
      elim (dec_lt i j) [
        | yes p ↦ blit-segment g1 f (i + 1) n j (omega arith) (omega arith)
        | no p ↦
            let here : j ≡ i = omega arith in
            rw here (
              blit_outside g1 (i + 1) (segment f (i + 1) n) i (omega arith) ∙ update_self g i (f i))
      ]
