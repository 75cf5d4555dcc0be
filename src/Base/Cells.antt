-- ===== src/Base/Cells.antt =====
-- C memory: a block of `size` cells. The contents of a fresh block are arbitrary, so the function
-- that makes one takes them as an argument.
use Prim.Native.Nat.{ℕ, zero, suc, ◌+◌, ◌≤◌, ◌<◌}
use mathlib.Core.Path.{◌≡◌, refl, ap, ap₂, ◌∙◌}
use mathlib.Core.Logic.{◌⊎◌, ◌≢◌}
use mathlib.Core.List.{List, [], ◌∷◌, ◌++◌}
use native.Mathlib.Omega.{arith}
use network_c_http.Base.Tests.{ltb, leb, ◌==◌, if◌then◌else◌}
use network_c_http.Base.Lists.{length}
use network_c_http.Base.Outcomes.{Outcome, ok, fault}

module _ {ℓ} {A : Type ℓ} where
  unfoldable pub update : (ℕ → A) → ℕ → A → ℕ → A
  update f i v j = if j == i then v else f j

  -- `memcpy` to index `i`
  unfoldable pub blit : (ℕ → A) → ℕ → List A → ℕ → A
  blit f i [] = f
  blit f i (x ∷ xs) = blit (update f i x) (i + 1) xs

  -- the `n` cells from index `i` on
  unfoldable pub segment : (ℕ → A) → ℕ → ℕ → List A
  segment f i zero = []
  segment f i (suc n) = f i ∷ segment f (i + 1) n

  pub update_self : (f : ℕ → A) (i : ℕ) (v : A) → update f i v i ≡ v
  unfolding update
  update_self f i v = ground arith

  pub update_ne : (f : ℕ → A) (i j : ℕ) (v : A) → j ≢ i → update f i v j ≡ f j
  unfolding update
  update_ne f i j v h = ground arith

  pub length-segment : (f : ℕ → A) (i n : ℕ) → length (segment f i n) ≡ n
  unfolding segment
  length-segment f i zero = refl
  length-segment f i (suc n) = ap suc (length-segment f (i + 1) n)

  pub update_if : (f : ℕ → A) (i : ℕ) (v : A) (j : ℕ) → update f i v j ≡ (if j == i then v else f j)
  unfolding update
  update_if f i v j = refl

  -- Two memories that agree on a range have the same segment there.
  pub segment_congr :
      (f g : ℕ → A) (i n : ℕ)
      → ((j : ℕ) → i ≤ j → j < i + n → f j ≡ g j)
      → segment f i n ≡ segment g i n
  unfolding segment
  segment_congr f g i zero h = refl
  segment_congr f g i (suc n) h =
      ap₂ ◌∷◌ (h i (omega arith) (omega arith))
        (segment_congr f g (i + 1) n λ j a b. h j (omega arith) (omega arith))

  pub segment-append :
      (f : ℕ → A) (i m n : ℕ) → segment f i (m + n) ≡ segment f i m ++ segment f (i + m) n
  unfolding segment
  segment-append f i zero n = ap₂ (segment f) (omega arith) (omega arith)
  segment-append f i (suc m) n =
      let e : suc m + n ≡ suc (m + n) = omega arith in
      let shift : i + 1 + m ≡ i + suc m = omega arith in
      ap (segment f i) e
      ∙ ap (λ r. f i ∷ r)
          (segment-append f (i + 1) m n ∙ ap (λ k. segment f (i + 1) m ++ segment f k n) shift)

  pub segment-update_outside :
      (f : ℕ → A) (k : ℕ) (v : A) (i n : ℕ)
      → (k < i) ⊎ (i + n ≤ k)
      → segment (update f k v) i n ≡ segment f i n
  segment-update_outside f k v i n h =
      segment_congr (update f k v) f i n λ j a b. update_ne f k j v (omega arith)

  pub blit_outside :
      (f : ℕ → A) (i : ℕ) (xs : List A) (j : ℕ)
      → (j < i) ⊎ (i + length xs ≤ j)
      → blit f i xs j ≡ f j
  unfolding blit
  blit_outside f i [] j h = refl
  blit_outside f i (x ∷ xs) j h =
      blit_outside (update f i x) (i + 1) xs j (omega arith) ∙ update_ne f i j x (omega arith)

  pub segment-blit_outside :
      (f : ℕ → A) (k : ℕ) (xs : List A) (i n : ℕ)
      → (i + n ≤ k) ⊎ (k + length xs ≤ i)
      → segment (blit f k xs) i n ≡ segment f i n
  segment-blit_outside f k xs i n h =
      segment_congr (blit f k xs) f i n λ j a b. blit_outside f k xs j (omega arith)

  pub segment-blit_self :
      (f : ℕ → A) (i : ℕ) (xs : List A) → segment (blit f i xs) i (length xs) ≡ xs
  unfolding segment blit
  segment-blit_self f i [] = refl
  segment-blit_self f i (x ∷ xs) =
      ap₂ ◌∷◌ (blit_outside (update f i x) (i + 1) xs i (omega arith) ∙ update_self f i x)
        (segment-blit_self (update f i x) (i + 1) xs)

-- An allocation of `size` cells.
pub record Block {ℓ} (A : Type ℓ) : Type ℓ where
  pub size : ℕ
  pub cell : ℕ → A

module _ {ℓ} {A : Type ℓ} where
  abbrev pub load : Block A → ℕ → Outcome A
  load b i = if ltb i b.size then ok (b.cell i) else fault

  abbrev pub store : Block A → ℕ → A → Outcome (Block A)
  store b i v = if ltb i b.size then ok (record b { cell = update b.cell i v }) else fault

  -- `memcpy` into the block.
  abbrev pub copy_in : Block A → ℕ → List A → Outcome (Block A)
  copy_in b i xs =
      if leb (i + length xs) b.size then ok (record b { cell = blit b.cell i xs }) else fault

  -- The bytes that a `memcpy` out of the block reads.
  abbrev pub copy_out : Block A → ℕ → ℕ → Outcome (List A)
  copy_out b i n = if leb (i + n) b.size then ok (segment b.cell i n) else fault
