-- ===== src/Base/Window.antt =====
-- A ring: cells of a block read round from an index.
use Prim.Native.Nat.{ℕ, zero, suc, ◌+◌, ◌-◌, ◌%◌, ◌<◌}
use mathlib.Core.Path.{◌≡◌, refl, ap, ap₂, ◌∙◌}
use mathlib.Core.Logic.{◌≢◌}
use mathlib.Core.List.{List, [], ◌∷◌, ◌++◌}
use native.Mathlib.Omega.{arith}
use native.Mathlib.Nat.{mod-add-mod}
use network_c_http.Base.Lists.{length}
use network_c_http.Base.Modulo.{mod_cases}
use network_c_http.Base.Cells.{update, update_self, update_ne}

-- `k` steps on from `h`, round a ring of `cap` places
abbrev place : ℕ → ℕ → ℕ → ℕ
place cap h k = (h + k) % cap

-- Two places less than a round apart differ.
place-ne : (cap h j k : ℕ) → h < cap → j < k → k < cap → place cap h j ≢ place cap h k
place-ne cap h j k a b c =
    let first = mod_cases (h + j) cap (omega arith) in
    let second = mod_cases (h + k) cap (omega arith) in λ e. omega arith

module _ {ℓ} {A : Type ℓ} (cap : ℕ) (f : ℕ → A) (h : ℕ) where
  -- the cells of the `n` places from the `k`-th on
  abbrev pub places : ℕ → ℕ → List A
  places k zero = []
  places k (suc n) = f (place cap h k) ∷ places (k + 1) n

  abbrev pub window : ℕ → List A
  window n = places 0 n

  length-places : (k n : ℕ) → length (places k n) ≡ n
  length-places k zero = refl
  length-places k (suc n) = ap suc (length-places (k + 1) n)

  pub length-window : (n : ℕ) → length (window n) ≡ n
  length-window n = length-places 0 n

module _ {ℓ} {A : Type ℓ} (cap : ℕ) (f : ℕ → A) (h : ℕ) where
  -- A ring read from the next place on has the same cells, one step earlier.
  places-next : (k n : ℕ) → places cap f h (k + 1) n ≡ places cap f ((h + 1) % cap) k n
  places-next k zero = refl
  places-next k (suc n) = ap₂ ◌∷◌ (ap f shift) (places-next (k + 1) n)
    where
      regroup : h + (k + 1) ≡ h + 1 + k
      regroup = omega arith

      shift : place cap h (k + 1) ≡ place cap ((h + 1) % cap) k
      shift = ap (λ m. m % cap) regroup ∙ rw mod-add-mod

  -- A window that is not empty is its first cell and the window from the next place on.
  pub window_of_pos :
      (n : ℕ) → h < cap → 0 < n → window cap f h n ≡ f h ∷ window cap f ((h + 1) % cap) (n - 1)
  window_of_pos zero a p = absurd (omega arith)
  window_of_pos (suc n) a p =
      let start : place cap h 0 ≡ h = omega (arith, mod_cases (h + 0) cap (omega arith)) in
      let less : n ≡ suc n - 1 = omega arith in
      ap₂ ◌∷◌ (ap f start) (places-next 0 n ∙ ap (window cap f ((h + 1) % cap)) less)

  -- Writing just past a window extends it by that cell.
  places-update :
      (x : A) (n k m : ℕ)
      → h < cap
      → m < cap
      → k + n ≡ m
      → places cap (update f (place cap h m) x) h k (suc n) ≡ places cap f h k n ++ (x ∷ [])
  places-update x zero k m a b e =
      let at : place cap h k ≡ place cap h m = ap (place cap h) (omega arith) in
      ap (λ y. y ∷ []) (ap (update f (place cap h m) x) at ∙ update_self f (place cap h m) x)
  places-update x (suc n) k m a b e =
      ap₂ ◌∷◌ (update_ne f (place cap h m) (place cap h k) x (place-ne cap h k m a (omega arith) b))
        (places-update x n (k + 1) m a b (omega arith))

  pub window-update :
      (x : A) (n i : ℕ)
      → h < cap
      → n < cap
      → i ≡ (h + n) % cap
      → window cap (update f i x) h (suc n) ≡ window cap f h n ++ (x ∷ [])
  window-update x n i a b e =
      ap (λ j. window cap (update f j x) h (suc n)) e ∙ places-update x n 0 n a b (omega arith)
