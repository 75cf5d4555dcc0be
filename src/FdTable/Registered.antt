-- ===== src/FdTable/Registered.antt =====
-- The descriptors in use, and the scan that both iterators make.
use network_c_http.Base.{
  ℕ, zero, suc, ◌+◌, ◌≤◌, ◌<◌, ◌≡◌, refl, true, false, Option, none, some, List, [], ◌∷◌, ok, arith,
  length, if◌then◌else◌, is_some, ◌⊎◌, inl, inr, Bool-cases,
}
use native.Mathlib.Decide.{dec_lt}
use network_c_http.Base.Cells.{Block, update, update_ne, update_self}
use network_c_http.FdTable.{fdtable_scan}

module _ {W : Type 0} where
  -- The used indices among the `n` from `i` on, in ascending order.
  unfoldable pub registered : (ℕ → Option W) → ℕ → ℕ → List ℕ
  registered f i zero = []
  registered f i (suc n) =
      if is_some (f i) then i ∷ registered f (i + 1) n else registered f (i + 1) n

  pub length-registered : (f : ℕ → Option W) (i n : ℕ) → length (registered f i n) ≤ n
  unfolding registered
  length-registered f i zero = omega arith
  length-registered f i (suc n) = ground (arith, length-registered f (i + 1) n)

  registered-update_outside :
      (f : ℕ → Option W) (k : ℕ) (v : Option W) (i n : ℕ)
      → k < i
      → registered (update f k v) i n ≡ registered f i n
  unfolding registered
  registered-update_outside f k v i zero h = refl
  registered-update_outside f k v i (suc n) h =
      rw (update_ne f k i v (omega arith), registered-update_outside f k v (i + 1) n (omega arith))

  -- Taking a free place makes one more registered descriptor.
  pub registered-insert :
      (f : ℕ → Option W) (k : ℕ) (w : W) (i n : ℕ)
      → i ≤ k
      → k < i + n
      → f k ≡ none
      → length (registered (update f k (some w)) i n) ≡ length (registered f i n) + 1
  unfolding registered
  registered-insert f k w i zero a b e = absurd (omega arith)
  registered-insert f k w i (suc n) a b e = elim (dec_lt i k) [
    | yes p ↦
        rw (update_ne f k i (some w) (omega arith))
          (ground (arith, registered-insert f k w (i + 1) n))
    | no p ↦
        let same : i ≡ k = omega arith in
        rw
          (
            same,
            update_self f k (some w),
            e,
            registered-update_outside f k (some w) (k + 1) n (omega arith),
          )
          (omega arith)
  ]

  -- Giving up a place makes one less.
  pub registered-remove :
      (f : ℕ → Option W) (k i n : ℕ)
      → i ≤ k
      → k < i + n
      → is_some (f k) ≡ true
      → length (registered (update f k none) i n) + 1 ≡ length (registered f i n)
  unfolding registered
  registered-remove f k i zero a b e = absurd (omega arith)
  registered-remove f k i (suc n) a b e = elim (dec_lt i k) [
    | yes p ↦
        rw (update_ne f k i none (omega arith)) (ground (arith, registered-remove f k (i + 1) n))
    | no p ↦
        let same : i ≡ k = omega arith in
        rw
          (
            same,
            update_self f k none,
            e,
            registered-update_outside f k none (k + 1) n (omega arith),
          )
          (omega arith)
  ]

  -- What a scan of the `n` places from `i` on finds.
  pub record Found (b : Block (Option W)) (i n d m : ℕ) : Type 0 where
    pub scan : fdtable_scan n i b ≡ ok (some d)
    pub end : d + 1 + m ≡ i + n
    pub start : i ≤ d
    pub used : is_some (b.cell d) ≡ true
    pub list : registered b.cell i n ≡ d ∷ registered b.cell (d + 1) m

  pub record Nothing (b : Block (Option W)) (i n : ℕ) : Type 0 where
    pub scan : fdtable_scan n i b ≡ ok none
    pub list : registered b.cell i n ≡ []
    pub free : (j : ℕ) → i ≤ j → j < i + n → is_some (b.cell j) ≡ false

  pub scan_cases :
      (b : Block (Option W)) (i n : ℕ)
      → i + n ≤ b.size
      → Nothing b i n ⊎ ((d : ℕ) × (m : ℕ) × Found b i n d m)
  unfolding registered fdtable_scan
  scan_cases b i zero h =
      inl (record { scan = refl; list = refl; free = λ j p q. absurd (omega arith) })
  scan_cases b i (suc n) h = elim (Bool-cases (is_some (b.cell i))) [
    | inl e ↦ inr (
      i,
      n,
      record { scan = ground arith; end = omega arith; start = omega arith; used = e; list = rw e },
    )
    | inr e ↦ elim (scan_cases b (i + 1) n (omega arith)) [
      | inl no_more ↦ inl (record {
        scan = ground (arith, no_more.scan);
        list = ground (arith, no_more.list);
        free = λ j p q. ground (arith, no_more.free j);
      })
      | inr (d, m, f) ↦ inr (
        d,
        m,
        record {
          scan = ground (arith, f.scan);
          end = omega (arith, f.end);
          start = omega (arith, f.start);
          used = f.used;
          list = rw e f.list;
        },
      )
    ]
  ]

  -- A range with no used place has no registered descriptor.
  pub registered_none :
      (f : ℕ → Option W) (i n : ℕ)
      → ((j : ℕ) → i ≤ j → j < i + n → is_some (f j) ≡ false)
      → registered f i n ≡ []
  unfolding registered
  registered_none f i zero h = refl
  registered_none f i (suc n) h =
      rw (h i (omega arith) (omega arith))
        (registered_none f (i + 1) n λ j a b. h j (omega arith) (omega arith))
