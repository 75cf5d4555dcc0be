-- ===== src/Cbuffer/Growth.antt =====
-- The bytes in a character buffer, and when an addition finds room.
use network_c_http.Base.{
  ℕ, ◌+◌, ◌*◌, ◌≤◌, ◌<◌, ◌≡◌, refl, sym, ap, ◌∙◌, List, [], ◌∷◌, ◌++◌, append-nil, arith, length,
  Outcome, ok, abort, fault, ltb, if◌then◌else◌, ◌⊎◌, inl, inr, lt→ltb,
}
use native.Mathlib.Decide.{dec_lt}
use network_c_http.Base.Cells.{
  segment, segment_congr, update, update_self, blit, segment-update_outside,
}
use network_c_http.Base.Memory.{segment-blit_behind}
use network_c_http.Cbuffer.{
  Cbuffer, max_of_two, min_of_two, buffer_strategy_reallocate_size, buffer_strategy_reallocate,
  cbuffer_cstr, make_room, cbuffer_append,
}

pub record IsValid (b : Cbuffer) : Type 0 where
  pub room : b.mem.size ≡ b.capacity
  pub below : b.length < b.capacity
  pub limit : b.capacity ≤ b.strategy.max_size

abbrev pub contents : Cbuffer → List ℕ
contents b = segment b.mem.cell 0 b.length

-- `n` bytes and a terminator fit in the buffer as it is or as it grows.
unfoldable pub Fits : Cbuffer → ℕ → Type 0
Fits b n = (n < b.capacity) ⊎ ((n < b.strategy.max_size) × (n < 2 * b.capacity))

-- A buffer as `realloc` makes it.
abbrev pub grown : (ℕ → ℕ) → Cbuffer → ℕ → Cbuffer
grown uninitialised b n = record b {
  mem = record { size = n; cell = λ i. if ltb i b.mem.size then b.mem.cell i else uninitialised i };
  capacity = n;
}

-- A buffer with bytes added in the room that it has.
abbrev pub filled : Cbuffer → List ℕ → Cbuffer
filled b xs =
    let n = b.length + length xs in
    record b {
      mem = record b.mem { cell = update (blit b.mem.cell b.length xs) n 0 };
      length = n;
      size = n;
    }

pub contents-grown :
    (uninitialised : ℕ → ℕ) (b : Cbuffer) (n : ℕ)
    → IsValid b
    → contents (grown uninitialised b n) ≡ contents b
contents-grown uninitialised b n v =
    segment_congr (grown uninitialised b n).mem.cell b.mem.cell 0 b.length
      λ j low high. ground (arith, v.room, v.below)

pub contents-filled : (b : Cbuffer) (xs : List ℕ) → contents (filled b xs) ≡ contents b ++ xs
contents-filled b xs =
    let n = b.length + length xs in
    segment-update_outside (blit b.mem.cell b.length xs) n 0 0 n (omega arith)
    ∙ ap (λ k. segment (blit b.mem.cell k xs) 0 n) (omega arith)
    ∙ segment-blit_behind b.mem.cell 0 b.length xs

pub min_le :
    (b : Cbuffer)
    → (min_of_two b.strategy.max_size (2 * b.capacity) ≤ b.strategy.max_size)
      × (min_of_two b.strategy.max_size (2 * b.capacity) ≤ 2 * b.capacity)
unfolding min_of_two
min_le b = ground arith

module _ (uninitialised : ℕ → ℕ) where
  pub append-empty :
      (b : Cbuffer) (xs : List ℕ) → length xs ≡ 0 → cbuffer_append uninitialised b xs ≡ ok b
  unfolding cbuffer_append
  append-empty b xs e = ground arith

  pub append-stays :
      (b : Cbuffer) (xs : List ℕ)
      → IsValid b
      → 0 < length xs
      → b.length + length xs < b.capacity
      → cbuffer_append uninitialised b xs ≡ ok (filled b xs)
  unfolding cbuffer_append make_room
  append-stays b xs v p h = ground (arith, v.room)

  append-abort :
      (b : Cbuffer) (xs : List ℕ)
      → IsValid b
      → 0 < length xs
      → b.strategy.max_size < b.length + length xs
      → cbuffer_append uninitialised b xs ≡ abort
  unfolding cbuffer_append make_room buffer_strategy_reallocate_size
  append-abort b xs v p h = ground (arith, v.limit)

  pub append-grows :
      (b : Cbuffer) (xs : List ℕ)
      → IsValid b
      → 0 < length xs
      → b.capacity ≤ b.length + length xs
      → b.length + length xs < min_of_two b.strategy.max_size (2 * b.capacity)
      → cbuffer_append uninitialised b xs
        ≡ ok (filled (grown uninitialised b (min_of_two b.strategy.max_size (2 * b.capacity))) xs)
  unfolding cbuffer_append make_room buffer_strategy_reallocate_size buffer_strategy_reallocate
      max_of_two min_of_two
  append-grows b xs v p h k = ground (arith, v.limit)

  append-overruns :
      (b : Cbuffer) (xs : List ℕ)
      → IsValid b
      → 0 < length xs
      → b.capacity ≤ b.length + length xs
      → b.length + length xs ≤ b.strategy.max_size
      → min_of_two b.strategy.max_size (2 * b.capacity) ≤ b.length + length xs
      → cbuffer_append uninitialised b xs ≡ fault
  unfolding cbuffer_append make_room buffer_strategy_reallocate_size buffer_strategy_reallocate
      max_of_two min_of_two
  append-overruns b xs v p h k l = ground (arith, v.limit)

pub length-nil : (xs : List ℕ) → length xs ≡ 0 → xs ≡ []
length-nil [] e = refl
length-nil (x ∷ xs) e = absurd (omega arith)

-- What adding `xs` may end with.
unfoldable pub Appends : Cbuffer → List ℕ → Outcome Cbuffer → Type 0
Appends b xs (ok b') =
    IsValid b'
    × (contents b' ≡ contents b ++ xs)
    × Fits b (b.length + length xs)
    × ((length xs ≡ 0) ⊎ (cbuffer_cstr b' ≡ ok b'.mem))
    × (b.capacity ≤ b'.capacity)
    × (b'.strategy ≡ b.strategy)
Appends b xs abort = b.strategy.max_size < b.length + length xs
Appends b xs fault =
    (b.capacity ≤ b.length + length xs)
    × (b.length + length xs ≤ b.strategy.max_size)
    × (min_of_two b.strategy.max_size (2 * b.capacity) ≤ b.length + length xs)

-- A buffer that has bytes added in the room that it has ends with a terminator.
filled-cstr :
    (b : Cbuffer) (xs : List ℕ)
    → b.length + length xs < b.mem.size
    → cbuffer_cstr (filled b xs) ≡ ok (filled b xs).mem
unfolding cbuffer_cstr
filled-cstr b xs h =
    let n = b.length + length xs in
    let ends = update_self (blit b.mem.cell b.length xs) n 0 in
    rw (lt→ltb n b.mem.size h, ends) refl

module _ (uninitialised : ℕ → ℕ) where
  -- Adding to a valid buffer appends the bytes and terminates them, if they fit with the terminator
  -- in the buffer as it is or in one of twice the capacity, below the limit. Above the limit it
  -- fails an assertion. Otherwise the buffer grows to just the bytes, and the terminator is written
  -- past its end.
  pub append_lem :
      (b : Cbuffer) (xs : List ℕ) → IsValid b → Appends b xs (cbuffer_append uninitialised b xs)
  unfolding Appends Fits
  append_lem b xs v =
      let n = b.length + length xs in
      let m = min_of_two b.strategy.max_size (2 * b.capacity) in
      elim (dec_lt 0 (length xs)) [
        | no e ↦
            let none : length xs ≡ 0 = omega arith in
            rw (append-empty uninitialised b xs none) (
              v,
              sym (append-nil (contents b)) ∙ ap (λ l. contents b ++ l) (sym (length-nil xs none)),
              inl (omega (arith, v.below)),
              inl none,
              omega arith,
              refl,
            )
        | yes p ↦ elim (dec_lt n b.capacity) [
          | yes q ↦ rw (append-stays uninitialised b xs v p q) (
            record { room = v.room; below = q; limit = v.limit },
            contents-filled b xs,
            inl q,
            inr (filled-cstr b xs (omega (arith, v.room))),
            omega arith,
            refl,
          )
          | no q ↦ elim (dec_lt b.strategy.max_size n) [
            | yes r ↦ rw (append-abort uninitialised b xs v p r) r
            | no r ↦ elim (dec_lt n m) [
              | yes k ↦
                  let g = grown uninitialised b m in
                  let mins = min_le b in
                  rw (append-grows uninitialised b xs v p (omega arith) k) (
                    record { room = refl; below = k; limit = mins.0 },
                    contents-filled g xs ∙ ap (λ l. l ++ xs) (contents-grown uninitialised b m v),
                    inr (omega (arith, mins.0), omega (arith, mins.1)),
                    inr (filled-cstr g xs k),
                    omega arith,
                    refl,
                  )
              | no k ↦
                  rw
                    (append-overruns uninitialised b xs v p (omega arith) (omega arith)
                      (omega arith))
                    (omega arith, omega arith, omega arith)
            ]
          ]
        ]
      ]
