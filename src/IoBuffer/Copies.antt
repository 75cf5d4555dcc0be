-- ===== src/IoBuffer/Copies.antt =====
-- The functions that make an IO buffer out of another or out of bytes.
use network_c_http.Base.{
  ℕ, ◌<◌, ◌+◌, ◌≤◌, ◌≡◌, refl, sym, true, arith, length, Outcome, ok, abort, fault, leb, inl,
}
use native.Mathlib.Decide.{dec_lt}
use network_c_http.Base.Cells.{segment, segment_congr, blit, length-segment}
use network_c_http.IoBuffer.{
  IoBuffer, iobuffer_init, iobuffer_new_with_capacity, iobuffer_dup, iobuffer_consolidate_space,
}
use network_c_http.Base.Memory.{blit-segment}
use network_c_http.IoBuffer.Contents.{IsValid, contents, contents-added}
use network_c_http.IoBuffer.Updates.{data-contents, data_add-fits, data_add-refused, added-IsValid}

-- What a copy of `b` may end with: the same bytes, in a buffer that is valid.
pub Keeps : IoBuffer → Outcome IoBuffer → Type 0
Keeps b (ok b') = IsValid b' × (contents b' ≡ contents b) × (b'.buffer_capacity ≡ b.buffer_capacity)
Keeps b abort = ⊥
Keeps b fault = ⊥

-- What consolidation may end with: the same bytes at the start of the memory.
pub Consolidates : IoBuffer → Outcome IoBuffer → Type 0
Consolidates b (ok b') =
    IsValid b' × (contents b' ≡ contents b) × (b'.buffer_ptr ≡ 0) × (0 < b.buffer_remaining)
Consolidates b abort = b.buffer_remaining ≡ 0
Consolidates b fault = ⊥

module _ (uninitialised : ℕ → ℕ) where
  fresh-IsValid : (capacity : ℕ) → IsValid (iobuffer_new_with_capacity uninitialised capacity)
  unfolding iobuffer_new_with_capacity iobuffer_init
  fresh-IsValid capacity = record { room = refl; spare = refl; fits = omega arith }

  -- The copy of a valid buffer always succeeds, and is valid, with the same bytes and capacity.
  pub dup_lem : (b : IoBuffer) → IsValid b → Keeps b (iobuffer_dup uninitialised b)
  unfolding iobuffer_dup iobuffer_new_with_capacity iobuffer_init Keeps
  dup_lem b v =
      let room = v.room in
      let spare = v.spare in
      let fits = v.fits in
      let size = length-segment b.mem.cell 0 b.allocated_capacity in
      let reads : leb (0 + b.allocated_capacity) b.mem.size ≡ true = ground arith in
      let writes : leb (0 + b.allocated_capacity) (b.buffer_capacity + 1) ≡ true = ground arith in
      rw (reads, size, writes)
        (
          record { room = sym spare; spare = spare; fits = fits },
          segment_congr (blit uninitialised 0 (segment b.mem.cell 0 b.allocated_capacity))
              b.mem.cell b.buffer_ptr b.buffer_remaining
              λ j low high.
                blit-segment uninitialised b.mem.cell 0 b.allocated_capacity j (omega arith)
                  (omega arith),
          refl,
        )

  -- Consolidation of a valid buffer fails the assertion of `IOBuffer_commit` exactly if the buffer is
  -- empty; otherwise it keeps the bytes and moves them to the start of the memory.
  pub consolidate_lem :
      (b : IoBuffer) → IsValid b → Consolidates b (iobuffer_consolidate_space uninitialised b)
  unfolding iobuffer_consolidate_space iobuffer_new_with_capacity iobuffer_init Consolidates segment
  consolidate_lem b v =
      let fresh = iobuffer_new_with_capacity uninitialised b.buffer_capacity in
      let good = fresh-IsValid b.buffer_capacity in
      let xs = contents b in
      let len = length-segment b.mem.cell b.buffer_ptr b.buffer_remaining in
      let fits : 0 + length xs ≤ b.buffer_capacity = omega (arith, len, v.fits) in
      rw (data-contents b v) (elim (dec_lt 0 b.buffer_remaining) [
        | yes p ↦ rw (data_add-fits fresh xs good (omega (arith, len)) fits) (
          let valid = added-IsValid fresh xs good fits in
              record { room = valid.room; spare = valid.spare; fits = valid.fits },
          contents-added fresh xs,
          refl,
          p,
        )
        | no p ↦ rw (data_add-refused fresh xs good (inl (omega (arith, len)))) (omega arith)
      ])
