-- ===== src/IoBuffer/Updates.antt =====
-- Adding to an IO buffer and consuming from it.
use network_c_http.Base.{
  ℕ, ◌+◌, ◌-◌, ◌≤◌, ◌<◌, ◌≡◌, refl, false, List, arith, drop, length, Outcome, ok, abort, fault,
  if◌then◌else◌, ◌⊎◌, inl, inr, ◌==◌,
}
use native.Mathlib.Decide.{dec_lt, dec_le}
use network_c_http.Base.Cells.{segment, length-segment}
use network_c_http.IoBuffer.{
  IoBuffer, iobuffer_space, iobuffer_commit, iobuffer_data, iobuffer_data_add, iobuffer_consume,
}
use network_c_http.Base.Memory.{drop-segment}
use network_c_http.IoBuffer.Contents.{IsValid, contents, appended, added, contents-added}

pub data-contents : (b : IoBuffer) → IsValid b → iobuffer_data b ≡ ok (contents b)
unfolding iobuffer_data
data-contents b v = ground (arith, v.room, v.spare, v.fits)

-- What an addition of `xs` may end with.
pub Adds : IoBuffer → List ℕ → Outcome IoBuffer → Type 0
Adds b xs (ok b') =
    IsValid b'
    × (contents b' ≡ appended b.buffer_ptr (contents b) xs)
    × (b'.buffer_ptr ≡ b.buffer_ptr)
    × (0 < length xs)
    × (b.buffer_ptr + b.buffer_remaining + length xs ≤ b.buffer_capacity)
Adds b xs abort =
    (length xs ≡ 0) ⊎ (b.buffer_capacity < b.buffer_ptr + b.buffer_remaining + length xs)
Adds b xs fault = ⊥

-- An addition that fits and is not empty.
pub data_add-fits :
    (b : IoBuffer) (xs : List ℕ)
    → IsValid b
    → 0 < length xs
    → b.buffer_ptr + b.buffer_remaining + length xs ≤ b.buffer_capacity
    → iobuffer_data_add b xs ≡ ok (added b xs)
unfolding iobuffer_data_add iobuffer_commit iobuffer_space
data_add-fits b xs v some_bytes fits = ground (arith, v.room, v.spare)

pub data_add-refused :
    (b : IoBuffer) (xs : List ℕ)
    → IsValid b
    → (length xs ≡ 0) ⊎ (b.buffer_capacity < b.buffer_ptr + b.buffer_remaining + length xs)
    → iobuffer_data_add b xs ≡ abort
unfolding iobuffer_data_add iobuffer_commit iobuffer_space
data_add-refused b xs v refused = ground (arith, v.room, v.spare)

pub added-IsValid :
    (b : IoBuffer) (xs : List ℕ)
    → IsValid b
    → b.buffer_ptr + b.buffer_remaining + length xs ≤ b.buffer_capacity
    → IsValid (added b xs)
added-IsValid b xs v fits = record { room = v.room; spare = v.spare; fits = omega arith }

-- Adding to a valid buffer fails an assertion exactly if there is nothing to add or it does not fit,
-- and otherwise appends the bytes, with one of them overwritten by the terminator if the buffer's data
-- begins behind the start of its memory by no more than the new length. It writes nowhere outside the
-- memory.
pub data_add_lem : (b : IoBuffer) (xs : List ℕ) → IsValid b → Adds b xs (iobuffer_data_add b xs)
unfolding Adds
data_add_lem b xs v = elim (dec_lt 0 (length xs)) [
  | yes p ↦ elim (dec_le (b.buffer_ptr + b.buffer_remaining + length xs) b.buffer_capacity) [
    | yes q ↦
        rw (data_add-fits b xs v p q) (added-IsValid b xs v q, contents-added b xs, refl, p, q)
    | no q ↦ rw (data_add-refused b xs v (inr (omega arith))) (inr (omega arith))
  ]
  | no p ↦ rw (data_add-refused b xs v (inl (omega arith))) (inl (omega arith))
]

-- What consuming `n` bytes may end with.
pub Consumes : IoBuffer → ℕ → Outcome IoBuffer → Type 0
Consumes b n (ok b') = IsValid b' × (contents b' ≡ drop n (contents b)) × (n ≤ length (contents b))
Consumes b n abort = length (contents b) < n
Consumes b n fault = ⊥

-- The buffer after `n` bytes are consumed: an empty buffer starts again at its memory's start.
abbrev pub consumed : IoBuffer → ℕ → IoBuffer
consumed b n = record b {
  buffer_ptr = if b.buffer_remaining - n == 0 then 0 else b.buffer_ptr + n;
  buffer_remaining = b.buffer_remaining - n;
}

pub consume-fits :
    (b : IoBuffer) (n : ℕ)
    → IsValid b
    → n ≤ b.buffer_remaining
    → iobuffer_consume b n ≡ ok (consumed b n)
unfolding iobuffer_consume
consume-fits b n v h = ground (arith, v.fits)

consume-refused : (b : IoBuffer) (n : ℕ) → b.buffer_remaining < n → iobuffer_consume b n ≡ abort
unfolding iobuffer_consume
consume-refused b n h = ground arith

pub contents-consumed :
    (b : IoBuffer) (n : ℕ) → n ≤ b.buffer_remaining → contents (consumed b n) ≡ drop n (contents b)
unfolding segment
contents-consumed b n h =
    let dropped = drop-segment b.mem.cell b.buffer_ptr b.buffer_remaining n h in
    elim (dec_lt n b.buffer_remaining) [
      | no p ↦ let e : b.buffer_remaining - n ≡ 0 = omega arith in rw (dropped, e) refl
      | yes p ↦
          let some_left : (b.buffer_remaining - n == 0) ≡ false = ground arith in
          rw (some_left, dropped) refl
    ]

pub consumed-IsValid :
    (b : IoBuffer) (n : ℕ) → IsValid b → n ≤ b.buffer_remaining → IsValid (consumed b n)
consumed-IsValid b n v h = record { room = v.room; spare = v.spare; fits = ground (arith, v.fits) }

-- Consuming drops the first bytes; of more than there are it fails its assertion.
pub consume_lem : (b : IoBuffer) (n : ℕ) → IsValid b → Consumes b n (iobuffer_consume b n)
unfolding Consumes
consume_lem b n v =
    let len = length-segment b.mem.cell b.buffer_ptr b.buffer_remaining in
    elim (dec_le n b.buffer_remaining) [
      | yes p ↦
          rw (consume-fits b n v p) (consumed-IsValid b n v p, contents-consumed b n p, rw len p)
      | no p ↦ rw (consume-refused b n (omega arith), len) (omega arith)
    ]
