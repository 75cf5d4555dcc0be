-- ===== src/IoBuffer/Bytes.antt =====
-- One byte added at the end of an IO buffer, or taken from its front.
use network_c_http.Base.{
  ℕ, suc, ◌+◌, ◌≤◌, ◌<◌, ◌≡◌, refl, sym, ap, ◌∙◌, false, List, [], ◌∷◌, ◌++◌, drop, length, arith,
  ok, abort, ltb, lt→ltb, inr,
}
use network_c_http.Base.Cells.{load, segment, length-segment}
use network_c_http.IoBuffer.{
  IoBuffer, iobuffer_new_with_capacity, iobuffer_init, iobuffer_commit_push_back,
  iobuffer_consume_pop_front,
}
use network_c_http.IoBuffer.Contents.{IsValid, contents, added, contents-added}
use network_c_http.IoBuffer.Updates.{
  data_add-fits, data_add-refused, added-IsValid, consumed, consume-fits, contents-consumed,
}

-- A valid buffer of this capacity that holds these bytes from the start of its memory on.
pub record Carries (b : IoBuffer) (capacity : ℕ) (body : List ℕ) : Type 0 where
  pub valid : IsValid b
  pub start : b.buffer_ptr ≡ 0
  pub limit : b.buffer_capacity ≡ capacity
  pub bytes : contents b ≡ body

pub new-Carries :
    (uninitialised : ℕ → ℕ) (capacity : ℕ)
    → Carries (iobuffer_new_with_capacity uninitialised capacity) capacity []
unfolding iobuffer_new_with_capacity iobuffer_init segment
new-Carries uninitialised capacity = record {
  valid = record { room = refl; spare = refl; fits = omega arith };
  start = refl;
  limit = refl;
  bytes = refl;
}

pub push_back-room :
    (b : IoBuffer) (capacity : ℕ) (body : List ℕ) (ch : ℕ)
    → Carries b capacity body
    → length body < capacity
    → (b' : IoBuffer) × (iobuffer_commit_push_back b ch ≡ ok b')
      × Carries b' capacity (body ++ (ch ∷ []))
unfolding iobuffer_commit_push_back
push_back-room b capacity body ch h room =
    let len = length-segment b.mem.cell b.buffer_ptr b.buffer_remaining in
    let fits : b.buffer_ptr + b.buffer_remaining + 1 ≤ b.buffer_capacity =
      omega (arith, h.start, h.limit, ap length h.bytes, len) in
    let start : ltb 0 b.buffer_ptr ≡ false = ground (arith, h.start) in
    (
      added b (ch ∷ []),
      data_add-fits b (ch ∷ []) h.valid (omega arith) fits,
      record {
        valid = added-IsValid b (ch ∷ []) h.valid fits;
        start = h.start;
        limit = h.limit;
        bytes = contents-added b (ch ∷ []) ∙ rw (start, h.bytes) refl;
      },
    )

pub push_back-full :
    (b : IoBuffer) (capacity : ℕ) (body : List ℕ) (ch : ℕ)
    → Carries b capacity body
    → capacity ≤ length body
    → iobuffer_commit_push_back b ch ≡ abort
unfolding iobuffer_commit_push_back
push_back-full b capacity body ch h full =
    let len = length-segment b.mem.cell b.buffer_ptr b.buffer_remaining in
    data_add-refused b (ch ∷ []) h.valid
      (inr (omega (arith, h.start, h.limit, ap length h.bytes, len)))

-- The byte at the front of a buffer.
pub first_byte :
    (b : IoBuffer) (n ch : ℕ) (cs : List ℕ)
    → b.buffer_remaining ≡ suc n
    → contents b ≡ ch ∷ cs
    → b.mem.cell b.buffer_ptr ≡ ch
unfolding segment
first_byte b n ch cs e c =
    let c' : segment b.mem.cell b.buffer_ptr (suc n) ≡ ch ∷ cs =
      ap (segment b.mem.cell b.buffer_ptr) (sym e) ∙ c in
    cc

pub load-first :
    (b : IoBuffer) (n ch : ℕ) (cs : List ℕ)
    → IsValid b
    → b.buffer_remaining ≡ suc n
    → contents b ≡ ch ∷ cs
    → load b.mem b.buffer_ptr ≡ ok ch
load-first b n ch cs v e c =
    let room : b.buffer_ptr < b.mem.size = omega (arith, v.room, v.spare, v.fits) in
    rw (lt→ltb b.buffer_ptr b.mem.size room, first_byte b n ch cs e c) refl

-- Taking the first byte of a buffer that has one.
pub pop_front-first :
    (b : IoBuffer) (n ch : ℕ) (cs : List ℕ)
    → IsValid b
    → b.buffer_remaining ≡ suc n
    → contents b ≡ ch ∷ cs
    → iobuffer_consume_pop_front b ≡ ok (consumed b 1, ch)
unfolding iobuffer_consume_pop_front
pop_front-first b n ch cs v e c =
    rw (load-first b n ch cs v e c, consume-fits b 1 v (omega arith)) refl

pub consumed-rest :
    (b : IoBuffer) (n ch : ℕ) (cs : List ℕ)
    → b.buffer_remaining ≡ suc n
    → contents b ≡ ch ∷ cs
    → contents (consumed b 1) ≡ cs
consumed-rest b n ch cs e c = contents-consumed b 1 (omega arith) ∙ ap (drop 1) c
