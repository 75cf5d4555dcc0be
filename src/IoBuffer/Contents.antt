-- ===== src/IoBuffer/Contents.antt =====
-- The bytes in an IO buffer, and what the operations make of them.
use network_c_http.Base.{
  ℕ, ◌+◌, ◌-◌, ◌≤◌, ◌≡◌, sym, true, false, List, ◌++◌, arith, set, length, ltb, leb, ◌&&◌,
  if◌then◌else◌,
}
use native.Mathlib.Decide.{dec_lt, dec_le}
use network_c_http.Base.Cells.{segment, update, blit, length-segment, segment-update_outside}
use network_c_http.IoBuffer.{IoBuffer}
use network_c_http.Base.Memory.{segment-update_inside, segment-blit_behind}

pub record IsValid (b : IoBuffer) : Type 0 where
  pub room : b.mem.size ≡ b.allocated_capacity
  pub spare : b.allocated_capacity ≡ b.buffer_capacity + 1
  pub fits : b.buffer_ptr + b.buffer_remaining ≤ b.buffer_capacity

abbrev pub contents : IoBuffer → List ℕ
contents b = segment b.mem.cell b.buffer_ptr b.buffer_remaining

-- The bytes after `xs` is added to a buffer that holds `old` from offset `o` on. The terminator is
-- written `length (old ++ xs)` behind the start of the memory, which lies among the bytes if the
-- buffer's data does not begin there.
abbrev pub appended : ℕ → List ℕ → List ℕ → List ℕ
appended o old xs =
    let all = old ++ xs in
    let n = length old + length xs in if ltb 0 o && leb o n then set all (n - o) 0 else all

-- The buffer after an addition that fits.
abbrev pub added : IoBuffer → List ℕ → IoBuffer
added b xs =
    let n = b.buffer_remaining + length xs in
    record b {
      buffer_remaining = n;
      mem = record b.mem {
        cell = update (blit b.mem.cell (b.buffer_ptr + b.buffer_remaining) xs) n 0;
      };
    }

-- A segment from `o` on with a zero written at `n`, its own length.
segment-terminated :
    (f : ℕ → ℕ) (o n : ℕ)
    → segment (update f n 0) o n
      ≡ (if ltb 0 o && leb o n then set (segment f o n) (n - o) 0 else segment f o n)
segment-terminated f o n = elim (dec_lt 0 o) [
  | yes p ↦ elim (dec_le o n) [
    | yes q ↦
        let near : (ltb 0 o && leb o n) ≡ true = ground arith in
        rw near (segment-update_inside f n 0 o n (n - o) (omega arith) (omega arith))
    | no q ↦
        let far : (ltb 0 o && leb o n) ≡ false = ground arith in
        rw far (segment-update_outside f n 0 o n (omega arith))
  ]
  | no p ↦
      let start : (ltb 0 o && leb o n) ≡ false = ground arith in
      rw start (segment-update_outside f n 0 o n (omega arith))
]

pub contents-added :
    (b : IoBuffer) (xs : List ℕ) → contents (added b xs) ≡ appended b.buffer_ptr (contents b) xs
contents-added b xs =
    let o = b.buffer_ptr in
    let r = b.buffer_remaining in
    let copied = blit b.mem.cell (o + r) xs in
    let behind = segment-blit_behind b.mem.cell o r xs in
    let len = length-segment b.mem.cell o r in
    rw (len, sym behind) (segment-terminated copied o (r + length xs))
