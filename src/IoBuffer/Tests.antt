-- ===== src/IoBuffer/Tests.antt =====
-- Tests of the IO buffer, and its theorems at concrete inputs.
use network_c_http.Base.{◌+◌, ◌≡◌, refl, true, [], ◌∷◌, ok, ◌>>=◌, arith}
use network_c_http.Base.Cells.{update, blit, segment}
use network_c_http.IoBuffer.{
  IoBuffer, iobuffer_init, iobuffer_from_buf, iobuffer_consume, iobuffer_commit, iobuffer_space,
  iobuffer_data_add, iobuffer_dup, iobuffer_consolidate_space, iobuffer_equal, iobuffer_data,
}
use network_c_http.IoBuffer.Contents.{IsValid, contents}
use network_c_http.IoBuffer.Updates.{Adds, Consumes, data_add_lem, consume_lem}
use network_c_http.IoBuffer.Copies.{Keeps, Consolidates, dup_lem, consolidate_lem}

-- Capacity 6; the bytes 7 8 9 stand at offset 2.
abbrev sample : IoBuffer
sample = record {
  mem = record { size = 7; cell = λ i. 5 + i };
  allocated_capacity = 7;
  buffer_capacity = 6;
  buffer_ptr = 2;
  buffer_length = 6;
  buffer_remaining = 3;
}

sample-IsValid : IsValid sample
sample-IsValid = record { room = refl; spare = refl; fits = omega arith }

-- The terminator overwrites the third byte: it is written at offset 4, the data begins at 2.
terminator : (iobuffer_data_add sample (1 ∷ []) >>= λ b. ok (contents b)) ≡ ok (7 ∷ 8 ∷ 0 ∷ 1 ∷ [])
unfolding iobuffer_data_add iobuffer_commit iobuffer_space segment update blit
terminator = refl

-- `strncmp` stops at a byte 0.
up_to_zero :
    (iobuffer_from_buf (λ i. i) (1 ∷ 0 ∷ 2 ∷ []) >>= λ a.
    iobuffer_from_buf (λ i. i) (1 ∷ 0 ∷ 3 ∷ []) >>= λ b. iobuffer_equal a b)
    ≡ ok true
unfolding iobuffer_from_buf iobuffer_init iobuffer_commit iobuffer_equal segment update blit
    iobuffer_data
up_to_zero = refl

data_add_lem_example : Adds sample (1 ∷ []) (iobuffer_data_add sample (1 ∷ []))
data_add_lem_example = data_add_lem sample (1 ∷ []) sample-IsValid

consume_lem_example : Consumes sample 2 (iobuffer_consume sample 2)
consume_lem_example = consume_lem sample 2 sample-IsValid

sample_copy : Keeps sample (iobuffer_dup (λ i. 0) sample)
sample_copy = dup_lem (λ i. 0) sample sample-IsValid

consolidate_lem_example : Consolidates sample (iobuffer_consolidate_space (λ i. 0) sample)
consolidate_lem_example = consolidate_lem (λ i. 0) sample sample-IsValid
