-- ===== src/BufferChain/Appends.antt =====
-- `BufferChain_append` adds its bytes behind those of the chain.
use network_c_http.Base.{
  ℕ, ◌+◌, ◌*◌, ◌≤◌, ◌<◌, ◌≡◌, ◌≢◌, refl, sym, ap, ◌∙◌, true, List, [], ◌∷◌, ◌++◌, append_assoc,
  append-nil, some, Outcome, ok, length, length-append, arith, if◌then◌else◌, ltb, leb, ◌^◌,
  int_sum, int_sum_fits, Bool-cases, inl, inr,
}
use network_c_http.Base.Cells.{segment, length-segment}
use network_c_http.Base.Heap.{Heap, null, at, write, at-write, deref-ok, assign-ok}
use network_c_http.LinkedList.Chain.{Cells, IsValid}
use network_c_http.LinkedList.Ends.{add_back-IsValid}
use network_c_http.LinkedList.Refinement.{list_last_snoc}
use network_c_http.Cbuffer.Texts.{concat}
use network_c_http.IoBuffer.{
  IoBuffer, iobuffer_new_with_capacity, iobuffer_space_len, iobuffer_data_add, iobuffer_data_len,
}
use network_c_http.IoBuffer.Contents
use network_c_http.IoBuffer.Contents.{contents, added, appended, contents-added}
use network_c_http.IoBuffer.Updates.{data_add-fits, added-IsValid}
use network_c_http.BufferChain.{
  BufferChain, Memory, append_new, buffer_chain_append, buffer_chain_add_back,
}
use network_c_http.BufferChain.Chunks.{
  Chunk, StandsFor, LastChunk, Chunks-write, has_item-fresh, Chunks-snoc, concat-append,
}

-- A buffer whose data begins at the start of its memory takes bytes that fit behind its own.
pub contents-added_start :
    (b : IoBuffer) (xs : List ℕ) → b.buffer_ptr ≡ 0 → contents (added b xs) ≡ contents b ++ xs
contents-added_start b xs start = contents-added b xs ∙ ap (λ o. appended o (contents b) xs) start

module _ (u : ℕ → ℕ) where
  pub new-IsValid : (n : ℕ) → Contents.IsValid (iobuffer_new_with_capacity u n)
  unfolding iobuffer_new_with_capacity
  new-IsValid n = record { room = refl; spare = refl; fits = omega arith }

  pub new-contents : (n : ℕ) → contents (iobuffer_new_with_capacity u n) ≡ []
  unfolding iobuffer_new_with_capacity segment
  new-contents n = refl

  pub new-add :
      (n : ℕ) (xs : List ℕ)
      → 0 < length xs
      → length xs ≤ n
      → iobuffer_data_add (iobuffer_new_with_capacity u n) xs
        ≡ ok (added (iobuffer_new_with_capacity u n) xs)
  unfolding iobuffer_new_with_capacity
  new-add n xs some_bytes fits =
      data_add-fits (iobuffer_new_with_capacity u n) xs (new-IsValid n) some_bytes (omega arith)

  -- The new buffer as a chunk.
  new-Chunk :
      (h : Heap IoBuffer) (a n : ℕ) (xs : List ℕ)
      → a ≢ null
      → 0 < length xs
      → length xs ≤ n
      → Chunk (write h a (added (iobuffer_new_with_capacity u n) xs)) a xs
  unfolding iobuffer_new_with_capacity
  new-Chunk h a n xs ne some_bytes fits =
      let b = iobuffer_new_with_capacity u n in
      record {
        buffer = added b xs;
        there = ground (arith, at-write h a (added b xs) a);
        not_null = ne;
        valid = added-IsValid b xs (new-IsValid n) (omega arith);
        start = refl;
        holds = contents-added_start b xs refl ∙ ap (λ l. l ++ xs) (new-contents n);
        nonempty = some_bytes;
      }

-- The chain after an addition.
pub record Appended (chunks : List (List ℕ)) (xs : List ℕ) (r : Outcome BufferChain) : Type 0 where
  pub after : BufferChain
  pub chunks' : List (List ℕ)
  pub runs : r ≡ ok after
  pub stands : StandsFor after chunks'
  pub text : concat chunks' ≡ concat chunks ++ xs

pub concat_snoc : (ks : List (List ℕ)) (xs : List ℕ) → concat (ks ++ (xs ∷ [])) ≡ concat ks ++ xs
concat_snoc ks xs = concat-append ks (xs ∷ []) ∙ ap (λ l. concat ks ++ l) (append-nil xs)

module _ (m : Memory) (bc : BufferChain) (ks : List (List ℕ)) (xs : List ℕ) (s : StandsFor bc ks)
    (some_bytes : 0 < length xs) (small : length (concat ks) + length xs + 128 < 2 ^ 31) where
  required_lem :
      (if ltb (256 * 4 * 8) (length xs) then int_sum (length xs) 100 else ok (256 * 4 * 8))
      ≡ ok (if ltb (256 * 4 * 8) (length xs) then length xs + 100 else 256 * 4 * 8)
  required_lem = elim (Bool-cases (ltb (256 * 4 * 8) (length xs))) [
    | inl e ↦ rw e (int_sum_fits (length xs) 100 (omega arith))
    | inr e ↦ rw e refl
  ]

  size_fits : int_sum bc.size (length xs) ≡ ok (bc.size + length xs)
  size_fits = int_sum_fits bc.size (length xs) (omega (arith, s.counted))

  pub append_new-Appended : Appended ks xs (append_new m bc xs)
  unfolding append_new
  append_new-Appended =
      let n = if ltb (256 * 4 * 8) (length xs) then length xs + 100 else 256 * 4 * 8 in
      let fits : length xs ≤ n = ground arith in
      let p = m.iobuffers.malloc bc.buffers in
      let out = has_item-fresh bc.buffers p s.cells ks (m.iobuffers.fresh bc.buffers) s.chunked in
      let b = added (iobuffer_new_with_capacity m.uninitialised n) xs in
      let (l, runs, valid) = add_back-IsValid m.nodes bc.chain s.cells p s.valid in
      record {
        after = record { chain = l; buffers = write bc.buffers p b; size = bc.size + length xs };
        chunks' = ks ++ (xs ∷ []);
        runs =
            rw (required_lem, new-add m.uninitialised n xs some_bytes fits, runs, size_fits) refl;
        stands = record {
          cells = s.cells ++ ((m.nodes.malloc bc.chain.heap, p) ∷ []);
          valid = valid;
          chunked =
              Chunks-snoc (write bc.buffers p b) (m.nodes.malloc bc.chain.heap) p xs s.cells ks out
                (new-Chunk m.uninitialised bc.buffers p n xs (m.iobuffers.not_null bc.buffers)
                  some_bytes fits)
                (Chunks-write bc.buffers p b s.cells ks out s.chunked);
          counted =
              omega (arith, s.counted, ap length (concat_snoc ks xs), length-append (concat ks) xs);
        };
        text = concat_snoc ks xs;
      }

  -- The bytes fit into the last buffer.
  pub append_last-Appended :
      (cs : Cells) (t a : ℕ)
      → s.cells ≡ cs ++ ((t, a) ∷ [])
      → (ltb 0 bc.size) ≡ true
      → (l : LastChunk bc.buffers cs a ks)
      → leb (length xs) (iobuffer_space_len l.chunk.buffer) ≡ true
      → Appended ks xs (buffer_chain_append m bc xs)
  unfolding buffer_chain_append iobuffer_space_len
  append_last-Appended cs t a e some_text l room =
      let b = l.chunk.buffer in
      let v : IsValid bc.chain (cs ++ ((t, a) ∷ [])) = rw e at s.valid in
      let fits : b.buffer_ptr + b.buffer_remaining + length xs ≤ b.buffer_capacity =
        ground (arith, room, some_bytes) in
      let h = write bc.buffers a (added b xs) in
      let text : concat (l.earlier ++ ((l.bytes ++ xs) ∷ [])) ≡ concat ks ++ xs =
        concat_snoc l.earlier (l.bytes ++ xs)
        ∙ sym (append_assoc (concat l.earlier) l.bytes xs)
        ∙ ap (λ z. z ++ xs) (sym (concat_snoc l.earlier l.bytes) ∙ ap concat (sym l.split)) in
      record {
        after = record bc { buffers = h; size = bc.size + length xs };
        chunks' = l.earlier ++ ((l.bytes ++ xs) ∷ []);
        runs =
            rw
              (
                some_text,
                list_last_snoc bc.chain cs t a v,
                deref-ok bc.buffers a b l.chunk.not_null l.chunk.there,
                room,
                data_add-fits b xs l.chunk.valid some_bytes fits,
                assign-ok bc.buffers a b (added b xs) l.chunk.not_null l.chunk.there,
                size_fits,
              )
              refl;
        stands = record {
          cells = cs ++ ((t, a) ∷ []);
          valid = v;
          chunked =
              Chunks-snoc h t a (l.bytes ++ xs) cs l.earlier l.own
                (record {
                  buffer = added b xs;
                  there = ground (arith, at-write bc.buffers a (added b xs) a);
                  not_null = l.chunk.not_null;
                  valid = added-IsValid b xs l.chunk.valid fits;
                  start = l.chunk.start;
                  holds = contents-added_start b xs l.chunk.start ∙ ap (λ z. z ++ xs) l.chunk.holds;
                  nonempty = omega (arith, length-append l.bytes xs);
                })
                (Chunks-write bc.buffers a (added b xs) cs l.earlier l.own l.others);
          counted = omega (arith, s.counted, ap length text, length-append (concat ks) xs);
        };
        text = text;
      }

-- A buffer with bytes, from the start of its memory on, goes behind the others.
pub add_back-Appended :
    (m : Memory) (bc : BufferChain) (ks : List (List ℕ)) (b : IoBuffer) (xs : List ℕ)
    → StandsFor bc ks
    → Contents.IsValid b
    → b.buffer_ptr ≡ 0
    → contents b ≡ xs
    → 0 < length xs
    → length (concat ks) + length xs < 2 ^ 31
    → Appended ks xs (
        buffer_chain_add_back m
          (record bc { buffers = write bc.buffers (m.iobuffers.malloc bc.buffers) b })
          (m.iobuffers.malloc bc.buffers))
unfolding buffer_chain_add_back iobuffer_data_len
add_back-Appended m bc ks b xs s v start text some_bytes small =
    let p = m.iobuffers.malloc bc.buffers in
    let h = write bc.buffers p b in
    let not_null = m.iobuffers.not_null bc.buffers in
    let out = has_item-fresh bc.buffers p s.cells ks (m.iobuffers.fresh bc.buffers) s.chunked in
    let there : at h p ≡ some b = ground (arith, at-write bc.buffers p b p) in
    let (l, runs, valid) = add_back-IsValid m.nodes bc.chain s.cells p s.valid in
    let size = sym (length-segment b.mem.cell b.buffer_ptr b.buffer_remaining) ∙ ap length text in
    let size_fits = int_sum_fits bc.size b.buffer_remaining (omega (arith, s.counted, size)) in
    record {
      after = record { chain = l; buffers = h; size = bc.size + b.buffer_remaining };
      chunks' = ks ++ (xs ∷ []);
      runs = rw (runs, deref-ok h p b not_null there, size_fits) refl;
      stands = record {
        cells = s.cells ++ ((m.nodes.malloc bc.chain.heap, p) ∷ []);
        valid = valid;
        chunked =
            Chunks-snoc h (m.nodes.malloc bc.chain.heap) p xs s.cells ks out
              (record {
                buffer = b;
                there = there;
                not_null = not_null;
                valid = v;
                start = start;
                holds = text;
                nonempty = some_bytes;
              })
              (Chunks-write bc.buffers p b s.cells ks out s.chunked);
        counted =
            omega
              (arith, s.counted, size, ap length (concat_snoc ks xs), length-append (concat ks) xs);
      };
      text = concat_snoc ks xs;
    }
