-- ===== src/BufferChain/Compact.antt =====
-- A chain that is filled by `BufferChain_append` and made one buffer by `BufferChain_compact`.
use network_c_http.Base.{
  ℕ, ◌+◌, ◌≤◌, ◌<◌, ◌≡◌, refl, sym, ap, ap₂, ◌∙◌, true, false, List, [], ◌∷◌, ◌++◌, append_assoc,
  append-nil, Outcome, ok, ◌>>=◌, length, length-append, arith, ◌==◌, ltb, leb, Bool-cases, inl,
  inr, All, ◌^◌,
}
use mathlib.Core.Path.{subst}
use network_c_http.Base.Heap.{null, deref-ok}
use network_c_http.LinkedList.{list_new, list_iterator, list_itr_next, list_itr_unpack}
use network_c_http.LinkedList.Chain.{Cells, IsValid, Linked, first_or, node}
use network_c_http.LinkedList.Links.{snoc_cases}
use network_c_http.LinkedList.Refinement.{list_last_snoc}
use network_c_http.Cbuffer.Texts.{concat}
use network_c_http.IoBuffer.{
  IoBuffer, iobuffer_new_with_capacity, iobuffer_space_len, iobuffer_data,
}
use network_c_http.IoBuffer.Contents
use network_c_http.IoBuffer.Contents.{contents, added}
use network_c_http.IoBuffer.Updates.{data_add-fits, added-IsValid, data-contents}
use network_c_http.BufferChain.{
  BufferChain, Memory, buffer_chain_new, buffer_chain_append, compact_loop, buffer_chain_compact,
  buffer_chain_size,
}
use network_c_http.BufferChain.Chunks.{Chunks, StandsFor, Chunks-last}
use network_c_http.BufferChain.Appends.{
  Appended, append_new-Appended, append_last-Appended, contents-added_start, new-IsValid,
  new-contents,
}

-- Bytes that are there go behind those of the chain.
pub append-Appended :
    (m : Memory) (bc : BufferChain) (ks : List (List ℕ)) (xs : List ℕ)
    → StandsFor bc ks
    → 0 < length xs
    → length (concat ks) + length xs + 128 < 2 ^ 31
    → Appended ks xs (buffer_chain_append m bc xs)
unfolding buffer_chain_append
append-Appended m bc ks xs s some_bytes small =
    let fresh = append_new-Appended m bc ks xs s some_bytes small in
    elim (Bool-cases (ltb 0 bc.size)) [
      | inr e ↦ rw e fresh
      | inl some_text ↦ elim (snoc_cases s.cells) [
        | inl e ↦
            absurd
              (no_text ks (subst (λ cs. Chunks bc.buffers cs ks) e s.chunked) s.counted some_text)
        | inr (cs, (t, (a, e))) ↦
            let v : IsValid bc.chain (cs ++ ((t, a) ∷ [])) = rw e at s.valid in
            let l =
              Chunks-last bc.buffers cs t a ks
                (subst (λ ds. Chunks bc.buffers ds ks) e s.chunked) in
            elim (Bool-cases (leb (length xs) (iobuffer_space_len l.chunk.buffer))) [
              | inl room ↦
                  append_last-Appended m bc ks xs s some_bytes small cs t a e some_text l room
              | inr full ↦
                  rw
                    (
                      some_text,
                      list_last_snoc bc.chain cs t a v,
                      deref-ok bc.buffers a l.chunk.buffer l.chunk.not_null l.chunk.there,
                      full,
                    )
                    fresh
            ]
      ]
    ]
  where
    no_text :
        (js : List (List ℕ))
        → Chunks bc.buffers [] js
        → bc.size ≡ length (concat js)
        → ltb 0 bc.size ≡ true
        → ⊥
    no_text [] c e f = ground (arith, e, f)
    no_text (_ ∷ js) c e f = elim c [ ]

-- The pieces, appended one after the other.
unfoldable pub append_pieces : Memory → BufferChain → List (List ℕ) → Outcome BufferChain
append_pieces m bc [] = ok bc
append_pieces m bc (p ∷ ps) = do bc' ← buffer_chain_append m bc p; append_pieces m bc' ps

append_pieces-Appended :
    (m : Memory) (bc : BufferChain) (ks ps : List (List ℕ))
    → StandsFor bc ks
    → All (λ p. 0 < length p) ps
    → length (concat ks) + length (concat ps) + 128 < 2 ^ 31
    → Appended ks (concat ps) (append_pieces m bc ps)
unfolding append_pieces
append_pieces-Appended m bc ks [] s some_bytes small = record {
  after = bc;
  chunks' = ks;
  runs = refl;
  stands = s;
  text = sym (append-nil (concat ks));
}
append_pieces-Appended m bc ks (p ∷ ps) s some_bytes small =
    let size = length-append p (concat ps) in
    let a = append-Appended m bc ks p s some_bytes.0 (omega (arith, size, small)) in
    let size' = ap length a.text ∙ length-append (concat ks) p in
    let r =
      append_pieces-Appended m a.after a.chunks' ps a.stands some_bytes.1
        (omega (arith, size, size', small)) in
    record {
      after = r.after;
      chunks' = r.chunks';
      runs = rw a.runs r.runs;
      stands = r.stands;
      text = r.text ∙ ap (λ l. l ++ concat ps) a.text ∙ append_assoc (concat ks) p (concat ps);
    }

compact_loop_lem :
    (bc : BufferChain) (b : ℕ) (cs : Cells) (ks : List (List ℕ)) (iob : IoBuffer)
    → Linked bc.chain.heap b cs null
    → Chunks bc.buffers cs ks
    → Contents.IsValid iob
    → iob.buffer_ptr ≡ 0
    → iob.buffer_remaining + length (concat ks) ≤ iob.buffer_capacity
    → (r : IoBuffer) × (compact_loop bc (length cs) (first_or null cs) iob ≡ ok r)
      × Contents.IsValid r
      × (r.buffer_ptr ≡ 0)
      × (contents r ≡ contents iob ++ concat ks)
unfolding compact_loop list_itr_unpack list_itr_next
compact_loop_lem bc b [] [] iob l c v start fits =
    (iob, refl, v, start, sym (append-nil (contents iob)))
compact_loop_lem bc b [] (_ ∷ ks) iob l c v start fits = elim c [ ]
compact_loop_lem bc b (_ ∷ cs) [] iob l c v start fits = elim c [ ]
compact_loop_lem bc b ((p, a) ∷ cs) (k ∷ ks) iob l c v start fits =
    let some_node : (p == null) ≡ false = ground (arith, l.1) in
    let n = node (first_or null cs) b a in
    let size = length-append k (concat ks) in
    let xs = contents c.0.buffer in
    let len : length xs ≡ length k = ap length c.0.holds in
    let room : iob.buffer_ptr + iob.buffer_remaining + length xs ≤ iob.buffer_capacity =
      omega (arith, start, size, len, fits) in
    let (r, runs, v', start', text) =
      compact_loop_lem bc p cs ks (added iob xs) l.2 c.2 (added-IsValid iob xs v room) start
        (omega (arith, size, len, fits)) in
    (
      r,
      rw
          (
            some_node,
            deref-ok bc.chain.heap p n l.1 l.0,
            deref-ok bc.buffers a c.0.buffer c.0.not_null c.0.there,
            data-contents c.0.buffer c.0.valid,
            data_add-fits iob xs v (omega (arith, len, c.0.nonempty)) room,
          )
          runs,
      v',
      start',
      text
          ∙ ap (λ z. z ++ concat ks)
              (contents-added_start iob xs start ∙ ap (λ z. contents iob ++ z) c.0.holds)
          ∙ append_assoc (contents iob) k (concat ks),
    )

pub new-StandsFor : StandsFor buffer_chain_new []
unfolding buffer_chain_new list_new
new-StandsFor = record {
  cells = [];
  valid = record { counted = refl; at_head = refl; at_tail = refl; linked = tt; distinct = tt };
  chunked = tt;
  counted = refl;
}

-- The chain and the buffer of its bytes.
pub record Compacts (m : Memory) (ps : List (List ℕ)) : Type 0 where
  pub chain : BufferChain
  pub buffer : IoBuffer
  pub appends : append_pieces m buffer_chain_new ps ≡ ok chain
  pub size : buffer_chain_size chain ≡ length (concat ps)
  pub compacts : buffer_chain_compact m chain ≡ ok buffer
  pub bytes : iobuffer_data buffer ≡ ok (concat ps)

-- Compaction gives one buffer with all the bytes.
pub compact_lem :
    (m : Memory) (bc : BufferChain) (ks : List (List ℕ))
    → StandsFor bc ks
    → (r : IoBuffer) × (buffer_chain_compact m bc ≡ ok r)
      × Contents.IsValid r
      × (r.buffer_ptr ≡ 0)
      × (contents r ≡ concat ks)
unfolding buffer_chain_compact buffer_chain_size list_iterator iobuffer_new_with_capacity
compact_lem m bc ks s =
    let start = iobuffer_new_with_capacity m.uninitialised bc.size in
    let (r, runs, v, at_start, text) =
      compact_loop_lem bc null s.cells ks start s.valid.linked s.chunked
        (new-IsValid m.uninitialised bc.size) refl (omega (arith, s.counted)) in
    (
      r,
      ap₂ (λ n h. compact_loop bc n h start) s.valid.counted s.valid.at_head ∙ runs,
      v,
      at_start,
      text ∙ ap (λ z. z ++ concat ks) (new-contents m.uninitialised bc.size),
    )

-- When BufferChain_append is called on a new chain for any pieces of at least one byte each, fewer
-- than 2147483520 bytes together, every call returns and no size overflows an int, BufferChain_size
-- is then the number of all their bytes, and BufferChain_compact returns a buffer with exactly these
-- bytes in order.
pub append-compact :
    (m : Memory) (ps : List (List ℕ))
    → All (λ p. 0 < length p) ps
    → length (concat ps) + 128 < 2 ^ 31
    → Compacts m ps
unfolding buffer_chain_size
append-compact m ps some_bytes small =
    let a =
      append_pieces-Appended m buffer_chain_new [] ps new-StandsFor some_bytes
        (omega (arith, small)) in
    let (r, runs, v, _, text) = compact_lem m a.after a.chunks' a.stands in
    record {
      chain = a.after;
      buffer = r;
      appends = a.runs;
      size = a.stands.counted ∙ ap length a.text;
      compacts = runs;
      bytes = data-contents r v ∙ ap ok (text ∙ a.text);
    }
