-- ===== src/BufferChain/Chunks.antt =====
-- The bytes in the buffers of a chain.
use network_c_http.Base.{
  ℕ, ◌<◌, ◌≡◌, ◌≢◌, refl, sym, ap, ◌∙◌, Bool, false, ◌||◌, List, [], ◌∷◌, ◌++◌, append_assoc, none,
  some, length, arith, ◌==◌,
}
use network_c_http.Base.Heap.{Heap, null, at, write, at-write}
use network_c_http.LinkedList.Chain.{Cells, IsValid}
use network_c_http.Cbuffer.Texts.{concat}
use network_c_http.IoBuffer.{IoBuffer}
use network_c_http.IoBuffer.Contents
use network_c_http.IoBuffer.Contents.{contents}
use network_c_http.BufferChain.{BufferChain}

-- The buffer at the address holds `bytes`, from the start of its memory on.
pub record Chunk (h : Heap IoBuffer) (a : ℕ) (bytes : List ℕ) : Type 0 where
  pub buffer : IoBuffer
  pub there : at h a ≡ some buffer
  pub not_null : a ≢ null
  pub valid : Contents.IsValid buffer
  pub start : buffer.buffer_ptr ≡ 0
  pub holds : contents buffer ≡ bytes
  pub nonempty : 0 < length bytes

abbrev pub has_item : ℕ → Cells → Bool
has_item a [] = false
has_item a ((_, b) ∷ cs) = (a == b) || has_item a cs

-- Each node has a buffer of its own.
abbrev pub Chunks : Heap IoBuffer → Cells → List (List ℕ) → Type 0
Chunks h [] [] = Unit
Chunks h [] (_ ∷ ks) = ⊥
Chunks h (_ ∷ cs) [] = ⊥
Chunks h ((p, a) ∷ cs) (k ∷ ks) = Chunk h a k × (has_item a cs ≡ false) × Chunks h cs ks

pub record StandsFor (bc : BufferChain) (chunks : List (List ℕ)) : Type 0 where
  pub cells : Cells
  pub valid : IsValid bc.chain cells
  pub chunked : Chunks bc.buffers cells chunks
  pub counted : bc.size ≡ length (concat chunks)

Chunk-write :
    (h : Heap IoBuffer) (q : ℕ) (b : IoBuffer) (a : ℕ) (k : List ℕ)
    → (a == q) ≡ false
    → Chunk h a k
    → Chunk (write h q b) a k
Chunk-write h q b a k ne c = record {
  buffer = c.buffer;
  there = at-write h q b a ∙ rw ne c.there;
  not_null = c.not_null;
  valid = c.valid;
  start = c.start;
  holds = c.holds;
  nonempty = c.nonempty;
}

-- A write to none of the buffers.
pub Chunks-write :
    (h : Heap IoBuffer) (q : ℕ) (b : IoBuffer) (cs : Cells) (ks : List (List ℕ))
    → has_item q cs ≡ false
    → Chunks h cs ks
    → Chunks (write h q b) cs ks
Chunks-write h q b [] [] out c = tt
Chunks-write h q b [] (_ ∷ ks) out c = elim c [ ]
Chunks-write h q b (_ ∷ cs) [] out c = elim c [ ]
Chunks-write h q b ((p, a) ∷ cs) (k ∷ ks) out c = (
  Chunk-write h q b a k (ground (arith, out)) c.0,
  c.1,
  Chunks-write h q b cs ks (ground (arith, out)) c.2,
)

-- An address that is not in use is no buffer's.
pub has_item-fresh :
    (h : Heap IoBuffer) (q : ℕ) (cs : Cells) (ks : List (List ℕ))
    → at h q ≡ none
    → Chunks h cs ks
    → has_item q cs ≡ false
has_item-fresh h q [] ks e c = refl
has_item-fresh h q (_ ∷ cs) [] e c = elim c [ ]
has_item-fresh h q ((p, a) ∷ cs) (k ∷ ks) e c =
    ground (arith, c.0.there, has_item-fresh h q cs ks e c.2)

has_item-append : (a : ℕ) (cs ds : Cells) → has_item a (cs ++ ds) ≡ (has_item a cs || has_item a ds)
has_item-append a [] ds = refl
has_item-append a (c ∷ cs) ds = ground (arith, has_item-append a cs ds)

-- A node more, with a buffer of its own.
pub Chunks-snoc :
    (h : Heap IoBuffer) (p q : ℕ) (k : List ℕ) (cs : Cells) (ks : List (List ℕ))
    → has_item q cs ≡ false
    → Chunk h q k
    → Chunks h cs ks
    → Chunks h (cs ++ ((p, q) ∷ [])) (ks ++ (k ∷ []))
Chunks-snoc h p q k [] [] out c d = (c, refl, tt)
Chunks-snoc h p q k [] (_ ∷ ks) out c d = elim d [ ]
Chunks-snoc h p q k (_ ∷ cs) [] out c d = elim d [ ]
Chunks-snoc h p q k ((r, a) ∷ cs) (j ∷ ks) out c d = (
  d.0,
  ground (arith, d.1, out, has_item-append a cs ((p, q) ∷ [])),
  Chunks-snoc h p q k cs ks (ground (arith, out)) c d.2,
)

-- The last buffer, and the others.
pub record LastChunk (h : Heap IoBuffer) (xs : Cells) (a : ℕ) (chunks : List (List ℕ))
    : Type 0 where
  pub earlier : List (List ℕ)
  pub bytes : List ℕ
  pub split : chunks ≡ earlier ++ (bytes ∷ [])
  pub others : Chunks h xs earlier
  pub own : has_item a xs ≡ false
  pub chunk : Chunk h a bytes

pub Chunks-last :
    (h : Heap IoBuffer) (xs : Cells) (t a : ℕ) (ks : List (List ℕ))
    → Chunks h (xs ++ ((t, a) ∷ [])) ks
    → LastChunk h xs a ks
Chunks-last h [] t a (k ∷ []) c = record {
  earlier = [];
  bytes = k;
  split = refl;
  others = tt;
  own = refl;
  chunk = c.0;
}
Chunks-last h [] t a (k ∷ (j ∷ ks)) c = elim c.2 [ ]
Chunks-last h [] t a [] c = elim c [ ]
Chunks-last h (_ ∷ xs) t a [] c = elim c [ ]
Chunks-last h ((r, b) ∷ xs) t a (k ∷ ks) c =
    let l = Chunks-last h xs t a ks c.2 in
    record {
      earlier = k ∷ l.earlier;
      bytes = l.bytes;
      split = ap (λ z. k ∷ z) l.split;
      others = (c.0, ground (arith, c.1, has_item-append b xs ((t, a) ∷ [])), l.others);
      own = ground (arith, c.1, l.own, has_item-append b xs ((t, a) ∷ []));
      chunk = l.chunk;
    }

pub concat-append : (ks js : List (List ℕ)) → concat (ks ++ js) ≡ concat ks ++ concat js
concat-append [] js = refl
concat-append (k ∷ ks) js =
    ap (λ l. k ++ l) (concat-append ks js) ∙ sym (append_assoc k (concat ks) (concat js))
