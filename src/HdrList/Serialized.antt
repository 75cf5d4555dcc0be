-- ===== src/HdrList/Serialized.antt =====
-- The text of a list of headers.
use network_c_http.Base.{
  ℕ, suc, ◌*◌, bind_cong, ◌≤◌, ◌<◌, ◌≡◌, refl, ap, ◌∙◌, false, List, [], ◌∷◌, ◌++◌, ok, ◌==◌,
  length, arith, All,
}
use network_c_http.Base.Heap.{null, deref-ok}
use network_c_http.LinkedList.{list_itr_next, list_itr_unpack, list_iterator}
use network_c_http.LinkedList.Chain.{Cells, Linked, first_or, node}
use network_c_http.KvPair.{kvpair_value, kvpair_label}
use network_c_http.KvPair.Texts.{
  NoNul, c_string, upper, pair_of, strlen-c_string, read_bytes_prefix, upper-NoNul,
}
use network_c_http.HdrList.{HdrList, append_string, serialize_loop, hdr_list_serialize}
use network_c_http.HdrList.Lookup.{Header, Held, StandsFor}
use network_c_http.Base.Cells.{segment}
use network_c_http.Cbuffer.{Cbuffer, cbuffer_data, cbuffer_append, cbuffer_append_cstr}
use network_c_http.Cbuffer.Texts.{
  append_all, pieces_lem, fresh, fresh-IsValid, new-fresh, concat, data-contents,
}

-- The lines of the headers, each with its end.
abbrev pub lines : List Header → List ℕ
lines [] = []
lines ((k, v) ∷ hs) = upper k ++ (58 ∷ 32 ∷ (v ++ (13 ∷ 10 ∷ lines hs)))

-- What is appended for them.
abbrev pieces : List Header → List (List ℕ)
pieces [] = []
pieces ((k, v) ∷ hs) = upper k ∷ (58 ∷ 32 ∷ []) ∷ v ∷ (13 ∷ 10 ∷ []) ∷ pieces hs

-- The names and the values are of at most 256 bytes each.
abbrev pub IsShort : Header → Type 0
IsShort (k, v) = (length k ≤ 256) × (length v ≤ 256)

concat-pieces : (hs : List Header) → concat (pieces hs) ≡ lines hs
concat-pieces [] = refl
concat-pieces ((k, v) ∷ hs) = rw (concat-pieces hs) refl

length-upper : (t : List ℕ) → length (upper t) ≡ length t
length-upper [] = refl
length-upper (c ∷ t) = ap suc (length-upper t)

short_pieces : (hs : List Header) → All IsShort hs → All (λ p. length p ≤ 256) (pieces hs)
short_pieces [] s = tt
short_pieces ((k, v) ∷ hs) s =
    (rw (length-upper k) s.0.0, (omega arith, (s.0.1, (omega arith, short_pieces hs s.1))))

module _ (uninitialised : ℕ → ℕ) where
  append_string_lem :
      (cb : Cbuffer) (t : List ℕ)
      → NoNul t
      → append_string uninitialised cb (c_string t) ≡ cbuffer_append uninitialised cb t
  unfolding append_string cbuffer_append_cstr
  append_string_lem cb t n = rw (strlen-c_string t n, read_bytes_prefix t (0 ∷ [])) refl

  -- The loop appends the pieces of all headers.
  serialize_loop_lem :
      (hl : HdrList) (b : ℕ) (cs : Cells) (hs : List Header) (cb : Cbuffer)
      → Linked hl.list.heap b cs null
      → Held hl.pairs cs hs
      → serialize_loop uninitialised hl (length cs) (first_or null cs) cb
        ≡ append_all uninitialised cb (pieces hs)
  unfolding serialize_loop append_all list_itr_unpack list_itr_next kvpair_label kvpair_value
      cbuffer_append_cstr
  serialize_loop_lem hl b [] [] cb l h = refl
  serialize_loop_lem hl b [] (_ ∷ hs) cb l h = elim h [ ]
  serialize_loop_lem hl b (_ ∷ cs) [] cb l h = elim h [ ]
  serialize_loop_lem hl b ((p, a) ∷ cs) ((k, v) ∷ hs) cb l h =
      let some_node : (p == null) ≡ false = ground (arith, l.1) in
      rw
        (
          some_node,
          deref-ok hl.list.heap p (node (first_or null cs) b a) l.1 l.0,
          deref-ok hl.pairs a (pair_of k v) h.1 h.0,
        )
        (bind_cong (append_string_lem cb (upper k) (upper-NoNul k h.2)) (λ cb1.
          bind_cong refl (λ cb2.
            bind_cong (append_string_lem cb2 v h.3)
              (λ cb3. bind_cong refl (λ cb4. serialize_loop_lem hl p cs hs cb4 l.2 h.4)))))

  -- When every name and every value has at most 256 bytes and no NUL inside and the text fewer than
  -- 1048576 bytes, HdrList_serialize returns a buffer that holds, for each header in order, the name in upper
  -- case, a colon and a space, the value and a line end, and nothing else.
  pub serialize_lem :
      (hl : HdrList) (hs : List Header)
      → StandsFor hl hs
      → All IsShort hs
      → length (lines hs) < 1024 * 1024
      → (b : Cbuffer) × (hdr_list_serialize uninitialised hl ≡ ok b)
        × (cbuffer_data b ≡ ok (lines hs))
  unfolding hdr_list_serialize list_iterator list_itr_unpack list_itr_next segment
  serialize_lem hl hs s small fits =
      let all = serialize_loop_lem hl null s.cells hs (fresh uninitialised) s.valid.linked s.held in
      let (b, e, v, c) =
        pieces_lem uninitialised (pieces hs) (fresh uninitialised) (fresh-IsValid uninitialised)
          (omega arith) (short_pieces hs small) (omega (arith, ap length (concat-pieces hs))) in
      (
        b,
        rw (new-fresh uninitialised, s.valid.counted, s.valid.at_head) (all ∙ e),
        data-contents b v ∙ ap ok (c ∙ concat-pieces hs),
      )
