-- ===== src/HdrList/Refinement.antt =====
-- The calls of header_list.c do what they do on plain lists of headers.
use network_c_http.Base.{
  ℕ, ◌≡◌, refl, false, List, [], ◌∷◌, ◌++◌, ok, ◌==◌, length, arith, inl, inr, All, append-nil,
  to_int_fits,
}
use network_c_http.Base.Heap.{null, deref-ok, write}
use network_c_http.LinkedList.{list_new, list_itr_unpack}
use network_c_http.LinkedList.Chain.{Cells, IsValid, Linked-split}
use network_c_http.LinkedList.Ends.{add_front-IsValid, add_back-IsValid}
use network_c_http.LinkedList.Unlink.{itr_remove-IsValid}
use network_c_http.KvPair.{kvpair_value, kvpair_new}
use network_c_http.KvPair.Texts.{NoNul, IsText, pair_of, kvpair_new_lem, strlen-c_string}
use network_c_http.HdrList.{
  HdrList, Memory, hdr_list_new, hdr_list_add_line, hdr_list_add_cstr, hdr_list_find,
  hdr_list_remove, hdr_list_add_front, hdr_list_add_back,
}
use network_c_http.HdrList.Lookup.{Header, StandsFor, find_iter_lem, Hit, find_cases}
use network_c_http.HdrList.Run.{
  HdrOp, hdr_op, hdr_ops, pair_value, TextOp, plain_op, plain_ops, Refines, Held-write, Held-append,
  at_new,
}
use network_c_http.HdrList.Run.HdrOp.{add_line, add_cstr, remove_key, get}

-- The headers with a new pair beside them, which no node holds yet.
abbrev pub with_pair : Memory → HdrList → List ℕ → List ℕ → HdrList
with_pair m hl k v = record hl { pairs = write hl.pairs (m.pairs.malloc hl.pairs) (pair_of k v) }

add_front-StandsFor :
    (m : Memory) (hl : HdrList) (hs : List Header) (k v : List ℕ)
    → NoNul k
    → NoNul v
    → StandsFor hl hs
    → (hl' : HdrList) × (hdr_list_add_front m (with_pair m hl k v) (m.pairs.malloc hl.pairs)
        ≡ ok hl')
      × StandsFor hl' ((k, v) ∷ hs)
unfolding hdr_list_add_front
add_front-StandsFor m hl hs k v nk nv s =
    let p = m.pairs.malloc hl.pairs in
    let new = m.pairs.fresh hl.pairs in
    let (l, runs, valid) = add_front-IsValid m.nodes hl.list s.cells p s.valid in
    (
      record { list = l; pairs = write hl.pairs p (pair_of k v) },
      rw runs refl,
      record {
        cells = (m.nodes.malloc hl.list.heap, p) ∷ s.cells;
        valid = valid;
        held = (
          at_new hl.pairs p (pair_of k v),
          m.pairs.not_null hl.pairs,
          nk,
          nv,
          Held-write hl.pairs p (pair_of k v) s.cells hs new s.held,
        );
      },
    )

pub add_back-StandsFor :
    (m : Memory) (hl : HdrList) (hs : List Header) (k v : List ℕ)
    → NoNul k
    → NoNul v
    → StandsFor hl hs
    → (hl' : HdrList) × (hdr_list_add_back m (with_pair m hl k v) (m.pairs.malloc hl.pairs)
        ≡ ok hl')
      × StandsFor hl' (hs ++ ((k, v) ∷ []))
unfolding hdr_list_add_back
add_back-StandsFor m hl hs k v nk nv s =
    let p = m.pairs.malloc hl.pairs in
    let new = m.pairs.fresh hl.pairs in
    let q = m.nodes.malloc hl.list.heap in
    let (l, runs, valid) = add_back-IsValid m.nodes hl.list s.cells p s.valid in
    let h = write hl.pairs p (pair_of k v) in
    (
      record { list = l; pairs = h },
      rw runs refl,
      record {
        cells = s.cells ++ ((q, p) ∷ []);
        valid = valid;
        held =
            Held-append h s.cells ((q, p) ∷ []) hs ((k, v) ∷ [])
              (Held-write hl.pairs p (pair_of k v) s.cells hs new s.held)
              (at_new hl.pairs p (pair_of k v), m.pairs.not_null hl.pairs, nk, nv, tt);
      },
    )

-- The node of a search's hit is not NULL, and its item is the pair.
pub on_place :
    (hl : HdrList) (k : List ℕ) (hs : List Header) (cs : Cells) (f : Hit hl.pairs k cs hs)
    → IsValid hl.list cs
    → ((f.place == null) ≡ false) × (list_itr_unpack hl.list f.place ≡ ok f.pair)
unfolding list_itr_unpack
on_place hl k hs cs f v =
    let w : IsValid hl.list (f.left ++ ((f.place, f.pair) ∷ f.right)) = rw f.split at v in
    let (here, ne, _) =
      (Linked-split hl.list.heap null f.left ((f.place, f.pair) ∷ f.right) null w.linked).1 in
    let given : (f.place == null) ≡ false = ground (arith, ne) in
    (given, rw (given, deref-ok hl.list.heap f.place _ ne here) refl)

remove_key-Refines :
    (m : Memory) (hl : HdrList) (hs : List Header) (k : List ℕ)
    → IsText k
    → StandsFor hl hs
    → Refines (hdr_op m hl (remove_key k)) (plain_op hs (remove_key k))
unfolding hdr_op hdr_list_remove
remove_key-Refines m hl hs k n s = elim (find_cases hl.pairs k s.cells hs s.held) [
  | inl f ↦
      let w : IsValid hl.list (f.left ++ ((f.place, f.pair) ∷ f.right)) = rw f.split at s.valid in
      let (l, runs, v') = itr_remove-IsValid hl.list f.left f.place f.pair f.right w in
      let (on, unpack) = on_place hl k hs s.cells f s.valid in
      record {
        after = record hl { list = l };
        runs = rw (find_iter_lem hl hs k s n, f.found, on, runs) refl;
        stands = record { cells = f.left ++ f.right; valid = v'; held = f.others };
      }
  | inr f ↦ record {
    after = hl;
    runs = rw (find_iter_lem hl hs k s n, f.found) refl;
    stands = rw f.others s;
  }
]

get-Refines :
    (m : Memory) (hl : HdrList) (hs : List Header) (k : List ℕ)
    → IsText k
    → StandsFor hl hs
    → Refines (hdr_op m hl (get k)) (plain_op hs (get k))
unfolding hdr_op hdr_list_find kvpair_value pair_value
get-Refines m hl hs k n s = elim (find_cases hl.pairs k s.cells hs s.held) [
  | inl f ↦
      let (on, unpack) = on_place hl k hs s.cells f s.valid in
      let pair_on : (f.pair == null) ≡ false = ground (arith, f.not_null) in
      record {
        after = hl;
        runs =
            rw
              (
                find_iter_lem hl hs k s n,
                f.found,
                on,
                unpack,
                pair_on,
                deref-ok hl.pairs f.pair (pair_of f.name f.value) f.not_null f.holds,
                f.looked_up,
              )
              refl;
        stands = s;
      }
  | inr f ↦ record {
    after = hl;
    runs = rw (find_iter_lem hl hs k s n, f.found, f.looked_up) refl;
    stands = s;
  }
]

op-Refines :
    (m : Memory) (hl : HdrList) (hs : List Header) (o : HdrOp)
    → TextOp o
    → StandsFor hl hs
    → Refines (hdr_op m hl o) (plain_op hs o)
unfolding hdr_op hdr_list_add_line hdr_list_add_cstr
op-Refines m hl hs (add_line k v) n s =
    let (hl', runs, s') = add_front-StandsFor m hl hs k v n.0.0 n.1.0 s in
    let pair : kvpair_new k (length k) v (length v) ≡ ok (pair_of k v) =
      rw (append-nil k, append-nil v) at (kvpair_new_lem k v [] []) in
    record { after = hl'; runs = rw (pair, runs) refl; stands = s' }
op-Refines m hl hs (add_cstr k v) n s =
    let (hl', runs, s') = add_back-StandsFor m hl hs k v n.0.0 n.1.0 s in
    record {
      after = hl';
      runs =
          rw
            (
              strlen-c_string k n.0.0,
              to_int_fits (length k) (omega (arith, n.0.1)),
              strlen-c_string v n.1.0,
              to_int_fits (length v) (omega (arith, n.1.1)),
              kvpair_new_lem k v (0 ∷ []) (0 ∷ []),
              runs,
            )
            refl;
      stands = s';
    }
op-Refines m hl hs (remove_key k) n s = remove_key-Refines m hl hs k n s
op-Refines m hl hs (get k) n s = get-Refines m hl hs k n s

ops-Refines :
    (m : Memory) (hl : HdrList) (hs : List Header) (os : List HdrOp)
    → All TextOp os
    → StandsFor hl hs
    → Refines (hdr_ops m hl os) (plain_ops hs os)
unfolding hdr_ops
ops-Refines m hl hs [] n s = record { after = hl; runs = refl; stands = s }
ops-Refines m hl hs (o ∷ os) n s =
    let r = op-Refines m hl hs o n.0 s in
    let rest = ops-Refines m r.after (plain_op hs o).0 os n.1 r.stands in
    record { after = rest.after; runs = rw (r.runs, rest.runs) refl; stands = rest.stands }

pub new-StandsFor : StandsFor hdr_list_new []
unfolding hdr_list_new list_new
new-StandsFor = record {
  cells = [];
  valid = record { counted = refl; at_head = refl; at_tail = refl; linked = tt; distinct = tt };
  held = tt;
}

-- With texts that have no NUL inside and are shorter than 2147483647 bytes, any sequence of HdrList_add_line, HdrList_add_cstr,
-- HdrList_remove and HdrList_find on a new list of headers runs with no fault and answers as a
-- plain list of names and values does in which a name is looked up without regard to case and the
-- first header with it counts.
pub hdr_ops-Refines :
    (m : Memory) (os : List HdrOp)
    → All TextOp os
    → Refines (hdr_ops m hdr_list_new os) (plain_ops [] os)
hdr_ops-Refines m os n = ops-Refines m hdr_list_new [] os n new-StandsFor
