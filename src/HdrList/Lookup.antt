-- ===== src/HdrList/Lookup.antt =====
-- The search for a header by its name.
use network_c_http.Base.{
  ℕ, ◌≡◌, ◌≢◌, refl, ap, Bool, false, List, [], ◌∷◌, ◌++◌, ok, if◌then◌else◌, ◌==◌, Option, none,
  some, length, arith, Bool-cases, ◌⊎◌, inl, inr,
}
use network_c_http.Base.Heap.{Heap, null, at, deref-ok}
use network_c_http.LinkedList.{list_itr_next, list_itr_unpack, list_iterator}
use network_c_http.LinkedList.Chain.{Cells, Linked, IsValid, first_or, node}
use network_c_http.KvPair.{KvPair, kvpair_label}
use network_c_http.KvPair.Texts.{
  NoNul, IsText, c_string, upper, same_text, pair_of, strcmp_eq-same_text, upper-NoNul,
  make_upper-c_string,
}
use network_c_http.HdrList.{HdrList, find_iter_loop, hdr_list_find_iter}

-- A header's name and its value.
abbrev pub Header : Type 0
Header = List ℕ × List ℕ

-- The name without regard to case.
abbrev pub same_name : List ℕ → List ℕ → Bool
same_name k k' = same_text (upper k) (upper k')

-- The item of each node is the pair of one header.
abbrev pub Held : Heap KvPair → Cells → List Header → Type 0
Held h [] [] = Unit
Held h [] (_ ∷ hs) = ⊥
Held h (_ ∷ cs) [] = ⊥
Held h ((p, a) ∷ cs) ((k, v) ∷ hs) =
    (at h a ≡ some (pair_of k v)) × (a ≢ null) × NoNul k × NoNul v × Held h cs hs

pub record StandsFor (hl : HdrList) (hs : List Header) : Type 0 where
  pub cells : Cells
  pub valid : IsValid hl.list cells
  pub held : Held hl.pairs cells hs

-- The node of the first header with the name `k`, or NULL.
abbrev pub node_of : List ℕ → Cells → List Header → ℕ
node_of k ((p, a) ∷ cs) ((k', v) ∷ hs) = if same_name k' k then p else node_of k cs hs
node_of k _ _ = null

find_iter_loop_lem :
    (hl : HdrList) (k : List ℕ) (b : ℕ) (cs : Cells) (hs : List Header)
    → NoNul k
    → Linked hl.list.heap b cs null
    → Held hl.pairs cs hs
    → find_iter_loop hl (c_string (upper k)) (length cs) (first_or null cs) ≡ ok (node_of k cs hs)
unfolding find_iter_loop list_itr_unpack list_itr_next kvpair_label
find_iter_loop_lem hl k b [] [] n l h = refl
find_iter_loop_lem hl k b [] (_ ∷ hs) n l h = elim h [ ]
find_iter_loop_lem hl k b (_ ∷ cs) [] n l h = elim h [ ]
find_iter_loop_lem hl k b ((p, a) ∷ cs) ((k', v) ∷ hs) n l h =
    let some_node : (p == null) ≡ false = ground (arith, l.1) in
    let ih = find_iter_loop_lem hl k p cs hs n l.2 h.4 in
    rw
      (
        some_node,
        deref-ok hl.list.heap p (node (first_or null cs) b a) l.1 l.0,
        deref-ok hl.pairs a (pair_of k' v) h.1 h.0,
        strcmp_eq-same_text (upper k') (upper k) (upper-NoNul k' h.2) (upper-NoNul k n),
      )
      (elim (Bool-cases (same_name k' k)) [ inl e ↦ rw e refl | inr e ↦ rw e ih ])

pub find_iter_lem :
    (hl : HdrList) (hs : List Header) (k : List ℕ) (s : StandsFor hl hs)
    → IsText k
    → hdr_list_find_iter hl (c_string k) ≡ ok (node_of k s.cells hs)
unfolding hdr_list_find_iter list_iterator list_itr_unpack list_itr_next
find_iter_lem hl hs k s n =
    rw (make_upper-c_string k n, s.valid.counted, s.valid.at_head)
      (find_iter_loop_lem hl k null s.cells hs n.0 s.valid.linked s.held)

-- The same on plain lists of headers.
abbrev pub lookup : List ℕ → List Header → Option (List ℕ)
lookup k [] = none
lookup k ((k', v) ∷ hs) = if same_name k' k then some v else lookup k hs

abbrev pub remove : List ℕ → List Header → List Header
remove k [] = []
remove k ((k', v) ∷ hs) = if same_name k' k then hs else (k', v) ∷ remove k hs

-- The node that a search finds stands between two parts of the list.
pub record Hit (h : Heap KvPair) (k : List ℕ) (cs : Cells) (hs : List Header) : Type 0 where
  pub left : Cells
  pub place : ℕ
  pub pair : ℕ
  pub right : Cells
  pub name : List ℕ
  pub value : List ℕ
  pub split : cs ≡ left ++ ((place, pair) ∷ right)
  pub found : node_of k cs hs ≡ place
  pub holds : at h pair ≡ some (pair_of name value)
  pub not_null : pair ≢ null
  pub looked_up : lookup k hs ≡ some value
  pub others : Held h (left ++ right) (remove k hs)

pub record Miss (k : List ℕ) (cs : Cells) (hs : List Header) : Type 0 where
  pub found : node_of k cs hs ≡ null
  pub looked_up : lookup k hs ≡ none
  pub others : remove k hs ≡ hs

pub find_cases :
    (h : Heap KvPair) (k : List ℕ) (cs : Cells) (hs : List Header)
    → Held h cs hs
    → Hit h k cs hs ⊎ Miss k cs hs
find_cases h k [] [] d = inr record { found = refl; looked_up = refl; others = refl }
find_cases h k [] (_ ∷ hs) d = elim d [ ]
find_cases h k (_ ∷ cs) [] d = elim d [ ]
find_cases h k ((p, a) ∷ cs) ((k', v) ∷ hs) d = elim (Bool-cases (same_name k' k)) [
  | inl e ↦ inl record {
    left = [];
    place = p;
    pair = a;
    right = cs;
    name = k';
    value = v;
    split = refl;
    found = rw e refl;
    holds = d.0;
    not_null = d.1;
    looked_up = rw e refl;
    others = rw e d.4;
  }
  | inr e ↦ elim (find_cases h k cs hs d.4) [
    | inl f ↦ inl record {
      left = (p, a) ∷ f.left;
      place = f.place;
      pair = f.pair;
      right = f.right;
      name = f.name;
      value = f.value;
      split = ap (λ l. (p, a) ∷ l) f.split;
      found = rw e f.found;
      holds = f.holds;
      not_null = f.not_null;
      looked_up = rw e f.looked_up;
      others = rw e (d.0, d.1, d.2, d.3, f.others);
    }
    | inr f ↦ inr record {
      found = rw e f.found;
      looked_up = rw e f.looked_up;
      others = rw e (ap (λ l. (k', v) ∷ l) f.others);
    }
  ]
]
