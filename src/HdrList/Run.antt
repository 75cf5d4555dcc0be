-- ===== src/HdrList/Run.antt =====
-- Any sequence of calls on a list of headers, beside a plain list of names and values.
use network_c_http.Base.{
  ℕ, ◌≡◌, List, [], ◌∷◌, ◌++◌, Outcome, ok, ◌>>=◌, if◌then◌else◌, ◌==◌, Option, none, some, length,
  arith,
}
use network_c_http.Base.Heap.{Heap, null, at, deref, write, at-write}
use network_c_http.LinkedList.Chain.{Cells}
use network_c_http.KvPair.{KvPair, kvpair_value}
use network_c_http.KvPair.Texts.{IsText, c_string}
use network_c_http.HdrList.{
  HdrList, Memory, hdr_list_add_line, hdr_list_add_cstr, hdr_list_find, hdr_list_remove,
}
use network_c_http.HdrList.Lookup.{Header, Held, StandsFor, lookup, remove}

-- The calls, with texts for the strings; the label and the value of `add_line` are read with their
-- lengths. `get` is `HdrList_find` and `KVPair_value` of the pair that it finds.
pub data HdrOp : Type 0 where
  add_line : List ℕ → List ℕ → HdrOp
  add_cstr : List ℕ → List ℕ → HdrOp
  remove_key : List ℕ → HdrOp
  get : List ℕ → HdrOp

unfoldable pub pair_value : HdrList → ℕ → Outcome (Option (List ℕ))
pair_value hl p =
    if p == null then ok none else do kv ← deref hl.pairs p; ok (some (kvpair_value kv))

unfoldable pub hdr_op : Memory → HdrList → HdrOp → Outcome (HdrList × List (Option (List ℕ)))
unfolding pair_value
hdr_op m hl (add_line k v) = do hl' ← hdr_list_add_line m hl k (length k) v (length v); ok (hl', [])
hdr_op m hl (add_cstr k v) = do hl' ← hdr_list_add_cstr m hl (c_string k) (c_string v); ok (hl', [])
hdr_op m hl (remove_key k) = do hl' ← hdr_list_remove hl (c_string k); ok (hl', [])
hdr_op m hl (get k) = do p ← hdr_list_find hl (c_string k); v ← pair_value hl p; ok (hl, v ∷ [])

unfoldable pub hdr_ops : Memory → HdrList → List HdrOp → Outcome (HdrList × List (Option (List ℕ)))
unfolding hdr_op
hdr_ops m hl [] = ok (hl, [])
hdr_ops m hl (o ∷ os) = do
  (hl1, got) ← hdr_op m hl o
  (hl2, later) ← hdr_ops m hl1 os
  ok (hl2, got ++ later)

-- A text has no NUL inside, and its length is an `int`.
abbrev pub TextOp : HdrOp → Type 0
TextOp (add_line k v) = IsText k × IsText v
TextOp (add_cstr k v) = IsText k × IsText v
TextOp (remove_key k) = IsText k
TextOp (get k) = IsText k

abbrev pub value_string : Option (List ℕ) → Option (List ℕ)
value_string none = none
value_string (some v) = some (c_string v)

-- The same calls on a plain list of headers.
abbrev pub plain_op : List Header → HdrOp → List Header × List (Option (List ℕ))
plain_op hs (add_line k v) = ((k, v) ∷ hs, [])
plain_op hs (add_cstr k v) = (hs ++ ((k, v) ∷ []), [])
plain_op hs (remove_key k) = (remove k hs, [])
plain_op hs (get k) = (hs, value_string (lookup k hs) ∷ [])

abbrev pub plain_ops : List Header → List HdrOp → List Header × List (Option (List ℕ))
plain_ops hs [] = (hs, [])
plain_ops hs (o ∷ os) =
    let (hs1, got) = plain_op hs o in let (hs2, later) = plain_ops hs1 os in (hs2, got ++ later)

pub record Refines (r : Outcome (HdrList × List (Option (List ℕ))))
    (plain : List Header × List (Option (List ℕ))) : Type 0 where
  pub after : HdrList
  pub runs : r ≡ ok (after, plain.1)
  pub stands : StandsFor after plain.0

-- A new pair leaves the others as they are.
pub Held-write :
    (h : Heap KvPair) (q : ℕ) (kv : KvPair) (cs : Cells) (hs : List Header)
    → at h q ≡ none
    → Held h cs hs
    → Held (write h q kv) cs hs
Held-write h q kv [] [] new d = tt
Held-write h q kv [] (_ ∷ hs) new d = elim d [ ]
Held-write h q kv (_ ∷ cs) [] new d = elim d [ ]
Held-write h q kv ((p, a) ∷ cs) ((k, v) ∷ hs) new d =
    (ground (arith, at-write h q kv a, new, d.0), d.1, d.2, d.3, Held-write h q kv cs hs new d.4)

pub Held-append :
    (h : Heap KvPair) (cs ds : Cells) (hs is : List Header)
    → Held h cs hs
    → Held h ds is
    → Held h (cs ++ ds) (hs ++ is)
Held-append h [] ds [] is d e = e
Held-append h [] ds (_ ∷ hs) is d e = elim d [ ]
Held-append h (_ ∷ cs) ds [] is d e = elim d [ ]
Held-append h ((p, a) ∷ cs) ds ((k, v) ∷ hs) is d e =
    (d.0, d.1, d.2, d.3, Held-append h cs ds hs is d.4 e)

pub at_new : (h : Heap KvPair) (q : ℕ) (kv : KvPair) → at (write h q kv) q ≡ some kv
at_new h q kv = ground (arith, at-write h q kv q)
