-- ===== src/LinkedList/Removal.antt =====
-- Removing a node from a list.
use network_c_http.Base.{
  ℕ, ◌-◌, ◌≡◌, ◌≢◌, refl, sym, ap, ◌∙◌, true, false, some, [], ◌∷◌, ◌++◌, arith, length-append, ok,
  ◌==◌, inl, inr,
}
use network_c_http.Base.Heap.{Heap, null, at, write, erase, deref-ok, assign-ok, free-ok}
use network_c_http.LinkedList.{
  ListNode, LinkedList, list_remove_first, list_remove_last, remove_only,
}
use network_c_http.LinkedList.Chain.{
  Cells, has, first_or, last_or, node, IsValid, Linked-split, Distinct-append, frame-write,
  frame-erase, last_or-append,
}
use network_c_http.LinkedList.Links.{
  at-write_self, at-write_ne, snoc_cases, relink_last, relink_first, first_or_keep, ne_of_has,
  has-append_last,
}

-- The list of one node without it.
emptied-IsValid :
    (h : Heap ListNode) (n : ℕ)
    → n ≡ 0
    → IsValid (record { heap = h; count = n; head = null; tail = null }) []
emptied-IsValid h n e = record {
  counted = e;
  at_head = refl;
  at_tail = refl;
  linked = tt;
  distinct = tt;
}

remove_only-IsValid :
    (l : LinkedList) (p x : ℕ)
    → IsValid l ((p, x) ∷ [])
    → (l' : LinkedList) × (remove_only l ≡ ok (l', x)) × IsValid l' []
unfolding remove_only
remove_only-IsValid l p x v =
    let (here, ne, _) = v.linked in
    let c = node null null null in
    let h = write l.heap p c in
    (
      record { heap = erase h p; count = l.count - 1; head = null; tail = null },
      rw
          (
            v.at_head,
            deref-ok l.heap p (node null null x) ne here,
            assign-ok l.heap p (node null null x) c ne here,
            free-ok h p c ne (at-write_self l.heap p c),
          )
          refl,
      emptied-IsValid (erase h p) (l.count - 1) (omega (arith, v.counted)),
    )

-- What removing the first node leaves: the list without it, and its item.
pub remove_first-IsValid :
    (l : LinkedList) (p x : ℕ) (cs : Cells)
    → IsValid l ((p, x) ∷ cs)
    → (l' : LinkedList) × (list_remove_first l ≡ ok (l', x)) × IsValid l' cs
unfolding list_remove_first
remove_first-IsValid l p x [] v =
    let some_left : (l.count == 0) ≡ false = ground (arith, v.counted) in
    let only : (l.count == 1) ≡ true = ground (arith, v.counted) in
    rw (some_left, only) (remove_only-IsValid l p x v)
remove_first-IsValid l p x ((q, y) ∷ ys) v =
    let some_left : (l.count == 0) ≡ false = ground (arith, v.counted) in
    let more : (l.count == 1) ≡ false = ground (arith, v.counted) in
    let (here, ne, rest) = v.linked in
    let back = relink_first l.heap p q y ys null null v.distinct.1 rest in
    let k = node (first_or null ys) null y in
    let h1 = write l.heap q k in
    let c = node null null null in
    let h2 = write h1 p c in
    let apart : p ≢ q = ground (arith, v.distinct.0) in
    let still = at-write_ne l.heap q p k apart ∙ here in
    (
      record l { heap = erase h2 p; head = q; count = l.count - 1 },
      rw
          (
            some_left,
            more,
            v.at_head,
            deref-ok l.heap p (node q null x) ne here,
            back.0,
            assign-ok h1 p (node q null x) c ne still,
            free-ok h2 p c ne (at-write_self h1 p c),
          )
          refl,
      record {
        counted = omega (arith, v.counted);
        at_head = refl;
        at_tail = v.at_tail;
        linked =
            frame-erase h2 null ((q, y) ∷ ys) null p v.distinct.0
              (frame-write h1 null ((q, y) ∷ ys) null p c v.distinct.0 back.1);
        distinct = v.distinct.1;
      },
    )

-- What removing the last of two nodes or more leaves.
remove_last_some :
    (l : LinkedList) (xs : Cells) (s z t y : ℕ)
    → IsValid l ((xs ++ ((s, z) ∷ [])) ++ ((t, y) ∷ []))
    → (l' : LinkedList) × (list_remove_last l ≡ ok (l', y)) × IsValid l' (xs ++ ((s, z) ∷ []))
unfolding list_remove_last
remove_last_some l xs s z t y v =
    let cs = xs ++ ((s, z) ∷ []) in
    let size = length-append xs ((s, z) ∷ []) in
    let size' = length-append cs ((t, y) ∷ []) in
    let some_left : (l.count == 0) ≡ false = ground (arith, v.counted, size, size') in
    let more : (l.count == 1) ≡ false = ground (arith, v.counted, size, size') in
    let tail : l.tail ≡ t = v.at_tail ∙ last_or-append null t y cs [] in
    let (left, right) = Linked-split l.heap null cs ((t, y) ∷ []) null v.linked in
    let (dl, dr, apart) = Distinct-append cs ((t, y) ∷ []) v.distinct in
    let prev : last_or null cs ≡ s = last_or-append null s z xs [] in
    let here : at l.heap t ≡ some (node null s y) = right.0 ∙ ap (λ b. some (node null b y)) prev in
    let ne = right.1 in
    let fwd = relink_last l.heap null xs s z t null dl left in
    let k = node null (last_or null xs) z in
    let h1 = write l.heap s k in
    let c = node null null null in
    let h2 = write h1 t c in
    let out : has t cs ≡ false = ground (arith, apart t) in
    let other : t ≢ s = ne_of_has t s cs out (has-append_last s z xs) in
    (
      record l { heap = erase h2 t; tail = s; count = l.count - 1 },
      rw
          (
            some_left,
            more,
            tail,
            deref-ok l.heap t (node null s y) ne here,
            fwd.0,
            assign-ok h1 t (node null s y) c ne (at-write_ne l.heap s t k other ∙ here),
            free-ok h2 t c ne (at-write_self h1 t c),
          )
          refl,
      record {
        counted = omega (arith, v.counted, size');
        at_head = v.at_head ∙ first_or_keep null s z xs ((t, y) ∷ []);
        at_tail = sym prev;
        linked = frame-erase h2 null cs null t out (frame-write h1 null cs null t c out fwd.1);
        distinct = dl;
      },
    )

pub remove_last-IsValid :
    (l : LinkedList) (cs : Cells) (t y : ℕ)
    → IsValid l (cs ++ ((t, y) ∷ []))
    → (l' : LinkedList) × (list_remove_last l ≡ ok (l', y)) × IsValid l' cs
unfolding list_remove_last
remove_last-IsValid l cs t y v = elim (snoc_cases cs) [
  | inl e ↦
      let w : IsValid l ((t, y) ∷ []) = rw e at v in
      let some_left : (l.count == 0) ≡ false = ground (arith, w.counted) in
      let only : (l.count == 1) ≡ true = ground (arith, w.counted) in
      rw (e, some_left, only) (remove_only-IsValid l t y w)
  | inr (xs, (s, (z, e))) ↦ rw e (remove_last_some l xs s z t y (rw e at v))
]
