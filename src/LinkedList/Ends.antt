-- ===== src/LinkedList/Ends.antt =====
-- Adding and removing at the two ends of a list.
use network_c_http.Base.{
  ℕ, ◌+◌, ◌≡◌, ◌≢◌, refl, sym, ap, ◌∙◌, true, false, some, [], ◌∷◌, ◌++◌, arith, length-append, ok,
  ◌==◌, inl, inr,
}
use network_c_http.Base.Heap.{null, write, Allocator}
use network_c_http.LinkedList.{ListNode, LinkedList, list_add_front, list_add_back}
use network_c_http.LinkedList.Chain.{
  Cells, first_or, last_or, node, IsValid, has-fresh, has-append, Linked-append, Distinct-join,
  frame-write, last_or-append,
}
use network_c_http.LinkedList.Links.{
  set_forward-ok, set_backward-ok, at-write_self, at-write_ne, snoc_cases, relink_last,
  relink_first, first_or_keep,
}

module _ (al : Allocator ListNode) where
  pub add_front-IsValid :
      (l : LinkedList) (cs : Cells) (x : ℕ)
      → IsValid l cs
      → (l' : LinkedList) × (list_add_front al l x ≡ ok l')
        × IsValid l' ((al.malloc l.heap, x) ∷ cs)
  unfolding list_add_front
  add_front-IsValid l [] x v =
      let p = al.malloc l.heap in
      let none_yet : (l.count == 0) ≡ true = ground (arith, v.counted) in
      (
        record l {
          heap = write l.heap p (node null null x);
          head = p;
          tail = p;
          count = l.count + 1;
        },
        rw none_yet refl,
        record {
          counted = omega (arith, v.counted);
          at_head = refl;
          at_tail = refl;
          linked = (at-write_self l.heap p (node null null x), al.not_null l.heap, tt);
          distinct = (refl, tt);
        },
      )
  add_front-IsValid l ((q, y) ∷ ys) x v =
      let p = al.malloc l.heap in
      let ne = al.not_null l.heap in
      let out = has-fresh l.heap null ((q, y) ∷ ys) null p (al.fresh l.heap) v.linked in
      let some_yet : (l.count == 0) ≡ false = ground (arith, v.counted) in
      let c0 = node null null x in
      let c = node q null x in
      let h0 = write l.heap p c0 in
      let h1 = write h0 p c in
      let h2 = write h1 p c in
      let old = frame-write h1 null ((q, y) ∷ ys) null p c out (
        frame-write h0 null ((q, y) ∷ ys) null p c out
          (frame-write l.heap null ((q, y) ∷ ys) null p c0 out v.linked)) in
      let back = relink_first h2 null q y ys null p v.distinct old in
      let k = node (first_or null ys) p y in
      (
        record l { heap = write h2 q k; head = p; count = l.count + 1 },
        rw
            (
              some_yet,
              v.at_head,
              set_forward-ok h0 p null null x q ne (at-write_self l.heap p c0),
              set_backward-ok h1 p q null x null ne (at-write_self h0 p c),
              back.0,
            )
            refl,
        record {
          counted = omega (arith, v.counted);
          at_head = refl;
          at_tail = v.at_tail;
          linked = (at-write_ne h2 q p k (ground (arith, out)) ∙ at-write_self h1 p c, ne, back.1);
          distinct = (out, v.distinct);
        },
      )

  add_back_some :
      (l : LinkedList) (xs : Cells) (t y x : ℕ)
      → IsValid l (xs ++ ((t, y) ∷ []))
      → (l' : LinkedList) × (list_add_back al l x ≡ ok l')
        × IsValid l' ((xs ++ ((t, y) ∷ [])) ++ ((al.malloc l.heap, x) ∷ []))
  unfolding list_add_back
  add_back_some l xs t y x v =
      let cs = xs ++ ((t, y) ∷ []) in
      let p = al.malloc l.heap in
      let ne = al.not_null l.heap in
      let out = has-fresh l.heap null cs null p (al.fresh l.heap) v.linked in
      let size = length-append xs ((t, y) ∷ []) in
      let some_yet : (l.count == 0) ≡ false = ground (arith, v.counted, size) in
      let tail : l.tail ≡ t = v.at_tail ∙ last_or-append null t y xs [] in
      let c0 = node l.head null x in
      let c1 = node l.head t x in
      let c = node null t x in
      let h0 = write l.heap p c0 in
      let h1 = write h0 p c1 in
      let h2 = write h1 p c in
      let old = frame-write h1 null cs null p c out (
        frame-write h0 null cs null p c1 out (frame-write l.heap null cs null p c0 out v.linked)) in
      let next = relink_last h2 null xs t y null p v.distinct old in
      let k = node p (last_or null xs) y in
      let apart : p ≢ t = ground (arith, out, has-append p xs ((t, y) ∷ [])) in
      (
        record l { heap = write h2 t k; tail = p; count = l.count + 1 },
        rw
            (
              some_yet,
              tail,
              set_backward-ok h0 p l.head null x t ne (at-write_self l.heap p c0),
              set_forward-ok h1 p l.head t x null ne (at-write_self h0 p c1),
              next.0,
            )
            refl,
        record {
          counted = omega (arith, v.counted, length-append cs ((p, x) ∷ []));
          at_head = v.at_head ∙ sym (first_or_keep null t y xs ((p, x) ∷ []));
          at_tail = sym (last_or-append null p x cs []);
          linked = Linked-append (write h2 t k) null cs ((p, x) ∷ []) null next.1 (
            at-write_ne h2 t p k apart
                ∙ at-write_self h1 p c
                ∙ ap (λ b. some (node null b x)) (sym (last_or-append null t y xs [])),
            ne,
            tt,
          );
          distinct =
              Distinct-join cs ((p, x) ∷ []) v.distinct (refl, tt) (λ a e. ground (arith, out));
        },
      )

  add_back_none :
      (l : LinkedList) (x : ℕ)
      → IsValid l []
      → (l' : LinkedList) × (list_add_back al l x ≡ ok l') × IsValid l' ((al.malloc l.heap, x) ∷ [])
  unfolding list_add_back
  add_back_none l x v =
      let p = al.malloc l.heap in
      let c = node l.head null x in
      let none_yet : (l.count == 0) ≡ true = ground (arith, v.counted) in
      (
        record l { heap = write l.heap p c; tail = p; head = p; count = l.count + 1 },
        rw none_yet refl,
        record {
          counted = omega (arith, v.counted);
          at_head = refl;
          at_tail = refl;
          linked = (
            at-write_self l.heap p c ∙ ap (λ f. some (node f null x)) v.at_head,
            al.not_null l.heap,
            tt,
          );
          distinct = (refl, tt);
        },
      )

  pub add_back-IsValid :
      (l : LinkedList) (cs : Cells) (x : ℕ)
      → IsValid l cs
      → (l' : LinkedList) × (list_add_back al l x ≡ ok l')
        × IsValid l' (cs ++ ((al.malloc l.heap, x) ∷ []))
  add_back-IsValid l cs x v = elim (snoc_cases cs) [
    | inl e ↦ rw e (add_back_none l x (rw e at v))
    | inr (xs, (t, (y, e))) ↦ rw e (add_back_some l xs t y x (rw e at v))
  ]
