-- ===== src/LinkedList/Unlink.antt =====
-- Removing the node at which an iterator stands.
use network_c_http.Base.{
  ℕ, ◌-◌, ◌≡◌, ◌≢◌, refl, sym, ap, ◌∙◌, true, false, some, [], ◌∷◌, ◌++◌, arith, length-append, ok,
  ◌==◌, inl, inr, Bool-cases,
}
use mathlib.Core.List.{append-nil}
use network_c_http.Base.Heap.{null, at, write, erase, deref-ok, free-ok}
use network_c_http.LinkedList.{ListNode, LinkedList, list_itr_remove, unlink}
use network_c_http.LinkedList.Chain.{
  Cells, has, first_or, last_or, node, Linked, Distinct, IsValid, has-append, Linked-split,
  Linked-append, Distinct-append, Distinct-join, frame-write, frame-erase, last_or-append,
}
use network_c_http.LinkedList.Links.{
  at-write_ne, snoc_cases, relink_last, relink_first, first_or_keep, ne_of_has, has-append_last,
}

-- The node at `p` is none of the others, and these are distinct.
record Apart (xs : Cells) (p : ℕ) (ys : Cells) : Type 0 where
  not_left : has p xs ≡ false
  not_right : has p ys ≡ false
  left : Distinct xs
  right : Distinct ys
  both : Distinct (xs ++ ys)
  disjoint : (a : ℕ) → has a xs ≡ true → has a ys ≡ false

separate : (xs ys : Cells) (p x : ℕ) → Distinct (xs ++ ((p, x) ∷ ys)) → Apart xs p ys
separate xs ys p x d =
    let (dx, dy, apart) = Distinct-append xs ((p, x) ∷ ys) d in
    let disjoint : (a : ℕ) → has a xs ≡ true → has a ys ≡ false =
      λ a e. ground (arith, apart a e) in
    record {
      not_left = ground (arith, apart p);
      not_right = dy.0;
      left = dx;
      right = dy.1;
      both = Distinct-join xs ys dx dy.1 disjoint;
      disjoint = disjoint;
    }

-- The links pass the node at `p` by, and it is still in use.
record Passed (l : LinkedList) (p : ℕ) (cs : Cells) : Type 0 where
  rest : LinkedList
  runs : unlink l p ≡ ok rest
  kept : rest.count ≡ l.count
  at_head : rest.head ≡ first_or null cs
  at_tail : rest.tail ≡ last_or null cs
  linked : Linked rest.heap null cs null
  cell : ListNode
  still : at rest.heap p ≡ some cell

unlink_first :
    (l : LinkedList) (p x q y : ℕ) (ys : Cells)
    → IsValid l ((p, x) ∷ (q, y) ∷ ys)
    → Passed l p ((q, y) ∷ ys)
unfolding unlink
unlink_first l p x q y ys v =
    let (here, ne, rest) = v.linked in
    let back = relink_first l.heap p q y ys null null v.distinct.1 rest in
    let first : (l.head == p) ≡ true = ground (arith, v.at_head) in
    let k = node (first_or null ys) null y in
    record {
      rest = record l { heap = write l.heap q k; head = q };
      runs = rw (deref-ok l.heap p (node q null x) ne here, first, back.0) refl;
      kept = refl;
      at_head = refl;
      at_tail = v.at_tail;
      linked = back.1;
      cell = node q null x;
      still = at-write_ne l.heap q p k (ground (arith, v.distinct.0)) ∙ here;
    }

-- The first node of two parts is none of the second's.
head_ne :
    (s z p : ℕ) (xs ys : Cells)
    → has p (xs ++ ((s, z) ∷ [])) ≡ false
    → first_or null ((xs ++ ((s, z) ∷ [])) ++ ys) ≢ p
head_ne s z p [] ys out e = ground arith
head_ne s z p ((q, y) ∷ xs) ys out e = ground arith

unlink_last :
    (l : LinkedList) (xs : Cells) (s z p x : ℕ)
    → IsValid l ((xs ++ ((s, z) ∷ [])) ++ ((p, x) ∷ []))
    → Passed l p (xs ++ ((s, z) ∷ []))
unfolding unlink
unlink_last l xs s z p x v =
    let cs = xs ++ ((s, z) ∷ []) in
    let a = separate cs [] p x v.distinct in
    let (left, right) = Linked-split l.heap null cs ((p, x) ∷ []) null v.linked in
    let prev : last_or null cs ≡ s = last_or-append null s z xs [] in
    let here : at l.heap p ≡ some (node null s x) = right.0 ∙ ap (λ b. some (node null b x)) prev in
    let fwd = relink_last l.heap null xs s z p null a.left left in
    let k = node null (last_or null xs) z in
    let not_first : (l.head == p) ≡ false =
      ground (arith, v.at_head, head_ne s z p xs ((p, x) ∷ []) a.not_left) in
    let last : (l.tail == p) ≡ true = ground (arith, v.at_tail, last_or-append null p x cs []) in
    let other = ne_of_has p s cs a.not_left (has-append_last s z xs) in
    record {
      rest = record l { heap = write l.heap s k; tail = s };
      runs = rw (deref-ok l.heap p (node null s x) right.1 here, not_first, last, fwd.0) refl;
      kept = refl;
      at_head = v.at_head ∙ first_or_keep null s z xs ((p, x) ∷ []);
      at_tail = sym prev;
      linked = fwd.1;
      cell = node null s x;
      still = at-write_ne l.heap s p k other ∙ here;
    }

has_first : (q y : ℕ) (ys : Cells) → has q ((q, y) ∷ ys) ≡ true
has_first q y ys = ground arith

test_ne : (a b c : ℕ) → a ≡ b → c ≢ b → (a == c) ≡ false
test_ne a b c e ne = ground arith

has-last_or : (q y : ℕ) (ys : Cells) → has (last_or q ys) ((q, y) ∷ ys) ≡ true
has-last_or q y [] = ground arith
has-last_or q y ((r, w) ∷ ys) = ground (arith, has-last_or r w ys)

unlink_middle :
    (l : LinkedList) (xs : Cells) (s z p x q y : ℕ) (ys : Cells)
    → IsValid l ((xs ++ ((s, z) ∷ [])) ++ ((p, x) ∷ (q, y) ∷ ys))
    → Passed l p ((xs ++ ((s, z) ∷ [])) ++ ((q, y) ∷ ys))
unfolding unlink
unlink_middle l xs s z p x q y ys v =
    let cs = xs ++ ((s, z) ∷ []) in
    let ds = (q, y) ∷ ys in
    let a = separate cs ds p x v.distinct in
    let (left, right) = Linked-split l.heap null cs ((p, x) ∷ ds) null v.linked in
    let prev : last_or null cs ≡ s = last_or-append null s z xs [] in
    let here : at l.heap p ≡ some (node q s x) = right.0 ∙ ap (λ b. some (node q b x)) prev in
    let ne = right.1 in
    let not_first : (l.head == p) ≡ false =
      ground (arith, v.at_head, head_ne s z p xs ((p, x) ∷ ds) a.not_left) in
    let not_last : (l.tail == p) ≡ false =
      test_ne l.tail (last_or q ys) p (v.at_tail ∙ last_or-append null p x cs ds)
        (ne_of_has p (last_or q ys) ds a.not_right (has-last_or q y ys)) in
    let back = relink_first l.heap p q y ys null s a.right right.2 in
    let k = node (first_or null ys) s y in
    let h1 = write l.heap q k in
    let q_out : has q cs ≡ false = ground (arith, a.disjoint q) in
    let fwd = relink_last h1 null xs s z p q a.left (frame-write l.heap null cs p q k q_out left) in
    let k' = node q (last_or null xs) z in
    let s_out = a.disjoint s (has-append_last s z xs) in
    let still = at-write_ne l.heap q p k (ne_of_has p q ds a.not_right (has_first q y ys)) ∙ here in
    let other = ne_of_has p s cs a.not_left (has-append_last s z xs) in
    record {
      rest = record l { heap = write h1 s k' };
      runs =
          rw
            (
              deref-ok l.heap p (node q s x) ne here,
              not_first,
              not_last,
              back.0,
              deref-ok h1 p (node q s x) ne still,
              fwd.0,
            )
            refl;
      kept = refl;
      at_head =
          v.at_head ∙ first_or_keep null s z xs ((p, x) ∷ ds) ∙ sym (first_or_keep null s z xs ds);
      at_tail = v.at_tail ∙ last_or-append null p x cs ds ∙ sym (last_or-append null q y cs ys);
      linked =
          Linked-append (write h1 s k') null cs ds null fwd.1
            (rw prev (frame-write h1 s ds null s k' s_out back.1));
      cell = node q s x;
      still = at-write_ne h1 s p k' other ∙ still;
    }

unlink-Passed :
    (l : LinkedList) (xs : Cells) (p x : ℕ) (ys : Cells)
    → IsValid l (xs ++ ((p, x) ∷ ys))
    → (l.count == 1) ≡ false
    → Passed l p (xs ++ ys)
unlink-Passed l xs p x ys v more = elim (snoc_cases xs) [
  | inl e ↦ rw e (first ys (rw e at v))
  | inr (cs, (s, (z, e))) ↦ rw e (later cs s z ys (rw e at v))
]
  where
    first : (ds : Cells) → IsValid l ((p, x) ∷ ds) → Passed l p ds
    first [] w = absurd (ground (arith, w.counted, more))
    first ((q, y) ∷ ds) w = unlink_first l p x q y ds w

    later :
        (cs : Cells) (s z : ℕ) (ds : Cells)
        → IsValid l ((cs ++ ((s, z) ∷ [])) ++ ((p, x) ∷ ds))
        → Passed l p ((cs ++ ((s, z) ∷ [])) ++ ds)
    later cs s z [] w = rw (append-nil (cs ++ ((s, z) ∷ []))) (unlink_last l cs s z p x w)
    later cs s z ((q, y) ∷ ds) w = unlink_middle l cs s z p x q y ds w

counted_some :
    (l : LinkedList) (xs : Cells) (p x : ℕ) (ys : Cells)
    → IsValid l (xs ++ ((p, x) ∷ ys))
    → (l.count == 0) ≡ false
counted_some l xs p x ys v = ground (arith, v.counted, length-append xs ((p, x) ∷ ys))

-- Whichever node goes, the others stay in their order.
pub itr_remove-IsValid :
    (l : LinkedList) (xs : Cells) (p x : ℕ) (ys : Cells)
    → IsValid l (xs ++ ((p, x) ∷ ys))
    → (l' : LinkedList) × (list_itr_remove l p ≡ ok l') × IsValid l' (xs ++ ys)
unfolding list_itr_remove
itr_remove-IsValid l xs p x ys v = elim (Bool-cases (l.count == 1)) [
  | inl one ↦ only xs ys v one
  | inr more ↦
      let u = unlink-Passed l xs p x ys v more in
      let a = separate xs ys p x v.distinct in
      let size = length-append xs ((p, x) ∷ ys) in
      let size' = length-append xs ys in
      let some_left : (l.count == 0) ≡ false = counted_some l xs p x ys v in
      let ne = (Linked-split l.heap null xs ((p, x) ∷ ys) null v.linked).1.1 in
      let given : (p == null) ≡ false = ground (arith, ne) in
      let out : has p (xs ++ ys) ≡ false =
        ground (arith, has-append p xs ys, a.not_left, a.not_right) in
      (
        record u.rest { heap = erase u.rest.heap p; count = l.count - 1 },
        rw (given, some_left, more, u.runs, free-ok u.rest.heap p u.cell ne u.still) refl,
        record {
          counted = omega (arith, v.counted, size, size');
          at_head = u.at_head;
          at_tail = u.at_tail;
          linked = frame-erase u.rest.heap null (xs ++ ys) null p out u.linked;
          distinct = a.both;
        },
      )
]
  where
    only :
        (xs ys : Cells)
        → IsValid l (xs ++ ((p, x) ∷ ys))
        → (l.count == 1) ≡ true
        → (l' : LinkedList) × (list_itr_remove l p ≡ ok l') × IsValid l' (xs ++ ys)
    only [] [] w one =
        let some_left : (l.count == 0) ≡ false = ground (arith, one) in
        let first : (p == l.head) ≡ true = ground (arith, w.at_head) in
        let given : (p == null) ≡ false = ground (arith, w.linked.1) in
        (
          record { heap = erase l.heap p; count = 0; head = null; tail = null },
          rw
              (
                given,
                some_left,
                one,
                first,
                free-ok l.heap p (node null null x) w.linked.1 w.linked.0,
              )
              refl,
          record { counted = refl; at_head = refl; at_tail = refl; linked = tt; distinct = tt },
        )
    only [] (d ∷ ds) w one = absurd (ground (arith, w.counted, one))
    only (c ∷ cs) ds w one = absurd (ground (arith, w.counted, one, length-append cs ((p, x) ∷ ds)))
