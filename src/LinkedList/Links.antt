-- ===== src/LinkedList/Links.antt =====
-- Writes to the links of a node.
use network_c_http.Base.{
  ℕ, ◌≡◌, ◌≢◌, refl, ap, true, false, some, [], ◌∷◌, ◌++◌, arith, ok, ◌⊎◌, inl, inr,
}
use network_c_http.Base.Heap.{Heap, null, at, write, at-write, deref-ok, assign-ok}
use network_c_http.LinkedList.{ListNode, set_forward, set_backward}
use network_c_http.LinkedList.Chain.{
  Cells, has, first_or, last_or, node, Linked, Distinct, Linked-split, Linked-append,
  Distinct-append, frame-write,
}

pub set_forward-ok :
    (h : Heap ListNode) (p f b x q : ℕ)
    → p ≢ null
    → at h p ≡ some (node f b x)
    → set_forward h p q ≡ ok (write h p (node q b x))
unfolding set_forward
set_forward-ok h p f b x q ne e =
    rw (deref-ok h p (node f b x) ne e) (assign-ok h p (node f b x) (node q b x) ne e)

pub set_backward-ok :
    (h : Heap ListNode) (p f b x q : ℕ)
    → p ≢ null
    → at h p ≡ some (node f b x)
    → set_backward h p q ≡ ok (write h p (node f q x))
unfolding set_backward
set_backward-ok h p f b x q ne e =
    rw (deref-ok h p (node f b x) ne e) (assign-ok h p (node f b x) (node f q x) ne e)

pub at-write_self : (h : Heap ListNode) (p : ℕ) (c : ListNode) → at (write h p c) p ≡ some c
at-write_self h p c = ground (arith, at-write h p c p)

pub at-write_ne : (h : Heap ListNode) (p q : ℕ) (c : ListNode) → q ≢ p → at (write h p c) q ≡ at h q
at-write_ne h p q c ne = ground (arith, at-write h p c q)

-- A list of nodes is empty or has a last one.
pub snoc_cases :
    (cs : Cells) → (cs ≡ []) ⊎ ((xs : Cells) × ((t : ℕ) × ((y : ℕ) × (cs ≡ xs ++ ((t, y) ∷ [])))))
snoc_cases [] = inl refl
snoc_cases ((p, x) ∷ cs) = elim (snoc_cases cs) [
  | inl e ↦ inr ([], (p, (x, ap (λ l. (p, x) ∷ l) e)))
  | inr (xs, (t, (y, e))) ↦ inr ((p, x) ∷ xs, (t, (y, ap (λ l. (p, x) ∷ l) e)))
]

-- The last node of a list, its link on set to `m`.
pub relink_last :
    (h : Heap ListNode) (b : ℕ) (xs : Cells) (t y n m : ℕ)
    → Distinct (xs ++ ((t, y) ∷ []))
    → Linked h b (xs ++ ((t, y) ∷ [])) n
    → (set_forward h t m ≡ ok (write h t (node m (last_or b xs) y)))
      × Linked (write h t (node m (last_or b xs) y)) b (xs ++ ((t, y) ∷ [])) m
relink_last h b xs t y n m d l =
    let (left, right) = Linked-split h b xs ((t, y) ∷ []) n l in
    let (dx, dt, apart) = Distinct-append xs ((t, y) ∷ []) d in
    let c = node m (last_or b xs) y in
    (
      set_forward-ok h t n (last_or b xs) y m right.1 right.0,
      Linked-append (write h t c) b xs ((t, y) ∷ []) m
          (frame-write h b xs t t c (ground (arith, apart t)) left)
          (at-write_self h t c, right.1, tt),
    )

-- The first node of a list, its link back set to `c`.
pub relink_first :
    (h : Heap ListNode) (b p x : ℕ) (ys : Cells) (n c : ℕ)
    → Distinct ((p, x) ∷ ys)
    → Linked h b ((p, x) ∷ ys) n
    → (set_backward h p c ≡ ok (write h p (node (first_or n ys) c x)))
      × Linked (write h p (node (first_or n ys) c x)) c ((p, x) ∷ ys) n
relink_first h b p x ys n c d l =
    let k = node (first_or n ys) c x in
    (
      set_backward-ok h p (first_or n ys) b x c l.1 l.0,
      (at-write_self h p k, l.1, frame-write h p ys n p k d.0 l.2),
    )

-- A node behind the last one is not the first.
pub first_or_keep :
    (n t y : ℕ) (xs ys : Cells)
    → first_or n ((xs ++ ((t, y) ∷ [])) ++ ys) ≡ first_or n (xs ++ ((t, y) ∷ []))
first_or_keep n t y [] ys = refl
first_or_keep n t y (x ∷ xs) ys = refl

pub ne_of_has : (p q : ℕ) (cs : Cells) → has p cs ≡ false → has q cs ≡ true → p ≢ q
ne_of_has p q cs e f g = ground (arith, e, f, rw g at e)

pub has-append_last : (t y : ℕ) (xs : Cells) → has t (xs ++ ((t, y) ∷ [])) ≡ true
has-append_last t y [] = ground arith
has-append_last t y ((p, x) ∷ xs) = ground (arith, has-append_last t y xs)
