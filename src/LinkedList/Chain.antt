-- ===== src/LinkedList/Chain.antt =====
-- The nodes of a list: their addresses, their items and the links between them.
use network_c_http.Base.{
  ℕ, suc, ◌≡◌, ◌≢◌, refl, sym, ap, Bool, true, false, ◌||◌, none, some, List, [], ◌∷◌, ◌++◌, arith,
  length, ◌==◌,
}
use network_c_http.Base.Heap.{Heap, null, at, write, at-write, erase, at-erase}
use network_c_http.LinkedList.{ListNode, LinkedList}

-- address and item of each node, in order
abbrev pub Cells : Type 0
Cells = List (ℕ × ℕ)

abbrev pub has : ℕ → Cells → Bool
has a [] = false
has a ((p, _) ∷ cs) = (a == p) || has a cs

abbrev pub items : Cells → List ℕ
items [] = []
items ((p, x) ∷ cs) = x ∷ items cs

-- the address of the first node, or `n`
abbrev pub first_or : ℕ → Cells → ℕ
first_or n [] = n
first_or n ((p, _) ∷ cs) = p

-- the address of the last node, or `b`
abbrev pub last_or : ℕ → Cells → ℕ
last_or b [] = b
last_or b ((p, _) ∷ cs) = last_or p cs

abbrev pub node : ℕ → ℕ → ℕ → ListNode
node f b x = record { forward = f; backward = b; item = x }

-- The nodes `cs` are linked one to the next; the first one's link back is `b` and the last one's
-- link on is `n`.
abbrev pub Linked : Heap ListNode → ℕ → Cells → ℕ → Type 0
Linked h b [] n = Unit
Linked h b ((p, x) ∷ cs) n =
    (at h p ≡ some (node (first_or n cs) b x)) × (p ≢ null) × Linked h p cs n

abbrev pub Distinct : Cells → Type 0
Distinct [] = Unit
Distinct ((p, x) ∷ cs) = (has p cs ≡ false) × Distinct cs

pub record IsValid (l : LinkedList) (cs : Cells) : Type 0 where
  pub counted : l.count ≡ length cs
  pub at_head : l.head ≡ first_or null cs
  pub at_tail : l.tail ≡ last_or null cs
  pub linked : Linked l.heap null cs null
  pub distinct : Distinct cs

pub has-append : (a : ℕ) (xs ys : Cells) → has a (xs ++ ys) ≡ (has a xs || has a ys)
has-append a [] ys = refl
has-append a (x ∷ xs) ys = ground (arith, has-append a xs ys)

pub items-append : (xs ys : Cells) → items (xs ++ ys) ≡ items xs ++ items ys
items-append [] ys = refl
items-append ((p, x) ∷ xs) ys = ap (λ l. x ∷ l) (items-append xs ys)

pub length-items : (cs : Cells) → length (items cs) ≡ length cs
length-items [] = refl
length-items (c ∷ cs) = ap suc (length-items cs)

pub last_or-append : (b p x : ℕ) (xs ys : Cells) → last_or b (xs ++ ((p, x) ∷ ys)) ≡ last_or p ys
last_or-append b p x [] ys = refl
last_or-append b p x ((q, y) ∷ xs) ys = last_or-append q p x xs ys

pub first_or-append : (n : ℕ) (xs ys : Cells) → first_or n (xs ++ ys) ≡ first_or (first_or n ys) xs
first_or-append n [] ys = refl
first_or-append n (x ∷ xs) ys = refl

-- A change outside of the nodes keeps the links.
pub frame :
    (h h' : Heap ListNode) (b : ℕ) (cs : Cells) (n : ℕ)
    → ((a : ℕ) → has a cs ≡ true → at h' a ≡ at h a)
    → Linked h b cs n
    → Linked h' b cs n
frame h h' b [] n same l = tt
frame h h' b ((p, x) ∷ cs) n same l =
    (ground (arith, same p, l.0), l.1, frame h h' p cs n (λ a e. same a (ground arith)) l.2)

pub frame-write :
    (h : Heap ListNode) (b : ℕ) (cs : Cells) (n q : ℕ) (c : ListNode)
    → has q cs ≡ false
    → Linked h b cs n
    → Linked (write h q c) b cs n
frame-write h b cs n q c out l =
    frame h (write h q c) b cs n (λ a e. ground (arith, at-write h q c a)) l

pub frame-erase :
    (h : Heap ListNode) (b : ℕ) (cs : Cells) (n q : ℕ)
    → has q cs ≡ false
    → Linked h b cs n
    → Linked (erase h q) b cs n
frame-erase h b cs n q out l = frame h (erase h q) b cs n (λ a e. ground (arith, at-erase h q a)) l

-- Links of two parts are the links of the whole.
pub Linked-split :
    (h : Heap ListNode) (b : ℕ) (xs ys : Cells) (n : ℕ)
    → Linked h b (xs ++ ys) n
    → Linked h b xs (first_or n ys) × Linked h (last_or b xs) ys n
Linked-split h b [] ys n l = (tt, l)
Linked-split h b ((p, x) ∷ xs) ys n l =
    let (left, right) = Linked-split h p xs ys n l.2 in
    ((rw (sym (first_or-append n xs ys)) l.0, l.1, left), right)

pub Linked-append :
    (h : Heap ListNode) (b : ℕ) (xs ys : Cells) (n : ℕ)
    → Linked h b xs (first_or n ys)
    → Linked h (last_or b xs) ys n
    → Linked h b (xs ++ ys) n
Linked-append h b [] ys n l r = r
Linked-append h b ((p, x) ∷ xs) ys n l r =
    (rw (first_or-append n xs ys) l.0, l.1, Linked-append h p xs ys n l.2 r)

pub Distinct-append :
    (xs ys : Cells)
    → Distinct (xs ++ ys)
    → Distinct xs × Distinct ys × ((a : ℕ) → has a xs ≡ true → has a ys ≡ false)
Distinct-append [] ys d = (tt, d, λ a e. cc)
Distinct-append ((p, x) ∷ xs) ys d =
    let (dx, dy, apart) = Distinct-append xs ys d.1 in
    (
      (ground (arith, d.0, has-append p xs ys), dx),
      dy,
      λ a e. ground (arith, d.0, has-append p xs ys, apart a),
    )

pub Distinct-join :
    (xs ys : Cells)
    → Distinct xs
    → Distinct ys
    → ((a : ℕ) → has a xs ≡ true → has a ys ≡ false)
    → Distinct (xs ++ ys)
Distinct-join [] ys dx dy apart = dy
Distinct-join ((p, x) ∷ xs) ys dx dy apart = (
  ground (arith, dx.0, has-append p xs ys, apart p),
  Distinct-join xs ys dx.1 dy (λ a e. apart a (ground arith)),
)

-- An address that is not in use is no node's, and neither is NULL.
pub has-fresh :
    (h : Heap ListNode) (b : ℕ) (cs : Cells) (n q : ℕ)
    → at h q ≡ none
    → Linked h b cs n
    → has q cs ≡ false
has-fresh h b [] n q e l = refl
has-fresh h b ((p, x) ∷ cs) n q e l = ground (arith, l.0, has-fresh h p cs n q e l.2)

pub has-null :
    (h : Heap ListNode) (b : ℕ) (cs : Cells) (n : ℕ) → Linked h b cs n → has null cs ≡ false
has-null h b [] n l = refl
has-null h b ((p, x) ∷ cs) n l = ground (arith, l.1, has-null h p cs n l.2)
