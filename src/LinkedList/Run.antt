-- ===== src/LinkedList/Run.antt =====
-- Any sequence of calls on a list that nothing else touches, beside plain lists of items.
use network_c_http.Base.{
  ℕ, ◌≡◌, refl, ap, List, [], ◌∷◌, ◌++◌, arith, length, Outcome, ok, ◌>>=◌, if◌then◌else◌, ◌==◌,
  ◌⊎◌, inl, inr, Bool-cases,
}
use network_c_http.Base.Heap.{null, Allocator}
use network_c_http.LinkedList.{
  ListNode, LinkedList, list_size, list_find, list_safe_deinit, list_first, list_last,
  list_add_front, list_add_back, list_remove_first, list_remove_last, list_itr_remove,
}
use network_c_http.LinkedList.Chain.{Cells, items, IsValid}
use network_c_http.LinkedList.Walk.{find_cell}

-- The calls. `take_out x` looks for `x` by `List_find` and removes the node that it finds by
-- `List_itr_remove`, as http_server.c does; `deinit` is `List_safe_deinit`.
pub data ListOp : Type 0 where
  add_front : ℕ → ListOp
  add_back : ℕ → ListOp
  remove_first : ListOp
  remove_last : ListOp
  take_out : ℕ → ListOp
  first : ListOp
  last : ListOp
  size : ListOp
  deinit : ListOp

-- A call on the code's list: the list after it, and what the caller gets.
unfoldable pub list_op : Allocator ListNode → LinkedList → ListOp → Outcome (LinkedList × List ℕ)
list_op al l (add_front x) = do l' ← list_add_front al l x; ok (l', [])
list_op al l (add_back x) = do l' ← list_add_back al l x; ok (l', [])
list_op al l remove_first = do (l', x) ← list_remove_first l; ok (l', x ∷ [])
list_op al l remove_last = do (l', x) ← list_remove_last l; ok (l', x ∷ [])
list_op al l (take_out x) = do
  p ← list_find l x
  if p == null then ok (l, []) else do l' ← list_itr_remove l p; ok (l', [])
list_op al l first = do x ← list_first l; ok (l, x ∷ [])
list_op al l last = do x ← list_last l; ok (l, x ∷ [])
list_op al l size = ok (l, list_size l ∷ [])
list_op al l deinit = list_safe_deinit l

unfoldable pub list_ops :
    Allocator ListNode → LinkedList → List ListOp → Outcome (LinkedList × List ℕ)
unfolding list_op
list_ops al l [] = ok (l, [])
list_ops al l (o ∷ os) = do
  (l1, got) ← list_op al l o
  (l2, later) ← list_ops al l1 os
  ok (l2, got ++ later)

-- The same calls on a plain list of items.
abbrev pub first_item : List ℕ → ℕ
first_item [] = null
first_item (x ∷ xs) = x

abbrev pub last_item : ℕ → List ℕ → ℕ
last_item x [] = x
last_item x (y ∷ ys) = last_item y ys

abbrev pub but_last : ℕ → List ℕ → List ℕ
but_last x [] = []
but_last x (y ∷ ys) = x ∷ but_last y ys

abbrev pub without : ℕ → List ℕ → List ℕ
without x [] = []
without x (y ∷ ys) = if y == x then ys else y ∷ without x ys

abbrev pub plain_op : List ℕ → ListOp → List ℕ × List ℕ
plain_op xs (add_front x) = (x ∷ xs, [])
plain_op xs (add_back x) = (xs ++ (x ∷ []), [])
plain_op [] remove_first = ([], null ∷ [])
plain_op (x ∷ xs) remove_first = (xs, x ∷ [])
plain_op [] remove_last = ([], null ∷ [])
plain_op (x ∷ xs) remove_last = (but_last x xs, last_item x xs ∷ [])
plain_op xs (take_out x) = (without x xs, [])
plain_op xs first = (xs, first_item xs ∷ [])
plain_op xs last = (xs, last_item null xs ∷ [])
plain_op xs size = (xs, length xs ∷ [])
plain_op xs deinit = ([], xs)

abbrev pub plain_ops : List ℕ → List ListOp → List ℕ × List ℕ
plain_ops xs [] = (xs, [])
plain_ops xs (o ∷ os) =
    let (xs1, got) = plain_op xs o in let (xs2, later) = plain_ops xs1 os in (xs2, got ++ later)

-- The list `l` stands for the items `xs`.
pub record StandsFor (l : LinkedList) (xs : List ℕ) : Type 0 where
  pub cells : Cells
  pub valid : IsValid l cells
  pub holds : items cells ≡ xs

-- A call does what it does on plain lists.
pub record Refines (r : Outcome (LinkedList × List ℕ)) (plain : List ℕ × List ℕ) : Type 0 where
  pub after : LinkedList
  pub runs : r ≡ ok (after, plain.1)
  pub stands : StandsFor after plain.0

-- The node that a search finds stands between two parts of the list.
pub record Found (x : ℕ) (cs : Cells) : Type 0 where
  pub left : Cells
  pub place : ℕ
  pub right : Cells
  pub split : cs ≡ left ++ ((place, x) ∷ right)
  pub found : find_cell (λ y. y == x) cs ≡ place
  pub rest : without x (items cs) ≡ items (left ++ right)

pub search_cases :
    (x : ℕ) (cs : Cells)
    → (find_cell (λ y. y == x) cs ≡ null) × (without x (items cs) ≡ items cs) ⊎ Found x cs
search_cases x [] = inl (refl, refl)
search_cases x ((p, y) ∷ cs) = elim (Bool-cases (y == x)) [
  | inl e ↦ inr record {
    left = [];
    place = p;
    right = cs;
    split = ap (λ z. (p, z) ∷ cs) (ground (arith, e));
    found = rw e refl;
    rest = rw e refl;
  }
  | inr e ↦ elim (search_cases x cs) [
    | inl (f, w) ↦ inl (rw e f, rw e (ap (λ l. y ∷ l) w))
    | inr f ↦ inr record {
      left = (p, y) ∷ f.left;
      place = f.place;
      right = f.right;
      split = ap (λ l. (p, y) ∷ l) f.split;
      found = rw e f.found;
      rest = rw e (ap (λ l. y ∷ l) f.rest);
    }
  ]
]

but_last_snoc : (x : ℕ) (xs : List ℕ) (y : ℕ) → but_last x (xs ++ (y ∷ [])) ≡ x ∷ xs
but_last_snoc x [] y = refl
but_last_snoc x (z ∷ zs) y = ap (λ l. x ∷ l) (but_last_snoc z zs y)

pub last_item_snoc : (x : ℕ) (xs : List ℕ) (y : ℕ) → last_item x (xs ++ (y ∷ [])) ≡ y
last_item_snoc x [] y = refl
last_item_snoc x (z ∷ zs) y = last_item_snoc z zs y

-- The plain removal of the last item, of a list that ends in it.
pub remove_last_snoc : (xs : List ℕ) (y : ℕ) → plain_op (xs ++ (y ∷ [])) remove_last ≡ (xs, y ∷ [])
remove_last_snoc [] y = refl
remove_last_snoc (x ∷ xs) y = rw (but_last_snoc x xs y, last_item_snoc x xs y) refl
