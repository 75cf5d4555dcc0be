-- ===== src/FunctorList/Refine.antt =====
-- The ready list is the queue of the entries that it holds.
use network_c_http.Base.{
  ℕ, suc, ◌+◌, ◌-◌, ◌%◌, ◌≤◌, ◌<◌, ◌≡◌, ◌≢◌, ◌↔◌, refl, sym, List, [], ◌∷◌, ◌++◌, ap, ◌∙◌, Outcome,
  abort, ok, fault, arith, length,
}
use native.Mathlib.Decide.{dec_lt}
use network_c_http.Base.Modulo.{mod_cases}
use network_c_http.Base.Cells.{update}
use network_c_http.Base.Window.{window, length-window, window_of_pos, window-update}
use network_c_http.FunctorList.{
  FunctorList, functor_list_add, functor_list_remove, functor_list_size, ready_list_max,
}
use network_c_http.FunctorList.Queue.{enqueue, dequeue}

-- The arithmetic of the two indices.
abbrev count : ℕ → ℕ → ℕ → ℕ
count c h t = (h + c - t) % c

full_iff : (c h t : ℕ) → h < c → t < c → ((h + 1) % c ≡ t) ↔ (count c h t + 1 ≡ c)
full_iff c h t a b =
    let m = mod_cases (h + 1) c (omega arith) in
    let k = mod_cases (h + c - t) c (omega arith) in (λ e. omega arith, λ e. omega arith)

count_next :
    (c h t : ℕ) → h < c → t < c → (h + 1) % c ≢ t → count c ((h + 1) % c) t ≡ count c h t + 1
count_next c h t a b ne = omega (
  arith,
  mod_cases (h + 1) c (omega arith),
  mod_cases (h + c - t) c (omega arith),
  mod_cases ((h + 1) % c + c - t) c (omega arith),
)

slot : (c h t : ℕ) → h < c → t < c → (h + 1) % c ≡ ((t + 1) % c + count c h t) % c
slot c h t a b = omega (
  arith,
  mod_cases (h + 1) c (omega arith),
  mod_cases (t + 1) c (omega arith),
  mod_cases (h + c - t) c (omega arith),
  mod_cases ((t + 1) % c + count c h t) c (omega arith),
)

module _ {F : Type 0} where
  pub record IsValid (l : FunctorList F) : Type 0 where
    pub room : l.capacity < l.list.size
    pub small : l.capacity ≤ ready_list_max
    pub head_in : l.head < l.capacity
    pub tail_in : l.tail_plus < l.capacity

  -- The entries, oldest first: they begin behind `tail_plus`.
  abbrev pub contents : FunctorList F → List F
  contents l = window l.capacity l.list.cell ((l.tail_plus + 1) % l.capacity) (functor_list_size l)

  size-lt : {l : FunctorList F} → IsValid l → functor_list_size l < l.capacity
  unfolding functor_list_size
  size-lt v = omega arith

  -- `functor_list_size` is the number of entries.
  pub functor_list_size-length : (l : FunctorList F) → functor_list_size l ≡ length (contents l)
  functor_list_size-length l =
      sym (
        length-window l.capacity l.list.cell ((l.tail_plus + 1) % l.capacity) (functor_list_size l))

  add-abort :
      (l : FunctorList F) (x : F)
      → IsValid l
      → functor_list_size l + 1 ≡ l.capacity
      → functor_list_add l x ≡ abort
  unfolding functor_list_add functor_list_size
  add-abort l x v e =
      ground (arith, (full_iff l.capacity l.head l.tail_plus v.head_in v.tail_in).1 e)

  -- The list after an addition that fits.
  abbrev added : FunctorList F → F → FunctorList F
  added l x =
      let tmp = (l.head + 1) % l.capacity in
      record l { head = tmp; list = record l.list { cell = update l.list.cell tmp x } }

  add-ok :
      (l : FunctorList F) (x : F)
      → IsValid l
      → functor_list_size l + 1 < l.capacity
      → functor_list_add l x ≡ ok (added l x)
  unfolding functor_list_add functor_list_size
  add-ok l x v e = ground (arith, (full_iff l.capacity l.head l.tail_plus v.head_in v.tail_in).0)

  added-IsValid : (l : FunctorList F) (x : F) → IsValid l → IsValid (added l x)
  added-IsValid l x v = omega arith

  contents-added :
      (l : FunctorList F) (x : F)
      → IsValid l
      → functor_list_size l + 1 < l.capacity
      → contents (added l x) ≡ contents l ++ (x ∷ [])
  unfolding functor_list_size
  contents-added l x v e =
      let c = l.capacity in
      let next =
        count_next c l.head l.tail_plus v.head_in v.tail_in
          (λ q. omega (arith, (full_iff c l.head l.tail_plus v.head_in v.tail_in).0 q)) in
      let suc_next : functor_list_size (added l x) ≡ suc (functor_list_size l) = omega arith in
      ap (window c (added l x).list.cell ((l.tail_plus + 1) % c)) suc_next
      ∙ window-update c l.list.cell ((l.tail_plus + 1) % c) x (functor_list_size l) _ (omega arith)
          (omega arith) (slot c l.head l.tail_plus v.head_in v.tail_in)

  -- How a call on the list answers a call on the queue.
  abbrev pub Refines : FunctorList F → Outcome (FunctorList F) → Outcome (List F) → Type 0
  Refines l (ok l') r = IsValid l' × (l'.capacity ≡ l.capacity) × (r ≡ ok (contents l'))
  Refines l abort r = r ≡ abort
  Refines l fault r = ⊥

  pub add-Refines :
      (l : FunctorList F) (x : F)
      → IsValid l
      → Refines l (functor_list_add l x) (enqueue l.capacity (contents l) x)
  unfolding enqueue
  add-Refines l x v = elim (dec_lt (functor_list_size l + 1) l.capacity) [
    | yes p ↦ rw (add-ok l x v p) (
      added-IsValid l x v,
      refl,
      ground (arith, contents-added l x v p, functor_list_size-length l),
    )
    | no p ↦
        rw (add-abort l x v (omega (arith, size-lt v))) (ground (arith, functor_list_size-length l))
  ]

  remove-abort :
      (l : FunctorList F) → IsValid l → functor_list_size l ≡ 0 → functor_list_remove l ≡ abort
  unfolding functor_list_remove
  remove-abort l v e = ground arith

  abbrev removed : FunctorList F → FunctorList F
  removed l = record l { tail_plus = (l.tail_plus + 1) % l.capacity }

  remove-ok :
      (l : FunctorList F)
      → IsValid l
      → 0 < functor_list_size l
      → functor_list_remove l ≡ ok (removed l, l.list.cell ((l.tail_plus + 1) % l.capacity))
  unfolding functor_list_remove
  remove-ok l v e = ground arith

  removed-IsValid : (l : FunctorList F) → IsValid l → IsValid (removed l)
  removed-IsValid l v = omega arith

  size-removed :
      (l : FunctorList F)
      → IsValid l
      → 0 < functor_list_size l
      → functor_list_size (removed l) ≡ functor_list_size l - 1
  unfolding functor_list_size
  size-removed l v p =
      let c = l.capacity in
      omega (
        arith,
        mod_cases (l.tail_plus + 1) c (omega arith),
        mod_cases (l.head + c - l.tail_plus) c (omega arith),
        mod_cases (l.head + c - (l.tail_plus + 1) % c) c (omega arith),
      )

  contents_of_pos :
      (l : FunctorList F)
      → IsValid l
      → 0 < functor_list_size l
      → contents l ≡ l.list.cell ((l.tail_plus + 1) % l.capacity) ∷ contents (removed l)
  contents_of_pos l v p =
      let c = l.capacity in
      let h = (l.tail_plus + 1) % c in
      window_of_pos c l.list.cell h (functor_list_size l) (omega arith) p
      ∙ ap (λ n. l.list.cell h ∷ window c l.list.cell ((h + 1) % c) n) (sym (size-removed l v p))

  -- How a removal answers a removal from the queue.
  abbrev pub Yields : FunctorList F → Outcome (FunctorList F × F) → Outcome (List F × F) → Type 0
  Yields l (ok (l', x)) r = IsValid l' × (l'.capacity ≡ l.capacity) × (r ≡ ok (contents l', x))
  Yields l abort r = r ≡ abort
  Yields l fault r = ⊥

  pub remove-Yields :
      (l : FunctorList F) → IsValid l → Yields l (functor_list_remove l) (dequeue (contents l))
  unfolding dequeue
  remove-Yields l v = elim (dec_lt 0 (functor_list_size l)) [
    | yes p ↦ rw (remove-ok l v p, contents_of_pos l v p) (removed-IsValid l v, refl, refl)
    | no p ↦
        let e : functor_list_size l ≡ 0 = omega arith in
        rw (remove-abort l v e) (ap dequeue (ap (window _ l.list.cell _) e))
  ]
