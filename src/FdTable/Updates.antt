-- ===== src/FdTable/Updates.antt =====
-- The table as a map from descriptors to watchers, with its count.
use network_c_http.Base.{
  ℕ, zero, suc, ◌+◌, ◌-◌, ◌≤◌, ◌<◌, ◌≡◌, refl, ap, ◌∙◌, true, false, Option, none, some, List, [],
  ok, abort, arith, length, if◌then◌else◌, is_some, ◌⊎◌, inl, inr, ◌==◌, Option-cases,
}
use native.Mathlib.Decide.{dec_lt}
use network_c_http.Base.Cells.{Block, update, update_if, update_ne, update_self}
use network_c_http.FdTable.{
  FdTable, fdtable_max, fdtable_new, fdtable_init, fdtable_clear, fdtable_insert, fdtable_remove,
  fdtable_lookup, fdtable_free, fdtable_free_loop,
}
use network_c_http.FdTable.Registered.{
  registered, length-registered, registered-insert, registered-remove, registered_none,
}

module _ {W : Type 0} where
  abbrev pub descriptors : FdTable W → List ℕ
  descriptors t = registered t.entries.cell 0 fdtable_max

  pub record IsValid (t : FdTable W) : Type 0 where
    pub room : t.entries.size ≡ fdtable_max
    pub counted : t.count ≡ length (descriptors t)

  -- `t'` is `t` with the entry of `fd` replaced by `e`.
  pub record Replaces (t : FdTable W) (fd : ℕ) (e : Option W) (t' : FdTable W) : Type 0 where
    pub valid : IsValid t'
    pub entry : (j : ℕ) → t'.entries.cell j ≡ (if j == fd then e else t.entries.cell j)

  -- `FdTable_insert` of a descriptor below the table's size takes a free place: that entry is the
  -- watcher, every other is as before, and the count goes up by one. At a used place it fails its
  -- assertion.
  pub insert_lem :
      (t : FdTable W) (w : W) (fd : ℕ)
      → IsValid t
      → fd < fdtable_max
      → ((is_some (t.entries.cell fd) ≡ true) × (fdtable_insert t w fd ≡ abort))
        ⊎ ((t.entries.cell fd ≡ none)
            × ((t' : FdTable W) × (fdtable_insert t w fd ≡ ok t')
                × Replaces t fd (some w) t'
                × (t'.count ≡ t.count + 1)))
  unfolding fdtable_insert
  insert_lem t w fd v h = elim (Option-cases (t.entries.cell fd)) [
    | inl e ↦
        let more =
          registered-insert t.entries.cell fd w 0 fdtable_max (omega arith) (omega arith) e in
        let cap = length-registered t.entries.cell 0 fdtable_max in
        let t1 : FdTable W = record {
          count = t.count + 1;
          entries = record t.entries { cell = update t.entries.cell fd (some w) };
        } in
        inr (
          e,
          (
            t1,
            ground (arith, v.room, v.counted),
            record {
              valid = record { room = v.room; counted = omega (arith, v.counted) };
              entry = λ j. update_if t.entries.cell fd (some w) j;
            },
            refl,
          ),
        )
    | inr (a, e) ↦ inl (ap is_some e, ground (arith, v.room))
  ]

  -- `FdTable_remove` of a used descriptor frees its place, leaves every other entry, and the count
  -- goes down by one. At a free place it fails its assertion.
  pub remove_lem :
      (t : FdTable W) (fd : ℕ)
      → IsValid t
      → fd < fdtable_max
      → ((t.entries.cell fd ≡ none) × (fdtable_remove t fd ≡ abort))
        ⊎ ((is_some (t.entries.cell fd) ≡ true)
            × ((t' : FdTable W) × (fdtable_remove t fd ≡ ok t')
                × Replaces t fd none t'
                × (t'.count + 1 ≡ t.count)))
  unfolding fdtable_remove
  remove_lem t fd v h = elim (Option-cases (t.entries.cell fd)) [
    | inl e ↦ inl (e, ground (arith, v.room))
    | inr (a, e) ↦
        let used : is_some (t.entries.cell fd) ≡ true = ap is_some e in
        let less =
          registered-remove t.entries.cell fd 0 fdtable_max (omega arith) (omega arith) used in
        let cap = length-registered t.entries.cell 0 fdtable_max in
        let t1 : FdTable W = record {
          count = t.count - 1;
          entries = record t.entries { cell = update t.entries.cell fd none };
        } in
        inr (
          used,
          (
            t1,
            ground (arith, v.room, v.counted),
            record {
              valid = record { room = v.room; counted = omega (arith, v.counted) };
              entry = λ j. update_if t.entries.cell fd none j;
            },
            omega (arith, v.counted),
          ),
        )
  ]

  -- `FdTable_lookup` of a used descriptor is its watcher; of a free one it fails its assertion.
  pub lookup_lem :
      (t : FdTable W) (fd : ℕ)
      → IsValid t
      → fd < fdtable_max
      → fdtable_lookup t fd
        ≡ (if is_some (t.entries.cell fd) then ok (t.entries.cell fd) else abort)
  unfolding fdtable_lookup
  lookup_lem t fd v h = ground (arith, v.room)

  clear_lem :
      (rounds i : ℕ) (b : Block (Option W))
      → i + rounds ≤ b.size
      → (b' : Block (Option W)) × (fdtable_clear rounds i b ≡ ok b')
        × (b'.size ≡ b.size)
        × ((j : ℕ)
            → (j < i → b'.cell j ≡ b.cell j)
              × (i ≤ j → j < i + rounds → is_some (b'.cell j) ≡ false))
  unfolding fdtable_clear
  clear_lem zero i b h = (b, refl, refl, λ j. (λ p. refl, λ p q. absurd (omega arith)))
  clear_lem (suc rounds) i b h =
      let b1 : Block (Option W) = record b { cell = update b.cell i none } in
      let (b2, e, s, c) = clear_lem rounds (i + 1) b1 (omega arith) in
      (
        b2,
        ground (arith, e),
        s,
        λ j. (
          λ p. (c j).0 (omega arith) ∙ update_ne b.cell i j none (omega arith),
          λ p q. elim (dec_lt i j) [
            | yes far ↦ (c j).1 (omega arith) (omega arith)
            | no near ↦
                let same : j ≡ i = omega arith in
                let freed : b2.cell j ≡ none =
                  (c j).0 (omega arith) ∙ rw same (update_self b.cell i none) in
                ap is_some freed
          ],
        ),
      )

  -- `FdTable_new` makes a valid table in which every descriptor is free.
  pub new_lem :
      (uninitialised : ℕ → Option W)
      → (t : FdTable W) × (fdtable_new uninitialised ≡ ok t)
        × IsValid t
        × (t.count ≡ 0)
        × ((fd : ℕ) → fd < fdtable_max → is_some (t.entries.cell fd) ≡ false)
  unfolding fdtable_new fdtable_init
  new_lem uninitialised =
      let (b, e, s, c) =
        clear_lem fdtable_max 0 (record { size = fdtable_max; cell = uninitialised })
          (omega arith) in
      let none_used = registered_none b.cell 0 fdtable_max (λ j p q. (c j).1 p q) in
      (
        record { count = 0; entries = b },
        rw e,
        record { room = s; counted = rw none_used },
        refl,
        λ fd h. (c fd).1 (omega arith) (omega arith),
      )

  free_loop_lem :
      (rounds i : ℕ) (t : FdTable W)
      → IsValid t
      → i + rounds ≡ fdtable_max
      → ((j : ℕ) → j < i → is_some (t.entries.cell j) ≡ false)
      → (t' : FdTable W) × (fdtable_free_loop rounds i t ≡ ok t')
        × IsValid t'
        × ((j : ℕ) → j < fdtable_max → is_some (t'.entries.cell j) ≡ false)
  unfolding fdtable_free_loop
  free_loop_lem zero i t v h done = (t, refl, v, λ j p. done j (omega arith))
  free_loop_lem (suc rounds) i t v h done = elim (remove_lem t i v (omega arith)) [
    | inl (e, _) ↦
        let (t2, e2, v2, d2) =
          free_loop_lem rounds (i + 1) t v (omega arith) (λ j p. ground (arith, done j)) in
        (t2, ground (arith, v.room, e2), v2, d2)
    | inr (used, (t1, e1, r1, _)) ↦
        let (t2, e2, v2, d2) =
          free_loop_lem rounds (i + 1) t1 r1.valid (omega arith)
            (λ j p. ground (arith, done j, r1.entry j)) in
        (t2, ground (arith, v.room, e1, e2), v2, d2)
  ]

  -- `FdTable_free` removes every watcher: it fails no assertion, and leaves no descriptor in use.
  pub free_lem :
      (t : FdTable W)
      → IsValid t
      → (t' : FdTable W) × (fdtable_free t ≡ ok t') × (descriptors t' ≡ []) × (t'.count ≡ 0)
  unfolding fdtable_free
  free_lem t v =
      let (t', e, v', d) = free_loop_lem fdtable_max 0 t v refl (λ j p. absurd (omega arith)) in
      let none_used = registered_none t'.entries.cell 0 fdtable_max (λ j p q. d j (omega arith)) in
      (t', e, none_used, v'.counted ∙ ap length none_used)
