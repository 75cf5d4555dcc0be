-- ===== src/EventTable/Lifetime.antt =====
-- Histories of a table: entries handed out, and given back once each by their holder.
use network_c_http.Base.{
  ℕ, ◌≤◌, ◌<◌, ◌≡◌, not, List, [], ◌∷◌, ok, abort, arith, length, ◌==◌, same_ok, ◌⊎◌, inl, inr,
}
use mathlib.Core.Path.{subst}
use native.Mathlib.Decide.{dec_lt}
use network_c_http.EventTable.{
  EventTable, evt_max, event_table_new, event_table_get_entry, event_table_release_entry,
  event_table_number_in_use, event_table_has_outstanding_events, freelist_size, freelist_is_full,
}
use network_c_http.EventTable.Slots
use network_c_http.EventTable.Entries.{
  occurs, erase, occurs-erase, Owns, event_table_new-Owns, get_entry-Owns, release_entry-Owns,
}

-- A table reached from `event_table_new` with the entries in use, the newest first.
pub data Reached : EventTable → List ℕ → Type 0 where
  new :
      (buffer my_index : ℕ → ℕ) {t : EventTable}
      → event_table_new buffer my_index ≡ ok t
      → Reached t []
  get :
      {t : EventTable} {live : List ℕ} {t' : EventTable} {p : ℕ}
      → Reached t live
      → event_table_get_entry t ≡ ok (t', p)
      → Reached t' (p ∷ live)
  release :
      {t : EventTable} {live : List ℕ} (p : ℕ) {t' : EventTable}
      → Reached t live
      → 0 < occurs p live
      → event_table_release_entry t p ≡ ok t'
      → Reached t' (erase p live)

get-abort :
    (t : EventTable) (live : List ℕ)
    → Owns t live
    → length live ≡ evt_max
    → event_table_get_entry t ≡ abort
unfolding event_table_get_entry
get-abort t live o e = rw (Slots.freelist_get-abort t.free_list (omega arith))

Reached-Owns : {t : EventTable} {live : List ℕ} → Reached t live → Owns t live
Reached-Owns (new buffer my_index e) =
    let (t', e', o) = event_table_new-Owns buffer my_index in
    subst (λ z. Owns z []) (same_ok e' e) o
Reached-Owns (get {t} {live} {t'} {p} u e) = elim (dec_lt (length live) evt_max) [
  | yes h ↦
      let (t1, p1, e1, o) = get_entry-Owns t live (Reached-Owns u) h in
      subst (λ (z : EventTable × ℕ). Owns z.0 (z.1 ∷ live)) (same_ok e1 e) o
  | no h ↦
      let full : length live ≡ evt_max = omega (arith, (Reached-Owns u).counted) in
      cc (get-abort t live (Reached-Owns u) full)
]
Reached-Owns (release {t} {live} p u h e) =
    let (t1, e1, o) = release_entry-Owns t live p (Reached-Owns u) h in
    subst (λ z. Owns z (erase p live)) (same_ok e1 e) o

-- An entry that `event_table_get_entry` hands out lies in the table, is held by nobody else at that
-- time, and is its own `my_index`.
pub get_entry-fresh :
    {t : EventTable} {live : List ℕ} (t' : EventTable) (p : ℕ)
    → Reached t live
    → event_table_get_entry t ≡ ok (t', p)
    → (p < evt_max) × (occurs p live ≡ 0) × (t'.my_index.cell p ≡ p)
unfolding occurs
get_entry-fresh t' p u e = let o = Reached-Owns (get u e) in ground (arith, o.once p, o.own_index p)

-- `event_table_get_entry` fails its assertion exactly when `EVT_MAX` entries are in use. Otherwise
-- it hands one out.
pub get_entry-total :
    {t : EventTable} {live : List ℕ}
    → Reached t live
    → ((length live ≡ evt_max) × (event_table_get_entry t ≡ abort))
      ⊎ ((length live < evt_max)
          × ((t' : EventTable) × (p : ℕ) × (event_table_get_entry t ≡ ok (t', p))))
get_entry-total {t} {live} u = elim (dec_lt (length live) evt_max) [
  | yes h ↦ let (t1, p1, e1, o) = get_entry-Owns t live (Reached-Owns u) h in inr (h, (t1, p1, e1))
  | no h ↦
      let full : length live ≡ evt_max = omega (arith, (Reached-Owns u).counted) in
      inl (full, get-abort t live (Reached-Owns u) full)
]

-- The holder of an entry can always give it back, and the entry is then free.
pub release_entry-total :
    {t : EventTable} {live : List ℕ} (p : ℕ)
    → Reached t live
    → 0 < occurs p live
    → (t' : EventTable) × (event_table_release_entry t p ≡ ok t')
      × Reached t' (erase p live)
      × (occurs p (Slots.contents t'.free_list) ≡ 1)
release_entry-total {t} {live} p u h =
    let (t1, e1, o) = release_entry-Owns t live p (Reached-Owns u) h in
    (
      t1,
      e1,
      release p u h e1,
      ground (arith, (Reached-Owns u).once p, o.once p, occurs-erase p p live h),
    )

-- `event_table_number_in_use` is the number of entries in use, at most `EVT_MAX`, and
-- `event_table_has_outstanding_events` says whether there is one.
pub number_in_use-length :
    {t : EventTable} {live : List ℕ}
    → Reached t live
    → (event_table_number_in_use t ≡ length live)
      × (length live ≤ evt_max)
      × (event_table_has_outstanding_events t ≡ not (length live == 0))
unfolding event_table_number_in_use event_table_has_outstanding_events freelist_size
    freelist_is_full
number_in_use-length u = let o = Reached-Owns u in ground (arith, o.counted, o.free.max_entries)
