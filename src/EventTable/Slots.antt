-- ===== src/EventTable/Slots.antt =====
-- The free list as a queue of at most `EVT_MAX` indices.
use network_c_http.Base.{
  ℕ, zero, suc, ◌+◌, ◌-◌, ◌%◌, ◌≤◌, ◌<◌, ◌≡◌, refl, sym, ap, ◌∙◌, List, [], ◌∷◌, ◌++◌, ok, abort,
  arith, length, append_assoc, append-nil,
}
use network_c_http.Base.Modulo.{mod_cases}
use network_c_http.Base.Cells.{update}
use network_c_http.Base.Window.{window, length-window, window_of_pos, window-update}
use network_c_http.EventTable.{
  FreeList, evt_max, freelist_add, freelist_get, freelist_fill, freelist_init,
}

pub record IsValid (fl : FreeList) : Type 0 where
  pub max_entries : fl.max_entries ≡ evt_max
  pub modulo_max : fl.modulo_max ≡ evt_max + 1
  pub room : fl.buffer.size ≡ evt_max + 1
  pub rdix_in : fl.rdix < evt_max + 1
  pub count_in : fl.count ≤ evt_max
  pub wrix_is : fl.wrix ≡ (fl.rdix + fl.count) % (evt_max + 1)

-- The free indices, the next to be handed out first.
abbrev pub contents : FreeList → List ℕ
contents fl = window (evt_max + 1) fl.buffer.cell fl.rdix fl.count

pub length-contents : (fl : FreeList) → length (contents fl) ≡ fl.count
length-contents fl = length-window (evt_max + 1) fl.buffer.cell fl.rdix fl.count

abbrev added : FreeList → ℕ → FreeList
added fl x = record fl {
  count = fl.count + 1;
  buffer = record fl.buffer { cell = update fl.buffer.cell fl.wrix x };
  wrix = (fl.wrix + 1) % (evt_max + 1);
}

contents-added :
    (fl : FreeList) (x : ℕ)
    → IsValid fl
    → fl.count < evt_max
    → contents (added fl x) ≡ contents fl ++ (x ∷ [])
contents-added fl x v p =
    let e : fl.count + 1 ≡ suc fl.count = omega arith in
    ap (window (evt_max + 1) (update fl.buffer.cell fl.wrix x) fl.rdix) e
    ∙ window-update (evt_max + 1) fl.buffer.cell fl.rdix x fl.count fl.wrix v.rdix_in (omega arith)
        v.wrix_is

-- Below the limit `freelist_add` puts the element at the end.
pub freelist_add-ok :
    (fl : FreeList) (x : ℕ)
    → IsValid fl
    → fl.count < evt_max
    → (fl' : FreeList) × (freelist_add fl x ≡ ok fl')
      × IsValid fl'
      × (fl'.count ≡ fl.count + 1)
      × (contents fl' ≡ contents fl ++ (x ∷ []))
unfolding freelist_add
freelist_add-ok fl x v p = (
  added fl x,
  ground arith,
  record {
    max_entries = v.max_entries;
    modulo_max = v.modulo_max;
    room = v.room;
    rdix_in = v.rdix_in;
    count_in = omega arith;
    wrix_is = omega (
      arith,
      v.wrix_is,
      mod_cases (fl.rdix + fl.count) (evt_max + 1) (omega arith),
      mod_cases (fl.wrix + 1) (evt_max + 1) (omega arith),
      mod_cases (fl.rdix + (fl.count + 1)) (evt_max + 1) (omega arith),
    );
  },
  refl,
  contents-added fl x v p,
)

pub freelist_add-abort :
    (fl : FreeList) (x : ℕ) → IsValid fl → fl.count ≡ evt_max → freelist_add fl x ≡ abort
unfolding freelist_add
freelist_add-abort fl x v e = ground arith

abbrev taken : FreeList → FreeList
taken fl = record fl { count = fl.count - 1; rdix = (fl.rdix + 1) % (evt_max + 1) }

-- A list that is not empty hands out its first element.
pub freelist_get-ok :
    (fl : FreeList)
    → IsValid fl
    → 0 < fl.count
    → (fl' : FreeList) × (x : ℕ) × (freelist_get fl ≡ ok (fl', x))
      × IsValid fl'
      × (contents fl ≡ x ∷ contents fl')
unfolding freelist_get
freelist_get-ok fl v p = (
  taken fl,
  fl.buffer.cell fl.rdix,
  ground arith,
  record {
    max_entries = v.max_entries;
    modulo_max = v.modulo_max;
    room = v.room;
    rdix_in = omega arith;
    count_in = omega arith;
    wrix_is = omega (
      arith,
      v.wrix_is,
      mod_cases (fl.rdix + fl.count) (evt_max + 1) (omega arith),
      mod_cases (fl.rdix + 1) (evt_max + 1) (omega arith),
      mod_cases ((fl.rdix + 1) % (evt_max + 1) + (fl.count - 1)) (evt_max + 1) (omega arith),
    );
  },
  window_of_pos (evt_max + 1) fl.buffer.cell fl.rdix fl.count v.rdix_in p,
)

pub freelist_get-abort : (fl : FreeList) → fl.count ≡ 0 → freelist_get fl ≡ abort
unfolding freelist_get
freelist_get-abort fl e = ground arith

-- The indices `i`, `i + 1`, … of `n` rounds of a loop.
unfoldable pub upto : ℕ → ℕ → List ℕ
upto i zero = []
upto i (suc n) = i ∷ upto (i + 1) n

-- The loop of `freelist_init` puts its indices at the end, in order.
pub freelist_fill-ok :
    (rounds i : ℕ) (fl : FreeList)
    → IsValid fl
    → fl.count + rounds ≤ evt_max
    → (fl' : FreeList) × (freelist_fill rounds i fl ≡ ok fl')
      × IsValid fl'
      × (contents fl' ≡ contents fl ++ upto i rounds)
unfolding freelist_fill upto
freelist_fill-ok zero i fl v p = (fl, refl, v, sym (append-nil _))
freelist_fill-ok (suc rounds) i fl v p =
    let (f1, e1, v1, n1, c1) = freelist_add-ok fl i v (omega arith) in
    let (f2, e2, v2, c2) = freelist_fill-ok rounds (i + 1) f1 v1 (omega arith) in
    (f2, rw e1 e2, v2, c2 ∙ rw c1 (append_assoc (contents fl) (i ∷ []) (upto (i + 1) rounds)))

-- After `freelist_init` every index below `EVT_MAX` is free, the lowest handed out first.
pub freelist_init-ok :
    (fl : FreeList)
    → fl.buffer.size ≡ evt_max + 1
    → (fl' : FreeList) × (freelist_init fl ≡ ok fl') × IsValid fl' × (contents fl' ≡ upto 0 evt_max)
unfolding freelist_init
freelist_init-ok fl e =
    freelist_fill-ok evt_max 0 _
      (record {
        max_entries = refl;
        modulo_max = refl;
        room = e;
        rdix_in = omega arith;
        count_in = omega arith;
        wrix_is = refl;
      })
      (omega arith)
