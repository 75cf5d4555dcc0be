-- ===== src/Cbuffer/Texts.antt =====
-- Sequences of calls on a character buffer.
use network_c_http.Base.{
  ℕ, ◌+◌, ◌*◌, ◌≤◌, ◌<◌, ◌≡◌, refl, sym, ap, ◌∙◌, List, [], ◌∷◌, ◌++◌, append-nil, append_assoc,
  arith, length, length-append, All, Outcome, ok, abort, fault, ◌>>=◌,
}
use network_c_http.Base.Cells.{update, segment, length-segment}
use network_c_http.Cbuffer.{
  Cbuffer, common_strategy, min_of_two, max_of_two, cbuffer_new, cbuffer_data, cbuffer_append,
  cbuffer_from_cstring, cbuffer_clear, cbuffer_move,
}
use network_c_http.Cbuffer.Growth.{IsValid, contents, Fits, Appends, append_lem}

pub data-contents : (b : Cbuffer) → IsValid b → cbuffer_data b ≡ ok (contents b)
unfolding cbuffer_data
data-contents b v = ground (arith, v.room, v.below)

-- What making a buffer of a string may end with.
unfoldable pub Holds : List ℕ → Outcome Cbuffer → Type 0
Holds text (ok b) = (cbuffer_data b ≡ ok text) × (length text < 512)
Holds text abort = 1024 * 1024 < length text
Holds text fault = (512 ≤ length text) × (length text ≤ 1024 * 1024)

abbrev pub concat : List (List ℕ) → List ℕ
concat [] = []
concat (p ∷ ps) = p ++ concat ps

module _ (uninitialised : ℕ → ℕ) where
  -- The buffer that `Cbuffer_new` makes.
  abbrev pub fresh : Cbuffer
  fresh = record {
    mem = record { size = 256; cell = uninitialised };
    length = 0;
    capacity = 256;
    size = 0;
    strategy = common_strategy;
  }

  pub new-fresh : cbuffer_new uninitialised ≡ ok fresh
  unfolding cbuffer_new max_of_two
  new-fresh = refl

  pub fresh-IsValid : IsValid fresh
  fresh-IsValid = record { room = refl; below = omega arith; limit = omega arith }

  after_append : (text : List ℕ) (r : Outcome Cbuffer) → Appends fresh text r → Holds text r
  unfolding Appends Holds Fits min_of_two segment
  after_append text (ok b) (v, e, f, t, c, s) = (data-contents b v ∙ ap ok e, omega arith)
  after_append text abort h = omega arith
  after_append text fault h = omega arith

  pub fresh_append_lem : (text : List ℕ) → Holds text (cbuffer_append uninitialised fresh text)
  fresh_append_lem text =
      after_append text (cbuffer_append uninitialised fresh text)
        (append_lem uninitialised fresh text fresh-IsValid)

  -- A string of less than 512 bytes becomes a buffer that holds it. One of 512 to 1048576 bytes is
  -- copied with its terminator past the end of the memory, and a longer one fails an assertion.
  pub from_cstring_lem : (text : List ℕ) → Holds text (cbuffer_from_cstring uninitialised text)
  unfolding cbuffer_from_cstring
  from_cstring_lem text = rw new-fresh (fresh_append_lem text)

  -- `Cbuffer_append` of one piece after the other.
  unfoldable pub append_all : Cbuffer → List (List ℕ) → Outcome Cbuffer
  append_all b [] = ok b
  append_all b (p ∷ ps) = do b' ← cbuffer_append uninitialised b p; append_all b' ps

  -- A buffer of at least 256 bytes has room for 256 more, unless the limit is reached.
  piece_fits :
      (b : Cbuffer) (p : List ℕ) (r : Outcome Cbuffer)
      → 256 ≤ b.capacity
      → length p ≤ 256
      → IsValid b
      → b.length + length p < b.strategy.max_size
      → Appends b p r
      → (b' : Cbuffer) × (r ≡ ok b') × Appends b p (ok b')
  unfolding Appends min_of_two
  piece_fits b p (ok b') room small v below a = (b', refl, a)
  piece_fits b p abort room small v below a = absurd (omega arith)
  piece_fits b p fault room small v below a = absurd (ground (arith, v.below, a))

  contents-length :
      (b : Cbuffer) (p : List ℕ) (b' : Cbuffer)
      → contents b' ≡ contents b ++ p
      → b'.length ≡ b.length + length p
  contents-length b p b' e = omega (
    arith,
    ap length e,
    length-append (contents b) p,
    length-segment b.mem.cell 0 b.length,
    length-segment b'.mem.cell 0 b'.length,
  )

  -- A buffer of at least 256 bytes takes any sequence of pieces of at most 256 bytes each, as long
  -- as all of it stays below the limit, and then holds them one behind the other.
  pub pieces_lem :
      (ps : List (List ℕ)) (b : Cbuffer)
      → IsValid b
      → 256 ≤ b.capacity
      → All (λ p. length p ≤ 256) ps
      → b.length + length (concat ps) < b.strategy.max_size
      → (b' : Cbuffer) × (append_all b ps ≡ ok b')
        × IsValid b'
        × (contents b' ≡ contents b ++ concat ps)
  unfolding append_all Appends
  pieces_lem [] b v room small below = (b, refl, v, sym (append-nil (contents b)))
  pieces_lem (p ∷ ps) b v room small below =
      let split = length-append p (concat ps) in
      let (b1, e1, a) =
        piece_fits b p (cbuffer_append uninitialised b p) room small.0 v (omega arith)
          (append_lem uninitialised b p v) in
      let (v1, c1, f, t, more, same) = a in
      let len = contents-length b p b1 c1 in
      let (b2, e2, v2, c2) =
        pieces_lem ps b1 v1 (omega arith) small.1 (omega (arith, ap (λ s. s.max_size) same)) in
      (
        b2,
        ap (λ r. r >>= λ b'. append_all b' ps) e1 ∙ e2,
        v2,
        c2 ∙ ap (λ l. l ++ concat ps) c1 ∙ append_assoc (contents b) p (concat ps),
      )

-- A buffer after `Cbuffer_clear`.
abbrev pub emptied : Cbuffer → Cbuffer
emptied b = record b { length = 0; mem = record b.mem { cell = update b.mem.cell 0 0 } }

pub clear-emptied : (b : Cbuffer) → IsValid b → cbuffer_clear b ≡ ok (emptied b)
unfolding cbuffer_clear
clear-emptied b v = ground (arith, v.room, v.below)

pub emptied-IsValid : (b : Cbuffer) → IsValid b → IsValid (emptied b)
emptied-IsValid b v = record { room = v.room; below = omega (arith, v.below); limit = v.limit }

-- What moving one buffer to another may end with.
pub Moves : Cbuffer → Outcome (Cbuffer × Cbuffer) → Type 0
Moves src (ok (dest', src')) =
    (cbuffer_data dest' ≡ cbuffer_data src)
    × (cbuffer_data src' ≡ ok [])
    × IsValid dest'
    × IsValid src'
Moves src abort = ⊥
Moves src fault = ⊥

-- Moving a valid buffer to another succeeds: the bytes go over, the first buffer is left empty, and
-- both are valid.
pub move_lem : (dest src : Cbuffer) → IsValid dest → IsValid src → Moves src (cbuffer_move dest src)
unfolding cbuffer_move segment Moves
move_lem dest src v w =
    let v1 = emptied-IsValid dest v in
    let v2 = emptied-IsValid (emptied dest) v1 in
    rw (clear-emptied dest v, clear-emptied (emptied dest) v1)
      (refl, data-contents (emptied (emptied dest)) v2, w, v2)
