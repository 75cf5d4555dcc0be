-- ===== src/HttpMessage/Strings.antt =====
-- Character buffers that hold a terminated text.
use network_c_http.Base.{
  ℕ, zero, suc, ◌+◌, ◌*◌, ◌≤◌, ◌<◌, ◌≡◌, refl, sym, ap, ◌∙◌, List, [], ◌∷◌, ◌++◌, append-nil, arith,
  length, true, false, ok, lt→ltb, ltb, ◌==◌,
}
use native.Mathlib.Decide.{dec_lt}
use network_c_http.Base.Cells.{Block, segment, length-segment, update, update_self, update_if}
use network_c_http.Cbuffer.{
  Cbuffer, common_strategy, min_of_two, cbuffer_cstr, cbuffer_append, cbuffer_clear,
}
use network_c_http.Cbuffer.Growth.{
  IsValid, contents, filled, grown, contents-grown, contents-filled, append-empty, append-stays,
  append-grows, min_le, length-nil,
}
use network_c_http.Cbuffer.Texts.{fresh, fresh-IsValid, emptied, clear-emptied, emptied-IsValid}
use network_c_http.KvPair.Texts.{NoNul}
use network_c_http.HttpMessage.{string_from, cstr_text}

-- The bytes of the buffer, and the strategy of every buffer that `Cbuffer_new` makes.
pub record Sound (b : Cbuffer) (t : List ℕ) : Type 0 where
  pub valid : IsValid b
  pub text : contents b ≡ t
  pub common : b.strategy ≡ common_strategy
  pub large : 256 ≤ b.capacity

-- A NUL stands behind the text, and where `Cbuffer_cstr` looks for one.
pub record HasText (b : Cbuffer) (t : List ℕ) : Type 0 where
  pub sound : Sound b t
  pub ends : b.mem.cell b.length ≡ 0
  pub stored : b.mem.cell b.size ≡ 0
  pub inside : b.size < b.capacity

pub Sound-length : (b : Cbuffer) (t : List ℕ) → Sound b t → b.length ≡ length t
Sound-length b t s = sym (length-segment b.mem.cell 0 b.length) ∙ ap length s.text

filled-HasText :
    (b : Cbuffer) (t xs : List ℕ)
    → Sound b t
    → b.length + length xs < b.capacity
    → HasText (filled b xs) (t ++ xs)
filled-HasText b t xs s h =
    let n = b.length + length xs in
    let v : IsValid (filled b xs) = record {
      room = s.valid.room;
      below = h;
      limit = s.valid.limit;
    } in
    record {
      sound = record {
        valid = v;
        text = contents-filled b xs ∙ ap (λ l. l ++ xs) s.text;
        common = s.common;
        large = s.large;
      };
      ends = update_self _ n 0;
      stored = update_self _ n 0;
      inside = h;
    }

module _ (uninitialised : ℕ → ℕ) where
  pub fresh-Sound : Sound (fresh uninitialised) []
  unfolding segment
  fresh-Sound = record {
    valid = fresh-IsValid uninitialised;
    text = refl;
    common = refl;
    large = omega arith;
  }

  grown-Sound :
      (b : Cbuffer) (t : List ℕ) (m : ℕ)
      → Sound b t
      → b.capacity ≤ m
      → m ≤ b.strategy.max_size
      → Sound (grown uninitialised b m) t
  grown-Sound b t m s more most = record {
    valid = record { room = refl; below = omega (arith, s.valid.below); limit = most };
    text = contents-grown uninitialised b m s.valid ∙ s.text;
    common = s.common;
    large = omega (arith, s.large);
  }

  -- Bytes, at least one, that fit in the buffer as it is or in one of twice the capacity.
  pub append-HasText :
      (b : Cbuffer) (t xs : List ℕ)
      → Sound b t
      → 0 < length xs
      → b.length + length xs < 1024 * 1024
      → b.length + length xs < 2 * b.capacity
      → (b' : Cbuffer) × (cbuffer_append uninitialised b xs ≡ ok b') × HasText b' (t ++ xs)
  unfolding min_of_two
  append-HasText b t xs s p below twice =
      let m = min_of_two b.strategy.max_size (2 * b.capacity) in
      let top = ap (λ c. c.max_size) s.common in
      elim (dec_lt (b.length + length xs) b.capacity) [
        | yes q ↦
            (filled b xs, append-stays uninitialised b xs s.valid p q, filled-HasText b t xs s q)
        | no q ↦
            let k : b.length + length xs < m = ground (arith, top, below, twice) in
            let mins = min_le b in
            let g = grown-Sound b t m s (omega (arith, q, k)) mins.0 in
            (
              filled (grown uninitialised b m) xs,
              append-grows uninitialised b xs s.valid p (omega (arith, q)) k,
              filled-HasText (grown uninitialised b m) t xs g k,
            )
      ]

  -- A piece of at most 256 bytes goes behind a text, below the limit.
  pub append_piece-HasText :
      (b : Cbuffer) (t p : List ℕ)
      → HasText b t
      → length p ≤ 256
      → length t + length p < 1024 * 1024
      → (b' : Cbuffer) × (cbuffer_append uninitialised b p ≡ ok b') × HasText b' (t ++ p)
  append_piece-HasText b t p h small below =
      let len = Sound-length b t h.sound in
      elim (dec_lt 0 (length p)) [
        | yes q ↦
            append-HasText b t p h.sound q (omega (arith, len, below))
              (omega (arith, h.sound.valid.below, h.sound.large, small))
        | no q ↦
            let none : length p ≡ 0 = omega (arith, q) in
            let same : t ≡ t ++ p =
              sym (append-nil t) ∙ ap (λ l. t ++ l) (sym (length-nil p none)) in
            (b, append-empty uninitialised b p none, with_text b t (t ++ p) same h)
      ]
    where
      with_text : (b : Cbuffer) (t t' : List ℕ) → t ≡ t' → HasText b t → HasText b t'
      with_text b t t' e h = rw e at h

clear_lem :
    (b : Cbuffer) (t : List ℕ)
    → Sound b t
    → update b.mem.cell 0 0 b.size ≡ 0
    → b.size < b.capacity
    → (b' : Cbuffer) × (cbuffer_clear b ≡ ok b') × HasText b' []
unfolding segment
clear_lem b t s stored inside = (
  emptied b,
  clear-emptied b s.valid,
  record {
    sound = record {
      valid = emptied-IsValid b s.valid;
      text = refl;
      common = s.common;
      large = s.large;
    };
    ends = update_self b.mem.cell 0 0;
    stored = stored;
    inside = inside;
  },
)

pub clear-HasText :
    (b : Cbuffer) (t : List ℕ)
    → HasText b t
    → (b' : Cbuffer) × (cbuffer_clear b ≡ ok b') × HasText b' []
clear-HasText b t h =
    clear_lem b t h.sound (ground (arith, update_if b.mem.cell 0 0 b.size, h.stored)) h.inside

pub clear_fresh_lem :
    (uninitialised : ℕ → ℕ)
    → (b' : Cbuffer) × (cbuffer_clear (fresh uninitialised) ≡ ok b') × HasText b' []
clear_fresh_lem uninitialised =
    clear_lem (fresh uninitialised) [] (fresh-Sound uninitialised) (update_self uninitialised 0 0)
      (omega arith)

string_from_lem :
    (b : Block ℕ) (t : List ℕ) (fuel i : ℕ)
    → segment b.cell i (length t) ≡ t
    → b.cell (i + length t) ≡ 0
    → i + length t < b.size
    → length t < fuel
    → NoNul t
    → string_from b fuel i ≡ ok t
unfolding string_from segment
string_from_lem b t zero i e z inside enough n = absurd (omega (arith, enough))
string_from_lem b [] (suc fuel) i e z inside enough n =
    let here : i + 0 ≡ i = omega arith in
    let in_block : ltb i b.size ≡ true = lt→ltb i b.size (omega (arith, inside)) in
    let at_end : b.cell i ≡ 0 = ap b.cell (sym here) ∙ z in rw (in_block, at_end) refl
string_from_lem b (c ∷ t) (suc fuel) i e z inside enough n =
    let in_block : ltb i b.size ≡ true = lt→ltb i b.size (omega (arith, inside)) in
    let byte : b.cell i ≡ c = head_eq e in
    let not_end : (c == 0) ≡ false = ground (arith, n.0) in
    let shift : i + 1 + length t ≡ i + suc (length t) = omega arith in
    let rest =
      string_from_lem b t fuel (i + 1) (tail_eq e) (ap b.cell shift ∙ z) (omega (arith, inside))
        (omega (arith, enough)) n.1 in
    rw (in_block, byte, not_end, rest) refl
  where
    head_eq : {x y : ℕ} {xs ys : List ℕ} → (x ∷ xs) ≡ (y ∷ ys) → x ≡ y
    head_eq e = cc

    tail_eq : {x y : ℕ} {xs ys : List ℕ} → (x ∷ xs) ≡ (y ∷ ys) → xs ≡ ys
    tail_eq e = cc

-- The string at the start of a buffer's memory is its text, if no byte of it is NUL.
pub memory_text_lem :
    (b : Cbuffer) (t : List ℕ) → HasText b t → NoNul t → string_from b.mem b.mem.size 0 ≡ ok t
memory_text_lem b t h n =
    let len = Sound-length b t h.sound in
    let start : 0 + length t ≡ b.length = omega (arith, len) in
    let room = h.sound.valid.room in
    string_from_lem b.mem t b.mem.size 0 (ap (segment b.mem.cell 0) (sym len) ∙ h.sound.text)
      (ap b.mem.cell start ∙ h.ends) (omega (arith, len, room, h.sound.valid.below))
      (omega (arith, len, room, h.sound.valid.below)) n

pub cstr_text_lem : (b : Cbuffer) (t : List ℕ) → HasText b t → NoNul t → cstr_text b ≡ ok t
unfolding cstr_text cbuffer_cstr
cstr_text_lem b t h n =
    let in_block : ltb b.size b.mem.size ≡ true =
      lt→ltb b.size b.mem.size (omega (arith, h.sound.valid.room, h.inside)) in
    rw (in_block, h.stored) (memory_text_lem b t h n)
