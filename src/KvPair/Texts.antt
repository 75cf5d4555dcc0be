-- ===== src/KvPair/Texts.antt =====
-- Texts as C strings.
use network_c_http.Base.{
  ℕ, ◌≡◌, ◌≢◌, refl, ap, Bool, true, false, List, [], ◌∷◌, ◌++◌, map, ok, if◌then◌else◌, ◌==◌,
  length, All, arith, ◌+◌, ◌<◌, ◌^◌, to_int_fits,
}
use network_c_http.KvPair.{KvPair, toupper, read_bytes, strlen, strcmp_eq, make_upper, kvpair_new}

abbrev pub NoNul : List ℕ → Type 0
NoNul = All (λ c. c ≢ 0)

-- A text without NUL whose length, with the NUL behind it, is an `int`.
abbrev pub IsText : List ℕ → Type 0
IsText t = NoNul t × (length t + 1 < 2 ^ 31)

-- the bytes of a text and the NUL behind them
abbrev pub c_string : List ℕ → List ℕ
c_string t = t ++ (0 ∷ [])

abbrev pub upper : List ℕ → List ℕ
upper t = map toupper t

abbrev pub same_text : List ℕ → List ℕ → Bool
same_text [] [] = true
same_text [] (d ∷ t) = false
same_text (c ∷ s) [] = false
same_text (c ∷ s) (d ∷ t) = if c == d then same_text s t else false

abbrev pub pair_of : List ℕ → List ℕ → KvPair
pair_of k v = record {
  label = c_string (upper k);
  label_len = length k;
  value = c_string v;
  value_len = length v;
}

pub read_bytes_prefix : (t rest : List ℕ) → read_bytes (t ++ rest) (length t) ≡ ok t
unfolding read_bytes
read_bytes_prefix [] rest = refl
read_bytes_prefix (c ∷ t) rest = rw (read_bytes_prefix t rest) refl

pub strlen-c_string : (t : List ℕ) → NoNul t → strlen (c_string t) ≡ ok (length t)
unfolding strlen
strlen-c_string [] n = refl
strlen-c_string (c ∷ t) n =
    let not_end : (c == 0) ≡ false = ground (arith, n.0) in
    rw (not_end, strlen-c_string t n.1) (ap ok (omega arith))

pub strcmp_eq-same_text :
    (s t : List ℕ) → NoNul s → NoNul t → strcmp_eq (c_string s) (c_string t) ≡ ok (same_text s t)
unfolding strcmp_eq
strcmp_eq-same_text [] [] m n = refl
strcmp_eq-same_text [] (d ∷ t) m n = ground (arith, n.0)
strcmp_eq-same_text (c ∷ s) [] m n = ground (arith, m.0)
strcmp_eq-same_text (c ∷ s) (d ∷ t) m n = ground (arith, m.0, strcmp_eq-same_text s t m.1 n.1)

toupper_ne : (c : ℕ) → c ≢ 0 → toupper c ≢ 0
unfolding toupper
toupper_ne c ne = ground arith

pub upper-NoNul : (t : List ℕ) → NoNul t → NoNul (upper t)
upper-NoNul [] n = tt
upper-NoNul (c ∷ t) n = (toupper_ne c n.0, upper-NoNul t n.1)

pub make_upper-c_string :
    (t : List ℕ) → IsText t → make_upper (c_string t) ≡ ok (c_string (upper t))
unfolding make_upper
make_upper-c_string t (n, short) =
    rw
      (
        strlen-c_string t n,
        to_int_fits (length t) (omega (arith, short)),
        read_bytes_prefix t (0 ∷ []),
      )
      refl

pub kvpair_new_lem :
    (k v rest rest' : List ℕ)
    → kvpair_new (k ++ rest) (length k) (v ++ rest') (length v) ≡ ok (pair_of k v)
unfolding kvpair_new
kvpair_new_lem k v rest rest' = rw (read_bytes_prefix k rest, read_bytes_prefix v rest') refl
