-- ===== src/KvPair.antt =====
-- The label and the value of a header: src/http/kvpair.c, with make_upper of src/common/utils.c and
-- the C library's calls on strings that both use, in the C locale.
-- A string is the list of the bytes of its block, and a `char*` argument the list of the bytes that
-- can be read from where it points.
pub mod Texts
use network_c_http.Base.{
  ℕ, zero, suc, ◌+◌, ◌-◌, Bool, true, false, List, [], ◌∷◌, ◌++◌, map, Outcome, ok, fault, ◌>>=◌,
  if◌then◌else◌, leb, ◌==◌, ◌&&◌, to_int,
}

unfoldable pub toupper : ℕ → ℕ
toupper c = if leb 97 c && leb c 122 then c - 32 else c

-- The first `n` bytes, which `memcpy` reads.
unfoldable pub read_bytes : List ℕ → ℕ → Outcome (List ℕ)
read_bytes s zero = ok []
read_bytes [] (suc n) = fault
read_bytes (c ∷ s) (suc n) = do bytes ← read_bytes s n; ok (c ∷ bytes)

unfoldable pub strlen : List ℕ → Outcome ℕ
strlen [] = fault
strlen (c ∷ s) = if c == 0 then ok 0 else do n ← strlen s; ok (n + 1)

-- `strcmp(s, t) == 0`
unfoldable pub strcmp_eq : List ℕ → List ℕ → Outcome Bool
strcmp_eq [] t = fault
strcmp_eq (c ∷ s) [] = fault
strcmp_eq (c ∷ s) (d ∷ t) = if c == d then (if c == 0 then ok true else strcmp_eq s t) else ok false

unfoldable pub make_upper : List ℕ → Outcome (List ℕ)
make_upper src = do
  len ← strlen src
  srclen ← to_int len
  bytes ← read_bytes src srclen
  ok (map toupper bytes ++ (0 ∷ []))

pub record KvPair : Type 0 where
  pub label : List ℕ
  pub label_len : ℕ
  pub value : List ℕ
  pub value_len : ℕ

unfoldable pub kvpair_new : List ℕ → ℕ → List ℕ → ℕ → Outcome KvPair
kvpair_new labptr lablen valptr vallen = do
  lab ← read_bytes labptr lablen
  val ← read_bytes valptr vallen
  ok (record {
    label = map toupper lab ++ (0 ∷ []);
    label_len = lablen;
    value = val ++ (0 ∷ []);
    value_len = vallen;
  })

unfoldable pub kvpair_from_cstrs : List ℕ → List ℕ → Outcome KvPair
kvpair_from_cstrs key value = do
  n ← strlen key
  lablen ← to_int n
  m ← strlen value
  vallen ← to_int m
  kvpair_new key lablen value vallen

unfoldable pub kvpair_label : KvPair → List ℕ
kvpair_label p = p.label

unfoldable pub kvpair_value : KvPair → List ℕ
kvpair_value p = p.value

-- The length of the value stays as it was.
unfoldable pub kvpair_set_value : KvPair → List ℕ → ℕ → Outcome KvPair
kvpair_set_value p valptr vallen = do
  val ← read_bytes valptr vallen
  ok (record p { value = val ++ (0 ∷ []) })
