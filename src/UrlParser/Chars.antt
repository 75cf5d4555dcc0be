-- ===== src/UrlParser/Chars.antt =====
-- The character classes of url_parser.c: the tables and macros above `parse_url_char`. A `char` is
-- the byte that it stands for, 0 to 255: the code only compares it, or casts it to `unsigned char`.
use Prim.Native.Nat.{bit_or}
use network_c_http.Base.{ℕ, zero, suc, ◌/◌, ◌%◌, ◌^◌, Bool, ◌&&◌, ◌||◌, List, [], ◌∷◌, leb, ◌==◌}

-- The rows of `normal_url_char`, eight characters to a byte; the rows from 128 on are 0.
unfoldable pub normal_url_char : List ℕ
normal_url_char =
    0 ∷ 0 ∷ 0 ∷ 0 ∷ 246 ∷ 255 ∷ 255 ∷ 127 ∷ 255 ∷ 255 ∷ 255 ∷ 255 ∷ 255 ∷ 255 ∷ 255 ∷ 127 ∷ []

-- `BIT_AT`: bit `i % 8` of byte `i / 8`
unfoldable pub bit_at : List ℕ → ℕ → Bool
bit_at a i = (byte a (i / 8) / 2 ^ (i % 8)) % 2 == 1
  where
    byte : List ℕ → ℕ → ℕ
    byte [] k = 0
    byte (x ∷ xs) zero = x
    byte (x ∷ xs) (suc k) = byte xs k

-- `LOWER`
unfoldable pub lower : ℕ → ℕ
lower c = bit_or c 0x20 % 2 ^ 8

unfoldable pub is_alpha : ℕ → Bool
unfolding lower
is_alpha c = leb b'a' (lower c) && leb (lower c) b'z'

unfoldable pub is_num : ℕ → Bool
is_num c = leb b'0' c && leb c b'9'

unfoldable pub is_alphanum : ℕ → Bool
unfolding is_alpha is_num
is_alphanum c = is_alpha c || is_num c

unfoldable pub is_hex : ℕ → Bool
unfolding is_num lower
is_hex c = is_num c || leb b'a' (lower c) && leb (lower c) b'f'

unfoldable pub is_mark : ℕ → Bool
is_mark c =
    c == b'-'
    || c == b'_'
    || c == b'.'
    || c == b'!'
    || c == b'~'
    || c == b'*'
    || c == 39
    || c == 40
    || c == 41

unfoldable pub is_userinfo_char : ℕ → Bool
unfolding is_alphanum is_mark
is_userinfo_char c =
    is_alphanum c
    || is_mark c
    || c == b'%'
    || c == 59
    || c == b':'
    || c == b'&'
    || c == b'='
    || c == b'+'
    || c == b'$'
    || c == 44

unfoldable pub is_url_char : ℕ → Bool
unfolding bit_at normal_url_char
is_url_char c = bit_at normal_url_char c

unfoldable pub is_host_char : ℕ → Bool
unfolding is_alphanum
is_host_char c = is_alphanum c || c == b'.' || c == b'-'
