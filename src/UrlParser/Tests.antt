-- ===== src/UrlParser/Tests.antt =====
-- The URL parser at concrete texts.
use Prim.Native.Char.{code}
use Prim.Native.String.{String}
use network_c_http.Base.{
  ℕ, zero, suc, ◌≡◌, refl, Bool, true, false, List, [], ◌∷◌, Outcome, ok, ◌>>=◌, length, arith, leb,
  if◌then◌else◌, some, none,
}
use network_c_http.Base.Cells.{Block, update, segment}
use network_c_http.UrlParser.Chars.{
  is_alpha, is_userinfo_char, is_url_char, is_host_char, is_num, is_hex,
}
use network_c_http.UrlParser.Machine.{parse_url_char}
use network_c_http.UrlParser.Url.{Url, url_init, grow, begin, set_off, set_len}
use network_c_http.UrlParser.Host.{parse_host, host_loop, parse_host_char, account}
use network_c_http.UrlParser.Inside.Fields.{Digits, decimal}
use network_c_http.UrlParser.Total.{Returns, parse_url-Returns, port_loop-decimal}
use network_c_http.UrlParser.Parse.{
  parse_url, scan, part, at_seen, in_field, port_loop, parse_port, check_host,
}

codes : String → List ℕ
codes String.[] = []
codes (String.◌∷◌ c s) = code c ∷ codes s

byte : List ℕ → ℕ → ℕ
byte [] i = 0
byte (x ∷ xs) zero = x
byte (x ∷ xs) (suc i) = byte xs i

abbrev text : List ℕ → Block ℕ
text xs = record { size = length xs; cell = byte xs }

-- What a call returns, the port, and the offset and length of each field that is set.
field : Url → ℕ → List ℕ
field u k = elim (u.field_set k) [
  | true ↦ (u.field_data k).off ∷ (u.field_data k).len ∷ []
  | false ↦ []
]

report : Outcome (Bool × Url) → Outcome (Bool × ℕ × List (List ℕ))
unfolding field
report r = r >>= λ (good, u). ok (
  good,
  u.port,
  field u 0 ∷ field u 1 ∷ field u 2 ∷ field u 3 ∷ field u 4 ∷ field u 5 ∷ field u 6 ∷ [],
)

parse : String → Outcome (Bool × ℕ × List (List ℕ))
unfolding report codes byte update url_init parse_url scan parse_url_char part at_seen in_field grow
    begin is_alpha is_userinfo_char is_url_char check_host parse_host host_loop parse_host_char
    account set_off set_len is_host_char is_num is_hex parse_port port_loop
parse s = let xs = codes s in report (parse_url (text xs) (length xs) false url_init)

full_url :
    parse "http://me@ab.c:80/x?y#z"
    ≡ ok (
      true,
      80,
      (0 ∷ 4 ∷ [])
          ∷ (10 ∷ 4 ∷ [])
          ∷ (15 ∷ 2 ∷ [])
          ∷ (17 ∷ 2 ∷ [])
          ∷ (20 ∷ 1 ∷ [])
          ∷ (22 ∷ 1 ∷ [])
          ∷ (7 ∷ 2 ∷ [])
          ∷ [],
    )
unfolding parse
full_url = refl

v6_url :
    parse "http://[::1]:70000/"
    ≡ ok (false, 0, (0 ∷ 4 ∷ []) ∷ (8 ∷ 3 ∷ []) ∷ (13 ∷ 5 ∷ []) ∷ (18 ∷ 1 ∷ []) ∷ [] ∷ [] ∷ [] ∷ [])
unfolding parse
v6_url = refl

-- `a:80`
abbrev authority : Block ℕ
authority = text (97 ∷ 58 ∷ 56 ∷ 48 ∷ [])

parse_url-Returns_example : Returns authority (parse_url authority authority.size true url_init)
parse_url-Returns_example = parse_url-Returns authority true url_init (omega arith)

Digits-80 : Digits (segment authority.cell 2 2)
unfolding segment is_num byte
Digits-80 = (refl, (refl, tt))

port_loop-decimal_example :
    port_loop authority 2 2 0
    ≡ ok (
        if leb (decimal 0 (segment authority.cell 2 2)) 0xffff
        then some (decimal 0 (segment authority.cell 2 2))
        else none)
port_loop-decimal_example = port_loop-decimal authority 2 2 0 (omega arith) Digits-80 (omega arith)
