-- ===== src/UrlParser/Parse.antt =====
-- `c_http_parser_parse_url` of url_parser.c.
use network_c_http.Base.{
  ℕ, zero, suc, ◌+◌, ◌-◌, ◌*◌, ◌%◌, ◌^◌, Bool, true, false, not, ◌||◌, ◌&&◌, Option, none, some,
  Outcome, ok, abort, ◌>>=◌, ◌>>◌, assert, if◌then◌else◌, ◌==◌, leb, ltb,
}
use network_c_http.Base.Cells.{Block, load}
use network_c_http.UrlParser.Machine.{
  State, dead, req_spaces_before_url, req_schema, req_schema_slash, req_schema_slash_slash,
  req_server_start, req_server, req_server_with_at, req_path, req_query_string_start,
  req_query_string, req_fragment_start, req_fragment, parse_url_char,
}
use network_c_http.UrlParser.Url.{
  Url, uf_schema, uf_host, uf_port, uf_path, uf_query, uf_fragment, uf_userinfo, uf_max, grow,
  begin, u16,
}
use network_c_http.UrlParser.Host.{parse_host}

-- What the `switch` of the loop makes of a state: an error, a delimiter to skip, a byte of a field,
-- or the assertion of its default case.
pub data Part : Type 0 where
  failure : Part
  delimiter : Part
  field : ℕ → Part
  unexpected : Part

unfoldable pub part : State → Part
part dead = failure
part req_schema_slash = delimiter
part req_schema_slash_slash = delimiter
part req_server_start = delimiter
part req_query_string_start = delimiter
part req_fragment_start = delimiter
part req_schema = field uf_schema
part req_server_with_at = field uf_host
part req_server = field uf_host
part req_path = field uf_path
part req_query_string = field uf_query
part req_fragment = field uf_fragment
part req_spaces_before_url = unexpected

unfoldable pub at_seen : State → Bool
at_seen req_server_with_at = true
at_seen s = false

-- How the loop ends: with a return of 1, or with the state in which the code goes on.
pub data Scanned : Type 0 where
  rejected : Url → Scanned
  scanned : Bool → Url → Scanned

-- A byte of field `uf` at index `p`.
unfoldable pub in_field : ℕ → ℕ → ℕ → Url → Url
in_field uf old_uf p u = if uf == old_uf then grow uf u else begin uf p 1 u

-- The loop, with `n` bytes left from index `p` on.
unfoldable pub scan : Block ℕ → ℕ → ℕ → State → ℕ → Bool → Url → Outcome Scanned
scan buf zero p s old_uf found_at u = ok (scanned found_at u)
scan buf (suc n) p s old_uf found_at u = do
  ch ← load buf p
  let s' = parse_url_char s ch
  elim (part s') [
    | failure ↦ ok (rejected u)
    | delimiter ↦ scan buf n (p + 1) s' old_uf found_at u
    | field uf ↦ scan buf n (p + 1) s' uf (found_at || at_seen s') (in_field uf old_uf p u)
    | unexpected ↦ abort
  ]

-- The loop over the digits of the port, with `n` left from index `p` on; `none` is a return of 1.
-- `*p - '0'` is added to an `unsigned long`.
unfoldable pub port_loop : Block ℕ → ℕ → ℕ → ℕ → Outcome (Option ℕ)
port_loop buf zero p v = ok (some v)
port_loop buf (suc n) p v = do
  ch ← load buf p
  let v' = (v * 10 % 2 ^ 64 + ch + 2 ^ 64 - b'0') % 2 ^ 64
  let rest = port_loop buf n (p + 1) v'
  if ltb 0xffff v' then ok none else rest

-- The end of the function: the port, if there is one.
unfoldable pub parse_port : Block ℕ → ℕ → Url → Outcome (Bool × Url)
parse_port buf buflen u = if not (u.field_set uf_port) then ok (true, u) else do
  let d = u.field_data uf_port
  assert (leb (d.off + d.len) buflen)
  v ← port_loop buf d.len d.off 0
  ok (elim v [ none ↦ (false, u) | some n ↦ (true, record u { port = n % u16 }) ])

-- `field_set != ((1 << UF_HOST)|(1 << UF_PORT))`, negated
unfoldable pub host_and_port_only : Url → Bool
host_and_port_only u =
    not (u.field_set uf_schema)
    && u.field_set uf_host
    && u.field_set uf_port
    && not (u.field_set uf_path)
    && not (u.field_set uf_query)
    && not (u.field_set uf_fragment)
    && not (u.field_set uf_userinfo)

-- The tests between the loop and the port.
unfoldable pub check_host : Block ℕ → ℕ → Bool → Bool → Url → Outcome (Bool × Url)
unfolding host_and_port_only
check_host buf buflen is_connect found_at u =
    if u.field_set uf_schema && not (u.field_set uf_host) then ok (false, u) else do
      (good, u') ← (if u.field_set uf_host then parse_host buf u found_at else ok (true, u))
      if not good || is_connect && not (host_and_port_only u')
          then ok (false, u')
          else parse_port buf buflen u'

-- `true` is a return of 0, `false` a return of 1; the fields are what they are at that point.
unfoldable pub parse_url : Block ℕ → ℕ → Bool → Url → Outcome (Bool × Url)
parse_url buf buflen is_connect u = if buflen == 0 then ok (false, u) else do
  let u0 : Url = record u { port = 0; field_set = λ k. false }
  r ←
      scan buf buflen 0 (if is_connect then req_server_start else req_spaces_before_url) uf_max
        false u0
  elim r [
    | rejected u' ↦ ok (false, u')
    | scanned found_at u' ↦ check_host buf buflen is_connect found_at u'
  ]
