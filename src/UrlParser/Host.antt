-- ===== src/UrlParser/Host.antt =====
-- `c_http_parse_host_char` and `c_http_parse_host` of url_parser.c.
use network_c_http.Base.{
  ℕ, zero, suc, ◌+◌, Bool, true, false, ◌||◌, Outcome, ok, ◌>>=◌, ◌>>◌, assert, if◌then◌else◌, ◌==◌,
}
use network_c_http.Base.Cells.{Block, load}
use network_c_http.UrlParser.Chars.{is_num, is_alphanum, is_hex, is_userinfo_char, is_host_char}
use network_c_http.UrlParser.Url.{Url, uf_host, uf_port, uf_userinfo, grow, begin, set_off, set_len}

-- `enum http_host_state`
pub data HostState : Type 0 where
  dead : HostState
  userinfo_start : HostState
  userinfo : HostState
  host_start : HostState
  host_v6_start : HostState
  host : HostState
  host_v6 : HostState
  host_v6_end : HostState
  host_v6_zone_start : HostState
  host_v6_zone : HostState
  host_port_start : HostState
  host_port : HostState

-- The case of both userinfo states.
unfoldable pub userinfo_char : ℕ → HostState
userinfo_char ch = if ch == b'@' then host_start else if is_userinfo_char ch then userinfo else dead

-- The case `s_http_host_v6_end`, into which `s_http_host` falls.
unfoldable pub colon_char : ℕ → HostState
colon_char ch = if ch == b':' then host_port_start else dead

-- The case of both zone states, once `]` is taken care of.
unfoldable pub zone_char : ℕ → HostState
zone_char ch =
    if is_alphanum ch || ch == b'%' || ch == b'.' || ch == b'-' || ch == b'_' || ch == b'~'
    then host_v6_zone
    else dead

-- The part of the case `s_http_host_v6_start` that both v6 states have.
unfoldable pub v6_char : ℕ → Bool
v6_char ch = is_hex ch || ch == b':' || ch == b'.'

unfoldable pub parse_host_char : HostState → ℕ → HostState
unfolding userinfo_char colon_char zone_char v6_char
parse_host_char dead ch = dead
parse_host_char userinfo_start ch = userinfo_char ch
parse_host_char userinfo ch = userinfo_char ch
parse_host_char host_start ch =
    if ch == 91 then host_v6_start else if is_host_char ch then host else dead
parse_host_char host ch = if is_host_char ch then host else colon_char ch
parse_host_char host_v6_end ch = colon_char ch
parse_host_char host_v6 ch =
    if ch == 93
    then host_v6_end
    else if v6_char ch
    then host_v6
    else if ch == b'%'
    then host_v6_zone_start
    else dead
parse_host_char host_v6_start ch = if v6_char ch then host_v6 else dead
parse_host_char host_v6_zone ch = if ch == 93 then host_v6_end else zone_char ch
parse_host_char host_v6_zone_start ch = zone_char ch
parse_host_char host_port ch = if is_num ch then host_port else dead
parse_host_char host_port_start ch = if is_num ch then host_port else dead

-- Whether two states are the same: `s != s_http_host` and its like.
unfoldable pub is_host : HostState → Bool
is_host host = true
is_host s = false

unfoldable pub is_host_v6 : HostState → Bool
is_host_v6 host_v6 = true
is_host_v6 s = false

unfoldable pub is_host_port : HostState → Bool
is_host_port host_port = true
is_host_port s = false

unfoldable pub is_userinfo : HostState → Bool
is_userinfo userinfo = true
is_userinfo s = false

-- The `switch` on the new state in the loop of `c_http_parse_host`, at index `p` with the old state
-- `s`.
unfoldable pub account : HostState → HostState → ℕ → Url → Url
unfolding is_host is_host_v6 is_host_port is_userinfo
account s host p u = grow uf_host (if is_host s then u else set_off uf_host p u)
account s host_v6 p u = grow uf_host (if is_host_v6 s then u else set_off uf_host p u)
account s host_v6_zone_start p u = grow uf_host u
account s host_v6_zone p u = grow uf_host u
account s host_port p u = grow uf_port (if is_host_port s then u else begin uf_port p 0 u)
account s userinfo p u = grow uf_userinfo (if is_userinfo s then u else begin uf_userinfo p 0 u)
account s dead p u = u
account s userinfo_start p u = u
account s host_start p u = u
account s host_v6_start p u = u
account s host_v6_end p u = u
account s host_port_start p u = u

unfoldable pub is_dead : HostState → Bool
is_dead dead = true
is_dead s = false

-- The last `switch` of `c_http_parse_host`: the states in which an address may end. A loop that went
-- on to its end is not in `dead`.
unfoldable pub ends_well : HostState → Bool
ends_well host = true
ends_well host_v6_end = true
ends_well host_port = true
ends_well dead = true
ends_well s = false

-- The loop, with `n` bytes left from index `p` on: what the function returns, and the fields.
unfoldable pub host_loop : Block ℕ → ℕ → ℕ → HostState → Url → Outcome (Bool × Url)
unfolding is_dead ends_well
host_loop buf zero p s u = ok (ends_well s, u)
host_loop buf (suc n) p s u = do
  ch ← load buf p
  let new_s = parse_host_char s ch
  let rest = host_loop buf n (p + 1) new_s (account s new_s p u)
  if is_dead new_s then ok (false, u) else rest

-- `true` is a return of 0, `false` a return of 1.
unfoldable pub parse_host : Block ℕ → Url → Bool → Outcome (Bool × Url)
parse_host buf u found_at = do
  assert (u.field_set uf_host)
  let d = u.field_data uf_host
  host_loop buf d.len d.off (if found_at then userinfo_start else host_start) (set_len uf_host 0 u)
