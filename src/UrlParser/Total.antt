-- ===== src/UrlParser/Total.antt =====
-- `c_http_parser_parse_url` as a whole: it always returns, and what it accepts is well formed.
use mathlib.Core.Bool.{false≢true}
use network_c_http.Base.{
  ℕ, zero, suc, ◌+◌, ◌-◌, ◌*◌, ◌%◌, ◌^◌, ◌≤◌, ◌<◌, ◌≡◌, refl, sym, ◌∙◌, Bool, true, false, not,
  ◌&&◌, ◌||◌, arith, Outcome, ok, abort, fault, ◌>>=◌, lt→ltb, ltb, leb, leb→le, le→leb, ◌==◌,
  if◌then◌else◌, Bool-cases, inl, inr, none, some, List, [], ◌∷◌,
}
use network_c_http.Base.Cells.{Block, segment}
use network_c_http.UrlParser.Chars.{is_num}
use network_c_http.UrlParser.Machine.{req_server_start, req_spaces_before_url}
use network_c_http.UrlParser.Url.{Url, uf_schema, uf_host, uf_port, uf_max, u16}
use network_c_http.UrlParser.Host.{parse_host}
use network_c_http.UrlParser.Parse.{
  Scanned, rejected, scanned, scan, port_loop, parse_port, check_host, host_and_port_only,
  parse_url,
}
use network_c_http.UrlParser.Inside.Fields.{Within-Same, Digits, bytes, decimal}
use network_c_http.UrlParser.Inside.ScanRun.{ScanInv, ScanOk, scan-ScanOk}
use network_c_http.UrlParser.Inside.HostEnd.{FieldsInside, HostOk, parse_host-HostOk}

decimal_ge : (v : ℕ) (cs : List ℕ) → v ≤ decimal v cs
unfolding decimal
decimal_ge v [] = omega arith
decimal_ge v (c ∷ cs) = omega (arith, decimal_ge (v * 10 + (c - b'0')) cs)

digit_range : (c : ℕ) → is_num c ≡ true → (b'0' ≤ c) × (c ≤ b'9')
unfolding is_num
digit_range c e = ground arith

-- The port loop computes the decimal value of its digits, unless that is above 65535.
pub port_loop-decimal :
    (buf : Block ℕ) (n p v : ℕ)
    → p + n ≤ buf.size
    → Digits (segment buf.cell p n)
    → v ≤ 0xffff
    → port_loop buf n p v
      ≡ ok (
          if leb (decimal v (segment buf.cell p n)) 0xffff
          then some (decimal v (segment buf.cell p n))
          else none)
unfolding port_loop decimal segment
port_loop-decimal buf zero p v h ds small = ground arith
port_loop-decimal buf (suc n) p v h ds small =
    let c = buf.cell p in
    let range = digit_range c ds.0 in
    let w = v * 10 + (c - b'0') in
    let value : (v * 10 % 2 ^ 64 + c + 2 ^ 64 - b'0') % 2 ^ 64 ≡ w = omega arith in
    rw (lt→ltb p buf.size (omega arith), value)
      (elim (Bool-cases (ltb 0xffff w)) [
        | inl big ↦ ground (arith, decimal_ge w (segment buf.cell (p + 1) n))
        | inr ok_so_far ↦
            rw ok_so_far (port_loop-decimal buf n (p + 1) w (omega arith) ds.1 (ground arith))
      ])

-- What an accepted URL is: every field that is set is not empty and lies inside the text, the port
-- is a run of digits whose value is returned.
pub record Parsed (buf : Block ℕ) (u : Url) : Type 0 where
  pub inside : FieldsInside buf u
  pub port_value : u.field_set uf_port ≡ true → u.port ≡ decimal 0 (bytes buf u uf_port)
  pub port_small : u.field_set uf_port ≡ true → u.port < u16

pub Returns : Block ℕ → Outcome (Bool × Url) → Type 0
Returns buf (ok (true, u)) = Parsed buf u
Returns buf (ok (false, u)) = Unit
Returns buf abort = ⊥
Returns buf fault = ⊥

-- Setting the port changes no field.
with_port : Url → ℕ → Url
with_port u n = record u { port = n }

FieldsInside-with_port :
    (buf : Block ℕ) (u : Url) (n : ℕ) → FieldsInside buf u → FieldsInside buf (with_port u n)
unfolding with_port
FieldsInside-with_port buf u n v = record {
  within = λ k.
      Within-Same u (with_port u n) k buf.size (record { field = refl; bit = refl }) (v.within k);
  digits = v.digits;
}

parse_port-Returns :
    (buf : Block ℕ) (u : Url) → FieldsInside buf u → Returns buf (parse_port buf buf.size u)
unfolding parse_port Returns
parse_port-Returns buf u v = elim (Bool-cases (u.field_set uf_port)) [
  | inl e ↦
      let d = u.field_data uf_port in
      let room = (v.within uf_port).bounded e in
      let n = decimal 0 (bytes buf u uf_port) in
      let value = port_loop-decimal buf d.len d.off 0 room (v.digits e) (omega arith) in
      rw (e, le→leb (d.off + d.len) buf.size room, value)
        (elim (Bool-cases (leb n 0xffff)) [
          | inl small ↦
              let fits : n % u16 ≡ n = omega (arith, leb→le n 0xffff small) in
              rw small (
                unfold with_port in
                record {
                  inside = FieldsInside-with_port buf u (n % u16) v;
                  port_value = λ q. fits;
                  port_small = λ q. omega arith;
                })
          | inr big ↦ rw big tt
        ])
  | inr e ↦ rw e (record {
    inside = v;
    port_value = λ q. absurd (false≢true (sym e ∙ q));
    port_small = λ q. absurd (false≢true (sym e ∙ q));
  })
]

-- What follows the host.
connect_check : Block ℕ → Bool → Bool × Url → Outcome (Bool × Url)
connect_check buf is_connect (good, u') =
    if not good || is_connect && not (host_and_port_only u')
    then ok (false, u')
    else parse_port buf buf.size u'

connect_check-Returns :
    (buf : Block ℕ) (is_connect : Bool) (r : Outcome (Bool × Url))
    → HostOk buf r
    → Returns buf (r >>= connect_check buf is_connect)
unfolding connect_check HostOk Returns
connect_check-Returns buf is_connect (ok (true, u)) v =
    elim (Bool-cases (is_connect && not (host_and_port_only u))) [
      | inl e ↦ rw e tt
      | inr e ↦ rw e (parse_port-Returns buf u v)
    ]
connect_check-Returns buf is_connect (ok (false, u)) v = tt
connect_check-Returns buf is_connect abort v = absurd v
connect_check-Returns buf is_connect fault v = absurd v

hostless : (buf : Block ℕ) (u : Url) → ScanInv u buf.size → HostOk buf (ok (true, u))
unfolding HostOk
hostless buf u v = record {
  within = v.within;
  digits = λ e. absurd (false≢true (sym v.no_port ∙ e));
}

check_host-Returns :
    (buf : Block ℕ) (is_connect found_at : Bool) (u : Url)
    → buf.size < u16
    → ScanInv u buf.size
    → Returns buf (check_host buf buf.size is_connect found_at u)
unfolding check_host connect_check
check_host-Returns buf is_connect found_at u small v =
    elim (Bool-cases (u.field_set uf_schema && not (u.field_set uf_host))) [
      | inl e ↦ rw e (unfold Returns in tt)
      | inr e ↦ elim (Bool-cases (u.field_set uf_host)) [
        | inl h ↦
            rw (e, h)
              (connect_check-Returns buf is_connect (parse_host buf u found_at)
                (parse_host-HostOk buf u found_at small v h))
        | inr h ↦ rw (e, h) (connect_check-Returns buf is_connect (ok (true, u)) (hostless buf u v))
      ]
    ]

ScanInv-new : (u : Url) → ScanInv (record u { port = 0; field_set = λ k. false }) 0
ScanInv-new u = record {
  within = λ k. record { nonempty = λ e. cc; bounded = λ e. cc };
  no_port = refl;
  no_userinfo = refl;
}

-- What follows the loop.
check_scanned : Block ℕ → Bool → Scanned → Outcome (Bool × Url)
check_scanned buf is_connect r = elim r [
  | rejected u' ↦ ok (false, u')
  | scanned found_at u' ↦ check_host buf buf.size is_connect found_at u'
]

after_scan :
    (buf : Block ℕ) (is_connect : Bool) (r : Outcome Scanned)
    → buf.size < u16
    → ScanOk buf.size r
    → Returns buf (r >>= check_scanned buf is_connect)
unfolding ScanOk check_scanned
after_scan buf is_connect (ok (rejected u)) small v = unfold Returns in tt
after_scan buf is_connect (ok (scanned found_at u)) small v =
    check_host-Returns buf is_connect found_at u small v
after_scan buf is_connect abort small v = absurd v
after_scan buf is_connect fault small v = absurd v

-- On every text of less than 65536 bytes, and whatever the struct holds before,
-- `c_http_parser_parse_url` returns: no assertion fails and no byte outside the text is read. If it
-- accepts the text, then every field that is set is not empty and lies inside the text, and a port
-- that is set is a run of digits whose decimal value, below 65536, is the returned port.
pub parse_url-Returns :
    (buf : Block ℕ) (is_connect : Bool) (u : Url)
    → buf.size < u16
    → Returns buf (parse_url buf buf.size is_connect u)
unfolding parse_url check_scanned
parse_url-Returns buf is_connect u small = elim (Bool-cases (buf.size == 0)) [
  | inl e ↦ rw e (unfold Returns in tt)
  | inr e ↦ rw e (
      after_scan buf is_connect
        (scan buf buf.size 0 (if is_connect then req_server_start else req_spaces_before_url) uf_max
          false (record u { port = 0; field_set = λ k. false }))
        small (scan-ScanOk buf buf.size 0 _ uf_max false _ small (omega arith) (ScanInv-new u)))
]
