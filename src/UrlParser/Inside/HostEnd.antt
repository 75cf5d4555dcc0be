-- ===== src/UrlParser/Inside/HostEnd.antt =====
-- What `c_http_parse_host` leaves: every field inside the text.
use mathlib.Core.Path.{subst}
use mathlib.Core.Bool.{false≢true}
use native.Mathlib.Decide.{ℕ_discrete}
use network_c_http.Base.{
  ℕ, zero, suc, ◌+◌, ◌≤◌, ◌<◌, ◌≡◌, refl, sym, ◌∙◌, Bool, true, false, arith, Outcome, ok, abort,
  fault, lt→ltb, if◌then◌else◌, Bool-cases, inl, inr,
}
use network_c_http.Base.Cells.{Block}
use network_c_http.UrlParser.Url.{Url, uf_host, uf_port, uf_userinfo, set_len, u16}
use network_c_http.UrlParser.Host.{
  HostState, dead, userinfo_start, userinfo, host_start, host_v6_start, host, host_v6, host_v6_end,
  host_v6_zone_start, host_v6_zone, host_port_start, host_port, parse_host_char, account, is_dead,
  ends_well, host_loop, parse_host,
}
use network_c_http.UrlParser.Inside.Fields.{
  Within, Within-Same, set_len-Same, set_len_lem, Digits, bytes,
}
use network_c_http.UrlParser.Inside.HostSteps.{before, inside, in_port, HostInv}
use network_c_http.UrlParser.Inside.ScanRun.{ScanInv}
use network_c_http.UrlParser.Inside.HostRun.{phase, step}

-- Every field lies inside the text; the port, if there is one, is a run of digits.
pub record FieldsInside (buf : Block ℕ) (u : Url) : Type 0 where
  pub within : (k : ℕ) → Within u k buf.size
  pub digits : u.field_set uf_port ≡ true → Digits (bytes buf u uf_port)

unfoldable pub HostOk : Block ℕ → Outcome (Bool × Url) → Type 0
HostOk buf (ok (true, u)) = FieldsInside buf u
HostOk buf (ok (false, u)) = Unit
HostOk buf abort = ⊥
HostOk buf fault = ⊥

-- The fields when the loop stops in a state in which an address may end.
inside_done :
    (buf : Block ℕ) (u : Url) (p : ℕ) → p ≤ buf.size → HostInv buf u p inside → FieldsInside buf u
inside_done buf u p h v = record {
  within = λ k. elim (ℕ_discrete k uf_host) [
    | yes e ↦
        subst (λ i. Within u i buf.size) (sym e)
          (record { nonempty = λ q. v.host_len; bounded = λ q. omega (arith, v.host_end) })
    | no a ↦ elim (ℕ_discrete k uf_port) [
      | yes e ↦
          subst (λ i. Within u i buf.size) (sym e)
            (record {
              nonempty = λ q. ground (arith, v.port);
              bounded = λ q. ground (arith, v.port);
            })
      | no b ↦ v.others k a b
    ]
  ];
  digits = λ e. absurd (false≢true (sym v.port ∙ e));
}

in_port_done :
    (buf : Block ℕ) (u : Url) (p : ℕ) → p ≤ buf.size → HostInv buf u p in_port → FieldsInside buf u
in_port_done buf u p h v = record {
  within = λ k. elim (ℕ_discrete k uf_host) [
    | yes e ↦
        subst (λ i. Within u i buf.size) (sym e)
          (record { nonempty = λ q. v.host_len; bounded = λ q. omega (arith, v.host_end) })
    | no a ↦ elim (ℕ_discrete k uf_port) [
      | yes e ↦
          subst (λ i. Within u i buf.size) (sym e)
            (record { nonempty = λ q. v.port.2; bounded = λ q. omega (arith, v.port.1) })
      | no b ↦ v.others k a b
    ]
  ];
  digits = λ e. v.port.3;
}

end_of_loop :
    (buf : Block ℕ) (s : HostState) (u : Url) (p : ℕ)
    → p ≤ buf.size
    → is_dead s ≡ false
    → HostInv buf u p (phase s)
    → HostOk buf (ok (ends_well s, u))
unfolding ends_well is_dead HostOk
end_of_loop buf dead u p h alive v = cc
end_of_loop buf userinfo_start u p h alive v = tt
end_of_loop buf userinfo u p h alive v = tt
end_of_loop buf host_start u p h alive v = tt
end_of_loop buf host_v6_start u p h alive v = tt
end_of_loop buf host u p h alive v = inside_done buf u p h v
end_of_loop buf host_v6 u p h alive v = tt
end_of_loop buf host_v6_end u p h alive v = inside_done buf u p h v
end_of_loop buf host_v6_zone_start u p h alive v = tt
end_of_loop buf host_v6_zone u p h alive v = tt
end_of_loop buf host_port_start u p h alive v = tt
end_of_loop buf host_port u p h alive v = in_port_done buf u p h v

host_loop-HostOk :
    (buf : Block ℕ) (n p : ℕ) (s : HostState) (u : Url)
    → buf.size < u16
    → p + n ≤ buf.size
    → is_dead s ≡ false
    → HostInv buf u p (phase s)
    → HostOk buf (host_loop buf n p s u)
unfolding host_loop
host_loop-HostOk buf zero p s u small e alive v = end_of_loop buf s u p (omega arith) alive v
host_loop-HostOk buf (suc n) p s u small e alive v =
    let new_s = parse_host_char s (buf.cell p) in
    let room : p < buf.size = omega arith in
    rw (lt→ltb p buf.size room) (elim (Bool-cases (is_dead new_s)) [
      | inl d ↦ rw d (unfold HostOk in tt)
      | inr d ↦ rw d (
          host_loop-HostOk buf n (p + 1) new_s (account s new_s p u) small (omega arith) d
            (step buf small s u p room v d))
    ])

-- `c_http_parse_host`, on what the first loop leaves when it has seen a host, ends without a failed
-- assertion and without a read outside the text.
pub parse_host-HostOk :
    (buf : Block ℕ) (u : Url) (found_at : Bool)
    → buf.size < u16
    → ScanInv u buf.size
    → u.field_set uf_host ≡ true
    → HostOk buf (parse_host buf u found_at)
unfolding parse_host
parse_host-HostOk buf u found_at small v bit =
    let d = u.field_data uf_host in
    let u0 = set_len uf_host 0 u in
    let (len, mask) = set_len_lem u uf_host 0 in
    let end = (v.within uf_host).bounded bit in
    let inv : HostInv buf u0 d.off before = record {
      others = λ k a b. Within-Same u u0 k buf.size (set_len-Same u k uf_host 0 a) (v.within k);
      userinfo_end = λ e.
          let s = set_len-Same u uf_userinfo uf_host 0 (omega arith) in
          absurd (false≢true (sym v.no_userinfo ∙ (sym s.bit ∙ e)));
      host_set = mask ∙ bit;
      host_end = rw len (omega arith);
      host_len = rw len;
      port = (set_len-Same u uf_port uf_host 0 (omega arith)).bit ∙ v.no_port;
    } in
    rw bit (go found_at inv end)
  where
    go :
        (b : Bool)
        → HostInv buf (set_len uf_host 0 u) (u.field_data uf_host).off before
        → (u.field_data uf_host).off + (u.field_data uf_host).len ≤ buf.size
        → HostOk buf (
            host_loop buf
              (u.field_data uf_host).len
              (u.field_data uf_host).off
              (if b then userinfo_start else host_start)
              (set_len uf_host 0 u))
    go true inv end =
        host_loop-HostOk buf _ _ userinfo_start _ small end (unfold is_dead in refl) inv
    go false inv end = host_loop-HostOk buf _ _ host_start _ small end (unfold is_dead in refl) inv
