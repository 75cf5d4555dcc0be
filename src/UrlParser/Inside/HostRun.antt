-- ===== src/UrlParser/Inside/HostRun.antt =====
-- The loop of `c_http_parse_host`: what each byte does in each of its states.
use network_c_http.Base.{ℕ, ◌+◌, ◌<◌, ◌≡◌, false, ◌||◌, ◌==◌, Bool-cases, inl, inr}
use network_c_http.Base.Cells.{Block}
use network_c_http.UrlParser.Chars.{is_num, is_alphanum, is_userinfo_char, is_host_char}
use network_c_http.UrlParser.Url.{Url, u16}
use network_c_http.UrlParser.Host.{
  HostState, dead, userinfo_start, userinfo, host_start, host_v6_start, host, host_v6, host_v6_end,
  host_v6_zone_start, host_v6_zone, host_port_start, host_port, parse_host_char, account, is_dead,
  v6_char, userinfo_char, colon_char, zone_char,
}
use network_c_http.UrlParser.Inside.HostSteps.{
  Phase, before, inside, in_port, HostInv, keep_before, keep_inside, enter_host, grow_host,
  enter_userinfo, grow_userinfo, enter_port, grow_port,
}

abbrev pub phase : HostState → Phase
phase dead = before
phase userinfo_start = before
phase userinfo = before
phase host_start = before
phase host_v6_start = before
phase host = inside
phase host_v6 = inside
phase host_v6_end = inside
phase host_v6_zone_start = inside
phase host_v6_zone = inside
phase host_port_start = inside
phase host_port = in_port

module _ (buf : Block ℕ) (small : buf.size < u16) where
  abbrev pub Inv : Url → ℕ → HostState → Type 0
  Inv u p s = HostInv buf u p (phase s)

  abbrev pub After : HostState → ℕ → Url → HostState → Type 0
  After s p u s' = is_dead s' ≡ false → Inv (account s s' p u) (p + 1) s'

  After-dead : (s : HostState) (p : ℕ) (u : Url) → After s p u dead
  unfolding is_dead
  After-dead s p u e = cc

  step_userinfo :
      (s : HostState) (u : Url) (p : ℕ)
      → After s p u host_start
      → After s p u userinfo
      → After s p u (userinfo_char (buf.cell p))
  unfolding userinfo_char
  step_userinfo s u p a b =
      let ch = buf.cell p in
      elim (Bool-cases (ch == b'@')) [
        | inl e ↦ rw e a
        | inr e ↦ elim (Bool-cases (is_userinfo_char ch)) [
          | inl f ↦ rw (e, f) b
          | inr f ↦ rw (e, f) (After-dead s p u)
        ]
      ]

  step_colon :
      (s : HostState) (u : Url) (p : ℕ)
      → After s p u host_port_start
      → After s p u (colon_char (buf.cell p))
  unfolding colon_char
  step_colon s u p a = elim (Bool-cases (buf.cell p == b':')) [
    | inl e ↦ rw e a
    | inr e ↦ rw e (After-dead s p u)
  ]

  step_zone :
      (s : HostState) (u : Url) (p : ℕ)
      → After s p u host_v6_zone
      → After s p u (zone_char (buf.cell p))
  unfolding zone_char
  step_zone s u p a =
      let ch = buf.cell p in
      elim (Bool-cases
        (is_alphanum ch || ch == b'%' || ch == b'.' || ch == b'-' || ch == b'_' || ch == b'~')) [
          | inl e ↦ rw e a
          | inr e ↦ rw e (After-dead s p u)
        ]

  -- A byte on which the loop goes on keeps the invariant.
  pub step :
      (s : HostState) (u : Url) (p : ℕ)
      → p < buf.size
      → Inv u p s
      → After s p u (parse_host_char s (buf.cell p))
  unfolding parse_host_char account
  step dead u p h v = After-dead dead p u
  step userinfo_start u p h v =
      step_userinfo userinfo_start u p (λ e. keep_before buf small u p v)
        (λ e. enter_userinfo buf small u p h v)
  step userinfo u p h v =
      step_userinfo userinfo u p (λ e. keep_before buf small u p v)
        (λ e. grow_userinfo buf small u p h v)
  step host_start u p h v =
      let ch = buf.cell p in
      elim (Bool-cases (ch == 91)) [
        | inl e ↦ rw e (λ a. keep_before buf small u p v)
        | inr e ↦ elim (Bool-cases (is_host_char ch)) [
          | inl f ↦ rw (e, f) (λ a. enter_host buf small u p h v)
          | inr f ↦ rw (e, f) (After-dead host_start p u)
        ]
      ]
  step host u p h v = elim (Bool-cases (is_host_char (buf.cell p))) [
    | inl f ↦ rw f (λ a. grow_host buf small u p h v)
    | inr f ↦ rw f (step_colon host u p (λ a. keep_inside buf small u p v))
  ]
  step host_v6_end u p h v = step_colon host_v6_end u p (λ a. keep_inside buf small u p v)
  step host_v6 u p h v =
      let ch = buf.cell p in
      elim (Bool-cases (ch == 93)) [
        | inl e ↦ rw e (λ a. keep_inside buf small u p v)
        | inr e ↦ elim (Bool-cases (v6_char ch)) [
          | inl f ↦ rw (e, f) (λ a. grow_host buf small u p h v)
          | inr f ↦ elim (Bool-cases (ch == b'%')) [
            | inl g ↦ rw (e, f, g) (λ a. grow_host buf small u p h v)
            | inr g ↦ rw (e, f, g) (After-dead host_v6 p u)
          ]
        ]
      ]
  step host_v6_start u p h v = elim (Bool-cases (v6_char (buf.cell p))) [
    | inl f ↦ rw f (λ a. enter_host buf small u p h v)
    | inr f ↦ rw f (After-dead host_v6_start p u)
  ]
  step host_v6_zone u p h v = elim (Bool-cases (buf.cell p == 93)) [
    | inl e ↦ rw e (λ a. keep_inside buf small u p v)
    | inr e ↦ rw e (step_zone host_v6_zone u p (λ a. grow_host buf small u p h v))
  ]
  step host_v6_zone_start u p h v =
      step_zone host_v6_zone_start u p (λ a. grow_host buf small u p h v)
  step host_port u p h v = elim (Bool-cases (is_num (buf.cell p))) [
    | inl f ↦ rw f (λ a. grow_port buf small u p h f v)
    | inr f ↦ rw f (After-dead host_port p u)
  ]
  step host_port_start u p h v = elim (Bool-cases (is_num (buf.cell p))) [
    | inl f ↦ rw f (λ a. enter_port buf small u p h f v)
    | inr f ↦ rw f (After-dead host_port_start p u)
  ]
