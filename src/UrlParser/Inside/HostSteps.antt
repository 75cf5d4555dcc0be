-- ===== src/UrlParser/Inside/HostSteps.antt =====
-- The loop of `c_http_parse_host`: what each kind of byte does to the fields.
use mathlib.Core.Path.{subst}
use native.Mathlib.Decide.{ℕ_discrete}
use network_c_http.Base.{
  ℕ, ◌+◌, ◌%◌, ◌≤◌, ◌<◌, ◌≡◌, ◌≢◌, sym, ◌∙◌, true, false, arith, List, [], ◌∷◌, ◌++◌, All,
}
use network_c_http.Base.Cells.{Block, segment, segment-append}
use network_c_http.UrlParser.Chars.{is_num}
use network_c_http.UrlParser.Url.{Url, uf_host, uf_port, uf_userinfo, grow, begin, set_off, u16}
use network_c_http.UrlParser.Inside.Fields.{
  Within, Within-mono, Within-Same, Same, Same-trans, grow-Same, set_off-Same, begin-Same, grow_lem,
  set_off_lem, begin_lem, Digits, bytes,
}

-- Before the host's first byte, in it or behind it, and in the port.
pub data Phase : Type 0 where
  before : Phase
  inside : Phase
  in_port : Phase

abbrev pub Host : Url → Phase → Type 0
Host u before = (u.field_data uf_host).len ≡ 0
Host u inside = 0 < (u.field_data uf_host).len
Host u in_port = 0 < (u.field_data uf_host).len

abbrev pub Port : Block ℕ → Url → ℕ → Phase → Type 0
Port buf u p before = u.field_set uf_port ≡ false
Port buf u p inside = u.field_set uf_port ≡ false
Port buf u p in_port =
    (u.field_set uf_port ≡ true)
    × ((u.field_data uf_port).off + (u.field_data uf_port).len ≡ p)
    × (0 < (u.field_data uf_port).len)
    × Digits (bytes buf u uf_port)

-- The fields at index `p`.
pub record HostInv (buf : Block ℕ) (u : Url) (p : ℕ) (phase : Phase) : Type 0 where
  pub others : (k : ℕ) → k ≢ uf_host → k ≢ uf_port → Within u k buf.size
  pub userinfo_end :
      u.field_set uf_userinfo ≡ true
      → (u.field_data uf_userinfo).off + (u.field_data uf_userinfo).len ≤ p
  pub host_set : u.field_set uf_host ≡ true
  pub host_end : (u.field_data uf_host).off + (u.field_data uf_host).len ≤ p
  pub host_len : Host u phase
  pub port : Port buf u p phase

All-append {ℓ} :
    {A : Type ℓ} (P : A → Type 0) (xs ys : List A) → All P xs → All P ys → All P (xs ++ ys)
All-append P [] ys a b = b
All-append P (x ∷ xs) ys a b = (a.0, All-append P xs ys a.1 b)

-- One more digit behind a run of digits.
Digits-more :
    (f : ℕ → ℕ) (off len p : ℕ)
    → off + len ≡ p
    → Digits (segment f off len)
    → is_num (f p) ≡ true
    → Digits (segment f off (len + 1))
unfolding segment
Digits-more f off len p e ds d =
    rw segment-append (All-append (λ c. is_num c ≡ true) (segment f off len) _ ds ((rw e d), tt))

module _ (buf : Block ℕ) (small : buf.size < u16) where
  -- A byte that only moves on.
  pub keep_before : (u : Url) (p : ℕ) → HostInv buf u p before → HostInv buf u (p + 1) before
  keep_before u p v = record {
    others = v.others;
    userinfo_end = λ e. omega (arith, v.userinfo_end e);
    host_set = v.host_set;
    host_end = omega (arith, v.host_end);
    host_len = v.host_len;
    port = v.port;
  }

  pub keep_inside : (u : Url) (p : ℕ) → HostInv buf u p inside → HostInv buf u (p + 1) inside
  keep_inside u p v = record {
    others = v.others;
    userinfo_end = λ e. omega (arith, v.userinfo_end e);
    host_set = v.host_set;
    host_end = omega (arith, v.host_end);
    host_len = v.host_len;
    port = v.port;
  }

  -- A change of the host alone.
  change_host :
      (u u' : Url) (p : ℕ) (phase : Phase)
      → HostInv buf u p phase
      → u.field_set uf_port ≡ false
      → ((j : ℕ) → j ≢ uf_host → Same u u' j)
      → u'.field_set uf_host ≡ true
      → (u'.field_data uf_host).off + (u'.field_data uf_host).len ≤ p + 1
      → 0 < (u'.field_data uf_host).len
      → HostInv buf u' (p + 1) inside
  change_host u u' p phase v no_port same bit end pos = record {
    others = λ k a b. Within-Same u u' k buf.size (same k a) (v.others k a b);
    userinfo_end =
        let s = same uf_userinfo (omega arith) in
        λ e. rw s.field (omega (arith, v.userinfo_end (rw s.bit at e)));
    host_set = bit;
    host_end = end;
    host_len = pos;
    port = (same uf_port (omega arith)).bit ∙ no_port;
  }

  -- The first byte of the host.
  pub enter_host :
      (u : Url) (p : ℕ)
      → p < buf.size
      → HostInv buf u p before
      → HostInv buf (grow uf_host (set_off uf_host p u)) (p + 1) inside
  enter_host u p h v =
      let u1 = set_off uf_host p u in
      let (d1, b1) = set_off_lem u uf_host p in
      let (d2, b2) = grow_lem u1 uf_host in
      change_host u (grow uf_host u1) p before v v.port
        (λ j ne.
          Same-trans u u1 (grow uf_host u1) j (set_off-Same u j uf_host p ne)
            (grow-Same u1 j uf_host ne))
        (b2 ∙ b1 ∙ v.host_set) (rw (d2, d1) (omega (arith, v.host_len)))
        (rw (d2, d1) (omega (arith, v.host_len)))

  -- A further byte of the host.
  pub grow_host :
      (u : Url) (p : ℕ)
      → p < buf.size
      → HostInv buf u p inside
      → HostInv buf (grow uf_host u) (p + 1) inside
  grow_host u p h v =
      let (d, b) = grow_lem u uf_host in
      change_host u (grow uf_host u) p inside v v.port (λ j ne. grow-Same u j uf_host ne)
        (b ∙ v.host_set) (rw d (omega (arith, v.host_end))) (rw d (omega (arith, v.host_end)))

  -- A change of the user information alone.
  change_userinfo :
      (u u' : Url) (p : ℕ)
      → p < buf.size
      → HostInv buf u p before
      → ((j : ℕ) → j ≢ uf_userinfo → Same u u' j)
      → Within u' uf_userinfo (p + 1)
      → HostInv buf u' (p + 1) before
  change_userinfo u u' p h v same own =
      let s = same uf_host (omega arith) in
      record {
        others = λ k a b. elim (ℕ_discrete k uf_userinfo) [
          | yes e ↦
              subst (λ i. Within u' i buf.size) (sym e)
                (Within-mono u' uf_userinfo (p + 1) buf.size (omega arith) own)
          | no ne ↦ Within-Same u u' k buf.size (same k ne) (v.others k a b)
        ];
        userinfo_end = own.bounded;
        host_set = s.bit ∙ v.host_set;
        host_end = rw s.field (omega (arith, v.host_end));
        host_len = rw s.field v.host_len;
        port = (same uf_port (omega arith)).bit ∙ v.port;
      }

  pub enter_userinfo :
      (u : Url) (p : ℕ)
      → p < buf.size
      → HostInv buf u p before
      → HostInv buf (grow uf_userinfo (begin uf_userinfo p 0 u)) (p + 1) before
  enter_userinfo u p h v =
      let u1 = begin uf_userinfo p 0 u in
      let (d1, b1) = begin_lem u uf_userinfo p 0 in
      let (d2, b2) = grow_lem u1 uf_userinfo in
      change_userinfo u (grow uf_userinfo u1) p h v
        (λ j ne.
          Same-trans u u1 (grow uf_userinfo u1) j (begin-Same u j uf_userinfo p 0 ne)
            (grow-Same u1 j uf_userinfo ne))
        (record {
          nonempty = λ e. rw (d2, d1) (omega arith);
          bounded = λ e. rw (d2, d1) (omega arith);
        })

  pub grow_userinfo :
      (u : Url) (p : ℕ)
      → p < buf.size
      → HostInv buf u p before
      → HostInv buf (grow uf_userinfo u) (p + 1) before
  grow_userinfo u p h v =
      let (d, b) = grow_lem u uf_userinfo in
      change_userinfo u (grow uf_userinfo u) p h v (λ j ne. grow-Same u j uf_userinfo ne)
        (record {
          nonempty = λ e. rw d (omega (arith, v.userinfo_end (rw b at e)));
          bounded = λ e. rw d (omega (arith, v.userinfo_end (rw b at e)));
        })

  -- A change of the port alone, by a digit.
  change-Port :
      (u u' : Url) (p : ℕ) (phase : Phase)
      → HostInv buf u p phase
      → Host u in_port
      → ((j : ℕ) → j ≢ uf_port → Same u u' j)
      → Port buf u' (p + 1) in_port
      → HostInv buf u' (p + 1) in_port
  change-Port u u' p phase v pos same own =
      let s = same uf_host (omega arith) in
      let i = same uf_userinfo (omega arith) in
      record {
        others = λ k a b. Within-Same u u' k buf.size (same k b) (v.others k a b);
        userinfo_end = λ e. rw i.field (omega (arith, v.userinfo_end (rw i.bit at e)));
        host_set = s.bit ∙ v.host_set;
        host_end = rw s.field (omega (arith, v.host_end));
        host_len = rw s.field pos;
        port = own;
      }

  -- The first digit of the port.
  pub enter_port :
      (u : Url) (p : ℕ)
      → p < buf.size
      → is_num (buf.cell p) ≡ true
      → HostInv buf u p inside
      → HostInv buf (grow uf_port (begin uf_port p 0 u)) (p + 1) in_port
  unfolding segment
  enter_port u p h digit v =
      let u1 = begin uf_port p 0 u in
      let (d1, b1) = begin_lem u uf_port p 0 in
      let (d2, b2) = grow_lem u1 uf_port in
      let at : p % u16 ≡ p = omega arith in
      change-Port u (grow uf_port u1) p inside v v.host_len
        (λ j ne.
          Same-trans u u1 (grow uf_port u1) j (begin-Same u j uf_port p 0 ne)
            (grow-Same u1 j uf_port ne))
        (b2 ∙ b1, rw (d2, d1) (omega arith), rw (d2, d1) (omega arith), rw (d2, d1, at) (digit, tt))

  -- A further digit of the port.
  pub grow_port :
      (u : Url) (p : ℕ)
      → p < buf.size
      → is_num (buf.cell p) ≡ true
      → HostInv buf u p in_port
      → HostInv buf (grow uf_port u) (p + 1) in_port
  grow_port u p h digit v =
      let (d, b) = grow_lem u uf_port in
      let off = (u.field_data uf_port).off in
      let len = (u.field_data uf_port).len in
      let whole : (len + 1) % u16 ≡ len + 1 = omega (arith, v.port.1) in
      change-Port u (grow uf_port u) p in_port v v.host_len (λ j ne. grow-Same u j uf_port ne)
        (
          b ∙ v.port.0,
          rw d (omega (arith, v.port.1)),
          rw d (omega (arith, v.port.1)),
          rw (d, whole) (Digits-more buf.cell off len p v.port.1 v.port.3 digit),
        )
