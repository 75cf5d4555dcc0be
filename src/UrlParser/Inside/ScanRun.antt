-- ===== src/UrlParser/Inside/ScanRun.antt =====
-- The first loop of `c_http_parser_parse_url` ends, and leaves every field inside the text.
use network_c_http.Base.{
  ℕ, zero, suc, ◌+◌, ◌<◌, ◌≡◌, ◌≢◌, refl, ◌∙◌, Bool, false, ◌||◌, arith, ◌⊎◌, inl, inr, Outcome, ok,
  abort, fault, lt→ltb, ◌==◌, Bool-cases,
}
use mathlib.Core.Path.{subst, sym}
use native.Mathlib.Decide.{ℕ_discrete}
use network_c_http.Base.Cells.{Block}
use network_c_http.UrlParser.Machine.{
  State, dead, req_spaces_before_url, req_schema, req_schema_slash, req_schema_slash_slash,
  req_server_start, req_server, req_server_with_at, req_path, req_query_string_start,
  req_query_string, req_fragment_start, req_fragment, parse_url_char,
}
use network_c_http.UrlParser.Url.{Url, uf_port, uf_userinfo, grow, begin, u16}
use network_c_http.UrlParser.Parse.{
  Part, failure, delimiter, field, part, at_seen, Scanned, rejected, scanned, in_field, scan,
}
use network_c_http.UrlParser.Inside.Fields.{
  Within, Within-mono, Within-Same, Within-grow, Within-begin, Same, grow-Same, begin-Same,
}

-- The parser never returns to its first state.
parse_url_char-ne : (s : State) (ch : ℕ) → parse_url_char s ch ≢ req_spaces_before_url
unfolding parse_url_char
parse_url_char-ne dead ch = ground arith
parse_url_char-ne req_spaces_before_url ch = ground arith
parse_url_char-ne req_schema ch = ground arith
parse_url_char-ne req_schema_slash ch = ground arith
parse_url_char-ne req_schema_slash_slash ch = ground arith
parse_url_char-ne req_server_start ch = ground arith
parse_url_char-ne req_server ch = ground arith
parse_url_char-ne req_server_with_at ch = ground arith
parse_url_char-ne req_path ch = ground arith
parse_url_char-ne req_query_string_start ch = ground arith
parse_url_char-ne req_query_string ch = ground arith
parse_url_char-ne req_fragment_start ch = ground arith
parse_url_char-ne req_fragment ch = ground arith

-- What the `switch` of the loop can make of a state other than the first.
abbrev Parts : Part → Type 0
Parts q =
    (q ≡ failure)
    ⊎ ((q ≡ delimiter) ⊎ ((k : ℕ) × (q ≡ field k) × (k ≢ uf_port) × (k ≢ uf_userinfo)))

part_cases : (s : State) → s ≢ req_spaces_before_url → Parts (part s)
unfolding part
part_cases dead h = inl refl
part_cases req_spaces_before_url h = absurd (h refl)
part_cases req_schema h = inr (inr (0, refl, omega arith, omega arith))
part_cases req_schema_slash h = inr (inl refl)
part_cases req_schema_slash_slash h = inr (inl refl)
part_cases req_server_start h = inr (inl refl)
part_cases req_server h = inr (inr (1, refl, omega arith, omega arith))
part_cases req_server_with_at h = inr (inr (1, refl, omega arith, omega arith))
part_cases req_path h = inr (inr (3, refl, omega arith, omega arith))
part_cases req_query_string_start h = inr (inl refl)
part_cases req_query_string h = inr (inr (4, refl, omega arith, omega arith))
part_cases req_fragment_start h = inr (inl refl)
part_cases req_fragment h = inr (inr (5, refl, omega arith, omega arith))

-- The fields up to index `p`: each lies below `p`, and port and user information come later.
pub record ScanInv (u : Url) (p : ℕ) : Type 0 where
  pub within : (k : ℕ) → Within u k p
  pub no_port : u.field_set uf_port ≡ false
  pub no_userinfo : u.field_set uf_userinfo ≡ false

ScanInv-next : (u : Url) (p : ℕ) → ScanInv u p → ScanInv u (p + 1)
ScanInv-next u p v = record {
  within = λ k. Within-mono u k p (p + 1) (omega arith) (v.within k);
  no_port = v.no_port;
  no_userinfo = v.no_userinfo;
}

ScanInv-change :
    (u u' : Url) (k p : ℕ)
    → k ≢ uf_port
    → k ≢ uf_userinfo
    → ScanInv u p
    → ((j : ℕ) → j ≢ k → Same u u' j)
    → Within u' k (p + 1)
    → ScanInv u' (p + 1)
ScanInv-change u u' k p a b v same own = record {
  within = λ j. elim (ℕ_discrete j k) [
    | yes e ↦ subst (λ i. Within u' i (p + 1)) (sym e) own
    | no ne ↦
        Within-Same u u' j (p + 1) (same j ne)
          (Within-mono u j p (p + 1) (omega arith) (v.within j))
  ];
  no_port = (same uf_port (λ e. a (sym e))).bit ∙ v.no_port;
  no_userinfo = (same uf_userinfo (λ e. b (sym e))).bit ∙ v.no_userinfo;
}

in_field-ScanInv :
    (u : Url) (k old p : ℕ)
    → k ≢ uf_port
    → k ≢ uf_userinfo
    → p + 1 < u16
    → ScanInv u p
    → ScanInv (in_field k old p u) (p + 1)
unfolding in_field
in_field-ScanInv u k old p a b h v = elim (Bool-cases (k == old)) [
  | inl e ↦ rw e (
      ScanInv-change u (grow k u) k p a b v (λ j. grow-Same u j k)
        (Within-grow u k p h (v.within k)))
  | inr e ↦ rw e (
      ScanInv-change u (begin k p 1 u) k p a b v (λ j. begin-Same u j k p 1) (Within-begin u k p h))
]

-- The loop ended as it should.
unfoldable pub ScanOk : ℕ → Outcome Scanned → Type 0
ScanOk size (ok (rejected u)) = Unit
ScanOk size (ok (scanned found_at u)) = ScanInv u size
ScanOk size abort = ⊥
ScanOk size fault = ⊥

pub scan-ScanOk :
    (buf : Block ℕ) (n p : ℕ) (s : State) (old : ℕ) (found_at : Bool) (u : Url)
    → buf.size < u16
    → p + n ≡ buf.size
    → ScanInv u p
    → ScanOk buf.size (scan buf n p s old found_at u)
unfolding scan ScanOk
scan-ScanOk buf zero p s old found_at u small e v =
    let end : p ≡ buf.size = omega arith in subst (ScanInv u) end v
scan-ScanOk buf (suc n) p s old found_at u small e v =
    let ch = buf.cell p in
    let s' = parse_url_char s ch in
    rw (lt→ltb p buf.size (omega arith)) (elim (part_cases s' (parse_url_char-ne s ch)) [
      | inl q ↦ rw (q, ScanOk) tt
      | inr (inl q) ↦
          rw (q, ScanOk)
            (scan-ScanOk buf n (p + 1) s' old found_at u small (omega arith) (ScanInv-next u p v))
      | inr (inr (k, q, a, b)) ↦
          rw (q, ScanOk)
            (scan-ScanOk buf n (p + 1) s' k (found_at || at_seen s') (in_field k old p u) small
              (omega arith) (in_field-ScanInv u k old p a b (omega arith) v))
    ])
