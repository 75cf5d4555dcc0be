-- ===== src/UrlParser/Url.antt =====
-- `struct c_http_parser_url` and `enum c_http_parser_url_fields` of url_parser.h.
use network_c_http.Base.{ℕ, ◌+◌, ◌%◌, ◌^◌, Bool, true, false}
use network_c_http.Base.Cells.{update}

-- `enum c_http_parser_url_fields`
abbrev pub uf_schema : ℕ
uf_schema = 0

abbrev pub uf_host : ℕ
uf_host = 1

abbrev pub uf_port : ℕ
uf_port = 2

abbrev pub uf_path : ℕ
uf_path = 3

abbrev pub uf_query : ℕ
uf_query = 4

abbrev pub uf_fragment : ℕ
uf_fragment = 5

abbrev pub uf_userinfo : ℕ
uf_userinfo = 6

abbrev pub uf_max : ℕ
uf_max = 7

-- An element of `field_data`; both fields are `uint16_t`.
pub record FieldData : Type 0 where
  pub off : ℕ
  pub len : ℕ

-- `field_set k` is the bit `1 << k` of the mask.
pub record Url : Type 0 where
  pub field_set : ℕ → Bool
  pub port : ℕ
  pub field_data : ℕ → FieldData

abbrev pub u16 : ℕ
u16 = 2 ^ 16

abbrev pub zero_field : FieldData
zero_field = record { off = 0; len = 0 }

-- `c_http_parser_url_init`: all members 0
unfoldable pub url_init : Url
url_init = record { field_set = λ k. false; port = 0; field_data = λ k. zero_field }

-- `u->field_data[uf].len++`
unfoldable pub grow : ℕ → Url → Url
grow uf u =
    let d = u.field_data uf in
    record u { field_data = update u.field_data uf (record d { len = (d.len + 1) % u16 }) }

-- The field begins at `p`, with length `n`, and its bit is set.
unfoldable pub begin : ℕ → ℕ → ℕ → Url → Url
begin uf p n u = record u {
  field_data = update u.field_data uf (record { off = p % u16; len = n });
  field_set = update u.field_set uf true;
}

-- `u->field_data[uf].off = (uint16_t)p`
unfoldable pub set_off : ℕ → ℕ → Url → Url
set_off uf p u =
    let d = u.field_data uf in
    record u { field_data = update u.field_data uf (record d { off = p % u16 }) }

-- `u->field_data[uf].len = n`
unfoldable pub set_len : ℕ → ℕ → Url → Url
set_len uf n u =
    let d = u.field_data uf in
    record u { field_data = update u.field_data uf (record d { len = n }) }
