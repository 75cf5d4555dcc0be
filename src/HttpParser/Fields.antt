-- ===== src/HttpParser/Fields.antt =====
-- The callbacks for the headers do what they do on plain texts.
use network_c_http.Base.{
  ℕ, ◌≡◌, refl, ap, Bool, ◌&&◌, ◌||◌, List, [], ◌++◌, Option, none, some, length, Outcome, ◌>>=◌,
  ◌==◌, inl, inr, Bool-cases,
}
use network_c_http.Cbuffer.{Cbuffer, cbuffer_size}
use network_c_http.HttpMessage.{Memory}
use network_c_http.HttpMessage.Strings.{HasText, clear-HasText, append_piece-HasText}
use network_c_http.HttpMessage.Headers.{add_header_lem}
use network_c_http.HttpParser.{
  HttpMessageParser, header_state_nothing, header_state_field, header_state_value, current_of,
  flush_header, append_name, append_value, header_field_data_cb, header_value_data_cb,
}
use network_c_http.HttpParser.Plain.{
  PlainMessage, PlainParser, has_room, no_nul, cond_some, plain_flush, plain_name, plain_field,
  plain_value,
}
use network_c_http.HttpParser.Views.{
  ParserIs, CurrentIs, current_cases, no_nul-NoNul, has_room_lem, and_true, size_lem,
}
use network_c_http.HttpParser.Callbacks.{Follows, cond-Follows}

-- The buffer is empty where its text is.
pub size_test : (b : Cbuffer) (t : List ℕ) → HasText b t → (cbuffer_size b == 0) ≡ (length t == 0)
size_test b t h = ap (λ n. n == 0) (size_lem b t h)

module _ (m : Memory) where
  pub flush-Follows :
      (p : HttpMessageParser) (v : PlainParser) (pm : Option PlainMessage)
      → ParserIs m.uninitialised p v
      → CurrentIs m.uninitialised p.current_message pm
      → Follows m (flush_header m p) (plain_flush v pm)
  unfolding Follows flush_header current_of plain_flush CurrentIs
  flush-Follows p v pm s cur =
      let size = size_test p.name_buf v.name s.name in
      elim (current_cases m.uninitialised p.current_message pm cur) [
        | inl e ↦ rw e.1 (
            cond-Follows m (length v.name == 0) (flush_header m p) v λ g. (p, rw (size, g) refl, s))
        | inr c ↦ elim (Bool-cases (length v.name == 0)) [
          | inl g ↦ rw (c.there, g) (p, rw (size, g) refl, s)
          | inr g ↦
              rw (c.there, g)
                (cond-Follows m (no_nul v.name && no_nul v.value) (flush_header m p) _ λ nuls.
                  let (nk, nv) = and_true (no_nul v.name) (no_nul v.value) nuls in
                  let (hl, adds, stands) =
                    add_header_lem m c.message c.plain.headers p.name_buf p.value_buf v.name v.value
                      s.name s.value (no_nul-NoNul v.name nk) (no_nul-NoNul v.value nv)
                      c.same.headers in
                  let (nb, clears, name) = clear-HasText p.name_buf v.name s.name in
                  let (vb, clears', value) = clear-HasText p.value_buf v.value s.value in
                  (
                    record p {
                      name_buf = nb;
                      value_buf = vb;
                      current_message = some (record c.message { headers = hl });
                    },
                    rw (size, g, c.here, adds, clears, clears') refl,
                    record {
                      state = s.state;
                      status = s.status;
                      url = s.url;
                      name = name;
                      value = value;
                      msg = record {
                        headers = stands;
                        body = c.same.body;
                        target = c.same.target;
                        reason = c.same.reason;
                        is_request = c.same.is_request;
                        status_code = c.same.status_code;
                        method = c.same.method;
                        major = c.same.major;
                        minor = c.same.minor;
                      };
                    },
                  ))
        ]
      ]

  -- A callback after another that follows.
  pub then-Follows :
      (r : Outcome HttpMessageParser) (o : Option PlainParser)
      (f : HttpMessageParser → Outcome HttpMessageParser)
      (g : Option PlainParser → Option PlainParser)
      → Follows m r o
      → g none ≡ none
      → ((p : HttpMessageParser) (v : PlainParser)
          → ParserIs m.uninitialised p v
          → Follows m (f p) (g (some v)))
      → Follows m (r >>= f) (g o)
  unfolding Follows
  then-Follows r none f g h strict k = rw strict tt
  then-Follows r (some v) f g (p, runs, s) strict k = rw runs (k p v s)

  name-Follows :
      (p : HttpMessageParser) (v : PlainParser) (bytes : List ℕ)
      → ParserIs m.uninitialised p v
      → Follows m (append_name m p bytes) (plain_name bytes (some v))
  unfolding plain_name append_name Follows
  name-Follows p v bytes s =
      cond-Follows m (has_room v.name bytes) (append_name m p bytes) _ λ room.
        let (small, below) = has_room_lem v.name bytes room in
        let (b, runs, h) =
          append_piece-HasText m.uninitialised p.name_buf v.name bytes s.name small below in
        (
          record p { name_buf = b; header_state = header_state_field },
          rw runs refl,
          record {
            state = refl;
            status = s.status;
            url = s.url;
            name = h;
            value = s.value;
            msg = s.msg;
          },
        )

  pub field-Follows :
      (p : HttpMessageParser) (v : PlainParser) (bytes : List ℕ)
      → ParserIs m.uninitialised p v
      → Follows m (header_field_data_cb m p bytes) (plain_field v bytes)
  unfolding plain_field header_field_data_cb Follows plain_name
  field-Follows p v bytes s =
      let flush =
        then-Follows (flush_header m p) (plain_flush v v.msg) (λ q. append_name m q bytes)
          (plain_name bytes) (flush-Follows p v v.msg s s.msg) refl
          λ q w t. name-Follows q w bytes t in
      let test : ℕ → Bool =
        λ n. (n == 0) || (n == header_state_nothing) || (n == header_state_value) in
      let same = ap test s.state in
      let same' = ap (λ n. n == header_state_field) s.state in
      elim (Bool-cases (test v.state)) [
        | inl e ↦ rw (same, e) flush
        | inr e ↦ elim (Bool-cases (v.state == header_state_field)) [
          | inl f ↦ rw (same, e, same', f) (name-Follows p v bytes s)
          | inr f ↦ rw (same, e, same', f) tt
        ]
      ]

  value_of-Follows :
      (p : HttpMessageParser) (v : PlainParser) (b : Cbuffer) (old bytes : List ℕ)
      → ParserIs m.uninitialised p v
      → HasText b old
      → Follows m (append_value m p b bytes) (
          cond_some
            (has_room old bytes)
            (record v { value = old ++ bytes; state = header_state_value }))
  unfolding append_value Follows
  value_of-Follows p v b old bytes s held =
      cond-Follows m (has_room old bytes) (append_value m p b bytes) _ λ room.
        let (small, below) = has_room_lem old bytes room in
        let (b', runs, h) = append_piece-HasText m.uninitialised b old bytes held small below in
        (
          record p { value_buf = b'; header_state = header_state_value },
          rw runs refl,
          record {
            state = refl;
            status = s.status;
            url = s.url;
            name = s.name;
            value = h;
            msg = s.msg;
          },
        )

  pub value-Follows :
      (p : HttpMessageParser) (v : PlainParser) (bytes : List ℕ)
      → ParserIs m.uninitialised p v
      → Follows m (header_value_data_cb m p bytes) (plain_value v bytes)
  unfolding plain_value header_value_data_cb Follows
  value-Follows p v bytes s =
      let same = ap (λ n. n == header_state_field) s.state in
      let same' = ap (λ n. n == header_state_value) s.state in
      let (b, clears, held) = clear-HasText p.value_buf v.value s.value in
      elim (Bool-cases (v.state == header_state_field)) [
        | inl e ↦ rw (same, e, clears) (value_of-Follows p v b [] bytes s held)
        | inr e ↦ elim (Bool-cases (v.state == header_state_value)) [
          | inl f ↦
              rw (same, e, same', f) (value_of-Follows p v p.value_buf v.value bytes s s.value)
          | inr f ↦ rw (same, e, same', f) tt
        ]
      ]
