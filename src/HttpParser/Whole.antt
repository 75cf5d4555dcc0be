-- ===== src/HttpParser/Whole.antt =====
-- The callbacks for the start, the end and the body of a message do what they do on plain texts.
use network_c_http.Base.{
  ℕ, ◌<◌, ◌≡◌, refl, ap, ◌∙◌, true, List, [], ◌++◌, Option, none, some, length, ok, ◌>>=◌, ◌==◌,
  ltb, ◌+◌, ◌^◌, ◌&&◌, arith, inl, inr, Bool-cases,
}
use network_c_http.BufferChain.{BufferChain, buffer_chain_append, buffer_chain_new}
use network_c_http.BufferChain.Compact.{append-Appended, new-StandsFor}
use network_c_http.HttpMessage.{
  HttpMessage, Memory, http_message_set_version, http_message_set_method, http_message_get_body,
  http_message_set_body,
}
use network_c_http.HttpMessage.Strings.{clear-HasText}
use network_c_http.HttpMessage.Target.{set_target_lem}
use network_c_http.HttpParser.{
  HttpMessageParser, current_of, free_current, body_of, message_begin_cb, set_request_line,
  headers_complete_cb, body_data_cb, flush_header,
}
use network_c_http.HttpParser.Plain.{
  PlainMessage, PlainParser, can_free, can_set, cond_some, joined, plain_new, plain_flush,
  plain_line, plain_complete, plain_body, has_size, text_of,
}
use network_c_http.HttpParser.Views.{
  ParserIs, BodyIs, CurrentIs, current_cases, can_set_lem, block_of, new-MessageIs, free-MessageIs,
}
use network_c_http.HttpParser.Callbacks.{Follows, cond-Follows}
use network_c_http.HttpParser.Fields.{flush-Follows, then-Follows, size_test}

module _ (m : Memory) where
  free_current_lem :
      (c : Option HttpMessage) (v : Option PlainMessage)
      → CurrentIs m.uninitialised c v
      → can_free v ≡ true
      → free_current c ≡ ok tt
  unfolding free_current CurrentIs
  free_current_lem none none s e = refl
  free_current_lem none (some v) s e = elim s [ ]
  free_current_lem (some msg) none s e = elim s [ ]
  free_current_lem (some msg) (some v) s e = free-MessageIs m.uninitialised msg v s e

  pub begin-Follows :
      (p : HttpMessageParser) (v : PlainParser)
      → ParserIs m.uninitialised p v
      → Follows m (message_begin_cb m p) (
          cond_some (can_free v.msg) (record {
            state = v.state;
            status = [];
            url = [];
            name = [];
            value = [];
            msg = some (plain_new (block_of m));
          }))
  unfolding message_begin_cb Follows CurrentIs
  begin-Follows p v s = cond-Follows m (can_free v.msg) (message_begin_cb m p) _ λ free.
      let (msg, makes, fields) = new-MessageIs m in
      let (sb, clears1, status) = clear-HasText p.status_buf v.status s.status in
      let (ub, clears2, url) = clear-HasText p.url_buf v.url s.url in
      let (nb, clears3, name) = clear-HasText p.name_buf v.name s.name in
      let (vb, clears4, value) = clear-HasText p.value_buf v.value s.value in
      (
        record p {
          status_buf = sb;
          url_buf = ub;
          name_buf = nb;
          value_buf = vb;
          current_message = some msg;
        },
        rw
            (
              free_current_lem p.current_message v.msg s.msg free,
              makes,
              clears1,
              clears2,
              clears3,
              clears4,
            )
            refl,
        record {
          state = s.state;
          status = status;
          url = url;
          name = name;
          value = value;
          msg = fields;
        },
      )

  line-Follows :
      (p : HttpMessageParser) (v : PlainParser) (maj minor meth : ℕ) (pm : Option PlainMessage)
      → ParserIs m.uninitialised p v
      → CurrentIs m.uninitialised p.current_message pm
      → Follows m
          (current_of p.current_message >>= λ msg.
            set_request_line m p (http_message_set_version msg maj minor) meth >>= λ msg1.
            ok (record p { current_message = some msg1 }))
          (plain_line v minor meth pm)
  unfolding Follows current_of set_request_line plain_line CurrentIs http_message_set_version
      http_message_set_method
  line-Follows p v maj minor meth pm s cur =
      let size = size_test p.url_buf v.url s.url in
      elim (current_cases m.uninitialised p.current_message pm cur) [
        | inl e ↦ rw e.1 tt
        | inr c ↦
            let msg1 = record c.message { minor_vers = minor; method = meth } in
            elim (Bool-cases (length v.url == 0)) [
              | inl e ↦
                  rw (c.there, e)
                    (
                      record p { current_message = some (record c.message { minor_vers = minor }) },
                      rw (c.here, size, e) refl,
                      record {
                        state = s.state;
                        status = s.status;
                        url = s.url;
                        name = s.name;
                        value = s.value;
                        msg = record {
                          headers = c.same.headers;
                          body = c.same.body;
                          target = c.same.target;
                          reason = c.same.reason;
                          is_request = c.same.is_request;
                          status_code = c.same.status_code;
                          method = c.same.method;
                          major = c.same.major;
                          minor = refl;
                        };
                      },
                    )
              | inr e ↦
                  rw (c.there, e)
                    (cond-Follows m (can_set c.plain.target v.url) _ _ λ g.
                      let (unset, short, n) = can_set_lem c.plain.target v.url g in
                      let (t, sets, slot) =
                        set_target_lem m msg1 p.url_buf v.url s.url n short
                          (rw unset at c.same.target) in
                      (
                        record p { current_message = some (record msg1 { target = t }) },
                        rw (c.here, size, e, sets) refl,
                        record {
                          state = s.state;
                          status = s.status;
                          url = s.url;
                          name = s.name;
                          value = s.value;
                          msg = record {
                            headers = c.same.headers;
                            body = c.same.body;
                            target = slot;
                            reason = c.same.reason;
                            is_request = c.same.is_request;
                            status_code = c.same.status_code;
                            method = refl;
                            major = c.same.major;
                            minor = refl;
                          };
                        },
                      ))
            ]
      ]

  pub complete-Follows :
      (p : HttpMessageParser) (v : PlainParser) (maj minor meth : ℕ)
      → ParserIs m.uninitialised p v
      → Follows m
          (headers_complete_cb m p maj minor meth)
          (plain_complete minor meth (plain_flush v v.msg))
  unfolding headers_complete_cb plain_complete
  complete-Follows p v maj minor meth s =
      then-Follows m (flush_header m p) (plain_flush v v.msg) _ (plain_complete minor meth)
        (flush-Follows m p v v.msg s s.msg) refl
        λ q w t. line-Follows q w maj minor meth w.msg t t.msg

  body_append_lem :
      (c : Option BufferChain) (t : Option (List ℕ)) (bytes : List ℕ)
      → BodyIs c t
      → 0 < length bytes
      → length (text_of t) + length bytes + 128 < 2 ^ 31
      → (chain : BufferChain) × (buffer_chain_append m.chains (body_of c) bytes ≡ ok chain)
        × BodyIs (some chain) (some (joined t bytes))
  unfolding body_of BodyIs
  body_append_lem none none bytes s p small =
      let a = append-Appended m.chains buffer_chain_new [] bytes new-StandsFor p small in
      (a.after, a.runs, (a.chunks', a.stands, a.text))
  body_append_lem none (some t) bytes s p small = elim s [ ]
  body_append_lem (some chain) none bytes s p small = elim s [ ]
  body_append_lem (some chain) (some t) bytes (ks, stands, e) p small =
      let a =
        append-Appended m.chains chain ks bytes stands p (omega (arith, ap length e, small)) in
      (a.after, a.runs, (a.chunks', a.stands, a.text ∙ ap (λ l. l ++ bytes) e))

  pub body-Follows :
      (p : HttpMessageParser) (v : PlainParser) (bytes : List ℕ)
      → ParserIs m.uninitialised p v
      → Follows m (body_data_cb m p bytes) (plain_body v bytes v.msg)
  unfolding Follows body_data_cb current_of plain_body CurrentIs http_message_get_body
      http_message_set_body
  body-Follows p v bytes s = elim (current_cases m.uninitialised p.current_message v.msg s.msg) [
    | inl e ↦ rw e.1 tt
    | inr c ↦ rw c.there (
        cond-Follows m (ltb 0 (length bytes) && has_size c.plain.body bytes)
          (body_data_cb m p bytes) _
          λ g.
            let some_bytes : 0 < length bytes = ground (arith, g) in
            let small : length (text_of c.plain.body) + length bytes + 128 < 2 ^ 31 =
              ground (arith, g) in
            let (chain, runs, is) =
              body_append_lem c.message.body c.plain.body bytes c.same.body some_bytes small in
            (
              record p { current_message = some (record c.message { body = some chain }) },
              rw (c.here, runs) refl,
              record {
                state = s.state;
                status = s.status;
                url = s.url;
                name = s.name;
                value = s.value;
                msg = record {
                  headers = c.same.headers;
                  body = is;
                  target = c.same.target;
                  reason = c.same.reason;
                  is_request = c.same.is_request;
                  status_code = c.same.status_code;
                  method = c.same.method;
                  major = c.same.major;
                  minor = c.same.minor;
                };
              },
            ))
  ]
