-- ===== src/HttpParser/Callbacks.antt =====
-- Each callback of the message parser does what it does on plain texts.
use network_c_http.Base.{
  ℕ, ◌≡◌, refl, Bool, true, false, ◌&&◌, List, ◌++◌, Option, none, some, Outcome, ok, inl, inr,
  Bool-cases,
}
use network_c_http.HttpMessage.{Memory, http_message_set_is_request, http_message_set_status}
use network_c_http.HttpMessage.Strings.{append_piece-HasText}
use network_c_http.HttpMessage.Target.{set_reason_lem}
use network_c_http.HttpParser.{HttpMessageParser, url_data_cb, status_data_cb, current_of}
use network_c_http.HttpParser.Plain.{
  PlainParser, has_room, can_set, cond_some, plain_url, plain_status,
}
use network_c_http.HttpParser.Views.{
  ParserIs, CurrentIs, current_cases, has_room_lem, can_set_lem, and_true,
}

module _ (m : Memory) where
  -- The callback succeeds where the plain one does, and the parsers then agree.
  unfoldable pub Follows : Outcome HttpMessageParser → Option PlainParser → Type 0
  Follows r none = Unit
  Follows r (some v) = (p : HttpMessageParser) × (r ≡ ok p) × ParserIs m.uninitialised p v

  pub cond-Follows :
      (b : Bool) (r : Outcome HttpMessageParser) (v : PlainParser)
      → (b ≡ true → (p : HttpMessageParser) × (r ≡ ok p) × ParserIs m.uninitialised p v)
      → Follows r (cond_some b v)
  unfolding Follows
  cond-Follows b r v h = elim (Bool-cases b) [ inl e ↦ rw e (h e) | inr e ↦ rw e tt ]

  pub url-Follows :
      (p : HttpMessageParser) (v : PlainParser) (bytes : List ℕ)
      → ParserIs m.uninitialised p v
      → Follows (url_data_cb m p bytes) (plain_url v bytes v.msg)
  unfolding Follows url_data_cb current_of plain_url CurrentIs http_message_set_is_request
  url-Follows p v bytes s = elim (current_cases m.uninitialised p.current_message v.msg s.msg) [
    | inl e ↦ rw e.1 tt
    | inr c ↦ rw c.there (
        cond-Follows (has_room v.url bytes) (url_data_cb m p bytes) _ λ room.
          let (small, below) = has_room_lem v.url bytes room in
          let (b, runs, h) =
            append_piece-HasText m.uninitialised p.url_buf v.url bytes s.url small below in
          (
            record p {
              url_buf = b;
              current_message = some (record c.message { is_request = true });
            },
            rw (c.here, runs) refl,
            record {
              state = s.state;
              status = s.status;
              url = h;
              name = s.name;
              value = s.value;
              msg = record {
                headers = c.same.headers;
                body = c.same.body;
                target = c.same.target;
                reason = c.same.reason;
                is_request = refl;
                status_code = c.same.status_code;
                method = c.same.method;
                major = c.same.major;
                minor = c.same.minor;
              };
            },
          ))
  ]

  pub status-Follows :
      (p : HttpMessageParser) (v : PlainParser) (code : ℕ) (bytes : List ℕ)
      → ParserIs m.uninitialised p v
      → Follows (status_data_cb m p code bytes) (plain_status v code bytes v.msg)
  unfolding Follows status_data_cb current_of plain_status CurrentIs http_message_set_is_request
      http_message_set_status
  status-Follows p v code bytes s =
      elim (current_cases m.uninitialised p.current_message v.msg s.msg) [
        | inl e ↦ rw e.1 tt
        | inr c ↦ rw c.there (
            cond-Follows (has_room v.status bytes && can_set c.plain.reason (v.status ++ bytes))
              (status_data_cb m p code bytes) _
              λ g.
                let (room, free) =
                  and_true (has_room v.status bytes) (can_set c.plain.reason (v.status ++ bytes))
                    g in
                let (small, below) = has_room_lem v.status bytes room in
                let (b, runs, h) =
                  append_piece-HasText m.uninitialised p.status_buf v.status bytes s.status small
                    below in
                let (unset, short, n) = can_set_lem c.plain.reason (v.status ++ bytes) free in
                let msg2 = record c.message { is_request = false; status_code = code } in
                let (r, sets, slot) =
                  set_reason_lem m msg2 b (v.status ++ bytes) h n short
                    (rw unset at c.same.reason) in
                (
                  record p { status_buf = b; current_message = some (record msg2 { reason = r }) },
                  rw (c.here, runs, sets) refl,
                  record {
                    state = s.state;
                    status = h;
                    url = s.url;
                    name = s.name;
                    value = s.value;
                    msg = record {
                      headers = c.same.headers;
                      body = c.same.body;
                      target = c.same.target;
                      reason = slot;
                      is_request = refl;
                      status_code = refl;
                      method = c.same.method;
                      major = c.same.major;
                      minor = c.same.minor;
                    };
                  },
                ))
      ]
