-- ===== src/HttpParser/Messages.antt =====
-- The parser on plain texts makes the messages of a connection, one after the other.
use network_c_http.Base.{
  ℕ, ◌+◌, ◌^◌, ◌<◌, ◌≡◌, refl, ap, ◌∙◌, true, false, List, [], ◌∷◌, ◌++◌, append_assoc, map, Option,
  none, some, arith, length, length-append, ◌==◌, lt→ltb, inl, inr, Bool-cases, All,
}
use network_c_http.Cbuffer.Texts.{concat}
use network_c_http.KvPair.Texts.{NoNul}
use network_c_http.HttpParser.{Event}
use network_c_http.HttpParser.Event.{
  message_begin, url_data, status_data, header_field_data, header_value_data, headers_complete,
  body_data, message_complete, method_data, version_data, chunk_extension_name,
  chunk_extension_value, element_complete, chunk_header, chunk_complete, reset,
}
use network_c_http.HttpParser.Plain.{
  PlainMessage, PlainParser, can_free, can_set, plain_new, plain_url, plain_status, plain_body,
  plain_finish, plain_event, and_then, plain_run,
}
use network_c_http.HttpParser.Transmission.{
  StartLine, StartIsValid, request, response, Field, Transmission, IsValid, start_events,
  fields_events, end_events, events, all_events, is_quiet, essential, whole, body_text, received,
}
use network_c_http.HttpParser.Steps.{
  no_nul-true, has_room-true, inside, step, urls_more, bodies_more,
}
use network_c_http.HttpParser.Parts.{Between, Lines, pending, lined, last_state, fields_lem}

can_set-true : (t : List ℕ) → length t < 512 → NoNul t → can_set [] t ≡ true
can_set-true t short n = rw (lt→ltb (length t) 512 short, no_nul-true t n) refl

-- What is in the parser behind the start line.
abbrev start_status : StartLine → List ℕ
start_status (request pieces) = []
start_status (response code reason) = reason

abbrev start_url : StartLine → List ℕ
start_url (request pieces) = concat pieces
start_url (response code reason) = []

abbrev start_message : PlainMessage → StartLine → PlainMessage
start_message msg (request pieces) = record msg { is_request = true }
start_message msg (response code reason) = record msg {
  is_request = false;
  status_code = code;
  reason = reason;
}

module _ (block : PlainMessage) where
  start_lem :
      (l : StartLine) (s : ℕ) (es : List Event)
      → StartIsValid l
      → plain_run block (inside s [] [] [] [] (plain_new block)) (start_events l ++ es)
        ≡ plain_run block
            (inside s (start_status l) (start_url l) [] [] (start_message (plain_new block) l))
            es
  unfolding plain_event plain_url plain_status
  start_lem (request []) s es (valid, some_bytes) = absurd (omega (arith, some_bytes))
  start_lem (request (p ∷ ps)) s es ((smalls, below, _), _) =
      let msg = record (plain_new block) { is_request = true } in
      let size = length-append p (concat ps) in
      step block _ (inside s [] p [] [] msg) (url_data p) (map url_data ps ++ es)
        (rw (has_room-true [] p smalls.0 (omega (arith, smalls.0))) refl)
      ∙ urls_more block ps s [] p [] [] (plain_new block) es smalls.1 (omega (arith, size, below))
  start_lem (response code reason) s es (small, n) =
      step block _
        (inside s reason [] [] [] (start_message (plain_new block) (response code reason)))
        (status_data code reason) es
        (rw
          (
            has_room-true [] reason small (omega (arith, small)),
            can_set-true reason (omega (arith, small)) n,
          )
          refl)

  start-Lines :
      (l : StartLine) → StartIsValid l → Lines (start_url l) (start_message (plain_new block) l)
  start-Lines (request pieces) ((_, below, n), some_bytes) =
      inr (ground (arith, some_bytes), can_set-true (concat pieces) below n)
  start-Lines (response code reason) valid = inl refl

  body_lem :
      (ps : List (List ℕ)) (s : ℕ) (st url : List ℕ) (msg : PlainMessage) (es : List Event)
      → All (λ p. 0 < length p) ps
      → length (concat ps) + 128 < 2 ^ 31
      → plain_run block
          (inside s st url [] [] (record msg { body = none }))
          (map body_data ps ++ es)
        ≡ plain_run block (inside s st url [] [] (record msg { body = body_text ps })) es
  unfolding plain_event plain_body
  body_lem [] s st url msg es some_bytes small = refl
  body_lem (p ∷ ps) s st url msg es some_bytes small =
      let size = length-append p (concat ps) in
      let below : 0 + length p + 128 < 2 ^ 31 = omega (arith, size, small) in
      step block _ (inside s st url [] [] (record msg { body = some p })) (body_data p)
        (map body_data ps ++ es)
        (rw (lt→ltb 0 (length p) some_bytes.0, lt→ltb (0 + length p + 128) (2 ^ 31) below) refl)
      ∙ bodies_more block ps s st url [] [] p msg es some_bytes.1 (omega (arith, size, small))

  -- The message with its start line and its headers, before the body.
  lined-received :
      (l : StartLine) (maj minor meth : ℕ) (fs : List Field)
      → StartIsValid l
      → maj ≡ 1
      → lined (start_url l) minor meth (record (start_message (plain_new block) l) {
        headers = ((start_message (plain_new block) l).headers ++ pending [] []) ++ map whole fs;
      })
        ≡ received block (record {
          start = l;
          major = maj;
          minor = minor;
          method = meth;
          fields = fs;
          body = [];
        })
  lined-received (request pieces) maj minor meth fs (_, some_bytes) one =
      let url : (length (concat pieces) == 0) ≡ false = ground (arith, some_bytes) in
      rw (url, one) refl
  lined-received (response code reason) maj minor meth fs valid one = rw one refl

  -- The parser is between two messages.
  abbrev pub Ready : PlainParser → Type 0
  Ready v = Between v.state × (can_free v.msg ≡ true)

  begin_lem :
      (v : PlainParser) (es : List Event)
      → Ready v
      → plain_run block v (message_begin ∷ es)
        ≡ plain_run block (inside v.state [] [] [] [] (plain_new block)) es
  unfolding plain_event
  begin_lem v es r = step block v _ message_begin es (rw r.1 refl)

  finish_lem :
      (s : ℕ) (st url : List ℕ) (msg : PlainMessage) (es : List Event)
      → plain_run block (inside s st url [] [] msg) (message_complete ∷ es)
        ≡ and_then
            (some (inside s st url [] [] (plain_new block), msg ∷ []))
            λ w. plain_run block w es
  unfolding plain_run plain_event plain_finish
  finish_lem s st url msg es = refl

  -- The parser behind a message.
  abbrev behind : PlainParser → Transmission → PlainParser
  behind v t =
      inside (last_state block v.state t.fields) (start_status t.start) (start_url t.start) [] []
        (plain_new block)

  message_lem :
      (t : Transmission) (v : PlainParser) (es : List Event)
      → IsValid t
      → Ready v
      → plain_run block v (events t ++ es)
        ≡ and_then (some (behind v t, received block t ∷ [])) λ w. plain_run block w es
  message_lem t v es valid r =
      let tail = headers_complete t.major t.minor t.method ∷ end_events t in
      let ends = map body_data t.body ++ (message_complete ∷ es) in
      let s = last_state block v.state t.fields in
      let st = start_status t.start in
      let url = start_url t.start in
      let msg = start_message (plain_new block) t.start in
      let msg0 = received block (record t { body = [] }) in
      ap (plain_run block v) (
        ap (λ l. message_begin ∷ l)
          (append_assoc (start_events t.start) (fields_events t.fields ++ tail) es
            ∙ ap (λ l. start_events t.start ++ l)
                (append_assoc (fields_events t.fields) tail es
                  ∙ ap
                      (λ l.
                        fields_events t.fields ++ (headers_complete t.major t.minor t.method ∷ l))
                      (append_assoc (map body_data t.body) (message_complete ∷ []) es))))
      ∙ begin_lem v _ r
      ∙ start_lem t.start v.state _ valid.start
      ∙ fields_lem block t.fields v.state st url [] [] t.major t.minor t.method msg ends r.0
          (inl (refl, refl)) (start-Lines t.start valid.start) valid.fields
      ∙ ap (λ m. plain_run block (inside s st url [] [] m) ends)
          (lined-received t.start t.major t.minor t.method t.fields valid.start valid.version)
      ∙ body_lem t.body s st url msg0 (message_complete ∷ es) valid.body valid.small
      ∙ finish_lem s st url (received block t) es

  behind-Ready : (t : Transmission) (v : PlainParser) → Ready v → Ready (behind v t)
  behind-Ready t v r = (state_of t.fields, refl)
    where
      state_of : (fs : List Field) → Between (last_state block v.state fs)
      state_of [] = r.0
      state_of (f ∷ fs) = inr refl

  -- The calls for a sequence of messages make these messages.
  pub messages_lem :
      (ts : List Transmission) (v : PlainParser)
      → All IsValid ts
      → Ready v
      → (w : PlainParser) × (plain_run block v (all_events ts) ≡ some (w, map (received block) ts))
  unfolding plain_run and_then
  messages_lem [] v valid r = (v, refl)
  messages_lem (t ∷ ts) v valid r =
      let (w, e) = messages_lem ts (behind v t) valid.1 (behind-Ready t v r) in
      (w, message_lem t v (all_events ts) valid.0 r ∙ rw e refl)

  quiet_lem :
      (v : PlainParser) (e : Event) → is_quiet e ≡ true → plain_event block v e ≡ some (v, [])
  unfolding plain_event
  quiet_lem v (method_data _) q = refl
  quiet_lem v (version_data _) q = refl
  quiet_lem v (chunk_extension_name _) q = refl
  quiet_lem v (chunk_extension_value _) q = refl
  quiet_lem v element_complete q = refl
  quiet_lem v chunk_header q = refl
  quiet_lem v chunk_complete q = refl
  quiet_lem v reset q = refl
  quiet_lem v message_begin q = absurd (ground (arith, q))
  quiet_lem v (url_data _) q = absurd (ground (arith, q))
  quiet_lem v (status_data _ _) q = absurd (ground (arith, q))
  quiet_lem v (header_field_data _) q = absurd (ground (arith, q))
  quiet_lem v (header_value_data _) q = absurd (ground (arith, q))
  quiet_lem v (headers_complete _ _ _) q = absurd (ground (arith, q))
  quiet_lem v (body_data _) q = absurd (ground (arith, q))
  quiet_lem v message_complete q = absurd (ground (arith, q))

  and_then_congr :
      (o : Option (PlainParser × List PlainMessage))
      (f g : PlainParser → Option (PlainParser × List PlainMessage))
      → ((v : PlainParser) → f v ≡ g v)
      → and_then o f ≡ and_then o g
  unfolding and_then
  and_then_congr none f g h = refl
  and_then_congr (some (v, here)) f g h = ap (λ o. and_then (some (v, here)) λ w. o) (h v)

  -- The calls whose callback does nothing change nothing.
  pub essential_lem :
      (es : List Event) (v : PlainParser) → plain_run block v es ≡ plain_run block v (essential es)
  unfolding plain_run
  essential_lem [] v = refl
  essential_lem (e ∷ es) v = elim (Bool-cases (is_quiet e)) [
    | inl q ↦ rw q (step block v v e es (quiet_lem v e q) ∙ essential_lem es v)
    | inr q ↦ rw q (
        and_then_congr (plain_event block v e) (λ w. plain_run block w es)
          (λ w. plain_run block w (essential es)) (essential_lem es))
  ]
