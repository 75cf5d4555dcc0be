-- ===== src/HttpParser/Steps.antt =====
-- The parser on plain texts puts the pieces of each part together.
use network_c_http.Base.{
  ℕ, ◌+◌, ◌*◌, ◌^◌, ◌<◌, ◌≡◌, refl, sym, ap, ◌∙◌, true, List, [], ◌∷◌, ◌++◌, append_assoc,
  append-nil, map, Option, none, some, arith, length, length-append, lt→ltb, All,
}
use network_c_http.Cbuffer.Texts.{concat}
use network_c_http.KvPair.Texts.{NoNul}
use network_c_http.HttpParser.{Event, header_state_field, header_state_value}
use network_c_http.HttpParser.Event.{url_data, header_field_data, header_value_data, body_data}
use network_c_http.HttpParser.Plain.{
  PlainMessage, PlainParser, has_room, no_nul, plain_url, plain_name, plain_field, plain_value,
  plain_body, plain_event, and_then, plain_run,
}
use network_c_http.HttpParser.Transmission.{Small}

pub no_nul-true : (t : List ℕ) → NoNul t → no_nul t ≡ true
no_nul-true [] n = refl
no_nul-true (c ∷ t) n = ground (arith, n.0, no_nul-true t n.1)

pub has_room-true :
    (t p : List ℕ) → Small p → length t + length p < 1024 * 1024 → has_room t p ≡ true
has_room-true t p small below = ground (arith, small, below)

-- The parser inside a message.
abbrev pub inside : ℕ → (status url name value : List ℕ) → PlainMessage → PlainParser
inside state status url name value msg = record {
  state = state;
  status = status;
  url = url;
  name = name;
  value = value;
  msg = some msg;
}

then_silent :
    (v : PlainParser) (f : PlainParser → Option (PlainParser × List PlainMessage))
    → and_then (some (v, [])) f ≡ f v
unfolding and_then
then_silent v f = same (f v)
  where
    same : (o : Option (PlainParser × List PlainMessage)) → and_then (some (v, [])) (λ w. o) ≡ o
    same none = refl
    same (some (w, later)) = refl

module _ (block : PlainMessage) where
  -- A call that hands over no message.
  pub step :
      (v w : PlainParser) (e : Event) (es : List Event)
      → plain_event block v e ≡ some (w, [])
      → plain_run block v (e ∷ es) ≡ plain_run block w es
  unfolding plain_run
  step v w e es h =
      ap (λ o. and_then o λ x. plain_run block x es) h ∙ then_silent w λ x. plain_run block x es

  -- The text with a piece more.
  moved :
      (f : List ℕ → PlainParser) (old p rest : List ℕ) (es : List Event)
      → plain_run block (f (old ++ p ++ rest)) es ≡ plain_run block (f (old ++ (p ++ rest))) es
  moved f old p rest es = ap (λ t. plain_run block (f t) es) (append_assoc old p rest)

  pub urls_more :
      (ps : List (List ℕ)) (s : ℕ) (st old n v : List ℕ) (msg : PlainMessage) (es : List Event)
      → All Small ps
      → length old + length (concat ps) < 1024 * 1024
      → plain_run block
          (inside s st old n v (record msg { is_request = true }))
          (map url_data ps ++ es)
        ≡ plain_run block (inside s st (old ++ concat ps) n v (record msg { is_request = true })) es
  unfolding plain_event plain_url
  urls_more [] s st old n v msg es small below =
      ap (λ t. plain_run block (inside s st t n v (record msg { is_request = true })) es)
        (sym (append-nil old))
  urls_more (p ∷ ps) s st old n v msg es small below =
      let size = length-append p (concat ps) in
      let size' = length-append old p in
      step _ (inside s st (old ++ p) n v (record msg { is_request = true })) (url_data p) _
        (rw (has_room-true old p small.0 (omega (arith, size, below))) refl)
      ∙ urls_more ps s st (old ++ p) n v msg es small.1 (omega (arith, size, size', below))
      ∙ moved (λ t. inside s st t n v (record msg { is_request = true })) old p (concat ps) es

  pub names_more :
      (ps : List (List ℕ)) (st url old v : List ℕ) (msg : PlainMessage) (es : List Event)
      → All Small ps
      → length old + length (concat ps) < 1024 * 1024
      → plain_run block
          (inside header_state_field st url old v msg)
          (map header_field_data ps ++ es)
        ≡ plain_run block (inside header_state_field st url (old ++ concat ps) v msg) es
  unfolding plain_event plain_field plain_name
  names_more [] st url old v msg es small below =
      ap (λ t. plain_run block (inside header_state_field st url t v msg) es) (sym (append-nil old))
  names_more (p ∷ ps) st url old v msg es small below =
      let size = length-append p (concat ps) in
      let size' = length-append old p in
      step _ (inside header_state_field st url (old ++ p) v msg) (header_field_data p) _
        (rw (has_room-true old p small.0 (omega (arith, size, below))) refl)
      ∙ names_more ps st url (old ++ p) v msg es small.1 (omega (arith, size, size', below))
      ∙ moved (λ t. inside header_state_field st url t v msg) old p (concat ps) es

  pub values_more :
      (ps : List (List ℕ)) (st url n old : List ℕ) (msg : PlainMessage) (es : List Event)
      → All Small ps
      → length old + length (concat ps) < 1024 * 1024
      → plain_run block
          (inside header_state_value st url n old msg)
          (map header_value_data ps ++ es)
        ≡ plain_run block (inside header_state_value st url n (old ++ concat ps) msg) es
  unfolding plain_event plain_value
  values_more [] st url n old msg es small below =
      ap (λ t. plain_run block (inside header_state_value st url n t msg) es) (sym (append-nil old))
  values_more (p ∷ ps) st url n old msg es small below =
      let size = length-append p (concat ps) in
      let size' = length-append old p in
      step _ (inside header_state_value st url n (old ++ p) msg) (header_value_data p) _
        (rw (has_room-true old p small.0 (omega (arith, size, below))) refl)
      ∙ values_more ps st url n (old ++ p) msg es small.1 (omega (arith, size, size', below))
      ∙ moved (λ t. inside header_state_value st url n t msg) old p (concat ps) es

  pub bodies_more :
      (ps : List (List ℕ)) (s : ℕ) (st url n v old : List ℕ) (msg : PlainMessage) (es : List Event)
      → All (λ p. 0 < length p) ps
      → length old + length (concat ps) + 128 < 2 ^ 31
      → plain_run block
          (inside s st url n v (record msg { body = some old }))
          (map body_data ps ++ es)
        ≡ plain_run block (inside s st url n v (record msg { body = some (old ++ concat ps) })) es
  unfolding plain_event plain_body
  bodies_more [] s st url n v old msg es some_bytes small =
      ap (λ t. plain_run block (inside s st url n v (record msg { body = some t })) es)
        (sym (append-nil old))
  bodies_more (p ∷ ps) s st url n v old msg es some_bytes small =
      let size = length-append p (concat ps) in
      let size' = length-append old p in
      let below : length old + length p + 128 < 2 ^ 31 = omega (arith, size, small) in
      step _ (inside s st url n v (record msg { body = some (old ++ p) })) (body_data p) _ (
        rw (lt→ltb 0 (length p) some_bytes.0, lt→ltb (length old + length p + 128) (2 ^ 31) below)
          refl)
      ∙ bodies_more ps s st url n v (old ++ p) msg es some_bytes.1
          (omega (arith, size, size', small))
      ∙ moved (λ t. inside s st url n v (record msg { body = some t })) old p (concat ps) es
