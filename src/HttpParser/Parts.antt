-- ===== src/HttpParser/Parts.antt =====
-- The parser on plain texts makes the headers and the start line of a message.
use network_c_http.Base.{
  ℕ, ◌≡◌, refl, sym, ap, ap₂, ◌∙◌, true, false, ◌&&◌, List, [], ◌∷◌, ◌++◌, append_assoc, append-nil,
  map, some, arith, length, length-append, if◌then◌else◌, ◌==◌, ◌⊎◌, inl, inr, All,
}
use network_c_http.Cbuffer.Texts.{concat}
use network_c_http.HdrList.Lookup.{Header}
use network_c_http.HttpParser.{Event, header_state_nothing, header_state_field, header_state_value}
use network_c_http.HttpParser.Event.{header_field_data, header_value_data, headers_complete}
use network_c_http.HttpParser.Plain.{
  PlainMessage, no_nul, can_set, plain_flush, plain_name, plain_field, plain_value, plain_line,
  plain_complete, plain_event, plain_run,
}
use network_c_http.HttpParser.Transmission.{
  Small, Field, FieldIsValid, field_events, fields_events, whole,
}
use network_c_http.HttpParser.Steps.{
  no_nul-true, has_room-true, inside, step, names_more, values_more,
}

-- The header in the two buffers, if there is one.
abbrev pub pending : (name value : List ℕ) → List Header
pending name value = if length name == 0 then [] else (name, value) ∷ []

-- No header is in the buffers, or one is and its texts have no NUL.
abbrev pub Waits : (name value : List ℕ) → Type 0
Waits name value =
    ((name ≡ []) × (value ≡ []))
    ⊎ (((length name == 0) ≡ false) × ((no_nul name && no_nul value) ≡ true))

-- The parser is not between a name and its value.
abbrev pub Between : ℕ → Type 0
Between s = (s ≡ header_state_nothing) ⊎ (s ≡ header_state_value)

flush_lem :
    (s : ℕ) (st url name value : List ℕ) (msg : PlainMessage)
    → Waits name value
    → plain_flush (inside s st url name value msg) (some msg)
      ≡ some (inside s st url [] [] (record msg { headers = msg.headers ++ pending name value }))
unfolding plain_flush
flush_lem s st url name value msg (inl (e, f)) =
    rw (e, f)
      (ap (λ hs. some (inside s st url [] [] (record msg { headers = hs })))
        (sym (append-nil msg.headers)))
flush_lem s st url name value msg (inr (e, f)) = rw (e, f) refl

-- What the start line becomes when the headers are complete.
abbrev pub lined : (url : List ℕ) → (minor meth : ℕ) → PlainMessage → PlainMessage
lined url minor meth msg =
    if length url == 0
    then record msg { minor = minor }
    else record msg { minor = minor; method = meth; target = url }

-- There is no URL, or it can become the target.
abbrev pub Lines : List ℕ → PlainMessage → Type 0
Lines url msg =
    ((length url == 0) ≡ true) ⊎ (((length url == 0) ≡ false) × (can_set msg.target url ≡ true))

line_lem :
    (s : ℕ) (st url : List ℕ) (minor meth : ℕ) (msg : PlainMessage)
    → Lines url msg
    → plain_line (inside s st url [] [] msg) minor meth (some msg)
      ≡ some (inside s st url [] [] (lined url minor meth msg))
unfolding plain_line
line_lem s st url minor meth msg (inl e) = rw e refl
line_lem s st url minor meth msg (inr (e, f)) = rw (e, f) refl

module _ (block : PlainMessage) where
  complete_lem :
      (s : ℕ) (st url name value : List ℕ) (maj minor meth : ℕ) (msg : PlainMessage)
      (es : List Event)
      → Waits name value
      → Lines url msg
      → plain_run block (inside s st url name value msg) (headers_complete maj minor meth ∷ es)
        ≡ plain_run block
            (inside s st url [] []
              (lined url minor meth (record msg { headers = msg.headers ++ pending name value })))
            es
  unfolding plain_event plain_complete
  complete_lem s st url name value maj minor meth msg es w l =
      let msg' = record msg { headers = msg.headers ++ pending name value } in
      step block _ (inside s st url [] [] (lined url minor meth msg'))
        (headers_complete maj minor meth) es
        (rw (flush_lem s st url name value msg w, line_lem s st url minor meth msg' l) refl)

  field_step :
      (s : ℕ) (st url name value p : List ℕ) (msg : PlainMessage) (es : List Event)
      → Between s
      → Waits name value
      → Small p
      → plain_run block (inside s st url name value msg) (header_field_data p ∷ es)
        ≡ plain_run block
            (inside header_state_field st url p []
              (record msg { headers = msg.headers ++ pending name value }))
            es
  unfolding plain_event plain_field plain_name
  field_step s st url name value p msg es b w small =
      let msg' = record msg { headers = msg.headers ++ pending name value } in
      let room = has_room-true [] p small (omega (arith, small)) in
      step block _ (inside header_state_field st url p [] msg') (header_field_data p) es (elim b [
        | inl e ↦ rw (e, flush_lem header_state_nothing st url name value msg w, room) refl
        | inr e ↦ rw (e, flush_lem header_state_value st url name value msg w, room) refl
      ])

  -- A field flushes the one before it, and is then in the buffers.
  field_lem :
      (s : ℕ) (st url name value : List ℕ) (f : Field) (msg : PlainMessage) (es : List Event)
      → Between s
      → Waits name value
      → FieldIsValid f
      → plain_run block (inside s st url name value msg) (field_events f ++ es)
        ≡ plain_run block
            (inside header_state_value st url
              (concat (f.name ∷ f.names))
              (concat (f.value ∷ f.values))
              (record msg { headers = msg.headers ++ pending name value }))
            es
  unfolding plain_event plain_value
  field_lem s st url name value f msg es b w ((smalls, below, _), _, (smalls', below', _)) =
      let msg' = record msg { headers = msg.headers ++ pending name value } in
      let size = length-append f.name (concat f.names) in
      let size' = length-append f.value (concat f.values) in
      let rest = (header_value_data f.value ∷ map header_value_data f.values) ++ es in
      ap (plain_run block (inside s st url name value msg)) (
        append_assoc (header_field_data f.name ∷ map header_field_data f.names)
          (header_value_data f.value ∷ map header_value_data f.values) es)
      ∙ field_step s st url name value f.name msg (map header_field_data f.names ++ rest) b w
          smalls.0
      ∙ names_more block f.names st url f.name [] msg' rest smalls.1 (omega (arith, size, below))
      ∙ step block _ (inside header_state_value st url (concat (f.name ∷ f.names)) f.value msg')
          (header_value_data f.value) (map header_value_data f.values ++ es)
          (rw (has_room-true [] f.value smalls'.0 (omega (arith, smalls'.0))) refl)
      ∙ values_more block f.values st url (concat (f.name ∷ f.names)) f.value msg' es smalls'.1
          (omega (arith, size', below'))

  whole-Waits : (f : Field) → FieldIsValid f → Waits (whole f).0 (whole f).1
  whole-Waits f ((_, _, n), some_bytes, (_, _, n')) = inr (
    ground (arith, some_bytes),
    rw (no_nul-true (concat (f.name ∷ f.names)) n, no_nul-true (concat (f.value ∷ f.values)) n')
        refl,
  )

  abbrev pub last_state : ℕ → List Field → ℕ
  last_state s [] = s
  last_state s (f ∷ fs) = header_state_value

  -- The fields up to the end of the headers.
  pub fields_lem :
      (fs : List Field) (s : ℕ) (st url name value : List ℕ) (maj minor meth : ℕ)
      (msg : PlainMessage) (es : List Event)
      → Between s
      → Waits name value
      → Lines url msg
      → All FieldIsValid fs
      → plain_run block
          (inside s st url name value msg)
          (fields_events fs ++ (headers_complete maj minor meth ∷ es))
        ≡ plain_run block
            (inside (last_state s fs) st url [] [] (
              lined url minor meth
                (record msg { headers = (msg.headers ++ pending name value) ++ map whole fs })))
            es
  fields_lem [] s st url name value maj minor meth msg es b w l valid =
      complete_lem s st url name value maj minor meth msg es w l
      ∙ ap
          (λ hs.
            plain_run block
              (inside s st url [] [] (lined url minor meth (record msg { headers = hs }))) es)
          (sym (append-nil (msg.headers ++ pending name value)))
  fields_lem (f ∷ fs) s st url name value maj minor meth msg es b w l valid =
      let hs = msg.headers ++ pending name value in
      let (k, v) = whole f in
      ap (plain_run block (inside s st url name value msg))
        (append_assoc (field_events f) (fields_events fs) (headers_complete maj minor meth ∷ es))
      ∙ field_lem s st url name value f msg
          (fields_events fs ++ (headers_complete maj minor meth ∷ es)) b w valid.0
      ∙ fields_lem fs header_state_value st url k v maj minor meth (record msg { headers = hs }) es
          (inr refl) (whole-Waits f valid.0) l valid.1
      ∙ ap₂
          (λ n hs'.
            plain_run block
              (inside n st url [] [] (lined url minor meth (record msg { headers = hs' }))) es)
          (last_value fs) (regroup hs f (map whole fs) valid.0)
    where
      last_value : (gs : List Field) → last_state header_state_value gs ≡ header_state_value
      last_value [] = refl
      last_value (_ ∷ gs) = refl

      regroup :
          (hs : List Header) (f : Field) (rest : List Header)
          → FieldIsValid f
          → (hs ++ pending (whole f).0 (whole f).1) ++ rest ≡ hs ++ (whole f ∷ rest)
      regroup hs f rest ((_, _, n), some_bytes, _) =
          let some_name : (length (whole f).0 == 0) ≡ false = ground (arith, some_bytes) in
          rw some_name (append_assoc hs (whole f ∷ []) rest)
