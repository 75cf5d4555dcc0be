-- ===== src/HttpParser/Views.antt =====
-- A message parser and its messages, seen as plain texts.
use network_c_http.Base.{
  ℕ, ◌+◌, ◌*◌, ◌≤◌, ◌<◌, ◌≡◌, refl, Bool, true, false, ◌&&◌, List, [], ◌∷◌, Option, none, some,
  arith, length, ok, ◌==◌, ltb, ltb→lt, ◌⊎◌, inl, inr,
}
use network_c_http.Cbuffer.{Cbuffer, cbuffer_size}
use network_c_http.Cbuffer.Texts.{concat, fresh, new-fresh}
use network_c_http.LinkedList.Chain.{Cells, IsValid}
use network_c_http.HdrList.Lookup.{Header}
use network_c_http.KvPair.Texts.{NoNul}
use network_c_http.LinkedList.{list_safe_deinit, list_free}
use network_c_http.HdrList.{HdrList, hdr_list_new, hdr_list_safe_free, free_pairs}
use network_c_http.HdrList.Lookup
use network_c_http.HdrList.Refinement.{new-StandsFor}
use network_c_http.BufferChain.{BufferChain}
use network_c_http.BufferChain.Chunks
use network_c_http.HttpMessage.{HttpMessage, Memory, http_message_new, http_message_free}
use network_c_http.HttpMessage.Strings.{HasText, Sound-length}
use network_c_http.HttpMessage.Target.{Slot}
use network_c_http.HttpParser.{HttpMessageParser}
use network_c_http.HttpParser.Plain.{
  PlainMessage, PlainParser, has_room, no_nul, can_set, plain_new,
}

-- No body, or a chain with the bytes.
unfoldable pub BodyIs : Option BufferChain → Option (List ℕ) → Type 0
BodyIs none none = Unit
BodyIs none (some t) = ⊥
BodyIs (some chain) none = ⊥
BodyIs (some chain) (some t) =
    (chunks : List (List ℕ)) × Chunks.StandsFor chain chunks × (concat chunks ≡ t)

pub record MessageIs (uninitialised : ℕ → ℕ) (msg : HttpMessage) (v : PlainMessage) : Type 0 where
  pub headers : Lookup.StandsFor msg.headers v.headers
  pub body : BodyIs msg.body v.body
  pub target : Slot uninitialised msg.target v.target
  pub reason : Slot uninitialised msg.reason v.reason
  pub is_request : msg.is_request ≡ v.is_request
  pub status_code : msg.status_code ≡ v.status_code
  pub method : msg.method ≡ v.method
  pub major : msg.major_vers ≡ v.major
  pub minor : msg.minor_vers ≡ v.minor

unfoldable pub CurrentIs : (ℕ → ℕ) → Option HttpMessage → Option PlainMessage → Type 0
CurrentIs uninitialised none none = Unit
CurrentIs uninitialised none (some v) = ⊥
CurrentIs uninitialised (some msg) none = ⊥
CurrentIs uninitialised (some msg) (some v) = MessageIs uninitialised msg v

pub record ParserIs (uninitialised : ℕ → ℕ) (p : HttpMessageParser) (v : PlainParser) : Type 0 where
  pub state : p.header_state ≡ v.state
  pub status : HasText p.status_buf v.status
  pub url : HasText p.url_buf v.url
  pub name : HasText p.name_buf v.name
  pub value : HasText p.value_buf v.value
  pub msg : CurrentIs uninitialised p.current_message v.msg

-- There is a message on both sides, or on neither.
pub record Both (uninitialised : ℕ → ℕ) (c : Option HttpMessage) (v : Option PlainMessage)
    : Type 0 where
  pub message : HttpMessage
  pub plain : PlainMessage
  pub here : c ≡ some message
  pub there : v ≡ some plain
  pub same : MessageIs uninitialised message plain

pub current_cases :
    (uninitialised : ℕ → ℕ) (c : Option HttpMessage) (v : Option PlainMessage)
    → CurrentIs uninitialised c v
    → ((c ≡ none) × (v ≡ none)) ⊎ Both uninitialised c v
unfolding CurrentIs
current_cases u none none s = inl (refl, refl)
current_cases u none (some v) s = elim s [ ]
current_cases u (some msg) none s = elim s [ ]
current_cases u (some msg) (some v) s =
    inr record { message = msg; plain = v; here = refl; there = refl; same = s }

-- The fields of a new message that `http_message_new` does not set.
abbrev pub block_of : Memory → PlainMessage
block_of m = record {
  headers = [];
  body = none;
  target = [];
  reason = [];
  is_request = m.block.is_request;
  status_code = m.block.status_code;
  method = m.block.method;
  major = 1;
  minor = 1;
}

pub new-MessageIs :
    (m : Memory)
    → (msg : HttpMessage) × (http_message_new m ≡ ok msg)
      × MessageIs m.uninitialised msg (plain_new (block_of m))
unfolding http_message_new Slot BodyIs
new-MessageIs m = (
  record m.block {
    body = none;
    headers = hdr_list_new;
    minor_vers = 1;
    major_vers = 1;
    target = fresh m.uninitialised;
    reason = fresh m.uninitialised;
  },
  rw (new-fresh m.uninitialised) refl,
  record {
    headers = new-StandsFor;
    body = tt;
    target = refl;
    reason = refl;
    is_request = refl;
    status_code = refl;
    method = refl;
    major = refl;
    minor = refl;
  },
)

-- A list without headers can be freed.
free-empty :
    (hl : HdrList) (cs : Cells) (hs : List Header)
    → IsValid hl.list cs
    → Lookup.Held hl.pairs cs hs
    → (length hs == 0) ≡ true
    → hdr_list_safe_free hl ≡ ok hl.pairs
unfolding hdr_list_safe_free list_safe_deinit list_free free_pairs
free-empty hl [] [] v h e = rw v.counted refl
free-empty hl [] (_ ∷ hs) v h e = elim h [ ]
free-empty hl (_ ∷ cs) [] v h e = elim h [ ]
free-empty hl (_ ∷ cs) (_ ∷ hs) v h e = ground (arith, e)

pub free-MessageIs :
    (uninitialised : ℕ → ℕ) (msg : HttpMessage) (v : PlainMessage)
    → MessageIs uninitialised msg v
    → (length v.headers == 0) ≡ true
    → http_message_free msg ≡ ok tt
unfolding http_message_free
free-MessageIs u msg v s e =
    rw (free-empty msg.headers s.headers.cells v.headers s.headers.valid s.headers.held e) refl

pub no_nul-NoNul : (t : List ℕ) → no_nul t ≡ true → NoNul t
no_nul-NoNul [] e = tt
no_nul-NoNul (c ∷ t) e = (ground (arith, e), no_nul-NoNul t (ground (arith, e)))

pub has_room_lem :
    (t p : List ℕ) → has_room t p ≡ true → (length p ≤ 256) × (length t + length p < 1024 * 1024)
has_room_lem t p e = ground (arith, e)

pub size_lem : (b : Cbuffer) (t : List ℕ) → HasText b t → cbuffer_size b ≡ length t
unfolding cbuffer_size
size_lem b t h = Sound-length b t h.sound

pub and_true : (a b : Bool) → (a && b) ≡ true → (a ≡ true) × (b ≡ true)
and_true true b e = (refl, e)
and_true false b e = (e, absurd (ground (arith, e)))

pub can_set_lem :
    (old text : List ℕ) → can_set old text ≡ true → (old ≡ []) × (length text < 512) × NoNul text
can_set_lem [] text e =
    let (short, n) = and_true (ltb (length text) 512) (no_nul text) e in
    (refl, ltb→lt (length text) 512 short, no_nul-NoNul text n)
can_set_lem (_ ∷ old) text e = absurd (ground (arith, e))
