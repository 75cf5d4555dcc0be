-- ===== src/HttpMessage/Headers.antt =====
-- A header that is added to a message from two buffers.
use network_c_http.Base.{ℕ, ◌≡◌, refl, ap, ◌∙◌, List, [], ◌∷◌, ◌++◌, append-nil, length, ok}
use network_c_http.Cbuffer.{Cbuffer, cbuffer_data, cbuffer_size}
use network_c_http.Cbuffer.Texts.{data-contents}
use network_c_http.KvPair.{kvpair_new}
use network_c_http.KvPair.Texts.{NoNul, pair_of, kvpair_new_lem}
use network_c_http.HdrList
use network_c_http.HdrList.{HdrList, hdr_list_add_cbuf, hdr_list_find}
use network_c_http.HdrList.Lookup.{Header, StandsFor}
use network_c_http.HdrList.Refinement.{add_back-StandsFor}
use network_c_http.HttpMessage.{HttpMessage, Memory, http_message_add_header_cbuf}
use network_c_http.HttpMessage.Strings.{HasText, Sound-length}

data-text : (b : Cbuffer) (t : List ℕ) → HasText b t → cbuffer_data b ≡ ok t
data-text b t h = data-contents b h.sound.valid ∙ ap ok h.sound.text

size-length : (b : Cbuffer) (t : List ℕ) → HasText b t → cbuffer_size b ≡ length t
unfolding cbuffer_size
size-length b t h = Sound-length b t h.sound

add_cbuf-StandsFor :
    (m : HdrList.Memory) (hl : HdrList) (hs : List Header) (key value : Cbuffer) (k v : List ℕ)
    → HasText key k
    → HasText value v
    → NoNul k
    → NoNul v
    → StandsFor hl hs
    → (hl' : HdrList) × (hdr_list_add_cbuf m hl key value ≡ ok hl')
      × StandsFor hl' (hs ++ ((k, v) ∷ []))
unfolding hdr_list_add_cbuf
add_cbuf-StandsFor m hl hs key value k v hk hv nk nv s =
    let (hl', runs, s') = add_back-StandsFor m hl hs k v nk nv s in
    let pair : kvpair_new k (length k) v (length v) ≡ ok (pair_of k v) =
      rw (append-nil k, append-nil v) at (kvpair_new_lem k v [] []) in
    (
      hl',
      rw
          (
            data-text key k hk,
            data-text value v hv,
            size-length key k hk,
            size-length value v hv,
            pair,
            runs,
          )
          refl,
      s',
    )

-- The name and the value of the two buffers come behind the headers.
pub add_header_lem :
    (m : Memory) (msg : HttpMessage) (hs : List Header) (key value : Cbuffer) (k v : List ℕ)
    → HasText key k
    → HasText value v
    → NoNul k
    → NoNul v
    → StandsFor msg.headers hs
    → (hl : HdrList) × (http_message_add_header_cbuf m msg key value
        ≡ ok (record msg { headers = hl }))
      × StandsFor hl (hs ++ ((k, v) ∷ []))
unfolding http_message_add_header_cbuf
add_header_lem m msg hs key value k v hk hv nk nv s =
    let (hl, runs, s') = add_cbuf-StandsFor m.headers msg.headers hs key value k v hk hv nk nv s in
    (hl, rw runs refl, s')
