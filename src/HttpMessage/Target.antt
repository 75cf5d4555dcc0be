-- ===== src/HttpMessage/Target.antt =====
-- The target and the reason of a message, which are copied from a buffer of the parser.
use network_c_http.Base.{ℕ, ◌<◌, ◌≡◌, refl, ap, ◌∙◌, List, [], ◌∷◌, arith, length, ok, true, ◌==◌}
use network_c_http.Cbuffer.{Cbuffer, cbuffer_size, cbuffer_append, cbuffer_append_cstr}
use network_c_http.Cbuffer.Growth.{append-empty}
use network_c_http.Cbuffer.Texts.{fresh}
use network_c_http.KvPair.Texts.{NoNul}
use network_c_http.HttpMessage.{
  HttpMessage, Memory, http_message_set_target_cbuffer, http_message_set_reason_cbuffer,
}
use network_c_http.HttpMessage.Strings.{HasText, fresh-Sound, append-HasText, cstr_text_lem}

-- The buffer is as `Cbuffer_new` made it, or it holds a text.
unfoldable pub Slot : (uninitialised : ℕ → ℕ) → Cbuffer → List ℕ → Type 0
Slot uninitialised b [] = b ≡ fresh uninitialised
Slot uninitialised b (c ∷ t) = HasText b (c ∷ t)

pub Slot-append :
    (uninitialised : ℕ → ℕ) (b : Cbuffer) (t : List ℕ)
    → Slot uninitialised b []
    → length t < 512
    → (b' : Cbuffer) × (cbuffer_append uninitialised b t ≡ ok b') × Slot uninitialised b' t
unfolding Slot
Slot-append uninitialised b [] s small = (b, append-empty uninitialised b [] refl, s)
Slot-append uninitialised b (c ∷ t) s small =
    let (b', runs, h) =
      append-HasText uninitialised (fresh uninitialised) [] (c ∷ t) (fresh-Sound uninitialised)
        (omega arith) (omega (arith, small)) (omega (arith, small)) in
    (b', ap (λ x. cbuffer_append uninitialised x (c ∷ t)) s ∙ runs, h)

empty_size :
    (uninitialised : ℕ → ℕ) (b : Cbuffer) → b ≡ fresh uninitialised → (cbuffer_size b == 0) ≡ true
unfolding cbuffer_size
empty_size uninitialised b e = ap (λ x. cbuffer_size x == 0) e

module _ (m : Memory) (msg : HttpMessage) (b : Cbuffer) (t : List ℕ) where
  -- A target that is not set becomes the text of the buffer.
  pub set_target_lem :
      HasText b t
      → NoNul t
      → length t < 512
      → Slot m.uninitialised msg.target []
      → (b' : Cbuffer) × (http_message_set_target_cbuffer m msg b ≡ ok (record msg { target = b' }))
        × Slot m.uninitialised b' t
  unfolding http_message_set_target_cbuffer cbuffer_append_cstr Slot
  set_target_lem h n small s =
      let (b', runs, h') = Slot-append m.uninitialised msg.target t s small in
      (b', rw (empty_size m.uninitialised msg.target s, cstr_text_lem b t h n, runs) refl, h')

  pub set_reason_lem :
      HasText b t
      → NoNul t
      → length t < 512
      → Slot m.uninitialised msg.reason []
      → (b' : Cbuffer) × (http_message_set_reason_cbuffer m msg b ≡ ok (record msg { reason = b' }))
        × Slot m.uninitialised b' t
  unfolding http_message_set_reason_cbuffer cbuffer_append_cstr Slot
  set_reason_lem h n small s =
      let (b', runs, h') = Slot-append m.uninitialised msg.reason t s small in
      (b', rw (empty_size m.uninitialised msg.reason s, cstr_text_lem b t h n, runs) refl, h')
