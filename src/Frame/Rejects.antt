-- ===== src/Frame/Rejects.antt =====
-- internal/session/frame.go: what the decoders refuse, and what they accept at all.
use vlf_proto.Base.{ℕ, ◌<◌, ◌≡◌, [], ◌∷◌, ◌++◌, ok, err, arith, All, ◌∙◌}
use vlf_proto.Wire.{Bytes, trailing_bytes, put_uint64, uint_of}
use vlf_proto.Frame.{
  finish, AuthPayload, encode_auth_payload, decode_auth_payload, OpenPayload, encode_open_payload,
  decode_open_payload, CloseFlowPayload, encode_close_flow_payload, decode_close_flow_payload,
}
use vlf_proto.Frame.RoundTrip.{
  FitsAuth, decode_auth_payload_tail, FitsOpen, decode_open_payload_tail,
}

-- An AUTH or OPEN payload with anything behind it is refused.
pub trailing_bytes_rejected :
    (p : AuthPayload) (q : OpenPayload) (b : ℕ) (r : Bytes)
    → FitsAuth p
    → FitsOpen q
    → (decode_auth_payload (encode_auth_payload p ++ (b ∷ r)) ≡ err trailing_bytes)
      × (decode_open_payload (encode_open_payload q ++ (b ∷ r)) ≡ err trailing_bytes)
unfolding finish
trailing_bytes_rejected p q b r f g = (
  decode_auth_payload_tail p (b ∷ r) f ∙ ground arith,
  decode_open_payload_tail q (b ∷ r) g ∙ ground arith,
)

put_uint64-uint_of :
    (a b c d e f g h : ℕ)
    → All (λ x. x < 256) (a ∷ b ∷ c ∷ d ∷ e ∷ f ∷ g ∷ h ∷ [])
    → put_uint64 (uint_of (a ∷ b ∷ c ∷ d ∷ e ∷ f ∷ g ∷ h ∷ [])) ≡ a ∷ b ∷ c ∷ d ∷ e ∷ f ∷ g ∷ h ∷ []
unfolding put_uint64 uint_of
put_uint64-uint_of a b c d e f g h k = ground arith

-- CLOSE_FLOW payloads have one encoding: what the decoder accepts, of bytes, is what the encoder
-- writes for the payload that it returns.
pub encode-decode_close_flow_payload :
    (raw : Bytes) {p : CloseFlowPayload}
    → All (λ b. b < 256) raw
    → decode_close_flow_payload raw ≡ ok p
    → encode_close_flow_payload p ≡ raw
unfolding decode_close_flow_payload encode_close_flow_payload
encode-decode_close_flow_payload (a ∷ b ∷ c ∷ d ∷ e ∷ f ∷ g ∷ h ∷ []) bytes ok_p =
    ground (arith, put_uint64-uint_of a b c d e f g h bytes)
encode-decode_close_flow_payload _ bytes ok_p = ground arith
