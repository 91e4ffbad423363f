-- ===== src/SessionClient/Tests.antt =====
-- Runs of the client's decoders, and the theorems at concrete payloads.
use vlf_proto.Base.{◌-◌, ◌^◌, [], ◌∷◌, ◌++◌, ok, err, ◌≡◌, refl, arith}
use vlf_proto.Wire.{put_uint64, put_uvarint, read_uvarint}
use vlf_proto.Frame.{FailPayload, encode_fail_payload}
use vlf_proto.SessionClient.Failures.{
  slice_bounds, uvarint, decode_auth_fail_reason, decode_fail_payload,
}
use vlf_proto.SessionClient.Reasons.{
  decode_fail_payload-encode_fail_payload, decode_fail_payload_panics,
}

-- A reason with no length before it is passed on as it is.
plain_reason : decode_auth_fail_reason (b'n' ∷ b'o' ∷ []) ≡ ok (b'n' ∷ b'o' ∷ [])
unfolding decode_auth_fail_reason uvarint read_uvarint
plain_reason = refl

short_fail_payload : decode_fail_payload (1 ∷ 2 ∷ []) ≡ ok (0, 1 ∷ 2 ∷ [])
unfolding decode_fail_payload
short_fail_payload = refl

abbrev refused : FailPayload
refused = record { flow_id = 7; reason = b'n' ∷ b'o' ∷ [] }

decode_fail_payload-encode_fail_payload_example :
    decode_fail_payload (encode_fail_payload refused) ≡ ok (7, b'n' ∷ b'o' ∷ [])
decode_fail_payload-encode_fail_payload_example =
    decode_fail_payload-encode_fail_payload refused (omega arith) (omega arith)

decode_fail_payload_panics_example :
    decode_fail_payload (put_uint64 7 ++ (put_uvarint (2 ^ 64 - 1) ++ [])) ≡ err slice_bounds
decode_fail_payload_panics_example =
    decode_fail_payload_panics 7 (2 ^ 64 - 1) [] (omega arith) (omega arith) (omega arith)
      (omega arith)
