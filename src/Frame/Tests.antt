-- ===== src/Frame/Tests.antt =====
-- Runs of the frame codec, and the theorems at concrete frames.
use vlf_proto.Base.{◌^◌, [], ◌∷◌, ◌++◌, ok, err, ◌≡◌, ◌≢◌, refl, arith, some}
use vlf_proto.Wire.{
  Bytes, eof, unexpected_eof, overflow, makeslice_panic, put_uvarint, read_uvarint, read_full,
  make_and_read,
}
use vlf_proto.Frame.{
  Frame, read_frame, AuthPayload, encode_auth_payload, decode_auth_payload, OpenPayload,
  encode_open_payload, decode_open_payload,
}
use vlf_proto.Frame.RoundTrip.{
  FitsAuth, FitsOpen, FitsFrame, decode_auth_payload-encode_auth_payload,
  decode_open_payload-encode_open_payload,
}
use vlf_proto.Frame.Streams.{
  write_frames, read_frames, read_frames-write_frames, truncated_frame_rejected, read_frame_panics,
}

put_uvarint_300 : put_uvarint 300 ≡ 0xac ∷ 0x02 ∷ []
unfolding put_uvarint
put_uvarint_300 = refl

read_uvarint_truncated : read_uvarint (0xac ∷ []) ≡ err unexpected_eof
unfolding read_uvarint
read_uvarint_truncated = refl

read_uvarint_overflow :
    read_uvarint (255 ∷ 255 ∷ 255 ∷ 255 ∷ 255 ∷ 255 ∷ 255 ∷ 255 ∷ 255 ∷ 2 ∷ []) ≡ err overflow
unfolding read_uvarint
read_uvarint_overflow = refl

-- PING with a payload of two bytes, and one more byte behind it.
read_frame_ping :
    read_frame (11 ∷ 2 ∷ 7 ∷ 8 ∷ 9 ∷ []) ≡ ok (record { type = 11; payload = 7 ∷ 8 ∷ [] }, 9 ∷ [])
unfolding read_frame read_uvarint make_and_read read_full
read_frame_ping = refl

abbrev login : AuthPayload
login = record {
  client_id = b'd' ∷ b'e' ∷ b'v' ∷ [];
  ts_ms = 1700000000000;
  nonce = 1 ∷ 2 ∷ 3 ∷ [];
  sig = 250 ∷ 251 ∷ [];
  caps = 3;
}

abbrev dns : OpenPayload
dns = record { flow_id = 5; dst_host = []; dst_ip = 1 ∷ 1 ∷ 1 ∷ 1 ∷ []; dst_port = 53 }

abbrev ping : Frame
ping = record { type = 11; payload = 7 ∷ 8 ∷ [] }

login-FitsAuth : FitsAuth login
login-FitsAuth = omega arith

dns-FitsOpen : FitsOpen dns
dns-FitsOpen = omega arith

ping-FitsFrame : FitsFrame ping
ping-FitsFrame = omega arith

decode_auth_payload-encode_auth_payload_example :
    decode_auth_payload (encode_auth_payload login) ≡ ok login
decode_auth_payload-encode_auth_payload_example =
    decode_auth_payload-encode_auth_payload login login-FitsAuth

decode_open_payload-encode_open_payload_example :
    decode_open_payload (encode_open_payload dns) ≡ ok dns
decode_open_payload-encode_open_payload_example =
    decode_open_payload-encode_open_payload dns dns-FitsOpen

read_frames-write_frames_example :
    (s : Bytes) × (write_frames [] (ping ∷ ping ∷ []) ≡ ok s)
    × (read_frames 3 s ≡ (ping ∷ ping ∷ [], some eof))
read_frames-write_frames_example =
    read_frames-write_frames 3 (ping ∷ ping ∷ []) (ping-FitsFrame, (ping-FitsFrame, tt))
      (omega arith)

truncated_frame_rejected_example : read_frame (11 ∷ 2 ∷ 7 ∷ []) ≢ ok (ping, [])
unfolding put_uvarint
truncated_frame_rejected_example =
    truncated_frame_rejected ping ping (11 ∷ 2 ∷ 7 ∷ []) (8 ∷ []) [] ping-FitsFrame refl (λ e. cc)

read_frame_panics_example :
    read_frame (put_uvarint 1 ++ (put_uvarint (2 ^ 63) ++ [])) ≡ err makeslice_panic
read_frame_panics_example =
    read_frame_panics 1 (2 ^ 63) [] (omega arith) (omega arith) (omega arith)
