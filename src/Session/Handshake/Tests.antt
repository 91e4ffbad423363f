-- ===== src/Session/Handshake/Tests.antt =====
-- The handshake at a concrete verifier. The functions of Go's library are stood in for by concrete ones of
-- their types.
use vlf_proto.Base.{◌≤◌, true, false, [], ◌∷◌, ◌++◌, length, some, ok, ◌≡◌, refl, arith}
use vlf_proto.Base.Assoc.{bytes_eq, bytes_beq, lookup}
use vlf_proto.Wire.{Bytes, max_alloc, put_uint64, put_uint32, put_uint16, put_uvarint}
use vlf_proto.Frame.{
  Frame, read_frame, AuthPayload, encode_auth_payload, decode_auth_payload, encode_auth_ok_payload,
  write_bytes,
}
use vlf_proto.Frame.FrameType
use vlf_proto.Frame.RoundTrip.{FitsAuth, frame_bytes}
use vlf_proto.Auth.Replay.{new_replay_cache, is_replay}
use vlf_proto.Auth.Replay.Laws.{seen, new_replay_cache-IsTidy}
use vlf_proto.Auth.Verifier.{
  Std, Verifier, secret_for, exceeds_skew, session_auth_material, sign_session,
}
use vlf_proto.Session.Handshake.{Offer, auth_ok_of, handshake}
use vlf_proto.Session.Handshake.Authentic.{session_authentic, signed_client_accepted}

abbrev std : Std
std = record {
  compute_hmac = λ secret payload. secret ++ payload;
  hash_body = λ body. body;
  encode_hex = λ bytes. bytes;
  decode_hex = λ bytes. some bytes;
  trim_space = λ s. s;
  to_upper = λ s. s;
  parse_int = λ s. some (length s);
  format_int = λ n. n ∷ [];
  format_uint = λ n. n ∷ [];
}

abbrev offer : Offer
offer = record {
  idle_timeout_ms = 60000;
  up_kbps = 0;
  down_kbps = 0;
  max_flows = 16;
  max_udp_pps = 0;
}

abbrev verifier : Verifier
verifier = record {
  secrets = (7 ∷ [], 1 ∷ 2 ∷ []) ∷ [];
  replay = new_replay_cache 60000000000;
  clock_skew = 60000000000;
}

abbrev nonce : Bytes
nonce = 1 ∷ 2 ∷ 3 ∷ 4 ∷ 5 ∷ 6 ∷ 7 ∷ 8 ∷ 9 ∷ 10 ∷ 11 ∷ 12 ∷ []

abbrev sig : Bytes
sig = (1 ∷ 2 ∷ 65 ∷ 85 ∷ 84 ∷ 72 ∷ 124 ∷ 7 ∷ 124 ∷ 100000 ∷ 124 ∷ []) ++ nonce ++ (124 ∷ 0 ∷ [])

abbrev auth : AuthPayload
auth = record { client_id = 7 ∷ []; ts_ms = 100000; nonce = nonce; sig = sig; caps = 0 }

abbrev auth_frame : Frame
auth_frame = record { type = FrameType.auth; payload = encode_auth_payload auth }

auth_signed : sign_session std verifier (7 ∷ []) 100000 nonce 0 ≡ some sig
unfolding sign_session secret_for session_auth_material lookup bytes_beq
auth_signed = refl

auth-FitsAuth : FitsAuth auth
auth-FitsAuth = record {
  ts_ms = omega arith;
  caps = omega arith;
  client_id = omega arith;
  nonce = omega arith;
  sig = omega arith;
}

auth_small : length (encode_auth_payload auth) ≤ max_alloc
unfolding encode_auth_payload write_bytes put_uvarint put_uint64 put_uint32 put_uint16
auth_small = omega arith

auth_on_time : exceeds_skew verifier 100000000000 100000 ≡ false
unfolding exceeds_skew
auth_on_time = refl

auth_new : is_replay verifier.replay 100000000000 (seen verifier.replay (7 ∷ []) nonce) ≡ false
unfolding seen new_replay_cache lookup
auth_new = refl

signed_client_accepted_example :
    let outcome =
      handshake std offer 3 verifier 100000000000 true (frame_bytes auth_frame ++ 11 ∷ 0 ∷ []) in
    (outcome.0 ≡ ok (7 ∷ [], 11 ∷ 0 ∷ []))
    × (outcome.1 ≡ (FrameType.auth_ok, encode_auth_ok_payload (auth_ok_of offer 3)) ∷ [])
signed_client_accepted_example =
    signed_client_accepted std offer 3 verifier 100000000000 auth (11 ∷ 0 ∷ [])
      (new_replay_cache-IsTidy 60000000000) auth-FitsAuth auth_small auth_signed (omega arith)
      (omega arith) (omega arith) (omega arith) auth_on_time auth_new

auth_accepted :
    (handshake std offer 3 verifier 100000000000 true (frame_bytes auth_frame ++ 11 ∷ 0 ∷ [])).0
    ≡ ok (7 ∷ [], 11 ∷ 0 ∷ [])
auth_accepted =
    (signed_client_accepted std offer 3 verifier 100000000000 auth (11 ∷ 0 ∷ [])
      (new_replay_cache-IsTidy 60000000000) auth-FitsAuth auth_small auth_signed (omega arith)
      (omega arith) (omega arith) (omega arith) auth_on_time auth_new).0

session_authentic_example :
    (first : Frame) × (p : AuthPayload) × (read_frame (frame_bytes auth_frame ++ 11 ∷ 0 ∷ [])
      ≡ ok (first, 11 ∷ 0 ∷ []))
    × (first.type ≡ FrameType.auth)
    × (decode_auth_payload first.payload ≡ ok p)
    × (p.client_id ≡ 7 ∷ [])
    × (sign_session std verifier (7 ∷ []) p.ts_ms p.nonce p.caps ≡ some p.sig)
    × (exceeds_skew verifier 100000000000 p.ts_ms ≡ false)
session_authentic_example =
    session_authentic std offer 3 verifier 100000000000 true (frame_bytes auth_frame ++ 11 ∷ 0 ∷ [])
      (7 ∷ []) (11 ∷ 0 ∷ []) (new_replay_cache-IsTidy 60000000000) auth_accepted
