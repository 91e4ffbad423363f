-- ===== src/Session/Handshake.antt =====
-- internal/session/session.go and tcp_session.go: how `Run` begins, which the two kinds of session have
-- alike. The control stream is the bytes that are still to come on it, and the frames that are written
-- are a list. A deadline that expires is the end of the bytes.
pub mod Authentic
mod Tests
use vlf_proto.Base.{
  ℕ, ◌%◌, ◌^◌, Bool, not, List, [], ◌∷◌, ◌==◌, if◌then◌else◌, Option, none, some, Result, ok, err,
}
use vlf_proto.Base.Text.{codes}
use vlf_proto.Wire.{Bytes, WireError}
use vlf_proto.Frame.{
  Frame, read_frame, AuthPayload, decode_auth_payload, encode_auth_fail, AuthOkPayload,
  encode_auth_ok_payload,
}
use vlf_proto.Frame.FrameType
use vlf_proto.Auth.Verifier.{Std, AuthError, Verifier, verify_session}

pub data RunError : Type 0 where
  first_frame : WireError → RunError
  first_not_auth : RunError
  auth_payload : WireError → RunError
  auth_failed : AuthError → RunError
  auth_ok_write : RunError

-- The parts of the server's configuration that AUTH_OK tells.
pub record Offer : Type 0 where
  pub idle_timeout_ms : ℕ
  pub up_kbps : ℕ
  pub down_kbps : ℕ
  pub max_flows : ℕ
  pub max_udp_pps : ℕ

-- `uint32(x)`
abbrev pub uint32 : ℕ → ℕ
uint32 x = x % 2 ^ 32

unfoldable pub auth_ok_of : Offer → ℕ → AuthOkPayload
auth_ok_of offer session_id = record {
  session_id = session_id;
  expires_ms = uint32 offer.idle_timeout_ms;
  up_kbps = uint32 offer.up_kbps;
  down_kbps = uint32 offer.down_kbps;
  max_flows = uint32 offer.max_flows;
  max_udp_pps = uint32 offer.max_udp_pps;
}

-- Who the client is and what is left of the stream, or why the session ends; the frames written; and
-- the verifier behind it.
abbrev pub Outcome : Type 0
Outcome = Result RunError (Bytes × Bytes) × List (ℕ × Bytes) × Verifier

abbrev pub refuse : RunError → Bytes → Verifier → Outcome
refuse e reason v = (err e, (FrameType.auth_fail, encode_auth_fail reason) ∷ [], v)

module _ (std : Std) (offer : Offer) (session_id : ℕ) where
  -- From the verified AUTH on; `writes` is whether AUTH_OK can be written.
  unfoldable pub finish_auth : Verifier → ℕ → Bool → AuthPayload → Bytes → Outcome
  finish_auth v now writes p rest =
      let (error, hook, v') = verify_session std v now p.client_id p.ts_ms p.nonce p.sig p.caps in
      let auth_ok =
        (FrameType.auth_ok, encode_auth_ok_payload (auth_ok_of offer session_id)) ∷ [] in
      elim error [
        | some e ↦ refuse (auth_failed e) (codes "AUTH verification failed") v'
        | none ↦
            if not writes
            then (err auth_ok_write, auth_ok, v')
            else (ok (p.client_id, rest), auth_ok, v')
      ]

  unfoldable pub handshake : Verifier → ℕ → Bool → Bytes → Outcome
  handshake v now writes stream = elim (read_frame stream) [
    | err e ↦ (err (first_frame e), [], v)
    | ok (first, rest) ↦
        if not (first.type == FrameType.auth)
        then refuse first_not_auth (codes "first frame must be AUTH") v
        else elim (decode_auth_payload first.payload) [
          | err e ↦ refuse (auth_payload e) (codes "invalid AUTH payload") v
          | ok p ↦ finish_auth v now writes p rest
        ]
  ]
