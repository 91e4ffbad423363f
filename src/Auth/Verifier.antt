-- ===== src/Auth/Verifier.antt =====
-- internal/auth/verifier.go, and the lookup of internal/auth/secrets.go: who signed a request. Times
-- are nanoseconds since 1970, an int64 is its 64-bit pattern, and `clock_skew` is below 2 ^ 63 - 1, so
-- that no difference of times is cut off where it matters. A hook is told as an event. An error is
-- told by its kind.
pub mod Signatures
pub mod Replays
pub mod Skew
mod Tests
use vlf_proto.Base.{
  ℕ, ◌+◌, ◌-◌, ◌*◌, ◌^◌, Bool, true, false, not, ◌&&◌, ◌||◌, List, [], ◌∷◌, ◌++◌, ltb, leb, ◌==◌,
  if◌then◌else◌, length, Option, none, some,
}
use vlf_proto.Base.Assoc.{Eq, bytes_eq, bytes_beq, Map, lookup}
use vlf_proto.Wire.{Bytes}
use vlf_proto.Auth.Replay.{ReplayCache, check_and_store}

-- What the source uses of Go's library: crypto/hmac with SHA-256, its digest of a body in hex,
-- encoding/hex, strings, and strconv and fmt for integers.
pub record Std : Type 0 where
  pub compute_hmac : Bytes → Bytes → Bytes
  pub hash_body : Bytes → Bytes
  pub encode_hex : Bytes → Bytes
  pub decode_hex : Bytes → Option Bytes
  pub trim_space : Bytes → Bytes
  pub to_upper : Bytes → Bytes
  pub parse_int : Bytes → Option ℕ
  pub format_int : ℕ → Bytes
  pub format_uint : ℕ → Bytes

pub data AuthError : Type 0 where
  missing_headers : AuthError
  bad_timestamp : AuthError
  nonce_size : AuthError
  clock_skew_exceeded : AuthError
  unknown_client : AuthError
  bad_signature_hex : AuthError
  bad_signature : AuthError
  replayed : AuthError

pub data Hook : Type 0 where
  on_auth_fail : Bytes → Hook
  on_replay_drop : Bytes → Hook

pub record Verifier : Type 0 where
  pub secrets : Map Bytes Bytes
  pub replay : ReplayCache
  pub clock_skew : ℕ

-- The error, the hook that was called and the verifier behind a call.
abbrev pub Outcome : Type 0
Outcome = Option AuthError × Option Hook × Verifier

abbrev pub fail : AuthError → Bytes → Verifier → Outcome
fail e client_id v = (some e, some (on_auth_fail client_id), v)

abbrev pub is_empty : Bytes → Bool
is_empty s = length s == 0

unfoldable pub secret_for : Verifier → Bytes → Option Bytes
secret_for v client_id = lookup client_id v.secrets

-- Whether a time in milliseconds is further than the clock skew from now, on either side.
unfoldable pub exceeds_skew : Verifier → ℕ → ℕ → Bool
exceeds_skew v now ts_ms =
    if ltb ts_ms (2 ^ 63)
    then ltb v.clock_skew (now - ts_ms * 1000000) || ltb v.clock_skew (ts_ms * 1000000 - now)
    else ltb v.clock_skew (now + (2 ^ 64 - ts_ms) * 1000000)

unfoldable pub check_replay : Verifier → ℕ → Bytes → Bytes → Outcome
check_replay v now client_id nonce =
    let (again, replay) = check_and_store v.replay client_id nonce now in
    if again
    then (some replayed, some (on_replay_drop client_id), record v { replay = replay })
    else (none, none, record v { replay = replay })

-- The signature checks that the two verifiers share.
unfoldable pub check_signature : Verifier → ℕ → Bytes → Bytes → Bytes → Bytes → Outcome
check_signature v now client_id nonce expected sig =
    if not (bytes_beq expected sig)
    then fail bad_signature client_id v
    else check_replay v now client_id nonce

-- Headers and the parts of a request that its signature covers.
pub record Request : Type 0 where
  pub method : Bytes
  pub path : Bytes
  pub client_header : Bytes
  pub ts_header : Bytes
  pub nonce_header : Bytes
  pub sig_header : Bytes

-- `|`
abbrev pub bar : Bytes
bar = 124 ∷ []

module _ (std : Std) where
  unfoldable pub http_material : Request → ℕ → Bytes → Bytes → Bytes
  http_material r ts_ms nonce body =
      std.to_upper r.method
      ++ bar
      ++ r.path
      ++ bar
      ++ std.format_int ts_ms
      ++ bar
      ++ nonce
      ++ bar
      ++ std.hash_body body

  unfoldable pub verify_http : Verifier → ℕ → Request → Bytes → Outcome
  verify_http v now r body =
      let client_id = std.trim_space r.client_header in
      let ts_raw = std.trim_space r.ts_header in
      let nonce = std.trim_space r.nonce_header in
      let sig_hex = std.trim_space r.sig_header in
      if is_empty client_id || is_empty ts_raw || is_empty nonce || is_empty sig_hex
      then fail missing_headers client_id v
      else elim (std.parse_int ts_raw) [
        | none ↦ fail bad_timestamp client_id v
        | some ts_ms ↦
            if exceeds_skew v now ts_ms
            then fail clock_skew_exceeded client_id v
            else elim (secret_for v client_id) [
              | none ↦ fail unknown_client client_id v
              | some secret ↦ elim (std.decode_hex sig_hex) [
                | none ↦ fail bad_signature_hex client_id v
                | some sig ↦
                    check_signature v now client_id nonce
                      (std.compute_hmac secret (http_material r ts_ms nonce body)) sig
              ]
            ]
      ]

  -- `AUTH|client|ts|nonce in hex|caps`
  unfoldable pub session_auth_material : Bytes → ℕ → Bytes → ℕ → Bytes
  session_auth_material client_id ts_ms nonce caps =
      (65 ∷ 85 ∷ 84 ∷ 72 ∷ [])
      ++ bar
      ++ client_id
      ++ bar
      ++ std.format_uint ts_ms
      ++ bar
      ++ std.encode_hex nonce
      ++ bar
      ++ std.format_uint caps

  unfoldable pub sign_session : Verifier → Bytes → ℕ → Bytes → ℕ → Option Bytes
  sign_session v client_id ts_ms nonce caps = elim (secret_for v client_id) [
    | none ↦ none
    | some secret ↦
        some (std.compute_hmac secret (session_auth_material client_id ts_ms nonce caps))
  ]

  unfoldable pub verify_session : Verifier → ℕ → Bytes → ℕ → Bytes → Bytes → ℕ → Outcome
  verify_session v now client_id ts_ms nonce sig caps =
      if is_empty client_id || is_empty nonce || is_empty sig
      then fail missing_headers client_id v
      else if ltb (length nonce) 12 || ltb 32 (length nonce)
      then fail nonce_size client_id v
      else if exceeds_skew v now ts_ms
      then fail clock_skew_exceeded client_id v
      else elim (secret_for v client_id) [
        | none ↦ fail unknown_client client_id v
        | some secret ↦
            check_signature v now client_id (std.encode_hex nonce)
              (std.compute_hmac secret (session_auth_material client_id ts_ms nonce caps)) sig
      ]
