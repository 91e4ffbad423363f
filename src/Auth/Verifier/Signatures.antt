-- ===== src/Auth/Verifier/Signatures.antt =====
-- internal/auth/verifier.go: which requests are accepted.
use vlf_proto.Base.{
  ℕ, ◌<◌, ◌≤◌, false, if◌then◌else◌, length, none, some, ◌≡◌, arith, Option-cases, inl, inr,
}
use vlf_proto.Base.Assoc.{bytes_eq}
use vlf_proto.Wire.{Bytes}
use vlf_proto.Auth.Replay.{is_replay}
use vlf_proto.Auth.Replay.Laws.{seen, IsTidy, refuses-seen}
use vlf_proto.Base.Assoc.Laws.{eq_of_beq, beq_refl}
use vlf_proto.Auth.Verifier.{
  Std, replayed, Verifier, secret_for, exceeds_skew, check_replay, check_signature,
  session_auth_material, sign_session, verify_session, Request, verify_http, http_material,
}

accepted_signature :
    (v : Verifier) (now : ℕ) (client_id nonce expected sig : Bytes)
    → IsTidy v.replay
    → (check_signature v now client_id nonce expected sig).0 ≡ none
    → (expected ≡ sig) × (is_replay v.replay now (seen v.replay client_id nonce) ≡ false)
unfolding check_signature check_replay
accepted_signature v now client_id nonce expected sig tidy e =
    ground (arith, e, refuses-seen v.replay client_id nonce now tidy, eq_of_beq expected sig)

good_signature :
    (v : Verifier) (now : ℕ) (client_id nonce sig : Bytes)
    → IsTidy v.replay
    → (check_signature v now client_id nonce sig sig).0
      ≡ (if is_replay v.replay now (seen v.replay client_id nonce) then some replayed else none)
unfolding check_signature check_replay
good_signature v now client_id nonce sig tidy =
    ground (arith, refuses-seen v.replay client_id nonce now tidy, beq_refl sig)

module _ (std : Std) where
  -- A session that is accepted is signed with the client's secret, over its client, time, nonce and
  -- capabilities; its time is within the clock skew, its nonce has a size in range, and the cache
  -- did not know it.
  pub accepted_session :
      (v : Verifier) (now : ℕ) (client_id : Bytes) (ts_ms : ℕ) (nonce sig : Bytes) (caps : ℕ)
      → IsTidy v.replay
      → (verify_session std v now client_id ts_ms nonce sig caps).0 ≡ none
      → (sign_session std v client_id ts_ms nonce caps ≡ some sig)
        × (exceeds_skew v now ts_ms ≡ false)
        × (12 ≤ length nonce)
        × (length nonce ≤ 32)
        × (is_replay v.replay now (seen v.replay client_id (std.encode_hex nonce)) ≡ false)
  unfolding verify_session sign_session
  accepted_session v now client_id ts_ms nonce sig caps tidy e =
      elim (Option-cases (secret_for v client_id)) [
        | inl unknown ↦ ground (arith, e, unknown)
        | inr (secret, known) ↦
            let material = session_auth_material std client_id ts_ms nonce caps in
            ground (
              arith,
              e,
              known,
              accepted_signature v now client_id (std.encode_hex nonce)
                  (std.compute_hmac secret material) sig tidy,
            )
      ]

  -- A session whose signature `SignSession` made is accepted when its time is within the clock skew,
  -- its nonce has a size in range and its client a name, unless the cache knows the nonce.
  pub verify-sign_session :
      (v : Verifier) (now : ℕ) (client_id : Bytes) (ts_ms : ℕ) (nonce sig : Bytes) (caps : ℕ)
      → IsTidy v.replay
      → sign_session std v client_id ts_ms nonce caps ≡ some sig
      → 0 < length client_id
      → 0 < length sig
      → 12 ≤ length nonce
      → length nonce ≤ 32
      → exceeds_skew v now ts_ms ≡ false
      → (verify_session std v now client_id ts_ms nonce sig caps).0 ≡ (
          if is_replay v.replay now (seen v.replay client_id (std.encode_hex nonce))
          then some replayed
          else none)
  unfolding verify_session sign_session
  verify-sign_session v now client_id ts_ms nonce sig caps tidy signed c s low high skew =
      elim (Option-cases (secret_for v client_id)) [
        | inl unknown ↦ ground (arith, signed, unknown)
        | inr (secret, known) ↦ ground (
          arith,
          signed,
          known,
          skew,
          good_signature v now client_id (std.encode_hex nonce) sig tidy,
        )
      ]

  -- A request that is accepted is signed with the secret of the client that its header names.
  pub accepted_request :
      (v : Verifier) (now : ℕ) (r : Request) (body : Bytes)
      → IsTidy v.replay
      → (verify_http std v now r body).0 ≡ none
      → let nonce = std.trim_space r.nonce_header in
        (secret : Bytes) × (ts_ms : ℕ) × (secret_for v (std.trim_space r.client_header)
          ≡ some secret)
        × (std.parse_int (std.trim_space r.ts_header) ≡ some ts_ms)
        × (std.decode_hex (std.trim_space r.sig_header)
            ≡ some (std.compute_hmac secret (http_material std r ts_ms nonce body)))
  unfolding verify_http
  accepted_request v now r body tidy e =
      let client_id = std.trim_space r.client_header in
      let nonce = std.trim_space r.nonce_header in
      elim (Option-cases (std.parse_int (std.trim_space r.ts_header))) [
        | inl no_ts ↦ ground (arith, e, no_ts)
        | inr (ts_ms, ts) ↦ elim (Option-cases (secret_for v client_id)) [
          | inl unknown ↦ ground (arith, e, ts, unknown)
          | inr (secret, known) ↦
              elim (Option-cases (std.decode_hex (std.trim_space r.sig_header))) [
                | inl no_sig ↦ ground (arith, e, ts, known, no_sig)
                | inr (sig, is_sig) ↦
                    let expected = std.compute_hmac secret (http_material std r ts_ms nonce body) in
                    let checked : (check_signature v now client_id nonce expected sig).0 ≡ none =
                      ground (arith, e, ts, known, is_sig) in
                    (
                      secret,
                      ts_ms,
                      known,
                      ts,
                      ground (
                        arith,
                        is_sig,
                        accepted_signature v now client_id nonce expected sig tidy checked,
                      ),
                    )
              ]
        ]
      ]
