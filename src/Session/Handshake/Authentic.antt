-- ===== src/Session/Handshake/Authentic.antt =====
-- internal/session/session.go: only a client that signs with its secret gets a session, and it does.
use vlf_proto.Base.{
  ℕ, ◌<◌, ◌≤◌, Bool, true, false, [], ◌∷◌, ◌++◌, ◌==◌, length, none, some, ok, ◌≡◌, refl, arith,
  Option-cases, Result-cases, Bool-cases, inl, inr,
}
use vlf_proto.Wire.{Bytes, max_alloc}
use vlf_proto.Frame.{
  Frame, read_frame, AuthPayload, decode_auth_payload, encode_auth_payload, encode_auth_ok_payload,
}
use vlf_proto.Frame.FrameType
use vlf_proto.Frame.RoundTrip.{
  FitsAuth, frame_bytes, read_frame-frame_bytes, decode_auth_payload-encode_auth_payload,
}
use vlf_proto.Auth.Replay.{is_replay}
use vlf_proto.Auth.Replay.Laws.{seen, IsTidy}
use vlf_proto.Auth.Verifier.{Std, Verifier, verify_session, sign_session, exceeds_skew}
use vlf_proto.Auth.Verifier.Signatures.{accepted_session, verify-sign_session}
use vlf_proto.Session.Handshake.{Offer, auth_ok_of, finish_auth, handshake}

module _ (std : Std) (offer : Offer) (session_id : ℕ) where
  accepted_auth :
      (v : Verifier) (now : ℕ) (writes : Bool) (p : AuthPayload) (rest client_id rest' : Bytes)
      → (finish_auth std offer session_id v now writes p rest).0 ≡ ok (client_id, rest')
      → ((verify_session std v now p.client_id p.ts_ms p.nonce p.sig p.caps).0 ≡ none)
        × (p.client_id ≡ client_id)
        × (rest ≡ rest')
  unfolding finish_auth
  accepted_auth v now writes p rest client_id rest' h =
      elim (Option-cases (verify_session std v now p.client_id p.ts_ms p.nonce p.sig p.caps).0) [
        | inl e ↦ ground (arith, h, e)
        | inr (error, e) ↦ ground (arith, h, e)
      ]

  authenticated_first :
      (v : Verifier) (now : ℕ) (writes : Bool) (stream client_id rest : Bytes)
      → (handshake std offer session_id v now writes stream).0 ≡ ok (client_id, rest)
      → (first : Frame) × (p : AuthPayload) × (after : Bytes) × (read_frame stream
          ≡ ok (first, after))
        × (first.type ≡ FrameType.auth)
        × (decode_auth_payload first.payload ≡ ok p)
        × ((finish_auth std offer session_id v now writes p after).0 ≡ ok (client_id, rest))
  unfolding handshake
  authenticated_first v now writes stream client_id rest h =
      elim (Result-cases (read_frame stream)) [
        | inr (e, unread) ↦ ground (arith, h, unread)
        | inl ((first, after), is_read) ↦ elim (Bool-cases (first.type == FrameType.auth)) [
          | inr other ↦ ground (arith, h, is_read, other)
          | inl auth ↦ elim (Result-cases (decode_auth_payload first.payload)) [
            | inr (e, bad) ↦ ground (arith, h, is_read, auth, bad)
            | inl (p, good) ↦ (
              first,
              p,
              after,
              is_read,
              ground (arith, auth),
              good,
              ground (arith, h, is_read, auth, good),
            )
          ]
        ]
      ]

  -- A session gets to work only for a client whose first frame is an AUTH that is signed with the
  -- client's secret over its client id, time, nonce and capabilities, and whose time is within the
  -- clock skew.
  pub session_authentic :
      (v : Verifier) (now : ℕ) (writes : Bool) (stream client_id rest : Bytes)
      → IsTidy v.replay
      → (handshake std offer session_id v now writes stream).0 ≡ ok (client_id, rest)
      → (first : Frame) × (p : AuthPayload) × (read_frame stream ≡ ok (first, rest))
        × (first.type ≡ FrameType.auth)
        × (decode_auth_payload first.payload ≡ ok p)
        × (p.client_id ≡ client_id)
        × (sign_session std v client_id p.ts_ms p.nonce p.caps ≡ some p.sig)
        × (exceeds_skew v now p.ts_ms ≡ false)
  session_authentic v now writes stream client_id rest tidy h =
      let (first, p, after, is_read, auth, good, finished) =
        authenticated_first v now writes stream client_id rest h in
      let (verified, client, left) = accepted_auth v now writes p after client_id rest finished in
      let (signed, skew, _, _, _) =
        accepted_session std v now p.client_id p.ts_ms p.nonce p.sig p.caps tidy verified in
      (
        first,
        p,
        ground (arith, is_read, left),
        auth,
        good,
        client,
        ground (arith, signed, client),
        skew,
      )

  -- A client that signs its AUTH with its secret gets AUTH_OK and its session, and the rest of its
  -- stream is read as frames: if its id, nonce and time are in range and the nonce is new.
  pub signed_client_accepted :
      (v : Verifier) (now : ℕ) (p : AuthPayload) (rest : Bytes)
      → IsTidy v.replay
      → FitsAuth p
      → length (encode_auth_payload p) ≤ max_alloc
      → sign_session std v p.client_id p.ts_ms p.nonce p.caps ≡ some p.sig
      → 0 < length p.client_id
      → 0 < length p.sig
      → 12 ≤ length p.nonce
      → length p.nonce ≤ 32
      → exceeds_skew v now p.ts_ms ≡ false
      → is_replay v.replay now (seen v.replay p.client_id (std.encode_hex p.nonce)) ≡ false
      → let frame : Frame = record { type = FrameType.auth; payload = encode_auth_payload p } in
        let outcome = handshake std offer session_id v now true (frame_bytes frame ++ rest) in
        (outcome.0 ≡ ok (p.client_id, rest))
        × (outcome.1
            ≡ (FrameType.auth_ok, encode_auth_ok_payload (auth_ok_of offer session_id)) ∷ [])
  unfolding handshake finish_auth
  signed_client_accepted v now p rest tidy fits small signed c s low high skew new =
      let frame : Frame = record { type = FrameType.auth; payload = encode_auth_payload p } in
      rw
        (
          handshake,
          read_frame-frame_bytes frame rest (record { type = omega arith; payload = small }),
          decode_auth_payload-encode_auth_payload p fits,
          finish_auth,
          verify-sign_session std v now p.client_id p.ts_ms p.nonce p.sig p.caps tidy signed c s low
              high skew,
          new,
        )
        (refl, refl)
