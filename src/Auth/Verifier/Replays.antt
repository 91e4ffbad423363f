-- ===== src/Auth/Verifier/Replays.antt =====
-- internal/auth/verifier.go: that an accepted request is not accepted again within the replay cache's
-- time to live.
use vlf_proto.Base.{ℕ, ◌+◌, ◌<◌, List, [], ◌∷◌, none, some, ◌≡◌, ◌≢◌, arith, Option-cases, inl, inr}
use vlf_proto.Base.Assoc.{bytes_eq}
use vlf_proto.Wire.{Bytes}
use vlf_proto.Auth.Replay.Laws.{
  seen, IsTidy, seen-remains, taken, check_and_store-IsTidy, ttl-check_and_store,
}
use vlf_proto.Auth.Verifier.{
  http_material, Std, Verifier, secret_for, check_replay, check_signature, Request, verify_http,
  session_auth_material, verify_session,
}
use vlf_proto.Auth.Verifier.Signatures.{accepted_session}

-- The cache took a nonce at a time and still knows it.
pub record Knows (v : Verifier) (k j : Bytes) (ts ttl : ℕ) : Type 0 where
  pub tidy : IsTidy v.replay
  pub known : seen v.replay k j ≡ some ts
  pub ttl_is : v.replay.ttl ≡ ttl

check_signature-Knows :
    {k j : Bytes} {ts ttl : ℕ} (v : Verifier) (now : ℕ) (client_id nonce expected sig : Bytes)
    → Knows v k j ts ttl
    → now < ts + ttl
    → Knows (check_signature v now client_id nonce expected sig).2 k j ts ttl
unfolding check_signature check_replay
check_signature-Knows {k} {j} {ts} {ttl} v now client_id nonce expected sig h less = record {
  tidy = ground (arith, h.tidy, check_and_store-IsTidy v.replay client_id nonce now h.tidy);
  known = ground (
    arith,
    h.known,
    h.ttl_is,
    less,
    seen-remains v.replay client_id nonce k j now ts h.tidy h.known,
  );
  ttl_is = ground (arith, h.ttl_is, ttl-check_and_store v.replay client_id nonce now);
}

signed-Knows :
    (v : Verifier) (now : ℕ) (client_id nonce expected sig : Bytes)
    → IsTidy v.replay
    → (check_signature v now client_id nonce expected sig).0 ≡ none
    → Knows (check_signature v now client_id nonce expected sig).2 client_id nonce now v.replay.ttl
unfolding check_signature check_replay
signed-Knows v now client_id nonce expected sig tidy e = record {
  tidy = ground (arith, tidy, check_and_store-IsTidy v.replay client_id nonce now tidy);
  known = ground (arith, e, taken v.replay client_id nonce now tidy);
  ttl_is = ground (arith, ttl-check_and_store v.replay client_id nonce now);
}

-- A call of the verifier, with its time.
pub data Call : Type 0 where
  session : ℕ → Bytes → ℕ → Bytes → Bytes → ℕ → Call
  http : ℕ → Request → Bytes → Call

-- The calls are all before a time.
unfoldable pub Before : ℕ → List Call → Type 0
Before t [] = Unit
Before t (session now client_id ts_ms nonce sig caps ∷ calls) = (now < t) × Before t calls
Before t (http now r body ∷ calls) = (now < t) × Before t calls

module _ (std : Std) where
  unfoldable pub run : Verifier → List Call → Verifier
  run v [] = v
  run v (session now client_id ts_ms nonce sig caps ∷ calls) =
      run (verify_session std v now client_id ts_ms nonce sig caps).2 calls
  run v (http now r body ∷ calls) = run (verify_http std v now r body).2 calls

  session-Knows :
      {k j : Bytes} {ts ttl : ℕ} (v : Verifier) (now : ℕ) (client_id : Bytes) (ts_ms : ℕ)
      (nonce sig : Bytes) (caps : ℕ)
      → Knows v k j ts ttl
      → now < ts + ttl
      → Knows (verify_session std v now client_id ts_ms nonce sig caps).2 k j ts ttl
  unfolding verify_session
  session-Knows v now client_id ts_ms nonce sig caps h less =
      elim (Option-cases (secret_for v client_id)) [
        | inl unknown ↦ ground (arith, h, unknown)
        | inr (secret, known) ↦
            let material = session_auth_material std client_id ts_ms nonce caps in
            ground (
              arith,
              h,
              known,
              check_signature-Knows v now client_id (std.encode_hex nonce)
                  (std.compute_hmac secret material) sig h less,
            )
      ]

  http-Knows :
      {k j : Bytes} {ts ttl : ℕ} (v : Verifier) (now : ℕ) (r : Request) (body : Bytes)
      → Knows v k j ts ttl
      → now < ts + ttl
      → Knows (verify_http std v now r body).2 k j ts ttl
  unfolding verify_http
  http-Knows v now r body h less =
      let client_id = std.trim_space r.client_header in
      let nonce = std.trim_space r.nonce_header in
      elim (Option-cases (std.parse_int (std.trim_space r.ts_header))) [
        | inl bad ↦ ground (arith, h, bad)
        | inr (ts_ms, parsed) ↦ elim (Option-cases (secret_for v client_id)) [
          | inl unknown ↦ ground (arith, h, parsed, unknown)
          | inr (secret, known) ↦
              elim (Option-cases (std.decode_hex (std.trim_space r.sig_header))) [
                | inl bad ↦ ground (arith, h, parsed, known, bad)
                | inr (sig, decoded) ↦
                    let expected = std.compute_hmac secret (http_material std r ts_ms nonce body) in
                    ground (
                      arith,
                      h,
                      parsed,
                      known,
                      decoded,
                      check_signature-Knows v now client_id nonce expected sig h less,
                    )
              ]
        ]
      ]

  pub run-Knows :
      {k j : Bytes} {ts ttl : ℕ} (v : Verifier) (calls : List Call)
      → Knows v k j ts ttl
      → Before (ts + ttl) calls
      → Knows (run v calls) k j ts ttl
  unfolding run Before
  run-Knows v [] h before = h
  run-Knows v (session now client_id ts_ms nonce sig caps ∷ calls) h before =
      run-Knows (verify_session std v now client_id ts_ms nonce sig caps).2 calls
        (session-Knows v now client_id ts_ms nonce sig caps h before.0) before.1
  run-Knows v (http now r body ∷ calls) h before =
      run-Knows (verify_http std v now r body).2 calls (http-Knows v now r body h before.0) before.1

  pub accepted-Knows :
      (v : Verifier) (now : ℕ) (client_id : Bytes) (ts_ms : ℕ) (nonce sig : Bytes) (caps : ℕ)
      → IsTidy v.replay
      → (verify_session std v now client_id ts_ms nonce sig caps).0 ≡ none
      → Knows
          (verify_session std v now client_id ts_ms nonce sig caps).2
          client_id
          (std.encode_hex nonce)
          now
          v.replay.ttl
  unfolding verify_session
  accepted-Knows v now client_id ts_ms nonce sig caps tidy e =
      elim (Option-cases (secret_for v client_id)) [
        | inl unknown ↦ ground (arith, e, unknown)
        | inr (secret, known) ↦
            let material = session_auth_material std client_id ts_ms nonce caps in
            ground (
              arith,
              e,
              known,
              signed-Knows v now client_id (std.encode_hex nonce) (std.compute_hmac secret material)
                  sig tidy,
            )
      ]

  -- Once a session is accepted, no session of that client with that nonce is accepted before the
  -- cache's time to live is over, whatever else is verified in between.
  pub never_replayed :
      (v : Verifier) (now now' : ℕ) (client_id : Bytes) (ts_ms ts_ms' : ℕ) (nonce sig sig' : Bytes)
      (caps caps' : ℕ) (calls : List Call)
      → IsTidy v.replay
      → (verify_session std v now client_id ts_ms nonce sig caps).0 ≡ none
      → Before (now + v.replay.ttl) calls
      → now' < now + v.replay.ttl
      → let v' = run (verify_session std v now client_id ts_ms nonce sig caps).2 calls in
        (verify_session std v' now' client_id ts_ms' nonce sig' caps').0 ≢ none
  never_replayed v now now' client_id ts_ms ts_ms' nonce sig sig' caps caps' calls tidy e before
        late e' =
      let v' = run (verify_session std v now client_id ts_ms nonce sig caps).2 calls in
      let h =
        run-Knows (verify_session std v now client_id ts_ms nonce sig caps).2 calls
          (accepted-Knows v now client_id ts_ms nonce sig caps tidy e) before in
      let again = accepted_session std v' now' client_id ts_ms' nonce sig' caps' h.tidy e' in
      ground (arith, again.4, h.known, h.ttl_is, late)
