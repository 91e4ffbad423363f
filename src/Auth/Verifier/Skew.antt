-- ===== src/Auth/Verifier/Skew.antt =====
-- internal/auth/verifier.go: the replay cache's time to live against the clock skew.
use vlf_proto.Base.{
  ℕ, ◌+◌, ◌*◌, ◌<◌, ◌≤◌, false, List, [], ◌∷◌, none, some, ◌≡◌, ◌≢◌, refl, ◌∙◌, ap, arith,
  Option-cases, dec_lt, inl, inr,
}
use vlf_proto.Base.Assoc.{bytes_eq, lookup}
use vlf_proto.Wire.{Bytes}
use vlf_proto.Auth.Replay.{is_replay}
use vlf_proto.Auth.Replay.Laws.{seen, IsTidy, refuses-seen}
use vlf_proto.Auth.Verifier.{
  Std, Verifier, secret_for, exceeds_skew, check_replay, check_signature, Request, verify_http,
  verify_session,
}
use vlf_proto.Auth.Verifier.Signatures.{accepted_session}
use vlf_proto.Auth.Verifier.Replays.{
  Call, session, http, Before, run, accepted-Knows, never_replayed,
}

Before-mono : (t u : ℕ) (calls : List Call) → t ≤ u → Before t calls → Before u calls
unfolding Before
Before-mono t u [] le h = tt
Before-mono t u (session now client_id ts_ms nonce sig caps ∷ calls) le h =
    (omega (arith, le, h.0), Before-mono t u calls le h.1)
Before-mono t u (http now r body ∷ calls) le h =
    (omega (arith, le, h.0), Before-mono t u calls le h.1)

-- Two times that are both within the skew of a third are within twice the skew.
skew_apart :
    (v w : Verifier) (now now' ts_ms : ℕ)
    → w.clock_skew ≡ v.clock_skew
    → exceeds_skew v now ts_ms ≡ false
    → exceeds_skew w now' ts_ms ≡ false
    → now' ≤ now + 2 * v.clock_skew
unfolding exceeds_skew
skew_apart v w now now' ts_ms same e e' = ground (arith, same, e, e')

module _ (std : Std) where
  -- Verifying changes neither the secrets nor the clock skew.
  settings-session :
      (v : Verifier) (now : ℕ) (client_id : Bytes) (ts_ms : ℕ) (nonce sig : Bytes) (caps : ℕ)
      → let v' = (verify_session std v now client_id ts_ms nonce sig caps).2 in
        (v'.secrets ≡ v.secrets) × (v'.clock_skew ≡ v.clock_skew)
  unfolding verify_session check_signature check_replay
  settings-session v now client_id ts_ms nonce sig caps =
      elim (Option-cases (secret_for v client_id)) [
        | inl unknown ↦ ground (arith, unknown)
        | inr (secret, known) ↦ ground (arith, known)
      ]

  -- Another verifier with the same secrets, to which the message is in time and new, accepts it too.
  accepts_too :
      (v w : Verifier) (now now' : ℕ) (client_id : Bytes) (ts_ms : ℕ) (nonce sig : Bytes) (caps : ℕ)
      → (verify_session std v now client_id ts_ms nonce sig caps).0 ≡ none
      → w.secrets ≡ v.secrets
      → IsTidy w.replay
      → exceeds_skew w now' ts_ms ≡ false
      → is_replay w.replay now' (seen w.replay client_id (std.encode_hex nonce)) ≡ false
      → (verify_session std w now' client_id ts_ms nonce sig caps).0 ≡ none
  unfolding verify_session check_signature check_replay secret_for
  accepts_too v w now now' client_id ts_ms nonce sig caps e same tidy skew new =
      elim (Option-cases (lookup client_id v.secrets)) [
        | inl unknown ↦ ground (arith, e, unknown)
        | inr (secret, known) ↦
            let known' : lookup client_id w.secrets ≡ some secret =
              ap (lookup client_id) same ∙ known in
            ground (
              arith,
              e,
              known,
              known',
              skew,
              new,
              refuses-seen w.replay client_id (std.encode_hex nonce) now' tidy,
            )
      ]

  -- A session that is accepted is accepted again, unchanged, once the cache's time to live is over,
  -- as long as its time is within the clock skew: the cache forgets a nonce whose message is still
  -- good.
  pub accepted_again :
      (v : Verifier) (now now' : ℕ) (client_id : Bytes) (ts_ms : ℕ) (nonce sig : Bytes) (caps : ℕ)
      → IsTidy v.replay
      → (verify_session std v now client_id ts_ms nonce sig caps).0 ≡ none
      → now + v.replay.ttl ≤ now'
      → exceeds_skew v now' ts_ms ≡ false
      → let v' = (verify_session std v now client_id ts_ms nonce sig caps).2 in
        (verify_session std v' now' client_id ts_ms nonce sig caps).0 ≡ none
  unfolding exceeds_skew
  accepted_again v now now' client_id ts_ms nonce sig caps tidy e late skew =
      let v' = (verify_session std v now client_id ts_ms nonce sig caps).2 in
      let (secrets, skews) = settings-session v now client_id ts_ms nonce sig caps in
      let h = accepted-Knows std v now client_id ts_ms nonce sig caps tidy e in
      accepts_too v v' now now' client_id ts_ms nonce sig caps e secrets h.tidy (rw skews skew)
        (ground (arith, h.known, h.ttl_is, late))

  in_time_of :
      (v : Verifier) (now : ℕ) (client_id : Bytes) (ts_ms : ℕ) (nonce sig : Bytes) (caps : ℕ)
      → (verify_session std v now client_id ts_ms nonce sig caps).0 ≡ none
      → exceeds_skew v now ts_ms ≡ false
  unfolding verify_session
  in_time_of v now client_id ts_ms nonce sig caps e = ground (arith, e)

  settings-http :
      (v : Verifier) (now : ℕ) (r : Request) (body : Bytes)
      → (verify_http std v now r body).2.clock_skew ≡ v.clock_skew
  unfolding verify_http check_signature check_replay
  settings-http v now r body =
      let client_id = std.trim_space r.client_header in
      elim (Option-cases (std.parse_int (std.trim_space r.ts_header))) [
        | inl bad ↦ ground (arith, bad)
        | inr (ts_ms, parsed) ↦ elim (Option-cases (secret_for v client_id)) [
          | inl unknown ↦ ground (arith, parsed, unknown)
          | inr (secret, known) ↦
              elim (Option-cases (std.decode_hex (std.trim_space r.sig_header))) [
                | inl bad ↦ ground (arith, parsed, known, bad)
                | inr (sig, decoded) ↦ ground (arith, parsed, known, decoded)
              ]
        ]
      ]

  skew-run : (v : Verifier) (calls : List Call) → (run std v calls).clock_skew ≡ v.clock_skew
  unfolding run
  skew-run v [] = refl
  skew-run v (session now client_id ts_ms nonce sig caps ∷ calls) =
      skew-run (verify_session std v now client_id ts_ms nonce sig caps).2 calls
      ∙ (settings-session v now client_id ts_ms nonce sig caps).1
  skew-run v (http now r body ∷ calls) =
      skew-run (verify_http std v now r body).2 calls ∙ settings-http v now r body

  -- Where the cache's time to live is more than twice the clock skew, a session that is accepted is
  -- never accepted again, however late, whatever is verified in between and not later than it.
  pub never_accepted_twice :
      (v : Verifier) (now now' : ℕ) (client_id : Bytes) (ts_ms : ℕ) (nonce sig : Bytes) (caps : ℕ)
      (calls : List Call)
      → IsTidy v.replay
      → 2 * v.clock_skew < v.replay.ttl
      → (verify_session std v now client_id ts_ms nonce sig caps).0 ≡ none
      → Before (now' + 1) calls
      → let v' = run std (verify_session std v now client_id ts_ms nonce sig caps).2 calls in
        (verify_session std v' now' client_id ts_ms nonce sig caps).0 ≢ none
  never_accepted_twice v now now' client_id ts_ms nonce sig caps calls tidy long e before e' =
      let v₁ = (verify_session std v now client_id ts_ms nonce sig caps).2 in
      let same = skew-run v₁ calls ∙ (settings-session v now client_id ts_ms nonce sig caps).1 in
      let first = accepted_session std v now client_id ts_ms nonce sig caps tidy e in
      elim (dec_lt now' (now + v.replay.ttl)) [
        | yes soon ↦
            never_replayed std v now now' client_id ts_ms ts_ms nonce sig sig caps caps calls tidy e
              (Before-mono (now' + 1) (now + v.replay.ttl) calls (omega (arith, soon)) before) soon
              e'
        | no late ↦
            let in_time = in_time_of (run std v₁ calls) now' client_id ts_ms nonce sig caps e' in
            let apart = skew_apart v (run std v₁ calls) now now' ts_ms same first.1 in_time in
            late (omega (arith, apart, long))
      ]
