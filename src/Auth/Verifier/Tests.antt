-- ===== src/Auth/Verifier/Tests.antt =====
-- Runs of the verifier, and the theorems at a concrete one. The functions of Go's library are stood
-- in for by concrete ones of their types.
use vlf_proto.Base.{ℕ, ◌≤◌, false, [], ◌∷◌, ◌++◌, length, none, some, ◌≡◌, ◌≢◌, refl, arith}
use vlf_proto.Base.Assoc.{bytes_eq, bytes_beq, lookup, insert, retain}
use vlf_proto.Wire.{Bytes}
use vlf_proto.Auth.Replay.{new_replay_cache, check_and_store, is_replay}
use vlf_proto.Auth.Replay.Laws.{seen, new_replay_cache-IsTidy, IsTidy}
use vlf_proto.Auth.Verifier.{
  Std, Verifier, secret_for, exceeds_skew, check_replay, check_signature, session_auth_material,
  sign_session, verify_session,
}
use vlf_proto.Auth.Verifier.Signatures.{accepted_session}
use vlf_proto.Auth.Verifier.Replays.{Before, run, never_replayed}
use vlf_proto.Auth.Verifier.Skew.{accepted_again, never_accepted_twice}

abbrev std : Std
std = record {
  compute_hmac = λ secret payload. secret ++ payload;
  hash_body = λ body. body;
  encode_hex = λ bytes. bytes;
  decode_hex = λ bytes. some bytes;
  trim_space = λ s. s;
  to_upper = λ s. s;
  parse_int = λ s. some (length s);
  format_int = λ n. n ∷ [];
  format_uint = λ n. n ∷ [];
}

-- Both settings are a minute, as in internal/config/config.go.
abbrev minute_verifier : Verifier
minute_verifier = record {
  secrets = (7 ∷ [], 1 ∷ 2 ∷ []) ∷ [];
  replay = new_replay_cache 60000000000;
  clock_skew = 60000000000;
}

abbrev strict_verifier : Verifier
strict_verifier = record minute_verifier { replay = new_replay_cache 130000000000 }

abbrev nonce : Bytes
nonce = 1 ∷ 2 ∷ 3 ∷ 4 ∷ 5 ∷ 6 ∷ 7 ∷ 8 ∷ 9 ∷ 10 ∷ 11 ∷ 12 ∷ []

-- A message that is a minute ahead of the first call's clock.
abbrev sig : Bytes
sig = (1 ∷ 2 ∷ 65 ∷ 85 ∷ 84 ∷ 72 ∷ 124 ∷ 7 ∷ 124 ∷ 100000 ∷ 124 ∷ []) ++ nonce ++ (124 ∷ 0 ∷ [])

signed : sign_session std minute_verifier (7 ∷ []) 100000 nonce 0 ≡ some sig
unfolding sign_session secret_for session_auth_material lookup bytes_beq
signed = refl

accepted : (verify_session std minute_verifier 40000000000 (7 ∷ []) 100000 nonce sig 0).0 ≡ none
unfolding verify_session check_signature check_replay check_and_store exceeds_skew secret_for
    session_auth_material lookup bytes_beq new_replay_cache retain insert
accepted = refl

accepted_strict :
    (verify_session std strict_verifier 40000000000 (7 ∷ []) 100000 nonce sig 0).0 ≡ none
unfolding verify_session check_signature check_replay check_and_store exceeds_skew secret_for
    session_auth_material lookup bytes_beq new_replay_cache retain insert
accepted_strict = refl

tidy : IsTidy minute_verifier.replay
tidy = new_replay_cache-IsTidy 60000000000

in_time : (now : ℕ) → now ≡ 140000000000 → exceeds_skew minute_verifier now 100000 ≡ false
unfolding exceeds_skew
in_time now e = ground (arith, e)

accepted_session_example :
    (sign_session std minute_verifier (7 ∷ []) 100000 nonce 0 ≡ some sig)
    × (exceeds_skew minute_verifier 40000000000 100000 ≡ false)
    × (12 ≤ length nonce)
    × (length nonce ≤ 32)
    × (is_replay minute_verifier.replay 40000000000 (seen minute_verifier.replay (7 ∷ []) nonce)
        ≡ false)
accepted_session_example =
    accepted_session std minute_verifier 40000000000 (7 ∷ []) 100000 nonce sig 0 tidy accepted

nothing-Before : (t : ℕ) → Before t []
unfolding Before
nothing-Before t = tt

never_replayed_example :
    let v' =
      run std (verify_session std minute_verifier 40000000000 (7 ∷ []) 100000 nonce sig 0).2 [] in
    (verify_session std v' 90000000000 (7 ∷ []) 90000 nonce sig 1).0 ≢ none
unfolding new_replay_cache
never_replayed_example =
    never_replayed std minute_verifier 40000000000 90000000000 (7 ∷ []) 100000 90000 nonce sig sig 0
      1 [] tidy accepted (nothing-Before _) (omega arith)

-- The same message, accepted at 40 and at 140 seconds.
accepted_again_example :
    let v' = (verify_session std minute_verifier 40000000000 (7 ∷ []) 100000 nonce sig 0).2 in
    (verify_session std v' 140000000000 (7 ∷ []) 100000 nonce sig 0).0 ≡ none
unfolding new_replay_cache
accepted_again_example =
    accepted_again std minute_verifier 40000000000 140000000000 (7 ∷ []) 100000 nonce sig 0 tidy
      accepted (omega arith) (in_time 140000000000 refl)

never_accepted_twice_example :
    let v' =
      run std (verify_session std strict_verifier 40000000000 (7 ∷ []) 100000 nonce sig 0).2 [] in
    (verify_session std v' 140000000000 (7 ∷ []) 100000 nonce sig 0).0 ≢ none
unfolding new_replay_cache
never_accepted_twice_example =
    never_accepted_twice std strict_verifier 40000000000 140000000000 (7 ∷ []) 100000 nonce sig 0 []
      (new_replay_cache-IsTidy 130000000000) (omega arith) accepted_strict (nothing-Before _)
