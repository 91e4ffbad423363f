-- ===== src/Session/Control.antt =====
-- internal/session/session.go: `controlLoop`, which reads frames until a read fails and then closes the
-- session. Where `make` panics on a length, the process ends.
use vlf_proto.Base.{
  ℕ, zero, suc, ◌<◌, List, [], ◌∷◌, ◌++◌, length, Option, none, some, ok, err, >>=-eq_ok, ◌≡◌, refl,
  arith, Result-cases, Bool-cases, if◌then◌else◌, inl, inr, All, append-nil,
}
use vlf_proto.Wire.{Bytes, WireError, is_panic, eof, read_uvarint, make_and_read}
use vlf_proto.Wire.Sizes.{Shortens, read_uvarint-Shortens, make_and_read_le}
use vlf_proto.Frame.{Frame, read_frame}
use vlf_proto.Frame.RoundTrip.{FitsFrame}
use vlf_proto.Frame.Streams.{read_frames, write_frames, read_frames-write_frames}
use vlf_proto.Session.{
  Session, Effect, panicked, Net, control_frame, close, Event, framed, closes, panics, step, run,
}
use vlf_proto.Session.Panics.{has_panicked, frame_panics, control_frame-has_panicked}

-- The loop on the bytes that are still to come; `nets` is what the `n`-th frame meets outside. It is
-- `none` if the fuel runs out. A panic of `ReadFrame` or of a handler ends the process, and the session
-- is not closed then.
unfoldable pub control_loop : ℕ → (ℕ → Net) → Session → Bytes → Option (Session × List Effect)
control_loop zero nets s stream = none
control_loop (suc fuel) nets s stream = elim (read_frame stream) [
  | err e ↦ if is_panic e then some (s, panicked ∷ []) else some (close s)
  | ok (frame, rest) ↦
      let (s', effects) = control_frame (nets 0) s frame in
      let next = control_loop fuel (λ n. nets (suc n)) s' rest in
      if has_panicked effects
      then some (s', effects)
      else elim next [ none ↦ none | some (s'', effects') ↦ some (s'', effects ++ effects') ]
]

-- What a stream of frames and its end are to the session: the frames up to the first that ends the
-- process; else all of them and then `Close`, or a panic where the end is one.
unfoldable pub events_of : (ℕ → Net) → List Frame → Option WireError → List Event
events_of nets [] none = closes ∷ []
events_of nets [] (some e) = if is_panic e then panics ∷ [] else closes ∷ []
events_of nets (frame ∷ frames) end =
    let rest = events_of (λ n. nets (suc n)) frames end in
    framed (nets 0) frame ∷ (if frame_panics frame then [] else rest)

read_frame-Shortens : Shortens read_frame
unfolding read_frame
read_frame-Shortens s f r h =
    let (typ, e₁, h₁) = >>=-eq_ok (read_uvarint s) _ h in
    let (ln, e₂, h₂) = >>=-eq_ok (read_uvarint typ.1) _ h₁ in
    let (payload, e₃, h₃) = >>=-eq_ok (make_and_read ln.0 ln.1) _ h₂ in
    ground (
      arith,
      h₃,
      read_uvarint-Shortens s typ.0 typ.1 e₁,
      read_uvarint-Shortens typ.1 ln.0 ln.1 e₂,
      make_and_read_le ln.0 ln.1 payload.0 payload.1 e₃,
    )

-- The control loop ends on every stream, within one round more than the stream has bytes: it handles
-- the frames that can be read from the stream, in their order, up to the first whose payload makes the
-- process panic; where there is none, it then closes the session, unless the read itself panics.
pub control_loop_ends :
    (fuel : ℕ) (nets : ℕ → Net) (s : Session) (stream : Bytes)
    → length stream < fuel
    → let (frames, end) = read_frames fuel stream in
      control_loop fuel nets s stream ≡ some (run s (events_of nets frames end))
unfolding control_loop read_frames events_of run step
control_loop_ends zero nets s stream h = absurd (omega arith)
control_loop_ends (suc fuel) nets s stream h = elim (Result-cases (read_frame stream)) [
  | inr (e, failed) ↦ elim (Bool-cases (is_panic e)) [
    | inl fatal ↦ rw (failed, control_loop, read_frames, events_of) (rw fatal refl)
    | inr orderly ↦
        rw (failed, control_loop, read_frames, events_of)
          (rw orderly (rw (append-nil (close s).1) refl))
  ]
  | inl ((frame, rest), is_read) ↦
      let shorter = read_frame-Shortens stream frame rest is_read in
      let (s', effects) = control_frame (nets 0) s frame in
      let same = control_frame-has_panicked (nets 0) s frame in
      rw (is_read, control_loop, read_frames, events_of)
        (rw same (elim (Bool-cases (frame_panics frame)) [
          | inl fatal ↦ rw fatal (rw (append-nil effects) refl)
          | inr goes_on ↦ rw goes_on (
              rw (control_loop_ends fuel (λ n. nets (suc n)) s' rest (omega (arith, shorter, h)))
                refl)
        ]))
]

-- A client that writes frames to its control stream and then ends it has these frames handled, in their
-- order, and then its session is closed; but the first frame whose payload makes the process panic is
-- the last that is handled, and nothing is closed then.
pub control_loop-write_frames :
    (fuel : ℕ) (nets : ℕ → Net) (s : Session) (frames : List Frame) (stream : Bytes)
    → All FitsFrame frames
    → write_frames [] frames ≡ ok stream
    → length frames < fuel
    → length stream < fuel
    → control_loop fuel nets s stream ≡ some (run s (events_of nets frames (some eof)))
control_loop-write_frames fuel nets s frames stream fit written enough enough' =
    let (sent, is_sent, is_read) = read_frames-write_frames fuel frames fit enough in
    let same : sent ≡ stream = ground (arith, is_sent, written) in
    let heard : read_frames fuel stream ≡ (frames, some eof) = rw (← same) is_read in
    rw (control_loop_ends fuel nets s stream enough', heard) refl
