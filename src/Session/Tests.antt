-- ===== src/Session/Tests.antt =====
-- Runs of a session, and the theorems at concrete ones. Handles are numbers: the dials give the handles 5
-- and 6.
use vlf_proto.Base.{
  ◌+◌, ◌≤◌, List, true, false, [], ◌∷◌, ◌++◌, replicate, none, some, ok, ◌≡◌, refl, arith,
}
use vlf_proto.Base.Assoc.{nat_eq, lookup, insert}
use vlf_proto.Wire.{
  Bytes, eof, is_panic, read_word, read_uvarint, make_and_read, read_full, put_uvarint,
}
use vlf_proto.Frame.FrameType
use vlf_proto.Frame.{
  Frame, OpenPayload, encode_open_payload, decode_open_payload, read_string, read_bytes, read_frame,
  write_frame, write_bytes,
}
use vlf_proto.Frame.RoundTrip.{FitsFrame}
use vlf_proto.Frame.Streams.{read_frames, write_frames}
use vlf_proto.Session.{
  new_session, close, close_tcp_flows, close_udp_flows, control_frame, open_tcp_frame, sent,
  panicked, flow_count, Net, resolve_target_address, add_tcp_flow, handle_open_tcp, handle_open_udp,
  Event, framed, ended, closes, run,
}
use vlf_proto.Session.Conns.{dials, closings, held}
use vlf_proto.Session.Accounts.{connections_accounted}
use vlf_proto.Session.Bound.{flows_bounded}
use vlf_proto.Session.Closed.{Unclosed, Unwritten, closed_session_keeps_none}
use vlf_proto.Session.Replies.{Answers, opens_answered}
use vlf_proto.Session.Panics.{has_panicked}
use vlf_proto.Session.Control.{
  control_loop, events_of, control_loop_ends, control_loop-write_frames,
}

abbrev net : Net
net = record {
  ip_string = λ ip. ip;
  join_host_port = λ host port. host ++ (58 ∷ port);
  format_port = λ port. port ∷ [];
  dial_tcp = λ addr. ok 5;
  resolve_udp = λ addr. ok addr;
  dial_udp = λ addr. ok 6;
  writes = true;
}

abbrev dead_net : Net
dead_net = record net { writes = false }

abbrev open_payload : OpenPayload
open_payload = record { flow_id = 9; dst_host = 104 ∷ []; dst_ip = []; dst_port = 80 }

abbrev open_frame : Frame
open_frame = record { type = FrameType.open_tcp; payload = encode_open_payload open_payload }

abbrev ping_frame : Frame
ping_frame = record { type = FrameType.ping; payload = 1 ∷ [] }

abbrev before : List Event
before = framed net open_frame ∷ framed net ping_frame ∷ []

abbrev after : List Event
after = framed dead_net open_frame ∷ ended 9 ∷ []

opened :
    (handle_open_tcp net (new_session 4) open_payload).0.tcp_flows
    ≡ (9, record { id = 9; target = 5; stream = none }) ∷ []
unfolding handle_open_tcp add_tcp_flow resolve_target_address new_session flow_count lookup insert
opened = refl

connections_accounted_example :
    let (s, effects) = run (new_session 4) before in dials 5 effects ≡ closings 5 effects + held 5 s
connections_accounted_example = connections_accounted 4 5 before

flows_bounded_example : flow_count (run (new_session 4) before).0 ≤ 4
flows_bounded_example = flows_bounded 4 before

before-Unclosed : Unclosed before
unfolding Unclosed
before-Unclosed = tt

after-Unwritten : Unwritten after
unfolding Unwritten
after-Unwritten = (refl, tt)

closed_session_keeps_none_example :
    let effects = (run (new_session 4) (before ++ closes ∷ after)).1 in
    dials 5 effects ≡ closings 5 effects
closed_session_keeps_none_example =
    closed_session_keeps_none 4 5 before after before-Unclosed after-Unwritten

opens_answered_example :
    Answers FrameType.open_tcp_ok FrameType.open_tcp_fail 9 1 net
      (λ s. s.tcp_flows)
      (new_session 4)
      (handle_open_tcp net (new_session 4) open_payload)
    × Answers FrameType.open_udp_ok FrameType.open_udp_fail 9 0 net
        (λ s. s.udp_flows)
        (new_session 4)
        (handle_open_udp net (new_session 4) open_payload)
opens_answered_example = opens_answered net (new_session 4) open_payload

abbrev ping_bytes : Bytes
ping_bytes = 11 ∷ 1 ∷ 1 ∷ []

control_loop_ends_example :
    control_loop 9 (λ n. net) (new_session 4) ping_bytes
    ≡ some (
        run
          (new_session 4)
          (events_of (λ n. net) (read_frames 9 ping_bytes).0 (read_frames 9 ping_bytes).1))
control_loop_ends_example = control_loop_ends 9 (λ n. net) (new_session 4) ping_bytes (omega arith)

ping_frame-FitsFrame : FitsFrame ping_frame
ping_frame-FitsFrame = record { type = omega arith; payload = omega arith }

ping_written : write_frames [] (ping_frame ∷ []) ≡ ok ping_bytes
unfolding write_frames write_frame write_bytes put_uvarint
ping_written = refl

control_loop-write_frames_example :
    control_loop 9 (λ n. net) (new_session 4) ping_bytes
    ≡ some (run (new_session 4) (events_of (λ n. net) (ping_frame ∷ []) (some eof)))
control_loop-write_frames_example =
    control_loop-write_frames 9 (λ n. net) (new_session 4) (ping_frame ∷ []) ping_bytes
      (ping_frame-FitsFrame, tt) ping_written (omega arith) (omega arith)

-- The loop answers the ping and closes the session at the end of the stream.
ping_run :
    control_loop 9 (λ n. net) (new_session 4) ping_bytes
    ≡ some ((close (new_session 4)).0, sent FrameType.pong (1 ∷ []) ∷ [])
unfolding control_loop read_frame read_uvarint make_and_read read_full control_frame new_session
    close close_tcp_flows close_udp_flows has_panicked is_panic
ping_run = refl

-- An OPEN_TCP whose host is told to be 2 ^ 63 bytes long ends the process; the ping behind it is not met.
abbrev fatal_bytes : Bytes
fatal_bytes = (FrameType.open_tcp ∷ 18 ∷ replicate 8 0) ++ (replicate 9 128 ++ 1 ∷ ping_bytes)

panic_run :
    control_loop 40 (λ n. net) (new_session 4) fatal_bytes ≡ some (new_session 4, panicked ∷ [])
unfolding control_loop read_frame read_uvarint make_and_read read_full control_frame new_session
    open_tcp_frame decode_open_payload read_word read_string read_bytes is_panic has_panicked
panic_run = refl
