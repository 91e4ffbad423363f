-- ===== src/Session/Closed.antt =====
-- internal/session/session.go: a session that is closed keeps no connection.
use vlf_proto.Base.{
  ℕ, Bool, true, false, List, [], ◌∷◌, ◌++◌, ◌≡◌, refl, arith, inl, inr, Option-cases, Result-cases,
  ap, ◌∙◌,
}
use vlf_proto.Base.Assoc.{nat_eq, lookup, insert, delete}
use vlf_proto.Wire.{Bytes, read_full, uint_of}
use vlf_proto.Frame.{Frame, OpenPayload, decode_open_payload, decode_close_flow_payload}
use vlf_proto.Session.{
  Session, new_session, Net, resolve_target_address, close_flow, close, add_tcp_flow,
  handle_open_tcp, add_udp_flow, handle_open_udp, open_tcp_frame, open_udp_frame, close_flow_frame,
  control_frame, handle_flow_stream, Event, framed, streamed, ended, closes, panics, step, run,
}
use vlf_proto.Session.Conns.{dials, closings, tcp_held, udp_held, held}
use vlf_proto.Session.Accounts.{connections_accounted}

-- A session that is closed and has no flows.
abbrev pub drained : ℕ → Session
drained max_flows = record {
  max_flows = max_flows;
  is_closed = true;
  tcp_flows = [];
  udp_flows = [];
}

-- `Close` closes the control stream before it empties the tables: no write succeeds from then on.
unfoldable pub Unwritten : List Event → Type 0
Unwritten [] = Unit
Unwritten (framed net frame ∷ events) = (net.writes ≡ false) × Unwritten events
Unwritten (event ∷ events) = Unwritten events

-- The session is not closed yet.
unfoldable pub Unclosed : List Event → Type 0
Unclosed [] = Unit
Unclosed (closes ∷ events) = ⊥
Unclosed (event ∷ events) = Unclosed events

close_flow-keeps :
    (s : Session) (flow_id : ℕ) (notify : Bool)
    → (close_flow s flow_id notify).0.is_closed ≡ s.is_closed
unfolding close_flow
close_flow-keeps s flow_id notify = ground arith

handle_open_tcp-keeps :
    (net : Net) (s : Session) (p : OpenPayload)
    → (handle_open_tcp net s p).0.is_closed ≡ s.is_closed
unfolding handle_open_tcp add_tcp_flow close_flow
handle_open_tcp-keeps net s p = elim (Result-cases (resolve_target_address net p)) [
  | inl (addr, e) ↦ elim (Result-cases (net.dial_tcp addr)) [
    | inl (target, e') ↦ ground (arith, e, e')
    | inr (reason, e') ↦ ground (arith, e, e')
  ]
  | inr (reason, e) ↦ ground (arith, e)
]

handle_open_udp-keeps :
    (net : Net) (s : Session) (p : OpenPayload)
    → (handle_open_udp net s p).0.is_closed ≡ s.is_closed
unfolding handle_open_udp add_udp_flow close_flow
handle_open_udp-keeps net s p = elim (Result-cases (resolve_target_address net p)) [
  | inl (addr, e) ↦ elim (Result-cases (net.resolve_udp addr)) [
    | inl (udp_addr, e') ↦ elim (Result-cases (net.dial_udp udp_addr)) [
      | inl (conn, e'') ↦ ground (arith, e, e', e'')
      | inr (reason, e'') ↦ ground (arith, e, e', e'')
    ]
    | inr (reason, e') ↦ ground (arith, e, e')
  ]
  | inr (reason, e) ↦ ground (arith, e)
]

control_frame-keeps :
    (net : Net) (s : Session) (frame : Frame)
    → (control_frame net s frame).0.is_closed ≡ s.is_closed
unfolding control_frame open_tcp_frame open_udp_frame close_flow_frame
control_frame-keeps net s frame = elim (Result-cases (decode_open_payload frame.payload)) [
  | inl (p, e) ↦ elim (Result-cases (decode_close_flow_payload frame.payload)) [
    | inl (c, e') ↦ ground (
      arith,
      e,
      e',
      handle_open_tcp-keeps net s p,
      handle_open_udp-keeps net s p,
      close_flow-keeps s c.flow_id false,
    )
    | inr (reason, e') ↦
        ground (arith, e, e', handle_open_tcp-keeps net s p, handle_open_udp-keeps net s p)
  ]
  | inr (reason, e) ↦ elim (Result-cases (decode_close_flow_payload frame.payload)) [
    | inl (c, e') ↦ ground (arith, e, e', close_flow-keeps s c.flow_id false)
    | inr (reason', e') ↦ ground (arith, e, e')
  ]
]

handle_flow_stream-keeps :
    (s : Session) (stream : ℕ) (bytes : Bytes)
    → (handle_flow_stream s stream bytes).0.is_closed ≡ s.is_closed
unfolding handle_flow_stream
handle_flow_stream-keeps s stream bytes = elim (Result-cases (read_full 8 bytes)) [
  | inl (read, e) ↦ elim (Option-cases (lookup (uint_of read.0) s.tcp_flows)) [
    | inl e' ↦ ground (arith, e, e')
    | inr (flow, e') ↦ ground (arith, e, e')
  ]
  | inr (reason, e) ↦ ground (arith, e)
]

run-keeps :
    (s : Session) (events : List Event) → Unclosed events → (run s events).0.is_closed ≡ s.is_closed
unfolding run step Unclosed
run-keeps s [] u = refl
run-keeps s (framed net frame ∷ events) u =
    run-keeps (control_frame net s frame).0 events u ∙ control_frame-keeps net s frame
run-keeps s (streamed stream bytes ∷ events) u =
    run-keeps (handle_flow_stream s stream bytes).0 events u
    ∙ handle_flow_stream-keeps s stream bytes
run-keeps s (ended flow_id ∷ events) u =
    run-keeps (close_flow s flow_id true).0 events u ∙ close_flow-keeps s flow_id true
run-keeps s (closes ∷ events) u = absurd u
run-keeps s (panics ∷ events) u = run-keeps s events u

close-drained : (s : Session) → s.is_closed ≡ false → (close s).0 ≡ drained s.max_flows
unfolding close
close-drained s open_still = rw (open_still, close) refl

add_tcp_flow-drained :
    (net : Net) (m flow_id target : ℕ)
    → net.writes ≡ false
    → (add_tcp_flow net (drained m) flow_id target).0 ≡ drained m
unfolding add_tcp_flow close_flow lookup insert delete
add_tcp_flow-drained net m flow_id target w = ground (arith, w)

add_udp_flow-drained :
    (net : Net) (m flow_id conn : ℕ)
    → net.writes ≡ false
    → (add_udp_flow net (drained m) flow_id conn).0 ≡ drained m
unfolding add_udp_flow close_flow lookup insert delete
add_udp_flow-drained net m flow_id conn w = ground (arith, w)

handle_open_tcp-drained :
    (net : Net) (m : ℕ) (p : OpenPayload)
    → net.writes ≡ false
    → (handle_open_tcp net (drained m) p).0 ≡ drained m
unfolding handle_open_tcp
handle_open_tcp-drained net m p w = elim (Result-cases (resolve_target_address net p)) [
  | inl (addr, e) ↦ elim (Result-cases (net.dial_tcp addr)) [
    | inl (target, e') ↦ ground (arith, e, e', add_tcp_flow-drained net m p.flow_id target w)
    | inr (reason, e') ↦ ground (arith, e, e')
  ]
  | inr (reason, e) ↦ ground (arith, e)
]

handle_open_udp-drained :
    (net : Net) (m : ℕ) (p : OpenPayload)
    → net.writes ≡ false
    → (handle_open_udp net (drained m) p).0 ≡ drained m
unfolding handle_open_udp
handle_open_udp-drained net m p w = elim (Result-cases (resolve_target_address net p)) [
  | inl (addr, e) ↦ elim (Result-cases (net.resolve_udp addr)) [
    | inl (udp_addr, e') ↦ elim (Result-cases (net.dial_udp udp_addr)) [
      | inl (conn, e'') ↦ ground (arith, e, e', e'', add_udp_flow-drained net m p.flow_id conn w)
      | inr (reason, e'') ↦ ground (arith, e, e', e'')
    ]
    | inr (reason, e') ↦ ground (arith, e, e')
  ]
  | inr (reason, e) ↦ ground (arith, e)
]

close_flow-drained :
    (m flow_id : ℕ) (notify : Bool) → (close_flow (drained m) flow_id notify).0 ≡ drained m
unfolding close_flow lookup
close_flow-drained m flow_id notify = refl

control_frame-drained :
    (net : Net) (m : ℕ) (frame : Frame)
    → net.writes ≡ false
    → (control_frame net (drained m) frame).0 ≡ drained m
unfolding control_frame open_tcp_frame open_udp_frame close_flow_frame
control_frame-drained net m frame w = elim (Result-cases (decode_open_payload frame.payload)) [
  | inl (p, e) ↦ elim (Result-cases (decode_close_flow_payload frame.payload)) [
    | inl (c, e') ↦ ground (
      arith,
      e,
      e',
      handle_open_tcp-drained net m p w,
      handle_open_udp-drained net m p w,
      close_flow-drained m c.flow_id false,
    )
    | inr (reason, e') ↦
        ground (arith, e, e', handle_open_tcp-drained net m p w, handle_open_udp-drained net m p w)
  ]
  | inr (reason, e) ↦ elim (Result-cases (decode_close_flow_payload frame.payload)) [
    | inl (c, e') ↦ ground (arith, e, e', close_flow-drained m c.flow_id false)
    | inr (reason', e') ↦ ground (arith, e, e')
  ]
]

handle_flow_stream-drained :
    (m stream : ℕ) (bytes : Bytes) → (handle_flow_stream (drained m) stream bytes).0 ≡ drained m
unfolding handle_flow_stream lookup
handle_flow_stream-drained m stream bytes = elim (Result-cases (read_full 8 bytes)) [
  | inl (read, e) ↦ rw (e, handle_flow_stream) refl
  | inr (reason, e) ↦ rw (e, handle_flow_stream) refl
]

run-drained :
    (m : ℕ) (events : List Event) → Unwritten events → (run (drained m) events).0 ≡ drained m
unfolding run step Unwritten close
run-drained m [] u = refl
run-drained m (framed net frame ∷ events) u =
    ap (λ s. (run s events).0) (control_frame-drained net m frame u.0) ∙ run-drained m events u.1
run-drained m (streamed stream bytes ∷ events) u =
    ap (λ s. (run s events).0) (handle_flow_stream-drained m stream bytes) ∙ run-drained m events u
run-drained m (ended flow_id ∷ events) u =
    ap (λ s. (run s events).0) (close_flow-drained m flow_id true) ∙ run-drained m events u
run-drained m (closes ∷ events) u = run-drained m events u
run-drained m (panics ∷ events) u = run-drained m events u

run-append : (s : Session) (xs ys : List Event) → (run s (xs ++ ys)).0 ≡ (run (run s xs).0 ys).0
unfolding run
run-append s [] ys = refl
run-append s (x ∷ xs) ys = run-append (step s x).0 xs ys

-- Once a session is closed, and writes to its control stream fail, every connection that it dialed
-- before or dials after has been closed as often as it was dialed.
pub closed_session_keeps_none :
    (max_flows h : ℕ) (before after : List Event)
    → Unclosed before
    → Unwritten after
    → let effects = (run (new_session max_flows) (before ++ closes ∷ after)).1 in
      dials h effects ≡ closings h effects
unfolding new_session run step held tcp_held udp_held
closed_session_keeps_none max_flows h before after u u' =
    let s = (run (new_session max_flows) before).0 in
    let last : (run (new_session max_flows) (before ++ closes ∷ after)).0 ≡ drained s.max_flows =
      run-append (new_session max_flows) before (closes ∷ after)
      ∙ ap (λ t. (run t after).0) (close-drained s (run-keeps (new_session max_flows) before u))
      ∙ run-drained s.max_flows after u' in
    let none_held : held h (run (new_session max_flows) (before ++ closes ∷ after)).0 ≡ 0 =
      ap (held h) last in
    omega (arith, connections_accounted max_flows h (before ++ closes ∷ after), none_held)
