-- ===== src/Session/Panics.antt =====
-- internal/session/session.go: when a frame of the control stream ends the process.
use vlf_proto.Base.{
  ℕ, Bool, true, false, ◌&&◌, ◌||◌, List, [], ◌∷◌, ◌==◌, none, Result, ok, err, ◌≡◌, arith,
  Option-cases, Result-cases, inl, inr,
}
use vlf_proto.Base.Assoc.{nat_eq, lookup, insert}
use vlf_proto.Wire.{Bytes, WireError, is_panic}
use vlf_proto.Frame.{Frame, OpenPayload, decode_open_payload, decode_close_flow_payload}
use vlf_proto.Frame.FrameType
use vlf_proto.Session.{
  TcpFlow, UdpFlow, Session, Effect, panicked, Net, resolve_target_address, close_flow,
  add_tcp_flow, handle_open_tcp, add_udp_flow, handle_open_udp, open_tcp_frame, open_udp_frame,
  close_flow_frame, control_frame,
}

-- Whether the process has ended.
unfoldable pub has_panicked : List Effect → Bool
has_panicked [] = false
has_panicked (panicked ∷ effects) = true
has_panicked (effect ∷ effects) = has_panicked effects

abbrev pub failed_by_panic {ℓ} : {A : Type ℓ} → Result WireError A → Bool
failed_by_panic (ok a) = false
failed_by_panic (err e) = is_panic e

-- An open whose payload tells a length that `make` panics on.
unfoldable pub frame_panics : Frame → Bool
frame_panics frame =
    (frame.type == FrameType.open_tcp || frame.type == FrameType.open_udp)
    && failed_by_panic (decode_open_payload frame.payload)

close_flow-has_panicked :
    (s : Session) (flow_id : ℕ) → has_panicked (close_flow s flow_id false).1 ≡ false
unfolding close_flow has_panicked
close_flow-has_panicked s flow_id = elim (Option-cases (lookup flow_id s.tcp_flows)) [
  | inl e ↦ elim (Option-cases (lookup flow_id s.udp_flows)) [
    | inl e' ↦ ground (arith, e, e')
    | inr (udp, e') ↦ ground (arith, e, e')
  ]
  | inr (tcp, e) ↦ elim (Option-cases tcp.stream) [
    | inl no_stream ↦ elim (Option-cases (lookup flow_id s.udp_flows)) [
      | inl e' ↦ ground (arith, e, e', no_stream)
      | inr (udp, e') ↦ ground (arith, e, e', no_stream)
    ]
    | inr (stream, some_stream) ↦ elim (Option-cases (lookup flow_id s.udp_flows)) [
      | inl e' ↦ ground (arith, e, e', some_stream)
      | inr (udp, e') ↦ ground (arith, e, e', some_stream)
    ]
  ]
]

handle_open_tcp-has_panicked :
    (net : Net) (s : Session) (p : OpenPayload) → has_panicked (handle_open_tcp net s p).1 ≡ false
unfolding handle_open_tcp add_tcp_flow has_panicked
handle_open_tcp-has_panicked net s p = elim (Result-cases (resolve_target_address net p)) [
  | inl (addr, e) ↦ elim (Result-cases (net.dial_tcp addr)) [
    | inl (target, e') ↦
        let flow : TcpFlow = record { id = p.flow_id; target = target; stream = none } in
        let s' : Session = record s { tcp_flows = insert p.flow_id flow s.tcp_flows } in
        ground (arith, e, e', close_flow-has_panicked s' p.flow_id)
    | inr (reason, e') ↦ ground (arith, e, e')
  ]
  | inr (reason, e) ↦ ground (arith, e)
]

handle_open_udp-has_panicked :
    (net : Net) (s : Session) (p : OpenPayload) → has_panicked (handle_open_udp net s p).1 ≡ false
unfolding handle_open_udp add_udp_flow has_panicked
handle_open_udp-has_panicked net s p = elim (Result-cases (resolve_target_address net p)) [
  | inl (addr, e) ↦ elim (Result-cases (net.resolve_udp addr)) [
    | inl (udp_addr, e') ↦ elim (Result-cases (net.dial_udp udp_addr)) [
      | inl (conn, e'') ↦
          let flow : UdpFlow = record { id = p.flow_id; conn = conn; seq = 0 } in
          let s' : Session = record s { udp_flows = insert p.flow_id flow s.udp_flows } in
          ground (arith, e, e', e'', close_flow-has_panicked s' p.flow_id)
      | inr (reason, e'') ↦ ground (arith, e, e', e'')
    ]
    | inr (reason, e') ↦ ground (arith, e, e')
  ]
  | inr (reason, e) ↦ ground (arith, e)
]

open_frame-has_panicked :
    (net : Net) (s : Session) (payload : Bytes)
    → let panics = failed_by_panic (decode_open_payload payload) in
      (has_panicked (open_tcp_frame net s payload).1 ≡ panics)
      × (has_panicked (open_udp_frame net s payload).1 ≡ panics)
unfolding open_tcp_frame open_udp_frame has_panicked
open_frame-has_panicked net s payload = elim (Result-cases (decode_open_payload payload)) [
  | inl (p, e) ↦
      ground (arith, e, handle_open_tcp-has_panicked net s p, handle_open_udp-has_panicked net s p)
  | inr (reason, e) ↦ ground (arith, e)
]

close_flow_frame-has_panicked :
    (s : Session) (payload : Bytes) → has_panicked (close_flow_frame s payload).1 ≡ false
unfolding close_flow_frame has_panicked
close_flow_frame-has_panicked s payload = elim (Result-cases (decode_close_flow_payload payload)) [
  | inl (p, e) ↦ ground (arith, e, close_flow-has_panicked s p.flow_id)
  | inr (reason, e) ↦ ground (arith, e)
]

-- A frame ends the process exactly when it is an open with such a payload.
pub control_frame-has_panicked :
    (net : Net) (s : Session) (frame : Frame)
    → has_panicked (control_frame net s frame).1 ≡ frame_panics frame
unfolding control_frame frame_panics has_panicked
control_frame-has_panicked net s frame = ground (
  arith,
  open_frame-has_panicked net s frame.payload,
  close_flow_frame-has_panicked s frame.payload,
)
