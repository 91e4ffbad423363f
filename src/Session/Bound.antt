-- ===== src/Session/Bound.antt =====
-- internal/session/session.go: how many flows a session has.
use vlf_proto.Base.{
  ℕ, ◌+◌, ◌≤◌, Bool, true, false, List, [], ◌∷◌, none, some, ◌≡◌, arith, inl, inr, Option-cases,
  Result-cases,
}
use vlf_proto.Base.Assoc.{nat_eq, lookup, insert}
use vlf_proto.Wire.{Bytes, read_full, uint_of}
use vlf_proto.Frame.{OpenPayload, decode_open_payload, decode_close_flow_payload}
use vlf_proto.Session.{
  TcpFlow, UdpFlow, Session, new_session, Net, resolve_target_address, close_flow, close,
  add_tcp_flow, handle_open_tcp, add_udp_flow, handle_open_udp, open_tcp_frame, open_udp_frame,
  close_flow_frame, control_frame, handle_flow_stream, Event, framed, streamed, ended, closes,
  panics, step, run,
}
use vlf_proto.Base.Assoc.Laws.{length-insert, length-delete_le}
use vlf_proto.Session.{flow_count}

add_tcp_flow-count :
    (net : Net) (s : Session) (flow_id target : ℕ)
    → flow_count (add_tcp_flow net s flow_id target).0 ≤ flow_count s + 1
unfolding add_tcp_flow flow_count close_flow
add_tcp_flow-count net s flow_id target =
    let flow : TcpFlow = record { id = flow_id; target = target; stream = none } in
    ground (
      arith,
      length-insert flow_id flow s.tcp_flows,
      length-delete_le flow_id (insert flow_id flow s.tcp_flows),
      length-delete_le flow_id s.udp_flows,
    )

add_udp_flow-count :
    (net : Net) (s : Session) (flow_id conn : ℕ)
    → flow_count (add_udp_flow net s flow_id conn).0 ≤ flow_count s + 1
unfolding add_udp_flow flow_count close_flow
add_udp_flow-count net s flow_id conn =
    let flow : UdpFlow = record { id = flow_id; conn = conn; seq = 0 } in
    ground (
      arith,
      length-insert flow_id flow s.udp_flows,
      length-delete_le flow_id (insert flow_id flow s.udp_flows),
      length-delete_le flow_id s.tcp_flows,
    )

close_flow-count :
    (s : Session) (flow_id : ℕ) (notify : Bool)
    → flow_count (close_flow s flow_id notify).0 ≤ flow_count s
unfolding close_flow flow_count
close_flow-count s flow_id notify =
    ground (arith, length-delete_le flow_id s.tcp_flows, length-delete_le flow_id s.udp_flows)

-- A session has at most its limit of flows.
abbrev IsBounded : Session → Session → Type 0
IsBounded s s' = (flow_count s' ≤ s.max_flows) × (s'.max_flows ≡ s.max_flows)

module _ (s : Session) (bound : flow_count s ≤ s.max_flows) where
  close_flow-IsBounded : (flow_id : ℕ) (notify : Bool) → IsBounded s (close_flow s flow_id notify).0
  unfolding close_flow
  close_flow-IsBounded flow_id notify = ground (arith, bound, close_flow-count s flow_id notify)

  handle_open_tcp-IsBounded :
      (net : Net) (p : OpenPayload) → IsBounded s (handle_open_tcp net s p).0
  unfolding handle_open_tcp add_tcp_flow close_flow
  handle_open_tcp-IsBounded net p = elim (Result-cases (resolve_target_address net p)) [
    | inl (addr, e) ↦ elim (Result-cases (net.dial_tcp addr)) [
      | inl (target, e') ↦ ground (arith, bound, e, e', add_tcp_flow-count net s p.flow_id target)
      | inr (reason, e') ↦ ground (arith, bound, e, e')
    ]
    | inr (reason, e) ↦ ground (arith, bound, e)
  ]

  handle_open_udp-IsBounded :
      (net : Net) (p : OpenPayload) → IsBounded s (handle_open_udp net s p).0
  unfolding handle_open_udp add_udp_flow close_flow
  handle_open_udp-IsBounded net p = elim (Result-cases (resolve_target_address net p)) [
    | inl (addr, e) ↦ elim (Result-cases (net.resolve_udp addr)) [
      | inl (udp_addr, e') ↦ elim (Result-cases (net.dial_udp udp_addr)) [
        | inl (conn, e'') ↦
            ground (arith, bound, e, e', e'', add_udp_flow-count net s p.flow_id conn)
        | inr (reason, e'') ↦ ground (arith, bound, e, e', e'')
      ]
      | inr (reason, e') ↦ ground (arith, bound, e, e')
    ]
    | inr (reason, e) ↦ ground (arith, bound, e)
  ]

  open_frame-IsBounded :
      (net : Net) (payload : Bytes)
      → IsBounded s (open_tcp_frame net s payload).0 × IsBounded s (open_udp_frame net s payload).0
  unfolding open_tcp_frame open_udp_frame
  open_frame-IsBounded net payload = elim (Result-cases (decode_open_payload payload)) [
    | inl (p, e) ↦
        ground (arith, e, handle_open_tcp-IsBounded net p, handle_open_udp-IsBounded net p)
    | inr (reason, e) ↦ ground (arith, bound, e)
  ]

  close_flow_frame-IsBounded : (payload : Bytes) → IsBounded s (close_flow_frame s payload).0
  unfolding close_flow_frame
  close_flow_frame-IsBounded payload = elim (Result-cases (decode_close_flow_payload payload)) [
    | inl (p, e) ↦ ground (arith, e, close_flow-IsBounded p.flow_id false)
    | inr (reason, e) ↦ ground (arith, bound, e)
  ]

  handle_flow_stream-IsBounded :
      (stream : ℕ) (bytes : Bytes) → IsBounded s (handle_flow_stream s stream bytes).0
  unfolding handle_flow_stream flow_count
  handle_flow_stream-IsBounded stream bytes = elim (Result-cases (read_full 8 bytes)) [
    | inl (read, e) ↦
        let flow_id = uint_of read.0 in
        elim (Option-cases (lookup flow_id s.tcp_flows)) [
          | inl e' ↦ ground (arith, bound, e, e')
          | inr (flow, e') ↦
              let flow' : TcpFlow = record flow { stream = some stream } in
              ground (arith, bound, e, e', length-insert flow_id flow' s.tcp_flows)
        ]
    | inr (reason, e) ↦ ground (arith, bound, e)
  ]

  step-IsBounded : (event : Event) → IsBounded s (step s event).0
  unfolding step control_frame close flow_count
  step-IsBounded (framed net frame) = ground (
    arith,
    bound,
    open_frame-IsBounded net frame.payload,
    close_flow_frame-IsBounded frame.payload,
  )
  step-IsBounded (streamed stream bytes) = handle_flow_stream-IsBounded stream bytes
  step-IsBounded (ended flow_id) = close_flow-IsBounded flow_id true
  step-IsBounded closes = ground (arith, bound)
  step-IsBounded panics = ground (arith, bound)

run-IsBounded :
    (s : Session) (events : List Event)
    → flow_count s ≤ s.max_flows
    → flow_count (run s events).0 ≤ s.max_flows
unfolding run
run-IsBounded s [] bound = bound
run-IsBounded s (event ∷ events) bound =
    let (fits, same) = step-IsBounded s bound event in
    let next = (step s event).0 in
    omega (arith, same, run-IsBounded next events (omega (arith, fits, same)))

-- Whatever happens to a session, its TCP and UDP flows together are never more than `MaxFlows`.
pub flows_bounded :
    (max_flows : ℕ) (events : List Event)
    → flow_count (run (new_session max_flows) events).0 ≤ max_flows
unfolding new_session flow_count
flows_bounded max_flows events = run-IsBounded (new_session max_flows) events (omega arith)
