-- ===== src/Session/Accounts.antt =====
-- internal/session/session.go: what becomes of the connections that a session dials.
use vlf_proto.Base.{
  ℕ, ◌+◌, Bool, true, false, List, [], ◌∷◌, ◌++◌, ◌==◌, Option, none, some, ◌≡◌, refl, arith, inl,
  inr, Option-cases, Result-cases,
}
use vlf_proto.Base.Assoc.{nat_eq, Map, lookup, insert}
use vlf_proto.Base.Assoc.Laws.{insert-Distinct, delete-Distinct}
use vlf_proto.Wire.{Bytes, read_full, uint_of}
use vlf_proto.Frame.{Frame, OpenPayload, decode_open_payload, decode_close_flow_payload}
use vlf_proto.Session.{
  TcpFlow, UdpFlow, Session, new_session, Effect, Net, resolve_target_address, tcp_closes,
  udp_closes, stream_closes, close_flow, close_tcp_flows, close_udp_flows, close, add_tcp_flow,
  handle_open_tcp, add_udp_flow, handle_open_udp, open_tcp_frame, open_udp_frame, close_flow_frame,
  control_frame, handle_flow_stream, Event, framed, streamed, ended, closes, panics, step, run,
}
use vlf_proto.Session.Conns.{
  one_if, dials, closings, tcp_held, udp_held, held, IsTidy, dials-append, closings-append, tcp_at,
  udp_at, tcp_held-insert, tcp_held-delete, udp_held-insert, udp_held-delete,
}

-- A step keeps the tables free of duplicate keys, and accounts for a connection: what it had and what
-- it dials is what it closes and what it has then.
abbrev pub Accounts : ℕ → Session → Session × List Effect → Type 0
Accounts h s (s', effects) =
    IsTidy s' × (held h s + dials h effects ≡ held h s' + closings h effects)

quiet_tcp :
    (h : ℕ) (flow : Option TcpFlow)
    → (dials h (tcp_closes flow) ≡ 0) × (closings h (tcp_closes flow) ≡ tcp_at h flow)
unfolding dials closings
quiet_tcp h none = (refl, refl)
quiet_tcp h (some flow) = ground arith

quiet_udp :
    (h : ℕ) (flow : Option UdpFlow)
    → (dials h (udp_closes flow) ≡ 0) × (closings h (udp_closes flow) ≡ udp_at h flow)
unfolding dials closings
quiet_udp h none = (refl, refl)
quiet_udp h (some flow) = ground arith

close_flow-Accounts :
    (h : ℕ) (s : Session) (flow_id : ℕ) (notify : Bool)
    → IsTidy s
    → Accounts h s (close_flow s flow_id notify)
unfolding close_flow held dials closings
close_flow-Accounts h s flow_id notify t =
    let tcp = lookup flow_id s.tcp_flows in
    let udp = lookup flow_id s.udp_flows in
    ground (
      arith,
      t,
      tcp_held-delete h flow_id s.tcp_flows t.tcp,
      udp_held-delete h flow_id s.udp_flows t.udp,
      delete-Distinct flow_id s.tcp_flows t.tcp,
      delete-Distinct flow_id s.udp_flows t.udp,
      quiet_tcp h tcp,
      quiet_udp h udp,
      dials-append h (tcp_closes tcp) (udp_closes udp),
      closings-append h (tcp_closes tcp) (udp_closes udp),
      dials-append h (tcp_closes tcp ++ udp_closes udp),
      closings-append h (tcp_closes tcp ++ udp_closes udp),
    )

all_tcp :
    (h : ℕ) (m : Map ℕ TcpFlow)
    → (dials h (close_tcp_flows m) ≡ 0) × (closings h (close_tcp_flows m) ≡ tcp_held h m)
unfolding close_tcp_flows tcp_held dials closings
all_tcp h [] = (refl, refl)
all_tcp h ((k, flow) ∷ m) = ground (
  arith,
  all_tcp h m,
  dials-append h (stream_closes flow.stream) (close_tcp_flows m),
  closings-append h (stream_closes flow.stream) (close_tcp_flows m),
)

all_udp :
    (h : ℕ) (m : Map ℕ UdpFlow)
    → (dials h (close_udp_flows m) ≡ 0) × (closings h (close_udp_flows m) ≡ udp_held h m)
unfolding close_udp_flows udp_held dials closings
all_udp h [] = (refl, refl)
all_udp h ((k, flow) ∷ m) = ground (arith, all_udp h m)

close-Accounts : (h : ℕ) (s : Session) → IsTidy s → Accounts h s (close s)
unfolding close held tcp_held udp_held dials closings
close-Accounts h s t = ground (
  arith,
  t,
  all_tcp h s.tcp_flows,
  all_udp h s.udp_flows,
  dials-append h (close_tcp_flows s.tcp_flows) (close_udp_flows s.udp_flows),
  closings-append h (close_tcp_flows s.tcp_flows) (close_udp_flows s.udp_flows),
)

-- The same for the end of an open, whose connection was dialed before.
abbrev AccountsFor : ℕ → ℕ → Session → Session × List Effect → Type 0
AccountsFor h conn s (s', effects) =
    IsTidy s' × (held h s + one_if (conn == h) + dials h effects ≡ held h s' + closings h effects)

add_tcp_flow-Accounts :
    (h : ℕ) (net : Net) (s : Session) (flow_id target : ℕ)
    → IsTidy s
    → AccountsFor h target s (add_tcp_flow net s flow_id target)
unfolding add_tcp_flow held dials closings
add_tcp_flow-Accounts h net s flow_id target t =
    let flow : TcpFlow = record { id = flow_id; target = target; stream = none } in
    let s' : Session = record s { tcp_flows = insert flow_id flow s.tcp_flows } in
    let t' : IsTidy s' = record {
      tcp = insert-Distinct flow_id flow s.tcp_flows t.tcp;
      udp = t.udp;
    } in
    ground (
      arith,
      t,
      t',
      tcp_held-insert h flow_id flow s.tcp_flows,
      close_flow-Accounts h s' flow_id false t',
    )

add_udp_flow-Accounts :
    (h : ℕ) (net : Net) (s : Session) (flow_id conn : ℕ)
    → IsTidy s
    → AccountsFor h conn s (add_udp_flow net s flow_id conn)
unfolding add_udp_flow held dials closings
add_udp_flow-Accounts h net s flow_id conn t =
    let flow : UdpFlow = record { id = flow_id; conn = conn; seq = 0 } in
    let s' : Session = record s { udp_flows = insert flow_id flow s.udp_flows } in
    let t' : IsTidy s' = record {
      tcp = t.tcp;
      udp = insert-Distinct flow_id flow s.udp_flows t.udp;
    } in
    ground (
      arith,
      t,
      t',
      udp_held-insert h flow_id flow s.udp_flows,
      close_flow-Accounts h s' flow_id false t',
    )

handle_open_tcp-Accounts :
    (h : ℕ) (net : Net) (s : Session) (p : OpenPayload)
    → IsTidy s
    → Accounts h s (handle_open_tcp net s p)
unfolding handle_open_tcp dials closings
handle_open_tcp-Accounts h net s p t = elim (Result-cases (resolve_target_address net p)) [
  | inl (addr, e) ↦ elim (Result-cases (net.dial_tcp addr)) [
    | inl (target, e') ↦ ground (arith, t, e, e', add_tcp_flow-Accounts h net s p.flow_id target t)
    | inr (reason, e') ↦ ground (arith, t, e, e')
  ]
  | inr (reason, e) ↦ ground (arith, t, e)
]

handle_open_udp-Accounts :
    (h : ℕ) (net : Net) (s : Session) (p : OpenPayload)
    → IsTidy s
    → Accounts h s (handle_open_udp net s p)
unfolding handle_open_udp dials closings
handle_open_udp-Accounts h net s p t = elim (Result-cases (resolve_target_address net p)) [
  | inl (addr, e) ↦ elim (Result-cases (net.resolve_udp addr)) [
    | inl (udp_addr, e') ↦ elim (Result-cases (net.dial_udp udp_addr)) [
      | inl (conn, e'') ↦
          ground (arith, t, e, e', e'', add_udp_flow-Accounts h net s p.flow_id conn t)
      | inr (reason, e'') ↦ ground (arith, t, e, e', e'')
    ]
    | inr (reason, e') ↦ ground (arith, t, e, e')
  ]
  | inr (reason, e) ↦ ground (arith, t, e)
]

open_tcp_frame-Accounts :
    (h : ℕ) (net : Net) (s : Session) (payload : Bytes)
    → IsTidy s
    → Accounts h s (open_tcp_frame net s payload)
unfolding open_tcp_frame dials closings
open_tcp_frame-Accounts h net s payload t = elim (Result-cases (decode_open_payload payload)) [
  | inl (p, e) ↦ ground (arith, e, handle_open_tcp-Accounts h net s p t)
  | inr (reason, e) ↦ ground (arith, t, e)
]

open_udp_frame-Accounts :
    (h : ℕ) (net : Net) (s : Session) (payload : Bytes)
    → IsTidy s
    → Accounts h s (open_udp_frame net s payload)
unfolding open_udp_frame dials closings
open_udp_frame-Accounts h net s payload t = elim (Result-cases (decode_open_payload payload)) [
  | inl (p, e) ↦ ground (arith, e, handle_open_udp-Accounts h net s p t)
  | inr (reason, e) ↦ ground (arith, t, e)
]

close_flow_frame-Accounts :
    (h : ℕ) (s : Session) (payload : Bytes) → IsTidy s → Accounts h s (close_flow_frame s payload)
unfolding close_flow_frame dials closings
close_flow_frame-Accounts h s payload t = elim (Result-cases (decode_close_flow_payload payload)) [
  | inl (p, e) ↦ ground (arith, e, close_flow-Accounts h s p.flow_id false t)
  | inr (reason, e) ↦ ground (arith, t, e)
]

control_frame-Accounts :
    (h : ℕ) (net : Net) (s : Session) (frame : Frame)
    → IsTidy s
    → Accounts h s (control_frame net s frame)
unfolding control_frame dials closings
control_frame-Accounts h net s frame t = ground (
  arith,
  t,
  open_tcp_frame-Accounts h net s frame.payload t,
  open_udp_frame-Accounts h net s frame.payload t,
  close_flow_frame-Accounts h s frame.payload t,
)

handle_flow_stream-Accounts :
    (h : ℕ) (s : Session) (stream : ℕ) (bytes : Bytes)
    → IsTidy s
    → Accounts h s (handle_flow_stream s stream bytes)
unfolding handle_flow_stream held dials closings
handle_flow_stream-Accounts h s stream bytes t = elim (Result-cases (read_full 8 bytes)) [
  | inl (read, e) ↦
      let flow_id = uint_of read.0 in
      elim (Option-cases (lookup flow_id s.tcp_flows)) [
        | inl e' ↦ ground (arith, t, e, e')
        | inr (flow, e') ↦
            let flow' : TcpFlow = record flow { stream = some stream } in
            ground (
              arith,
              t,
              e,
              e',
              tcp_held-insert h flow_id flow' s.tcp_flows,
              insert-Distinct flow_id flow' s.tcp_flows t.tcp,
            )
      ]
  | inr (reason, e) ↦ ground (arith, t, e)
]

step-Accounts : (h : ℕ) (s : Session) (event : Event) → IsTidy s → Accounts h s (step s event)
unfolding step dials closings
step-Accounts h s (framed net frame) t = control_frame-Accounts h net s frame t
step-Accounts h s (streamed stream bytes) t = handle_flow_stream-Accounts h s stream bytes t
step-Accounts h s (ended flow_id) t = close_flow-Accounts h s flow_id true t
step-Accounts h s closes t = close-Accounts h s t
step-Accounts h s panics t = (t, ground arith)

run-Accounts : (h : ℕ) (s : Session) (events : List Event) → IsTidy s → Accounts h s (run s events)
unfolding run dials closings
run-Accounts h s [] t = (t, omega arith)
run-Accounts h s (event ∷ events) t =
    let first = step-Accounts h s event t in
    let rest = run-Accounts h (step s event).0 events first.0 in
    (
      rest.0,
      omega (
        arith,
        first.1,
        rest.1,
        dials-append h (step s event).1 (run (step s event).0 events).1,
        closings-append h (step s event).1 (run (step s event).0 events).1,
      ),
    )

-- Whatever happens to a session, every connection that it dialed is either closed, once for each time
-- that it was dialed, or stands in one of its tables.
pub connections_accounted :
    (max_flows h : ℕ) (events : List Event)
    → let (s, effects) = run (new_session max_flows) events in
      dials h effects ≡ closings h effects + held h s
unfolding new_session held tcp_held udp_held
connections_accounted max_flows h events =
    let (t, all) = run-Accounts h (new_session max_flows) events (record { tcp = tt; udp = tt }) in
    omega (arith, all)
