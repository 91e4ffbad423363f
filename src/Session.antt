-- ===== src/Session.antt =====
-- internal/session/session.go: a QUIC session's flows. A connection to a target is a number, its handle.
-- What a call does outside of the session is a list of effects, in their order; what it learns from
-- outside (whether a dial or a write succeeds) is an argument. A flow leaves its table under the lock
-- before it is closed, so the `closeOnce` of a flow runs once.
pub mod Conns
pub mod Accounts
pub mod Bound
pub mod Closed
pub mod Replies
pub mod Tcp
pub mod Handshake
pub mod Panics
pub mod Control
pub mod Pipeline
pub mod Server
mod Tests
use vlf_proto.Base.{
  ℕ, ◌+◌, Bool, true, false, not, ◌&&◌, ◌||◌, List, [], ◌∷◌, ◌++◌, ltb, leb, ◌==◌, if◌then◌else◌,
  length, Option, none, some, Result, ok, err,
}
use vlf_proto.Base.Assoc.{Eq, nat_eq, Map, lookup, insert, delete}
use vlf_proto.Base.Text.{codes}
use vlf_proto.Wire.{Bytes, WireError, is_panic, uint_of, read_full}
use vlf_proto.Frame.{
  Frame, OpenPayload, OpenOkPayload, FailPayload, decode_open_payload, encode_open_ok_payload,
  encode_fail_payload, decode_close_flow_payload, encode_close_flow_payload,
}
use vlf_proto.Frame.FrameType

pub record TcpFlow : Type 0 where
  pub id : ℕ
  pub target : ℕ
  pub stream : Option ℕ

pub record UdpFlow : Type 0 where
  pub id : ℕ
  pub conn : ℕ
  pub seq : ℕ

pub record Session : Type 0 where
  pub max_flows : ℕ
  pub is_closed : Bool
  pub tcp_flows : Map ℕ TcpFlow
  pub udp_flows : Map ℕ UdpFlow

unfoldable pub new_session : ℕ → Session
new_session max_flows = record {
  max_flows = max_flows;
  is_closed = false;
  tcp_flows = [];
  udp_flows = [];
}

-- A frame that `writeFrame` is called with, a connection that is dialed or closed, a stream that is
-- closed or taken by a flow, a reader that is started, and a panic, which ends the process: nothing
-- behind it happens.
pub data Effect : Type 0 where
  sent : ℕ → Bytes → Effect
  dialed : ℕ → Effect
  closed : ℕ → Effect
  closed_stream : ℕ → Effect
  pumped : ℕ → ℕ → Effect
  reads_udp : ℕ → ℕ → Effect
  panicked : Effect

-- What the source uses of package net, and whether a write to the control stream succeeds.
pub record Net : Type 0 where
  pub ip_string : Bytes → Bytes
  pub join_host_port : Bytes → Bytes → Bytes
  pub format_port : ℕ → Bytes
  pub dial_tcp : Bytes → Result Bytes ℕ
  pub resolve_udp : Bytes → Result Bytes Bytes
  pub dial_udp : Bytes → Result Bytes ℕ
  pub writes : Bool

-- `ip == nil` is not met: an address of length zero is refused before.
unfoldable pub resolve_target_address : Net → OpenPayload → Result Bytes Bytes
resolve_target_address net p =
    if p.dst_port == 0
    then err (codes "dst_port must be non-zero")
    else if length p.dst_host == 0 && length p.dst_ip == 0
    then err (codes "either dst_host or dst_ip must be set")
    else ok (
        net.join_host_port (if length p.dst_host == 0 then net.ip_string p.dst_ip else p.dst_host)
          (net.format_port p.dst_port))

abbrev pub send_fail : ℕ → ℕ → Bytes → List Effect
send_fail frame_type flow_id reason =
    sent frame_type (encode_fail_payload (record { flow_id = flow_id; reason = reason })) ∷ []

unfoldable pub flow_count : Session → ℕ
flow_count s = length s.tcp_flows + length s.udp_flows

abbrev pub stream_closes : Option ℕ → List Effect
stream_closes none = []
stream_closes (some stream) = closed_stream stream ∷ []

abbrev pub tcp_closes : Option TcpFlow → List Effect
tcp_closes none = []
tcp_closes (some flow) = closed flow.target ∷ stream_closes flow.stream

abbrev pub udp_closes : Option UdpFlow → List Effect
udp_closes none = []
udp_closes (some flow) = closed flow.conn ∷ []

abbrev pub is_none {ℓ} : {A : Type ℓ} → Option A → Bool
is_none none = true
is_none (some a) = false

unfoldable pub close_flow : Session → ℕ → Bool → Session × List Effect
close_flow s flow_id notify =
    let tcp = lookup flow_id s.tcp_flows in
    let udp = lookup flow_id s.udp_flows in
    let note =
      if notify
      then sent FrameType.close_flow (encode_close_flow_payload (record { flow_id = flow_id })) ∷ []
      else [] in
    if is_none tcp && is_none udp then (s, []) else (
      record s { tcp_flows = delete flow_id s.tcp_flows; udp_flows = delete flow_id s.udp_flows },
      tcp_closes tcp ++ udp_closes udp ++ note,
    )

unfoldable pub close_tcp_flows : Map ℕ TcpFlow → List Effect
close_tcp_flows [] = []
close_tcp_flows ((flow_id, flow) ∷ flows) = tcp_closes (some flow) ++ close_tcp_flows flows

unfoldable pub close_udp_flows : Map ℕ UdpFlow → List Effect
close_udp_flows [] = []
close_udp_flows ((flow_id, flow) ∷ flows) = udp_closes (some flow) ++ close_udp_flows flows

unfoldable pub close : Session → Session × List Effect
close s = if s.is_closed then (s, []) else (
  record s { is_closed = true; tcp_flows = []; udp_flows = [] },
  close_tcp_flows s.tcp_flows ++ close_udp_flows s.udp_flows,
)

-- The end of `handleOpenTCP`, from the dialed connection on.
unfoldable pub add_tcp_flow : Net → Session → ℕ → ℕ → Session × List Effect
add_tcp_flow net s flow_id target =
    let flow : TcpFlow = record { id = flow_id; target = target; stream = none } in
    let s' = record s { tcp_flows = insert flow_id flow s.tcp_flows } in
    let reply =
      sent FrameType.open_tcp_ok
        (encode_open_ok_payload (record { flow_id = flow_id; mode = 1 })) in
    let (s'', closes) = close_flow s' flow_id false in
    if not (is_none (lookup flow_id s.tcp_flows))
    then (
      s,
      closed target ∷ send_fail FrameType.open_tcp_fail flow_id (codes "flow_id already exists"),
    )
    else if net.writes
    then (s', reply ∷ [])
    else (s'', reply ∷ closes)

unfoldable pub handle_open_tcp : Net → Session → OpenPayload → Session × List Effect
handle_open_tcp net s p =
    let fail = send_fail FrameType.open_tcp_fail p.flow_id in
    if p.flow_id == 0
    then (s, fail (codes "flow_id must be non-zero"))
    else if leb s.max_flows (flow_count s)
    then (s, fail (codes "max_flows_per_session exceeded"))
    else elim (resolve_target_address net p) [
      | err reason ↦ (s, fail reason)
      | ok addr ↦ elim (net.dial_tcp addr) [
        | err reason ↦ (s, fail reason)
        | ok target ↦
            let (s', effects) = add_tcp_flow net s p.flow_id target in (s', dialed target ∷ effects)
      ]
    ]

-- The end of `handleOpenUDP`, from the dialed connection on.
unfoldable pub add_udp_flow : Net → Session → ℕ → ℕ → Session × List Effect
add_udp_flow net s flow_id conn =
    let flow : UdpFlow = record { id = flow_id; conn = conn; seq = 0 } in
    let s' = record s { udp_flows = insert flow_id flow s.udp_flows } in
    let reply =
      sent FrameType.open_udp_ok
        (encode_open_ok_payload (record { flow_id = flow_id; mode = 0 })) in
    let (s'', closes) = close_flow s' flow_id false in
    if not (is_none (lookup flow_id s.udp_flows))
    then (
      s,
      closed conn ∷ send_fail FrameType.open_udp_fail flow_id (codes "flow_id already exists"),
    )
    else if net.writes
    then (s', reply ∷ reads_udp flow_id conn ∷ [])
    else (s'', reply ∷ closes)

unfoldable pub handle_open_udp : Net → Session → OpenPayload → Session × List Effect
handle_open_udp net s p =
    let fail = send_fail FrameType.open_udp_fail p.flow_id in
    if p.flow_id == 0
    then (s, fail (codes "flow_id must be non-zero"))
    else if leb s.max_flows (flow_count s)
    then (s, fail (codes "max_flows_per_session exceeded"))
    else elim (resolve_target_address net p) [
      | err reason ↦ (s, fail reason)
      | ok addr ↦ elim (net.resolve_udp addr) [
        | err reason ↦ (s, fail reason)
        | ok udp_addr ↦ elim (net.dial_udp udp_addr) [
          | err reason ↦ (s, fail reason)
          | ok conn ↦
              let (s', effects) = add_udp_flow net s p.flow_id conn in (s', dialed conn ∷ effects)
        ]
      ]
    ]

-- What a payload that cannot be decoded leads to: the answer, unless `make` panics in its decoder.
abbrev pub on_bad_payload : WireError → List Effect → List Effect
on_bad_payload e answer = if is_panic e then panicked ∷ [] else answer

unfoldable pub open_tcp_frame : Net → Session → Bytes → Session × List Effect
open_tcp_frame net s payload = elim (decode_open_payload payload) [
  | err e ↦
      (s, on_bad_payload e (send_fail FrameType.open_tcp_fail 0 (codes "invalid OPEN_TCP payload")))
  | ok p ↦ handle_open_tcp net s p
]

unfoldable pub open_udp_frame : Net → Session → Bytes → Session × List Effect
open_udp_frame net s payload = elim (decode_open_payload payload) [
  | err e ↦
      (s, on_bad_payload e (send_fail FrameType.open_udp_fail 0 (codes "invalid OPEN_UDP payload")))
  | ok p ↦ handle_open_udp net s p
]

unfoldable pub close_flow_frame : Session → Bytes → Session × List Effect
close_flow_frame s payload = elim (decode_close_flow_payload payload) [
  | err e ↦ (s, [])
  | ok p ↦ close_flow s p.flow_id false
]

-- The `switch` of `controlLoop`. A frame of an unknown type is logged.
unfoldable pub control_frame : Net → Session → Frame → Session × List Effect
control_frame net s frame =
    if frame.type == FrameType.ping
    then (s, sent FrameType.pong frame.payload ∷ [])
    else if frame.type == FrameType.open_tcp
    then open_tcp_frame net s frame.payload
    else if frame.type == FrameType.open_udp
    then open_udp_frame net s frame.payload
    else if frame.type == FrameType.close_flow
    then close_flow_frame s frame.payload
    else (s, [])

-- `handleFlowStream` up to the pump: a stream that names a flow without one is the flow's.
unfoldable pub handle_flow_stream : Session → ℕ → Bytes → Session × List Effect
handle_flow_stream s stream bytes = elim (read_full 8 bytes) [
  | err e ↦ (s, closed_stream stream ∷ [])
  | ok (flow_raw, rest) ↦
      let flow_id = uint_of flow_raw in
      elim (lookup flow_id s.tcp_flows) [
        | none ↦ (s, closed_stream stream ∷ [])
        | some flow ↦ if not (is_none flow.stream) then (s, closed_stream stream ∷ []) else (
          record s {
            tcp_flows = insert flow_id (record flow { stream = some stream }) s.tcp_flows;
          },
          pumped flow_id stream ∷ [],
        )
      ]
]

-- What happens to a session, one after another: a frame on the control stream, a stream that the client
-- opens, the end of a flow's pump or reader, `Close`, and a panic of a goroutine of the process. A run
-- of the code ends at the first panic; a run here may go on, so what holds of all runs holds of it.
pub data Event : Type 0 where
  framed : Net → Frame → Event
  streamed : ℕ → Bytes → Event
  ended : ℕ → Event
  closes : Event
  panics : Event

unfoldable pub step : Session → Event → Session × List Effect
step s (framed net frame) = control_frame net s frame
step s (streamed stream bytes) = handle_flow_stream s stream bytes
step s (ended flow_id) = close_flow s flow_id true
step s closes = close s
step s panics = (s, panicked ∷ [])

unfoldable pub run : Session → List Event → Session × List Effect
run s [] = (s, [])
run s (event ∷ events) =
    let (s', effects) = step s event in let (s'', rest) = run s' events in (s'', effects ++ rest)
