-- ===== src/Session/Tcp.antt =====
-- internal/session/tcp_session.go: a session over TLS, whose flows' data are frames too. Handles, effects
-- and what is learned from outside are as in the QUIC session. `tcp_streams` is what the session has
-- added to the gauge of that name. The goroutines that a call waits for are not modelled.
pub mod Valid
mod Tests
use vlf_proto.Base.{
  ℕ, ◌+◌, ◌-◌, Bool, true, false, not, ◌&&◌, ◌||◌, List, [], ◌∷◌, ◌++◌, ltb, leb, ◌==◌,
  if◌then◌else◌, length, Option, none, some, Result, ok, err,
}
use vlf_proto.Base.Assoc.{Eq, nat_eq, Map, lookup, insert, delete}
use vlf_proto.Base.Text.{codes}
use vlf_proto.Wire.{Bytes, WireError, is_panic}
use vlf_proto.Frame.{
  Frame, OpenPayload, OpenOkPayload, FailPayload, decode_open_payload, encode_open_ok_payload,
  encode_fail_payload, decode_close_flow_payload, encode_close_flow_payload,
  encode_tcp_data_payload, decode_tcp_data_payload,
}
use vlf_proto.Frame.FrameType
use vlf_proto.Limits
use vlf_proto.Limits.{LimitError}
use vlf_proto.Session.{Net, resolve_target_address}

-- A frame that is written, a connection that is dialed or closed, data written to a connection, and a
-- loop that is started on one; and a panic, which ends the process: nothing behind it happens.
pub data Effect : Type 0 where
  sent : ℕ → Bytes → Effect
  dialed : ℕ → Effect
  closed : ℕ → Effect
  wrote : ℕ → Bytes → Effect
  reads_target : ℕ → ℕ → Effect
  panicked : Effect

pub record TcpFlowInline : Type 0 where
  pub id : ℕ
  pub target : ℕ

pub record TcpSession : Type 0 where
  pub id : ℕ
  pub max_flows : ℕ
  pub is_closed : Bool
  pub tcp_flows : Map ℕ TcpFlowInline
  pub tcp_streams : ℕ
  pub limits : Limits.Manager

unfoldable pub new_tcp_session : ℕ → ℕ → Limits.Manager → TcpSession
new_tcp_session id max_flows limits = record {
  id = id;
  max_flows = max_flows;
  is_closed = false;
  tcp_flows = [];
  tcp_streams = 0;
  limits = limits;
}

abbrev pub Outcome : Type 0
Outcome = TcpSession × List Effect

unfoldable pub close_targets : Map ℕ TcpFlowInline → List Effect
close_targets [] = []
close_targets ((flow_id, flow) ∷ flows) = closed flow.target ∷ close_targets flows

unfoldable pub close : TcpSession → Outcome
close s = if s.is_closed then (s, []) else (
  record s { is_closed = true; tcp_flows = []; tcp_streams = s.tcp_streams - length s.tcp_flows },
  close_targets s.tcp_flows,
)

unfoldable pub close_flow : TcpSession → ℕ → Bool → Outcome
close_flow s flow_id notify = elim (lookup flow_id s.tcp_flows) [
  | none ↦ (s, [])
  | some flow ↦ (
    record s { tcp_flows = delete flow_id s.tcp_flows; tcp_streams = s.tcp_streams - 1 },
    closed flow.target
        ∷ (if notify
            then sent FrameType.close_flow
                (encode_close_flow_payload (record { flow_id = flow_id }))
              ∷ []
            else []),
  )
]

abbrev pub send_fail : ℕ → ℕ → Bytes → List Effect
send_fail frame_type flow_id reason =
    sent frame_type (encode_fail_payload (record { flow_id = flow_id; reason = reason })) ∷ []

-- The end of `handleOpenTCP`, from the dialed connection on.
unfoldable pub add_flow : Net → TcpSession → ℕ → ℕ → Outcome
add_flow net s flow_id target =
    let flow : TcpFlowInline = record { id = flow_id; target = target } in
    let s' = record s {
      tcp_flows = insert flow_id flow s.tcp_flows;
      tcp_streams = s.tcp_streams + 1;
    } in
    let reply =
      sent FrameType.open_tcp_ok
        (encode_open_ok_payload (record { flow_id = flow_id; mode = 3 })) in
    let (s'', closes) = close_flow s' flow_id false in
    elim (lookup flow_id s.tcp_flows) [
      | some old ↦ (
        s,
        closed target ∷ send_fail FrameType.open_tcp_fail flow_id (codes "flow_id already exists"),
      )
      | none ↦
          if net.writes
          then (s', reply ∷ reads_target flow_id target ∷ [])
          else (s'', reply ∷ closes)
    ]

unfoldable pub handle_open_tcp : Net → TcpSession → OpenPayload → Outcome
handle_open_tcp net s p =
    let fail = send_fail FrameType.open_tcp_fail p.flow_id in
    if p.flow_id == 0
    then (s, fail (codes "flow_id must be non-zero"))
    else if leb s.max_flows (length s.tcp_flows)
    then (s, fail (codes "max_flows_per_session exceeded"))
    else elim (resolve_target_address net p) [
      | err reason ↦ (s, fail reason)
      | ok addr ↦ elim (net.dial_tcp addr) [
        | err reason ↦ (s, fail reason)
        | ok target ↦
            let (s', effects) = add_flow net s p.flow_id target in (s', dialed target ∷ effects)
      ]
    ]

-- The errors of `handleClientTCPData`, by what the caller asks of them.
pub data DataError : Type 0 where
  over_limit : DataError
  other_error : DataError

abbrev pub DataOutcome : Type 0
DataOutcome = Option DataError × TcpSession × List Effect

-- `handleClientTCPData` at a time, with whether the write to the target succeeds.
unfoldable pub handle_client_tcp_data : TcpSession → ℕ → Bool → ℕ → Bytes → DataOutcome
handle_client_tcp_data s now writes flow_id bytes = elim (lookup flow_id s.tcp_flows) [
  | none ↦ (some other_error, s, [])
  | some flow ↦
      let (limited, limits) = Limits.allow_session_bytes s.limits now s.id (length bytes) in
      let s' = record s { limits = limits } in
      if length bytes == 0 then (none, s, []) else elim limited [
        | some e ↦ (some over_limit, s', [])
        | none ↦
            if writes
            then (none, s', wrote flow.target bytes ∷ [])
            else (some other_error, s', wrote flow.target bytes ∷ [])
      ]
]

unfoldable pub open_tcp_frame : Net → TcpSession → Bytes → Outcome
open_tcp_frame net s payload = elim (decode_open_payload payload) [
  | err e ↦ (
    s,
    if is_panic e
        then panicked ∷ []
        else send_fail FrameType.open_tcp_fail 0 (codes "invalid OPEN_TCP payload"),
  )
  | ok p ↦ handle_open_tcp net s p
]

unfoldable pub open_udp_frame : TcpSession → Bytes → Outcome
open_udp_frame s payload =
    let reason = codes "udp is not supported on tcp transport" in
    elim (decode_open_payload payload) [
      | err e ↦
          (s, if is_panic e then panicked ∷ [] else send_fail FrameType.open_udp_fail 0 reason)
      | ok p ↦ (s, send_fail FrameType.open_udp_fail p.flow_id reason)
    ]

unfoldable pub close_flow_frame : TcpSession → Bytes → Outcome
close_flow_frame s payload = elim (decode_close_flow_payload payload) [
  | err e ↦ (s, [])
  | ok p ↦ close_flow s p.flow_id false
]

unfoldable pub after_data : ℕ → DataOutcome → Outcome
after_data flow_id (none, s, effects) = (s, effects)
after_data flow_id (some over_limit, s, effects) =
    let (s', closes) = close s in (s', effects ++ closes)
after_data flow_id (some other_error, s, effects) =
    let (s', closes) = close_flow s flow_id true in (s', effects ++ closes)

unfoldable pub tcp_data_frame : TcpSession → ℕ → Bool → Bytes → Outcome
tcp_data_frame s now writes payload = elim (decode_tcp_data_payload payload) [
  | err e ↦ (s, [])
  | ok read ↦ after_data read.0 (handle_client_tcp_data s now writes read.0 read.1)
]

-- The `switch` of `Run`. A frame of an unknown type is logged.
unfoldable pub control_frame : Net → TcpSession → ℕ → Bool → Frame → Outcome
control_frame net s now writes frame =
    if frame.type == FrameType.ping
    then (s, sent FrameType.pong frame.payload ∷ [])
    else if frame.type == FrameType.open_tcp
    then open_tcp_frame net s frame.payload
    else if frame.type == FrameType.open_udp
    then open_udp_frame s frame.payload
    else if frame.type == FrameType.close_flow
    then close_flow_frame s frame.payload
    else if frame.type == FrameType.tcp_data
    then tcp_data_frame s now writes frame.payload
    else (s, [])

-- One round of `targetToClientLoop`: what was read, whether the read ended, and whether the write to the
-- client succeeds.
unfoldable pub target_read : TcpSession → ℕ → Bool → ℕ → Bytes → Bool → Outcome
target_read s now writes flow_id bytes ended =
    let (limited, limits) = Limits.allow_session_bytes s.limits now s.id (length bytes) in
    let s' = record s { limits = limits } in
    let written = sent FrameType.tcp_data (encode_tcp_data_payload flow_id bytes) ∷ [] in
    let (s_end, end_effects) = close_flow s flow_id true in
    let (s_end', end_effects') = close_flow s' flow_id true in
    let (s_closed, close_effects) = close s' in
    if length bytes == 0 then (if ended then (s_end, end_effects) else (s, [])) else elim limited [
      | some e ↦ (s_closed, close_effects)
      | none ↦
          if not writes
          then (s_closed, written ++ close_effects)
          else if ended
          then (s_end', written ++ end_effects')
          else (s', written)
    ]

-- What happens to a session, one after another.
pub data Event : Type 0 where
  framed : Net → ℕ → Bool → Frame → Event
  from_target : ℕ → Bool → ℕ → Bytes → Bool → Event
  closes : Event

unfoldable pub step : TcpSession → Event → Outcome
step s (framed net now writes frame) = control_frame net s now writes frame
step s (from_target now writes flow_id bytes ended) = target_read s now writes flow_id bytes ended
step s closes = close s

unfoldable pub run : TcpSession → List Event → Outcome
run s [] = (s, [])
run s (event ∷ events) =
    let (s', effects) = step s event in let (s'', rest) = run s' events in (s'', effects ++ rest)
