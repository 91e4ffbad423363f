-- ===== src/Session/Replies.antt =====
-- internal/session/session.go: what a client gets for the flows that it asks for.
use vlf_proto.Base.{
  ℕ, false, not, List, [], ◌∷◌, leb, ◌==◌, none, ◌≡◌, refl, arith, ◌⊎◌, inl, inr, Option-cases,
  Result-cases, Bool-cases,
}
use vlf_proto.Base.Assoc.{nat_eq, Map, lookup, insert}
use vlf_proto.Base.Assoc.Laws.{lookup-insert, lookup-delete}
use vlf_proto.Base.Text.{codes}
use vlf_proto.Session.{flow_count}
use vlf_proto.Wire.{Bytes}
use vlf_proto.Frame.FrameType
use vlf_proto.Frame.{encode_fail_payload, encode_open_ok_payload, OpenPayload}
use vlf_proto.Session.{
  TcpFlow, UdpFlow, Session, Effect, sent, Net, resolve_target_address, is_none, close_flow,
  add_tcp_flow, handle_open_tcp, add_udp_flow, handle_open_udp,
}

-- The frames that are written.
pub replies : List Effect → List (ℕ × Bytes)
replies [] = []
replies (sent frame_type payload ∷ effects) = (frame_type, payload) ∷ replies effects
replies (effect ∷ effects) = replies effects

abbrev fail_frame : ℕ → ℕ → Bytes → ℕ × Bytes
fail_frame frame_type flow_id reason =
    (frame_type, encode_fail_payload (record { flow_id = flow_id; reason = reason }))

abbrev ok_frame : ℕ → ℕ → ℕ → ℕ × Bytes
ok_frame frame_type flow_id mode =
    (frame_type, encode_open_ok_payload (record { flow_id = flow_id; mode = mode }))

-- The closing of a flow writes nothing but the notice.
replies-close_flow : (s : Session) (flow_id : ℕ) → replies (close_flow s flow_id false).1 ≡ []
unfolding close_flow replies
replies-close_flow s flow_id = elim (Option-cases (lookup flow_id s.tcp_flows)) [
  | inl e ↦ elim (Option-cases (lookup flow_id s.udp_flows)) [
    | inl e' ↦ ground (arith, e, e')
    | inr (udp, e') ↦ ground (arith, e, e')
  ]
  | inr (tcp, e) ↦ elim (Option-cases tcp.stream) [
    | inl no_stream ↦ elim (Option-cases (lookup flow_id s.udp_flows)) [
      | inl e' ↦ ground (arith, e, e', no_stream)
      | inr (udp, e') ↦ ground (arith, e, e', no_stream)
    ]
    | inr (stream, some_stream) ↦ elim (Option-cases (lookup flow_id s.udp_flows)) [
      | inl e' ↦ ground (arith, e, e', some_stream)
      | inr (udp, e') ↦ ground (arith, e, e', some_stream)
    ]
  ]
]

-- What an open is answered with: its success, when the id had no flow of that kind, and then the flow
-- is there if the write succeeded; or its failure, and then nothing has changed.
abbrev pub Answers :
    {F : Type 0}
    → ℕ
    → ℕ
    → ℕ
    → ℕ
    → Net
    → (Session → Map ℕ F)
    → Session
    → Session × List Effect
    → Type 0
Answers ok_type fail_type flow_id mode net flows s (s', effects) =
    ((replies effects ≡ ok_frame ok_type flow_id mode ∷ [])
      × (lookup flow_id (flows s) ≡ none)
      × (is_none (lookup flow_id (flows s')) ≡ not net.writes))
    ⊎ ((reason : Bytes) × (replies effects ≡ fail_frame fail_type flow_id reason ∷ []) × (s' ≡ s))

close_flow-gone :
    (s : Session) (flow_id : ℕ)
    → let s' = (close_flow s flow_id false).0 in
      (lookup flow_id s'.tcp_flows ≡ none) × (lookup flow_id s'.udp_flows ≡ none)
unfolding close_flow
close_flow-gone s flow_id =
    ground
      (arith, lookup-delete flow_id flow_id s.tcp_flows, lookup-delete flow_id flow_id s.udp_flows)

add_tcp_flow-Answers :
    (net : Net) (s : Session) (flow_id target : ℕ)
    → Answers FrameType.open_tcp_ok FrameType.open_tcp_fail flow_id 1 net
        (λ s. s.tcp_flows)
        s
        (add_tcp_flow net s flow_id target)
unfolding add_tcp_flow replies
add_tcp_flow-Answers net s flow_id target =
    let new : TcpFlow = record { id = flow_id; target = target; stream = none } in
    let s' : Session = record s { tcp_flows = insert flow_id new s.tcp_flows } in
    elim (Option-cases (lookup flow_id s.tcp_flows)) [
      | inl fresh ↦ elim (Bool-cases net.writes) [
        | inl w ↦ inl (
          ground (arith, fresh, w),
          fresh,
          ground (arith, fresh, w, lookup-insert flow_id flow_id new s.tcp_flows),
        )
        | inr w ↦ inl (
          ground (arith, fresh, w, replies-close_flow s' flow_id),
          fresh,
          ground (arith, fresh, w, close_flow-gone s' flow_id),
        )
      ]
      | inr (old, e) ↦ inr (codes "flow_id already exists", ground (arith, e), ground (arith, e))
    ]

add_udp_flow-Answers :
    (net : Net) (s : Session) (flow_id conn : ℕ)
    → Answers FrameType.open_udp_ok FrameType.open_udp_fail flow_id 0 net
        (λ s. s.udp_flows)
        s
        (add_udp_flow net s flow_id conn)
unfolding add_udp_flow replies
add_udp_flow-Answers net s flow_id conn =
    let new : UdpFlow = record { id = flow_id; conn = conn; seq = 0 } in
    let s' : Session = record s { udp_flows = insert flow_id new s.udp_flows } in
    elim (Option-cases (lookup flow_id s.udp_flows)) [
      | inl fresh ↦ elim (Bool-cases net.writes) [
        | inl w ↦ inl (
          ground (arith, fresh, w),
          fresh,
          ground (arith, fresh, w, lookup-insert flow_id flow_id new s.udp_flows),
        )
        | inr w ↦ inl (
          ground (arith, fresh, w, replies-close_flow s' flow_id),
          fresh,
          ground (arith, fresh, w, close_flow-gone s' flow_id),
        )
      ]
      | inr (old, e) ↦ inr (codes "flow_id already exists", ground (arith, e), ground (arith, e))
    ]

open_tcp_answered :
    (net : Net) (s : Session) (p : OpenPayload)
    → Answers FrameType.open_tcp_ok FrameType.open_tcp_fail p.flow_id 1 net
        (λ s. s.tcp_flows)
        s
        (handle_open_tcp net s p)
unfolding handle_open_tcp replies
open_tcp_answered net s p = elim (Bool-cases (p.flow_id == 0)) [
  | inl zero_id ↦ rw (zero_id, handle_open_tcp) (inr (codes "flow_id must be non-zero", refl, refl))
  | inr id ↦ elim (Bool-cases (leb s.max_flows (flow_count s))) [
    | inl full ↦
        rw (id, full, handle_open_tcp) (inr (codes "max_flows_per_session exceeded", refl, refl))
    | inr room ↦ elim (Result-cases (resolve_target_address net p)) [
      | inl (addr, e) ↦ elim (Result-cases (net.dial_tcp addr)) [
        | inl (target, e') ↦
            rw (id, room, e, e', handle_open_tcp) (add_tcp_flow-Answers net s p.flow_id target)
        | inr (reason, e') ↦ rw (id, room, e, e', handle_open_tcp) (inr (reason, refl, refl))
      ]
      | inr (reason, e) ↦ rw (id, room, e, handle_open_tcp) (inr (reason, refl, refl))
    ]
  ]
]

open_udp_answered :
    (net : Net) (s : Session) (p : OpenPayload)
    → Answers FrameType.open_udp_ok FrameType.open_udp_fail p.flow_id 0 net
        (λ s. s.udp_flows)
        s
        (handle_open_udp net s p)
unfolding handle_open_udp replies
open_udp_answered net s p = elim (Bool-cases (p.flow_id == 0)) [
  | inl zero_id ↦ rw (zero_id, handle_open_udp) (inr (codes "flow_id must be non-zero", refl, refl))
  | inr id ↦ elim (Bool-cases (leb s.max_flows (flow_count s))) [
    | inl full ↦
        rw (id, full, handle_open_udp) (inr (codes "max_flows_per_session exceeded", refl, refl))
    | inr room ↦ elim (Result-cases (resolve_target_address net p)) [
      | inl (addr, e) ↦ elim (Result-cases (net.resolve_udp addr)) [
        | inl (udp_addr, e') ↦ elim (Result-cases (net.dial_udp udp_addr)) [
          | inl (conn, e'') ↦
              rw (id, room, e, e', e'', handle_open_udp) (add_udp_flow-Answers net s p.flow_id conn)
          | inr (reason, e'') ↦
              rw (id, room, e, e', e'', handle_open_udp) (inr (reason, refl, refl))
        ]
        | inr (reason, e') ↦ rw (id, room, e, e', handle_open_udp) (inr (reason, refl, refl))
      ]
      | inr (reason, e) ↦ rw (id, room, e, handle_open_udp) (inr (reason, refl, refl))
    ]
  ]
]

-- Every OPEN_TCP and every OPEN_UDP gets exactly one answer. Its success means that the session had no
-- flow of the kind under that id and, if the answer could be written, has one then; its failure
-- leaves the session as it was.
pub opens_answered :
    (net : Net) (s : Session) (p : OpenPayload)
    → Answers FrameType.open_tcp_ok FrameType.open_tcp_fail p.flow_id 1 net
        (λ s. s.tcp_flows)
        s
        (handle_open_tcp net s p)
      × Answers FrameType.open_udp_ok FrameType.open_udp_fail p.flow_id 0 net
          (λ s. s.udp_flows)
          s
          (handle_open_udp net s p)
opens_answered net s p = (open_tcp_answered net s p, open_udp_answered net s p)
