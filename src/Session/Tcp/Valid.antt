-- ===== src/Session/Tcp/Valid.antt =====
-- internal/session/tcp_session.go: the flows of a session, their limit and their gauge.
use vlf_proto.Base.{
  ℕ, ◌+◌, ◌≤◌, Bool, true, false, List, [], ◌∷◌, length, none, some, ◌≡◌, refl, arith, inl, inr,
  Option-cases, Result-cases,
}
use vlf_proto.Base.Assoc.{nat_eq, lookup, insert, Distinct}
use vlf_proto.Base.Assoc.Laws.{insert-Distinct, delete-Distinct, length-insert, length-delete}
use vlf_proto.Wire.{Bytes}
use vlf_proto.Frame.{
  OpenPayload, decode_open_payload, decode_close_flow_payload, decode_tcp_data_payload,
}
use vlf_proto.Limits
use vlf_proto.Session.{Net, resolve_target_address}
use vlf_proto.Session.Tcp.{
  TcpFlowInline, TcpSession, new_tcp_session, DataOutcome, close, close_flow, add_flow,
  handle_open_tcp, over_limit, other_error, handle_client_tcp_data, open_tcp_frame, open_udp_frame,
  close_flow_frame, after_data, tcp_data_frame, control_frame, target_read, Event, framed,
  from_target, closes, step, run,
}

-- The gauge counts the flows, which are within the limit.
pub record IsValid (s : TcpSession) (max_flows : ℕ) : Type 0 where
  pub distinct : Distinct s.tcp_flows
  pub counted : s.tcp_streams ≡ length s.tcp_flows
  pub within : length s.tcp_flows ≤ max_flows
  pub limit : s.max_flows ≡ max_flows

module _ {m : ℕ} where
  close-IsValid : (s : TcpSession) → IsValid s m → IsValid (close s).0 m
  unfolding close
  close-IsValid s v = ground (arith, v)

  close_flow-IsValid :
      (s : TcpSession) (flow_id : ℕ) (notify : Bool)
      → IsValid s m
      → IsValid (close_flow s flow_id notify).0 m
  unfolding close_flow
  close_flow-IsValid s flow_id notify v = ground (
    arith,
    v,
    delete-Distinct flow_id s.tcp_flows v.distinct,
    length-delete flow_id s.tcp_flows v.distinct,
  )

  add_flow-IsValid :
      (net : Net) (s : TcpSession) (flow_id target : ℕ)
      → IsValid s m
      → length s.tcp_flows + 1 ≤ m
      → IsValid (add_flow net s flow_id target).0 m
  unfolding add_flow
  add_flow-IsValid net s flow_id target v room =
      let flow : TcpFlowInline = record { id = flow_id; target = target } in
      let s' : TcpSession = record s {
        tcp_flows = insert flow_id flow s.tcp_flows;
        tcp_streams = s.tcp_streams + 1;
      } in
      let longer = length-insert flow_id flow s.tcp_flows in
      elim (Option-cases (lookup flow_id s.tcp_flows)) [
        | inl fresh ↦
            let v' : IsValid s' m = record {
              distinct = insert-Distinct flow_id flow s.tcp_flows v.distinct;
              counted = ground (arith, v.counted, fresh, longer);
              within = ground (arith, room, fresh, longer);
              limit = v.limit;
            } in
            ground (arith, fresh, v', close_flow-IsValid s' flow_id false v')
        | inr (old, e) ↦ ground (arith, v, e)
      ]

  handle_open_tcp-IsValid :
      (net : Net) (s : TcpSession) (p : OpenPayload)
      → IsValid s m
      → IsValid (handle_open_tcp net s p).0 m
  unfolding handle_open_tcp
  handle_open_tcp-IsValid net s p v = elim (Result-cases (resolve_target_address net p)) [
    | inl (addr, e) ↦ elim (Result-cases (net.dial_tcp addr)) [
      | inl (target, e') ↦ ground (arith, v, e, e', add_flow-IsValid net s p.flow_id target v)
      | inr (reason, e') ↦ ground (arith, v, e, e')
    ]
    | inr (reason, e) ↦ ground (arith, v, e)
  ]

  open_tcp_frame-IsValid :
      (net : Net) (s : TcpSession) (payload : Bytes)
      → IsValid s m
      → IsValid (open_tcp_frame net s payload).0 m
  unfolding open_tcp_frame
  open_tcp_frame-IsValid net s payload v = elim (Result-cases (decode_open_payload payload)) [
    | inl (p, e) ↦ ground (arith, e, handle_open_tcp-IsValid net s p v)
    | inr (reason, e) ↦ ground (arith, v, e)
  ]

  close_flow_frame-IsValid :
      (s : TcpSession) (payload : Bytes) → IsValid s m → IsValid (close_flow_frame s payload).0 m
  unfolding close_flow_frame
  close_flow_frame-IsValid s payload v = elim (Result-cases (decode_close_flow_payload payload)) [
    | inl (p, e) ↦ ground (arith, e, close_flow-IsValid s p.flow_id false v)
    | inr (reason, e) ↦ ground (arith, v, e)
  ]

  limited-IsValid :
      (s : TcpSession) (limits : Limits.Manager)
      → IsValid s m
      → IsValid (record s { limits = limits }) m
  limited-IsValid s limits v = record {
    distinct = v.distinct;
    counted = v.counted;
    within = v.within;
    limit = v.limit;
  }

  data-IsValid :
      (s : TcpSession) (now : ℕ) (writes : Bool) (flow_id : ℕ) (bytes : Bytes)
      → IsValid s m
      → IsValid (handle_client_tcp_data s now writes flow_id bytes).1 m
  unfolding handle_client_tcp_data
  data-IsValid s now writes flow_id bytes v =
      let limited = Limits.allow_session_bytes s.limits now s.id (length bytes) in
      elim (Option-cases (lookup flow_id s.tcp_flows)) [
        | inl e ↦ ground (arith, v, e)
        | inr (flow, e) ↦ elim (Option-cases limited.0) [
          | inl e' ↦ ground (arith, v, e, e', limited-IsValid s limited.1 v)
          | inr (reason, e') ↦ ground (arith, v, e, e', limited-IsValid s limited.1 v)
        ]
      ]

  after_data-IsValid :
      (flow_id : ℕ) (r : DataOutcome) → IsValid r.1 m → IsValid (after_data flow_id r).0 m
  unfolding after_data
  after_data-IsValid flow_id (none, s, effects) v = v
  after_data-IsValid flow_id (some over_limit, s, effects) v = close-IsValid s v
  after_data-IsValid flow_id (some other_error, s, effects) v = close_flow-IsValid s flow_id true v

  tcp_data_frame-IsValid :
      (s : TcpSession) (now : ℕ) (writes : Bool) (payload : Bytes)
      → IsValid s m
      → IsValid (tcp_data_frame s now writes payload).0 m
  unfolding tcp_data_frame
  tcp_data_frame-IsValid s now writes payload v =
      elim (Result-cases (decode_tcp_data_payload payload)) [
        | inl (read, e) ↦
            rw (e, tcp_data_frame)
              (after_data-IsValid read.0 (handle_client_tcp_data s now writes read.0 read.1)
                (data-IsValid s now writes read.0 read.1 v))
        | inr (reason, e) ↦ ground (arith, v, e)
      ]

  target_read-IsValid :
      (s : TcpSession) (now : ℕ) (writes : Bool) (flow_id : ℕ) (bytes : Bytes) (ended : Bool)
      → IsValid s m
      → IsValid (target_read s now writes flow_id bytes ended).0 m
  unfolding target_read
  target_read-IsValid s now writes flow_id bytes ended v =
      let limited = Limits.allow_session_bytes s.limits now s.id (length bytes) in
      let s' : TcpSession = record s { limits = limited.1 } in
      let v' = limited-IsValid s limited.1 v in
      elim (Option-cases limited.0) [
        | inl e ↦ ground (
          arith,
          v,
          v',
          e,
          close_flow-IsValid s flow_id true v,
          close_flow-IsValid s' flow_id true v',
          close-IsValid s' v',
        )
        | inr (reason, e) ↦
            ground (arith, v, v', e, close_flow-IsValid s flow_id true v, close-IsValid s' v')
      ]

  step-IsValid : (s : TcpSession) (event : Event) → IsValid s m → IsValid (step s event).0 m
  unfolding step control_frame open_udp_frame
  step-IsValid s (framed net now writes frame) v = ground (
    arith,
    v,
    open_tcp_frame-IsValid net s frame.payload v,
    close_flow_frame-IsValid s frame.payload v,
    tcp_data_frame-IsValid s now writes frame.payload v,
  )
  step-IsValid s (from_target now writes flow_id bytes ended) v =
      target_read-IsValid s now writes flow_id bytes ended v
  step-IsValid s closes v = close-IsValid s v

  run_from-IsValid :
      (s : TcpSession) (events : List Event) → IsValid s m → IsValid (run s events).0 m
  unfolding run
  run_from-IsValid s [] v = v
  run_from-IsValid s (event ∷ events) v =
      run_from-IsValid (step s event).0 events (step-IsValid s event v)

-- Whatever happens to a session over TLS, its flows have different ids, are never more than `MaxFlows`,
-- and the gauge of TCP streams has exactly one for each of them.
pub run-IsValid :
    (id max_flows : ℕ) (limits : Limits.Manager) (events : List Event)
    → IsValid (run (new_tcp_session id max_flows limits) events).0 max_flows
unfolding new_tcp_session
run-IsValid id max_flows limits events =
    run_from-IsValid (new_tcp_session id max_flows limits) events
      (record { distinct = tt; counted = refl; within = omega arith; limit = refl })
