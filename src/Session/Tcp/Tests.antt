-- ===== src/Session/Tcp/Tests.antt =====
-- Runs of a session over TLS, and the theorem at a concrete one.
use vlf_proto.Base.{true, List, [], ◌∷◌, ◌++◌, some, ok, ◌≡◌, refl}
use vlf_proto.Base.Assoc.{nat_eq, lookup, insert}
use vlf_proto.Frame.{OpenPayload, encode_open_payload, encode_tcp_data_payload}
use vlf_proto.Frame.FrameType
use vlf_proto.Limits
use vlf_proto.Session.{Net, resolve_target_address}
use vlf_proto.Session.Tcp.{
  new_tcp_session, handle_open_tcp, handle_client_tcp_data, add_flow, Event, framed, from_target,
  closes, run, other_error,
}
use vlf_proto.Session.Tcp.Valid.{IsValid, run-IsValid}

abbrev net : Net
net = record {
  ip_string = λ ip. ip;
  join_host_port = λ host port. host ++ (58 ∷ port);
  format_port = λ port. port ∷ [];
  dial_tcp = λ addr. ok 5;
  resolve_udp = λ addr. ok addr;
  dial_udp = λ addr. ok 6;
  writes = true;
}

abbrev limits : Limits.Manager
limits = record {
  cfg = record {
    conns_per_client = 0;
    total_conns = 0;
    bytes_per_minute_per_client = 0;
    bytes_per_minute_per_session = 100;
    udp_pps = 0;
  };
  total_relay_conns = 0;
  relay_conns_by_client = [];
  relay_bytes_by_client = [];
  session_bytes = [];
  session_packets = [];
}

abbrev open_payload : OpenPayload
open_payload = record { flow_id = 9; dst_host = 104 ∷ []; dst_ip = []; dst_port = 80 }

abbrev events : List Event
events =
    framed net 100 true
      (record { type = FrameType.open_tcp; payload = encode_open_payload open_payload })
    ∷ framed net 200 true
        (record { type = FrameType.tcp_data; payload = encode_tcp_data_payload 9 (1 ∷ 2 ∷ []) })
    ∷ from_target 300 true 9 (3 ∷ []) true
    ∷ closes
    ∷ []

run-IsValid_example : IsValid (run (new_tcp_session 3 16 limits) events).0 16
run-IsValid_example = run-IsValid 3 16 limits events

opened :
    (handle_open_tcp net (new_tcp_session 3 16 limits) open_payload).0.tcp_flows
    ≡ (9, record { id = 9; target = 5 }) ∷ []
unfolding handle_open_tcp add_flow resolve_target_address new_tcp_session lookup insert
opened = refl

unknown_flow :
    (handle_client_tcp_data (new_tcp_session 3 16 limits) 200 true 9 (1 ∷ [])).0 ≡ some other_error
unfolding handle_client_tcp_data new_tcp_session lookup
unknown_flow = refl
