-- ===== src/Session/Pipeline/Tests.antt =====
-- Runs of the datagram pipeline, and the theorems at concrete ones.
use vlf_proto.Base.{
  ℕ, ◌*◌, ◌≤◌, true, false, List, [], ◌∷◌, ◌++◌, length, ok, ◌+◌, ◌≡◌, refl, arith,
}
use vlf_proto.Base.Ints.{pos, plus_one, minus_one, is_negative}
use vlf_proto.Base.Assoc.{nat_eq, lookup, insert}
use vlf_proto.Wire.{Bytes}
use vlf_proto.Datagram.{
  DatagramPacket, encode_datagram_packet, fragments, fragment_packets, new_reassembly, add,
}
use vlf_proto.Datagram.Delivery.{Arrivals, mine}
use vlf_proto.Limits
use vlf_proto.Limits.{allow_udp_packet, allow_session_bytes, allow_bytes}
use vlf_proto.Session.{Session, UdpFlow}
use vlf_proto.Session.Pipeline.{
  Pipeline, taken, wrote, dropped, flow_missing, worker_count, queue_size, start_datagram_pipeline,
  queue_of, enqueue, drain_datagram_queue, count_queued, count_taken, store_zero, step, work,
  process_datagram_task, forward_payload, write_payload, Event, received, works, drains, ticks,
  counts_queued, counts_taken, stores_zero, run,
}
use vlf_proto.Session.Pipeline.Queues.{total, queues_bounded}
use vlf_proto.Session.Pipeline.Order.{of_flow, entered, left, flow_queue, flow_in_order}
use vlf_proto.Session.Pipeline.Forwards.{task_effects, payload_written_once}

abbrev limits : Limits.Manager
limits = record {
  cfg = record {
    conns_per_client = 0;
    total_conns = 0;
    bytes_per_minute_per_client = 0;
    bytes_per_minute_per_session = 0;
    udp_pps = 0;
  };
  total_relay_conns = 0;
  relay_conns_by_client = [];
  relay_bytes_by_client = [];
  session_bytes = [];
  session_packets = [];
}

abbrev flow : UdpFlow
flow = record { id = 7; conn = 6; seq = 0 }

abbrev session : Session
session = record { max_flows = 4; is_closed = false; tcp_flows = []; udp_flows = (7, flow) ∷ [] }

abbrev packet : ℕ → ℕ → ℕ → Bytes → DatagramPacket
packet flow_id seq flags payload = record {
  flow_id = flow_id;
  flags = flags;
  seq = seq;
  payload = payload;
}

abbrev events : List Event
events =
    received 100 (encode_datagram_packet (packet 7 1 0 (1 ∷ [])))
    ∷ received 200 (encode_datagram_packet (packet 7 2 0 (2 ∷ [])))
    ∷ received 300 (1 ∷ [])
    ∷ works 3 400 true
    ∷ ticks
    ∷ []

queues_bounded_example :
    let p = (run (start_datagram_pipeline 3 session limits 4 0) events).0 in
    let cap = queue_size 0 4 in
    (64 ≤ cap) × ((i : ℕ) → length (queue_of p i) ≤ cap) × (total p.queues ≤ worker_count 4 * cap)
queues_bounded_example = queues_bounded 3 session limits 4 0 events

flow_in_order_example :
    let (p, effects) = run (start_datagram_pipeline 3 session limits 4 0) events in
    of_flow 7 (entered effects) ≡ of_flow 7 (left effects) ++ flow_queue 7 p
flow_in_order_example = flow_in_order 3 session limits 4 0 events 7

abbrev pipeline : Pipeline
pipeline = start_datagram_pipeline 3 session limits 1 0

-- A worker that counts before the read loop does leaves the count at 1 though nothing waits.
count_drifts :
    let p =
      (run
        (enqueue pipeline (packet 8 1 0 (1 ∷ []))).0
        (drains 0 ∷ counts_taken ∷ stores_zero ∷ counts_queued ∷ [])).0 in
    (p.queue_len ≡ pos 1) × (total p.queues ≡ 0) × (p.to_add + p.to_take + p.to_store ≡ 0)
unfolding run step enqueue drain_datagram_queue count_taken store_zero count_queued plus_one
    minus_one is_negative total start_datagram_pipeline worker_count queue_size
count_drifts = (refl, refl, refl)

queue_size_default : queue_size 0 4 ≡ 256
unfolding queue_size worker_count
queue_size_default = refl

-- The packet of an open flow is written, and that of an unknown one is dropped.
work_writes :
    (work (enqueue pipeline (packet 7 1 0 (1 ∷ []))).0 0 400 true).1
    ≡ taken (packet 7 1 0 (1 ∷ [])) ∷ wrote 6 (1 ∷ []) ∷ []
unfolding work enqueue start_datagram_pipeline worker_count queue_size process_datagram_task
    forward_payload write_payload add new_reassembly allow_session_bytes allow_bytes lookup insert
work_writes = refl

work_drops :
    (work (enqueue pipeline (packet 8 1 0 (1 ∷ []))).0 0 400 true).1
    ≡ taken (packet 8 1 0 (1 ∷ [])) ∷ dropped flow_missing ∷ []
unfolding work enqueue start_datagram_pipeline worker_count queue_size process_datagram_task
    forward_payload write_payload add new_reassembly allow_session_bytes allow_bytes lookup insert
work_drops = refl

abbrev hello : Bytes
hello = 1 ∷ 2 ∷ 3 ∷ 4 ∷ 5 ∷ []

abbrev arrivals : Arrivals
arrivals =
    (100, packet 7 9 1 (1 ∷ 2 ∷ []))
    ∷ (101, packet 8 9 1 (0 ∷ []))
    ∷ (102, packet 7 9 1 (3 ∷ 4 ∷ []))
    ∷ (103, packet 7 9 0 (6 ∷ []))
    ∷ (104, packet 7 9 3 (5 ∷ []))
    ∷ []

cut_hello :
    fragment_packets 7 9 hello 15
    ≡ ok (packet 7 9 1 (1 ∷ 2 ∷ []) ∷ packet 7 9 1 (3 ∷ 4 ∷ []) ∷ packet 7 9 3 (5 ∷ []) ∷ [])
unfolding fragment_packets fragments
cut_hello = refl

payload_written_once_example : task_effects 7 9 pipeline arrivals ≡ wrote 6 hello ∷ []
unfolding mine new_reassembly lookup start_datagram_pipeline
payload_written_once_example =
    payload_written_once 7 9 100 15 hello (packet 7 9 1 (1 ∷ 2 ∷ []))
      (packet 7 9 1 (3 ∷ 4 ∷ []) ∷ packet 7 9 3 (5 ∷ []) ∷ []) flow pipeline arrivals cut_hello
      (omega arith) refl tt (omega arith) refl refl refl
