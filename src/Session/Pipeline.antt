-- ===== src/Session/Pipeline.antt =====
-- internal/session/session.go: the way of a UDP datagram from the QUIC connection to its target. The read
-- loop puts each packet in the queue of its flow's worker, and the workers take them out. A `select` with
-- a `default` does not wait: a full queue drops the packet. `datagramQLen` is changed behind the sends
-- and the receives, not with them: each change is a step of its own, that may come at any later time.
pub mod Queues
pub mod Order
pub mod Forwards
mod Tests
use vlf_proto.Base.{
  ℕ, ◌+◌, ◌-◌, ◌/◌, ◌%◌, Bool, true, false, ◌&&◌, List, [], ◌∷◌, ◌++◌, ltb, leb, ◌==◌,
  if◌then◌else◌, length, get_or, set, replicate, Option, none, some, Result, ok, err,
}
use vlf_proto.Base.Ints.{ℤ, pos, negsuc, plus_one, minus_one, is_zero, is_negative}
use vlf_proto.Base.Assoc.{Eq, nat_eq, Map, lookup}
use vlf_proto.Wire.{Bytes}
use vlf_proto.Datagram.{DatagramPacket, decode_datagram_packet, Reassembly, new_reassembly, add}
use vlf_proto.Limits.{Manager, allow_udp_packet, allow_session_bytes}
use vlf_proto.Session
use vlf_proto.Session.{Session, close, close_flow}

pub data DropReason : Type 0 where
  queue_full : DropReason
  flow_missing : DropReason
  budget : DropReason
  parse_fail : DropReason
  write_fail : DropReason

-- The counters that the debug loop tells and resets.
pub record Counters : Type 0 where
  pub processed : ℕ
  pub drop_queue : ℕ
  pub drop_flow : ℕ
  pub drop_budget : ℕ
  pub drop_parse : ℕ
  pub drop_write : ℕ

abbrev pub no_counts : Counters
no_counts = record {
  processed = 0;
  drop_queue = 0;
  drop_flow = 0;
  drop_budget = 0;
  drop_parse = 0;
  drop_write = 0;
}

-- A session with what its datagrams use: `limits` is the server's, `per_worker` a queue's capacity. What
-- the goroutines still have to do to `queue_len` is how many of them are to add 1, to take 1 off, and to
-- store 0.
pub record Pipeline : Type 0 where
  pub id : ℕ
  pub session : Session
  pub limits : Manager
  pub reassembly : Reassembly
  pub per_worker : ℕ
  pub queues : List (List DatagramPacket)
  pub queue_len : ℤ
  pub to_add : ℕ
  pub to_take : ℕ
  pub to_store : ℕ
  pub counters : Counters

-- A packet that is put in a queue, taken out by a worker, or taken out and thrown away; a payload that is
-- written to a connection; a drop that is counted; what `Close` and `closeFlow` do; and the counters that
-- are logged.
pub data Effect : Type 0 where
  queued : DatagramPacket → Effect
  taken : DatagramPacket → Effect
  discarded : DatagramPacket → Effect
  wrote : ℕ → Bytes → Effect
  dropped : DropReason → Effect
  on_flows : List Session.Effect → Effect
  told : Counters → ℤ → Effect

unfoldable pub worker_count : ℕ → ℕ
worker_count workers = if leb workers 0 then 1 else workers

unfoldable pub queue_size : ℕ → ℕ → ℕ
queue_size queue_cap workers =
    let per_worker = (if leb queue_cap 0 then 1024 else queue_cap) / worker_count workers in
    if ltb per_worker 64 then 64 else per_worker

unfoldable pub start_datagram_pipeline : ℕ → Session → Manager → ℕ → ℕ → Pipeline
start_datagram_pipeline id s limits workers queue_cap = record {
  id = id;
  session = s;
  limits = limits;
  reassembly = new_reassembly;
  per_worker = queue_size queue_cap workers;
  queues = replicate (worker_count workers) [];
  queue_len = pos 0;
  to_add = 0;
  to_take = 0;
  to_store = 0;
  counters = no_counts;
}

abbrev pub count_drop : Counters → DropReason → Counters
count_drop c queue_full = record c { drop_queue = c.drop_queue + 1 }
count_drop c flow_missing = record c { drop_flow = c.drop_flow + 1 }
count_drop c budget = record c { drop_budget = c.drop_budget + 1 }
count_drop c parse_fail = record c { drop_parse = c.drop_parse + 1 }
count_drop c write_fail = record c { drop_write = c.drop_write + 1 }

abbrev pub observe_datagram_drop : Pipeline → DropReason → Pipeline
observe_datagram_drop p reason = record p { counters = count_drop p.counters reason }

abbrev pub queue_of : Pipeline → ℕ → List DatagramPacket
queue_of p i = get_or p.queues i []

unfoldable pub enqueue : Pipeline → DatagramPacket → Pipeline × List Effect
enqueue p pkt =
    let i = pkt.flow_id % length p.queues in
    let queue = queue_of p i in
    if ltb (length queue) p.per_worker
    then (
      record p { queues = set p.queues i (queue ++ pkt ∷ []); to_add = p.to_add + 1 },
      queued pkt ∷ [],
    )
    else (observe_datagram_drop p queue_full, dropped queue_full ∷ [])

-- A round of `datagramReadLoop`, from the received bytes on.
unfoldable pub receive_datagram : Pipeline → ℕ → Bytes → Pipeline × List Effect
receive_datagram p now raw =
    if length p.queues == 0 then (p, []) else elim (decode_datagram_packet raw) [
      | err e ↦ (observe_datagram_drop p parse_fail, dropped parse_fail ∷ [])
      | ok pkt ↦
          let (error, limits) = allow_udp_packet p.limits now p.id in
          let p' = record p { limits = limits } in
          elim error [
            | some e ↦ (observe_datagram_drop p' budget, dropped budget ∷ [])
            | none ↦ enqueue p' pkt
          ]
    ]

-- The end of `processDatagramTask`, from the flow on; `writes` is whether the write succeeds.
unfoldable pub write_payload : Pipeline → Bool → ℕ → Bytes → Pipeline × List Effect
write_payload p writes flow_id payload = elim (lookup flow_id p.session.udp_flows) [
  | none ↦ (observe_datagram_drop p flow_missing, dropped flow_missing ∷ [])
  | some flow ↦
      let (s, effects) = close_flow p.session flow_id true in
      if writes
      then (
        record p { counters = record p.counters { processed = p.counters.processed + 1 } },
        wrote flow.conn payload ∷ [],
      )
      else (
        record (observe_datagram_drop p write_fail) { session = s },
        dropped write_fail ∷ on_flows effects ∷ [],
      )
]

unfoldable pub forward_payload : Pipeline → ℕ → Bool → ℕ → Bytes → Pipeline × List Effect
forward_payload p now writes flow_id payload =
    let (error, limits) = allow_session_bytes p.limits now p.id (length payload) in
    let p' = record p { limits = limits } in
    let (s, effects) = close p'.session in
    elim error [
      | some e ↦ (
        record (observe_datagram_drop p' budget) { session = s },
        dropped budget ∷ on_flows effects ∷ [],
      )
      | none ↦ write_payload p' writes flow_id payload
    ]

unfoldable pub process_datagram_task : Pipeline → ℕ → Bool → DatagramPacket → Pipeline × List Effect
process_datagram_task p now writes pkt =
    let (reassembly, out) = add p.reassembly now pkt in
    let p' = record p { reassembly = reassembly } in
    elim out [ none ↦ (p', []) | some payload ↦ forward_payload p' now writes pkt.flow_id payload ]

-- `<-queue`: a packet is taken out, and this is left.
abbrev pub without_first : Pipeline → ℕ → List DatagramPacket → Pipeline
without_first p i queue = record p { queues = set p.queues i queue; to_take = p.to_take + 1 }

-- `s.datagramQLen.Add(1)` of the read loop.
unfoldable pub count_queued : Pipeline → Pipeline
count_queued p =
    if p.to_add == 0
    then p
    else record p { queue_len = plus_one p.queue_len; to_add = p.to_add - 1 }

-- `s.datagramQLen.Add(-1)` of a worker, which stores 0 next if the result is negative.
unfoldable pub count_taken : Pipeline → Pipeline
count_taken p =
    let n = minus_one p.queue_len in
    if p.to_take == 0 then p else record p {
      queue_len = n;
      to_take = p.to_take - 1;
      to_store = if is_negative n then p.to_store + 1 else p.to_store;
    }

-- `s.datagramQLen.Store(0)`
unfoldable pub store_zero : Pipeline → Pipeline
store_zero p =
    if p.to_store == 0 then p else record p { queue_len = pos 0; to_store = p.to_store - 1 }

-- A round of `datagramWorkerLoop`.
unfoldable pub work : Pipeline → ℕ → ℕ → Bool → Pipeline × List Effect
work p i now writes = elim (queue_of p i) [
  | [] ↦ (p, [])
  | (pkt ∷ queue) ↦
      let (p', effects) = process_datagram_task (without_first p i queue) now writes pkt in
      (p', taken pkt ∷ effects)
]

-- A round of `drainDatagramQueue`.
unfoldable pub drain_datagram_queue : Pipeline → ℕ → Pipeline × List Effect
drain_datagram_queue p i = elim (queue_of p i) [
  | [] ↦ (p, [])
  | (pkt ∷ queue) ↦ (without_first p i queue, discarded pkt ∷ [])
]

-- A tick of `datagramDebugLoop`, which logs nothing if nothing was counted.
unfoldable pub tell_counters : Pipeline → Pipeline × List Effect
tell_counters p =
    let c = p.counters in
    if (c.processed + c.drop_queue + c.drop_flow + c.drop_budget + c.drop_parse + c.drop_write == 0)
      && is_zero p.queue_len
    then (record p { counters = no_counts }, [])
    else (record p { counters = no_counts }, told c p.queue_len ∷ [])

pub data Event : Type 0 where
  received : ℕ → Bytes → Event
  works : ℕ → ℕ → Bool → Event
  drains : ℕ → Event
  ticks : Event
  counts_queued : Event
  counts_taken : Event
  stores_zero : Event
  on_session : Session.Event → Event

unfoldable pub step : Pipeline → Event → Pipeline × List Effect
step p (received now raw) = receive_datagram p now raw
step p (works i now writes) = work p i now writes
step p (drains i) = drain_datagram_queue p i
step p ticks = tell_counters p
step p counts_queued = (count_queued p, [])
step p counts_taken = (count_taken p, [])
step p stores_zero = (store_zero p, [])
step p (on_session event) =
    let (s, effects) = Session.step p.session event in
    (record p { session = s }, on_flows effects ∷ [])

unfoldable pub run : Pipeline → List Event → Pipeline × List Effect
run p [] = (p, [])
run p (event ∷ events) =
    let (p', effects) = step p event in let (p'', rest) = run p' events in (p'', effects ++ rest)
