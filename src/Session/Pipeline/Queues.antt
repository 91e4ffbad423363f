-- ===== src/Session/Pipeline/Queues.antt =====
-- internal/session/session.go: how much the datagram queues hold.
use vlf_proto.Base.{
  ℕ, zero, suc, ◌+◌, ◌*◌, ◌%◌, ◌≤◌, ◌<◌, Bool, List, [], ◌∷◌, ◌++◌, length, get_or, replicate,
  length-append, length-set, length-replicate, ◌≡◌, refl, ap, ◌∙◌, subst, arith, inl, inr,
  Option-cases, Result-cases, List-cases,
}
use vlf_proto.Base.Tabulate.{get_or-set}
use vlf_proto.Base.Assoc.{nat_eq, lookup}
use vlf_proto.Wire.{Bytes}
use vlf_proto.Datagram.{DatagramPacket, decode_datagram_packet, add}
use vlf_proto.Limits.{Manager, allow_udp_packet, allow_session_bytes}
use vlf_proto.Session.{Session}
use vlf_proto.Session.Pipeline.{
  Pipeline, worker_count, queue_size, start_datagram_pipeline, queue_of, enqueue, receive_datagram,
  write_payload, forward_payload, process_datagram_task, work, drain_datagram_queue, count_queued,
  count_taken, store_zero, tell_counters, without_first, Event, received, works, drains, ticks,
  counts_queued, counts_taken, stores_zero, on_session, step, run,
}

-- The packets in all queues.
unfoldable pub total : List (List DatagramPacket) → ℕ
total [] = 0
total (queue ∷ queues) = length queue + total queues

total-bound :
    (queues : List (List DatagramPacket)) (bound : ℕ)
    → ((i : ℕ) → length (get_or queues i []) ≤ bound)
    → total queues ≤ length queues * bound
unfolding total
total-bound [] bound h = omega arith
total-bound (queue ∷ queues) bound h = omega (arith, h 0, total-bound queues bound (λ i. h (suc i)))

-- What the work on a packet leaves as it was.
abbrev pub SameQueues : Pipeline → Pipeline → Type 0
SameQueues p p' = (p'.queues ≡ p.queues) × (p'.per_worker ≡ p.per_worker)

write_payload-SameQueues :
    (p : Pipeline) (writes : Bool) (flow_id : ℕ) (payload : Bytes)
    → SameQueues p (write_payload p writes flow_id payload).0
unfolding write_payload
write_payload-SameQueues p writes flow_id payload =
    elim (Option-cases (lookup flow_id p.session.udp_flows)) [
      | inl e ↦ ground (arith, e)
      | inr (flow, e) ↦ ground (arith, e)
    ]

pub process_datagram_task-SameQueues :
    (p : Pipeline) (now : ℕ) (writes : Bool) (pkt : DatagramPacket)
    → SameQueues p (process_datagram_task p now writes pkt).0
unfolding process_datagram_task forward_payload
process_datagram_task-SameQueues p now writes pkt =
    elim (Option-cases (add p.reassembly now pkt).1) [
      | inl e ↦ ground (arith, e)
      | inr (payload, e) ↦
          let p' = record p { reassembly = (add p.reassembly now pkt).0 } in
          let (error, limits) = allow_session_bytes p.limits now p.id (length payload) in
          let p'' = record p' { limits = limits } in
          elim (Option-cases error) [
            | inl e' ↦
                ground (arith, e, e', write_payload-SameQueues p'' writes pkt.flow_id payload)
            | inr (limited, e') ↦ ground (arith, e, e')
          ]
    ]

-- No queue is over its capacity.
pub record IsFit (n cap : ℕ) (p : Pipeline) : Type 0 where
  pub size : p.per_worker ≡ cap
  pub workers : length p.queues ≡ n
  pub within : (i : ℕ) → length (queue_of p i) ≤ cap

pub in_range_of :
    (queues : List (List DatagramPacket)) (i : ℕ) (pkt : DatagramPacket)
    (queue : List DatagramPacket)
    → get_or queues i [] ≡ pkt ∷ queue
    → i < length queues
in_range_of [] i pkt queue h = cc
in_range_of (q ∷ qs) zero pkt queue h = omega arith
in_range_of (q ∷ qs) (suc i) pkt queue h = omega (arith, in_range_of qs i pkt queue h)

IsFit-same : (n cap : ℕ) (p p' : Pipeline) → SameQueues p p' → IsFit n cap p → IsFit n cap p'
IsFit-same n cap p p' (same, same_size) fit = record {
  size = same_size ∙ fit.size;
  workers = rw (same) fit.workers;
  within = λ i. rw (same) (fit.within i);
}

pub mod_lt : (a n : ℕ) → 0 < n → a % n < n
mod_lt a n h = ground arith

enqueue-IsFit :
    (n cap : ℕ) (p : Pipeline) (pkt : DatagramPacket)
    → 0 < n
    → IsFit n cap p
    → IsFit n cap (enqueue p pkt).0
unfolding enqueue
enqueue-IsFit n cap p pkt some_worker fit =
    let i = pkt.flow_id % length p.queues in
    let queue = queue_of p i ++ pkt ∷ [] in
    let in_range : i < length p.queues =
      mod_lt pkt.flow_id (length p.queues) (omega (arith, fit.workers)) in
    record {
      size = ground (arith, fit.size);
      workers = ground (arith, fit.workers, length-set p.queues i queue);
      within = λ j. ground (
        arith,
        fit.within j,
        fit.size,
        get_or-set p.queues i j queue [],
        length-append (queue_of p i) (pkt ∷ []),
      );
    }

without_first-IsFit :
    (n cap : ℕ) (p : Pipeline) (i : ℕ) (pkt : DatagramPacket) (queue : List DatagramPacket)
    → queue_of p i ≡ pkt ∷ queue
    → IsFit n cap p
    → IsFit n cap (without_first p i queue)
without_first-IsFit n cap p i pkt queue first fit =
    let in_range : i < length p.queues = in_range_of p.queues i pkt queue first in
    record {
      size = fit.size;
      workers = ground (arith, fit.workers, length-set p.queues i queue);
      within =
          λ j. ground (arith, fit.within i, fit.within j, first, get_or-set p.queues i j queue []);
    }

receive_datagram-IsFit :
    (n cap : ℕ) (p : Pipeline) (now : ℕ) (raw : Bytes)
    → 0 < n
    → IsFit n cap p
    → IsFit n cap (receive_datagram p now raw).0
unfolding receive_datagram
receive_datagram-IsFit n cap p now raw some_worker fit =
    let (error, limits) = allow_udp_packet p.limits now p.id in
    let p' = record p { limits = limits } in
    elim (Result-cases (decode_datagram_packet raw)) [
      | inr (e, bad) ↦ IsFit-same n cap p _ (ground (arith, bad)) fit
      | inl (pkt, good) ↦ elim (Option-cases error) [
        | inr (e, limited) ↦ IsFit-same n cap p _ (ground (arith, good, limited)) fit
        | inl allowed ↦
            let passed : receive_datagram p now raw ≡ enqueue p' pkt =
              ground (arith, good, allowed, fit.workers) in
            rw passed
              (enqueue-IsFit n cap p' pkt some_worker (IsFit-same n cap p p' (refl, refl) fit))
      ]
    ]

work-IsFit :
    (n cap : ℕ) (p : Pipeline) (i now : ℕ) (writes : Bool)
    → IsFit n cap p
    → IsFit n cap (work p i now writes).0
unfolding work
work-IsFit n cap p i now writes fit = elim (List-cases (queue_of p i)) [
  | inl e ↦ rw (e, work) fit
  | inr ((pkt, queue), e) ↦
      rw (e, work)
        (IsFit-same n cap (without_first p i queue) _
          (process_datagram_task-SameQueues (without_first p i queue) now writes pkt)
          (without_first-IsFit n cap p i pkt queue e fit))
]

drain_datagram_queue-IsFit :
    (n cap : ℕ) (p : Pipeline) (i : ℕ) → IsFit n cap p → IsFit n cap (drain_datagram_queue p i).0
unfolding drain_datagram_queue
drain_datagram_queue-IsFit n cap p i fit = elim (List-cases (queue_of p i)) [
  | inl e ↦ rw (e, drain_datagram_queue) fit
  | inr ((pkt, queue), e) ↦
      rw (e, drain_datagram_queue) (without_first-IsFit n cap p i pkt queue e fit)
]

step-IsFit :
    (n cap : ℕ) (p : Pipeline) (event : Event)
    → 0 < n
    → IsFit n cap p
    → IsFit n cap (step p event).0
unfolding step tell_counters count_queued count_taken store_zero
step-IsFit n cap p (received now raw) some_worker fit =
    receive_datagram-IsFit n cap p now raw some_worker fit
step-IsFit n cap p (works i now writes) some_worker fit = work-IsFit n cap p i now writes fit
step-IsFit n cap p (drains i) some_worker fit = drain_datagram_queue-IsFit n cap p i fit
step-IsFit n cap p ticks some_worker fit = IsFit-same n cap p _ (ground arith) fit
step-IsFit n cap p counts_queued some_worker fit = IsFit-same n cap p _ (ground arith) fit
step-IsFit n cap p counts_taken some_worker fit = IsFit-same n cap p _ (ground arith) fit
step-IsFit n cap p stores_zero some_worker fit = IsFit-same n cap p _ (ground arith) fit
step-IsFit n cap p (on_session event) some_worker fit = IsFit-same n cap p _ (ground arith) fit

run-IsFit :
    (n cap : ℕ) (p : Pipeline) (events : List Event)
    → 0 < n
    → IsFit n cap p
    → IsFit n cap (run p events).0
unfolding run
run-IsFit n cap p [] some_worker fit = fit
run-IsFit n cap p (event ∷ events) some_worker fit =
    run-IsFit n cap (step p event).0 events some_worker (step-IsFit n cap p event some_worker fit)

pub get_or-replicate : (n i : ℕ) → get_or {A = List DatagramPacket} (replicate n []) i [] ≡ []
get_or-replicate zero i = refl
get_or-replicate (suc n) zero = refl
get_or-replicate (suc n) (suc i) = get_or-replicate n i

start-IsFit :
    (id : ℕ) (s : Session) (limits : Manager) (workers queue_cap : ℕ)
    → IsFit
        (worker_count workers)
        (queue_size queue_cap workers)
        (start_datagram_pipeline id s limits workers queue_cap)
unfolding start_datagram_pipeline
start-IsFit id s limits workers queue_cap = record {
  size = refl;
  workers = length-replicate (worker_count workers) [];
  within = λ i. omega (arith, ap length (get_or-replicate (worker_count workers) i));
}

queue_size-lower : (queue_cap workers : ℕ) → 64 ≤ queue_size queue_cap workers
unfolding queue_size
queue_size-lower queue_cap workers = ground arith

pub worker_count-positive : (workers : ℕ) → 0 < worker_count workers
unfolding worker_count
worker_count-positive workers = ground arith

-- Whatever arrives, no datagram queue holds more packets than its capacity, which is 64 at least; and
-- all queues together hold at most one capacity for each worker.
pub queues_bounded :
    (id : ℕ) (s : Session) (limits : Manager) (workers queue_cap : ℕ) (events : List Event)
    → let p = (run (start_datagram_pipeline id s limits workers queue_cap) events).0 in
      let cap = queue_size queue_cap workers in
      (64 ≤ cap)
      × ((i : ℕ) → length (queue_of p i) ≤ cap)
      × (total p.queues ≤ worker_count workers * cap)
queues_bounded id s limits workers queue_cap events =
    let n = worker_count workers in
    let cap = queue_size queue_cap workers in
    let p = (run (start_datagram_pipeline id s limits workers queue_cap) events).0 in
    let fit : IsFit n cap p =
      run-IsFit n cap (start_datagram_pipeline id s limits workers queue_cap) events
        (worker_count-positive workers) (start-IsFit id s limits workers queue_cap) in
    let bounded : total p.queues ≤ n * cap =
      subst (λ k. total p.queues ≤ k * cap) fit.workers (total-bound p.queues cap fit.within) in
    (queue_size-lower queue_cap workers, fit.within, bounded)
