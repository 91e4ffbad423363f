-- ===== src/Session/Pipeline/Order.antt =====
-- internal/session/session.go: the datagrams of a flow keep their order, since one worker has them all.
use vlf_proto.Base.{
  ℕ, ◌%◌, ◌<◌, Bool, ◌&&◌, List, [], ◌∷◌, ◌++◌, ltb, ◌==◌, if◌then◌else◌, length, get_or, set,
  length-set, length-replicate, ◌≡◌, refl, ap, sym, ◌∙◌, subst, arith, inl, inr, Option-cases,
  Result-cases, List-cases, Bool-cases, All, append-nil, append_assoc,
}
use vlf_proto.Base.Tabulate.{get_or-set}
use vlf_proto.Base.Assoc.{nat_eq, lookup}
use vlf_proto.Base.Assoc.Laws.{eq_of_beq}
use vlf_proto.Wire.{Bytes}
use vlf_proto.Datagram.{DatagramPacket, decode_datagram_packet, add}
use vlf_proto.Limits.{Manager, allow_udp_packet, allow_session_bytes}
use vlf_proto.Session.{Session}
use vlf_proto.Session.Pipeline.{
  Pipeline, worker_count, start_datagram_pipeline, queue_of, enqueue, receive_datagram,
  write_payload, forward_payload, process_datagram_task, work, drain_datagram_queue, count_queued,
  count_taken, store_zero, tell_counters, without_first, Effect, queued, taken, discarded, Event,
  received, works, drains, ticks, counts_queued, counts_taken, stores_zero, on_session, step, run,
}
use vlf_proto.Session.Pipeline.Queues.{
  SameQueues, process_datagram_task-SameQueues, in_range_of, mod_lt, get_or-replicate,
  worker_count-positive,
}

-- The packets of one flow.
unfoldable pub of_flow : ℕ → List DatagramPacket → List DatagramPacket
of_flow f [] = []
of_flow f (pkt ∷ pkts) = if pkt.flow_id == f then pkt ∷ of_flow f pkts else of_flow f pkts

-- The packets that are put in queues, and those that are taken out.
unfoldable pub entered : List Effect → List DatagramPacket
entered [] = []
entered (queued pkt ∷ effects) = pkt ∷ entered effects
entered (effect ∷ effects) = entered effects

unfoldable pub left : List Effect → List DatagramPacket
left [] = []
left (taken pkt ∷ effects) = pkt ∷ left effects
left (discarded pkt ∷ effects) = pkt ∷ left effects
left (effect ∷ effects) = left effects

-- The packets of a flow that wait in its worker's queue.
abbrev pub flow_queue : ℕ → Pipeline → List DatagramPacket
flow_queue f p = of_flow f (queue_of p (f % length p.queues))

of_flow-append :
    (f : ℕ) (xs ys : List DatagramPacket) → of_flow f (xs ++ ys) ≡ of_flow f xs ++ of_flow f ys
unfolding of_flow
of_flow-append f [] ys = refl
of_flow-append f (x ∷ xs) ys = ground (arith, of_flow-append f xs ys)

entered-append : (xs ys : List Effect) → entered (xs ++ ys) ≡ entered xs ++ entered ys
unfolding entered
entered-append [] ys = refl
entered-append (queued pkt ∷ xs) ys = ap (λ l. pkt ∷ l) (entered-append xs ys)
entered-append (taken pkt ∷ xs) ys = entered-append xs ys
entered-append (discarded pkt ∷ xs) ys = entered-append xs ys
entered-append (Effect.wrote conn payload ∷ xs) ys = entered-append xs ys
entered-append (Effect.dropped reason ∷ xs) ys = entered-append xs ys
entered-append (Effect.on_flows effects ∷ xs) ys = entered-append xs ys
entered-append (Effect.told c n ∷ xs) ys = entered-append xs ys

left-append : (xs ys : List Effect) → left (xs ++ ys) ≡ left xs ++ left ys
unfolding left
left-append [] ys = refl
left-append (queued pkt ∷ xs) ys = left-append xs ys
left-append (taken pkt ∷ xs) ys = ap (λ l. pkt ∷ l) (left-append xs ys)
left-append (discarded pkt ∷ xs) ys = ap (λ l. pkt ∷ l) (left-append xs ys)
left-append (Effect.wrote conn payload ∷ xs) ys = left-append xs ys
left-append (Effect.dropped reason ∷ xs) ys = left-append xs ys
left-append (Effect.on_flows effects ∷ xs) ys = left-append xs ys
left-append (Effect.told c n ∷ xs) ys = left-append xs ys

-- The work on a packet puts none in a queue and takes none out.
abbrev Quiet : List Effect → Type 0
Quiet effects = (entered effects ≡ []) × (left effects ≡ [])

write_payload-Quiet :
    (p : Pipeline) (writes : Bool) (flow_id : ℕ) (payload : Bytes)
    → Quiet (write_payload p writes flow_id payload).1
unfolding write_payload entered left
write_payload-Quiet p writes flow_id payload =
    elim (Option-cases (lookup flow_id p.session.udp_flows)) [
      | inl e ↦ ground (arith, e)
      | inr (flow, e) ↦ ground (arith, e)
    ]

process_datagram_task-Quiet :
    (p : Pipeline) (now : ℕ) (writes : Bool) (pkt : DatagramPacket)
    → Quiet (process_datagram_task p now writes pkt).1
unfolding process_datagram_task forward_payload entered left
process_datagram_task-Quiet p now writes pkt = elim (Option-cases (add p.reassembly now pkt).1) [
  | inl e ↦ ground (arith, e)
  | inr (payload, e) ↦
      let p' = record p { reassembly = (add p.reassembly now pkt).0 } in
      let (error, limits) = allow_session_bytes p.limits now p.id (length payload) in
      let p'' = record p' { limits = limits } in
      elim (Option-cases error) [
        | inl e' ↦ ground (arith, e, e', write_payload-Quiet p'' writes pkt.flow_id payload)
        | inr (limited, e') ↦ ground (arith, e, e')
      ]
]

-- A packet stands in no queue but its flow's.
abbrev IsRouted : Pipeline → Type 0
IsRouted p = (i : ℕ) → All (λ pkt. pkt.flow_id % length p.queues ≡ i) (queue_of p i)

-- A step keeps the packets routed, and what it puts in a flow's queue and what it takes out is in order.
abbrev InOrder : ℕ → Pipeline → Pipeline × List Effect → Type 0
InOrder f p (p', effects) =
    IsRouted p'
    × (length p'.queues ≡ length p.queues)
    × (flow_queue f p ++ of_flow f (entered effects) ≡ of_flow f (left effects) ++ flow_queue f p')

still-InOrder :
    (f : ℕ) (p : Pipeline) (out : Pipeline × List Effect)
    → IsRouted p
    → SameQueues p out.0
    → Quiet out.1
    → InOrder f p out
unfolding of_flow
still-InOrder f p out routed (same, _) (none_in, none_out) = (
  λ i. rw same (routed i),
  ap length same,
  rw (none_in, none_out, same) (append-nil (flow_queue f p)),
)

All-append {ℓ} :
    {A : Type 0} (P : A → Type ℓ) (xs : List A) (x : A) → All P xs → P x → All P (xs ++ x ∷ [])
All-append P [] x all px = (px, tt)
All-append P (y ∷ xs) x all px = (all.0, All-append P xs x all.1 px)

-- A queue that is exchanged for another leaves the packets routed if the new one is.
set-IsRouted :
    (p p' : Pipeline) (i : ℕ) (queue : List DatagramPacket)
    → p'.queues ≡ set p.queues i queue
    → All (λ pkt. pkt.flow_id % length p.queues ≡ i) queue
    → IsRouted p
    → IsRouted p'
set-IsRouted p p' i queue changed all routed j =
    let same : length p'.queues ≡ length p.queues =
      ap length changed ∙ length-set p.queues i queue in
    let found : queue_of p' j
        ≡ (if (i == j) && ltb i (length p.queues) then queue else queue_of p j) =
      ap (λ qs. get_or qs j []) changed ∙ get_or-set p.queues i j queue [] in
    elim (Bool-cases ((i == j) && ltb i (length p.queues))) [
      | inl h ↦
          rw (same, found, h)
            (subst (λ k. All (λ pkt. pkt.flow_id % length p.queues ≡ k) queue) (ground (arith, h))
              all)
      | inr h ↦ rw (same, found, h) (routed j)
    ]

enqueue-InOrder :
    (f : ℕ) (p : Pipeline) (pkt : DatagramPacket)
    → 0 < length p.queues
    → IsRouted p
    → InOrder f p (enqueue p pkt)
unfolding enqueue of_flow entered left
enqueue-InOrder f p pkt some_worker routed =
    let i = pkt.flow_id % length p.queues in
    let queue = queue_of p i ++ pkt ∷ [] in
    let in_range : i < length p.queues = mod_lt pkt.flow_id (length p.queues) some_worker in
    elim (Bool-cases (ltb (length (queue_of p i)) p.per_worker)) [
      | inr full ↦
          still-InOrder f p (enqueue p pkt) routed (ground (arith, full)) (ground (arith, full))
      | inl room ↦ (
        set-IsRouted p (enqueue p pkt).0 i queue (ground (arith, room))
            (All-append _ (queue_of p i) pkt (routed i) refl) routed,
        ground (arith, room, length-set p.queues i queue),
        ground (
          arith,
          room,
          in_range,
          length-set p.queues i queue,
          get_or-set p.queues i (f % length p.queues) queue [],
          of_flow-append f (queue_of p i) (pkt ∷ []),
          eq_of_beq pkt.flow_id f,
          append-nil (flow_queue f p),
        ),
      )
    ]

-- A step keeps the first packet's flow in order when it takes it out of its queue.
without_first-InOrder :
    (f : ℕ) (p : Pipeline) (i : ℕ) (pkt : DatagramPacket) (queue : List DatagramPacket)
    (out : Pipeline × List Effect)
    → queue_of p i ≡ pkt ∷ queue
    → IsRouted p
    → SameQueues (without_first p i queue) out.0
    → entered out.1 ≡ []
    → left out.1 ≡ pkt ∷ []
    → InOrder f p out
unfolding of_flow
without_first-InOrder f p i pkt queue out first routed (same, _) none_in one_out =
    let in_range : i < length p.queues = in_range_of p.queues i pkt queue first in
    let all : All (λ pkt. pkt.flow_id % length p.queues ≡ i) (pkt ∷ queue) =
      subst (All (λ pkt. pkt.flow_id % length p.queues ≡ i)) first (routed i) in
    let same_length : length out.0.queues ≡ length p.queues =
      ap length same ∙ length-set p.queues i queue in
    let found : queue_of out.0 (f % length p.queues) ≡ (
        if (i == f % length p.queues) && ltb i (length p.queues)
        then queue
        else queue_of p (f % length p.queues)) =
      ap (λ qs. get_or qs (f % length p.queues) []) same
      ∙ get_or-set p.queues i (f % length p.queues) queue [] in
    (
      set-IsRouted p out.0 i queue same all.1 routed,
      same_length,
      rw (none_in, one_out, same_length, found, append-nil (flow_queue f p))
          (ground (arith, first, in_range, all.0, eq_of_beq pkt.flow_id f)),
    )

work-InOrder :
    (f : ℕ) (p : Pipeline) (i now : ℕ) (writes : Bool)
    → IsRouted p
    → InOrder f p (work p i now writes)
unfolding work entered left of_flow
work-InOrder f p i now writes routed = elim (List-cases (queue_of p i)) [
  | inl e ↦ still-InOrder f p (work p i now writes) routed (ground (arith, e)) (ground (arith, e))
  | inr ((pkt, queue), e) ↦
      let p' = without_first p i queue in
      let same = process_datagram_task-SameQueues p' now writes pkt in
      let quiet = process_datagram_task-Quiet p' now writes pkt in
      without_first-InOrder f p i pkt queue (work p i now writes) e routed (ground (arith, e, same))
        (ground (arith, e, quiet)) (ground (arith, e, quiet))
]

drain_datagram_queue-InOrder :
    (f : ℕ) (p : Pipeline) (i : ℕ) → IsRouted p → InOrder f p (drain_datagram_queue p i)
unfolding drain_datagram_queue entered left of_flow
drain_datagram_queue-InOrder f p i routed = elim (List-cases (queue_of p i)) [
  | inl e ↦
      still-InOrder f p (drain_datagram_queue p i) routed (ground (arith, e)) (ground (arith, e))
  | inr ((pkt, queue), e) ↦
      without_first-InOrder f p i pkt queue (drain_datagram_queue p i) e routed (ground (arith, e))
        (ground (arith, e)) (ground (arith, e))
]

receive_datagram-InOrder :
    (f : ℕ) (p : Pipeline) (now : ℕ) (raw : Bytes)
    → 0 < length p.queues
    → IsRouted p
    → InOrder f p (receive_datagram p now raw)
unfolding receive_datagram entered left
receive_datagram-InOrder f p now raw some_worker routed =
    let (error, limits) = allow_udp_packet p.limits now p.id in
    let p' = record p { limits = limits } in
    let out = receive_datagram p now raw in
    elim (Result-cases (decode_datagram_packet raw)) [
      | inr (e, bad) ↦ still-InOrder f p out routed (ground (arith, bad)) (ground (arith, bad))
      | inl (pkt, good) ↦ elim (Option-cases error) [
        | inr (e, limited) ↦
            still-InOrder f p out routed (ground (arith, good, limited))
              (ground (arith, good, limited))
        | inl allowed ↦
            let passed : receive_datagram p now raw ≡ enqueue p' pkt =
              ground (arith, good, allowed, some_worker) in
            rw passed (enqueue-InOrder f p' pkt some_worker routed)
      ]
    ]

step-InOrder :
    (f : ℕ) (p : Pipeline) (event : Event)
    → 0 < length p.queues
    → IsRouted p
    → InOrder f p (step p event)
unfolding step tell_counters count_queued count_taken store_zero entered left
step-InOrder f p (received now raw) some_worker routed =
    receive_datagram-InOrder f p now raw some_worker routed
step-InOrder f p (works i now writes) some_worker routed = work-InOrder f p i now writes routed
step-InOrder f p (drains i) some_worker routed = drain_datagram_queue-InOrder f p i routed
step-InOrder f p ticks some_worker routed =
    still-InOrder f p (tell_counters p) routed (ground arith) (ground arith)
step-InOrder f p counts_queued some_worker routed =
    still-InOrder f p (step p counts_queued) routed (ground arith) (ground arith)
step-InOrder f p counts_taken some_worker routed =
    still-InOrder f p (step p counts_taken) routed (ground arith) (ground arith)
step-InOrder f p stores_zero some_worker routed =
    still-InOrder f p (step p stores_zero) routed (ground arith) (ground arith)
step-InOrder f p (on_session event) some_worker routed =
    still-InOrder f p (step p (on_session event)) routed (refl, refl) (refl, refl)

run-InOrder :
    (f : ℕ) (p : Pipeline) (events : List Event)
    → 0 < length p.queues
    → IsRouted p
    → InOrder f p (run p events)
unfolding run entered left of_flow
run-InOrder f p [] some_worker routed = (routed, refl, append-nil (flow_queue f p))
run-InOrder f p (event ∷ events) some_worker routed =
    let (p', effects) = step p event in
    let (routed', same, first) = step-InOrder f p event some_worker routed in
    let (routed'', same', rest) =
      run-InOrder f p' events (omega (arith, same, some_worker)) routed' in
    let (p'', effects') = run p' events in
    let out = of_flow f (left effects) in
    (
      routed'',
      same' ∙ same,
      rw (entered-append effects effects', left-append effects effects')
          (rw
            (
              of_flow-append f (entered effects) (entered effects'),
              of_flow-append f (left effects) (left effects'),
            )
            (sym (
                append_assoc (flow_queue f p) (of_flow f (entered effects))
                  (of_flow f (entered effects')))
              ∙ ap (λ l. l ++ of_flow f (entered effects')) first
              ∙ append_assoc out (flow_queue f p') (of_flow f (entered effects'))
              ∙ ap (◌++◌ out) rest
              ∙ sym (append_assoc out (of_flow f (left effects')) (flow_queue f p'')))),
    )

start-IsRouted :
    (id : ℕ) (s : Session) (limits : Manager) (workers queue_cap : ℕ)
    → IsRouted (start_datagram_pipeline id s limits workers queue_cap)
unfolding start_datagram_pipeline
start-IsRouted id s limits workers queue_cap i = rw (get_or-replicate (worker_count workers) i) tt

-- Whatever arrives, the packets of a flow that were put in a queue are, in their order, those of it that
-- the workers took out, and then those that wait in its worker's queue.
pub flow_in_order :
    (id : ℕ) (s : Session) (limits : Manager) (workers queue_cap : ℕ) (events : List Event) (f : ℕ)
    → let (p, effects) = run (start_datagram_pipeline id s limits workers queue_cap) events in
      of_flow f (entered effects) ≡ of_flow f (left effects) ++ flow_queue f p
unfolding start_datagram_pipeline of_flow
flow_in_order id s limits workers queue_cap events f =
    let p = start_datagram_pipeline id s limits workers queue_cap in
    let n = worker_count workers in
    let some_worker : 0 < length p.queues =
      omega
        (arith, length-replicate {A = List DatagramPacket} n [], worker_count-positive workers) in
    let (_, _, in_order) =
      run-InOrder f p events some_worker (start-IsRouted id s limits workers queue_cap) in
    let empty : flow_queue f p ≡ [] = ap (of_flow f) (get_or-replicate n (f % length p.queues)) in
    sym (ap (λ l. l ++ of_flow f (entered (run p events).1)) empty) ∙ in_order
