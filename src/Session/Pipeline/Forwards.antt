-- ===== src/Session/Pipeline/Forwards.antt =====
-- internal/session/session.go: a payload that the client cut into datagrams is written to its target once.
use vlf_proto.Base.{
  ℕ, ◌+◌, ◌<◌, true, List, [], ◌∷◌, ◌++◌, if◌then◌else◌, length, Option, none, some, ok, ◌≡◌, refl,
  ap, ◌∙◌, arith, inl, inr, Option-cases, Bool-cases,
}
use vlf_proto.Base.Assoc.{nat_eq, lookup}
use vlf_proto.Wire.{Bytes}
use vlf_proto.Datagram.{DatagramPacket, datagram_header_size, fragment_packets, add}
use vlf_proto.Datagram.Waiting.{waiting, IsTidy}
use vlf_proto.Datagram.Delivery.{
  Arrivals, is_mine, mine, outputs, once_at_the_end, Within, outputs-fragment_packets,
}
use vlf_proto.Limits.{Manager, allow_bytes, allow_session_bytes}
use vlf_proto.Session.{UdpFlow}
use vlf_proto.Session.Pipeline.{
  Pipeline, Effect, wrote, write_payload, forward_payload, process_datagram_task,
}

-- What comes of the tasks for the fragments of one sequence number of a flow, among all tasks that the
-- workers take on; all writes succeed.
unfoldable pub task_effects : ℕ → ℕ → Pipeline → Arrivals → List Effect
task_effects f s p [] = []
task_effects f s p ((now, pkt) ∷ es) =
    let (p', effects) = process_datagram_task p now true pkt in
    let rest = task_effects f s p' es in if is_mine f s pkt then effects ++ rest else rest

-- A payload that is complete is written.
abbrev writes_of : ℕ → List (Option Bytes) → List Effect
writes_of conn [] = []
writes_of conn (none ∷ outs) = writes_of conn outs
writes_of conn (some payload ∷ outs) = wrote conn payload ∷ writes_of conn outs

unlimited :
    (m : Manager) (now session_id n : ℕ)
    → m.cfg.bytes_per_minute_per_session ≡ 0
    → ((allow_session_bytes m now session_id n).0 ≡ none)
      × ((allow_session_bytes m now session_id n).1.cfg ≡ m.cfg)
unfolding allow_session_bytes allow_bytes
unlimited m now session_id n no_limit = ground (arith, no_limit)

write_payload_writes :
    (p : Pipeline) (flow_id : ℕ) (payload : Bytes)
    → ((write_payload p true flow_id payload).0.session ≡ p.session)
      × ((write_payload p true flow_id payload).0.limits ≡ p.limits)
      × ((write_payload p true flow_id payload).0.reassembly ≡ p.reassembly)
      × ((flow : UdpFlow)
          → lookup flow_id p.session.udp_flows ≡ some flow
          → (write_payload p true flow_id payload).1 ≡ wrote flow.conn payload ∷ [])
unfolding write_payload
write_payload_writes p flow_id payload = elim (Option-cases (lookup flow_id p.session.udp_flows)) [
  | inl e ↦
      (ground (arith, e), ground (arith, e), ground (arith, e), λ flow h. ground (arith, e, h))
  | inr (found, e) ↦
      (ground (arith, e), ground (arith, e), ground (arith, e), λ flow h. ground (arith, e, h))
]

process_datagram_task_forwards :
    (p : Pipeline) (now : ℕ) (pkt : DatagramPacket)
    → p.limits.cfg.bytes_per_minute_per_session ≡ 0
    → let (p', effects) = process_datagram_task p now true pkt in
      let (r, out) = add p.reassembly now pkt in
      (p'.session ≡ p.session)
      × (p'.limits.cfg ≡ p.limits.cfg)
      × (p'.reassembly ≡ r)
      × ((flow : UdpFlow)
          → lookup pkt.flow_id p.session.udp_flows ≡ some flow
          → effects ≡ writes_of flow.conn (out ∷ []))
unfolding process_datagram_task forward_payload
process_datagram_task_forwards p now pkt no_limit =
    elim (Option-cases (add p.reassembly now pkt).1) [
      | inl e ↦
          (ground (arith, e), ground (arith, e), ground (arith, e), λ flow h. ground (arith, e))
      | inr (payload, e) ↦
          let p' = record p { reassembly = (add p.reassembly now pkt).0 } in
          let p'' = record p' {
            limits = (allow_session_bytes p.limits now p.id (length payload)).1;
          } in
          let (allowed, same) = unlimited p.limits now p.id (length payload) no_limit in
          let (w₁, w₂, w₃, w₄) = write_payload_writes p'' pkt.flow_id payload in
          (
            ground (arith, e, allowed, w₁),
            ground (arith, e, allowed, same, w₂),
            ground (arith, e, allowed, w₃),
            λ flow h. ground (arith, e, allowed, w₄ flow h),
          )
    ]

writes_of-append :
    (conn : ℕ) (out : Option Bytes) (outs : List (Option Bytes))
    → writes_of conn (out ∷ []) ++ writes_of conn outs ≡ writes_of conn (out ∷ outs)
writes_of-append conn none outs = refl
writes_of-append conn (some payload) outs = refl

task_effects-outputs :
    (f s : ℕ) (flow : UdpFlow) (p : Pipeline) (es : Arrivals)
    → p.limits.cfg.bytes_per_minute_per_session ≡ 0
    → lookup f p.session.udp_flows ≡ some flow
    → task_effects f s p es ≡ writes_of flow.conn (outputs f s p.reassembly es)
unfolding task_effects outputs
task_effects-outputs f s flow p [] no_limit found = refl
task_effects-outputs f s flow p ((now, pkt) ∷ es) no_limit found =
    let (p', effects) = process_datagram_task p now true pkt in
    let (same_session, same_cfg, same_parts, writes) =
      process_datagram_task_forwards p now pkt no_limit in
    let rest : task_effects f s p' es
        ≡ writes_of flow.conn (outputs f s (add p.reassembly now pkt).0 es) =
      task_effects-outputs f s flow p' es (rw same_cfg no_limit) (rw same_session found)
      ∙ ap (λ r. writes_of flow.conn (outputs f s r es)) same_parts in
    elim (Bool-cases (is_mine f s pkt)) [
      | inr other ↦ rw (other, task_effects, outputs) rest
      | inl own ↦
          let is_flow : pkt.flow_id ≡ f = ground (arith, own) in
          rw (own, task_effects, outputs)
            (rw (rest, writes flow (rw is_flow found))
              (writes_of-append flow.conn (add p.reassembly now pkt).1 _))
    ]

writes_of-once_at_the_end :
    (f s conn : ℕ) (payload : Bytes) (pkt : DatagramPacket) (pkts : List DatagramPacket)
    → writes_of conn (once_at_the_end f s payload (pkt ∷ pkts)) ≡ wrote conn payload ∷ []
writes_of-once_at_the_end f s conn payload pkt [] = refl
writes_of-once_at_the_end f s conn payload pkt (next ∷ pkts) =
    writes_of-once_at_the_end f s conn payload next pkts

-- A payload that is cut into fragments, since it is too long for one datagram, is written to its flow's
-- target once and whole, and nothing else is written for its fragments: if the workers take the
-- fragments in order, within the five seconds for which a fragment is kept and where nothing waited under
-- their flow and sequence number, among whatever other packets; the flow is open; the writes of the
-- workers succeed; and the session's bytes are not limited.
pub payload_written_once :
    (f s since max_payload : ℕ) (payload : Bytes) (pkt : DatagramPacket)
    (pkts : List DatagramPacket) (flow : UdpFlow) (p : Pipeline) (es : Arrivals)
    → fragment_packets f s payload max_payload ≡ ok (pkt ∷ pkts)
    → max_payload < datagram_header_size + length payload
    → mine f s es ≡ pkt ∷ pkts
    → IsTidy p.reassembly.parts
    → Within f s since es
    → waiting p.reassembly.parts f s ≡ none
    → p.limits.cfg.bytes_per_minute_per_session ≡ 0
    → lookup f p.session.udp_flows ≡ some flow
    → task_effects f s p es ≡ wrote flow.conn payload ∷ []
payload_written_once f s since max_payload payload pkt pkts flow p es cut long arrive tidy when
      nothing no_limit found =
    task_effects-outputs f s flow p es no_limit found
    ∙ ap (writes_of flow.conn) (
        outputs-fragment_packets f s since max_payload payload (pkt ∷ pkts) p.reassembly es cut long
          arrive tidy when nothing)
    ∙ writes_of-once_at_the_end f s flow.conn payload pkt pkts
