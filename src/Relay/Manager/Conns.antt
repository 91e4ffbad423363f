-- ===== src/Relay/Manager/Conns.antt =====
-- internal/relay/manager.go: the connections of a client among all, and what the calls of a connection
-- keep of it.
use vlf_proto.Base.{
  ℕ, zero, suc, ◌+◌, ◌-◌, Bool, true, false, [], ◌∷◌, ◌++◌, length, take, drop, Option, none, some,
  ◌≡◌, refl, arith, inl, inr, List-cases,
}
use vlf_proto.Base.Assoc.{bytes_eq, bytes_beq, Map, lookup, insert, delete, Distinct}
use vlf_proto.Base.Assoc.Laws.{lookup-insert, lookup-delete, eq_of_beq}
use vlf_proto.Wire.{Bytes}
use vlf_proto.Limits
use vlf_proto.Limits.{LimitError, reserve_relay_conn, release_relay_conn, allow_relay_bytes}
use vlf_proto.Limits.Conns.{conns_of}
use vlf_proto.Relay.RingBuffer
use vlf_proto.Relay.Conn
use vlf_proto.Relay.Conn.{
  RelayConn, ReadEnd, goes_on, ends, times_out, enqueue_chunks, chunk, mark_eos, after_read,
  enqueue, recv, ping, target_read, upstream_write,
}

abbrev pub one_if : Bool → ℕ
one_if true = 1
one_if false = 0

-- The connections of a client.
unfoldable pub owned : Bytes → Map Bytes RelayConn → ℕ
owned client_id [] = 0
owned client_id ((k, conn) ∷ m) = one_if (bytes_beq conn.client_id client_id) + owned client_id m

abbrev pub owned_at : Bytes → Option RelayConn → ℕ
owned_at client_id none = 0
owned_at client_id (some conn) = one_if (bytes_beq conn.client_id client_id)

pub owned-insert :
    (client_id k : Bytes) (conn : RelayConn) (m : Map Bytes RelayConn)
    → owned client_id (insert k conn m) + owned_at client_id (lookup k m)
      ≡ owned client_id m + one_if (bytes_beq conn.client_id client_id)
unfolding owned insert lookup
owned-insert client_id k conn [] = omega arith
owned-insert client_id k conn ((j, i) ∷ m) = ground (arith, owned-insert client_id k conn m)

pub owned-delete :
    (client_id k : Bytes) (m : Map Bytes RelayConn)
    → Distinct m
    → owned client_id (delete k m) + owned_at client_id (lookup k m) ≡ owned client_id m
unfolding owned delete lookup
owned-delete client_id k [] d = omega arith
owned-delete client_id k ((j, i) ∷ m) d =
    ground (arith, owned-delete client_id k m d.1, eq_of_beq j k, d.0)

-- A call of a connection keeps whose it is, and that it is closed.
abbrev pub Kin : RelayConn → RelayConn → Type 0
Kin c c' = (c'.id ≡ c.id) × (c'.client_id ≡ c.client_id) × ((c.closed ≡ true) → c'.closed ≡ true)

enqueue_chunks-Kin :
    (fuel : ℕ) (c : RelayConn) (rest : Bytes)
    → let c' = (enqueue_chunks fuel c rest).1 in
      (c'.id ≡ c.id) × (c'.client_id ≡ c.client_id) × (c'.closed ≡ c.closed)
unfolding enqueue_chunks
enqueue_chunks-Kin zero c rest = (refl, refl, refl)
enqueue_chunks-Kin (suc fuel) c rest =
    let part = take chunk rest in
    let c' = record c {
      upstream_queue = c.upstream_queue ++ part ∷ [];
      upstream_bytes = c.upstream_bytes + length part;
    } in
    ground (arith, enqueue_chunks-Kin fuel c' (drop chunk rest))

pub enqueue-Kin : (c : RelayConn) (now : ℕ) (bytes : Bytes) → Kin c (enqueue c now bytes).1
unfolding enqueue
enqueue-Kin c now bytes =
    let same = enqueue_chunks-Kin (length bytes) c bytes in
    (ground (arith, same), ground (arith, same), λ over. ground (arith, same, over))

pub recv-Kin : (c : RelayConn) (now max : ℕ) → Kin c (recv c now max).1
unfolding recv
recv-Kin c now max = (ground arith, ground arith, λ over. ground (arith, over))

pub ping-Kin : (c : RelayConn) (now : ℕ) → Kin c (ping c now)
unfolding ping
ping-Kin c now = (ground arith, ground arith, λ over. ground (arith, over))

after_read-Kin : (c : RelayConn) (end : ReadEnd) → Kin c (after_read c end)
unfolding mark_eos
after_read-Kin c goes_on = (refl, refl, λ over. over)
after_read-Kin c times_out = (refl, refl, λ over. over)
after_read-Kin c ends = (ground arith, ground arith, λ over. ground (arith, over))

pub target_read-Kin :
    (c : RelayConn) (now : ℕ) (bytes : Bytes) (end : ReadEnd)
    → Kin c (target_read c now bytes end).1
unfolding target_read Conn.close
target_read-Kin c now bytes end =
    let c₁ = record c { last_active = now } in
    let c₂ = record c₁ { downstream = (RingBuffer.write c₁.downstream bytes).2 } in
    let idle = after_read-Kin c end in
    let read = after_read-Kin c₂ end in
    (ground (arith, idle.0, read.0), ground (arith, idle.1, read.1), λ over. ground (arith, over))

pub upstream_write-Kin :
    (c : RelayConn) (now : ℕ) (writes : Option ℕ) → Kin c (upstream_write c now writes).1
unfolding upstream_write mark_eos
upstream_write-Kin c now writes = elim (List-cases c.upstream_queue) [
  | inl e ↦ (ground (arith, e), ground (arith, e), λ over. ground (arith, e, over))
  | inr ((part, queue), e) ↦ (ground (arith, e), ground (arith, e), λ over. ground (arith, e, over))
]

-- What the limits count for each client.
pub conns_of-reserve :
    (m : Limits.Manager) (client_id k : Bytes)
    → (reserve_relay_conn m client_id).0 ≡ none
    → conns_of (reserve_relay_conn m client_id).1 k ≡ conns_of m k + one_if (bytes_beq client_id k)
unfolding reserve_relay_conn
conns_of-reserve m client_id k e = ground (
  arith,
  e,
  lookup-insert client_id k (conns_of m client_id + 1) m.relay_conns_by_client,
  eq_of_beq client_id k,
)

pub conns_of-release :
    (m : Limits.Manager) (client_id k : Bytes)
    → conns_of (release_relay_conn m client_id) k ≡ conns_of m k - one_if (bytes_beq client_id k)
unfolding release_relay_conn
conns_of-release m client_id k = ground (
  arith,
  lookup-insert client_id k (conns_of m client_id - 1) m.relay_conns_by_client,
  lookup-delete client_id k m.relay_conns_by_client,
  eq_of_beq client_id k,
)

pub conns_of-allow :
    (m : Limits.Manager) (now : ℕ) (client_id : Bytes) (n : ℕ)
    → let m' = (allow_relay_bytes m now client_id n).1 in
      (m'.relay_conns_by_client ≡ m.relay_conns_by_client)
      × (m'.total_relay_conns ≡ m.total_relay_conns)
      × (m'.cfg ≡ m.cfg)
unfolding allow_relay_bytes
conns_of-allow m now client_id n = ground arith
