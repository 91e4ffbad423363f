-- ===== src/Relay/Manager/Steps.antt =====
-- internal/relay/manager.go: what the manager's parts keep, its calls keep.
use vlf_proto.Base.{
  ℕ, List, [], ◌∷◌, ltb, length, Option, some, ok, ◌≡◌, refl, subst, arith, inl, inr, Bool-cases,
  Option-cases, Result-cases,
}
use vlf_proto.Base.Assoc.{bytes_eq, Map, lookup}
use vlf_proto.Base.Assoc.Laws.{eq_of_beq}
use vlf_proto.Wire.{Bytes}
use vlf_proto.Limits
use vlf_proto.Limits.{LimitError, reserve_relay_conn, release_relay_conn, allow_relay_bytes}
use vlf_proto.Session.{Net}
use vlf_proto.Store.Wheel.{Wheel, tick}
use vlf_proto.Relay.Conn
use vlf_proto.Relay.Conn.{RelayConn, ReadEnd, new_relay_conn}
use vlf_proto.Relay.Manager.{
  Manager, OpenRequest, millis, open_conn, get_owned_conn, touch, put_conn, close_conn, close,
  send_to, send, recv_max, recv_from, recv, ping, target_read, upstream_write, close_all,
  tick_wheel, shutdown, Event, opens, sends, recvs, pings, closes, target_reads, upstream_writes,
  ticks, shuts_down, step,
}
use vlf_proto.Relay.Manager.Conns.{
  Kin, enqueue-Kin, recv-Kin, ping-Kin, target_read-Kin, upstream_write-Kin, conns_of-allow,
}

-- A call that finds its connection is its owner's.
pub owned_conn :
    (m : Manager) (client_id k : Bytes) (conn : RelayConn)
    → get_owned_conn m client_id k ≡ ok conn
    → (lookup k m.conns ≡ some conn) × (conn.client_id ≡ client_id)
unfolding get_owned_conn
owned_conn m client_id k conn h = elim (Option-cases (lookup k m.conns)) [
  | inl e ↦ ground (arith, h, e)
  | inr (found, e) ↦ ground (arith, h, e, eq_of_beq found.client_id client_id)
]

-- A property of the manager that is kept where a connection changes, where the store is touched, where the
-- limits change in other things than connections, where a connection is closed, and by the wheel.
pub record IsKept (P : Manager → Type 0) : Type 0 where
  pub put :
      (m : Manager) (k : Bytes) (conn conn' : RelayConn)
      → lookup k m.conns ≡ some conn
      → Kin conn conn'
      → P m
      → P (put_conn m k conn')
  pub touches : (m : Manager) (now : ℕ) (k : Bytes) → P m → P (touch m now k)
  pub counts :
      (m : Manager) (limits : Limits.Manager)
      → limits.relay_conns_by_client ≡ m.limits.relay_conns_by_client
      → limits.total_relay_conns ≡ m.limits.total_relay_conns
      → limits.cfg ≡ m.limits.cfg
      → P m
      → P (record m { limits = limits })
  pub closes :
      (m : Manager) (k : Bytes) (conn : RelayConn)
      → lookup k m.conns ≡ some conn
      → P m
      → P (close_conn m conn)
  pub wheels :
      (m : Manager) (wheel : Wheel (Bytes × Bytes))
      → P m
      → P (record m { ttl_store = record m.ttl_store { wheel = wheel } })

module _ {P : Manager → Type 0} (kept : IsKept P) where
  close_keeps : (m : Manager) (k client_id : Bytes) → P m → P (close m k client_id).1
  unfolding close
  close_keeps m k client_id a = elim (Result-cases (get_owned_conn m client_id k)) [
    | inr (e, refused) ↦ rw (refused, close) a
    | inl (conn, found) ↦
        rw (found, close) (kept.closes m k conn (owned_conn m client_id k conn found).0 a)
  ]

  send_to_keeps :
      (m : Manager) (now : ℕ) (k : Bytes) (conn : RelayConn) (payload : Bytes)
      → lookup k m.conns ≡ some conn
      → P m
      → P (send_to m now k conn payload).1
  unfolding send_to
  send_to_keeps m now k conn payload there a =
      let (result, conn') = Conn.enqueue conn (millis now) payload in
      let m' = put_conn m k conn' in
      let put : P m' = kept.put m k conn conn' there (enqueue-Kin conn (millis now) payload) a in
      let touched = kept.touches m' now k put in
      elim (Result-cases result) [
        | inr (e, refused) ↦ subst P (ground (arith, refused)) put
        | inl (sent, taken) ↦ elim (Bool-cases (ltb 0 sent.0)) [
          | inl some_bytes ↦ subst P (ground (arith, taken, some_bytes)) touched
          | inr none_taken ↦ subst P (ground (arith, taken, none_taken)) put
        ]
      ]

  send_keeps :
      (m : Manager) (now : ℕ) (client_id k payload : Bytes)
      → P m
      → P (send m now client_id k payload).1
  unfolding send
  send_keeps m now client_id k payload a = elim (Result-cases (get_owned_conn m client_id k)) [
    | inr (e, refused) ↦ rw (refused, send) a
    | inl (conn, found) ↦
        let (error, limits) = allow_relay_bytes m.limits now client_id (length payload) in
        let (same, total, cfg) = conns_of-allow m.limits now client_id (length payload) in
        let m' = record m { limits = limits } in
        let counted = kept.counts m limits same total cfg a in
        let there = (owned_conn m client_id k conn found).0 in
        elim (Option-cases error) [
          | inr (e, over) ↦ subst P (ground (arith, found, over)) counted
          | inl allowed ↦
              subst P (ground (arith, found, allowed))
                (send_to_keeps m' now k conn payload there counted)
        ]
  ]

  recv_from_keeps :
      (m : Manager) (now : ℕ) (client_id k : Bytes) (conn : RelayConn) (max : ℕ)
      → lookup k m.conns ≡ some conn
      → P m
      → P (recv_from m now client_id k conn max).1
  unfolding recv_from
  recv_from_keeps m now client_id k conn max there a =
      let (result, conn') = Conn.recv conn (millis now) (recv_max m.cfg max) in
      let m' = put_conn m k conn' in
      let put : P m' =
        kept.put m k conn conn' there (recv-Kin conn (millis now) (recv_max m.cfg max)) a in
      let touched = kept.touches m' now k put in
      elim (Result-cases result) [
        | inr (e, refused) ↦ subst P (ground (arith, refused)) put
        | inl ((bytes, eos), taken) ↦ elim (Bool-cases (ltb 0 (length bytes))) [
          | inl some_bytes ↦ subst P (ground (arith, taken, some_bytes)) touched
          | inr none_read ↦ elim (Bool-cases eos) [
            | inl ended ↦
                subst P (ground (arith, taken, none_read, ended)) (close_keeps m' k client_id put)
            | inr more ↦ subst P (ground (arith, taken, none_read, more)) put
          ]
        ]
      ]

  recv_keeps :
      (m : Manager) (now : ℕ) (client_id k : Bytes) (max : ℕ)
      → P m
      → P (recv m now client_id k max).1
  unfolding recv
  recv_keeps m now client_id k max a = elim (Result-cases (get_owned_conn m client_id k)) [
    | inr (e, refused) ↦ rw (refused, recv) a
    | inl (conn, found) ↦
        rw (found, recv)
          (recv_from_keeps m now client_id k conn max (owned_conn m client_id k conn found).0 a)
  ]

  ping_keeps : (m : Manager) (now : ℕ) (client_id k : Bytes) → P m → P (ping m now client_id k).1
  unfolding ping
  ping_keeps m now client_id k a = elim (Result-cases (get_owned_conn m client_id k)) [
    | inr (e, refused) ↦ rw (refused, ping) a
    | inl (conn, found) ↦
        let conn' = Conn.ping conn (millis now) in
        rw (found, ping)
          (kept.touches (put_conn m k conn') now k (
            kept.put m k conn conn' (owned_conn m client_id k conn found).0
              (ping-Kin conn (millis now)) a))
  ]

  target_read_keeps :
      (m : Manager) (now : ℕ) (k bytes : Bytes) (end : ReadEnd)
      → P m
      → P (target_read m now k bytes end)
  unfolding target_read
  target_read_keeps m now k bytes end a = elim (Option-cases (lookup k m.conns)) [
    | inl e ↦ rw (e, target_read) a
    | inr (conn, e) ↦
        rw (e, target_read) (kept.put m k conn _ e (target_read-Kin conn (millis now) bytes end) a)
  ]

  upstream_write_keeps :
      (m : Manager) (now : ℕ) (k : Bytes) (writes : Option ℕ)
      → P m
      → P (upstream_write m now k writes)
  unfolding upstream_write
  upstream_write_keeps m now k writes a = elim (Option-cases (lookup k m.conns)) [
    | inl e ↦ rw (e, upstream_write) a
    | inr (conn, e) ↦
        rw (e, upstream_write)
          (kept.put m k conn _ e (upstream_write-Kin conn (millis now) writes) a)
  ]

  close_all_keeps : (m : Manager) (expired : List (Bytes × Bytes)) → P m → P (close_all m expired)
  unfolding close_all
  close_all_keeps m [] a = a
  close_all_keeps m ((k, client_id) ∷ expired) a =
      close_all_keeps (close m k client_id).1 expired (close_keeps m k client_id a)

  tick_wheel_keeps : (m : Manager) → P m → P (tick_wheel m)
  unfolding tick_wheel
  tick_wheel_keeps m a =
      close_all_keeps _ (tick m.ttl_store.wheel).1 (kept.wheels m (tick m.ttl_store.wheel).0 a)

  shutdown_keeps : (m : Manager) (snapshot : Map Bytes RelayConn) → P m → P (shutdown m snapshot)
  unfolding shutdown
  shutdown_keeps m [] a = a
  shutdown_keeps m ((k, conn) ∷ snapshot) a =
      shutdown_keeps (close m k conn.client_id).1 snapshot (close_keeps m k conn.client_id a)

  -- What an open keeps, every step keeps.
  pub step_keeps :
      (m : Manager) (event : Event)
      → ((net : Net) (now : ℕ) (client_id : Bytes) (req : OpenRequest) (k : Option Bytes)
          → event ≡ opens net now client_id req k
          → P (open_conn net m now client_id req k).1)
      → P m
      → P (step m event)
  unfolding step
  step_keeps m (opens net now client_id req k) opened a = opened net now client_id req k refl
  step_keeps m (sends now client_id k payload) opened a = send_keeps m now client_id k payload a
  step_keeps m (recvs now client_id k max) opened a = recv_keeps m now client_id k max a
  step_keeps m (pings now client_id k) opened a = ping_keeps m now client_id k a
  step_keeps m (closes k client_id) opened a = close_keeps m k client_id a
  step_keeps m (target_reads now k bytes end) opened a = target_read_keeps m now k bytes end a
  step_keeps m (upstream_writes now k writes) opened a = upstream_write_keeps m now k writes a
  step_keeps m ticks opened a = tick_wheel_keeps m a
  step_keeps m shuts_down opened a = shutdown_keeps m m.conns a
