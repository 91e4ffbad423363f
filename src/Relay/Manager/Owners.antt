-- ===== src/Relay/Manager/Owners.antt =====
-- internal/relay/manager.go: a client reaches its own connections only.
use vlf_proto.Base.{
  ℕ, false, ltb, length, Option, none, some, ◌≡◌, ◌≢◌, arith, inl, inr, Bool-cases, Option-cases,
  Result-cases,
}
use vlf_proto.Base.Assoc.{bytes_eq, bytes_beq, lookup, insert}
use vlf_proto.Base.Assoc.Laws.{lookup-insert, lookup-delete, eq_of_beq}
use vlf_proto.Wire.{Bytes}
use vlf_proto.Limits.{allow_relay_bytes}
use vlf_proto.Session.{Net}
use vlf_proto.Relay.Conn
use vlf_proto.Relay.Conn.{RelayConn, new_relay_conn}
use vlf_proto.Relay.Manager.{
  Manager, OpenRequest, millis, add_conn, open_conn, get_owned_conn, touch, put_conn,
  on_conn_closed, close_conn, close, send_to, send, recv_max, recv_from, recv, ping,
}
use vlf_proto.Relay.Manager.Accounts.{IsAccounted, IsAccounted-IsKept}
use vlf_proto.Relay.Manager.Conns.{recv-Kin}
use vlf_proto.Relay.Manager.Steps.{owned_conn}

module _ (k : Bytes) (other : RelayConn) where
  -- The connection of another client stands as it was.
  abbrev pub Untouched : Manager → Type 0
  Untouched m = lookup k m.conns ≡ some other

  close-Untouched :
      (m : Manager) (j client_id : Bytes)
      → other.client_id ≢ client_id
      → IsAccounted m
      → Untouched m
      → Untouched (close m j client_id).1
  unfolding close close_conn on_conn_closed
  close-Untouched m j client_id differs a u = elim (Result-cases (get_owned_conn m client_id j)) [
    | inr (e, refused) ↦ rw (refused, close) u
    | inl (conn, found) ↦
        let (there, own) = owned_conn m client_id j conn found in
        let not_same : bytes_beq j k ≡ false =
          ground (arith, differs, u, there, own, eq_of_beq j k) in
        ground (arith, found, there, u, not_same, a.named j conn there, lookup-delete j k m.conns)
  ]

  send-Untouched :
      (m : Manager) (now : ℕ) (client_id j payload : Bytes)
      → other.client_id ≢ client_id
      → Untouched m
      → Untouched (send m now client_id j payload).1
  unfolding send send_to touch
  send-Untouched m now client_id j payload differs u =
      elim (Result-cases (get_owned_conn m client_id j)) [
        | inr (e, refused) ↦ rw (refused, send) u
        | inl (conn, found) ↦
            let (there, own) = owned_conn m client_id j conn found in
            let not_same : bytes_beq j k ≡ false =
              ground (arith, differs, u, there, own, eq_of_beq j k) in
            let out = Conn.enqueue conn (millis now) payload in
            let kept : lookup k (insert j out.1 m.conns) ≡ some other =
              ground (arith, u, not_same, lookup-insert j k out.1 m.conns) in
            elim (Option-cases (allow_relay_bytes m.limits now client_id (length payload)).0) [
              | inr (e, over) ↦ ground (arith, found, over, u)
              | inl allowed ↦ elim (Result-cases out.0) [
                | inl (sent, taken) ↦ ground (arith, found, allowed, taken, kept)
                | inr (e, refused) ↦ ground (arith, found, allowed, refused, kept)
              ]
            ]
      ]

  recv-Untouched :
      (m : Manager) (now : ℕ) (client_id j : Bytes) (max : ℕ)
      → other.client_id ≢ client_id
      → IsAccounted m
      → Untouched m
      → Untouched (recv m now client_id j max).1
  unfolding recv recv_from touch
  recv-Untouched m now client_id j max differs a u =
      elim (Result-cases (get_owned_conn m client_id j)) [
        | inr (e, refused) ↦ rw (refused, recv) u
        | inl (conn, found) ↦
            let (there, own) = owned_conn m client_id j conn found in
            let not_same : bytes_beq j k ≡ false =
              ground (arith, differs, u, there, own, eq_of_beq j k) in
            let out = Conn.recv conn (millis now) (recv_max m.cfg max) in
            let m' = put_conn m j out.1 in
            let kept : Untouched m' =
              ground (arith, u, not_same, lookup-insert j k out.1 m.conns) in
            let a' =
              IsAccounted-IsKept.put m j conn out.1 there
                (recv-Kin conn (millis now) (recv_max m.cfg max)) a in
            let closed = close-Untouched m' j client_id differs a' kept in
            elim (Result-cases out.0) [
              | inr (e, refused) ↦ ground (arith, found, refused, kept)
              | inl ((bytes, eos), taken) ↦ elim (Bool-cases (ltb 0 (length bytes))) [
                | inl some_bytes ↦ ground (arith, found, taken, some_bytes, kept)
                | inr none_read ↦ elim (Bool-cases eos) [
                  | inl ended ↦
                      let out_is : (recv m now client_id j max).1 ≡ (close m' j client_id).1 =
                        ground (arith, found, taken, none_read, ended) in
                      rw out_is closed
                  | inr more ↦ ground (arith, found, taken, none_read, more, kept)
                ]
              ]
            ]
      ]

  ping-Untouched :
      (m : Manager) (now : ℕ) (client_id j : Bytes)
      → other.client_id ≢ client_id
      → Untouched m
      → Untouched (ping m now client_id j).1
  unfolding ping touch
  ping-Untouched m now client_id j differs u = elim (Result-cases (get_owned_conn m client_id j)) [
    | inr (e, refused) ↦ rw (refused, ping) u
    | inl (conn, found) ↦
        let (there, own) = owned_conn m client_id j conn found in
        ground (
          arith,
          found,
          differs,
          u,
          there,
          own,
          eq_of_beq j k,
          lookup-insert j k (Conn.ping conn (millis now)) m.conns,
        )
  ]

  open-Untouched :
      (net : Net) (m : Manager) (now : ℕ) (client_id : Bytes) (req : OpenRequest)
      (id : Option Bytes)
      → ((j : Bytes) → id ≡ some j → lookup j m.conns ≡ none)
      → Untouched m
      → Untouched (open_conn net m now client_id req id).1
  unfolding open_conn add_conn
  open-Untouched net m now client_id req id fresh u =
      let addr = net.join_host_port req.dst_host (net.format_port req.dst_port) in
      elim (Result-cases (net.dial_tcp addr)) [
        | inr (reason, failed) ↦ ground (arith, u, failed)
        | inl (target, dialed) ↦ elim (Option-cases id) [
          | inl no_id ↦ ground (arith, u, dialed, no_id)
          | inr (j, new_id) ↦
              let conn =
                new_relay_conn j client_id target m.cfg.recv_window m.cfg.send_window
                  m.cfg.idle_timeout (millis now) in
              ground (
                arith,
                u,
                dialed,
                new_id,
                fresh j new_id,
                lookup-insert j k conn m.conns,
                eq_of_beq j k,
              )
        ]
      ]

  -- No call of a client changes another client's connection.
  pub client_calls_isolated :
      (net : Net) (m : Manager) (now : ℕ) (client_id j payload : Bytes) (max : ℕ)
      (req : OpenRequest) (id : Option Bytes)
      → other.client_id ≢ client_id
      → ((i : Bytes) → id ≡ some i → lookup i m.conns ≡ none)
      → IsAccounted m
      → Untouched m
      → Untouched (open_conn net m now client_id req id).1
        × Untouched (send m now client_id j payload).1
        × Untouched (recv m now client_id j max).1
        × Untouched (ping m now client_id j).1
        × Untouched (close m j client_id).1
  client_calls_isolated net m now client_id j payload max req id differs fresh a u = (
    open-Untouched net m now client_id req id fresh u,
    send-Untouched m now client_id j payload differs u,
    recv-Untouched m now client_id j max differs a u,
    ping-Untouched m now client_id j differs u,
    close-Untouched m j client_id differs a u,
  )
