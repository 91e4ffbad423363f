-- ===== src/Relay/Manager/Stuck.antt =====
-- internal/relay/manager.go and conn.go: a read loop that closes its own connection waits for itself.
use vlf_proto.Base.{
  ℕ, ◌<◌, true, List, [], ◌∷◌, Option, none, some, ◌≡◌, ap, sym, ◌∙◌, subst, arith, inl, inr,
  Bool-cases, Option-cases, Result-cases,
}
use vlf_proto.Base.Assoc.{bytes_eq, bytes_beq, Map, lookup, Distinct}
use vlf_proto.Base.Assoc.Laws.{lookup-insert, lookup-delete, eq_of_beq, beq_refl}
use vlf_proto.Wire.{Bytes}
use vlf_proto.Limits.Conns.{conns_of}
use vlf_proto.Session.{Net}
use vlf_proto.Relay.Conn
use vlf_proto.Relay.Conn.{RelayConn, ReadEnd, new_relay_conn}
use vlf_proto.Relay.Manager.{
  Manager, OpenRequest, millis, add_conn, open_conn, touch, put_conn, on_conn_closed, close_conn,
  target_read, Event, run, step,
}
use vlf_proto.Relay.Manager.Conns.{owned, owned-delete, Kin, target_read-Kin}
use vlf_proto.Relay.Manager.Accounts.{IsAccounted, IsAccounted-IsKept}
use vlf_proto.Relay.Manager.Steps.{IsKept, step_keeps}
use vlf_proto.Relay.Manager.Runs.{IsFresh, AreFresh, open_conn-IsAccounted, fresh_id}

module _ (k client_id : Bytes) where
  -- The client's connection is closed, and is in the table.
  abbrev pub StuckAt : Manager → Type 0
  StuckAt m =
      (conn : RelayConn) × (lookup k m.conns ≡ some conn)
      × (conn.closed ≡ true)
      × (conn.client_id ≡ client_id)

  abbrev Stuck : Manager → Type 0
  Stuck m = IsAccounted m × StuckAt m

  put_conn-Stuck :
      (m : Manager) (j : Bytes) (conn conn' : RelayConn)
      → lookup j m.conns ≡ some conn
      → Kin conn conn'
      → StuckAt m
      → StuckAt (put_conn m j conn')
  put_conn-Stuck m j conn conn' there (same_id, same_client, closed_still)
        (stuck, found, closed, client) =
      elim (Bool-cases (bytes_beq j k)) [
        | inl same ↦
            let here : stuck ≡ conn = ground (arith, found, there, eq_of_beq j k, same) in
            (
              conn',
              ground (arith, same, lookup-insert j k conn' m.conns),
              closed_still (ap (λ c. c.closed) (sym here) ∙ closed),
              same_client ∙ ap (λ c. c.client_id) (sym here) ∙ client,
            )
        | inr other ↦
            (stuck, ground (arith, other, found, lookup-insert j k conn' m.conns), closed, client)
      ]

  close_conn-Stuck :
      (m : Manager) (j : Bytes) (conn : RelayConn)
      → lookup j m.conns ≡ some conn
      → IsAccounted m
      → StuckAt m
      → StuckAt (close_conn m conn)
  unfolding close_conn on_conn_closed
  close_conn-Stuck m j conn there a (stuck, found, closed, client) = (
    stuck,
    ground (
      arith,
      there,
      found,
      closed,
      a.named j conn there,
      lookup-delete j k m.conns,
      eq_of_beq j k,
    ),
    closed,
    client,
  )

  open_conn-Stuck :
      (net : Net) (m : Manager) (now : ℕ) (client : Bytes) (req : OpenRequest)
      (new_id : Option Bytes)
      → ((j : Bytes) → new_id ≡ some j → lookup j m.conns ≡ none)
      → StuckAt m
      → StuckAt (open_conn net m now client req new_id).1
  unfolding open_conn add_conn
  open_conn-Stuck net m now client req new_id fresh (stuck, found, closed, owner) =
      let addr = net.join_host_port req.dst_host (net.format_port req.dst_port) in
      elim (Result-cases (net.dial_tcp addr)) [
        | inr (reason, failed) ↦ (stuck, ground (arith, found, failed), closed, owner)
        | inl (target, dialed) ↦ elim (Option-cases new_id) [
          | inl no_id ↦ (stuck, ground (arith, found, dialed, no_id), closed, owner)
          | inr (j, id) ↦
              let conn =
                new_relay_conn j client target m.cfg.recv_window m.cfg.send_window
                  m.cfg.idle_timeout (millis now) in
              (
                stuck,
                ground (
                  arith,
                  found,
                  dialed,
                  id,
                  fresh j id,
                  lookup-insert j k conn m.conns,
                  eq_of_beq j k,
                ),
                closed,
                owner,
              )
        ]
      ]

  Stuck-IsKept : IsKept Stuck
  unfolding touch
  Stuck-IsKept = record {
    put = λ m j conn conn' there kin s. (
      IsAccounted-IsKept.put m j conn conn' there kin s.0,
      put_conn-Stuck m j conn conn' there kin s.1,
    );
    touches = λ m now j s. (IsAccounted-IsKept.touches m now j s.0, s.1);
    counts =
        λ m limits same total cfg s. (IsAccounted-IsKept.counts m limits same total cfg s.0, s.1);
    closes = λ m j conn there s.
        (IsAccounted-IsKept.closes m j conn there s.0, close_conn-Stuck m j conn there s.0 s.1);
    wheels = λ m wheel s. (IsAccounted-IsKept.wheels m wheel s.0, s.1);
  }

  run-Stuck :
      (m : Manager) (events : List Event) → AreFresh m events → Stuck m → Stuck (run m events)
  unfolding run AreFresh
  run-Stuck m [] fresh s = s
  run-Stuck m (event ∷ events) fresh s = run-Stuck (step m event) events fresh.1 (
      step_keeps Stuck-IsKept m event
        (λ net now client req new_id opening.
          let fresh' = fresh_id net m now client req new_id (subst (IsFresh m) opening fresh.0) in
          (
            open_conn-IsAccounted net m now client req new_id fresh' s.0,
            open_conn-Stuck net m now client req new_id fresh' s.1,
          ))
        s)

closes_itself :
    (c : RelayConn) (now : ℕ) (bytes : Bytes) (end : ReadEnd)
    → (Conn.target_read c now bytes end).0 ≡ true
    → (Conn.target_read c now bytes end).1.closed ≡ true
unfolding Conn.target_read Conn.close
closes_itself c now bytes end h = ground (arith, h)

owned-positive :
    (m : Map Bytes RelayConn) (k : Bytes) (conn : RelayConn)
    → Distinct m
    → lookup k m ≡ some conn
    → 0 < owned conn.client_id m
owned-positive m k conn d there =
    ground (arith, there, owned-delete conn.client_id k m d, beq_refl conn.client_id)

-- Once the downstream buffer of a connection overflows, the connection is closed, but whatever clients ask
-- for, targets do and the wheel ends then, `Shutdown` included, it stays in the table, and the limits
-- never stop to count it for its client.
pub overflow_keeps_limit :
    (m : Manager) (now : ℕ) (k : Bytes) (conn : RelayConn) (bytes : Bytes) (end : ReadEnd)
    (events : List Event)
    → IsAccounted m
    → lookup k m.conns ≡ some conn
    → (Conn.target_read conn (millis now) bytes end).0 ≡ true
    → AreFresh (target_read m now k bytes end) events
    → let m' = run (target_read m now k bytes end) events in
      StuckAt k conn.client_id m' × (0 < conns_of m'.limits conn.client_id)
unfolding target_read
overflow_keeps_limit m now k conn bytes end events a there overflow fresh =
    let conn' = (Conn.target_read conn (millis now) bytes end).1 in
    let kin = target_read-Kin conn (millis now) bytes end in
    let now_stuck : Stuck k conn.client_id (put_conn m k conn') = (
      IsAccounted-IsKept.put m k conn conn' there kin a,
      (
        conn',
        ground (arith, lookup-insert k k conn' m.conns, beq_refl k),
        closes_itself conn (millis now) bytes end overflow,
        kin.1,
      ),
    ) in
    let put : target_read m now k bytes end ≡ put_conn m k conn' = ground (arith, there) in
    let (a', (stuck, found, closed, client)) =
      run-Stuck k conn.client_id (target_read m now k bytes end) events fresh
        (subst (Stuck k conn.client_id) (sym put) now_stuck) in
    let m' = run (target_read m now k bytes end) events in
    (
      (stuck, found, closed, client),
      subst (λ c. 0 < c) (sym (a'.counted conn.client_id))
          (subst (λ c. 0 < owned c m'.conns) client
            (owned-positive m'.conns k stuck a'.distinct found)),
    )
