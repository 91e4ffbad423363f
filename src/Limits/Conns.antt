-- ===== src/Limits/Conns.antt =====
-- internal/limits/manager.go: relay connections that are reserved and released.
use vlf_proto.Base.{
  ℕ, ◌+◌, ◌-◌, ◌≤◌, ◌<◌, ◌&&◌, List, [], ◌∷◌, ltb, leb, if◌then◌else◌, none, ◌≡◌, ◌⊎◌, inl, inr,
  Bool-cases, ltb→lt, arith, refl,
}
use vlf_proto.Base.Assoc.{bytes_eq, Map, lookup, insert, delete, Distinct}
use vlf_proto.Base.Assoc.Laws.{
  lookup-insert, lookup-delete, insert-Distinct, delete-Distinct, eq_of_beq, beq_refl,
}
use vlf_proto.Wire.{Bytes}
use vlf_proto.Limits.{Config, Manager, new_manager, count, reserve_relay_conn, release_relay_conn}

-- The connections of all clients.
pub sum : Map Bytes ℕ → ℕ
sum [] = 0
sum ((k, n) ∷ m) = n + sum m

abbrev pub conns_of : Manager → Bytes → ℕ
conns_of m client_id = count (lookup client_id m.relay_conns_by_client)

-- No limit is exceeded, and the total is what the clients have.
pub record IsWithin (m : Manager) : Type 0 where
  pub distinct : Distinct m.relay_conns_by_client
  pub total_in : (m.cfg.total_conns ≡ 0) ⊎ (m.total_relay_conns ≤ m.cfg.total_conns)
  pub client_in :
      (client_id : Bytes)
      → (m.cfg.conns_per_client ≡ 0) ⊎ (conns_of m client_id ≤ m.cfg.conns_per_client)
  pub total_is : m.total_relay_conns ≡ sum m.relay_conns_by_client

sum-insert :
    (k : Bytes) (n : ℕ) (m : Map Bytes ℕ) → sum (insert k n m) + count (lookup k m) ≡ sum m + n
unfolding sum insert lookup
sum-insert k n [] = omega arith
sum-insert k n ((j, i) ∷ m) = ground (arith, sum-insert k n m)

sum-delete :
    (k : Bytes) (m : Map Bytes ℕ) → Distinct m → sum (delete k m) + count (lookup k m) ≡ sum m
unfolding sum delete lookup
sum-delete k [] d = omega arith
sum-delete k ((j, i) ∷ m) d = ground (arith, sum-delete k m d.1, eq_of_beq j k, d.0)

-- `ReserveRelayConn` keeps every limit and the total.
pub reserve-IsWithin :
    (m : Manager) (client_id : Bytes) → IsWithin m → IsWithin (reserve_relay_conn m client_id).1
unfolding reserve_relay_conn
reserve-IsWithin m client_id s =
    let conns = conns_of m client_id in
    elim (Bool-cases (ltb 0 m.cfg.total_conns && leb m.cfg.total_conns m.total_relay_conns)) [
      | inl full ↦ rw (full, reserve_relay_conn) s
      | inr room ↦
          elim (Bool-cases (ltb 0 m.cfg.conns_per_client && leb m.cfg.conns_per_client conns)) [
            | inl full ↦ rw (room, full, reserve_relay_conn) s
            | inr more ↦
                rw (room, more, reserve_relay_conn)
                  (record {
                    distinct =
                        insert-Distinct client_id (conns + 1) m.relay_conns_by_client s.distinct;
                    total_in = ground (arith, room);
                    client_in = λ k. ground (
                      arith,
                      more,
                      s.client_in k,
                      lookup-insert client_id k (conns + 1) m.relay_conns_by_client,
                      eq_of_beq client_id k,
                    );
                    total_is = ground (
                      arith,
                      s.total_is,
                      sum-insert client_id (conns + 1) m.relay_conns_by_client,
                    );
                  })
          ]
    ]

-- `ReleaseRelayConn` of a connection that the client has keeps every limit and the total.
pub release-IsWithin :
    (m : Manager) (client_id : Bytes)
    → IsWithin m
    → 0 < conns_of m client_id
    → IsWithin (release_relay_conn m client_id)
unfolding release_relay_conn
release-IsWithin m client_id s held =
    let conns = conns_of m client_id in
    let by_client = m.relay_conns_by_client in
    record {
      distinct = ground (
        arith,
        s.distinct,
        insert-Distinct client_id (conns - 1) by_client s.distinct,
        delete-Distinct client_id by_client s.distinct,
      );
      total_in = ground (arith, s.total_in);
      client_in = λ k. ground (
        arith,
        s.client_in k,
        lookup-insert client_id k (conns - 1) by_client,
        lookup-delete client_id k by_client,
        eq_of_beq client_id k,
      );
      total_is = ground (
        arith,
        held,
        s.total_is,
        sum-insert client_id (conns - 1) by_client,
        sum-delete client_id by_client s.distinct,
      );
    }

-- A connection that is reserved and then released leaves every client's count and the total as they
-- were.
pub release-reserve :
    (m : Manager) (client_id k : Bytes)
    → (reserve_relay_conn m client_id).0 ≡ none
    → let m' = release_relay_conn (reserve_relay_conn m client_id).1 client_id in
      (conns_of m' k ≡ conns_of m k) × (m'.total_relay_conns ≡ m.total_relay_conns)
unfolding reserve_relay_conn release_relay_conn
release-reserve m client_id k e =
    let conns = conns_of m client_id in
    let by_client = m.relay_conns_by_client in
    let by_client' = insert client_id (conns + 1) by_client in
    ground (
      arith,
      e,
      beq_refl client_id,
      lookup-insert client_id client_id (conns + 1) by_client,
      lookup-insert client_id k (conns + 1) by_client,
      lookup-insert client_id k conns by_client',
      lookup-delete client_id k by_client',
      eq_of_beq client_id k,
    )

-- The calls of the relay manager: a release is of a connection that was reserved.
pub data Op : Type 0 where
  reserve : Bytes → Op
  release : Bytes → Op

unfoldable pub run : Manager → List Op → Manager
run m [] = m
run m (reserve client_id ∷ ops) = run (reserve_relay_conn m client_id).1 ops
run m (release client_id ∷ ops) =
    run (if ltb 0 (conns_of m client_id) then release_relay_conn m client_id else m) ops

run_from-IsWithin : (m : Manager) (ops : List Op) → IsWithin m → IsWithin (run m ops)
unfolding run
run_from-IsWithin m [] s = s
run_from-IsWithin m (reserve client_id ∷ ops) s =
    run_from-IsWithin (reserve_relay_conn m client_id).1 ops (reserve-IsWithin m client_id s)
run_from-IsWithin m (release client_id ∷ ops) s = elim (Bool-cases (ltb 0 (conns_of m client_id))) [
  | inl held ↦
      rw (held, run)
        (run_from-IsWithin (release_relay_conn m client_id) ops
          (release-IsWithin m client_id s (ltb→lt 0 (conns_of m client_id) held)))
  | inr free ↦ rw (free, run) (run_from-IsWithin m ops s)
]

-- Whatever connections are reserved, and released once reserved, no limit is ever exceeded and the
-- total is the sum of the clients' counts.
pub run-IsWithin : (cfg : Config) (ops : List Op) → IsWithin (run (new_manager cfg) ops)
unfolding new_manager sum lookup
run-IsWithin cfg ops = run_from-IsWithin (new_manager cfg) ops (record {
  distinct = tt;
  total_in = inr (omega arith);
  client_in = λ k. inr (omega arith);
  total_is = refl;
})
