-- ===== src/Relay/Manager/Accounts.antt =====
-- internal/relay/manager.go: the limits, the store and the gauge agree with the table of connections.
use vlf_proto.Base.{ℕ, ◌<◌, length, some, ◌≡◌, subst, arith, inl, inr, Bool-cases, Option-cases}
use vlf_proto.Base.Assoc.{bytes_eq, lookup, Distinct}
use vlf_proto.Base.Assoc.Laws.{
  lookup-insert, lookup-delete, eq_of_beq, beq_refl, insert-Distinct, delete-Distinct,
  length-insert, length-delete, present,
}
use vlf_proto.Wire.{Bytes}
use vlf_proto.Limits
use vlf_proto.Limits.{LimitError, reserve_relay_conn, release_relay_conn, allow_relay_bytes}
use vlf_proto.Limits.Conns.{conns_of, IsWithin, release-IsWithin}
use vlf_proto.Store.Wheel.{Wheel}
use vlf_proto.Store.RelayStore
use vlf_proto.Relay.Conn.{RelayConn}
use vlf_proto.Relay.Manager.{Manager, touch, put_conn, on_conn_closed, close_conn}
use vlf_proto.Relay.Manager.Steps.{IsKept}
use vlf_proto.Relay.Manager.Conns.{owned, owned-insert, owned-delete, Kin, conns_of-release}

-- Every connection stands under its id, once, and in the store. The limits have counted each client's
-- connections, which are within them, and the gauge has counted all.
pub record IsAccounted (m : Manager) : Type 0 where
  pub named : (k : Bytes) (conn : RelayConn) → lookup k m.conns ≡ some conn → conn.id ≡ k
  pub within : IsWithin m.limits
  pub distinct : Distinct m.conns
  pub counted : (client_id : Bytes) → conns_of m.limits client_id ≡ owned client_id m.conns
  pub active : m.active_relay_conns ≡ length m.conns
  pub stored : (k : Bytes) → present (lookup k m.ttl_store.by_id) ≡ present (lookup k m.conns)

-- The connection under an id changes, and stays whose it is.
put_conn-IsAccounted :
    (m : Manager) (k : Bytes) (conn conn' : RelayConn)
    → lookup k m.conns ≡ some conn
    → Kin conn conn'
    → IsAccounted m
    → IsAccounted (put_conn m k conn')
put_conn-IsAccounted m k conn conn' there (same_id, same_client, _) a = record {
  named = λ j found h. ground (
    arith,
    h,
    there,
    same_id,
    a.named j found,
    a.named k conn there,
    lookup-insert k j conn' m.conns,
    eq_of_beq k j,
  );
  within = a.within;
  distinct = insert-Distinct k conn' m.conns a.distinct;
  counted = λ client_id.
      ground
        (arith, a.counted client_id, there, same_client, owned-insert client_id k conn' m.conns);
  active = ground (arith, a.active, there, length-insert k conn' m.conns);
  stored = λ j. ground (arith, a.stored j, there, lookup-insert k j conn' m.conns, eq_of_beq k j);
}

touch-IsAccounted :
    (m : Manager) (now : ℕ) (k : Bytes) → IsAccounted m → IsAccounted (touch m now k)
unfolding touch RelayStore.touch
touch-IsAccounted m now k a = record {
  named = a.named;
  within = a.within;
  distinct = a.distinct;
  counted = a.counted;
  active = a.active;
  stored = λ j. elim (Option-cases (lookup k m.ttl_store.by_id)) [
    | inl e ↦ ground (arith, a.stored j, e)
    | inr (st, e) ↦ ground (
      arith,
      a.stored j,
      e,
      lookup-insert k j (record st { last_active = now }) m.ttl_store.by_id,
      eq_of_beq k j,
    )
  ];
}

-- The limits change in other things than the connections.
limits-IsAccounted :
    (m : Manager) (limits : Limits.Manager)
    → limits.relay_conns_by_client ≡ m.limits.relay_conns_by_client
    → limits.total_relay_conns ≡ m.limits.total_relay_conns
    → limits.cfg ≡ m.limits.cfg
    → IsAccounted m
    → IsAccounted (record m { limits = limits })
limits-IsAccounted m limits same total cfg a = record {
  named = a.named;
  within = record {
    distinct = rw same a.within.distinct;
    total_in = rw (total, cfg) a.within.total_in;
    client_in = λ client_id. rw (same, cfg) (a.within.client_in client_id);
    total_is = rw (total, same) a.within.total_is;
  };
  distinct = a.distinct;
  counted = λ client_id. rw same (a.counted client_id);
  active = a.active;
  stored = a.stored;
}

on_conn_closed-IsAccounted :
    (m : Manager) (k : Bytes) (conn : RelayConn)
    → lookup k m.conns ≡ some conn
    → IsAccounted m
    → IsAccounted (on_conn_closed m k conn.client_id)
unfolding on_conn_closed RelayStore.delete_conn
on_conn_closed-IsAccounted m k conn there a =
    let client = conn.client_id in
    let held : 0 < conns_of m.limits client =
      ground (
        arith,
        a.counted client,
        there,
        owned-delete client k m.conns a.distinct,
        beq_refl client,
      ) in
    rw (there, on_conn_closed)
      (record {
        named = λ j found h. ground (arith, h, a.named j found, lookup-delete k j m.conns);
        within = release-IsWithin m.limits client a.within held;
        distinct = delete-Distinct k m.conns a.distinct;
        counted = λ client_id. ground (
          arith,
          a.counted client_id,
          there,
          owned-delete client_id k m.conns a.distinct,
          conns_of-release m.limits client client_id,
        );
        active = ground (arith, a.active, there, length-delete k m.conns a.distinct);
        stored = λ j. elim (Option-cases (lookup k m.ttl_store.by_id)) [
          | inl e ↦ ground (arith, a.stored j, a.stored k, there, e)
          | inr (st, e) ↦ ground (
            arith,
            a.stored j,
            e,
            there,
            lookup-delete k j m.ttl_store.by_id,
            lookup-delete k j m.conns,
          )
        ];
      })

close_conn-IsAccounted :
    (m : Manager) (k : Bytes) (conn : RelayConn)
    → lookup k m.conns ≡ some conn
    → IsAccounted m
    → IsAccounted (close_conn m conn)
unfolding close_conn
close_conn-IsAccounted m k conn there a =
    let closed_now : IsAccounted (on_conn_closed m conn.id conn.client_id) =
      rw (a.named k conn there) (on_conn_closed-IsAccounted m k conn there a) in
    elim (Bool-cases conn.closed) [
      | inl over ↦ subst IsAccounted (ground (arith, over)) a
      | inr open_still ↦ subst IsAccounted (ground (arith, open_still)) closed_now
    ]

wheel-IsAccounted :
    (m : Manager) (wheel : Wheel (Bytes × Bytes))
    → IsAccounted m
    → IsAccounted (record m { ttl_store = record m.ttl_store { wheel = wheel } })
wheel-IsAccounted m wheel a = record {
  named = a.named;
  within = a.within;
  distinct = a.distinct;
  counted = a.counted;
  active = a.active;
  stored = a.stored;
}

-- The manager's parts keep the accounts.
pub IsAccounted-IsKept : IsKept IsAccounted
IsAccounted-IsKept = record {
  put = put_conn-IsAccounted;
  touches = touch-IsAccounted;
  counts = limits-IsAccounted;
  closes = close_conn-IsAccounted;
  wheels = wheel-IsAccounted;
}
