-- ===== src/Store/RelayStore/Indexes.antt =====
-- internal/store/relay_store.go: the index by client has the connections of the index by id.
use vlf_proto.Base.{
  ℕ, Bool, true, false, List, [], ◌∷◌, if◌then◌else◌, ◌&&◌, length, Option, none, some, ◌≡◌, refl,
  arith, Option-cases, inl, inr,
}
use vlf_proto.Base.Assoc.{bytes_eq, bytes_beq, Map, lookup, insert, delete}
use vlf_proto.Base.Assoc.Laws.{lookup-insert, lookup-delete, eq_of_beq}
use vlf_proto.Wire.{Bytes}
use vlf_proto.Store.Wheel.{Wheel}
use vlf_proto.Store.RelayStore.{
  RelayState, RelayStore, new_relay_store, Ids, or_empty, drop_conn, conns_of, add, touch,
  delete_conn,
}

-- Whether a connection is a client's, by the state under its id.
abbrev pub is_owner : Bytes → Option RelayState → Bool
is_owner client_id none = false
is_owner client_id (some st) = bytes_beq st.client_id client_id

abbrev pub is_in : Option (Unit {0}) → Bool
is_in none = false
is_in (some u) = true

nothing : (k : Bytes) → lookup {V = Unit {0}} k [] ≡ none
unfolding lookup
nothing k = refl

lookup-nil : {V : Type 0} (k : Bytes) (m : Map Bytes V) → length m ≡ 0 → lookup k m ≡ none
unfolding lookup
lookup-nil k [] h = refl
lookup-nil k ((j, v) ∷ m) h = absurd (omega (arith, h))

-- What is left of the clients' sets: the id is out of its client's.
lookup-drop_conn :
    (st : RelayState) (conn_id client_id k : Bytes) (by_client : Map Bytes Ids)
    → is_in (lookup k (or_empty (lookup client_id (drop_conn st conn_id by_client)))) ≡ (
        if bytes_beq st.client_id client_id && bytes_beq conn_id k
        then false
        else is_in (lookup k (or_empty (lookup client_id by_client))))
unfolding drop_conn
lookup-drop_conn st conn_id client_id k by_client =
    elim (Option-cases (lookup st.client_id by_client)) [
      | inl e ↦ ground (arith, e, eq_of_beq st.client_id client_id, nothing k)
      | inr (ids, e) ↦
          let ids' = delete conn_id ids in
          ground (
            arith,
            e,
            nothing k,
            lookup-delete conn_id k ids,
            lookup-insert st.client_id client_id ids' by_client,
            lookup-delete st.client_id client_id (insert st.client_id ids' by_client),
            lookup-nil k ids',
            eq_of_beq st.client_id client_id,
          )
    ]

module _ {C : Type 0} where
  -- A connection is in a client's set exactly when its state names that client.
  pub record IsIndexed (s : RelayStore C) : Type 0 where
    pub agree :
        (client_id conn_id : Bytes)
        → is_in (lookup conn_id (conns_of s client_id))
          ≡ is_owner client_id (lookup conn_id s.by_id)

  pub new_relay_store-IsIndexed : (wheel : Wheel C) → IsIndexed (new_relay_store wheel)
  unfolding new_relay_store lookup
  new_relay_store-IsIndexed wheel = record { agree = λ client_id conn_id. refl }

  -- `Add` of an id that is not in use keeps the indexes in agreement.
  pub add-IsIndexed :
      (s : RelayStore C) (st : RelayState) (ttl : ℕ) (on_expire : Option C)
      → IsIndexed s
      → lookup st.conn_id s.by_id ≡ none
      → IsIndexed (add s st ttl on_expire)
  unfolding add
  add-IsIndexed s st ttl on_expire h fresh = record {
    agree = λ client_id conn_id.
        let ids = conns_of s st.client_id in
        ground (
          arith,
          h.agree client_id conn_id,
          h.agree st.client_id conn_id,
          fresh,
          lookup-insert st.conn_id conn_id st s.by_id,
          lookup-insert st.conn_id conn_id tt ids,
          lookup-insert st.client_id client_id (insert st.conn_id tt ids) s.by_client,
          eq_of_beq st.conn_id conn_id,
          eq_of_beq st.client_id client_id,
        );
  }

  pub touch-IsIndexed :
      (s : RelayStore C) (now : ℕ) (conn_id : Bytes) (ttl : ℕ)
      → IsIndexed s
      → IsIndexed (touch s now conn_id ttl).0
  unfolding touch
  touch-IsIndexed s now conn_id ttl h = elim (Option-cases (lookup conn_id s.by_id)) [
    | inl e ↦ rw (e, touch) h
    | inr (st, e) ↦
        rw (e, touch)
          (record {
            agree = λ client_id k. ground (
              arith,
              e,
              h.agree client_id k,
              lookup-insert conn_id k (record st { last_active = now }) s.by_id,
              eq_of_beq conn_id k,
            );
          })
  ]

  -- `Delete` keeps the indexes in agreement, and returns the state under the id.
  pub delete-IsIndexed :
      (s : RelayStore C) (conn_id : Bytes) → IsIndexed s → IsIndexed (delete_conn s conn_id).0
  unfolding delete_conn
  delete-IsIndexed s conn_id h = elim (Option-cases (lookup conn_id s.by_id)) [
    | inl e ↦ rw (e, delete_conn) h
    | inr (st, e) ↦
        rw (e, delete_conn)
          (record {
            agree = λ client_id k. ground (
              arith,
              e,
              h.agree client_id k,
              h.agree client_id conn_id,
              lookup-drop_conn st conn_id client_id k s.by_client,
              lookup-delete conn_id k s.by_id,
              eq_of_beq conn_id k,
            );
          })
  ]

-- The calls that change a store; an id that is added is not in use.
pub data Op (C : Type 0) : Type 0 where
  adds : RelayState → ℕ → Option C → Op C
  touches : ℕ → Bytes → ℕ → Op C
  deletes : Bytes → Op C

module _ {C : Type 0} where
  unfoldable pub run : RelayStore C → List (Op C) → RelayStore C
  run s [] = s
  run s (adds st ttl on_expire ∷ ops) =
      run (elim (lookup st.conn_id s.by_id) [ none ↦ add s st ttl on_expire | some _ ↦ s ]) ops
  run s (touches now conn_id ttl ∷ ops) = run (touch s now conn_id ttl).0 ops
  run s (deletes conn_id ∷ ops) = run (delete_conn s conn_id).0 ops

  run_from-IsIndexed : (s : RelayStore C) (ops : List (Op C)) → IsIndexed s → IsIndexed (run s ops)
  unfolding run
  run_from-IsIndexed s [] h = h
  run_from-IsIndexed s (adds st ttl on_expire ∷ ops) h =
      elim (Option-cases (lookup st.conn_id s.by_id)) [
        | inl e ↦
            rw (e, run)
              (run_from-IsIndexed (add s st ttl on_expire) ops
                (add-IsIndexed s st ttl on_expire h e))
        | inr (old, e) ↦ rw (e, run) (run_from-IsIndexed s ops h)
      ]
  run_from-IsIndexed s (touches now conn_id ttl ∷ ops) h =
      run_from-IsIndexed (touch s now conn_id ttl).0 ops (touch-IsIndexed s now conn_id ttl h)
  run_from-IsIndexed s (deletes conn_id ∷ ops) h =
      run_from-IsIndexed (delete_conn s conn_id).0 ops (delete-IsIndexed s conn_id h)

  -- Whatever connections are added under new ids, touched and deleted, a connection is in a client's
  -- set exactly when the state under its id names that client.
  pub run-IsIndexed :
      (wheel : Wheel C) (ops : List (Op C)) → IsIndexed (run (new_relay_store wheel) ops)
  run-IsIndexed wheel ops =
      run_from-IsIndexed (new_relay_store wheel) ops (new_relay_store-IsIndexed wheel)
