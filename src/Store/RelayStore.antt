-- ===== src/Store/RelayStore.antt =====
-- internal/store/relay_store.go: the relay connections by id and by client, over the timing wheel. A
-- call holds the mutex from its start to its end, so it is one step; the clock's reading is an
-- argument. A set of ids is a map to the unit.
pub mod Indexes
mod Tests
use vlf_proto.Base.{
  ℕ, Bool, true, false, List, [], ◌∷◌, ◌++◌, ◌==◌, if◌then◌else◌, length, Option, none, some,
}
use vlf_proto.Base.Assoc.{Eq, bytes_eq, Map, lookup, insert, delete}
use vlf_proto.Wire.{Bytes}
use vlf_proto.Store.Wheel
use vlf_proto.Store.Wheel.{Wheel, upsert}

abbrev pub Ids : Type 0
Ids = Map Bytes (Unit {0})

pub record RelayState : Type 0 where
  pub conn_id : Bytes
  pub client_id : Bytes
  pub last_active : ℕ
  pub created_at : ℕ

pub record RelayStore (C : Type 0) : Type 0 where
  pub by_id : Map Bytes RelayState
  pub by_client : Map Bytes Ids
  pub wheel : Wheel C

-- `relay:` and the id.
unfoldable pub relay_key : Bytes → Bytes
relay_key conn_id = (114 ∷ 101 ∷ 108 ∷ 97 ∷ 121 ∷ 58 ∷ []) ++ conn_id

abbrev pub or_empty : Option Ids → Ids
or_empty none = []
or_empty (some ids) = ids

-- `delete(set, connID)`, and the client where the set is then empty.
unfoldable pub drop_conn : RelayState → Bytes → Map Bytes Ids → Map Bytes Ids
drop_conn st conn_id by_client = elim (lookup st.client_id by_client) [
  | none ↦ by_client
  | some ids ↦
      let ids' = delete conn_id ids in
      if length ids' == 0
      then delete st.client_id (insert st.client_id ids' by_client)
      else insert st.client_id ids' by_client
]

module _ {C : Type 0} where
  unfoldable pub new_relay_store : Wheel C → RelayStore C
  new_relay_store wheel = record { by_id = []; by_client = []; wheel = wheel }

  abbrev pub conns_of : RelayStore C → Bytes → Ids
  conns_of s client_id = or_empty (lookup client_id s.by_client)

  unfoldable pub add : RelayStore C → RelayState → ℕ → Option C → RelayStore C
  add s st ttl on_expire = record {
    by_id = insert st.conn_id st s.by_id;
    by_client = insert st.client_id (insert st.conn_id tt (conns_of s st.client_id)) s.by_client;
    wheel = upsert s.wheel (relay_key st.conn_id) ttl on_expire;
  }

  unfoldable pub touch : RelayStore C → ℕ → Bytes → ℕ → RelayStore C × Bool
  touch s now conn_id ttl = elim (lookup conn_id s.by_id) [
    | none ↦ (s, false)
    | some st ↦
        let (wheel, there) = Wheel.touch s.wheel (relay_key conn_id) ttl in
        (
          record s {
            by_id = insert conn_id (record st { last_active = now }) s.by_id;
            wheel = wheel;
          },
          there,
        )
  ]

  unfoldable pub get : RelayStore C → Bytes → Option RelayState
  get s conn_id = lookup conn_id s.by_id

  unfoldable pub delete_conn : RelayStore C → Bytes → RelayStore C × Option RelayState
  delete_conn s conn_id = elim (lookup conn_id s.by_id) [
    | none ↦ (s, none)
    | some st ↦ (
      record {
        by_id = delete conn_id s.by_id;
        by_client = drop_conn st conn_id s.by_client;
        wheel = Wheel.remove s.wheel (relay_key conn_id);
      },
      some st,
    )
  ]

  unfoldable pub count_total : RelayStore C → ℕ
  count_total s = length s.by_id

  unfoldable pub count_by_client : RelayStore C → Bytes → ℕ
  count_by_client s client_id = length (conns_of s client_id)
