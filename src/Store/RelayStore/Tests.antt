-- ===== src/Store/RelayStore/Tests.antt =====
-- Runs of the relay store, and the theorem at a concrete one.
use vlf_proto.Base.{ℕ, [], ◌∷◌, some, none, ◌≡◌, refl}
use vlf_proto.Base.Assoc.{bytes_eq, bytes_beq, lookup, insert, delete}
use vlf_proto.Store.Wheel.{new_wheel, second}
use vlf_proto.Store.RelayStore.{
  RelayState, RelayStore, new_relay_store, add, delete_conn, drop_conn, count_by_client,
}
use vlf_proto.Store.RelayStore.Indexes.{IsIndexed, adds, touches, deletes, run, run-IsIndexed}

abbrev first : RelayState
first = record { conn_id = 1 ∷ []; client_id = 7 ∷ []; last_active = 0; created_at = 0 }

abbrev second_conn : RelayState
second_conn = record { conn_id = 2 ∷ []; client_id = 7 ∷ []; last_active = 0; created_at = 0 }

abbrev empty_store : RelayStore ℕ
empty_store = new_relay_store (new_wheel second 4)

two_of_client :
    count_by_client (add (add empty_store first second none) second_conn second none) (7 ∷ []) ≡ 2
unfolding count_by_client add new_relay_store lookup insert bytes_beq
two_of_client = refl

client_forgotten : (delete_conn (add empty_store first second none) (1 ∷ [])).0.by_client ≡ []
unfolding delete_conn drop_conn add new_relay_store lookup insert delete bytes_beq
client_forgotten = refl

run-IsIndexed_example : IsIndexed (
    run empty_store
      (adds first second (some 1) ∷ touches 5 (1 ∷ []) second ∷ deletes (1 ∷ []) ∷ []))
run-IsIndexed_example =
    run-IsIndexed (new_wheel second 4)
      (adds first second (some 1) ∷ touches 5 (1 ∷ []) second ∷ deletes (1 ∷ []) ∷ [])
