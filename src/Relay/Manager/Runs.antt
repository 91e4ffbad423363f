-- ===== src/Relay/Manager/Runs.antt =====
-- internal/relay/manager.go: whatever clients, targets and the wheel do, the limits and the store agree
-- with the table of connections.
use vlf_proto.Base.{
  ℕ, ◌+◌, ◌<◌, List, [], ◌∷◌, Option, none, some, ◌≡◌, refl, subst, arith, inl, inr, Bool-cases,
  Option-cases, Result-cases,
}
use vlf_proto.Base.Assoc.{bytes_eq, bytes_beq, lookup}
use vlf_proto.Base.Assoc.Laws.{lookup-insert, eq_of_beq, beq_refl, insert-Distinct, length-insert}
use vlf_proto.Wire.{Bytes}
use vlf_proto.Limits
use vlf_proto.Limits.{reserve_relay_conn, release_relay_conn}
use vlf_proto.Limits.Conns.{conns_of, IsWithin, reserve-IsWithin, release-IsWithin, run-IsWithin}
use vlf_proto.Session.{Net}
use vlf_proto.Store.Wheel.{Wheel}
use vlf_proto.Store.RelayStore
use vlf_proto.Store.RelayStore.{new_relay_store, RelayState}
use vlf_proto.Relay.Conn.{new_relay_conn}
use vlf_proto.Relay.Manager.{
  Manager, ManagerConfig, OpenRequest, new_manager, millis, is_bad_request, add_conn, open_conn,
  Event, opens, step, run,
}
use vlf_proto.Relay.Manager.Conns.{one_if, owned, owned-insert, conns_of-reserve, conns_of-release}
use vlf_proto.Relay.Manager.Steps.{step_keeps}
use vlf_proto.Relay.Manager.Accounts.{IsAccounted, IsAccounted-IsKept}

-- A connection that was reserved takes its place.
add_conn-IsAccounted :
    (m : Manager) (limits : Limits.Manager) (now : ℕ) (client_id : Bytes) (target : ℕ) (k : Bytes)
    → lookup k m.conns ≡ none
    → IsWithin limits
    → ((j : Bytes) → conns_of limits j ≡ conns_of m.limits j + one_if (bytes_beq client_id j))
    → IsAccounted m
    → IsAccounted (add_conn (record m { limits = limits }) now client_id target k)
unfolding add_conn RelayStore.add new_relay_conn
add_conn-IsAccounted m limits now client_id target k fresh within reserved a =
    let conn =
      new_relay_conn k client_id target m.cfg.recv_window m.cfg.send_window m.cfg.idle_timeout
        (millis now) in
    let st : RelayState = record {
      conn_id = k;
      client_id = client_id;
      last_active = now;
      created_at = now;
    } in
    record {
      named = λ j found h.
          ground (arith, h, a.named j found, lookup-insert k j conn m.conns, eq_of_beq k j);
      within = within;
      distinct = insert-Distinct k conn m.conns a.distinct;
      counted = λ j. ground (arith, a.counted j, reserved j, fresh, owned-insert j k conn m.conns);
      active = ground (arith, a.active, fresh, length-insert k conn m.conns);
      stored = λ j. ground (
        arith,
        a.stored j,
        lookup-insert k j conn m.conns,
        lookup-insert k j st m.ttl_store.by_id,
      );
    }

-- A reservation that is given back.
released-IsAccounted :
    (m : Manager) (client_id : Bytes)
    → (reserve_relay_conn m.limits client_id).0 ≡ none
    → IsAccounted m
    → IsAccounted (record m {
      limits = release_relay_conn (reserve_relay_conn m.limits client_id).1 client_id;
    })
released-IsAccounted m client_id allowed a =
    let limits = (reserve_relay_conn m.limits client_id).1 in
    let reserved = conns_of-reserve m.limits client_id in
    let held : 0 < conns_of limits client_id =
      ground (arith, reserved client_id allowed, beq_refl client_id) in
    record {
      named = a.named;
      within =
          release-IsWithin limits client_id (reserve-IsWithin m.limits client_id a.within) held;
      distinct = a.distinct;
      counted =
          λ j. omega (arith, a.counted j, reserved j allowed, conns_of-release limits client_id j);
      active = a.active;
      stored = a.stored;
    }

pub open_conn-IsAccounted :
    (net : Net) (m : Manager) (now : ℕ) (client_id : Bytes) (req : OpenRequest) (k : Option Bytes)
    → ((j : Bytes) → k ≡ some j → lookup j m.conns ≡ none)
    → IsAccounted m
    → IsAccounted (open_conn net m now client_id req k).1
unfolding open_conn
open_conn-IsAccounted net m now client_id req k fresh a =
    let (error, limits) = reserve_relay_conn m.limits client_id in
    let addr = net.join_host_port req.dst_host (net.format_port req.dst_port) in
    elim (Bool-cases (is_bad_request req)) [
      | inl bad ↦ subst IsAccounted (ground (arith, bad)) a
      | inr good ↦ elim (Option-cases error) [
        | inr (e, over) ↦ subst IsAccounted (ground (arith, good, over)) a
        | inl allowed ↦
            let released = released-IsAccounted m client_id allowed a in
            elim (Result-cases (net.dial_tcp addr)) [
              | inr (reason, failed) ↦
                  subst IsAccounted (ground (arith, good, allowed, failed)) released
              | inl (target, dialed) ↦ elim (Option-cases k) [
                | inl no_id ↦
                    subst IsAccounted (ground (arith, good, allowed, dialed, no_id)) released
                | inr (j, new_id) ↦
                    subst IsAccounted (ground (arith, good, allowed, dialed, new_id)) (
                      add_conn-IsAccounted m limits now client_id target j (fresh j new_id)
                        (reserve-IsWithin m.limits client_id a.within)
                        (λ i. conns_of-reserve m.limits client_id i allowed) a)
              ]
            ]
      ]
    ]

-- An id that `newConnID` gives is not in use.
unfoldable pub IsFresh : Manager → Event → Type 0
IsFresh m (opens net now client_id req (some conn_id)) = lookup conn_id m.conns ≡ none
IsFresh m event = Unit

unfoldable pub AreFresh : Manager → List Event → Type 0
AreFresh m [] = Unit
AreFresh m (event ∷ events) = IsFresh m event × AreFresh (step m event) events

pub fresh_id :
    (net : Net) (m : Manager) (now : ℕ) (client_id : Bytes) (req : OpenRequest) (k : Option Bytes)
    → IsFresh m (opens net now client_id req k)
    → (j : Bytes) → k ≡ some j
    → lookup j m.conns ≡ none
unfolding IsFresh
fresh_id net m now client_id req none fresh j h = cc
fresh_id net m now client_id req (some i) fresh j h = ground (arith, fresh, h)

step-IsAccounted :
    (m : Manager) (event : Event) → IsFresh m event → IsAccounted m → IsAccounted (step m event)
step-IsAccounted m event fresh a =
    step_keeps IsAccounted-IsKept m event
      (λ net now client_id req k opening.
        open_conn-IsAccounted net m now client_id req k
          (fresh_id net m now client_id req k (subst (IsFresh m) opening fresh)) a)
      a

run_from-IsAccounted :
    (m : Manager) (events : List Event)
    → AreFresh m events
    → IsAccounted m
    → IsAccounted (run m events)
unfolding run AreFresh
run_from-IsAccounted m [] fresh a = a
run_from-IsAccounted m (event ∷ events) fresh a =
    run_from-IsAccounted (step m event) events fresh.1 (step-IsAccounted m event fresh.0 a)

-- Whatever clients ask for, targets do and the wheel ends, as long as new ids are not in use: the limits
-- have counted exactly the connections of each client, which are within the limits, and the gauge has
-- counted all of them; every connection stands under its id, once, and the store has the same ids.
pub limits_agree :
    (cfg : ManagerConfig) (limits : Limits.Config) (wheel : Wheel (Bytes × Bytes))
    (events : List Event)
    → AreFresh (new_manager cfg (Limits.new_manager limits) wheel) events
    → IsAccounted (run (new_manager cfg (Limits.new_manager limits) wheel) events)
unfolding new_manager Limits.new_manager owned new_relay_store lookup
limits_agree cfg limits wheel events fresh =
    run_from-IsAccounted (new_manager cfg (Limits.new_manager limits) wheel) events fresh (record {
      named = λ k conn h. cc;
      within = unfold Limits.Conns.run in run-IsWithin limits [];
      distinct = tt;
      counted = λ client_id. refl;
      active = refl;
      stored = λ k. refl;
    })
