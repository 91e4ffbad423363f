-- ===== src/Session/Server/Tests.antt =====
-- A run of a gateway's sessions, and the theorem at it.
use vlf_proto.Base.{ℕ, [], ◌∷◌, none, ◌≡◌, refl}
use vlf_proto.Base.Assoc.{nat_eq, bytes_eq, lookup, insert, delete}
use vlf_proto.Wire.{Bytes}
use vlf_proto.Limits
use vlf_proto.Store.SessionStore.{new_session_store, add, touch, delete_session, count}
use vlf_proto.Session.Server.{
  Config, Server, new_server, accept, register_session, touch_session, unregister_session, Steps,
  stay, then, accepts, registers, touches, unregisters, shutdown,
}
use vlf_proto.Session.Server.Registry.{IsAgreed, registry_agrees}

abbrev one_byte : ℕ → Bytes
one_byte n = n ∷ []

abbrev small_cfg : Config
small_cfg = record { idle_timeout = 60; datagram_workers = 0; datagram_queue = 8 }

abbrev no_limits : Limits.Manager
no_limits = Limits.new_manager (record {
  conns_per_client = 0;
  total_conns = 0;
  bytes_per_minute_per_client = 0;
  bytes_per_minute_per_session = 0;
  udp_pps = 0;
})

abbrev empty_server : Server
empty_server = new_server small_cfg no_limits

abbrev two_sessions : Server
two_sessions =
    register_session one_byte (register_session one_byte (accept empty_server).0 1 (7 ∷ []) 5) 2
      (8 ∷ []) 6

abbrev one_left : Server
one_left = unregister_session one_byte (touch_session one_byte two_sessions 2 9) 1

left_of_two :
    (shutdown two_sessions ≡ 1 ∷ 2 ∷ [])
    × (shutdown one_left ≡ 2 ∷ [])
    × (count one_left.store ≡ 1)
    × (one_left.active_sessions ≡ 1)
unfolding shutdown new_server accept register_session touch_session unregister_session
    new_session_store add touch delete_session count lookup insert delete
left_of_two = (refl, refl, refl, refl)

first_is_new : lookup 1 (accept empty_server).0.sessions ≡ none
unfolding accept new_server lookup
first_is_new = refl

second_is_new :
    lookup 2 (register_session one_byte (accept empty_server).0 1 (7 ∷ []) 5).sessions ≡ none
unfolding accept new_server register_session lookup insert
second_is_new = refl

abbrev some_steps : Steps one_byte empty_server one_left
some_steps =
    then
      (then
        (then (then (then stay accepts) (registers 1 (7 ∷ []) 5 first_is_new))
          (registers 2 (8 ∷ []) 6 second_is_new))
        (touches 2 9))
      (unregisters 1)

registry_agrees_example : IsAgreed one_left
registry_agrees_example = registry_agrees one_byte small_cfg no_limits one_left some_steps
