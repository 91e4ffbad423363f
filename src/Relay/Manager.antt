-- ===== src/Relay/Manager.antt =====
-- internal/relay/manager.go: the relay connections of all clients, over the limits and the store with its
-- timing wheel. Times are nanoseconds, and a size or a timeout of zero or below is 0. A call is one step,
-- and `Close` one with the wait for the connection's loops, which end when its target is closed. The
-- connections to the targets themselves are not part of the state.
pub mod Conns
pub mod Accounts
pub mod Steps
pub mod Runs
pub mod Stuck
pub mod Owners
use vlf_proto.Base.{
  ℕ, zero, suc, ◌+◌, ◌-◌, ◌*◌, ◌/◌, Bool, true, false, not, ◌||◌, ◌&&◌, List, [], ◌∷◌, ◌++◌, ltb,
  leb, ◌==◌, if◌then◌else◌, length, take, drop, Option, none, some, Result, ok, err,
}
use vlf_proto.Base.Text.{codes}
use vlf_proto.Base.Assoc.{Eq, bytes_eq, bytes_beq, Map, lookup, insert, delete}
use vlf_proto.Wire.{Bytes}
use vlf_proto.Limits
use vlf_proto.Limits.{LimitError, reserve_relay_conn, release_relay_conn, allow_relay_bytes}
use vlf_proto.Session.{Net}
use vlf_proto.Store.Wheel.{Wheel, tick}
use vlf_proto.Store.RelayStore
use vlf_proto.Store.RelayStore.{RelayStore, RelayState, new_relay_store}
use vlf_proto.Relay.Conn
use vlf_proto.Relay.Conn.{RelayConn, ReadEnd, ConnError, new_relay_conn, expires_in_ms}

pub data RelayError : Type 0 where
  unknown_conn : RelayError
  forbidden : RelayError
  bad_request : RelayError
  limited : LimitError → RelayError
  dial_failed : Bytes → RelayError
  no_conn_id : RelayError
  conn_error : ConnError → RelayError

pub record OpenRequest : Type 0 where
  pub proto : Bytes
  pub dst_host : Bytes
  pub dst_port : ℕ

pub record ManagerConfig : Type 0 where
  pub idle_timeout : ℕ
  pub recv_window : ℕ
  pub send_window : ℕ

-- A callback of the wheel is the connection and the client that it closes.
pub record Manager : Type 0 where
  pub cfg : ManagerConfig
  pub limits : Limits.Manager
  pub ttl_store : RelayStore (Bytes × Bytes)
  pub conns : Map Bytes RelayConn
  pub active_relay_conns : ℕ

unfoldable pub new_manager : ManagerConfig → Limits.Manager → Wheel (Bytes × Bytes) → Manager
new_manager cfg limits wheel = record {
  cfg = cfg;
  limits = limits;
  ttl_store = new_relay_store wheel;
  conns = [];
  active_relay_conns = 0;
}

abbrev pub millis : ℕ → ℕ
millis now = now / 1000000

unfoldable pub is_bad_request : OpenRequest → Bool
is_bad_request req =
    not (bytes_beq req.proto (codes "tcp"))
    || (length req.dst_host == 0)
    || (req.dst_port == 0)
    || ltb 65535 req.dst_port

-- The end of `Open`, from the connection's id on.
unfoldable pub add_conn : Manager → ℕ → Bytes → ℕ → Bytes → Manager
add_conn m now client_id target conn_id =
    let conn =
      new_relay_conn conn_id client_id target m.cfg.recv_window m.cfg.send_window m.cfg.idle_timeout
        (millis now) in
    let st : RelayState = record {
      conn_id = conn_id;
      client_id = client_id;
      last_active = now;
      created_at = now;
    } in
    record m {
      conns = insert conn_id conn m.conns;
      ttl_store = RelayStore.add m.ttl_store st m.cfg.idle_timeout (some (conn_id, client_id));
      active_relay_conns = m.active_relay_conns + 1;
    }

-- `Open`, with the id that `newConnID` gives, if it gives one.
unfoldable pub open_conn :
    Net → Manager → ℕ → Bytes → OpenRequest → Option Bytes → Result RelayError Bytes × Manager
open_conn net m now client_id req new_conn_id =
    let (error, limits) = reserve_relay_conn m.limits client_id in
    let addr = net.join_host_port req.dst_host (net.format_port req.dst_port) in
    let reserved = record m { limits = limits } in
    let released = record m { limits = release_relay_conn limits client_id } in
    if is_bad_request req then (err bad_request, m) else elim error [
      | some e ↦ (err (limited e), m)
      | none ↦ elim (net.dial_tcp addr) [
        | err reason ↦ (err (dial_failed reason), released)
        | ok target ↦ elim new_conn_id [
          | none ↦ (err no_conn_id, released)
          | some conn_id ↦ (ok conn_id, add_conn reserved now client_id target conn_id)
        ]
      ]
    ]

unfoldable pub get_owned_conn : Manager → Bytes → Bytes → Result RelayError RelayConn
get_owned_conn m client_id conn_id = elim (lookup conn_id m.conns) [
  | none ↦ err unknown_conn
  | some conn ↦ if not (bytes_beq conn.client_id client_id) then err forbidden else ok conn
]

unfoldable pub touch : Manager → ℕ → Bytes → Manager
touch m now conn_id = record m {
  ttl_store = (RelayStore.touch m.ttl_store now conn_id m.cfg.idle_timeout).0;
}

-- A connection that has changed.
abbrev pub put_conn : Manager → Bytes → RelayConn → Manager
put_conn m conn_id conn = record m { conns = insert conn_id conn m.conns }

unfoldable pub on_conn_closed : Manager → Bytes → Bytes → Manager
on_conn_closed m conn_id client_id = elim (lookup conn_id m.conns) [
  | none ↦ m
  | some conn ↦ record m {
    conns = delete conn_id m.conns;
    ttl_store = (RelayStore.delete_conn m.ttl_store conn_id).0;
    limits = release_relay_conn m.limits client_id;
    active_relay_conns = m.active_relay_conns - 1;
  }
]

-- `Close` of a connection: once. A second call returns at once here; in the code it waits for the first.
unfoldable pub close_conn : Manager → RelayConn → Manager
close_conn m conn = if conn.closed then m else on_conn_closed m conn.id conn.client_id

unfoldable pub close : Manager → Bytes → Bytes → Bool × Manager
close m conn_id client_id = elim (get_owned_conn m client_id conn_id) [
  | err e ↦ (false, m)
  | ok conn ↦ (true, close_conn m conn)
]

-- The end of `Send`, from the connection on: how much is accepted and how much queued.
unfoldable pub send_to :
    Manager → ℕ → Bytes → RelayConn → Bytes → Result RelayError (ℕ × ℕ) × Manager
send_to m now conn_id conn payload =
    let (result, conn') = Conn.enqueue conn (millis now) payload in
    let m' = put_conn m conn_id conn' in
    elim result [
      | err e ↦ (err (conn_error e), m')
      | ok (accepted, queued) ↦
          (ok (accepted, queued), if ltb 0 accepted then touch m' now conn_id else m')
    ]

unfoldable pub send : Manager → ℕ → Bytes → Bytes → Bytes → Result RelayError (ℕ × ℕ) × Manager
send m now client_id conn_id payload = elim (get_owned_conn m client_id conn_id) [
  | err e ↦ (err e, m)
  | ok conn ↦
      let (error, limits) = allow_relay_bytes m.limits now client_id (length payload) in
      let m' = record m { limits = limits } in
      elim error [ some e ↦ (err (limited e), m') | none ↦ send_to m' now conn_id conn payload ]
]

abbrev pub recv_max : ManagerConfig → ℕ → ℕ
recv_max cfg max =
    let max' = if max == 0 then 32768 else max in
    if ltb cfg.recv_window max' then cfg.recv_window else max'

-- The end of `Recv`, from the connection on.
unfoldable pub recv_from :
    Manager → ℕ → Bytes → Bytes → RelayConn → ℕ → Result RelayError (Bytes × Bool) × Manager
recv_from m now client_id conn_id conn max =
    let (result, conn') = Conn.recv conn (millis now) (recv_max m.cfg max) in
    let m' = put_conn m conn_id conn' in
    elim result [
      | err e ↦ (err (conn_error e), m')
      | ok (bytes, eos) ↦
          let m'' = if ltb 0 (length bytes) then touch m' now conn_id else m' in
          (
            ok (bytes, eos),
            if eos && (length bytes == 0) then (close m'' conn_id client_id).1 else m'',
          )
    ]

unfoldable pub recv : Manager → ℕ → Bytes → Bytes → ℕ → Result RelayError (Bytes × Bool) × Manager
recv m now client_id conn_id max = elim (get_owned_conn m client_id conn_id) [
  | err e ↦ (err e, m)
  | ok conn ↦ recv_from m now client_id conn_id conn max
]

-- `Ping`: in how many milliseconds the connection expires.
unfoldable pub ping : Manager → ℕ → Bytes → Bytes → Result RelayError ℕ × Manager
ping m now client_id conn_id = elim (get_owned_conn m client_id conn_id) [
  | err e ↦ (err e, m)
  | ok conn ↦
      let conn' = Conn.ping conn (millis now) in
      (ok (expires_in_ms conn' now), touch (put_conn m conn_id conn') now conn_id)
]

-- A round of the read loop of a connection. Where it calls `Close`, it waits in it for itself, and
-- `onConnClosed` is not reached.
unfoldable pub target_read : Manager → ℕ → Bytes → Bytes → ReadEnd → Manager
target_read m now conn_id bytes end = elim (lookup conn_id m.conns) [
  | none ↦ m
  | some conn ↦ put_conn m conn_id (Conn.target_read conn (millis now) bytes end).1
]

-- A round of the write loop of a connection.
unfoldable pub upstream_write : Manager → ℕ → Bytes → Option ℕ → Manager
upstream_write m now conn_id failed = elim (lookup conn_id m.conns) [
  | none ↦ m
  | some conn ↦ put_conn m conn_id (Conn.upstream_write conn (millis now) failed).1
]

-- The callbacks of a tick, one after another.
unfoldable pub close_all : Manager → List (Bytes × Bytes) → Manager
close_all m [] = m
close_all m ((conn_id, client_id) ∷ expired) = close_all (close m conn_id client_id).1 expired

unfoldable pub tick_wheel : Manager → Manager
tick_wheel m =
    let (wheel, expired) = tick m.ttl_store.wheel in
    close_all (record m { ttl_store = record m.ttl_store { wheel = wheel } }) expired

-- `Shutdown` up to the end of the wheel.
unfoldable pub shutdown : Manager → Map Bytes RelayConn → Manager
shutdown m [] = m
shutdown m ((conn_id, conn) ∷ snapshot) = shutdown (close m conn_id conn.client_id).1 snapshot

-- What happens to the manager, one after another.
pub data Event : Type 0 where
  opens : Net → ℕ → Bytes → OpenRequest → Option Bytes → Event
  sends : ℕ → Bytes → Bytes → Bytes → Event
  recvs : ℕ → Bytes → Bytes → ℕ → Event
  pings : ℕ → Bytes → Bytes → Event
  closes : Bytes → Bytes → Event
  target_reads : ℕ → Bytes → Bytes → ReadEnd → Event
  upstream_writes : ℕ → Bytes → Option ℕ → Event
  ticks : Event
  shuts_down : Event

unfoldable pub step : Manager → Event → Manager
step m (opens net now client_id req conn_id) = (open_conn net m now client_id req conn_id).1
step m (sends now client_id conn_id payload) = (send m now client_id conn_id payload).1
step m (recvs now client_id conn_id max) = (recv m now client_id conn_id max).1
step m (pings now client_id conn_id) = (ping m now client_id conn_id).1
step m (closes conn_id client_id) = (close m conn_id client_id).1
step m (target_reads now conn_id bytes end) = target_read m now conn_id bytes end
step m (upstream_writes now conn_id failed) = upstream_write m now conn_id failed
step m ticks = tick_wheel m
step m shuts_down = shutdown m m.conns

unfoldable pub run : Manager → List Event → Manager
run m [] = m
run m (event ∷ events) = run (step m event) events
