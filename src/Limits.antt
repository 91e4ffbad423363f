-- ===== src/Limits.antt =====
-- internal/limits/manager.go: the limits on relay connections, bytes and UDP packets. Each call holds
-- the mutex from its start to its end, so it is one step; the clock's reading is an argument, in
-- nanoseconds. A limit or a size of zero or below is 0 here, and a window counts fewer than 2 ^ 63
-- bytes. An error is told by its kind, without the numbers in its text.
pub mod Conns
pub mod Windows
pub mod Packets
mod Tests
use vlf_proto.Base.{
  ℕ, ◌+◌, ◌-◌, ◌*◌, ◌%◌, Bool, true, false, not, ◌&&◌, [], ltb, leb, ◌==◌, if◌then◌else◌, Option,
  none, some,
}
use vlf_proto.Base.Assoc.{Eq, nat_eq, bytes_eq, Map, lookup, insert, delete}
use vlf_proto.Wire.{Bytes}

pub data LimitError : Type 0 where
  max_conns_per_client : LimitError
  max_total_conns : LimitError
  max_bytes_per_minute : LimitError
  max_bytes_per_minute_per_session : LimitError
  max_udp_pps : LimitError

pub record Config : Type 0 where
  pub conns_per_client : ℕ
  pub total_conns : ℕ
  pub bytes_per_minute_per_client : ℕ
  pub bytes_per_minute_per_session : ℕ
  pub udp_pps : ℕ

pub record ByteWindow : Type 0 where
  pub window_start : ℕ
  pub bytes : ℕ

pub record PpsWindow : Type 0 where
  pub second_start : ℕ
  pub packets : ℕ

pub record Manager : Type 0 where
  pub cfg : Config
  pub total_relay_conns : ℕ
  pub relay_conns_by_client : Map Bytes ℕ
  pub relay_bytes_by_client : Map Bytes ByteWindow
  pub session_bytes : Map ℕ ByteWindow
  pub session_packets : Map ℕ PpsWindow

abbrev pub second : ℕ
second = 1000000000

abbrev pub minute : ℕ
minute = 60000000000

unfoldable pub new_manager : Config → Manager
new_manager cfg = record {
  cfg = cfg;
  total_relay_conns = 0;
  relay_conns_by_client = [];
  relay_bytes_by_client = [];
  session_bytes = [];
  session_packets = [];
}

-- A missing key reads as 0.
abbrev pub count : Option ℕ → ℕ
count none = 0
count (some n) = n

unfoldable pub reserve_relay_conn : Manager → Bytes → Option LimitError × Manager
reserve_relay_conn m client_id =
    let conns = count (lookup client_id m.relay_conns_by_client) in
    if ltb 0 m.cfg.total_conns && leb m.cfg.total_conns m.total_relay_conns
    then (some max_total_conns, m)
    else if ltb 0 m.cfg.conns_per_client && leb m.cfg.conns_per_client conns
    then (some max_conns_per_client, m)
    else (
      none,
      record m {
        total_relay_conns = m.total_relay_conns + 1;
        relay_conns_by_client = insert client_id (conns + 1) m.relay_conns_by_client;
      },
    )

unfoldable pub release_relay_conn : Manager → Bytes → Manager
release_relay_conn m client_id =
    let conns = count (lookup client_id m.relay_conns_by_client) in
    record m {
      total_relay_conns = m.total_relay_conns - 1;
      relay_conns_by_client =
          if ltb 1 conns
          then insert client_id (conns - 1) m.relay_conns_by_client
          else delete client_id m.relay_conns_by_client;
    }

-- The window of a key, a new one where there is none, and reset when a minute is over.
abbrev pub current_window : ℕ → Option ByteWindow → ByteWindow
current_window now none = record { window_start = now; bytes = 0 }
current_window now (some w) =
    if leb minute (now - w.window_start) then record { window_start = now; bytes = 0 } else w

-- The part of `AllowRelayBytes` and `AllowSessionBytes` behind their lookups.
unfoldable pub allow_bytes : ℕ → ℕ → Option ByteWindow → ℕ → Bool × ByteWindow
allow_bytes limit now window n =
    let w = current_window now window in
    if ltb 0 limit && ltb limit (w.bytes + n)
    then (false, w)
    else (true, record w { bytes = w.bytes + n })

unfoldable pub allow_relay_bytes : Manager → ℕ → Bytes → ℕ → Option LimitError × Manager
allow_relay_bytes m now client_id n =
    let (allowed, w) =
      allow_bytes m.cfg.bytes_per_minute_per_client now (lookup client_id m.relay_bytes_by_client)
        n in
    if n == 0 then (none, m) else (
      if allowed then none else some max_bytes_per_minute,
      record m { relay_bytes_by_client = insert client_id w m.relay_bytes_by_client },
    )

unfoldable pub allow_session_bytes : Manager → ℕ → ℕ → ℕ → Option LimitError × Manager
allow_session_bytes m now session_id n =
    let (allowed, w) =
      allow_bytes m.cfg.bytes_per_minute_per_session now (lookup session_id m.session_bytes) n in
    if n == 0 then (none, m) else (
      if allowed then none else some max_bytes_per_minute_per_session,
      record m { session_bytes = insert session_id w m.session_bytes },
    )

abbrev pub current_second : ℕ → Option PpsWindow → PpsWindow
current_second now none = record { second_start = now; packets = 0 }
current_second now (some w) =
    if not (w.second_start == now) then record { second_start = now; packets = 0 } else w

unfoldable pub allow_udp_packet : Manager → ℕ → ℕ → Option LimitError × Manager
allow_udp_packet m now session_id =
    let now' = now - now % second in
    let w = current_second now' (lookup session_id m.session_packets) in
    let w' = record w { packets = w.packets + 1 } in
    if ltb 0 m.cfg.udp_pps && leb m.cfg.udp_pps w.packets
    then (some max_udp_pps, record m { session_packets = insert session_id w m.session_packets })
    else (none, record m { session_packets = insert session_id w' m.session_packets })

unfoldable pub cleanup_session : Manager → ℕ → Manager
cleanup_session m session_id = record m {
  session_bytes = delete session_id m.session_bytes;
  session_packets = delete session_id m.session_packets;
}
