-- ===== src/Config.antt =====
-- internal/config/config.go: the gateway's configuration, its defaults and its validation. A string is
-- the list of its bytes, a duration its nanoseconds, and a map that is nil is none. The file and the
-- YAML decoder, which changes the fields that the file names, are arguments; an error is told by its
-- kind.
pub mod Accepted
mod Tests
use vlf_proto.Base.{
  ℕ, zero, suc, ◌+◌, ◌*◌, Bool, true, false, List, [], ◌∷◌, ◌==◌, if◌then◌else◌, length, Option,
  none, some, Result, ok, err,
}
use vlf_proto.Base.Ints.{ℤ, pos, negsuc, is_zero, is_below, is_at_most_zero}
use vlf_proto.Base.Assoc.{Map}
use vlf_proto.Base.Text.{codes}
use vlf_proto.Wire.{Bytes}

pub record TlsConfig : Type 0 where
  pub cert_path : Bytes
  pub key_path : Bytes
  pub auto_generate : Bool

pub record LimitsConfig : Type 0 where
  pub max_conns_per_client : ℤ
  pub max_total_conns : ℤ
  pub max_bytes_per_minute_per_client : ℤ
  pub max_recv_window_bytes : ℤ
  pub relay_send_window_bytes : ℤ
  pub max_flows_per_session : ℤ
  pub max_udp_pps : ℤ
  pub session_datagram_workers : ℤ
  pub session_datagram_queue : ℤ
  pub max_bytes_per_minute_per_session : ℤ
  pub session_up_kbps : ℤ
  pub session_down_kbps : ℤ

pub record TimeoutsConfig : Type 0 where
  pub relay_idle : ℤ
  pub session_idle : ℤ
  pub dial_timeout : ℤ

pub record AuthConfig : Type 0 where
  pub clock_skew : ℤ
  pub replay_ttl : ℤ

pub record Config : Type 0 where
  pub listen_http : Bytes
  pub listen_quic : Bytes
  pub listen_tcp : Bytes
  pub allow_insecure_http : Bool
  pub protocol_id : Bytes
  pub log_level : Bytes
  pub max_dgram_payload : ℤ
  pub client_secrets : Option (Map Bytes Bytes)
  pub tls : TlsConfig
  pub limits : LimitsConfig
  pub timeouts : TimeoutsConfig
  pub auth : AuthConfig

abbrev pub seconds : ℕ → ℤ
seconds n = pos (n * 1000000000)

unfoldable pub default_config : Config
default_config = record {
  listen_http = codes ":8080";
  listen_quic = codes ":443";
  listen_tcp = codes ":443";
  allow_insecure_http = true;
  protocol_id = codes "vlf-runtime/0.1";
  log_level = codes "info";
  max_dgram_payload = pos 1200;
  client_secrets = some ((codes "smoke-client", codes "smoke-secret") ∷ []);
  tls = record {
    cert_path = codes "certs/dev.crt";
    key_path = codes "certs/dev.key";
    auto_generate = true;
  };
  limits = record {
    max_conns_per_client = pos 64;
    max_total_conns = pos 2048;
    max_bytes_per_minute_per_client = pos (32 * 1024 * 1024);
    max_recv_window_bytes = pos (64 * 1024);
    relay_send_window_bytes = pos (64 * 1024);
    max_flows_per_session = pos 128;
    max_udp_pps = pos 2000;
    session_datagram_workers = pos 4;
    session_datagram_queue = pos 4096;
    max_bytes_per_minute_per_session = pos (64 * 1024 * 1024);
    session_up_kbps = pos 20000;
    session_down_kbps = pos 20000;
  };
  timeouts = record {
    relay_idle = seconds 20;
    session_idle = seconds 60;
    dial_timeout = seconds 10;
  };
  auth = record { clock_skew = seconds 60; replay_ttl = seconds 60 };
}

abbrev pub or_text : Bytes → Bytes → Bytes
or_text text def = if length text == 0 then def else text

unfoldable pub or_number : ℤ → ℤ → ℤ
or_number n def = if is_zero n then def else n

unfoldable pub or_secrets :
    Option (Map Bytes Bytes) → Option (Map Bytes Bytes) → Option (Map Bytes Bytes)
or_secrets none def = def
or_secrets (some secrets) def = some secrets

unfoldable pub limits_defaults : LimitsConfig → LimitsConfig → LimitsConfig
limits_defaults l def = record {
  max_conns_per_client = or_number l.max_conns_per_client def.max_conns_per_client;
  max_total_conns = or_number l.max_total_conns def.max_total_conns;
  max_bytes_per_minute_per_client =
      or_number l.max_bytes_per_minute_per_client def.max_bytes_per_minute_per_client;
  max_recv_window_bytes = or_number l.max_recv_window_bytes def.max_recv_window_bytes;
  relay_send_window_bytes = or_number l.relay_send_window_bytes def.relay_send_window_bytes;
  max_flows_per_session = or_number l.max_flows_per_session def.max_flows_per_session;
  max_udp_pps = or_number l.max_udp_pps def.max_udp_pps;
  session_datagram_workers = or_number l.session_datagram_workers def.session_datagram_workers;
  session_datagram_queue = or_number l.session_datagram_queue def.session_datagram_queue;
  max_bytes_per_minute_per_session =
      or_number l.max_bytes_per_minute_per_session def.max_bytes_per_minute_per_session;
  session_up_kbps = or_number l.session_up_kbps def.session_up_kbps;
  session_down_kbps = or_number l.session_down_kbps def.session_down_kbps;
}

unfoldable pub apply_defaults : Config → Config
apply_defaults c =
    let def = default_config in
    record {
      listen_http = or_text c.listen_http def.listen_http;
      listen_quic = or_text c.listen_quic def.listen_quic;
      listen_tcp = or_text c.listen_tcp def.listen_tcp;
      allow_insecure_http = c.allow_insecure_http;
      protocol_id = or_text c.protocol_id def.protocol_id;
      log_level = or_text c.log_level def.log_level;
      max_dgram_payload = or_number c.max_dgram_payload def.max_dgram_payload;
      client_secrets = or_secrets c.client_secrets def.client_secrets;
      tls = record {
        cert_path = or_text c.tls.cert_path def.tls.cert_path;
        key_path = or_text c.tls.key_path def.tls.key_path;
        auto_generate = c.tls.auto_generate;
      };
      limits = limits_defaults c.limits def.limits;
      timeouts = record {
        relay_idle = or_number c.timeouts.relay_idle def.timeouts.relay_idle;
        session_idle = or_number c.timeouts.session_idle def.timeouts.session_idle;
        dial_timeout = or_number c.timeouts.dial_timeout def.timeouts.dial_timeout;
      };
      auth = record {
        clock_skew = or_number c.auth.clock_skew def.auth.clock_skew;
        replay_ttl = or_number c.auth.replay_ttl def.auth.replay_ttl;
      };
    }

pub data ConfigError : Type 0 where
  no_client_secrets : ConfigError
  small_dgram_payload : ConfigError
  bad_recv_window : ConfigError
  bad_send_window : ConfigError
  bad_datagram_workers : ConfigError
  bad_datagram_queue : ConfigError
  bad_relay_idle : ConfigError
  bad_session_idle : ConfigError
  bad_dial_timeout : ConfigError
  bad_clock_skew : ConfigError
  bad_replay_ttl : ConfigError

-- `len` of a map, which is 0 for nil.
unfoldable pub secret_count : Option (Map Bytes Bytes) → ℕ
secret_count none = 0
secret_count (some secrets) = length secrets

unfoldable pub validate : Config → Option ConfigError
validate c =
    if secret_count c.client_secrets == 0
    then some no_client_secrets
    else if is_below c.max_dgram_payload 256
    then some small_dgram_payload
    else if is_at_most_zero c.limits.max_recv_window_bytes
    then some bad_recv_window
    else if is_at_most_zero c.limits.relay_send_window_bytes
    then some bad_send_window
    else if is_at_most_zero c.limits.session_datagram_workers
    then some bad_datagram_workers
    else if is_at_most_zero c.limits.session_datagram_queue
    then some bad_datagram_queue
    else if is_at_most_zero c.timeouts.relay_idle
    then some bad_relay_idle
    else if is_at_most_zero c.timeouts.session_idle
    then some bad_session_idle
    else if is_at_most_zero c.timeouts.dial_timeout
    then some bad_dial_timeout
    else if is_at_most_zero c.auth.clock_skew
    then some bad_clock_skew
    else if is_at_most_zero c.auth.replay_ttl
    then some bad_replay_ttl
    else none

pub data LoadError : Type 0 where
  read_config : LoadError
  unmarshal_yaml : LoadError
  invalid : ConfigError → LoadError

unfoldable pub checked : Config → Option ConfigError → Result LoadError Config
checked c none = ok c
checked c (some reason) = err (invalid reason)

-- `Load`, of what `os.ReadFile` returns.
unfoldable pub load : (Bytes → Config → Option Config) → Option Bytes → Result LoadError Config
load unmarshal none = err read_config
load unmarshal (some raw) = elim (unmarshal raw default_config) [
  | none ↦ err unmarshal_yaml
  | some c ↦ checked (apply_defaults c) (validate (apply_defaults c))
]
