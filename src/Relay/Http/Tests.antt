-- ===== src/Relay/Http/Tests.antt =====
-- The relay lane at concrete managers. The functions of Go's library are stood in for by concrete ones of
-- their types.
use vlf_proto.Base.{◌<◌, true, List, [], ◌∷◌, ◌++◌, length, some, ok, ◌≡◌, ◌⊎◌, refl}
use vlf_proto.Base.Text.{codes}
use vlf_proto.Base.Assoc.{bytes_eq, bytes_beq, lookup, insert}
use vlf_proto.Wire.{Bytes}
use vlf_proto.Auth.Replay.{new_replay_cache}
use vlf_proto.Auth.Replay.Laws.{new_replay_cache-IsTidy}
use vlf_proto.Auth.Verifier.{Std, Verifier}
use vlf_proto.Limits
use vlf_proto.Limits.{reserve_relay_conn, release_relay_conn}
use vlf_proto.Limits.Conns.{conns_of}
use vlf_proto.Session.{Net}
use vlf_proto.Store.Wheel.{Wheel, new_wheel}
use vlf_proto.Relay.RingBuffer
use vlf_proto.Relay.Conn
use vlf_proto.Relay.Conn.{RelayConn, new_relay_conn, goes_on}
use vlf_proto.Relay.Manager.{
  Manager, ManagerConfig, OpenRequest, forbidden, new_manager, is_bad_request, add_conn, open_conn,
  target_read, millis, Event, opens, closes, ticks, run, step,
}
use vlf_proto.Relay.Manager.Accounts.{IsAccounted}
use vlf_proto.Relay.Manager.Runs.{IsFresh, AreFresh, limits_agree}
use vlf_proto.Relay.Manager.Stuck.{StuckAt, overflow_keeps_limit}
use vlf_proto.Relay.Manager.Owners.{Untouched}
use vlf_proto.Relay.Http.{HttpRequest, Web, status_for_error, to_close, with_auth}
use vlf_proto.Relay.Http.Access.{IsSignedBy, only_owner_reaches_conn}

abbrev net : Net
net = record {
  ip_string = λ ip. ip;
  join_host_port = λ host port. host ++ (58 ∷ port);
  format_port = λ port. port ∷ [];
  dial_tcp = λ addr. ok 5;
  resolve_udp = λ addr. ok addr;
  dial_udp = λ addr. ok 6;
  writes = true;
}

abbrev cfg : ManagerConfig
cfg = record { idle_timeout = 1000000000; recv_window = 4; send_window = 8 }

abbrev limits_config : Limits.Config
limits_config = record {
  conns_per_client = 2;
  total_conns = 0;
  bytes_per_minute_per_client = 0;
  bytes_per_minute_per_session = 0;
  udp_pps = 0;
}

abbrev wheel : Wheel (Bytes × Bytes)
wheel = new_wheel 1000000000 4

abbrev request : OpenRequest
request = record { proto = codes "tcp"; dst_host = 104 ∷ []; dst_port = 80 }

abbrev conn_id : Bytes
conn_id = 9 ∷ []

abbrev client : Bytes
client = 7 ∷ []

abbrev start : Manager
start = new_manager cfg (Limits.new_manager limits_config) wheel

abbrev opening : List Event
opening = opens net 5000000000 client request (some conn_id) ∷ []

opening-AreFresh : AreFresh start opening
unfolding AreFresh IsFresh new_manager lookup
opening-AreFresh = (refl, tt)

limits_agree_example : IsAccounted (run start opening)
limits_agree_example = limits_agree cfg limits_config wheel opening opening-AreFresh

opened-IsAccounted : IsAccounted (run start opening)
opened-IsAccounted = limits_agree cfg limits_config wheel opening opening-AreFresh

abbrev conn : RelayConn
conn = new_relay_conn conn_id client 5 4 8 1000000000 5000

opened_conn : lookup conn_id (run start opening).conns ≡ some conn
unfolding run step open_conn is_bad_request add_conn reserve_relay_conn new_manager
    Limits.new_manager lookup insert bytes_beq codes
opened_conn = refl

-- Five bytes are more than the receive window.
overflow_read :
    (Conn.target_read conn (millis 6000000000) (1 ∷ 2 ∷ 3 ∷ 4 ∷ 5 ∷ []) goes_on).0 ≡ true
unfolding Conn.target_read RingBuffer.write RingBuffer.new_ring_buffer new_relay_conn
overflow_read = refl

overflow-AreFresh :
    AreFresh
      (target_read (run start opening) 6000000000 conn_id (1 ∷ 2 ∷ 3 ∷ 4 ∷ 5 ∷ []) goes_on)
      (closes conn_id client ∷ ticks ∷ [])
unfolding AreFresh IsFresh
overflow-AreFresh = (tt, (tt, tt))

overflow_keeps_limit_example :
    let m' =
      run
        (target_read (run start opening) 6000000000 conn_id (1 ∷ 2 ∷ 3 ∷ 4 ∷ 5 ∷ []) goes_on)
        (closes conn_id client ∷ ticks ∷ []) in
    StuckAt conn_id client m' × (0 < conns_of m'.limits client)
unfolding new_relay_conn
overflow_keeps_limit_example =
    overflow_keeps_limit (run start opening) 6000000000 conn_id conn (1 ∷ 2 ∷ 3 ∷ 4 ∷ 5 ∷ [])
      goes_on (closes conn_id client ∷ ticks ∷ []) opened-IsAccounted opened_conn overflow_read
      overflow-AreFresh

abbrev std : Std
std = record {
  compute_hmac = λ secret payload. secret ++ payload;
  hash_body = λ body. body;
  encode_hex = λ bytes. bytes;
  decode_hex = λ bytes. some bytes;
  trim_space = λ s. s;
  to_upper = λ s. s;
  parse_int = λ s. some (length s);
  format_int = λ n. n ∷ [];
  format_uint = λ n. n ∷ [];
}

abbrev web : Web
web = record { decode_open = λ body. ok request; trim_space = λ s. s; atoi = λ s. ok (length s) }

abbrev verifier : Verifier
verifier = record {
  secrets = (7 ∷ [], 1 ∷ 2 ∷ []) ∷ [];
  replay = new_replay_cache 60000000000;
  clock_skew = 60000000000;
}

-- A close of client 7's connection that client 8 asks for.
abbrev close_request : HttpRequest
close_request = record {
  signed = record {
    method = codes "POST";
    path = codes "/v1/relay/close";
    client_header = 8 ∷ [];
    ts_header = 1 ∷ [];
    nonce_header = 1 ∷ [];
    sig_header = 1 ∷ [];
  };
  body = [];
  conn_id = conn_id;
  max = [];
}

only_owner_reaches_conn_example :
    Untouched conn_id conn
      (with_auth std web net to_close verifier (run start opening) 6000000000 close_request).1
    ⊎ IsSignedBy std verifier close_request client
unfolding new_relay_conn
only_owner_reaches_conn_example =
    only_owner_reaches_conn web net conn_id conn std to_close verifier (run start opening)
      6000000000 close_request (new_replay_cache-IsTidy 60000000000) tt opened-IsAccounted
      opened_conn

status_run : status_for_error forbidden ≡ 403
unfolding status_for_error
status_run = refl
