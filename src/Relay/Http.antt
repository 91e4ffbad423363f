-- ===== src/Relay/Http.antt =====
-- internal/relay/http.go: the requests of the relay lane. What the source uses of net/http, encoding/json
-- and strconv is a record of functions; an answer is its status with what its body tells. The metrics, the
-- profiles and the health check are left out, and a body is read without an error.
pub mod Access
mod Tests
use vlf_proto.Base.{
  ℕ, ◌+◌, Bool, true, false, not, ◌||◌, ◌&&◌, List, [], ◌∷◌, ◌++◌, ◌==◌, if◌then◌else◌, length,
  Option, none, some, Result, ok, err,
}
use vlf_proto.Base.Text.{codes}
use vlf_proto.Base.Assoc.{bytes_beq}
use vlf_proto.Wire.{Bytes}
use vlf_proto.Limits.{
  LimitError, max_conns_per_client, max_total_conns, max_bytes_per_minute,
  max_bytes_per_minute_per_session, max_udp_pps,
}
use vlf_proto.Auth.Verifier
use vlf_proto.Auth.Verifier.{Std, Verifier, verify_http}
use vlf_proto.Session.{Net}
use vlf_proto.Relay.Manager
use vlf_proto.Relay.Manager.{
  Manager, RelayError, unknown_conn, forbidden, bad_request, limited, dial_failed, no_conn_id,
  conn_error, OpenRequest, open_conn, send, recv, ping, close,
}

-- `conn_id` and `max` are the values of the query, empty where they are missing.
pub record HttpRequest : Type 0 where
  pub signed : Verifier.Request
  pub body : Bytes
  pub conn_id : Bytes
  pub max : Bytes

pub record Web : Type 0 where
  pub decode_open : Bytes → Result Bytes OpenRequest
  pub trim_space : Bytes → Bytes
  pub atoi : Bytes → Result Bytes ℕ

pub data Reply : Type 0 where
  refused : ℕ → Reply
  opened : Bytes → Reply
  sent : ℕ → ℕ → Reply
  received : Bytes → Bool → Reply
  no_content : Reply
  pinged : ℕ → Reply
  closed : Bool → Reply

abbrev pub status_bad_request : ℕ
status_bad_request = 400

abbrev pub status_unauthorized : ℕ
status_unauthorized = 401

abbrev pub status_forbidden : ℕ
status_forbidden = 403

abbrev pub status_not_found : ℕ
status_not_found = 404

abbrev pub status_method_not_allowed : ℕ
status_method_not_allowed = 405

abbrev pub status_too_many_requests : ℕ
status_too_many_requests = 429

abbrev pub status_bad_gateway : ℕ
status_bad_gateway = 502

abbrev pub status_for_limit : LimitError → ℕ
status_for_limit max_conns_per_client = status_too_many_requests
status_for_limit max_total_conns = status_too_many_requests
status_for_limit max_bytes_per_minute = status_too_many_requests
status_for_limit max_bytes_per_minute_per_session = status_bad_gateway
status_for_limit max_udp_pps = status_bad_gateway

unfoldable pub status_for_error : RelayError → ℕ
status_for_error bad_request = status_bad_request
status_for_error unknown_conn = status_not_found
status_for_error forbidden = status_forbidden
status_for_error (limited e) = status_for_limit e
status_for_error (dial_failed reason) = status_bad_gateway
status_for_error no_conn_id = status_bad_gateway
status_for_error (conn_error e) = status_bad_gateway

abbrev pub is_post : HttpRequest → Bool
is_post r = bytes_beq r.signed.method (codes "POST")

abbrev pub is_get : HttpRequest → Bool
is_get r = bytes_beq r.signed.method (codes "GET")

unfoldable pub open_reply : Result RelayError Bytes → Reply
open_reply (err e) = refused (status_for_error e)
open_reply (ok conn_id) = opened conn_id

unfoldable pub send_reply : Result RelayError (ℕ × ℕ) → Reply
send_reply (err e) = refused (status_for_error e)
send_reply (ok (accepted, queued)) = sent accepted queued

unfoldable pub recv_reply : Result RelayError (Bytes × Bool) → Reply
recv_reply (err e) = refused (status_for_error e)
recv_reply (ok (bytes, eos)) =
    if (length bytes == 0) && not eos then no_content else received bytes eos

unfoldable pub ping_reply : Result RelayError ℕ → Reply
ping_reply (err e) = refused (status_for_error e)
ping_reply (ok expires) = pinged expires

unfoldable pub handle_open :
    Web → Net → Manager → ℕ → Bytes → HttpRequest → Option Bytes → Reply × Manager
handle_open web net m now client_id r new_id =
    if not (is_post r)
    then (refused status_method_not_allowed, m)
    else elim (web.decode_open r.body) [
      | err e ↦ (refused status_bad_request, m)
      | ok req ↦
          let (result, m') = open_conn net m now client_id req new_id in (open_reply result, m')
    ]

unfoldable pub handle_send : Web → Manager → ℕ → Bytes → HttpRequest → Reply × Manager
handle_send web m now client_id r =
    let conn_id = web.trim_space r.conn_id in
    let (result, m') = send m now client_id conn_id r.body in
    if not (is_post r)
    then (refused status_method_not_allowed, m)
    else if length conn_id == 0
    then (refused status_bad_request, m)
    else (send_reply result, m')

-- The `max` of the query.
abbrev pub max_of : Web → HttpRequest → Result Bytes ℕ
max_of web r = let raw = web.trim_space r.max in if length raw == 0 then ok 32768 else web.atoi raw

unfoldable pub handle_recv : Web → Manager → ℕ → Bytes → HttpRequest → Reply × Manager
handle_recv web m now client_id r =
    let conn_id = web.trim_space r.conn_id in
    if not (is_get r)
    then (refused status_method_not_allowed, m)
    else if length conn_id == 0
    then (refused status_bad_request, m)
    else elim (max_of web r) [
      | err e ↦ (refused status_bad_request, m)
      | ok max ↦ let (result, m') = recv m now client_id conn_id max in (recv_reply result, m')
    ]

unfoldable pub handle_ping : Web → Manager → ℕ → Bytes → HttpRequest → Reply × Manager
handle_ping web m now client_id r =
    let conn_id = web.trim_space r.conn_id in
    let (result, m') = ping m now client_id conn_id in
    if not (is_post r)
    then (refused status_method_not_allowed, m)
    else if length conn_id == 0
    then (refused status_bad_request, m)
    else (ping_reply result, m')

unfoldable pub handle_close : Web → Manager → Bytes → HttpRequest → Reply × Manager
handle_close web m client_id r =
    let conn_id = web.trim_space r.conn_id in
    let (was_closed, m') = close m conn_id client_id in
    if not (is_post r)
    then (refused status_method_not_allowed, m)
    else if length conn_id == 0
    then (refused status_bad_request, m)
    else (closed was_closed, m')

-- The handlers that `routes` names.
pub data Route : Type 0 where
  to_open : Option Bytes → Route
  to_send : Route
  to_recv : Route
  to_ping : Route
  to_close : Route

unfoldable pub handle : Web → Net → Route → Manager → ℕ → Bytes → HttpRequest → Reply × Manager
handle web net (to_open new_id) m now client_id r = handle_open web net m now client_id r new_id
handle web net to_send m now client_id r = handle_send web m now client_id r
handle web net to_recv m now client_id r = handle_recv web m now client_id r
handle web net to_ping m now client_id r = handle_ping web m now client_id r
handle web net to_close m now client_id r = handle_close web m client_id r

-- `withAuth` round a handler: what is answered, the manager and the verifier then.
unfoldable pub with_auth :
    Std → Web → Net → Route → Verifier → Manager → ℕ → HttpRequest → Reply × Manager × Verifier
with_auth std web net route v m now r =
    let (error, hook, v') = verify_http std v now r.signed r.body in
    let (reply, m') = handle web net route m now (std.trim_space r.signed.client_header) r in
    elim error [ some e ↦ (refused status_unauthorized, m, v') | none ↦ (reply, m', v') ]
