-- ===== src/Relay/Http/Access.antt =====
-- internal/relay/http.go: who can change a relay connection.
use vlf_proto.Base.{
  ℕ, [], none, some, ◌≡◌, ◌≢◌, arith, ◌⊎◌, inl, inr, Bool-cases, Option-cases, Result-cases,
}
use vlf_proto.Base.Assoc.{bytes_eq, bytes_beq, lookup}
use vlf_proto.Base.Assoc.Laws.{eq_of_beq, beq_refl}
use vlf_proto.Wire.{Bytes}
use vlf_proto.Auth.Replay.Laws.{IsTidy}
use vlf_proto.Auth.Verifier.{Std, Verifier, secret_for, http_material, verify_http}
use vlf_proto.Auth.Verifier.Signatures.{accepted_request}
use vlf_proto.Session.{Net}
use vlf_proto.Relay.Conn.{RelayConn}
use vlf_proto.Relay.Manager.{Manager, OpenRequest}
use vlf_proto.Relay.Manager.Accounts.{IsAccounted}
use vlf_proto.Relay.Manager.Owners.{Untouched, client_calls_isolated}
use vlf_proto.Relay.Http.{
  HttpRequest, Web, handle_open, handle_send, handle_recv, handle_ping, handle_close, Route,
  to_open, to_send, to_recv, to_ping, to_close, handle, with_auth, max_of,
}

-- An id that an open is given is not in use.
abbrev pub IsFreshRoute : Manager → Route → Type 0
IsFreshRoute m (to_open (some conn_id)) = lookup conn_id m.conns ≡ none
IsFreshRoute m route = Unit

-- A request that is signed with the secret of a client.
abbrev pub IsSignedBy : Std → Verifier → HttpRequest → Bytes → Type 0
IsSignedBy std v r client_id =
    (secret : Bytes) × (ts_ms : ℕ) × (secret_for v client_id ≡ some secret)
    × (std.parse_int (std.trim_space r.signed.ts_header) ≡ some ts_ms)
    × (std.decode_hex (std.trim_space r.signed.sig_header)
        ≡ some (
            std.compute_hmac secret
              (http_material std r.signed ts_ms (std.trim_space r.signed.nonce_header) r.body)))

no_request : OpenRequest
no_request = record { proto = []; dst_host = []; dst_port = 0 }

module _ (web : Web) (net : Net) (k : Bytes) (other : RelayConn) where
  -- A handler leaves another client's connection as it was.
  handle-Untouched :
      (route : Route) (m : Manager) (now : ℕ) (client_id : Bytes) (r : HttpRequest)
      → IsFreshRoute m route
      → other.client_id ≢ client_id
      → IsAccounted m
      → Untouched k other m
      → Untouched k other (handle web net route m now client_id r).1
  unfolding handle handle_open handle_send handle_recv handle_ping handle_close
  handle-Untouched (to_open none) m now client_id r fresh differs a u =
      elim (Result-cases (web.decode_open r.body)) [
        | inr (e, bad) ↦ ground (arith, bad, u)
        | inl (req, good) ↦
            let calls =
              client_calls_isolated k other net m now client_id [] [] 0 req none differs (λ i h. cc)
                a u in
            ground (arith, good, u, calls.0)
      ]
  handle-Untouched (to_open (some id)) m now client_id r fresh differs a u =
      elim (Result-cases (web.decode_open r.body)) [
        | inr (e, bad) ↦ ground (arith, bad, u)
        | inl (req, good) ↦
            let calls =
              client_calls_isolated k other net m now client_id [] [] 0 req (some id) differs
                (λ i h. ground (arith, fresh, h)) a u in
            ground (arith, good, u, calls.0)
      ]
  handle-Untouched to_send m now client_id r fresh differs a u =
      let calls =
        client_calls_isolated k other net m now client_id (web.trim_space r.conn_id) r.body 0
          no_request none differs (λ i h. cc) a u in
      ground (arith, u, calls.1)
  handle-Untouched to_recv m now client_id r fresh differs a u =
      elim (Result-cases (max_of web r)) [
        | inr (e, bad) ↦ ground (arith, bad, u)
        | inl (max, good) ↦
            let calls =
              client_calls_isolated k other net m now client_id (web.trim_space r.conn_id) [] max
                no_request none differs (λ i h. cc) a u in
            ground (arith, good, u, calls.2)
      ]
  handle-Untouched to_ping m now client_id r fresh differs a u =
      let calls =
        client_calls_isolated k other net m now client_id (web.trim_space r.conn_id) [] 0 no_request
          none differs (λ i h. cc) a u in
      ground (arith, u, calls.3)
  handle-Untouched to_close m now client_id r fresh differs a u =
      let calls =
        client_calls_isolated k other net m now client_id (web.trim_space r.conn_id) [] 0 no_request
          none differs (λ i h. cc) a u in
      ground (arith, u, calls.4)

  -- A request changes a relay connection only if it is signed with the secret of the connection's
  -- client: any other request, whatever it names and carries, leaves it as it was.
  pub only_owner_reaches_conn :
      (std : Std) (route : Route) (v : Verifier) (m : Manager) (now : ℕ) (r : HttpRequest)
      → IsTidy v.replay
      → IsFreshRoute m route
      → IsAccounted m
      → Untouched k other m
      → Untouched k other (with_auth std web net route v m now r).1
        ⊎ IsSignedBy std v r other.client_id
  unfolding with_auth
  only_owner_reaches_conn std route v m now r tidy fresh a u =
      let client_id = std.trim_space r.signed.client_header in
      elim (Option-cases (verify_http std v now r.signed r.body).0) [
        | inr (e, failed) ↦ inl (ground (arith, failed, u))
        | inl verified ↦ elim (Bool-cases (bytes_beq other.client_id client_id)) [
          | inl same ↦
              let signed = accepted_request std v now r.signed r.body tidy verified in
              inr (rw (eq_of_beq other.client_id client_id same) signed)
          | inr differs ↦
              let kept =
                handle-Untouched route m now client_id r fresh
                  (λ e. ground (arith, differs, e, beq_refl client_id)) a u in
              inl (ground (arith, verified, kept))
        ]
      ]
