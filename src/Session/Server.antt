-- ===== src/Session/Server.antt =====
-- internal/session/server.go: the sessions of a gateway. A session is what its `ID` and `ClientID` say;
-- the callback of its idle timer closes it, so a callback is the session's id. `registerSession` and
-- `unregisterSession` are one step each: what they do outside of the server's lock is about the same
-- session, whose `Run` calls each of them once. The listeners and their loops are outside.
pub mod Registry
mod Tests
use vlf_proto.Base.{
  ℕ, ◌+◌, ◌-◌, ◌%◌, ◌^◌, List, [], ◌∷◌, ltb, if◌then◌else◌, Option, none, some, ◌≡◌,
}
use vlf_proto.Base.Assoc.{nat_eq, Map, lookup, insert, delete}
use vlf_proto.Wire.{Bytes}
use vlf_proto.Limits
use vlf_proto.Limits.{cleanup_session}
use vlf_proto.Store.Wheel.{new_wheel, second, tick}
use vlf_proto.Store.SessionStore
use vlf_proto.Store.SessionStore.{SessionStore, new_session_store, delete_session}

-- The fields that the server reads itself. A number of zero or below is 0.
pub record Config : Type 0 where
  pub idle_timeout : ℕ
  pub datagram_workers : ℕ
  pub datagram_queue : ℕ

pub record Server : Type 0 where
  pub cfg : Config
  pub limits : Limits.Manager
  pub store : SessionStore ℕ
  pub sessions : Map ℕ Bytes
  pub next_id : ℕ
  pub active_sessions : ℕ

abbrev pub or_default : ℕ → ℕ → ℕ
or_default n default_n = if ltb 0 n then n else default_n

unfoldable pub new_server : Config → Limits.Manager → Server
new_server cfg limits = record {
  cfg = record cfg {
    datagram_workers = or_default cfg.datagram_workers 4;
    datagram_queue = or_default cfg.datagram_queue 4096;
  };
  limits = limits;
  store = new_session_store (new_wheel second 512);
  sessions = [];
  next_id = 0;
  active_sessions = 0;
}

-- `s.nextID.Add(1)` of a connection that is accepted.
unfoldable pub accept : Server → Server × ℕ
accept s =
    let session_id = (s.next_id + 1) % 2 ^ 64 in (record s { next_id = session_id }, session_id)

unfoldable pub register_session : (ℕ → Bytes) → Server → ℕ → Bytes → ℕ → Server
register_session format_uint s session_id client_id now = record s {
  sessions = insert session_id client_id s.sessions;
  store =
      SessionStore.add format_uint s.store
        (record {
          session_id = session_id;
          client_id = client_id;
          last_active = now;
          created_at = now;
        })
        s.cfg.idle_timeout (some session_id);
  active_sessions = s.active_sessions + 1;
}

unfoldable pub touch_session : (ℕ → Bytes) → Server → ℕ → ℕ → Server
touch_session format_uint s session_id now = record s {
  store = (SessionStore.touch format_uint s.store now session_id s.cfg.idle_timeout).0;
}

unfoldable pub unregister_session : (ℕ → Bytes) → Server → ℕ → Server
unregister_session format_uint s session_id = elim (lookup session_id s.sessions) [
  | none ↦ s
  | some client_id ↦ record s {
    sessions = delete session_id s.sessions;
    store = (delete_session format_uint s.store session_id).0;
    limits = cleanup_session s.limits session_id;
    active_sessions = s.active_sessions - 1;
  }
]

-- A tick of the store's wheel, and the sessions that it closes.
unfoldable pub tick_wheel : Server → Server × List ℕ
tick_wheel s =
    let (wheel, expired) = tick s.store.wheel in
    (record s { store = record s.store { wheel = wheel } }, expired)

abbrev ids_of : Map ℕ Bytes → List ℕ
ids_of [] = []
ids_of ((session_id, client_id) ∷ m) = session_id ∷ ids_of m

-- The sessions that `Shutdown` closes.
unfoldable pub shutdown : Server → List ℕ
shutdown s = ids_of s.sessions

-- The changes of a server. An id is registered once at a time: 2 ^ 64 connections are accepted
-- before one comes again.
pub data Step (format_uint : ℕ → Bytes) (s : Server) : Server → Type 0 where
  accepts : Step format_uint s (accept s).0
  registers :
      (session_id : ℕ) (client_id : Bytes) (now : ℕ)
      → lookup session_id s.sessions ≡ none
      → Step format_uint s (register_session format_uint s session_id client_id now)
  touches : (session_id now : ℕ) → Step format_uint s (touch_session format_uint s session_id now)
  unregisters : (session_id : ℕ) → Step format_uint s (unregister_session format_uint s session_id)
  ticks : Step format_uint s (tick_wheel s).0

pub data Steps (format_uint : ℕ → Bytes) (s : Server) : Server → Type 0 where
  stay : Steps format_uint s s
  then :
      {s' s'' : Server} → Steps format_uint s s' → Step format_uint s' s'' → Steps format_uint s s''
