-- ===== src/Session/Server/Registry.antt =====
-- internal/session/server.go: the table of sessions, the store and the gauge.
use vlf_proto.Base.{ℕ, length, Option, none, some, ◌≡◌, refl, arith, inl, inr, Option-cases}
use vlf_proto.Base.Assoc.{nat_eq, lookup, Distinct}
use vlf_proto.Base.Assoc.Laws.{
  lookup-insert, lookup-delete, insert-Distinct, delete-Distinct, length-insert, length-delete,
  eq_of_beq,
}
use vlf_proto.Wire.{Bytes}
use vlf_proto.Limits
use vlf_proto.Store.SessionStore.{
  SessionState, new_session_store, add, touch, delete_session, count,
}
use vlf_proto.Session.Server.{
  Config, Server, new_server, accept, register_session, touch_session, unregister_session,
  tick_wheel, Step, accepts, registers, touches, unregisters, ticks, Steps, stay, then,
}

-- The client of a session by its state in the store.
abbrev pub client_of : Option SessionState → Option Bytes
client_of none = none
client_of (some st) = some st.client_id

-- The table and the store have the same sessions, of the same clients, and the gauge counts them.
pub record IsAgreed (s : Server) : Type 0 where
  pub table : Distinct s.sessions
  pub states : Distinct s.store.by_id
  pub agree :
      (session_id : ℕ) → lookup session_id s.sessions ≡ client_of (lookup session_id s.store.by_id)
  pub sizes : length s.sessions ≡ count s.store
  pub gauge : s.active_sessions ≡ length s.sessions

module _ (format_uint : ℕ → Bytes) where
  register_session-IsAgreed :
      (s : Server) (session_id : ℕ) (client_id : Bytes) (now : ℕ)
      → IsAgreed s
      → lookup session_id s.sessions ≡ none
      → IsAgreed (register_session format_uint s session_id client_id now)
  unfolding register_session add count
  register_session-IsAgreed s session_id client_id now h fresh =
      let st : SessionState = record {
        session_id = session_id;
        client_id = client_id;
        last_active = now;
        created_at = now;
      } in
      let more = length-insert session_id client_id s.sessions in
      let more_states = length-insert session_id st s.store.by_id in
      record {
        table = insert-Distinct session_id client_id s.sessions h.table;
        states = insert-Distinct session_id st s.store.by_id h.states;
        agree = λ k. ground (
          arith,
          h.agree k,
          lookup-insert session_id k client_id s.sessions,
          lookup-insert session_id k st s.store.by_id,
        );
        sizes = ground (arith, more, more_states, fresh, h.agree session_id, h.sizes);
        gauge = ground (arith, more, fresh, h.gauge);
      }

  touch_session-IsAgreed :
      (s : Server) (session_id now : ℕ)
      → IsAgreed s
      → IsAgreed (touch_session format_uint s session_id now)
  unfolding touch_session touch count
  touch_session-IsAgreed s session_id now h =
      elim (Option-cases (lookup session_id s.store.by_id)) [
        | inl e ↦ rw (e, touch_session, touch) h
        | inr (st, e) ↦
            let st' : SessionState = record st { last_active = now } in
            rw (e, touch_session, touch)
              (record {
                table = h.table;
                states = insert-Distinct session_id st' s.store.by_id h.states;
                agree = λ k. ground (
                  arith,
                  e,
                  h.agree k,
                  lookup-insert session_id k st' s.store.by_id,
                  eq_of_beq session_id k,
                );
                sizes = ground (arith, e, length-insert session_id st' s.store.by_id, h.sizes);
                gauge = h.gauge;
              })
      ]

  unregister_session-IsAgreed :
      (s : Server) (session_id : ℕ)
      → IsAgreed s
      → IsAgreed (unregister_session format_uint s session_id)
  unfolding unregister_session delete_session count
  unregister_session-IsAgreed s session_id h = elim (Option-cases (lookup session_id s.sessions)) [
    | inl e ↦ rw (e, unregister_session) h
    | inr (client_id, e) ↦ elim (Option-cases (lookup session_id s.store.by_id)) [
      | inl e' ↦ absurd (ground (arith, e, e', h.agree session_id))
      | inr (st, e') ↦
          let fewer = length-delete session_id s.sessions h.table in
          let fewer_states = length-delete session_id s.store.by_id h.states in
          rw (e, unregister_session)
            (rw (e', delete_session)
              (record {
                table = delete-Distinct session_id s.sessions h.table;
                states = delete-Distinct session_id s.store.by_id h.states;
                agree = λ k. ground (
                  arith,
                  h.agree k,
                  lookup-delete session_id k s.sessions,
                  lookup-delete session_id k s.store.by_id,
                );
                sizes = ground (arith, e, e', fewer, fewer_states, h.sizes);
                gauge = ground (arith, e, fewer, h.gauge);
              }))
    ]
  ]

  step-IsAgreed : {s s' : Server} → Step format_uint s s' → IsAgreed s → IsAgreed s'
  unfolding accept tick_wheel count
  step-IsAgreed accepts h = record {
    table = h.table;
    states = h.states;
    agree = h.agree;
    sizes = h.sizes;
    gauge = h.gauge;
  }
  step-IsAgreed {s} (registers session_id client_id now fresh) h =
      register_session-IsAgreed s session_id client_id now h fresh
  step-IsAgreed {s} (touches session_id now) h = touch_session-IsAgreed s session_id now h
  step-IsAgreed {s} (unregisters session_id) h = unregister_session-IsAgreed s session_id h
  step-IsAgreed ticks h = record {
    table = h.table;
    states = h.states;
    agree = h.agree;
    sizes = h.sizes;
    gauge = h.gauge;
  }

  steps-IsAgreed : {s s' : Server} → Steps format_uint s s' → IsAgreed s → IsAgreed s'
  steps-IsAgreed stay h = h
  steps-IsAgreed (then run step) h = step-IsAgreed step (steps-IsAgreed run h)

-- In every state that a new server reaches, in whatever order the calls for its sessions and the ticks
-- come, the table and the store have the same sessions, of the same clients, none of them twice, and
-- the gauge is how many they are.
pub registry_agrees :
    (format_uint : ℕ → Bytes) (cfg : Config) (limits : Limits.Manager) (s : Server)
    → Steps format_uint (new_server cfg limits) s
    → IsAgreed s
unfolding new_server new_session_store count lookup
registry_agrees format_uint cfg limits s run =
    steps-IsAgreed format_uint run
      (record { table = tt; states = tt; agree = λ k. refl; sizes = refl; gauge = refl })
