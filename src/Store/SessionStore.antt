-- ===== src/Store/SessionStore.antt =====
-- internal/store/session_store.go: the sessions by id, over the timing wheel. A call holds the mutex
-- from its start to its end, so it is one step; the clock's reading is an argument. A session's key in
-- the wheel is its id in the text that the number's format gives.
use vlf_proto.Base.{ℕ, Bool, false, [], ◌++◌, length, Option, none, some}
use vlf_proto.Base.Assoc.{nat_eq, Map, lookup, insert, delete}
use vlf_proto.Base.Text.{codes}
use vlf_proto.Wire.{Bytes}
use vlf_proto.Store.Wheel
use vlf_proto.Store.Wheel.{Wheel, upsert}

pub record SessionState : Type 0 where
  pub session_id : ℕ
  pub client_id : Bytes
  pub last_active : ℕ
  pub created_at : ℕ

pub record SessionStore (C : Type 0) : Type 0 where
  pub by_id : Map ℕ SessionState
  pub wheel : Wheel C

unfoldable pub session_key : (ℕ → Bytes) → ℕ → Bytes
session_key format_uint session_id = codes "session:" ++ format_uint session_id

module _ {C : Type 0} where
  unfoldable pub new_session_store : Wheel C → SessionStore C
  new_session_store wheel = record { by_id = []; wheel = wheel }

  unfoldable pub add : (ℕ → Bytes) → SessionStore C → SessionState → ℕ → Option C → SessionStore C
  add format_uint s st ttl on_expire = record {
    by_id = insert st.session_id st s.by_id;
    wheel = upsert s.wheel (session_key format_uint st.session_id) ttl on_expire;
  }

  unfoldable pub touch : (ℕ → Bytes) → SessionStore C → ℕ → ℕ → ℕ → SessionStore C × Bool
  touch format_uint s now session_id ttl = elim (lookup session_id s.by_id) [
    | none ↦ (s, false)
    | some st ↦
        let (wheel, there) = Wheel.touch s.wheel (session_key format_uint session_id) ttl in
        (
          record {
            by_id = insert session_id (record st { last_active = now }) s.by_id;
            wheel = wheel;
          },
          there,
        )
  ]

  unfoldable pub delete_session :
      (ℕ → Bytes) → SessionStore C → ℕ → SessionStore C × Option SessionState
  delete_session format_uint s session_id = elim (lookup session_id s.by_id) [
    | none ↦ (s, none)
    | some st ↦ (
      record {
        by_id = delete session_id s.by_id;
        wheel = Wheel.remove s.wheel (session_key format_uint session_id);
      },
      some st,
    )
  ]

  unfoldable pub count : SessionStore C → ℕ
  count s = length s.by_id
