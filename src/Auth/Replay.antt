-- ===== src/Auth/Replay.antt =====
-- internal/auth/replay.go: the nonces that a client has used. A call holds the mutex from its start to
-- its end, so it is one step. Times are nanoseconds, and `ts.Before(cutoff)` is `ts + ttl < now`.
pub mod Laws
use vlf_proto.Base.{ℕ, ◌+◌, Bool, true, false, not, [], ltb, if◌then◌else◌, Option, none, some}
use vlf_proto.Base.Assoc.{Eq, bytes_eq, Map, lookup, insert, retain}
use vlf_proto.Wire.{Bytes}

pub record ReplayCache : Type 0 where
  pub ttl : ℕ
  pub items : Map Bytes (Map Bytes ℕ)

unfoldable pub new_replay_cache : ℕ → ReplayCache
new_replay_cache ttl = record { ttl = ttl; items = [] }

abbrev pub or_empty : Option (Map Bytes ℕ) → Map Bytes ℕ
or_empty none = []
or_empty (some nonces) = nonces

-- Whether a nonce of that time is within the time to live.
abbrev pub is_replay : ReplayCache → ℕ → Option ℕ → Bool
is_replay r now none = false
is_replay r now (some ts) = ltb now (ts + r.ttl)

-- `CheckAndStore`: whether it returns `ErrReplay`.
unfoldable pub check_and_store : ReplayCache → Bytes → Bytes → ℕ → Bool × ReplayCache
check_and_store r client_id nonce now =
    let nonces =
      retain (λ key ts. not (ltb (ts + r.ttl) now)) (or_empty (lookup client_id r.items)) in
    if is_replay r now (lookup nonce nonces)
    then (true, record r { items = insert client_id nonces r.items })
    else (false, record r { items = insert client_id (insert nonce now nonces) r.items })
