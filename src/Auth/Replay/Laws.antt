-- ===== src/Auth/Replay/Laws.antt =====
-- internal/auth/replay.go: which nonces the cache knows after a call.
use vlf_proto.Base.{
  ℕ, ◌+◌, ◌<◌, Bool, false, not, ◌&&◌, ltb, if◌then◌else◌, Option, some, ◌≡◌, arith,
}
use vlf_proto.Base.Assoc.{bytes_eq, bytes_beq, lookup, insert, retain, Distinct}
use vlf_proto.Base.Assoc.Laws.{
  lookup-insert, lookup-retain, insert-Distinct, retain-Distinct, eq_of_beq, beq_refl, kept,
}
use vlf_proto.Wire.{Bytes}
use vlf_proto.Auth.Replay.{ReplayCache, new_replay_cache, or_empty, is_replay, check_and_store}

-- When the cache took a nonce of a client.
unfoldable pub seen : ReplayCache → Bytes → Bytes → Option ℕ
seen r client_id nonce = lookup nonce (or_empty (lookup client_id r.items))

-- No client's nonces stand twice.
unfoldable pub IsTidy : ReplayCache → Type 0
IsTidy r = (client_id : Bytes) → Distinct (or_empty (lookup client_id r.items))

abbrev pub fresh : ReplayCache → ℕ → Bytes → ℕ → Bool
fresh r now key ts = not (ltb (ts + r.ttl) now)

pub new_replay_cache-IsTidy : (ttl : ℕ) → IsTidy (new_replay_cache ttl)
unfolding new_replay_cache lookup IsTidy
new_replay_cache-IsTidy ttl client_id = tt

pub check_and_store-IsTidy :
    (r : ReplayCache) (client_id nonce : Bytes) (now : ℕ)
    → IsTidy r
    → IsTidy (check_and_store r client_id nonce now).1
unfolding IsTidy check_and_store
check_and_store-IsTidy r client_id nonce now tidy k =
    let old = or_empty (lookup client_id r.items) in
    let nonces = retain (fresh r now) old in
    ground (
      arith,
      tidy k,
      retain-Distinct (fresh r now) old (tidy client_id),
      insert-Distinct nonce now nonces (retain-Distinct (fresh r now) old (tidy client_id)),
      lookup-insert client_id k nonces r.items,
      lookup-insert client_id k (insert nonce now nonces) r.items,
    )

-- What a call leaves of a nonce: one that it takes is of that time, a client's others stay until
-- their time is over.
abbrev pub after_check : ReplayCache → Bytes → Bytes → ℕ → Bytes → Bytes → Option ℕ
after_check r client_id nonce now k j =
    let left = if bytes_beq client_id k then kept (fresh r now) j (seen r k j) else seen r k j in
    if bytes_beq client_id k && bytes_beq nonce j && not (is_replay r now left)
    then some now
    else left

pub seen-check_and_store :
    (r : ReplayCache) (client_id nonce k j : Bytes) (now : ℕ)
    → IsTidy r
    → seen (check_and_store r client_id nonce now).1 k j ≡ after_check r client_id nonce now k j
unfolding seen check_and_store IsTidy
seen-check_and_store r client_id nonce k j now tidy =
    let old = or_empty (lookup client_id r.items) in
    let nonces = retain (fresh r now) old in
    ground (
      arith,
      lookup-retain (fresh r now) j old (tidy client_id),
      lookup-retain (fresh r now) nonce old (tidy client_id),
      lookup-insert client_id k nonces r.items,
      lookup-insert client_id k (insert nonce now nonces) r.items,
      lookup-insert nonce j now nonces,
      eq_of_beq client_id k,
      eq_of_beq nonce j,
    )

-- A call refuses a nonce exactly when the cache took it less than the time to live ago.
pub refuses-seen :
    (r : ReplayCache) (client_id nonce : Bytes) (now : ℕ)
    → IsTidy r
    → (check_and_store r client_id nonce now).0 ≡ is_replay r now (seen r client_id nonce)
unfolding seen check_and_store IsTidy
refuses-seen r client_id nonce now tidy =
    let old = or_empty (lookup client_id r.items) in
    ground (arith, lookup-retain (fresh r now) nonce old (tidy client_id))

pub ttl-check_and_store :
    (r : ReplayCache) (client_id nonce : Bytes) (now : ℕ)
    → (check_and_store r client_id nonce now).1.ttl ≡ r.ttl
unfolding check_and_store
ttl-check_and_store r client_id nonce now = ground arith

-- While a nonce is within the time to live, no call takes it again or forgets it.
pub seen-remains :
    (r : ReplayCache) (client_id nonce k j : Bytes) (now ts : ℕ)
    → IsTidy r
    → seen r k j ≡ some ts
    → now < ts + r.ttl
    → seen (check_and_store r client_id nonce now).1 k j ≡ some ts
seen-remains r client_id nonce k j now ts tidy e h =
    ground (arith, seen-check_and_store r client_id nonce k j now tidy, e)

pub taken :
    (r : ReplayCache) (client_id nonce : Bytes) (now : ℕ)
    → IsTidy r
    → (check_and_store r client_id nonce now).0 ≡ false
    → seen (check_and_store r client_id nonce now).1 client_id nonce ≡ some now
taken r client_id nonce now tidy e = ground (
  arith,
  seen-check_and_store r client_id nonce client_id nonce now tidy,
  refuses-seen r client_id nonce now tidy,
  e,
  beq_refl client_id,
  beq_refl nonce,
)
