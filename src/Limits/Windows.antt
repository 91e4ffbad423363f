-- ===== src/Limits/Windows.antt =====
-- internal/limits/manager.go: how many bytes a minute's windows let through.
use vlf_proto.Base.{
  ℕ, ◌+◌, ◌≤◌, ◌<◌, Bool, true, false, ◌&&◌, List, [], ◌∷◌, ltb, if◌then◌else◌, Option, none, some,
  ◌≡◌, arith, refl, ◌==◌,
}
use vlf_proto.Base.Assoc.{nat_eq, bytes_eq, lookup}
use vlf_proto.Base.Assoc.Laws.{lookup-insert, eq_of_beq}
use vlf_proto.Limits.{
  Config, Manager, new_manager, LimitError, ByteWindow, minute, allow_bytes, allow_session_bytes,
}

-- The sizes let through, of requests that are each a time and a size.
unfoldable pub accepted : ℕ → Option ByteWindow → List (ℕ × ℕ) → ℕ
accepted limit w [] = 0
accepted limit w ((now, n) ∷ requests) =
    let (allowed, w') = allow_bytes limit now w n in
    (if allowed then n else 0) + accepted limit (some w') requests

unfoldable pub Within : ℕ → List (ℕ × ℕ) → Type 0
Within t [] = Unit
Within t ((now, n) ∷ requests) = (t ≤ now) × (now < t + minute) × Within t requests

-- As long as the window lasts it lets through what is left of the limit.
in_window :
    (limit t : ℕ) (w : ByteWindow) (requests : List (ℕ × ℕ))
    → 0 < limit
    → w.bytes ≤ limit
    → t ≤ w.window_start
    → Within t requests
    → w.bytes + accepted limit (some w) requests ≤ limit
unfolding accepted allow_bytes Within
in_window limit t w [] pos room start h = omega arith
in_window limit t w ((now, n) ∷ requests) pos room start h =
    let w' = record w { bytes = w.bytes + n } in
    ground (
      arith,
      in_window limit t w requests pos room start h.2,
      in_window limit t w' requests pos,
      start,
      room,
      h,
    )

-- In any minute a window lets through at most twice the limit.
across_windows :
    (limit t : ℕ) (w : ByteWindow) (requests : List (ℕ × ℕ))
    → 0 < limit
    → w.bytes ≤ limit
    → Within t requests
    → w.bytes + accepted limit (some w) requests ≤ limit + limit
unfolding accepted allow_bytes Within
across_windows limit t w [] pos room h = omega arith
across_windows limit t w ((now, n) ∷ requests) pos room h =
    let w' = record w { bytes = w.bytes + n } in
    let new : ByteWindow = record { window_start = now; bytes = 0 } in
    let new' : ByteWindow = record { window_start = now; bytes = n } in
    ground (
      arith,
      across_windows limit t w requests pos room h.2,
      across_windows limit t w' requests pos,
      in_window limit t new requests pos,
      in_window limit t new' requests pos,
      room,
      h,
    )

abbrev pub used : Option ByteWindow → ℕ
used none = 0
used (some w) = w.bytes

accepted-Within :
    (limit t : ℕ) (w : Option ByteWindow) (requests : List (ℕ × ℕ))
    → 0 < limit
    → used w ≤ limit
    → Within t requests
    → accepted limit w requests ≤ limit + limit
unfolding accepted allow_bytes
accepted-Within limit t (some w) requests pos room h =
    let bound = across_windows limit t w requests pos room h in omega (arith, bound)
accepted-Within limit t none [] pos room h = omega arith
accepted-Within limit t none ((now, n) ∷ requests) pos room h =
    let new : ByteWindow = record { window_start = now; bytes = 0 } in
    ground (arith, across_windows limit t new ((now, n) ∷ requests) pos (omega arith) h)

-- Requests of sessions: each a time, a session and a size.
abbrev pub SessionRequests : Type 0
SessionRequests = List (ℕ × ℕ × ℕ)

unfoldable pub run_bytes : Manager → SessionRequests → Manager
run_bytes m [] = m
run_bytes m ((now, id, n) ∷ requests) = run_bytes (allow_session_bytes m now id n).1 requests

abbrev pub is_allowed : Option LimitError → Bool
is_allowed none = true
is_allowed (some e) = false

-- The bytes of one session that are let through.
unfoldable pub granted : Manager → ℕ → SessionRequests → ℕ
granted m session [] = 0
granted m session ((now, id, n) ∷ requests) =
    let (error, m') = allow_session_bytes m now id n in
    (if id == session && is_allowed error then n else 0) + granted m' session requests

-- The requests of one session that reach its window.
unfoldable of_session : ℕ → SessionRequests → List (ℕ × ℕ)
of_session session [] = []
of_session session ((now, id, n) ∷ requests) =
    if id == session && ltb 0 n
    then (now, n) ∷ of_session session requests
    else of_session session requests

granted-accepted :
    (m : Manager) (session : ℕ) (requests : SessionRequests)
    → granted m session requests
      ≡ accepted m.cfg.bytes_per_minute_per_session
          (lookup session m.session_bytes)
          (of_session session requests)
unfolding granted accepted of_session allow_session_bytes
granted-accepted m session [] = refl
granted-accepted m session ((now, id, n) ∷ requests) =
    let m' = (allow_session_bytes m now id n).1 in
    let (allowed, w) =
      allow_bytes m.cfg.bytes_per_minute_per_session now (lookup id m.session_bytes) n in
    ground (
      arith,
      granted-accepted m' session requests,
      lookup-insert id session w m.session_bytes,
      eq_of_beq id session,
    )

used-allow_bytes :
    (limit now : ℕ) (w : Option ByteWindow) (n : ℕ)
    → 0 < limit
    → used w ≤ limit
    → (allow_bytes limit now w n).1.bytes ≤ limit
unfolding allow_bytes
used-allow_bytes limit now none n pos room = ground arith
used-allow_bytes limit now (some w) n pos room = ground arith

cfg-run_bytes : (m : Manager) (requests : SessionRequests) → (run_bytes m requests).cfg ≡ m.cfg
unfolding run_bytes allow_session_bytes
cfg-run_bytes m [] = refl
cfg-run_bytes m ((now, id, n) ∷ requests) =
    ground (arith, cfg-run_bytes (allow_session_bytes m now id n).1 requests)

used-run_bytes :
    (m : Manager) (session : ℕ) (requests : SessionRequests)
    → 0 < m.cfg.bytes_per_minute_per_session
    → used (lookup session m.session_bytes) ≤ m.cfg.bytes_per_minute_per_session
    → used (lookup session (run_bytes m requests).session_bytes)
      ≤ m.cfg.bytes_per_minute_per_session
unfolding run_bytes allow_session_bytes
used-run_bytes m session [] pos room = room
used-run_bytes m session ((now, id, n) ∷ requests) pos room =
    let limit = m.cfg.bytes_per_minute_per_session in
    let m' = (allow_session_bytes m now id n).1 in
    let w = (allow_bytes limit now (lookup id m.session_bytes) n).1 in
    ground (
      arith,
      used-run_bytes m' session requests,
      used-allow_bytes limit now (lookup id m.session_bytes) n pos,
      room,
      lookup-insert id session w m.session_bytes,
      eq_of_beq id session,
    )

-- The times of requests are within one minute.
unfoldable pub InMinute : ℕ → SessionRequests → Type 0
InMinute t [] = Unit
InMinute t ((now, id, n) ∷ requests) = (t ≤ now) × (now < t + minute) × InMinute t requests

Within-of_session :
    (t session : ℕ) (requests : SessionRequests)
    → InMinute t requests
    → Within t (of_session session requests)
unfolding Within of_session InMinute
Within-of_session t session [] h = tt
Within-of_session t session ((now, id, n) ∷ requests) h =
    ground (arith, h, Within-of_session t session requests h.2)

-- Whatever requests came before, at most twice a session's limit is let through in any minute.
pub granted-InMinute :
    (cfg : Config) (before during : SessionRequests) (session t : ℕ)
    → 0 < cfg.bytes_per_minute_per_session
    → InMinute t during
    → granted (run_bytes (new_manager cfg) before) session during
      ≤ cfg.bytes_per_minute_per_session + cfg.bytes_per_minute_per_session
unfolding new_manager lookup
granted-InMinute cfg before during session t pos h =
    let m = run_bytes (new_manager cfg) before in
    let same : m.cfg ≡ cfg = cfg-run_bytes (new_manager cfg) before in
    let room = used-run_bytes (new_manager cfg) session before pos (omega arith) in
    ground (
      arith,
      granted-accepted m session during,
      same,
      room,
      accepted-Within cfg.bytes_per_minute_per_session t (lookup session m.session_bytes)
          (of_session session during) pos room (Within-of_session t session during h),
    )
