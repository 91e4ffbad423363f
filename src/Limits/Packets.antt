-- ===== src/Limits/Packets.antt =====
-- internal/limits/manager.go: how many UDP packets a second's windows let through.
use vlf_proto.Base.{
  ℕ, ◌+◌, ◌-◌, ◌≤◌, ◌<◌, ◌%◌, ◌&&◌, List, [], ◌∷◌, if◌then◌else◌, Option, none, some, ◌≡◌, arith,
  refl, ◌==◌,
}
use vlf_proto.Base.Assoc.{nat_eq, bytes_eq, lookup}
use vlf_proto.Base.Assoc.Laws.{lookup-insert, eq_of_beq}
use vlf_proto.Limits.Windows.{is_allowed}
use vlf_proto.Limits.{
  Config, Manager, new_manager, PpsWindow, second, current_second, allow_udp_packet,
}

-- The packets of one session that are let through.
unfoldable pub granted_packets : Manager → ℕ → List (ℕ × ℕ) → ℕ
granted_packets m session [] = 0
granted_packets m session ((now, id) ∷ requests) =
    let (error, m') = allow_udp_packet m now id in
    (if id == session && is_allowed error then 1 else 0) + granted_packets m' session requests

unfoldable pub run_packets : Manager → List (ℕ × ℕ) → Manager
run_packets m [] = m
run_packets m ((now, id) ∷ requests) = run_packets (allow_udp_packet m now id).1 requests

abbrev pub used_packets : Option PpsWindow → ℕ
used_packets none = 0
used_packets (some w) = w.packets

-- The packets that the window of one second has counted.
abbrev in_second : ℕ → Option PpsWindow → ℕ
in_second start none = 0
in_second start (some w) = if w.second_start == start then w.packets else 0

-- The times of requests are within one second.
unfoldable pub InSecond : ℕ → List (ℕ × ℕ) → Type 0
InSecond start [] = Unit
InSecond start ((now, id) ∷ requests) = (now - now % second ≡ start) × InSecond start requests

used-run_packets :
    (m : Manager) (session : ℕ) (requests : List (ℕ × ℕ))
    → 0 < m.cfg.udp_pps
    → used_packets (lookup session m.session_packets) ≤ m.cfg.udp_pps
    → used_packets (lookup session (run_packets m requests).session_packets) ≤ m.cfg.udp_pps
unfolding run_packets allow_udp_packet
used-run_packets m session [] pos room = room
used-run_packets m session ((now, id) ∷ requests) pos room =
    let w = current_second (now - now % second) (lookup id m.session_packets) in
    let w' = record w { packets = w.packets + 1 } in
    ground (
      arith,
      used-run_packets (allow_udp_packet m now id).1 session requests,
      room,
      lookup-insert id session w m.session_packets,
      lookup-insert id session w' m.session_packets,
      eq_of_beq id session,
    )

granted-in_second :
    (m : Manager) (session start : ℕ) (requests : List (ℕ × ℕ))
    → 0 < m.cfg.udp_pps
    → in_second start (lookup session m.session_packets) ≤ m.cfg.udp_pps
    → InSecond start requests
    → in_second start (lookup session m.session_packets) + granted_packets m session requests
      ≤ m.cfg.udp_pps
unfolding granted_packets allow_udp_packet InSecond
granted-in_second m session start [] pos room h = omega arith
granted-in_second m session start ((now, id) ∷ requests) pos room h =
    let w = current_second (now - now % second) (lookup id m.session_packets) in
    let w' = record w { packets = w.packets + 1 } in
    ground (
      arith,
      granted-in_second (allow_udp_packet m now id).1 session start requests,
      room,
      h.0,
      h.1,
      lookup-insert id session w m.session_packets,
      lookup-insert id session w' m.session_packets,
      eq_of_beq id session,
    )

cfg-run_packets : (m : Manager) (requests : List (ℕ × ℕ)) → (run_packets m requests).cfg ≡ m.cfg
unfolding run_packets allow_udp_packet
cfg-run_packets m [] = refl
cfg-run_packets m ((now, id) ∷ requests) =
    ground (arith, cfg-run_packets (allow_udp_packet m now id).1 requests)

-- Whatever packets came before, a session's limit is the most that is let through in any second of
-- the clock.
pub granted-InSecond :
    (cfg : Config) (before during : List (ℕ × ℕ)) (session start : ℕ)
    → 0 < cfg.udp_pps
    → InSecond start during
    → granted_packets (run_packets (new_manager cfg) before) session during ≤ cfg.udp_pps
unfolding new_manager lookup
granted-InSecond cfg before during session start pos h =
    let m = run_packets (new_manager cfg) before in
    let same : m.cfg ≡ cfg = cfg-run_packets (new_manager cfg) before in
    let room = used-run_packets (new_manager cfg) session before pos (omega arith) in
    ground (arith, same, room, pos, h, granted-in_second m session start during)
