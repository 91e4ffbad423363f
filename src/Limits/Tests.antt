-- ===== src/Limits/Tests.antt =====
-- Runs of the limits, and the theorems at concrete ones.
use vlf_proto.Base.{ℕ, ◌+◌, ◌≤◌, List, [], ◌∷◌, none, some, ◌≡◌, refl, arith}
use vlf_proto.Base.Assoc.{nat_eq, bytes_eq, bytes_beq, lookup, insert}
use vlf_proto.Wire.{Bytes}
use vlf_proto.Limits.{
  Config, Manager, max_total_conns, max_conns_per_client, new_manager, reserve_relay_conn,
  allow_bytes, allow_session_bytes,
}
use vlf_proto.Limits.Conns.{IsWithin, conns_of, reserve-IsWithin, run, run-IsWithin}
use vlf_proto.Limits.Windows.{granted, run_bytes, InMinute, granted-InMinute}
use vlf_proto.Limits.Packets.{granted_packets, run_packets, InSecond, granted-InSecond}

abbrev cfg : Config
cfg = record {
  conns_per_client = 1;
  total_conns = 2;
  bytes_per_minute_per_client = 100;
  bytes_per_minute_per_session = 10;
  udp_pps = 1;
}

abbrev a : Bytes
a = 97 ∷ []

abbrev b : Bytes
b = 98 ∷ []

abbrev one : Manager
one = (reserve_relay_conn (new_manager cfg) a).1

second_of_client : (reserve_relay_conn one a).0 ≡ some max_conns_per_client
unfolding reserve_relay_conn new_manager lookup insert bytes_beq
second_of_client = refl

third_in_total : (reserve_relay_conn (reserve_relay_conn one b).1 []).0 ≡ some max_total_conns
unfolding reserve_relay_conn new_manager lookup insert bytes_beq
third_in_total = refl

one-IsWithin : IsWithin one
unfolding run
one-IsWithin = reserve-IsWithin (new_manager cfg) a (run-IsWithin cfg [])

one_held : conns_of one a ≡ 1
unfolding reserve_relay_conn new_manager lookup insert bytes_beq
one_held = refl

reserved : (reserve_relay_conn one b).0 ≡ none
unfolding reserve_relay_conn new_manager lookup insert bytes_beq
reserved = refl

-- Ten bytes at the end of one window and ten at the start of the next, two seconds apart.
abbrev burst : List (ℕ × ℕ × ℕ)
burst = (59000000000, 5, 10) ∷ (61000000000, 5, 10) ∷ (62000000000, 5, 10) ∷ []

twice_the_limit : granted (run_bytes (new_manager cfg) ((0, 5, 1) ∷ (1, 5, 20) ∷ [])) 5 burst ≡ 10
unfolding granted run_bytes allow_session_bytes allow_bytes new_manager lookup insert
twice_the_limit = refl

burst-InMinute : InMinute 59000000000 burst
unfolding InMinute
burst-InMinute =
    (omega arith, omega arith, (omega arith, omega arith, (omega arith, omega arith, tt)))

granted-InMinute_example : granted (run_bytes (new_manager cfg) ((0, 5, 1) ∷ [])) 5 burst ≤ 10 + 10
granted-InMinute_example =
    granted-InMinute cfg ((0, 5, 1) ∷ []) burst 5 59000000000 (omega arith) burst-InMinute

in_third_second : InSecond 3000000000 ((3000000001, 5) ∷ (3000000002, 5) ∷ [])
unfolding InSecond
in_third_second = (refl, (refl, tt))

granted-InSecond_example :
    granted_packets
      (run_packets (new_manager cfg) ((1, 5) ∷ []))
      5
      ((3000000001, 5) ∷ (3000000002, 5) ∷ [])
    ≤ 1
granted-InSecond_example =
    granted-InSecond cfg ((1, 5) ∷ []) ((3000000001, 5) ∷ (3000000002, 5) ∷ []) 5 3000000000
      (omega arith) in_third_second
