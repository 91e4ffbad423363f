-- ===== src/Frame/FrameType.antt =====
-- The frame types of internal/session/frame.go, which its `iota` counts from 1.
use vlf_proto.Base.{ℕ}

abbrev pub auth : ℕ
auth = 1

abbrev pub auth_ok : ℕ
auth_ok = 2

abbrev pub auth_fail : ℕ
auth_fail = 3

abbrev pub open_tcp : ℕ
open_tcp = 4

abbrev pub open_tcp_ok : ℕ
open_tcp_ok = 5

abbrev pub open_tcp_fail : ℕ
open_tcp_fail = 6

abbrev pub open_udp : ℕ
open_udp = 7

abbrev pub open_udp_ok : ℕ
open_udp_ok = 8

abbrev pub open_udp_fail : ℕ
open_udp_fail = 9

abbrev pub close_flow : ℕ
close_flow = 10

abbrev pub ping : ℕ
ping = 11

abbrev pub pong : ℕ
pong = 12

abbrev pub tcp_data : ℕ
tcp_data = 13
