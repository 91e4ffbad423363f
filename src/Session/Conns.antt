-- ===== src/Session/Conns.antt =====
-- internal/session/session.go: how often a connection is dialed, closed and held by a session.
use vlf_proto.Base.{
  ℕ, ◌+◌, Bool, List, [], ◌∷◌, ◌++◌, ◌==◌, if◌then◌else◌, Option, none, some, ◌≡◌, arith,
}
use vlf_proto.Base.Assoc.{nat_eq, Map, lookup, insert, delete, Distinct}
use vlf_proto.Base.Assoc.Laws.{eq_of_beq}
use vlf_proto.Session.{
  TcpFlow, UdpFlow, Session, Effect, sent, dialed, closed, closed_stream, pumped, reads_udp,
  panicked,
}

abbrev pub one_if : Bool → ℕ
one_if b = if b then 1 else 0

-- How often a connection is dialed, and closed.
unfoldable pub dials : ℕ → List Effect → ℕ
dials h [] = 0
dials h (dialed i ∷ effects) = one_if (i == h) + dials h effects
dials h (effect ∷ effects) = dials h effects

unfoldable pub closings : ℕ → List Effect → ℕ
closings h [] = 0
closings h (closed i ∷ effects) = one_if (i == h) + closings h effects
closings h (effect ∷ effects) = closings h effects

-- How many flows of a table have a connection.
unfoldable pub tcp_held : ℕ → Map ℕ TcpFlow → ℕ
tcp_held h [] = 0
tcp_held h ((flow_id, flow) ∷ flows) = one_if (flow.target == h) + tcp_held h flows

unfoldable pub udp_held : ℕ → Map ℕ UdpFlow → ℕ
udp_held h [] = 0
udp_held h ((flow_id, flow) ∷ flows) = one_if (flow.conn == h) + udp_held h flows

unfoldable pub held : ℕ → Session → ℕ
held h s = tcp_held h s.tcp_flows + udp_held h s.udp_flows

pub record IsTidy (s : Session) : Type 0 where
  pub tcp : Distinct s.tcp_flows
  pub udp : Distinct s.udp_flows

pub dials-append : (h : ℕ) (xs ys : List Effect) → dials h (xs ++ ys) ≡ dials h xs + dials h ys
unfolding dials
dials-append h [] ys = omega arith
dials-append h (dialed i ∷ xs) ys = omega (arith, dials-append h xs ys)
dials-append h (sent t p ∷ xs) ys = dials-append h xs ys
dials-append h (closed i ∷ xs) ys = dials-append h xs ys
dials-append h (closed_stream i ∷ xs) ys = dials-append h xs ys
dials-append h (pumped f i ∷ xs) ys = dials-append h xs ys
dials-append h (reads_udp f i ∷ xs) ys = dials-append h xs ys
dials-append h (panicked ∷ xs) ys = dials-append h xs ys

pub closings-append :
    (h : ℕ) (xs ys : List Effect) → closings h (xs ++ ys) ≡ closings h xs + closings h ys
unfolding closings
closings-append h [] ys = omega arith
closings-append h (closed i ∷ xs) ys = omega (arith, closings-append h xs ys)
closings-append h (sent t p ∷ xs) ys = closings-append h xs ys
closings-append h (dialed i ∷ xs) ys = closings-append h xs ys
closings-append h (closed_stream i ∷ xs) ys = closings-append h xs ys
closings-append h (pumped f i ∷ xs) ys = closings-append h xs ys
closings-append h (reads_udp f i ∷ xs) ys = closings-append h xs ys
closings-append h (panicked ∷ xs) ys = closings-append h xs ys

abbrev pub tcp_at : ℕ → Option TcpFlow → ℕ
tcp_at h none = 0
tcp_at h (some flow) = one_if (flow.target == h)

abbrev pub udp_at : ℕ → Option UdpFlow → ℕ
udp_at h none = 0
udp_at h (some flow) = one_if (flow.conn == h)

pub tcp_held-insert :
    (h k : ℕ) (flow : TcpFlow) (m : Map ℕ TcpFlow)
    → tcp_held h (insert k flow m) + tcp_at h (lookup k m)
      ≡ tcp_held h m + one_if (flow.target == h)
unfolding tcp_held insert lookup
tcp_held-insert h k flow [] = omega arith
tcp_held-insert h k flow ((j, i) ∷ m) = ground (arith, tcp_held-insert h k flow m)

pub tcp_held-delete :
    (h k : ℕ) (m : Map ℕ TcpFlow)
    → Distinct m
    → tcp_held h (delete k m) + tcp_at h (lookup k m) ≡ tcp_held h m
unfolding tcp_held delete lookup
tcp_held-delete h k [] d = omega arith
tcp_held-delete h k ((j, i) ∷ m) d = ground (arith, tcp_held-delete h k m d.1, eq_of_beq j k, d.0)

pub udp_held-insert :
    (h k : ℕ) (flow : UdpFlow) (m : Map ℕ UdpFlow)
    → udp_held h (insert k flow m) + udp_at h (lookup k m) ≡ udp_held h m + one_if (flow.conn == h)
unfolding udp_held insert lookup
udp_held-insert h k flow [] = omega arith
udp_held-insert h k flow ((j, i) ∷ m) = ground (arith, udp_held-insert h k flow m)

pub udp_held-delete :
    (h k : ℕ) (m : Map ℕ UdpFlow)
    → Distinct m
    → udp_held h (delete k m) + udp_at h (lookup k m) ≡ udp_held h m
unfolding udp_held delete lookup
udp_held-delete h k [] d = omega arith
udp_held-delete h k ((j, i) ∷ m) d = ground (arith, udp_held-delete h k m d.1, eq_of_beq j k, d.0)
