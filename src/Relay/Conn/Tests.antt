-- ===== src/Relay/Conn/Tests.antt =====
-- Runs of a relay connection, without other goroutines.
use vlf_proto.Base.{none, some, true, [], ◌∷◌, replicate, ok, ◌≡◌, refl}
use vlf_proto.Relay.Conn.{
  mark_eos, RelayConn, new_relay_conn, enqueue_chunks, enqueue, upstream_write,
}

abbrev fresh_conn : RelayConn
fresh_conn = new_relay_conn (1 ∷ []) (7 ∷ []) 5 4 8 1000000000 100

-- More than the window holds is not taken.
window_run : (enqueue fresh_conn 101 (replicate 9 1)).0 ≡ ok (0, 0)
unfolding enqueue enqueue_chunks new_relay_conn
window_run = refl

-- The first chunk is written, and the end of the target is marked when a write fails.
write_run : (upstream_write (enqueue fresh_conn 101 (1 ∷ 2 ∷ [])).1 103 none).0 ≡ 1 ∷ 2 ∷ []
unfolding enqueue enqueue_chunks upstream_write new_relay_conn
write_run = refl

failed_run : (upstream_write (enqueue fresh_conn 101 (1 ∷ 2 ∷ [])).1 103 (some 1)).1.eos ≡ true
unfolding enqueue enqueue_chunks upstream_write new_relay_conn mark_eos
failed_run = refl
