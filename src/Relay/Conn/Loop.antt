-- ===== src/Relay/Conn/Loop.antt =====
-- internal/relay/conn.go: the loop of `Enqueue` has fuel enough.
use vlf_proto.Base.{
  ℕ, zero, suc, ◌+◌, ◌≤◌, [], ◌∷◌, ◌++◌, ◌==◌, length, take, drop, ◌≡◌, arith, inl, inr, Bool-cases,
  length-drop,
}
use vlf_proto.Wire.{Bytes}
use vlf_proto.Relay.Conn.{RelayConn, chunk, enqueue_chunks}

-- As many rounds as there are bytes are enough for the loop: one more changes nothing.
enqueue_chunks_enough :
    (fuel : ℕ) (c : RelayConn) (rest : Bytes)
    → length rest ≤ fuel
    → enqueue_chunks (suc fuel) c rest ≡ enqueue_chunks fuel c rest
unfolding enqueue_chunks
enqueue_chunks_enough zero c rest h = ground (arith, h)
enqueue_chunks_enough (suc fuel) c rest h =
    let part = take chunk rest in
    let c' = record c {
      upstream_queue = c.upstream_queue ++ part ∷ [];
      upstream_bytes = c.upstream_bytes + length part;
    } in
    elim (Bool-cases (length rest == 0)) [
      | inl empty ↦ ground (arith, empty)
      | inr some_rest ↦
          let less : length (drop chunk rest) ≤ fuel =
            ground (arith, h, some_rest, length-drop chunk rest) in
          ground (arith, some_rest, enqueue_chunks_enough fuel c' (drop chunk rest) less)
    ]
