-- ===== src/Relay/RingBuffer/Queue.antt =====
-- What the ring buffer of internal/relay/ring_buffer.go is for: a queue of at most `cap` bytes,
-- oldest first, that can be closed.
use vlf_proto.Base.{
  ℕ, ◌-◌, Bool, true, false, ◌&&◌, ◌++◌, ltb, ◌==◌, if◌then◌else◌, length, take, drop, min,
}
use vlf_proto.Wire.{Bytes}

pub record Queue : Type 0 where
  pub bytes : Bytes
  pub closed : Bool

-- As many bytes as there is room for; a closed queue takes none.
unfoldable pub write : ℕ → Queue → Bytes → ℕ × Bool × Queue
write cap q p =
    let free = cap - length q.bytes in
    if q.closed
    then (0, false, q)
    else (min (length p) free, ltb free (length p), record q { bytes = q.bytes ++ take free p })

-- The oldest bytes, `max` at most; the stream ends when a closed queue is empty.
unfoldable pub read : Queue → ℕ → Bytes × Bool × Queue
read q max =
    let rest = drop max q.bytes in
    (take max q.bytes, q.closed && length rest == 0, record q { bytes = rest })

unfoldable pub close : Queue → Queue
close q = record q { closed = true }
