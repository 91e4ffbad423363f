-- ===== src/Relay/RingBuffer/Tests.antt =====
-- Runs of the ring buffer, and the theorems at concrete buffers.
use vlf_proto.Base.{List, true, false, max, [], ◌∷◌, ◌≡◌, refl, arith}
use vlf_proto.Relay.RingBuffer.{
  RingBuffer, new_ring_buffer, store, write, front, advance, read, IsValid,
}
use vlf_proto.Relay.RingBuffer.Refine.{run_refines, Op, put, get, shut, run, run_queue}

-- Four bytes of room with one byte held at the last index.
abbrev wrapped : RingBuffer
wrapped = record { buf = 0 ∷ 0 ∷ 0 ∷ 5 ∷ []; r = 3; w = 0; size = 1; closed = false }

wrapped-IsValid : IsValid wrapped
wrapped-IsValid = record { r_in = omega arith; size_in = omega arith; w_at = refl }

-- Three of the four bytes fit.
write_overflow :
    write wrapped (1 ∷ 2 ∷ 3 ∷ 4 ∷ [])
    ≡ (3, true, record { buf = 1 ∷ 2 ∷ 3 ∷ 5 ∷ []; r = 3; w = 3; size = 4; closed = false })
unfolding write store
write_overflow = refl

read_round :
    (read (record { buf = 1 ∷ 2 ∷ 3 ∷ 5 ∷ []; r = 3; w = 3; size = 4; closed = true }) 9).0
    ≡ 5 ∷ 1 ∷ 2 ∷ 3 ∷ []
unfolding read front advance
read_round = refl

abbrev round_trip : List Op
round_trip = put (1 ∷ 2 ∷ []) ∷ get 1 ∷ put (3 ∷ 4 ∷ []) ∷ shut ∷ get 5 ∷ []

run_refines_example :
    run (new_ring_buffer 2) round_trip
    ≡ run_queue (max 2 1) (record { bytes = []; closed = false }) round_trip
run_refines_example = run_refines 2 round_trip
