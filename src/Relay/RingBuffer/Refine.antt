-- ===== src/Relay/RingBuffer/Refine.antt =====
-- internal/relay/ring_buffer.go: the ring buffer is the queue of the bytes that it holds.
use native.Mathlib.Nat.{mod-eq_of_lt}
use vlf_proto.Base.{
  ℕ, zero, suc, ◌-◌, Bool, false, List, [], ◌∷◌, ltb, if◌then◌else◌, length, take, max, ◌≡◌, refl,
  arith, ap, ap₂, ◌∙◌, length-take, length-drop, take_all, drop_all, append-nil, length-replicate,
  replicate,
}
use vlf_proto.Wire.{Bytes}
use vlf_proto.Relay.RingBuffer.{
  RingBuffer, new_ring_buffer, min_int, store, write, advance, read, close, IsValid,
}
use vlf_proto.Relay.RingBuffer.Queue
use vlf_proto.Relay.RingBuffer.Queue.{Queue}
use vlf_proto.Relay.RingBuffer.Contents.{
  contents, view, length-store, length-contents, contents-store, store-IsValid,
}
use vlf_proto.Relay.RingBuffer.Front.{take-contents, drop-contents, advance-IsValid}

closed-store : (b : RingBuffer) (p : Bytes) → (store b p).closed ≡ b.closed
unfolding store
closed-store b p = refl

take-nil : (n : ℕ) → take {A = ℕ} n [] ≡ []
take-nil zero = refl
take-nil (suc n) = refl

-- `Write` takes as many bytes as the queue does, reports the same overflow, and leaves the buffer
-- valid and holding what the queue holds.
pub write_refines :
    {b : RingBuffer} (p : Bytes)
    → IsValid b
    → let (n, overflow, b') = write b p in
      ((n, overflow, view b') ≡ Queue.write (length b.buf) (view b) p) × IsValid b'
unfolding write Queue.write
write_refines {b} [] v = ground (
  arith,
  append-nil (contents b),
  length-contents b,
  take-nil (length b.buf - length (contents b)),
)
write_refines {b} (x ∷ xs) v =
    let p = x ∷ xs in
    let free = length b.buf - b.size in
    let len = length-take free p in
    ground (
      arith,
      length-contents b,
      append-nil (contents b),
      len,
      take_all free p,
      contents-store b p v,
      store-IsValid b p v,
      closed-store b p,
      contents-store b (take free p) v,
      store-IsValid b (take free p) v,
      closed-store b (take free p),
    )

closed-advance :
    (b : RingBuffer) (n : ℕ) → ((advance b n).closed ≡ b.closed) × ((advance b n).size ≡ b.size - n)
unfolding advance
closed-advance b n = (refl, refl)

-- `Read` returns the bytes and the end of stream that the queue does, and leaves the buffer valid
-- and holding what the queue holds.
pub read_refines :
    {b : RingBuffer} (max : ℕ)
    → IsValid b
    → let (out, eos, b') = read b max in
      ((out, eos, view b') ≡ Queue.read (view b) max) × IsValid b'
unfolding read Queue.read
read_refines {b} max v =
    let n = min_int max b.size in
    ground (
      arith,
      length-contents b,
      length-contents (advance b n),
      closed-advance b n,
      take-contents b n v,
      drop-contents b n v,
      advance-IsValid b n v,
      take_all max (contents b),
      drop_all max (contents b),
      take_all b.size (contents b),
      drop_all b.size (contents b),
      length-drop max (contents b),
    )

pub data Op : Type 0 where
  put : Bytes → Op
  get : ℕ → Op
  shut : Op

-- What a caller sees of a call.
pub data Reply : Type 0 where
  taken : ℕ → Bool → Reply
  given : Bytes → Bool → Reply
  shut_done : Reply

unfoldable pub run : RingBuffer → List Op → List Reply
run b [] = []
run b (put p ∷ ops) = let (n, overflow, b') = write b p in taken n overflow ∷ run b' ops
run b (get max ∷ ops) = let (out, eos, b') = read b max in given out eos ∷ run b' ops
run b (shut ∷ ops) = shut_done ∷ run (close b) ops

unfoldable pub run_queue : ℕ → Queue → List Op → List Reply
run_queue cap q [] = []
run_queue cap q (put p ∷ ops) =
    let (n, overflow, q') = Queue.write cap q p in taken n overflow ∷ run_queue cap q' ops
run_queue cap q (get max ∷ ops) =
    let (out, eos, q') = Queue.read q max in given out eos ∷ run_queue cap q' ops
run_queue cap q (shut ∷ ops) = shut_done ∷ run_queue cap (Queue.close q) ops

length-write : (b : RingBuffer) (p : Bytes) → length (write b p).2.buf ≡ length b.buf
unfolding write
length-write b p = ground (arith, length-store b p, length-store b (take (length b.buf - b.size) p))

length-read : (b : RingBuffer) (max : ℕ) → length (read b max).2.buf ≡ length b.buf
unfolding read advance
length-read b max = ground arith

close-IsValid : (b : RingBuffer) → IsValid b → IsValid (close b)
unfolding close
close-IsValid b v = ground arith

close-view :
    (b : RingBuffer)
    → (length (close b).buf ≡ length b.buf) × (view (close b) ≡ Queue.close (view b))
unfolding close contents Queue.close
close-view b = (refl, refl)

run-run_queue :
    (b : RingBuffer) (ops : List Op) → IsValid b → run b ops ≡ run_queue (length b.buf) (view b) ops
unfolding run run_queue
run-run_queue b [] v = refl
run-run_queue b (put p ∷ ops) v =
    let (same, v') = write_refines p v in
    ground (arith, same, length-write b p, run-run_queue (write b p).2 ops v')
run-run_queue b (get max ∷ ops) v =
    let (same, v') = read_refines max v in
    ground (arith, same, length-read b max, run-run_queue (read b max).2 ops v')
run-run_queue b (shut ∷ ops) v =
    ap (λ l. shut_done ∷ l)
      (run-run_queue (close b) ops (close-IsValid b v)
        ∙ ap₂ (λ c q. run_queue c q ops) (close-view b).0 (close-view b).1)

new-IsValid : (capacity : ℕ) → IsValid (new_ring_buffer capacity)
unfolding new_ring_buffer
new-IsValid capacity =
    let cap = if ltb capacity 1 then 1 else capacity in
    ground (arith, length-replicate {A = ℕ} cap 0, mod-eq_of_lt {n = 0} {m = cap})

-- No sequence of writes, reads and closes tells a new ring buffer from a bounded queue, whatever
-- capacity was asked for: a capacity below one is one.
pub run_refines :
    (capacity : ℕ) (ops : List Op)
    → run (new_ring_buffer capacity) ops
      ≡ run_queue (max capacity 1) (record { bytes = []; closed = false }) ops
unfolding new_ring_buffer contents
run_refines capacity ops =
    let cap = if ltb capacity 1 then 1 else capacity in
    let full : length (replicate cap 0) ≡ max capacity 1 =
      ground (arith, length-replicate {A = ℕ} cap 0) in
    run-run_queue (new_ring_buffer capacity) ops (new-IsValid capacity)
    ∙ ap (λ c. run_queue c (record { bytes = []; closed = false }) ops) full
