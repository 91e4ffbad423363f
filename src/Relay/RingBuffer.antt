-- ===== src/Relay/RingBuffer.antt =====
-- internal/relay/ring_buffer.go: a circular byte buffer of fixed capacity. Each call holds the
-- mutex from its start to its end, so it is one step. A `max` of zero or below is 0 here.
pub mod Queue
pub mod Contents
pub mod Front
pub mod Refine
mod Tests
use vlf_proto.Base.{
  ℕ, ◌+◌, ◌-◌, ◌%◌, ◌≤◌, ◌<◌, Bool, true, false, ◌&&◌, ◌||◌, List, [], ◌++◌, ltb, leb, ◌==◌,
  if◌then◌else◌, length, take, drop, replicate, ◌≡◌, refl, arith,
}
use vlf_proto.Base.Tabulate.{copy_at}
use vlf_proto.Wire.{Bytes}

-- `r` is the index of the oldest byte and `w` the one to write next.
pub record RingBuffer : Type 0 where
  pub buf : Bytes
  pub r : ℕ
  pub w : ℕ
  pub size : ℕ
  pub closed : Bool

unfoldable pub new_ring_buffer : ℕ → RingBuffer
new_ring_buffer capacity =
    let cap = if ltb capacity 1 then 1 else capacity in
    record { buf = replicate cap 0; r = 0; w = 0; size = 0; closed = false }

abbrev pub min_int : ℕ → ℕ → ℕ
min_int a b = if ltb a b then a else b

-- The part of `Write` behind the checks: the copies, round the end of the buffer where `second`
-- bytes are left, and the new indices.
unfoldable pub store : RingBuffer → Bytes → RingBuffer
store b p =
    let n = length p in
    let first = min_int n (length b.buf - b.w) in
    let second = n - first in
    let buf₁ = copy_at b.buf b.w (take first p) in
    let buf₂ = if ltb 0 second then copy_at buf₁ 0 (drop first p) else buf₁ in
    record b { buf = buf₂; w = (b.w + n) % length b.buf; size = b.size + n }

-- `Write`: how many bytes were taken, and whether some were not.
unfoldable pub write : RingBuffer → Bytes → ℕ × Bool × RingBuffer
write b p =
    let free = length b.buf - b.size in
    let overflow = ltb free (length p) in
    let p' = if overflow then take free p else p in
    if b.closed || length p == 0
    then (0, false, b)
    else if free == 0
    then (0, true, b)
    else if length p' == 0
    then (0, overflow, b)
    else (length p', overflow, store b p')

-- The oldest `n` bytes, round the end of the buffer where `second` of them are left.
unfoldable pub front : RingBuffer → ℕ → Bytes
front b n =
    let first = min_int n (length b.buf - b.r) in
    let second = n - first in
    take first (drop b.r b.buf) ++ (if ltb 0 second then take second b.buf else [])

unfoldable pub advance : RingBuffer → ℕ → RingBuffer
advance b n = record b { r = (b.r + n) % length b.buf; size = b.size - n }

-- `Read`: the bytes, and whether the stream has ended.
unfoldable pub read : RingBuffer → ℕ → Bytes × Bool × RingBuffer
read b max =
    let n = min_int max b.size in
    let b' = advance b n in
    if (max == 0) || (b.size == 0)
    then ([], b.closed && b.size == 0, b)
    else (front b n, b'.closed && b'.size == 0, b')

unfoldable pub close : RingBuffer → RingBuffer
close b = record b { closed = true }

-- The indices are in range, and `w` is `size` steps round from `r`.
pub record IsValid (b : RingBuffer) : Type 0 where
  pub r_in : b.r < length b.buf
  pub size_in : b.size ≤ length b.buf
  pub w_at : b.w ≡ (b.r + b.size) % length b.buf
