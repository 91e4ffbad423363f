-- ===== src/Wire/Laws.antt =====
-- What is written is read back: varints, words and buffers, whatever bytes follow.
use vlf_proto.Base.{
  ℕ, zero, suc, ◌+◌, ◌*◌, ◌/◌, ◌%◌, ◌^◌, ◌≤◌, ◌<◌, ◌++◌, ltb, length, take, drop, ok, err, ◌≡◌,
  refl, ◌∙◌, arith, Bool-cases, inl, inr, length-append, take-append, drop-append, le→leb, lt→ltb,
  le→ltb,
}
use vlf_proto.Wire.{
  Bytes, put_uvarint_at, put_uvarint, read_uvarint_at, read_uvarint, read_full, make_and_read,
  max_alloc, put_uint16, put_uint32, put_uint64, uint_of, read_word, makeslice_panic,
}

-- What `suc k` bytes of a varint can hold, where the last is 1 at most.
abbrev room : ℕ → ℕ
room zero = 2
room (suc k) = 128 * room k

read-put_uvarint_at :
    (k x : ℕ) (r : Bytes)
    → x < room k
    → read_uvarint_at (suc k) (put_uvarint_at (suc k) x ++ r) ≡ ok (x, r)
unfolding read_uvarint_at put_uvarint_at
read-put_uvarint_at zero x r h = ground arith
read-put_uvarint_at (suc k) x r h = elim (Bool-cases (ltb x 128)) [
  | inl small ↦ rw (small, small) (ground arith)
  | inr large ↦
      rw (large, le→ltb (x % 128 + 128) 128 (omega arith))
        (rw (read-put_uvarint_at k (x / 128) r (ground arith)) (ground arith))
]

-- A 64-bit value survives `PutUvarint` and `ReadUvarint`.
pub read_uvarint-put_uvarint :
    (x : ℕ) (r : Bytes) → x < 2 ^ 64 → read_uvarint (put_uvarint x ++ r) ≡ ok (x, r)
unfolding read_uvarint put_uvarint
read_uvarint-put_uvarint x r h = read-put_uvarint_at 9 x r h

pub read_full-append : (bs r : Bytes) → read_full (length bs) (bs ++ r) ≡ ok (bs, r)
unfolding read_full
read_full-append bs r =
    rw (le→leb (length bs) (length (bs ++ r)) (omega (arith, length-append bs r)))
      (rw (take-append bs r, drop-append bs r))

pub uint_of-put_uint16 : (v : ℕ) → v < 2 ^ 16 → uint_of (put_uint16 v) ≡ v
unfolding uint_of put_uint16
uint_of-put_uint16 v h = omega arith

pub uint_of-put_uint32 : (v : ℕ) → v < 2 ^ 32 → uint_of (put_uint32 v) ≡ v
unfolding uint_of put_uint32
uint_of-put_uint32 v h = omega arith

pub uint_of-put_uint64 : (v : ℕ) → v < 2 ^ 64 → uint_of (put_uint64 v) ≡ v
unfolding uint_of put_uint64
uint_of-put_uint64 v h = omega arith

pub length-put_uint16 : (v : ℕ) → length (put_uint16 v) ≡ 2
unfolding put_uint16
length-put_uint16 v = refl

pub length-put_uint32 : (v : ℕ) → length (put_uint32 v) ≡ 4
unfolding put_uint32
length-put_uint32 v = refl

pub length-put_uint64 : (v : ℕ) → length (put_uint64 v) ≡ 8
unfolding put_uint64
length-put_uint64 v = refl

read_word-append : (bs r : Bytes) → read_word (length bs) (bs ++ r) ≡ ok (uint_of bs, r)
unfolding read_word
read_word-append bs r = rw (read_full-append bs r)

pub read_word-put_uint16 :
    (v : ℕ) (r : Bytes) → v < 2 ^ 16 → read_word 2 (put_uint16 v ++ r) ≡ ok (v, r)
read_word-put_uint16 v r h =
    rw (← (length-put_uint16 v)) (read_word-append (put_uint16 v) r ∙ rw (uint_of-put_uint16 v h))

pub read_word-put_uint32 :
    (v : ℕ) (r : Bytes) → v < 2 ^ 32 → read_word 4 (put_uint32 v ++ r) ≡ ok (v, r)
read_word-put_uint32 v r h =
    rw (← (length-put_uint32 v)) (read_word-append (put_uint32 v) r ∙ rw (uint_of-put_uint32 v h))

pub read_word-put_uint64 :
    (v : ℕ) (r : Bytes) → v < 2 ^ 64 → read_word 8 (put_uint64 v ++ r) ≡ ok (v, r)
read_word-put_uint64 v r h =
    rw (← (length-put_uint64 v)) (read_word-append (put_uint64 v) r ∙ rw (uint_of-put_uint64 v h))

length-put_uvarint_at : (k x : ℕ) → length (put_uvarint_at k x) ≤ k
unfolding put_uvarint_at
length-put_uvarint_at zero x = omega arith
length-put_uvarint_at (suc k) x = ground (arith, length-put_uvarint_at k (x / 128))

-- The scratch buffers of ten bytes hold any varint.
pub length-put_uvarint : (x : ℕ) → length (put_uvarint x) ≤ 10
unfolding put_uvarint
length-put_uvarint x = length-put_uvarint_at 10 x

pub make_and_read-append :
    (bs r : Bytes) → length bs ≤ max_alloc → make_and_read (length bs) (bs ++ r) ≡ ok (bs, r)
unfolding make_and_read
make_and_read-append bs r h = rw (le→ltb max_alloc (length bs) h) (read_full-append bs r)

pub make_and_read_panic :
    (n : ℕ) (r : Bytes) → max_alloc < n → make_and_read n r ≡ err makeslice_panic
unfolding make_and_read
make_and_read_panic n r h = rw (lt→ltb max_alloc n h)

-- A word at the front is the first eight bytes.
pub put_uint64-append :
    (v : ℕ) (bs : Bytes)
    → (take 8 (put_uint64 v ++ bs) ≡ put_uint64 v)
      × (drop 8 (put_uint64 v ++ bs) ≡ bs)
      × (length (put_uint64 v ++ bs) ≡ 8 + length bs)
unfolding put_uint64
put_uint64-append v bs = (refl, refl, omega arith)

pub length-put_uvarint_pos : (x : ℕ) → 0 < length (put_uvarint x)
unfolding put_uvarint put_uvarint_at
length-put_uvarint_pos x = ground arith
