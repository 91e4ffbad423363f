-- ===== src/Wire.antt =====
-- What the gateway uses of Go's encoding/binary, io and bytes: unsigned varints, big-endian words,
-- `io.ReadFull` and the reads of a `bytes.Reader`. A reader is the list of the bytes still unread.
pub mod Laws
pub mod Prefix
pub mod Sizes
use vlf_proto.Base.{
  ℕ, zero, suc, ◌+◌, ◌*◌, ◌/◌, ◌%◌, ◌^◌, Bool, true, false, ◌&&◌, List, [], ◌∷◌, ◌++◌, ltb, leb,
  ◌==◌, if◌then◌else◌, length, take, drop, Result, ok, err, ◌>>=◌,
}

-- Bytes, and Go strings, which are byte sequences.
abbrev pub Bytes : Type 0
Bytes = List ℕ

pub data WireError : Type 0 where
  eof : WireError  -- io.EOF
  unexpected_eof : WireError  -- io.ErrUnexpectedEOF
  overflow : WireError  -- binary: varint overflows a 64-bit integer
  makeslice_panic : WireError  -- the runtime panic of `make([]byte, n)` on a length out of range
  too_short : WireError  -- a length check of the package itself
  trailing_bytes : WireError

-- A panic that nothing recovers: the process ends.
unfoldable pub is_panic : WireError → Bool
is_panic makeslice_panic = true
is_panic e = false

abbrev pub Read : Type 0 → Type 0
Read A = Bytes → Result WireError (A × Bytes)

-- The largest slice that the runtime can address (`maxAlloc`, 48 bits on 64-bit platforms);
-- `make` panics above it.
abbrev pub max_alloc : ℕ
max_alloc = 2 ^ 48

-- `binary.PutUvarint`, by the bytes that a 64-bit value can take (`MaxVarintLen64` is 10).
put_uvarint_at : ℕ → ℕ → Bytes
put_uvarint_at zero x = []
put_uvarint_at (suc k) x =
    let rest = (x % 128 + 128) ∷ put_uvarint_at k (x / 128) in if ltb x 128 then x ∷ [] else rest

unfoldable pub put_uvarint : ℕ → Bytes
unfolding put_uvarint_at
put_uvarint x = put_uvarint_at 10 x

-- `binary.ReadUvarint` with `k` rounds left. The end of input is `io.EOF` at the first byte only,
-- and the tenth byte may be 1 at most.
read_uvarint_at : ℕ → Read ℕ
read_uvarint_at zero r = err overflow
read_uvarint_at (suc k) [] = err (if k == 9 then eof else unexpected_eof)
read_uvarint_at (suc k) (b ∷ r) =
    let rest = read_uvarint_at k r >>= λ (x, r'). ok (b % 128 + 128 * x, r') in
    if ltb b 128 then if (k == 0) && ltb 1 b then err overflow else ok (b, r) else rest

unfoldable pub read_uvarint : Read ℕ
unfolding read_uvarint_at
read_uvarint r = read_uvarint_at 10 r

-- `io.ReadFull` into a buffer of `n` bytes.
unfoldable pub read_full : ℕ → Read Bytes
read_full n r =
    if leb n (length r)
    then ok (take n r, drop n r)
    else if length r == 0
    then err eof
    else err unexpected_eof

-- `make([]byte, n)`, with the read that fills it.
unfoldable pub make_and_read : ℕ → Read Bytes
make_and_read n r = if ltb max_alloc n then err makeslice_panic else read_full n r

-- Big-endian words: `binary.BigEndian.PutUint64` and the narrower ones.
unfoldable pub put_uint16 : ℕ → Bytes
put_uint16 v = (v / 256 % 256) ∷ (v % 256) ∷ []

unfoldable pub put_uint32 : ℕ → Bytes
unfolding put_uint16
put_uint32 v = put_uint16 (v / 2 ^ 16) ++ put_uint16 (v % 2 ^ 16)

unfoldable pub put_uint64 : ℕ → Bytes
unfolding put_uint32
put_uint64 v = put_uint32 (v / 2 ^ 32) ++ put_uint32 (v % 2 ^ 32)

-- `binary.BigEndian.Uint64` and the narrower ones, of all the bytes given.
unfoldable pub uint_from : ℕ → Bytes → ℕ
uint_from acc [] = acc
uint_from acc (b ∷ bs) = uint_from (acc * 256 + b) bs

unfoldable pub uint_of : Bytes → ℕ
unfolding uint_from
uint_of bs = uint_from 0 bs

-- `binary.Read(r, binary.BigEndian, &v)` of a `w`-byte word.
unfoldable pub read_word : ℕ → Read ℕ
unfolding read_full
read_word w r = read_full w r >>= λ (bs, r'). ok (uint_of bs, r')

-- `bytes.Reader.ReadByte`
unfoldable pub read_byte : Read ℕ
read_byte [] = err eof
read_byte (b ∷ r) = ok (b, r)
