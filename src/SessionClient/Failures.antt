-- ===== src/SessionClient/Failures.antt =====
-- internal/sessionclient/quic_client.go: how a client takes the reason out of an AUTH_FAIL or an
-- OPEN_FAIL payload. Lengths go through Go's `int`, which wraps at 64 bits, and a slice expression
-- with bounds out of range panics.
use vlf_proto.Base.{
  ℕ, ◌+◌, ◌-◌, ◌%◌, ◌^◌, Bool, ◌&&◌, ◌||◌, [], ltb, leb, ◌==◌, if◌then◌else◌, length, take, drop,
  Option, none, some, Result, ok, err,
}
use vlf_proto.Wire.{Bytes, read_uvarint, uint_of}

pub data Panic : Type 0 where
  slice_bounds : Panic

-- `binary.Uvarint`: the value and how many bytes it took, or `none` where that number is not
-- positive.
unfoldable pub uvarint : Bytes → Option (ℕ × ℕ)
uvarint s = elim (read_uvarint s) [ ok (x, r) ↦ some (x, length s - length r) | err e ↦ none ]

-- `int(x)` after an addition, as its 64-bit pattern; patterns from 2 ^ 63 on stand for negative
-- numbers.
abbrev pub int_pattern : ℕ → ℕ
int_pattern x = x % 2 ^ 64

-- `bs[start:end]` for a pattern `end`, with `start` in range.
unfoldable pub slice : Bytes → ℕ → ℕ → Result Panic Bytes
slice bs start end =
    if leb (2 ^ 63) end || (ltb end start || ltb (length bs) end)
    then err slice_bounds
    else ok (take (end - start) (drop start bs))

-- `end > len(bs)` for a pattern `end`.
abbrev pub above_length : ℕ → Bytes → Bool
above_length end bs = ltb end (2 ^ 63) && ltb (length bs) end

unfoldable pub decode_auth_fail_reason : Bytes → Result Panic Bytes
decode_auth_fail_reason payload = if length payload == 0 then ok [] else elim (uvarint payload) [
  | none ↦ ok payload
  | some (ln, n) ↦
      if above_length (int_pattern (ln + n)) payload
      then ok payload
      else slice payload n (int_pattern (n + ln))
]

abbrev pub with_flow : ℕ → Result Panic Bytes → Result Panic (ℕ × Bytes)
with_flow flow_id (ok reason) = ok (flow_id, reason)
with_flow flow_id (err e) = err e

unfoldable pub decode_fail_payload : Bytes → Result Panic (ℕ × Bytes)
decode_fail_payload payload =
    let flow_id = uint_of (take 8 payload) in
    if ltb (length payload) 8
    then ok (0, payload)
    else if length payload == 8
    then ok (flow_id, [])
    else elim (uvarint (drop 8 payload)) [
      | none ↦ ok (flow_id, [])
      | some (ln, n) ↦
          let start = 8 + n in
          let end = int_pattern (start + ln) in
          if ltb (length payload) start || above_length end payload
          then ok (flow_id, [])
          else with_flow flow_id (slice payload start end)
    ]
