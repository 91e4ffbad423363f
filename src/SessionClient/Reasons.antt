-- ===== src/SessionClient/Reasons.antt =====
-- internal/sessionclient/quic_client.go against internal/session/frame.go: the reasons that a
-- gateway sends and those that a client reads.
use vlf_proto.Base.{
  ℕ, ◌+◌, ◌-◌, ◌^◌, ◌≤◌, ◌<◌, false, [], ◌++◌, length, take, some, ok, err, ◌≡◌, refl, arith, ap,
  ◌∙◌, sym, length-append, drop-append, take_all, append_assoc,
}
use vlf_proto.Wire.{Bytes, max_alloc, uint_of, put_uint64, put_uvarint}
use vlf_proto.Wire.Laws.{
  read_uvarint-put_uvarint, put_uint64-append, uint_of-put_uint64, length-put_uint64,
  length-put_uvarint, length-put_uvarint_pos,
}
use vlf_proto.Frame.{FailPayload, encode_fail_payload, encode_auth_fail}
use vlf_proto.Frame.RoundTrip.{field, write_bytes-field}
use vlf_proto.SessionClient.Failures.{
  slice_bounds, uvarint, slice, int_pattern, above_length, decode_auth_fail_reason, with_flow,
  decode_fail_payload,
}

uvarint-put_uvarint :
    (x : ℕ) (r : Bytes)
    → x < 2 ^ 64
    → uvarint (put_uvarint x ++ r) ≡ some (x, length (put_uvarint x))
unfolding uvarint
uvarint-put_uvarint x r h =
    rw (read_uvarint-put_uvarint x r h, uvarint)
      (ap (λ n. some (x, n)) (omega (arith, length-append (put_uvarint x) r)))

-- A slice that starts behind a prefix and ends where the bytes end.
slice-append :
    (hd bs : Bytes) (start end : ℕ)
    → start ≡ length hd
    → end ≡ length (hd ++ bs)
    → length (hd ++ bs) < 2 ^ 63
    → slice (hd ++ bs) start end ≡ ok bs
unfolding slice
slice-append hd bs start end s e h =
    rw (s, e)
      (ground (
        arith,
        length-append hd bs,
        drop-append hd bs,
        take_all (length (hd ++ bs) - length hd) bs,
      ))

auth_fail_slice :
    (payload : Bytes) (ln n : ℕ)
    → uvarint payload ≡ some (ln, n)
    → 0 < n
    → n + ln ≡ length payload
    → length payload < 2 ^ 63
    → decode_auth_fail_reason payload ≡ slice payload n (length payload)
unfolding decode_auth_fail_reason
auth_fail_slice payload ln n e pos whole small = rw e (ground arith)

encode_auth_fail-field : (reason : Bytes) → encode_auth_fail reason ≡ field reason
unfolding encode_auth_fail
encode_auth_fail-field reason = write_bytes-field [] reason

-- A client reads the reason that an AUTH_FAIL payload carries.
pub decode_auth_fail_reason-encode_auth_fail :
    (reason : Bytes)
    → length reason ≤ max_alloc
    → decode_auth_fail_reason (encode_auth_fail reason) ≡ ok reason
decode_auth_fail_reason-encode_auth_fail reason h =
    let ln = length reason in
    let hd = put_uvarint ln in
    let small : length (hd ++ reason) < 2 ^ 63 =
      omega (arith, length-append hd reason, length-put_uvarint ln) in
    rw (encode_auth_fail-field reason) (
      auth_fail_slice (hd ++ reason) ln (length hd) (uvarint-put_uvarint ln reason (omega arith))
        (length-put_uvarint_pos ln) (sym (length-append hd reason)) small
      ∙ slice-append hd reason (length hd) (length (hd ++ reason)) refl refl small)

-- What `decodeFailPayload` does behind the flow id, where the length is read in `n` bytes.
fail_slice :
    (flow_id : ℕ) (bs : Bytes) (ln n : ℕ)
    → flow_id < 2 ^ 64
    → uvarint bs ≡ some (ln, n)
    → 0 < n
    → n ≤ length bs
    → let payload = put_uint64 flow_id ++ bs in
      let end = int_pattern (8 + n + ln) in
      above_length end payload ≡ false
      → decode_fail_payload payload ≡ with_flow flow_id (slice payload (8 + n) end)
unfolding decode_fail_payload
fail_slice flow_id bs ln n h e pos inside below =
    let (front, back, len) = put_uint64-append flow_id bs in
    let id : uint_of (take 8 (put_uint64 flow_id ++ bs)) ≡ flow_id =
      ap uint_of front ∙ uint_of-put_uint64 flow_id h in
    rw (back, e) (ground (arith, len, id))

encode_fail_payload-field :
    (p : FailPayload) → encode_fail_payload p ≡ put_uint64 p.flow_id ++ field p.reason
unfolding encode_fail_payload
encode_fail_payload-field p = write_bytes-field (put_uint64 p.flow_id) p.reason

-- A client reads the flow id and the reason that an OPEN_FAIL payload carries.
pub decode_fail_payload-encode_fail_payload :
    (p : FailPayload)
    → p.flow_id < 2 ^ 64
    → length p.reason ≤ max_alloc
    → decode_fail_payload (encode_fail_payload p) ≡ ok (p.flow_id, p.reason)
decode_fail_payload-encode_fail_payload p h k =
    let ln = length p.reason in
    let hd = put_uvarint ln in
    let id = put_uint64 p.flow_id in
    let split = length-append hd p.reason in
    let total = length-append id (hd ++ p.reason) in
    let eight = length-put_uint64 p.flow_id in
    let ten = length-put_uvarint ln in
    let last : int_pattern (8 + length hd + ln) ≡ length (id ++ (hd ++ p.reason)) =
      omega (arith, split, total, eight, ten) in
    rw (encode_fail_payload-field p) (
      fail_slice p.flow_id (hd ++ p.reason) ln (length hd) h
        (uvarint-put_uvarint ln p.reason (omega arith)) (length-put_uvarint_pos ln)
        (omega (arith, split)) (ground (arith, last))
      ∙ rw (last, ← (append_assoc id hd p.reason))
          (rw (
            slice-append (id ++ hd) p.reason (8 + length hd) _
              (omega (arith, length-append id hd, eight)) refl
              (rw (append_assoc id hd p.reason) (omega (arith, split, total, eight, ten))))))

-- A length of 2 ^ 63 or more is negative as an `int`, passes the bounds test, and makes the slice
-- expression panic, whatever follows it.
pub decode_fail_payload_panics :
    (flow_id ln : ℕ) (r : Bytes)
    → flow_id < 2 ^ 64
    → 2 ^ 63 ≤ ln
    → ln < 2 ^ 64
    → length r < 2 ^ 62
    → decode_fail_payload (put_uint64 flow_id ++ (put_uvarint ln ++ r)) ≡ err slice_bounds
unfolding slice
decode_fail_payload_panics flow_id ln r h neg wide short =
    let n = length (put_uvarint ln) in
    let split = length-append (put_uvarint ln) r in
    let total = length-append (put_uint64 flow_id) (put_uvarint ln ++ r) in
    let eight = length-put_uint64 flow_id in
    let ten = length-put_uvarint ln in
    fail_slice flow_id (put_uvarint ln ++ r) ln n h (uvarint-put_uvarint ln r wide)
      (length-put_uvarint_pos ln) (omega (arith, split)) (ground (arith, split, total, eight, ten))
    ∙ ground (arith, split, total, eight, ten)
