-- ===== src/Frame.antt =====
-- internal/session/frame.go: the TLV frames of the control stream and their payloads. An encoder
-- into a `bytes.Buffer`, which never fails, returns the bytes; `WriteFrame` takes its writer as a
-- parameter, and so reports that writer's error.
pub mod FrameType
pub mod RoundTrip
pub mod Streams
pub mod Rejects
mod Tests
use vlf_proto.Base.{
  ℕ, ◌+◌, ◌^◌, Bool, true, false, List, [], ◌∷◌, ◌++◌, ltb, ◌==◌, if◌then◌else◌, length, take, drop,
  Result, ok, err, ◌>>=◌,
}
use vlf_proto.Wire.{
  Bytes, WireError, too_short, trailing_bytes, Read, put_uvarint, read_uvarint, make_and_read,
  put_uint16, put_uint32, put_uint64, uint_of, read_word, read_byte,
}

pub record Frame : Type 0 where
  pub type : ℕ
  pub payload : Bytes

-- A frame with its payload read whole; `make` panics on a length that no slice can have.
unfoldable pub read_frame : Read Frame
read_frame r = do
  (typ, r₁) ← read_uvarint r
  (ln, r₂) ← read_uvarint r₁
  (payload, r₃) ← make_and_read ln r₂
  ok (record { type = typ; payload = payload }, r₃)

-- The writer's state, and its `Write`.
module _ {W : Type 0} (write : W → Bytes → Result WireError W) where
  unfoldable pub write_frame : W → ℕ → Bytes → Result WireError W
  write_frame w frame_type payload = do
    w₁ ← write w (put_uvarint frame_type)
    w₂ ← write w₁ (put_uvarint (length payload))
    if ltb 0 (length payload) then write w₂ payload else ok w₂

unfoldable pub write_bytes : Bytes → Bytes → Bytes
write_bytes b bs = (b ++ put_uvarint (length bs)) ++ (if ltb 0 (length bs) then bs else [])

abbrev pub write_string : Bytes → Bytes → Bytes
write_string b s = write_bytes b s

unfoldable pub read_bytes : Read Bytes
read_bytes r = do (ln, r₁) ← read_uvarint r; if ln == 0 then ok ([], r₁) else make_and_read ln r₁

unfoldable pub read_string : Read Bytes
unfolding read_bytes
read_string r = do (raw, r₁) ← read_bytes r; ok (raw, r₁)

-- The check that a payload was read to its end.
unfoldable pub finish {ℓ} : {A : Type ℓ} → A → Bytes → Result WireError A
finish a r = if length r == 0 then ok a else err trailing_bytes

pub record AuthPayload : Type 0 where
  pub client_id : Bytes
  pub ts_ms : ℕ
  pub nonce : Bytes
  pub sig : Bytes
  pub caps : ℕ

unfoldable pub encode_auth_payload : AuthPayload → Bytes
encode_auth_payload p =
    let b₁ = write_string [] p.client_id in
    let b₂ = b₁ ++ put_uint64 p.ts_ms in
    let b₃ = write_bytes b₂ p.nonce in let b₄ = write_bytes b₃ p.sig in b₄ ++ put_uint64 p.caps

unfoldable pub decode_auth_payload : Bytes → Result WireError AuthPayload
decode_auth_payload raw = do
  (client_id, r₁) ← read_string raw
  (ts, r₂) ← read_word 8 r₁
  (nonce, r₃) ← read_bytes r₂
  (sig, r₄) ← read_bytes r₃
  (caps, r₅) ← read_word 8 r₄
  finish (record { client_id = client_id; ts_ms = ts; nonce = nonce; sig = sig; caps = caps }) r₅

pub record AuthOkPayload : Type 0 where
  pub session_id : ℕ
  pub expires_ms : ℕ
  pub up_kbps : ℕ
  pub down_kbps : ℕ
  pub max_flows : ℕ
  pub max_udp_pps : ℕ

unfoldable pub encode_auth_ok_payload : AuthOkPayload → Bytes
encode_auth_ok_payload p =
    put_uint64 p.session_id
    ++ (put_uint32 p.expires_ms
        ++ (put_uint32 p.up_kbps
            ++ (put_uint32 p.down_kbps ++ (put_uint32 p.max_flows ++ put_uint32 p.max_udp_pps))))

pub record OpenPayload : Type 0 where
  pub flow_id : ℕ
  pub dst_host : Bytes
  pub dst_ip : Bytes
  pub dst_port : ℕ

unfoldable pub encode_open_payload : OpenPayload → Bytes
encode_open_payload p =
    let b₁ = put_uint64 p.flow_id in
    let b₂ = write_string b₁ p.dst_host in
    let b₃ = write_bytes b₂ p.dst_ip in b₃ ++ put_uint16 p.dst_port

unfoldable pub decode_open_payload : Bytes → Result WireError OpenPayload
decode_open_payload raw = do
  (flow_id, r₁) ← read_word 8 raw
  (dst_host, r₂) ← read_string r₁
  (dst_ip, r₃) ← read_bytes r₂
  (dst_port, r₄) ← read_word 2 r₃
  finish (record { flow_id = flow_id; dst_host = dst_host; dst_ip = dst_ip; dst_port = dst_port })
      r₄

pub record OpenOkPayload : Type 0 where
  pub flow_id : ℕ
  pub mode : ℕ

unfoldable pub encode_open_ok_payload : OpenOkPayload → Bytes
encode_open_ok_payload p = put_uint64 p.flow_id ++ (p.mode ∷ [])

-- Bytes behind the mode are not looked at.
unfoldable pub decode_open_ok_payload : Bytes → Result WireError OpenOkPayload
decode_open_ok_payload raw = do
  (flow_id, r₁) ← read_word 8 raw
  (mode, r₂) ← read_byte r₁
  ok (record { flow_id = flow_id; mode = mode })

pub record CloseFlowPayload : Type 0 where
  pub flow_id : ℕ

unfoldable pub encode_close_flow_payload : CloseFlowPayload → Bytes
encode_close_flow_payload p = put_uint64 p.flow_id

unfoldable pub decode_close_flow_payload : Bytes → Result WireError CloseFlowPayload
decode_close_flow_payload raw =
    if length raw == 8 then ok (record { flow_id = uint_of raw }) else err too_short

pub record FailPayload : Type 0 where
  pub flow_id : ℕ
  pub reason : Bytes

unfoldable pub encode_fail_payload : FailPayload → Bytes
encode_fail_payload p = write_string (put_uint64 p.flow_id) p.reason

unfoldable pub encode_auth_fail : Bytes → Bytes
encode_auth_fail reason = write_string [] reason

unfoldable pub encode_tcp_data_payload : ℕ → Bytes → Bytes
encode_tcp_data_payload flow_id bs = put_uint64 flow_id ++ bs

unfoldable pub decode_tcp_data_payload : Bytes → Result WireError (ℕ × Bytes)
decode_tcp_data_payload raw =
    if ltb (length raw) 8 then err too_short else ok (uint_of (take 8 raw), drop 8 raw)
