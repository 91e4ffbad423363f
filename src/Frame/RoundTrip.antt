-- ===== src/Frame/RoundTrip.antt =====
-- internal/session/frame.go: what an encoder writes, its decoder reads back.
use vlf_proto.Base.{
  ℕ, suc, ◌^◌, ◌≤◌, ◌<◌, [], ◌∷◌, ◌++◌, ltb, if◌then◌else◌, length, Result, ok, ◌≡◌, refl, ◌∙◌,
  arith, append-nil, append_assoc, le→ltb, lt→ltb,
}
use vlf_proto.Wire.{
  Bytes, WireError, max_alloc, put_uvarint, read_uvarint, put_uint16, put_uint64, read_byte,
}
use vlf_proto.Wire.Laws.{
  read_uvarint-put_uvarint, make_and_read-append, read_word-put_uint16, read_word-put_uint64,
  uint_of-put_uint64, length-put_uint64, put_uint64-append,
}
use vlf_proto.Frame.{
  Frame, read_frame, write_frame, write_bytes, read_bytes, read_string, finish, AuthPayload,
  encode_auth_payload, decode_auth_payload, OpenPayload, encode_open_payload, decode_open_payload,
  encode_open_ok_payload, decode_open_ok_payload, encode_close_flow_payload,
  decode_close_flow_payload, encode_tcp_data_payload, decode_tcp_data_payload,
}

-- A byte string as it stands in a payload.
abbrev pub field : Bytes → Bytes
field bs = put_uvarint (length bs) ++ bs

append-if : (b bs : Bytes) → (b ++ (if ltb 0 (length bs) then bs else [])) ≡ b ++ bs
append-if b [] = refl
append-if b (x ∷ bs) = rw (lt→ltb 0 (suc (length bs)) (omega arith))

pub write_bytes-field : (b bs : Bytes) → write_bytes b bs ≡ b ++ field bs
unfolding write_bytes
write_bytes-field b bs =
    append-if (b ++ put_uvarint (length bs)) bs ∙ append_assoc b (put_uvarint (length bs)) bs

read_bytes_of :
    (s bs r : Bytes)
    → length bs ≤ max_alloc
    → read_uvarint s ≡ ok (length bs, bs ++ r)
    → read_bytes s ≡ ok (bs, r)
unfolding read_bytes
read_bytes_of s [] r h e = rw e
read_bytes_of s (b ∷ bs) r h e = rw (e, make_and_read-append (b ∷ bs) r h) (ground arith)

pub read_bytes-field :
    (bs r : Bytes) → length bs ≤ max_alloc → read_bytes (field bs ++ r) ≡ ok (bs, r)
read_bytes-field bs r h =
    rw (append_assoc (put_uvarint (length bs)) bs r)
      (read_bytes_of _ bs r h (read_uvarint-put_uvarint (length bs) (bs ++ r) (omega arith)))

pub read_string-field :
    (bs r : Bytes) → length bs ≤ max_alloc → read_string (field bs ++ r) ≡ ok (bs, r)
unfolding read_string
read_string-field bs r h = rw (read_bytes-field bs r h)

-- The values that the types of an AUTH payload's fields hold.
pub record FitsAuth (p : AuthPayload) : Type 0 where
  pub ts_ms : p.ts_ms < 2 ^ 64
  pub caps : p.caps < 2 ^ 64
  pub client_id : length p.client_id ≤ max_alloc
  pub nonce : length p.nonce ≤ max_alloc
  pub sig : length p.sig ≤ max_alloc

pub encode_auth_payload-fields :
    (p : AuthPayload) (r : Bytes)
    → encode_auth_payload p ++ r
      ≡ field p.client_id
        ++ (put_uint64 p.ts_ms ++ (field p.nonce ++ (field p.sig ++ (put_uint64 p.caps ++ r))))
unfolding encode_auth_payload
encode_auth_payload-fields p r = simp (write_bytes-field, append_assoc)

pub decode_auth_payload_tail :
    (p : AuthPayload) (r : Bytes)
    → FitsAuth p
    → decode_auth_payload (encode_auth_payload p ++ r) ≡ finish p r
unfolding decode_auth_payload
decode_auth_payload_tail p r f = rw (
  encode_auth_payload-fields p r,
  read_string-field p.client_id _ f.client_id,
  read_word-put_uint64 p.ts_ms _ f.ts_ms,
  read_bytes-field p.nonce _ f.nonce,
  read_bytes-field p.sig _ f.sig,
  read_word-put_uint64 p.caps r f.caps,
)

-- Decoding an encoded AUTH payload gives the payload back, if its numbers fit their types and its
-- byte strings can be allocated.
pub decode_auth_payload-encode_auth_payload :
    (p : AuthPayload) → FitsAuth p → decode_auth_payload (encode_auth_payload p) ≡ ok p
unfolding finish
decode_auth_payload-encode_auth_payload p f =
    rw (← (append-nil (encode_auth_payload p))) (decode_auth_payload_tail p [] f)

-- The values that the types of an OPEN payload's fields hold.
pub record FitsOpen (p : OpenPayload) : Type 0 where
  pub flow_id : p.flow_id < 2 ^ 64
  pub dst_host : length p.dst_host ≤ max_alloc
  pub dst_ip : length p.dst_ip ≤ max_alloc
  pub dst_port : p.dst_port < 2 ^ 16

encode_open_payload-fields :
    (p : OpenPayload) (r : Bytes)
    → encode_open_payload p ++ r
      ≡ put_uint64 p.flow_id
        ++ (field p.dst_host ++ (field p.dst_ip ++ (put_uint16 p.dst_port ++ r)))
unfolding encode_open_payload
encode_open_payload-fields p r = simp (write_bytes-field, append_assoc)

pub decode_open_payload_tail :
    (p : OpenPayload) (r : Bytes)
    → FitsOpen p
    → decode_open_payload (encode_open_payload p ++ r) ≡ finish p r
unfolding decode_open_payload
decode_open_payload_tail p r f = rw (
  encode_open_payload-fields p r,
  read_word-put_uint64 p.flow_id _ f.flow_id,
  read_string-field p.dst_host _ f.dst_host,
  read_bytes-field p.dst_ip _ f.dst_ip,
  read_word-put_uint16 p.dst_port r f.dst_port,
)

-- Decoding an encoded OPEN payload gives the payload back, if its numbers fit their types and its
-- byte strings can be allocated.
pub decode_open_payload-encode_open_payload :
    (p : OpenPayload) → FitsOpen p → decode_open_payload (encode_open_payload p) ≡ ok p
unfolding finish
decode_open_payload-encode_open_payload p f =
    rw (← (append-nil (encode_open_payload p))) (decode_open_payload_tail p [] f)

-- OPEN_OK, CLOSE_FLOW and TCP_DATA payloads with a 64-bit flow id are read back as they were
-- written; so is an OPEN_OK payload with any bytes behind it.
pub flow_payload_round_trips :
    (flow_id mode : ℕ) (bs r : Bytes)
    → flow_id < 2 ^ 64
    → (decode_open_ok_payload
          (encode_open_ok_payload (record { flow_id = flow_id; mode = mode }) ++ r)
        ≡ ok (record { flow_id = flow_id; mode = mode }))
      × (decode_close_flow_payload (encode_close_flow_payload (record { flow_id = flow_id }))
          ≡ ok (record { flow_id = flow_id }))
      × (decode_tcp_data_payload (encode_tcp_data_payload flow_id bs) ≡ ok (flow_id, bs))
unfolding decode_open_ok_payload encode_open_ok_payload decode_close_flow_payload
    encode_close_flow_payload decode_tcp_data_payload encode_tcp_data_payload read_byte
flow_payload_round_trips flow_id mode bs r h = (
  rw (append_assoc (put_uint64 flow_id) (mode ∷ []) r, read_word-put_uint64 flow_id (mode ∷ r) h),
  rw (length-put_uint64 flow_id, uint_of-put_uint64 flow_id h),
  let (front, back, len) = put_uint64-append flow_id bs in
      rw (le→ltb (length (put_uint64 flow_id ++ bs)) 8 (omega (arith, len)))
        (rw (front, back, uint_of-put_uint64 flow_id h)),
)

-- The writer of a `bytes.Buffer`.
abbrev pub buffer_write : Bytes → Bytes → Result WireError Bytes
buffer_write b bs = ok (b ++ bs)

-- A frame as it stands in the stream.
abbrev pub frame_bytes : Frame → Bytes
frame_bytes f = put_uvarint f.type ++ field f.payload

buffer_write-if :
    (b bs : Bytes) → (if ltb 0 (length bs) then buffer_write b bs else ok b) ≡ ok (b ++ bs)
buffer_write-if b [] = rw (append-nil b)
buffer_write-if b (x ∷ bs) = rw (lt→ltb 0 (suc (length bs)) (omega arith))

-- Writing a frame to a buffer appends the frame's bytes.
pub write_frame-frame_bytes :
    (b : Bytes) (f : Frame) → write_frame buffer_write b f.type f.payload ≡ ok (b ++ frame_bytes f)
unfolding write_frame
write_frame-frame_bytes b f =
    buffer_write-if ((b ++ put_uvarint f.type) ++ put_uvarint (length f.payload)) f.payload
    ∙ simp append_assoc

pub record FitsFrame (f : Frame) : Type 0 where
  pub type : f.type < 2 ^ 64
  pub payload : length f.payload ≤ max_alloc

pub read_frame-frame_bytes :
    (f : Frame) (r : Bytes) → FitsFrame f → read_frame (frame_bytes f ++ r) ≡ ok (f, r)
unfolding read_frame
read_frame-frame_bytes f r h = rw (
  append_assoc (put_uvarint f.type) (field f.payload) r,
  read_uvarint-put_uvarint f.type (field f.payload ++ r) h.type,
  append_assoc (put_uvarint (length f.payload)) f.payload r,
  read_uvarint-put_uvarint (length f.payload) (f.payload ++ r) (omega arith),
  make_and_read-append f.payload r h.payload,
)
