-- ===== src/Frame/Streams.antt =====
-- A control stream carries frames back to back: `ReadFrame` and `WriteFrame` of
-- internal/session/frame.go, as the read loops of internal/session/session.go use them.
use vlf_proto.Base.{
  ℕ, zero, suc, ◌^◌, ◌<◌, List, [], ◌∷◌, ◌++◌, length, Result, ok, err, ◌>>=◌, ◌≡◌, ◌≢◌, refl, ap,
  ◌∙◌, arith, append_assoc, All, append-nil, Option, none, some, >>=-eq_ok, sym,
}
use vlf_proto.Wire.{
  Bytes, WireError, eof, max_alloc, put_uvarint, read_uvarint, make_and_read, makeslice_panic,
}
use vlf_proto.Wire.Laws.{read_uvarint-put_uvarint, make_and_read_panic}
use vlf_proto.Wire.Prefix.{Extends, read_uvarint-Extends, make_and_read-Extends}
use vlf_proto.Frame.{Frame, read_frame, write_frame}
use vlf_proto.Frame.RoundTrip.{
  frame_bytes, buffer_write, write_frame-frame_bytes, FitsFrame, read_frame-frame_bytes,
}

-- A sender's `WriteFrame` calls in order.
unfoldable pub write_frames : Bytes → List Frame → Result WireError Bytes
write_frames b [] = ok b
write_frames b (f ∷ fs) = write_frame buffer_write b f.type f.payload >>= λ b'. write_frames b' fs

-- A receiver's loop of `ReadFrame` calls: the frames read, and the error that ended the loop
-- (`none` if the fuel did).
unfoldable pub read_frames : ℕ → Bytes → List Frame × Option WireError
read_frames zero s = ([], none)
read_frames (suc fuel) s = elim (read_frame s) [
  | ok (f, r) ↦ let (fs, end) = read_frames fuel r in (f ∷ fs, end)
  | err e ↦ ([], some e)
]

stream : List Frame → Bytes
stream [] = []
stream (f ∷ fs) = frame_bytes f ++ stream fs

write_frames-stream : (b : Bytes) (fs : List Frame) → write_frames b fs ≡ ok (b ++ stream fs)
unfolding write_frames stream
write_frames-stream b [] = rw (append-nil b)
write_frames-stream b (f ∷ fs) =
    rw (write_frame-frame_bytes b f, write_frames-stream (b ++ frame_bytes f) fs)
      (ap ok (append_assoc b (frame_bytes f) (stream fs)))

read_frames-stream :
    (fuel : ℕ) (fs : List Frame)
    → All FitsFrame fs
    → length fs < fuel
    → read_frames fuel (stream fs) ≡ (fs, some eof)
unfolding read_frames stream
read_frames-stream zero fs fit h = absurd (omega arith)
read_frames-stream (suc fuel) [] fit h = unfold read_frame read_uvarint in refl
read_frames-stream (suc fuel) (f ∷ fs) fit h =
    rw (read_frame-frame_bytes f (stream fs) fit.0, read_frames)
      (rw (read_frames-stream fuel fs fit.1 (omega arith)))

-- Any frames with 64-bit types and payloads that can be allocated, written one after another to a
-- stream, are read back in the same order, and then the reader sees the end of the stream.
pub read_frames-write_frames :
    (fuel : ℕ) (fs : List Frame)
    → All FitsFrame fs
    → length fs < fuel
    → (s : Bytes) × (write_frames [] fs ≡ ok s) × (read_frames fuel s ≡ (fs, some eof))
read_frames-write_frames fuel fs fit h =
    (stream fs, write_frames-stream [] fs, read_frames-stream fuel fs fit h)

read_frame-Extends : Extends read_frame
unfolding read_frame
read_frame-Extends s t f r h =
    let (typ, e₁, h₁) = >>=-eq_ok (read_uvarint s) _ h in
    let (ln, e₂, h₂) = >>=-eq_ok (read_uvarint typ.1) _ h₁ in
    let (payload, e₃, h₃) = >>=-eq_ok (make_and_read ln.0 ln.1) _ h₂ in
    rw
      (
        read_uvarint-Extends s t typ.0 typ.1 e₁,
        read_uvarint-Extends typ.1 t ln.0 ln.1 e₂,
        make_and_read-Extends ln.0 ln.1 t payload.0 payload.1 e₃,
      )
      (ground arith)

append-eq_nil : (r t : Bytes) → r ++ t ≡ [] → t ≡ []
append-eq_nil [] t h = h
append-eq_nil (x ∷ r) t h = cc

whole : (f : Frame) → FitsFrame f → read_frame (frame_bytes f) ≡ ok (f, [])
whole f fit = rw (← (append-nil (frame_bytes f))) (read_frame-frame_bytes f [] fit)

-- A frame cut short anywhere is never taken for a frame: no proper prefix of a written frame is
-- read successfully.
pub truncated_frame_rejected :
    (f g : Frame) (s t r : Bytes)
    → FitsFrame f
    → s ++ t ≡ frame_bytes f
    → t ≢ []
    → read_frame s ≢ ok (g, r)
truncated_frame_rejected f g s t r fit cut more h =
    let both : ok (g, r ++ t) ≡ ok (f, []) =
      sym (read_frame-Extends s t g r h) ∙ rw cut (whole f fit) in
    more (append-eq_nil r t (cc both))

-- A header whose length is above what a slice can have makes `ReadFrame` panic, whatever the type
-- is and whatever follows: the length is not checked before the allocation.
pub read_frame_panics :
    (typ ln : ℕ) (r : Bytes)
    → typ < 2 ^ 64
    → max_alloc < ln
    → ln < 2 ^ 64
    → read_frame (put_uvarint typ ++ (put_uvarint ln ++ r)) ≡ err makeslice_panic
unfolding read_frame
read_frame_panics typ ln r ht hl hw = rw (
  read_uvarint-put_uvarint typ (put_uvarint ln ++ r) ht,
  read_uvarint-put_uvarint ln r hw,
  make_and_read_panic ln r hl,
)
