-- ===== src/Datagram.antt =====
-- internal/session/datagram.go: UDP payloads in QUIC datagrams, cut into fragments where they are
-- too long, and put together again. Time is a number of nanoseconds, read once by each call.
pub mod Codec
pub mod Fragments
pub mod Waiting
pub mod Delivery
mod Tests
use Prim.Native.Nat.{bit_and, bit_or}
use vlf_proto.Base.{
  ℕ, zero, suc, ◌+◌, ◌-◌, ◌*◌, ◌^◌, Bool, true, false, not, List, [], ◌∷◌, ◌++◌, ltb, leb, ◌==◌,
  if◌then◌else◌, length, take, drop, Option, none, some, Result, ok, err, ◌>>=◌, map,
}
use vlf_proto.Base.Assoc.{Eq, nat_eq, Map, lookup, insert, delete, retain}
use vlf_proto.Wire.{Bytes, WireError, too_short, put_uint32, put_uint64, uint_of}

abbrev pub flag_fragmented : ℕ
flag_fragmented = 1

abbrev pub flag_last : ℕ
flag_last = 2

abbrev pub datagram_header_size : ℕ
datagram_header_size = 8 + 1 + 4

pub record DatagramPacket : Type 0 where
  pub flow_id : ℕ
  pub flags : ℕ
  pub seq : ℕ
  pub payload : Bytes

unfoldable pub encode_datagram_packet : DatagramPacket → Bytes
encode_datagram_packet pkt =
    put_uint64 pkt.flow_id ++ (pkt.flags ∷ (put_uint32 pkt.seq ++ pkt.payload))

-- `raw[8]`, which the length check keeps in range.
abbrev pub byte_at : Bytes → ℕ
byte_at [] = 0
byte_at (b ∷ bs) = b

unfoldable pub decode_datagram_packet : Bytes → Result WireError DatagramPacket
decode_datagram_packet raw =
    if ltb (length raw) datagram_header_size
    then err too_short
    else ok (record {
      flow_id = uint_of (take 8 raw);
      flags = byte_at (drop 8 raw);
      seq = uint_of (take 4 (drop 9 raw));
      payload = drop 13 raw;
    })

-- The loop of `FragmentDatagram` over what is left of the payload: the packets that it encodes. A
-- round takes at least one byte, so as many rounds as bytes are enough.
unfoldable pub fragments : ℕ → ℕ → ℕ → ℕ → Bytes → List DatagramPacket
fragments zero flow_id seq max_chunk rest = []
fragments (suc fuel) flow_id seq max_chunk rest =
    let end = if ltb (length rest) max_chunk then length rest else max_chunk in
    let flags = if end == length rest then bit_or flag_fragmented flag_last else flag_fragmented in
    let more =
      record { flow_id = flow_id; flags = flags; seq = seq; payload = take end rest }
      ∷ fragments fuel flow_id seq max_chunk (drop end rest) in
    if length rest == 0 then [] else more

pub data FragmentError : Type 0 where
  max_datagram_payload_too_small : FragmentError

-- The packets of `FragmentDatagram` before `EncodeDatagramPacket`.
unfoldable pub fragment_packets : ℕ → ℕ → Bytes → ℕ → Result FragmentError (List DatagramPacket)
fragment_packets flow_id seq payload max_datagram_payload =
    if leb max_datagram_payload datagram_header_size
    then err max_datagram_payload_too_small
    else let max_chunk = max_datagram_payload - datagram_header_size in
      if leb (length payload) max_chunk
      then ok (record { flow_id = flow_id; flags = 0; seq = seq; payload = payload } ∷ [])
      else ok (fragments (length payload) flow_id seq max_chunk payload)

unfoldable pub fragment_datagram : ℕ → ℕ → Bytes → ℕ → Result FragmentError (List Bytes)
unfolding fragment_packets
fragment_datagram flow_id seq payload max_datagram_payload =
    fragment_packets flow_id seq payload max_datagram_payload >>= λ pkts.
    ok (map encode_datagram_packet pkts)

pub record FragmentState : Type 0 where
  pub bytes : Bytes
  pub updated_at : ℕ

-- The fragments waiting under a sequence number, and those maps under a flow id.
abbrev pub BySeq : Type 0
BySeq = Map ℕ FragmentState

pub record Reassembly : Type 0 where
  pub parts : Map ℕ BySeq

unfoldable pub new_reassembly : Reassembly
new_reassembly = record { parts = [] }

-- Five seconds, in nanoseconds.
abbrev pub fragment_ttl : ℕ
fragment_ttl = 5 * 1000000000

-- `!st.updatedAt.Before(now.Add(-5 * time.Second))`
abbrev pub is_recent : ℕ → ℕ → FragmentState → Bool
is_recent now seq st = not (ltb (st.updated_at + fragment_ttl) now)

unfoldable pub cleanup : ℕ → Map ℕ BySeq → Map ℕ BySeq
cleanup now [] = []
cleanup now ((flow_id, by_seq) ∷ parts) =
    let kept = retain (is_recent now) by_seq in
    if length kept == 0 then cleanup now parts else (flow_id, kept) ∷ cleanup now parts

abbrev pub or_empty : Option BySeq → BySeq
or_empty none = []
or_empty (some by_seq) = by_seq

abbrev pub or_new : Option FragmentState → FragmentState
or_new none = record { bytes = []; updated_at = 0 }
or_new (some st) = st

abbrev pub is_fragmented : DatagramPacket → Bool
is_fragmented pkt = not (bit_and pkt.flags flag_fragmented == 0)

abbrev pub is_last : DatagramPacket → Bool
is_last pkt = not (bit_and pkt.flags flag_last == 0)

-- What `Add` does with a fragment, behind the cleanup.
unfoldable pub add_fragment : Map ℕ BySeq → ℕ → DatagramPacket → Map ℕ BySeq × Option Bytes
add_fragment parts now pkt =
    let by_seq = or_empty (lookup pkt.flow_id parts) in
    let st = or_new (lookup pkt.seq by_seq) in
    let st' = record st { bytes = st.bytes ++ pkt.payload; updated_at = now } in
    let by_seq' = insert pkt.seq st' by_seq in
    let rest = delete pkt.seq by_seq' in
    if not (is_last pkt) then (insert pkt.flow_id by_seq' parts, none) else (
      if length rest == 0
          then delete pkt.flow_id (insert pkt.flow_id by_seq' parts)
          else insert pkt.flow_id rest (insert pkt.flow_id by_seq' parts),
      some st'.bytes,
    )

-- `Add`: the payload when the packet is complete.
unfoldable pub add : Reassembly → ℕ → DatagramPacket → Reassembly × Option Bytes
unfolding cleanup add_fragment
add r now pkt =
    let (parts, out) = add_fragment (cleanup now r.parts) now pkt in
    if not (is_fragmented pkt) then (r, some pkt.payload) else (record r { parts = parts }, out)
