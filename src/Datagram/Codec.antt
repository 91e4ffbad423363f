-- ===== src/Datagram/Codec.antt =====
-- internal/session/datagram.go: the datagram header.
use vlf_proto.Base.{◌+◌, ◌^◌, ◌<◌, length, ok, ◌≡◌, arith, length-drop}
use vlf_proto.Wire.{Bytes, put_uint32, put_uint64, uint_of}
use vlf_proto.Datagram.{
  DatagramPacket, datagram_header_size, encode_datagram_packet, decode_datagram_packet,
}

-- The values that the types of a datagram's fields hold.
pub record FitsDatagram (pkt : DatagramPacket) : Type 0 where
  pub flow_id : pkt.flow_id < 2 ^ 64
  pub seq : pkt.seq < 2 ^ 32

pub length-encode_datagram_packet :
    (pkt : DatagramPacket)
    → length (encode_datagram_packet pkt) ≡ datagram_header_size + length pkt.payload
unfolding encode_datagram_packet put_uint64 put_uint32
length-encode_datagram_packet pkt = omega arith

-- A datagram whose numbers fit their types is read back as it was written, whatever its flags and
-- payload are.
pub decode-encode_datagram_packet :
    (pkt : DatagramPacket)
    → FitsDatagram pkt
    → decode_datagram_packet (encode_datagram_packet pkt) ≡ ok pkt
unfolding decode_datagram_packet encode_datagram_packet put_uint64 put_uint32 uint_of
decode-encode_datagram_packet pkt fit = ground arith

-- A decoded datagram's payload is what stands behind the header, and nothing shorter than a header
-- is decoded.
pub decode_datagram_packet-length :
    (raw : Bytes) {pkt : DatagramPacket}
    → decode_datagram_packet raw ≡ ok pkt
    → length raw ≡ datagram_header_size + length pkt.payload
unfolding decode_datagram_packet
decode_datagram_packet-length raw h = ground (arith, length-drop 13 raw)
