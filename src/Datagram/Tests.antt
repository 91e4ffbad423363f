-- ===== src/Datagram/Tests.antt =====
-- Runs of the datagram code, and the theorems at concrete packets.
use vlf_proto.Base.{
  ◌≤◌, List, [], ◌∷◌, length, map, none, some, ok, err, ◌≡◌, ◌⊎◌, refl, arith, All,
}
use vlf_proto.Base.Assoc.{lookup, insert, delete, retain}
use vlf_proto.Wire.{Bytes, too_short}
use vlf_proto.Datagram.{
  DatagramPacket, encode_datagram_packet, decode_datagram_packet, fragment_packets,
  fragment_datagram, fragments, new_reassembly, add,
}
use vlf_proto.Datagram.Fragments.{packet, IsTrain, fragment_datagram_lem}
use vlf_proto.Datagram.Waiting.{IsTidy}
use vlf_proto.Datagram.Delivery.{Arrivals, mine, outputs, outputs-fragment_packets}

abbrev hello : Bytes
hello = 1 ∷ 2 ∷ 3 ∷ 4 ∷ 5 ∷ []

cut_hello :
    fragment_packets 7 9 hello 15
    ≡ ok (packet 7 9 1 (1 ∷ 2 ∷ []) ∷ packet 7 9 1 (3 ∷ 4 ∷ []) ∷ packet 7 9 3 (5 ∷ []) ∷ [])
unfolding fragment_packets fragments
cut_hello = refl

-- A fragment of another flow, and a packet that is none, come between.
abbrev arrivals : Arrivals
arrivals =
    (100, packet 7 9 1 (1 ∷ 2 ∷ []))
    ∷ (101, packet 8 9 1 (0 ∷ []))
    ∷ (102, packet 7 9 1 (3 ∷ 4 ∷ []))
    ∷ (103, packet 7 9 0 (6 ∷ []))
    ∷ (104, packet 7 9 3 (5 ∷ []))
    ∷ []

fresh-IsTidy : IsTidy new_reassembly.parts
unfolding new_reassembly
fresh-IsTidy = tt

outputs_run : outputs 7 9 new_reassembly arrivals ≡ none ∷ none ∷ some hello ∷ []
unfolding outputs add new_reassembly insert lookup delete retain
outputs_run = refl

short_datagram : decode_datagram_packet hello ≡ err too_short
unfolding decode_datagram_packet
short_datagram = refl

fragment_datagram_lem_example :
    (pkts : List DatagramPacket) × (fragment_datagram 7 9 hello 15
      ≡ ok (map encode_datagram_packet pkts))
    × ((pkts ≡ packet 7 9 0 hello ∷ []) ⊎ IsTrain 7 9 [] pkts hello)
    × All (λ raw. length raw ≤ 15) (map encode_datagram_packet pkts)
fragment_datagram_lem_example = fragment_datagram_lem 7 9 hello 15 (omega arith)

outputs-fragment_packets_example :
    outputs 7 9 new_reassembly arrivals ≡ none ∷ none ∷ some hello ∷ []
unfolding mine new_reassembly lookup
outputs-fragment_packets_example =
    outputs-fragment_packets 7 9 100 15 hello _ new_reassembly arrivals cut_hello (omega arith) refl
      fresh-IsTidy (omega arith) refl
