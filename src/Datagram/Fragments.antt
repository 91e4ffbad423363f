-- ===== src/Datagram/Fragments.antt =====
-- internal/session/datagram.go: what `FragmentDatagram` cuts a payload into.
use vlf_proto.Base.{
  ℕ, zero, suc, ◌+◌, ◌-◌, ◌≤◌, ◌<◌, List, [], ◌∷◌, ◌++◌, length, map, ok, ◌≡◌, ◌⊎◌, refl, arith, ap,
  ◌∙◌, ltb, take, drop, take_all, drop_all, length-take, length-drop, take-append-drop,
  append_assoc, All, Bool-cases, inl, inr, ltb→lt, ltb→le, leb, leb→le, leb→lt, lt→leb, subst,
}
use vlf_proto.Wire.{Bytes}
use vlf_proto.Datagram.{
  DatagramPacket, datagram_header_size, encode_datagram_packet, fragments, fragment_packets,
  fragment_datagram,
}
use vlf_proto.Datagram.Codec.{length-encode_datagram_packet}

module _ (flow_id seq : ℕ) where
  abbrev pub packet : ℕ → Bytes → DatagramPacket
  packet flags bs = record { flow_id = flow_id; flags = flags; seq = seq; payload = bs }

  -- The fragments of `whole` from where `done` ends: each marked as a fragment, the last one and
  -- no other marked as the last.
  abbrev pub IsTrain : Bytes → List DatagramPacket → Bytes → Type 0
  IsTrain done [] whole = ⊥
  IsTrain done (p ∷ []) whole = (p ≡ packet 3 p.payload) × (done ++ p.payload ≡ whole)
  IsTrain done (p ∷ q ∷ ps) whole =
      (p ≡ packet 1 p.payload) × IsTrain (done ++ p.payload) (q ∷ ps) whole

  module _ (max_chunk : ℕ) (pos : 0 < max_chunk) where
    fragments-nil : (fuel : ℕ) → fragments fuel flow_id seq max_chunk [] ≡ []
    unfolding fragments
    fragments-nil zero = refl
    fragments-nil (suc fuel) = refl

    fragments_last :
        (fuel : ℕ) (rest : Bytes)
        → 0 < length rest
        → length rest ≤ max_chunk
        → fragments (suc fuel) flow_id seq max_chunk rest ≡ packet 3 rest ∷ []
    unfolding fragments
    fragments_last fuel rest h k = ground (
      arith,
      take_all (length rest) rest,
      drop_all (length rest) rest,
      take_all max_chunk rest,
      drop_all max_chunk rest,
      fragments-nil fuel,
    )

    fragments_more :
        (fuel : ℕ) (rest : Bytes)
        → max_chunk < length rest
        → fragments (suc fuel) flow_id seq max_chunk rest
          ≡ packet 1 (take max_chunk rest)
            ∷ fragments fuel flow_id seq max_chunk (drop max_chunk rest)
    unfolding fragments
    fragments_more fuel rest h = ground arith

    IsTrain-cons :
        (done : Bytes) (c : Bytes) (ps : List DatagramPacket) (whole : Bytes)
        → IsTrain (done ++ c) ps whole
        → IsTrain done (packet 1 c ∷ ps) whole
    IsTrain-cons done c [] whole h = absurd h
    IsTrain-cons done c (q ∷ ps) whole h = (refl, h)

    fragments-IsTrain :
        (fuel : ℕ) (done rest : Bytes)
        → 0 < length rest
        → length rest ≤ fuel
        → IsTrain done (fragments fuel flow_id seq max_chunk rest) (done ++ rest)
    fragments-IsTrain zero done rest h k = absurd (omega arith)
    fragments-IsTrain (suc fuel) done rest h k = elim (Bool-cases (ltb max_chunk (length rest))) [
      | inr last ↦ rw (fragments_last fuel rest h (ltb→le _ _ last)) (refl, refl)
      | inl more ↦
          let c = take max_chunk rest in
          let r = drop max_chunk rest in
          rw (fragments_more fuel rest (ltb→lt _ _ more)) (
            IsTrain-cons done c _ (done ++ rest) (
              subst (IsTrain (done ++ c) (fragments fuel flow_id seq max_chunk r))
                (append_assoc done c r ∙ ap (◌++◌ done) (take-append-drop max_chunk rest))
                (fragments-IsTrain fuel (done ++ c) r
                  (omega (arith, length-drop max_chunk rest, ltb→lt _ _ more))
                  (omega (arith, length-drop max_chunk rest)))))
    ]

    -- A fragment carries at least one byte and at most `max_chunk`.
    abbrev Fits : DatagramPacket → Type 0
    Fits p = (1 ≤ length p.payload) × (length p.payload ≤ max_chunk)

    fragments-Fits :
        (fuel : ℕ) (rest : Bytes) → All Fits (fragments fuel flow_id seq max_chunk rest)
    fragments-Fits zero rest = unfold fragments in tt
    fragments-Fits (suc fuel) [] = unfold fragments in tt
    fragments-Fits (suc fuel) (b ∷ bs) = elim (Bool-cases (ltb max_chunk (length (b ∷ bs)))) [
      | inr last ↦
          rw (fragments_last fuel (b ∷ bs) (omega arith) (ltb→le _ _ last))
            ((omega arith, ltb→le _ _ last), tt)
      | inl more ↦ rw (fragments_more fuel (b ∷ bs) (ltb→lt _ _ more)) (
        (
          omega (arith, length-take max_chunk (b ∷ bs), ltb→lt _ _ more),
          omega (arith, length-take max_chunk (b ∷ bs)),
        ),
        fragments-Fits fuel (drop max_chunk (b ∷ bs)),
      )
    ]

All-map {ℓ κ ι} :
    {A : Type ℓ} {B : Type κ} (P : A → Type ι) (Q : B → Type ι) (f : A → B)
    → ((a : A) → P a → Q (f a))
    → (xs : List A) → All P xs
    → All Q (map f xs)
All-map P Q f g [] h = tt
All-map P Q f g (x ∷ xs) h = (g x h.0, All-map P Q f g xs h.1)

-- Where a datagram can hold more than its header, `FragmentDatagram` succeeds, and no datagram that
-- it makes is longer than asked for. The datagrams are the payload whole and unmarked, or a train
-- of marked fragments of it, of which the last one alone is marked as the last.
pub fragment_datagram_lem :
    (flow_id seq : ℕ) (payload : Bytes) (limit : ℕ)
    → datagram_header_size < limit
    → (pkts : List DatagramPacket) × (fragment_datagram flow_id seq payload limit
        ≡ ok (map encode_datagram_packet pkts))
      × ((pkts ≡ packet flow_id seq 0 payload ∷ []) ⊎ IsTrain flow_id seq [] pkts payload)
      × All (λ raw. length raw ≤ limit) (map encode_datagram_packet pkts)
unfolding fragment_datagram fragment_packets
fragment_datagram_lem flow_id seq payload limit h =
    let chunk = limit - datagram_header_size in
    elim (Bool-cases (leb (length payload) chunk)) [
      | inl whole ↦ (
        packet flow_id seq 0 payload ∷ [],
        rw (lt→leb limit datagram_header_size h, whole),
        inl refl,
        (
          omega (
            arith,
            length-encode_datagram_packet (packet flow_id seq 0 payload),
            leb→le _ _ whole,
          ),
          tt,
        ),
      )
      | inr cut ↦ (
        fragments (length payload) flow_id seq chunk payload,
        rw (lt→leb limit datagram_header_size h, cut),
        inr (
            fragments-IsTrain flow_id seq chunk (omega arith) (length payload) [] payload
              (omega (arith, leb→lt _ _ cut)) (omega arith)),
        All-map _ _ encode_datagram_packet (λ p fit. omega (arith, length-encode_datagram_packet p))
            _ (fragments-Fits flow_id seq chunk (omega arith) (length payload) payload),
      )
    ]

-- Where the payload is too long for one datagram, the packets are a train.
pub fragment_packets-IsTrain :
    (flow_id seq : ℕ) (payload : Bytes) (limit : ℕ) {pkts : List DatagramPacket}
    → fragment_packets flow_id seq payload limit ≡ ok pkts
    → limit < datagram_header_size + length payload
    → IsTrain flow_id seq [] pkts payload
unfolding fragment_packets
fragment_packets-IsTrain flow_id seq payload limit e h =
    elim (Bool-cases (leb limit datagram_header_size)) [
      | inl small ↦ cc (rw small at e)
      | inr large ↦ ground (
        arith,
        fragments-IsTrain flow_id seq (limit - datagram_header_size)
            (omega (arith, leb→lt _ _ large)) (length payload) [] payload,
      )
    ]
