-- ===== src/Datagram/Delivery.antt =====
-- internal/session/datagram.go: what `FragmentDatagram` cut up, `Reassembly.Add` puts together,
-- whatever other packets arrive in between.
use vlf_proto.Base.{
  ℕ, ◌+◌, ◌≤◌, ◌<◌, Bool, true, false, ◌&&◌, List, [], ◌∷◌, ◌++◌, length, if◌then◌else◌, Option,
  none, some, ◌≡◌, ◌⊎◌, refl, arith, ap, ◌∙◌, sym, Bool-cases, inl, inr, All, ok,
}
use vlf_proto.Wire.{Bytes}
use vlf_proto.Datagram.{
  DatagramPacket, FragmentState, Reassembly, fragment_ttl, datagram_header_size, fragment_packets,
  or_new, is_fragmented, is_last, add,
}
use vlf_proto.Datagram.Fragments.{IsTrain, fragment_packets-IsTrain}
use vlf_proto.Datagram.Waiting.{
  waiting, IsTidy, is_for, still_waiting, waiting-add, add-IsTidy, add_output,
}

-- The packets that arrive, with the time of each.
abbrev pub Arrivals : Type 0
Arrivals = List (ℕ × DatagramPacket)

module _ (f s : ℕ) where
  -- A fragment of the flow and sequence number.
  abbrev pub is_mine : DatagramPacket → Bool
  is_mine pkt = is_fragmented pkt && is_for f s pkt

  unfoldable pub mine : Arrivals → List DatagramPacket
  mine [] = []
  mine ((now, pkt) ∷ es) = if is_mine pkt then pkt ∷ mine es else mine es

  -- What `Add` returns for those fragments, in order.
  unfoldable pub outputs : Reassembly → Arrivals → List (Option Bytes)
  outputs r [] = []
  outputs r ((now, pkt) ∷ es) =
      let (r', out) = add r now pkt in
      let rest = outputs r' es in if is_mine pkt then out ∷ rest else rest

  -- Nothing until the last fragment, and then the whole payload.
  abbrev pub once_at_the_end : Bytes → List DatagramPacket → List (Option Bytes)
  once_at_the_end whole [] = []
  once_at_the_end whole (p ∷ []) = some whole ∷ []
  once_at_the_end whole (p ∷ q ∷ ps) = none ∷ once_at_the_end whole (q ∷ ps)

  -- The bytes that wait, last added to at `since` or later.
  abbrev Holds : ℕ → Bytes → Option FragmentState → Type 0
  Holds since done none = done ≡ []
  Holds since done (some st) = (st.bytes ≡ done) × (since ≤ st.updated_at)

  abbrev pub Within : ℕ → Arrivals → Type 0
  Within since es = All (λ e. (since ≤ e.0) × (e.0 ≤ since + fragment_ttl)) es

  IsTrain-step :
      (done whole : Bytes) (p : DatagramPacket) (ps : List DatagramPacket)
      → IsTrain f s done (p ∷ ps) whole
      → ((is_last p ≡ true) × (ps ≡ []) × (done ++ p.payload ≡ whole))
        ⊎ ((is_last p ≡ false)
            × IsTrain f s (done ++ p.payload) ps whole
            × (once_at_the_end whole (p ∷ ps) ≡ none ∷ once_at_the_end whole ps))
  IsTrain-step done whole p [] t = inl (ap is_last t.0, refl, t.1)
  IsTrain-step done whole p (q ∷ ps) t = inr (ap is_last t.0, t.1, refl)

  outputs-nil : (r : Reassembly) (es : Arrivals) → mine es ≡ [] → outputs r es ≡ []
  unfolding mine outputs
  outputs-nil r [] h = refl
  outputs-nil r ((now, pkt) ∷ es) h = ground (arith, outputs-nil (add r now pkt).0 es)

  Holds-still :
      (since now : ℕ) (done : Bytes) (st : Option FragmentState)
      → now ≤ since + fragment_ttl
      → Holds since done st
      → (still_waiting now s st ≡ st) × ((or_new st).bytes ≡ done)
  Holds-still since now done none h k = (refl, sym k)
  Holds-still since now done (some st) h k = ground arith

  module _ (since now : ℕ) (done : Bytes) (r : Reassembly) (pkt : DatagramPacket)
      (tidy : IsTidy r.parts) (soon : now ≤ since + fragment_ttl)
      (holds : Holds since done (waiting r.parts f s)) where
    other-waiting : is_mine pkt ≡ false → waiting (add r now pkt).0.parts f s ≡ waiting r.parts f s
    other-waiting h =
        rw (waiting-add r now f s pkt tidy)
          (ground (arith, Holds-still since now done (waiting r.parts f s)))

    mine-waiting :
        is_mine pkt ≡ true
        → is_last pkt ≡ false
        → waiting (add r now pkt).0.parts f s
          ≡ some (record { bytes = done ++ pkt.payload; updated_at = now })
    mine-waiting h l =
        rw (waiting-add r now f s pkt tidy)
          (ground (arith, Holds-still since now done (waiting r.parts f s)))

    mine_output :
        is_mine pkt ≡ true
        → (add r now pkt).1 ≡ (if is_last pkt then some (done ++ pkt.payload) else none)
    mine_output h =
        rw (add_output r now pkt tidy)
          (ground (arith, Holds-still since now done (waiting r.parts f s)))

  outputs_train :
      (since : ℕ) (done whole : Bytes) (r : Reassembly) (es : Arrivals)
      → IsTidy r.parts
      → Within since es
      → Holds since done (waiting r.parts f s)
      → IsTrain f s done (mine es) whole
      → outputs r es ≡ once_at_the_end whole (mine es)
  unfolding mine outputs
  outputs_train since done whole r [] tidy when holds t = absurd t
  outputs_train since done whole r ((now, pkt) ∷ es) tidy when holds t =
      let r' = (add r now pkt).0 in
      let tidy' = add-IsTidy r now pkt tidy in
      let soon : now ≤ since + fragment_ttl = omega arith in
      elim (Bool-cases (is_mine pkt)) [
        | inr other ↦ rw other (
            outputs_train since done whole r' es tidy' when.1
              (rw (other-waiting since now done r pkt tidy soon holds other) holds) (rw other at t))
        | inl own ↦ elim (IsTrain-step done whole pkt (mine es) (rw own at t)) [
          | inl (last, nothing, total) ↦ rw (
            own,
            mine_output since now done r pkt tidy soon holds own,
            last,
            nothing,
            total,
            outputs-nil r' es nothing,
          )
          | inr (more, rest, step) ↦
              rw (own, mine_output since now done r pkt tidy soon holds own, more, step)
                (ap (λ l. none ∷ l)
                  (outputs_train since (done ++ pkt.payload) whole r' es tidy' when.1
                    (rw (mine-waiting since now done r pkt tidy soon holds own more)
                      (refl, when.0.0))
                    rest))
        ]
      ]

  -- The fragments of a payload, arriving in order within the five seconds for which a fragment is
  -- kept and where nothing waits for them, yield that payload at the last of them and nothing
  -- before, whatever packets of other flows and sequence numbers, and whatever packets that are no
  -- fragments, arrive between them.
  pub outputs-IsTrain :
      (since : ℕ) (whole : Bytes) (r : Reassembly) (es : Arrivals)
      → IsTidy r.parts
      → Within since es
      → waiting r.parts f s ≡ none
      → IsTrain f s [] (mine es) whole
      → outputs r es ≡ once_at_the_end whole (mine es)
  outputs-IsTrain since whole r es tidy when nothing t =
      outputs_train since [] whole r es tidy when (rw nothing refl) t

-- What `FragmentDatagram` cuts a payload into, where it is too long for one datagram, is put
-- together again: if the fragments arrive in order within the five seconds for which a fragment is
-- kept, and nothing waited under their flow and sequence number, `Add` returns the payload at the
-- last of them and nothing before, whatever packets of other flows and sequence numbers, and
-- whatever packets that are no fragments, arrive between them.
pub outputs-fragment_packets :
    (f s since limit : ℕ) (payload : Bytes) (pkts : List DatagramPacket) (r : Reassembly)
    (es : Arrivals)
    → fragment_packets f s payload limit ≡ ok pkts
    → limit < datagram_header_size + length payload
    → mine f s es ≡ pkts
    → IsTidy r.parts
    → Within f s since es
    → waiting r.parts f s ≡ none
    → outputs f s r es ≡ once_at_the_end f s payload pkts
outputs-fragment_packets f s since limit payload pkts r es cut long arrive tidy when nothing =
    outputs-IsTrain f s since payload r es tidy when nothing
      (rw arrive (fragment_packets-IsTrain f s payload limit cut long))
    ∙ ap (once_at_the_end f s payload) arrive
