-- ===== src/Datagram/Waiting.antt =====
-- internal/session/datagram.go: which fragments wait in a `Reassembly`, and what the cleanup and
-- `Add` change of that.
use vlf_proto.Base.{
  ℕ, ◌<◌, Bool, ◌&&◌, [], ◌∷◌, ◌++◌, length, ◌==◌, if◌then◌else◌, Option, none, some, ◌≡◌, refl,
  arith, ℕ_discrete,
}
use vlf_proto.Base.Assoc.{nat_eq, Map, lookup, insert, delete, retain, Distinct}
use vlf_proto.Base.Assoc.Laws.{
  lookup-insert, lookup-delete, lookup-retain, retain-Distinct, insert-Distinct, delete-Distinct,
  kept,
}
use vlf_proto.Datagram.{
  DatagramPacket, FragmentState, BySeq, Reassembly, is_recent, cleanup, or_empty, or_new,
  is_fragmented, is_last, add_fragment, add,
}

-- The fragments that wait for a flow and a sequence number.
abbrev pub waiting : Map ℕ BySeq → ℕ → ℕ → Option FragmentState
waiting parts flow_id seq = lookup seq (or_empty (lookup flow_id parts))

-- No flow and no sequence number stands twice, and no flow is kept with nothing waiting.
abbrev pub IsTidy : Map ℕ BySeq → Type 0
IsTidy [] = Unit
IsTidy ((flow_id, by_seq) ∷ parts) =
    (lookup flow_id parts ≡ none) × Distinct by_seq × (0 < length by_seq) × IsTidy parts

pub IsTidy-lookup :
    (f : ℕ) (parts : Map ℕ BySeq) → IsTidy parts → Distinct (or_empty (lookup f parts))
unfolding lookup
IsTidy-lookup f [] t = tt
IsTidy-lookup f ((g, m) ∷ parts) t = ground (arith, IsTidy-lookup f parts t.3)

pub IsTidy-insert :
    (f : ℕ) (m : BySeq) (parts : Map ℕ BySeq)
    → Distinct m
    → 0 < length m
    → IsTidy parts
    → IsTidy (insert f m parts)
unfolding insert lookup
IsTidy-insert f m [] d h t = (refl, d, h, tt)
IsTidy-insert f m ((g, n) ∷ parts) d h t =
    ground (arith, IsTidy-insert f m parts d h t.3, lookup-insert f g m parts)

pub IsTidy-delete : (f : ℕ) (parts : Map ℕ BySeq) → IsTidy parts → IsTidy (delete f parts)
unfolding delete lookup
IsTidy-delete f [] t = tt
IsTidy-delete f ((g, n) ∷ parts) t =
    ground (arith, IsTidy-delete f parts t.3, lookup-delete f g parts)

lookup-cleanup-none :
    (now f : ℕ) (parts : Map ℕ BySeq) → lookup f parts ≡ none → lookup f (cleanup now parts) ≡ none
unfolding lookup cleanup
lookup-cleanup-none now f [] h = refl
lookup-cleanup-none now f ((g, m) ∷ parts) h = ground (arith, lookup-cleanup-none now f parts)

pub cleanup-IsTidy : (now : ℕ) (parts : Map ℕ BySeq) → IsTidy parts → IsTidy (cleanup now parts)
unfolding cleanup
cleanup-IsTidy now [] t = tt
cleanup-IsTidy now ((g, m) ∷ parts) t = ground (
  arith,
  cleanup-IsTidy now parts t.3,
  lookup-cleanup-none now g parts t.0,
  retain-Distinct (is_recent now) m t.1,
)

lookup-empty : (s : ℕ) (m : BySeq) → length m ≡ 0 → lookup s m ≡ none
unfolding lookup
lookup-empty s [] h = refl
lookup-empty s (x ∷ m) h = absurd (omega arith)

-- The cleanup removes what was last added to more than five seconds ago, and nothing else.
pub waiting-cleanup :
    (now f s : ℕ) (parts : Map ℕ BySeq)
    → IsTidy parts
    → waiting (cleanup now parts) f s ≡ kept (is_recent now) s (waiting parts f s)
unfolding cleanup lookup
waiting-cleanup now f s [] t = refl
waiting-cleanup now f s ((g, m) ∷ parts) t =
    let still = retain (is_recent now) m in
    elim (ℕ_discrete g f) [
      | yes same ↦ rw (← same) (
          ground (
            arith,
            lookup-retain (is_recent now) s m t.1,
            lookup-empty s still,
            lookup-cleanup-none now g parts t.0,
          ))
      | no other ↦ ground (arith, waiting-cleanup now f s parts t.3)
    ]

waiting-insert :
    (f g s : ℕ) (m : BySeq) (parts : Map ℕ BySeq)
    → waiting (insert g m parts) f s ≡ (if g == f then lookup s m else waiting parts f s)
waiting-insert f g s m parts = rw (lookup-insert g f m parts) (ground arith)

waiting-delete :
    (f g s : ℕ) (parts : Map ℕ BySeq)
    → waiting (delete g parts) f s ≡ (if g == f then none else waiting parts f s)
unfolding lookup
waiting-delete f g s parts = rw (lookup-delete g f parts) (ground arith)

abbrev pub is_for : ℕ → ℕ → DatagramPacket → Bool
is_for f s pkt = (pkt.flow_id == f) && pkt.seq == s

-- What waits for a fragment's own flow and sequence number after it was added, from what did
-- before: nothing behind a last fragment, else the bytes so far.
abbrev pub after_fragment : ℕ → DatagramPacket → Option FragmentState → Option FragmentState
after_fragment now pkt st =
    if is_last pkt
    then none
    else some (record { bytes = (or_new st).bytes ++ pkt.payload; updated_at = now })

waiting-add_fragment :
    (parts : Map ℕ BySeq) (now f s : ℕ) (pkt : DatagramPacket)
    → waiting (add_fragment parts now pkt).0 f s
      ≡ (if is_for f s pkt then after_fragment now pkt (waiting parts f s) else waiting parts f s)
unfolding add_fragment
waiting-add_fragment parts now f s pkt =
    let by_seq = or_empty (lookup pkt.flow_id parts) in
    let st = or_new (lookup pkt.seq by_seq) in
    let st' = record st { bytes = st.bytes ++ pkt.payload; updated_at = now } in
    let by_seq' = insert pkt.seq st' by_seq in
    let rest = delete pkt.seq by_seq' in
    let parts' = insert pkt.flow_id by_seq' parts in
    ground (
      arith,
      waiting-insert f pkt.flow_id s by_seq' parts,
      waiting-insert f pkt.flow_id s rest parts',
      waiting-delete f pkt.flow_id s parts',
      lookup-insert pkt.seq s st' by_seq,
      lookup-delete pkt.seq s by_seq',
      lookup-empty s rest,
    )

-- What a cleanup at `now` leaves of what waits.
abbrev pub still_waiting : ℕ → ℕ → Option FragmentState → Option FragmentState
still_waiting now s st = kept (is_recent now) s st

length-insert_pos : (s : ℕ) (st : FragmentState) (m : BySeq) → 0 < length (insert s st m)
unfolding insert
length-insert_pos s st [] = omega arith
length-insert_pos s st ((i, x) ∷ m) = ground arith

add_fragment-IsTidy :
    (parts : Map ℕ BySeq) (now : ℕ) (pkt : DatagramPacket)
    → IsTidy parts
    → IsTidy (add_fragment parts now pkt).0
unfolding add_fragment
add_fragment-IsTidy parts now pkt t =
    let by_seq = or_empty (lookup pkt.flow_id parts) in
    let st = or_new (lookup pkt.seq by_seq) in
    let st' = record st { bytes = st.bytes ++ pkt.payload; updated_at = now } in
    let by_seq' = insert pkt.seq st' by_seq in
    let rest = delete pkt.seq by_seq' in
    let parts' = insert pkt.flow_id by_seq' parts in
    let d = insert-Distinct pkt.seq st' by_seq (IsTidy-lookup pkt.flow_id parts t) in
    let t' = IsTidy-insert pkt.flow_id by_seq' parts d (length-insert_pos pkt.seq st' by_seq) t in
    ground (
      arith,
      t',
      IsTidy-delete pkt.flow_id parts' t',
      IsTidy-insert pkt.flow_id rest parts' (delete-Distinct pkt.seq by_seq' d),
    )

-- `Add` changes what waits for one flow and sequence number as said: it cleans up first, and then
-- adds a fragment's bytes under its own flow and sequence number, or takes them away. A packet that
-- is no fragment changes nothing.
pub waiting-add :
    (r : Reassembly) (now f s : ℕ) (pkt : DatagramPacket)
    → IsTidy r.parts
    → waiting (add r now pkt).0.parts f s ≡ (
        if is_fragmented pkt
        then (if is_for f s pkt
            then after_fragment now pkt (still_waiting now s (waiting r.parts f s))
            else still_waiting now s (waiting r.parts f s))
        else waiting r.parts f s)
unfolding add
waiting-add r now f s pkt t =
    let clean = cleanup now r.parts in
    ground (arith, waiting-add_fragment clean now f s pkt, waiting-cleanup now f s r.parts t)

-- `Add` keeps the maps free of duplicates and of flows with nothing waiting.
pub add-IsTidy :
    (r : Reassembly) (now : ℕ) (pkt : DatagramPacket)
    → IsTidy r.parts
    → IsTidy (add r now pkt).0.parts
unfolding add
add-IsTidy r now pkt t =
    ground (arith, add_fragment-IsTidy (cleanup now r.parts) now pkt (cleanup-IsTidy now r.parts t))

-- What `Add` returns: a packet that is no fragment at once, and behind a last fragment all the bytes
-- that waited, with its own.
pub add_output :
    (r : Reassembly) (now : ℕ) (pkt : DatagramPacket)
    → IsTidy r.parts
    → (add r now pkt).1 ≡ (
        if is_fragmented pkt
        then (if is_last pkt
            then some (
                (or_new (still_waiting now pkt.seq (waiting r.parts pkt.flow_id pkt.seq))).bytes
                ++ pkt.payload)
            else none)
        else some pkt.payload)
unfolding add add_fragment
add_output r now pkt t = ground (arith, waiting-cleanup now pkt.flow_id pkt.seq r.parts t)
