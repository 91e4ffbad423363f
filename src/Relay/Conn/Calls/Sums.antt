-- ===== src/Relay/Conn/Calls/Sums.antt =====
-- internal/relay/conn.go: the bytes that calls of `Enqueue` are about to send and to add.
use vlf_proto.Base.{
  ℕ, zero, suc, ◌+◌, ◌*◌, ◌≤◌, ◌<◌, List, [], ◌∷◌, ◌++◌, length, get_or, set, length-append,
  length-take, ◌≡◌, refl, arith, ◌⊎◌, inl, inr,
}
use vlf_proto.Wire.{Bytes}
use vlf_proto.Relay.Conn.{queue_capacity, chunk}
use vlf_proto.Relay.Conn.Calls.{
  Phase, starts, loops, opened, measured, queued, finished, crashed, Call, Writer, received, Part,
  Upstream, no_call, part_of,
}

-- The bytes of chunks in a row.
unfoldable pub bytes_of : List Part → Bytes
bytes_of [] = []
bytes_of ((i, part) ∷ parts) = part ++ bytes_of parts

-- The bytes that a call has tested against the window but not added yet, and those that it has sent but
-- not added yet.
abbrev pub tested_at : Phase → ℕ → ℕ
tested_at measured n = n
tested_at queued n = n
tested_at phase n = 0

abbrev pub sent_at : Phase → ℕ → ℕ
sent_at queued n = n
sent_at phase n = 0

abbrev pub tested : Call → ℕ
tested c = tested_at c.phase (length (part_of c))

abbrev pub sent : Call → ℕ
sent c = sent_at c.phase (length (part_of c))

unfoldable pub sum : (Call → ℕ) → List Call → ℕ
sum f [] = 0
sum f (c ∷ calls) = f c + sum f calls

abbrev pub held : Writer → ℕ
held (received part) = length part
held writer = 0

pub sum-set :
    (f : Call → ℕ) (calls : List Call) (i : ℕ) (c : Call)
    → i < length calls
    → sum f (set calls i c) + f (get_or calls i no_call) ≡ sum f calls + f c
unfolding sum
sum-set f [] i c h = absurd (omega (arith, h))
sum-set f (d ∷ calls) zero c h = omega arith
sum-set f (d ∷ calls) (suc i) c h = omega (arith, sum-set f calls i c (omega (arith, h)))

pub tested_at_le :
    (phase : Phase) (n : ℕ) → (tested_at phase n ≤ n) × (sent_at phase n ≤ tested_at phase n)
tested_at_le starts n = (omega arith, omega arith)
tested_at_le loops n = (omega arith, omega arith)
tested_at_le opened n = (omega arith, omega arith)
tested_at_le measured n = (omega arith, omega arith)
tested_at_le queued n = (omega arith, omega arith)
tested_at_le finished n = (omega arith, omega arith)
tested_at_le crashed n = (omega arith, omega arith)

pub tested_le : (c : Call) → tested c ≤ chunk
tested_le c =
    let n = length (part_of c) in ground (arith, tested_at_le c.phase n, length-take chunk c.rest)

sum-tested_le : (calls : List Call) → sum tested calls ≤ length calls * chunk
unfolding sum
sum-tested_le [] = omega arith
sum-tested_le (c ∷ calls) = omega (arith, tested_le c, sum-tested_le calls)

pub sum-sent_le : (calls : List Call) → sum sent calls ≤ sum tested calls
unfolding sum
sum-sent_le [] = omega arith
sum-sent_le (c ∷ calls) =
    omega (arith, (tested_at_le c.phase (length (part_of c))).1, sum-sent_le calls)

-- All calls but one.
pub others_le :
    (calls : List Call) (i : ℕ)
    → i < length calls
    → sum tested calls + chunk ≤ tested (get_or calls i no_call) + length calls * chunk
unfolding sum
others_le [] i h = absurd (omega (arith, h))
others_le (c ∷ calls) zero h = omega (arith, sum-tested_le calls)
others_le (c ∷ calls) (suc i) h = omega (arith, tested_le c, others_le calls i (omega (arith, h)))

pub in_range_or_none :
    (calls : List Call) (i : ℕ) → (i < length calls) ⊎ (get_or calls i no_call ≡ no_call)
in_range_or_none [] i = inr refl
in_range_or_none (c ∷ calls) zero = inl (omega arith)
in_range_or_none (c ∷ calls) (suc i) = elim (in_range_or_none calls i) [
  | inl h ↦ inl (omega (arith, h))
  | inr e ↦ inr e
]

-- With `m` calls beside one: the counter and what was tested for it are within the window and a chunk for
-- each of the `m`; what waits is counted, but for what calls are about to add.
pub record IsBounded (m window : ℕ) (u : Upstream) : Type 0 where
  pub some_calls : length u.calls ≡ suc m
  pub fixed : u.send_window ≡ window
  pub bound : u.added + sum tested u.calls ≤ window + u.taken_off + m * chunk
  pub counted_all :
      u.added + sum sent u.calls ≡ u.taken_off + (length (bytes_of u.queue) + held u.writer)
  pub capacity : length u.queue ≤ queue_capacity

pub length-bytes_of :
    (parts : List Part) (i : ℕ) (part : Bytes)
    → length (bytes_of (parts ++ (i, part) ∷ [])) ≡ length (bytes_of parts) + length part
unfolding bytes_of
length-bytes_of [] i part = omega (arith, length-append part [])
length-bytes_of ((j, p) ∷ parts) i part = omega (
  arith,
  length-append p (bytes_of (parts ++ (i, part) ∷ [])),
  length-append p (bytes_of parts),
  length-bytes_of parts i part,
)
