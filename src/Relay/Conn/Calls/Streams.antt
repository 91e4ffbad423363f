-- ===== src/Relay/Conn/Calls/Streams.antt =====
-- internal/relay/conn.go: what calls of `Enqueue` that run at once put in the channel.
use vlf_proto.Base.{
  ℕ, ◌+◌, ◌<◌, false, ◌||◌, ◌&&◌, List, [], ◌∷◌, ◌++◌, ltb, leb, ◌==◌, if◌then◌else◌, length,
  length-set, drop, get_or, set, append-nil, append_assoc, take-append-drop, ◌≡◌, refl, ap, ◌∙◌,
  subst, sym, arith, inl, inr, Bool-cases,
}
use vlf_proto.Base.Tabulate.{get_or-set}
use vlf_proto.Wire.{Bytes}
use vlf_proto.Relay.Conn.{queue_capacity, chunk}
use vlf_proto.Relay.Conn.Calls.{
  Phase, starts, loops, opened, measured, queued, finished, crashed, Call, Writer, idle, received,
  counted, stopped, Part, Upstream, no_call, call_of, part_of, goes_to, send_part, add_part,
  call_step_at,
}
use vlf_proto.Relay.Conn.Calls.Sums.{bytes_of}

-- The bytes of the chunks of one call.
unfoldable pub of_call : ℕ → List Part → Bytes
of_call j [] = []
of_call j ((i, part) ∷ parts) = if i == j then part ++ of_call j parts else of_call j parts

of_call-append :
    (j : ℕ) (parts : List Part) (i : ℕ) (part : Bytes)
    → of_call j (parts ++ (i, part) ∷ [])
      ≡ (if i == j then of_call j parts ++ part else of_call j parts)
unfolding of_call
of_call-append j [] i part = ground (arith, append-nil part)
of_call-append j ((k, p) ∷ parts) i part = elim (Bool-cases (k == j)) [
  | inl mine ↦ elim (Bool-cases (i == j)) [
    | inl h ↦
        rw (mine, of_call-append j parts i part, h) (sym (append_assoc p (of_call j parts) part))
    | inr h ↦ rw (mine, of_call-append j parts i part, h) refl
  ]
  | inr other ↦ rw other (of_call-append j parts i part)
]

pub bytes_of-append : (xs ys : List Part) → bytes_of (xs ++ ys) ≡ bytes_of xs ++ bytes_of ys
unfolding bytes_of
bytes_of-append [] ys = refl
bytes_of-append ((i, part) ∷ xs) ys =
    ap (◌++◌ part) (bytes_of-append xs ys) ∙ sym (append_assoc part (bytes_of xs) (bytes_of ys))

-- What a call has put in the channel, from what it has accepted.
abbrev pub given_at : Phase → Bytes → Bytes → Bytes
given_at queued accepted part = accepted ++ part
given_at phase accepted part = accepted

abbrev pub given : Call → Bytes
given c = given_at c.phase c.accepted (part_of c)

-- What is received but not written.
abbrev pub Unwritten : Writer → Bytes → Type 0
Unwritten idle rest = rest ≡ []
Unwritten (received part) rest = rest ≡ part
Unwritten (counted part) rest = rest ≡ part
Unwritten stopped rest = Unit

abbrev pub Own : List Part → Bytes → ℕ → Call → Type 0
Own entered bytes j c = (of_call j entered ≡ given c) × (c.accepted ++ c.rest ≡ bytes)

module _ (n : ℕ) (datas : ℕ → Bytes) where
  pub record IsInOrder (u : Upstream) : Type 0 where
    pub size : length u.calls ≡ n
    pub fifo : u.entered ≡ u.left ++ u.queue
    pub out : (rest : Bytes) × Unwritten u.writer rest × (bytes_of u.left ≡ u.written ++ rest)
    pub own : (j : ℕ) → j < length u.calls → Own u.entered (datas j) j (call_of u j)

  -- The i-th call is another, and the rest of the calls are as they were.
  set-Own :
      (u u' : Upstream) (i : ℕ) (c : Call)
      → i < length u.calls
      → u'.calls ≡ set u.calls i c
      → Own u'.entered (datas i) i c
      → ((j : ℕ) → (i == j) ≡ false → of_call j u'.entered ≡ of_call j u.entered)
      → ((j : ℕ) → j < length u.calls → Own u.entered (datas j) j (call_of u j))
      → (j : ℕ) → j < length u'.calls
      → Own u'.entered (datas j) j (call_of u' j)
  set-Own u u' i c h changed mine others own j k =
      let same : length u'.calls ≡ length u.calls = ap length changed ∙ length-set u.calls i c in
      let found : call_of u' j ≡ (if (i == j) && ltb i (length u.calls) then c else call_of u j) =
        ap (λ cs. get_or cs j no_call) changed ∙ get_or-set u.calls i j c no_call in
      elim (Bool-cases (i == j)) [
        | inl named ↦
            let at : call_of u' j ≡ c = ground (arith, found, named, h) in
            rw at (subst (λ l. Own u'.entered (datas l) l c) (ground (arith, named)) mine)
        | inr other ↦
            let at : call_of u' j ≡ call_of u j = ground (arith, found, other) in
            let (puts, all) = own j (omega (arith, k, same)) in rw at (others j other ∙ puts, all)
      ]

  -- A call in another phase, that has put the same in the channel.
  goes_to-IsInOrder :
      (u : Upstream) (i : ℕ) (old new : Phase)
      → i < length u.calls
      → (call_of u i).phase ≡ old
      → ((a p : Bytes) → given_at new a p ≡ given_at old a p)
      → IsInOrder u
      → IsInOrder (goes_to u i (call_of u i) new)
  goes_to-IsInOrder u i old new h at same o =
      let c = call_of u i in
      let (puts, all) = o.own i h in
      let puts' : of_call i u.entered ≡ given_at new c.accepted (part_of c) =
        puts ∙ ap (λ p. given_at p c.accepted (part_of c)) at ∙ sym (same c.accepted (part_of c)) in
      record {
        size = length-set u.calls i (record c { phase = new }) ∙ o.size;
        fifo = o.fifo;
        out = o.out;
        own =
            set-Own u (goes_to u i c new) i (record c { phase = new }) h refl (puts', all)
              (λ j other. refl) o.own;
      }

  send_part-IsInOrder :
      (u : Upstream) (i : ℕ)
      → i < length u.calls
      → (call_of u i).phase ≡ measured
      → IsInOrder u
      → IsInOrder (send_part u i (call_of u i))
  send_part-IsInOrder u i h at o =
      let c = call_of u i in
      let part = part_of c in
      let (puts, all) = o.own i h in
      let before : of_call i u.entered ≡ c.accepted =
        puts ∙ ap (λ p. given_at p c.accepted part) at in
      let puts' : of_call i (u.entered ++ (i, part) ∷ []) ≡ c.accepted ++ part =
        ground (arith, of_call-append i u.entered i part, before) in
      record {
        size = length-set u.calls i (record c { phase = queued }) ∙ o.size;
        fifo = ap (λ l. l ++ (i, part) ∷ []) o.fifo ∙ append_assoc u.left u.queue ((i, part) ∷ []);
        out = o.out;
        own =
            set-Own u (send_part u i c) i (record c { phase = queued }) h refl (puts', all)
              (λ j other. ground (arith, of_call-append j u.entered i part, other)) o.own;
      }

  add_part-IsInOrder :
      (u : Upstream) (i : ℕ)
      → i < length u.calls
      → (call_of u i).phase ≡ queued
      → IsInOrder u
      → IsInOrder (add_part u i (call_of u i))
  add_part-IsInOrder u i h at o =
      let c = call_of u i in
      let part = part_of c in
      let rest = drop chunk c.rest in
      let c' : Call = record { phase = loops; rest = rest; accepted = c.accepted ++ part } in
      let (puts, all) = o.own i h in
      let puts' : of_call i u.entered ≡ c.accepted ++ part =
        puts ∙ ap (λ p. given_at p c.accepted part) at in
      let all' : (c.accepted ++ part) ++ rest ≡ datas i =
        append_assoc c.accepted part rest
        ∙ ap (◌++◌ c.accepted) (take-append-drop chunk c.rest)
        ∙ all in
      record {
        size = length-set u.calls i c' ∙ o.size;
        fifo = o.fifo;
        out = o.out;
        own = set-Own u (add_part u i c) i c' h refl (puts', all') (λ j other. refl) o.own;
      }

  pub call_step_at-IsInOrder :
      (u : Upstream) (i : ℕ) (phase : Phase)
      → i < length u.calls
      → (call_of u i).phase ≡ phase
      → IsInOrder u
      → IsInOrder (call_step_at u i (call_of u i) phase)
  unfolding call_step_at
  call_step_at-IsInOrder u i starts h at o =
      let ends = goes_to-IsInOrder u i starts finished h at (λ a p. refl) o in
      let goes = goes_to-IsInOrder u i starts loops h at (λ a p. refl) o in
      elim (Bool-cases (length (call_of u i).rest == 0)) [
        | inl empty ↦ rw (empty, call_step_at) ends
        | inr some_rest ↦ elim (Bool-cases (u.closed || u.eos)) [
          | inl over ↦ rw (some_rest, over, call_step_at) ends
          | inr open_still ↦ rw (some_rest, open_still, call_step_at) goes
        ]
      ]
  call_step_at-IsInOrder u i loops h at o =
      let ends = goes_to-IsInOrder u i loops finished h at (λ a p. refl) o in
      let goes = goes_to-IsInOrder u i loops opened h at (λ a p. refl) o in
      elim (Bool-cases (length (call_of u i).rest == 0)) [
        | inl empty ↦ rw (empty, call_step_at) ends
        | inr some_rest ↦ elim (Bool-cases (u.closed || u.eos)) [
          | inl over ↦ rw (some_rest, over, call_step_at) ends
          | inr open_still ↦ rw (some_rest, open_still, call_step_at) goes
        ]
      ]
  call_step_at-IsInOrder u i opened h at o =
      let full = ltb (u.send_window + u.taken_off) (u.added + length (part_of (call_of u i))) in
      elim (Bool-cases full) [
        | inl over ↦
            rw (over, call_step_at) (goes_to-IsInOrder u i opened finished h at (λ a p. refl) o)
        | inr room ↦
            rw (room, call_step_at) (goes_to-IsInOrder u i opened measured h at (λ a p. refl) o)
      ]
  call_step_at-IsInOrder u i measured h at o =
      let c = call_of u i in
      elim (Bool-cases u.shut) [
        | inl over ↦
            let out : call_step_at u i c measured ≡ goes_to u i c crashed = ground (arith, over) in
            rw out (goes_to-IsInOrder u i measured crashed h at (λ a p. refl) o)
        | inr open_still ↦ elim (Bool-cases (leb queue_capacity (length u.queue))) [
          | inl full ↦
              let out : call_step_at u i c measured ≡ goes_to u i c finished =
                ground (arith, open_still, full) in
              rw out (goes_to-IsInOrder u i measured finished h at (λ a p. refl) o)
          | inr space ↦
              let out : call_step_at u i c measured ≡ send_part u i c =
                ground (arith, open_still, space) in
              rw out (send_part-IsInOrder u i h at o)
        ]
      ]
  call_step_at-IsInOrder u i queued h at o = add_part-IsInOrder u i h at o
  call_step_at-IsInOrder u i finished h at o = o
  call_step_at-IsInOrder u i crashed h at o = o
