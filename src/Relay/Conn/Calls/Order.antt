-- ===== src/Relay/Conn/Calls/Order.antt =====
-- internal/relay/conn.go: what is written to the target, and what each of the calls of `Enqueue` that run
-- at once has put in the channel.
use vlf_proto.Base.{
  ℕ, zero, suc, ◌<◌, true, ◌||◌, List, [], ◌∷◌, ◌++◌, ◌==◌, length, take, drop, get_or, map, Option,
  append-nil, append_assoc, take-append-drop, ◌≡◌, refl, ap, ◌∙◌, subst, sym, arith, inl, inr,
  Bool-cases, Option-cases,
}
use vlf_proto.Wire.{Bytes}
use vlf_proto.Relay.Conn.{chunk}
use vlf_proto.Relay.Conn.Calls.{
  Phase, starts, loops, opened, measured, queued, finished, crashed, Writer, idle, received,
  counted, stopped, Part, Upstream, new_call, new_upstream, no_call, call_of, part_of, call_step_at,
  call_step, receive_at, count_off, write_part, stop_at, Event, calls_on, receives, counts_off,
  writes, stops, marks_eos, closes, shuts, step, run,
}
use vlf_proto.Relay.Conn.Calls.Sums.{bytes_of, in_range_or_none}
use vlf_proto.Relay.Conn.Calls.Streams.{
  of_call, bytes_of-append, given_at, Unwritten, IsInOrder, call_step_at-IsInOrder,
}

module _ (n : ℕ) (datas : ℕ → Bytes) where
  receive_at-IsInOrder :
      (u : Upstream) (writer : Writer) (queue : List Part)
      → u.writer ≡ writer
      → u.queue ≡ queue
      → IsInOrder n datas u
      → IsInOrder n datas (receive_at u writer queue)
  unfolding receive_at bytes_of
  receive_at-IsInOrder u idle [] w q o = o
  receive_at-IsInOrder u idle ((i, part) ∷ queue) w q o =
      let (rest, none_held, all) = o.out in
      let none_left : rest ≡ [] = subst (λ w. Unwritten w rest) w none_held in
      record {
        size = o.size;
        fifo = o.fifo ∙ ap (◌++◌ u.left) q ∙ sym (append_assoc u.left ((i, part) ∷ []) queue);
        out = (
          part,
          refl,
          bytes_of-append u.left ((i, part) ∷ [])
              ∙ ap (◌++◌ (bytes_of u.left)) (append-nil part)
              ∙ ap (λ l. l ++ part) (all ∙ ap (◌++◌ u.written) none_left ∙ append-nil u.written),
        );
        own = o.own;
      }
  receive_at-IsInOrder u (received part) queue w q o = o
  receive_at-IsInOrder u (counted part) queue w q o = o
  receive_at-IsInOrder u stopped queue w q o = o

  -- The writer in another state, with the same calls and chunks.
  writer-IsInOrder :
      (u u' : Upstream) (rest : Bytes)
      → u'.calls ≡ u.calls
      → u'.queue ≡ u.queue
      → u'.entered ≡ u.entered
      → u'.left ≡ u.left
      → Unwritten u'.writer rest
      → bytes_of u.left ≡ u'.written ++ rest
      → IsInOrder n datas u
      → IsInOrder n datas u'
  writer-IsInOrder u u' rest calls queue entered left unwritten all o = record {
    size = ap length calls ∙ o.size;
    fifo = entered ∙ o.fifo ∙ ap (λ l. l ++ u.queue) (sym left) ∙ ap (◌++◌ u'.left) (sym queue);
    out = (rest, unwritten, ap bytes_of left ∙ all);
    own = rw (entered, calls) o.own;
  }

  count_off-IsInOrder :
      (u : Upstream) (writer : Writer)
      → u.writer ≡ writer
      → IsInOrder n datas u
      → IsInOrder n datas (count_off u writer)
  unfolding count_off
  count_off-IsInOrder u idle w o = o
  count_off-IsInOrder u (received part) w o =
      let (rest, waits, all) = o.out in
      writer-IsInOrder u (count_off u (received part)) rest refl refl refl refl
        (subst (λ w. Unwritten w rest) w waits) all o
  count_off-IsInOrder u (counted part) w o = o
  count_off-IsInOrder u stopped w o = o

  -- The end of a round, from a chunk that waits to be written: nothing of it is left, or the loop ends.
  empty_part : (part : Bytes) → (length part == 0) ≡ true → part ≡ []
  empty_part [] h = refl
  empty_part (x ∷ part) h = absurd (ground (arith, h))

  write_part-IsInOrder :
      (u : Upstream) (writer : Writer) (failed : Option ℕ)
      → u.writer ≡ writer
      → IsInOrder n datas u
      → IsInOrder n datas (write_part u writer failed)
  unfolding write_part
  write_part-IsInOrder u idle failed w o = o
  write_part-IsInOrder u (received part) failed w o = o
  write_part-IsInOrder u stopped failed w o = o
  write_part-IsInOrder u (counted part) failed w o =
      let (rest, waits, all) = o.out in
      let waits' : rest ≡ part = subst (λ w. Unwritten w rest) w waits in
      let all' : bytes_of u.left ≡ u.written ++ part = all ∙ ap (◌++◌ u.written) waits' in
      let ended = record u { writer = stopped } in
      let done = record u { writer = idle } in
      let over = write_part u (counted part) failed in
      elim (Bool-cases (length part == 0)) [
        | inl empty ↦
            let out : over ≡ done = elim (Option-cases failed) [
              | inl e ↦ rw e (ground (arith, empty))
              | inr (k, e) ↦ rw e (ground (arith, empty))
            ] in
            rw out (
              writer-IsInOrder u done [] refl refl refl refl refl
                (all' ∙ ap (◌++◌ u.written) (empty_part part empty)) o)
        | inr some_part ↦ elim (Bool-cases (u.closed || u.eos)) [
          | inl cut_off ↦
              let out : over ≡ ended = elim (Option-cases failed) [
                | inl e ↦ rw e (ground (arith, some_part, cut_off))
                | inr (k, e) ↦ rw e (ground (arith, some_part, cut_off))
              ] in
              rw out (writer-IsInOrder u ended part refl refl refl refl tt all' o)
          | inr open_still ↦ elim (Option-cases failed) [
            | inl e ↦
                let u' = record u { writer = idle; written = u.written ++ part } in
                let out : over ≡ u' = rw e (ground (arith, some_part, open_still)) in
                rw out (
                  writer-IsInOrder u u' [] refl refl refl refl refl
                    (all' ∙ sym (append-nil (u.written ++ part))) o)
            | inr (k, e) ↦
                let u' = record u { writer = stopped; written = u.written ++ take k part } in
                let out : over ≡ u' = rw e (ground (arith, some_part, open_still)) in
                rw out (
                  writer-IsInOrder u u' (drop k part) refl refl refl refl tt
                    (all'
                      ∙ ap (◌++◌ u.written) (sym (take-append-drop k part))
                      ∙ sym (append_assoc u.written (take k part) (drop k part)))
                    o)
          ]
        ]
      ]

  stop_at-IsInOrder :
      (u : Upstream) (writer : Writer)
      → u.writer ≡ writer
      → IsInOrder n datas u
      → IsInOrder n datas (stop_at u writer)
  unfolding stop_at
  stop_at-IsInOrder u idle w o =
      let (rest, waits, all) = o.out in
      let ended = record u { writer = stopped } in
      elim (Bool-cases u.eos) [
        | inl over ↦
            let out : stop_at u idle ≡ ended = ground (arith, over) in
            rw out (writer-IsInOrder u ended rest refl refl refl refl tt all o)
        | inr open_still ↦ let out : stop_at u idle ≡ u = ground (arith, open_still) in rw out o
      ]
  stop_at-IsInOrder u (received part) w o = o
  stop_at-IsInOrder u (counted part) w o = o
  stop_at-IsInOrder u stopped w o = o

  step-IsInOrder :
      (u : Upstream) (event : Event) → IsInOrder n datas u → IsInOrder n datas (step u event)
  unfolding step call_step
  step-IsInOrder u (calls_on i) o = elim (in_range_or_none u.calls i) [
    | inl h ↦ call_step_at-IsInOrder n datas u i (call_of u i).phase h refl o
    | inr none_there ↦ rw (none_there, call_step, call_step_at) o
  ]
  step-IsInOrder u receives o = receive_at-IsInOrder u u.writer u.queue refl refl o
  step-IsInOrder u counts_off o = count_off-IsInOrder u u.writer refl o
  step-IsInOrder u (writes failed) o = write_part-IsInOrder u u.writer failed refl o
  step-IsInOrder u stops o = stop_at-IsInOrder u u.writer refl o
  step-IsInOrder u marks_eos o = record { size = o.size; fifo = o.fifo; out = o.out; own = o.own }
  step-IsInOrder u closes o = record { size = o.size; fifo = o.fifo; out = o.out; own = o.own }
  step-IsInOrder u shuts o =
      let (rest, waits, all) = o.out in
      elim (Bool-cases u.closed) [
        | inl over ↦
            let u' = record u { shut = true } in
            let out : step u shuts ≡ u' = ground (arith, over) in
            rw out (record { size = o.size; fifo = o.fifo; out = o.out; own = o.own })
        | inr open_still ↦ let out : step u shuts ≡ u = ground (arith, open_still) in rw out o
      ]

  run-IsInOrder :
      (u : Upstream) (events : List Event) → IsInOrder n datas u → IsInOrder n datas (run u events)
  unfolding run
  run-IsInOrder u [] o = o
  run-IsInOrder u (event ∷ events) o =
      run-IsInOrder (step u event) events (step-IsInOrder u event o)

new_call_at :
    (datas : List Bytes) (j : ℕ)
    → j < length (map new_call datas)
    → get_or (map new_call datas) j no_call ≡ new_call (get_or datas j [])
new_call_at [] j h = absurd (omega (arith, h))
new_call_at (bytes ∷ datas) zero h = refl
new_call_at (bytes ∷ datas) (suc j) h = new_call_at datas j (omega (arith, h))

length-map : (datas : List Bytes) → length (map new_call datas) ≡ length datas
length-map [] = refl
length-map (bytes ∷ datas) = ap suc (length-map datas)

-- What is left of a call's data when it has put `put` in the channel.
given_first :
    (phase : Phase) (accepted rest : Bytes)
    → (left : Bytes) × (given_at phase accepted (take chunk rest) ++ left ≡ accepted ++ rest)
given_first starts accepted rest = (rest, refl)
given_first loops accepted rest = (rest, refl)
given_first opened accepted rest = (rest, refl)
given_first measured accepted rest = (rest, refl)
given_first queued accepted rest = (
  drop chunk rest,
  append_assoc accepted (take chunk rest) (drop chunk rest)
      ∙ ap (◌++◌ accepted) (take-append-drop chunk rest),
)
given_first finished accepted rest = (rest, refl)
given_first crashed accepted rest = (rest, refl)

-- However the steps of some calls of `Enqueue` fall between each other and those of the write loop, of
-- `MarkEOS` and of `Close`: what is written to the target is the beginning of what entered the channel,
-- in its order; what a call put in the channel is the beginning of its data, in its order; and when the
-- call has finished, that is what it has accepted.
pub calls_in_order :
    (window : ℕ) (datas : List Bytes) (events : List Event)
    → let u = run (new_upstream window datas) events in
      ((rest : Bytes) × (bytes_of u.entered ≡ u.written ++ rest))
      × ((j : ℕ)
          → j < length datas
          → let put = of_call j u.entered in
            ((rest : Bytes) × (put ++ rest ≡ get_or datas j []))
            × (((call_of u j).phase ≡ finished) → put ≡ (call_of u j).accepted))
unfolding new_upstream bytes_of of_call new_call
calls_in_order window datas events =
    let start = new_upstream window datas in
    let u = run start events in
    let data_of = λ (j : ℕ). get_or datas j [] in
    let o : IsInOrder (length datas) data_of u =
      run-IsInOrder (length datas) data_of start events (record {
        size = length-map datas;
        fifo = refl;
        out = ([], refl, refl);
        own = λ j h. rw (new_call_at datas j h) (refl, refl);
      }) in
    let (rest, waits, all) = o.out in
    (
      (
        rest ++ bytes_of u.queue,
        ap bytes_of o.fifo
            ∙ bytes_of-append u.left u.queue
            ∙ ap (λ l. l ++ bytes_of u.queue) all
            ∙ append_assoc u.written rest (bytes_of u.queue),
      ),
      λ j h.
          let c = call_of u j in
          let (puts, whole) = o.own j (omega (arith, h, o.size)) in
          let (left, first) = given_first c.phase c.accepted c.rest in
          (
            (left, ap (λ l. l ++ left) puts ∙ first ∙ whole),
            λ over. puts ∙ ap (λ p. given_at p c.accepted (part_of c)) over,
          ),
    )
