-- ===== src/Relay/Conn/Calls/Bounds.antt =====
-- internal/relay/conn.go: how much waits upstream when calls of `Enqueue` run at once.
use vlf_proto.Base.{
  ℕ, suc, ◌+◌, ◌*◌, ◌≤◌, ◌<◌, ◌||◌, List, [], ◌∷◌, ◌++◌, ltb, leb, ◌==◌, length, drop, map, Option,
  none, some, length-append, length-set, ◌≡◌, refl, ap, ◌∙◌, arith, inl, inr, Bool-cases,
}
use vlf_proto.Wire.{Bytes}
use vlf_proto.Relay.Conn.{queue_capacity, chunk}
use vlf_proto.Relay.Conn.Calls.{
  Phase, starts, loops, opened, measured, queued, finished, crashed, Call, Writer, idle, received,
  counted, stopped, Part, Upstream, new_call, new_upstream, window_of, call_of, part_of, goes_to,
  send_part, add_part, call_step_at, call_step, receive_at, count_off, write_part, stop_at, Event,
  calls_on, receives, counts_off, writes, stops, marks_eos, closes, shuts, step, run,
}
use vlf_proto.Relay.Conn.Calls.Sums.{
  bytes_of, tested_at, sent_at, tested, sent, sum, held, sum-set, sum-sent_le, others_le,
  in_range_or_none, IsBounded, length-bytes_of,
}

module _ (m window : ℕ) where
  goes_to-IsBounded :
      (u : Upstream) (i : ℕ) (old new : Phase)
      → i < length u.calls
      → (call_of u i).phase ≡ old
      → ((n : ℕ) → tested_at new n ≤ tested_at old n)
      → ((n : ℕ) → sent_at new n ≡ sent_at old n)
      → IsBounded m window u
      → IsBounded m window (goes_to u i (call_of u i) new)
  goes_to-IsBounded u i old new h at less same b =
      let c = call_of u i in
      let n = length (part_of c) in
      let c' : Call = record c { phase = new } in
      record {
        some_calls = length-set u.calls i c' ∙ b.some_calls;
        fixed = b.fixed;
        bound =
            omega
              (arith, b.bound, less n, ap (λ p. tested_at p n) at, sum-set tested u.calls i c' h);
        counted_all =
            omega
              (arith, b.counted_all, same n, ap (λ p. sent_at p n) at, sum-set sent u.calls i c' h);
        capacity = b.capacity;
      }

  -- The test against the window: the other calls may have tested a chunk each.
  measured-IsBounded :
      (u : Upstream) (i : ℕ)
      → i < length u.calls
      → (call_of u i).phase ≡ opened
      → u.added + length (part_of (call_of u i)) ≤ u.send_window + u.taken_off
      → IsBounded m window u
      → IsBounded m window (goes_to u i (call_of u i) measured)
  measured-IsBounded u i h at room b =
      let c = call_of u i in
      let n = length (part_of c) in
      let c' : Call = record c { phase = measured } in
      record {
        some_calls = length-set u.calls i c' ∙ b.some_calls;
        fixed = b.fixed;
        bound = omega (
          arith,
          room,
          b.fixed,
          ap (λ l. l * chunk) b.some_calls,
          others_le u.calls i h,
          ap (λ p. tested_at p n) at,
          sum-set tested u.calls i c' h,
        );
        counted_all =
            omega (arith, b.counted_all, ap (λ p. sent_at p n) at, sum-set sent u.calls i c' h);
        capacity = b.capacity;
      }

  send_part-IsBounded :
      (u : Upstream) (i : ℕ)
      → i < length u.calls
      → (call_of u i).phase ≡ measured
      → length u.queue < queue_capacity
      → IsBounded m window u
      → IsBounded m window (send_part u i (call_of u i))
  send_part-IsBounded u i h at space b =
      let c = call_of u i in
      let n = length (part_of c) in
      let c' : Call = record c { phase = queued } in
      record {
        some_calls = length-set u.calls i c' ∙ b.some_calls;
        fixed = b.fixed;
        bound = omega (arith, b.bound, ap (λ p. tested_at p n) at, sum-set tested u.calls i c' h);
        counted_all = omega (
          arith,
          b.counted_all,
          ap (λ p. sent_at p n) at,
          sum-set sent u.calls i c' h,
          length-bytes_of u.queue i (part_of c),
        );
        capacity = omega (arith, space, length-append u.queue ((i, part_of c) ∷ []));
      }

  add_part-IsBounded :
      (u : Upstream) (i : ℕ)
      → i < length u.calls
      → (call_of u i).phase ≡ queued
      → IsBounded m window u
      → IsBounded m window (add_part u i (call_of u i))
  add_part-IsBounded u i h at b =
      let c = call_of u i in
      let n = length (part_of c) in
      let c' : Call = record {
        phase = loops;
        rest = drop chunk c.rest;
        accepted = c.accepted ++ part_of c;
      } in
      record {
        some_calls = length-set u.calls i c' ∙ b.some_calls;
        fixed = b.fixed;
        bound = omega (arith, b.bound, ap (λ p. tested_at p n) at, sum-set tested u.calls i c' h);
        counted_all =
            omega (arith, b.counted_all, ap (λ p. sent_at p n) at, sum-set sent u.calls i c' h);
        capacity = b.capacity;
      }

  call_step_at-IsBounded :
      (u : Upstream) (i : ℕ) (phase : Phase)
      → i < length u.calls
      → (call_of u i).phase ≡ phase
      → IsBounded m window u
      → IsBounded m window (call_step_at u i (call_of u i) phase)
  unfolding call_step_at
  call_step_at-IsBounded u i starts h at b =
      let ends = goes_to-IsBounded u i starts finished h at (λ n. omega arith) (λ n. refl) b in
      let goes = goes_to-IsBounded u i starts loops h at (λ n. omega arith) (λ n. refl) b in
      elim (Bool-cases (length (call_of u i).rest == 0)) [
        | inl empty ↦ rw (empty, call_step_at) ends
        | inr some_rest ↦ elim (Bool-cases (u.closed || u.eos)) [
          | inl over ↦ rw (some_rest, over, call_step_at) ends
          | inr open_still ↦ rw (some_rest, open_still, call_step_at) goes
        ]
      ]
  call_step_at-IsBounded u i loops h at b =
      let ends = goes_to-IsBounded u i loops finished h at (λ n. omega arith) (λ n. refl) b in
      let goes = goes_to-IsBounded u i loops opened h at (λ n. omega arith) (λ n. refl) b in
      elim (Bool-cases (length (call_of u i).rest == 0)) [
        | inl empty ↦ rw (empty, call_step_at) ends
        | inr some_rest ↦ elim (Bool-cases (u.closed || u.eos)) [
          | inl over ↦ rw (some_rest, over, call_step_at) ends
          | inr open_still ↦ rw (some_rest, open_still, call_step_at) goes
        ]
      ]
  call_step_at-IsBounded u i opened h at b =
      let full = ltb (u.send_window + u.taken_off) (u.added + length (part_of (call_of u i))) in
      elim (Bool-cases full) [
        | inl over ↦
            rw (over, call_step_at)
              (goes_to-IsBounded u i opened finished h at (λ n. omega arith) (λ n. refl) b)
        | inr room ↦ rw (room, call_step_at) (measured-IsBounded u i h at (ground (arith, room)) b)
      ]
  call_step_at-IsBounded u i measured h at b =
      let c = call_of u i in
      elim (Bool-cases u.shut) [
        | inl over ↦
            let out : call_step_at u i c measured ≡ goes_to u i c crashed = ground (arith, over) in
            rw out (goes_to-IsBounded u i measured crashed h at (λ n. omega arith) (λ n. refl) b)
        | inr open_still ↦ elim (Bool-cases (leb queue_capacity (length u.queue))) [
          | inl full ↦
              let out : call_step_at u i c measured ≡ goes_to u i c finished =
                ground (arith, open_still, full) in
              rw out (goes_to-IsBounded u i measured finished h at (λ n. omega arith) (λ n. refl) b)
          | inr space ↦
              let out : call_step_at u i c measured ≡ send_part u i c =
                ground (arith, open_still, space) in
              rw out (send_part-IsBounded u i h at (ground (arith, space)) b)
        ]
      ]
  call_step_at-IsBounded u i queued h at b = add_part-IsBounded u i h at b
  call_step_at-IsBounded u i finished h at b = b
  call_step_at-IsBounded u i crashed h at b = b

  receive_at-IsBounded :
      (u : Upstream) (writer : Writer) (queue : List Part)
      → u.writer ≡ writer
      → u.queue ≡ queue
      → IsBounded m window u
      → IsBounded m window (receive_at u writer queue)
  unfolding receive_at bytes_of
  receive_at-IsBounded u idle [] w q b = b
  receive_at-IsBounded u idle ((i, part) ∷ queue) w q b = record {
    some_calls = b.some_calls;
    fixed = b.fixed;
    bound = b.bound;
    counted_all = omega (
      arith,
      b.counted_all,
      ap held w,
      ap (λ parts. length (bytes_of parts)) q,
      length-append part (bytes_of queue),
    );
    capacity = omega (arith, b.capacity, ap length q);
  }
  receive_at-IsBounded u (received part) queue w q b = b
  receive_at-IsBounded u (counted part) queue w q b = b
  receive_at-IsBounded u stopped queue w q b = b

  -- The writer with another chunk or none, as far as the counter goes.
  writer-IsBounded :
      (u u' : Upstream)
      → u'.calls ≡ u.calls
      → u'.queue ≡ u.queue
      → u'.send_window ≡ u.send_window
      → u'.added ≡ u.added
      → u'.taken_off + held u'.writer ≡ u.taken_off + held u.writer
      → u.taken_off ≤ u'.taken_off
      → IsBounded m window u
      → IsBounded m window u'
  writer-IsBounded u u' calls queue same added off more b = record {
    some_calls = ap length calls ∙ b.some_calls;
    fixed = same ∙ b.fixed;
    bound = omega (arith, b.bound, added, more, ap (sum tested) calls);
    counted_all = omega (
      arith,
      b.counted_all,
      added,
      off,
      ap (sum sent) calls,
      ap (λ parts. length (bytes_of parts)) queue,
    );
    capacity = omega (arith, b.capacity, ap length queue);
  }

  count_off-IsBounded :
      (u : Upstream) (writer : Writer)
      → u.writer ≡ writer
      → IsBounded m window u
      → IsBounded m window (count_off u writer)
  unfolding count_off
  count_off-IsBounded u idle w b = b
  count_off-IsBounded u (received part) w b =
      writer-IsBounded u (count_off u (received part)) refl refl refl refl
        (omega (arith, ap held w)) (omega arith) b
  count_off-IsBounded u (counted part) w b = b
  count_off-IsBounded u stopped w b = b

  write_part-IsBounded :
      (u : Upstream) (writer : Writer) (failed : Option ℕ)
      → u.writer ≡ writer
      → IsBounded m window u
      → IsBounded m window (write_part u writer failed)
  unfolding write_part
  write_part-IsBounded u idle failed w b = b
  write_part-IsBounded u (received part) failed w b = b
  write_part-IsBounded u (counted part) none w b =
      let same = ap held w in
      writer-IsBounded u (write_part u (counted part) none) (ground arith) (ground arith)
        (ground arith) (ground arith) (ground (arith, same)) (ground arith) b
  write_part-IsBounded u (counted part) (some n) w b =
      let same = ap held w in
      writer-IsBounded u (write_part u (counted part) (some n)) (ground arith) (ground arith)
        (ground arith) (ground arith) (ground (arith, same)) (ground arith) b
  write_part-IsBounded u stopped failed w b = b

  stop_at-IsBounded :
      (u : Upstream) (writer : Writer)
      → u.writer ≡ writer
      → IsBounded m window u
      → IsBounded m window (stop_at u writer)
  unfolding stop_at
  stop_at-IsBounded u idle w b =
      let same = ap held w in
      writer-IsBounded u (stop_at u idle) (ground arith) (ground arith) (ground arith)
        (ground arith) (ground (arith, same)) (ground arith) b
  stop_at-IsBounded u (received part) w b = b
  stop_at-IsBounded u (counted part) w b = b
  stop_at-IsBounded u stopped w b = b

  step-IsBounded :
      (u : Upstream) (event : Event) → IsBounded m window u → IsBounded m window (step u event)
  unfolding step call_step
  step-IsBounded u (calls_on i) b = elim (in_range_or_none u.calls i) [
    | inl h ↦ call_step_at-IsBounded u i (call_of u i).phase h refl b
    | inr none_there ↦ rw (none_there, call_step, call_step_at) b
  ]
  step-IsBounded u receives b = receive_at-IsBounded u u.writer u.queue refl refl b
  step-IsBounded u counts_off b = count_off-IsBounded u u.writer refl b
  step-IsBounded u (writes failed) b = write_part-IsBounded u u.writer failed refl b
  step-IsBounded u stops b = stop_at-IsBounded u u.writer refl b
  step-IsBounded u marks_eos b =
      writer-IsBounded u (step u marks_eos) refl refl refl refl refl (omega arith) b
  step-IsBounded u closes b =
      writer-IsBounded u (step u closes) refl refl refl refl refl (omega arith) b
  step-IsBounded u shuts b =
      writer-IsBounded u (step u shuts) (ground arith) (ground arith) (ground arith) (ground arith)
        (ground arith) (ground arith) b

  pub run-IsBounded :
      (u : Upstream) (events : List Event)
      → IsBounded m window u
      → IsBounded m window (run u events)
  unfolding run
  run-IsBounded u [] b = b
  run-IsBounded u (event ∷ events) b =
      run-IsBounded (step u event) events (step-IsBounded u event b)

new_calls :
    (datas : List Bytes)
    → (length (map new_call datas) ≡ length datas)
      × (sum tested (map new_call datas) ≡ 0)
      × (sum sent (map new_call datas) ≡ 0)
unfolding sum new_call
new_calls [] = (refl, refl, refl)
new_calls (bytes ∷ datas) =
    let (size, no_tests, no_sends) = new_calls datas in
    (ap suc size, omega (arith, no_tests), omega (arith, no_sends))

-- However the steps of some calls of `Enqueue` fall between each other and those of the write loop, of
-- `MarkEOS` and of `Close`: what waits for the target is within the send window and one chunk for each
-- call beside the first, so within the window where there is one call; the channel holds its capacity
-- at most; and when no call is between its send and its `Add`, the counter is what waits.
pub waiting_bounded :
    (window : ℕ) (first : Bytes) (others : List Bytes) (events : List Event)
    → let u = run (new_upstream window (first ∷ others)) events in
      let waiting = length (bytes_of u.queue) + held u.writer in
      (waiting ≤ window_of window + length others * chunk)
      × (length u.queue ≤ queue_capacity)
      × ((sum sent u.calls ≡ 0) → u.added ≡ u.taken_off + waiting)
unfolding new_upstream bytes_of
waiting_bounded window first others events =
    let start = new_upstream window (first ∷ others) in
    let u = run start events in
    let (size, no_tests, no_sends) = new_calls (first ∷ others) in
    let b : IsBounded (length others) (window_of window) u =
      run-IsBounded (length others) (window_of window) start events (record {
        some_calls = size;
        fixed = refl;
        bound = omega (arith, no_tests);
        counted_all = omega (arith, no_sends);
        capacity = omega arith;
      }) in
    (
      omega (arith, b.bound, b.counted_all, sum-sent_le u.calls),
      b.capacity,
      λ none_between. omega (arith, b.counted_all, none_between),
    )
