-- ===== src/Relay/Conn/Calls/Tests.antt =====
-- Calls of `Enqueue` that run at once, and the theorems at concrete ones.
use vlf_proto.Base.{
  ℕ, ◌+◌, ◌*◌, ◌≤◌, ◌<◌, List, [], ◌∷◌, ◌++◌, length, get_or, none, some, ◌≡◌, refl,
}
use vlf_proto.Wire.{Bytes}
use vlf_proto.Relay.Conn.{queue_capacity, chunk}
use vlf_proto.Relay.Conn.Calls.{
  finished, new_call, new_upstream, window_of, call_of, call_step_at, call_step, receive_at,
  count_off, write_part, Event, calls_on, receives, counts_off, writes, marks_eos, closes, shuts,
  step, run,
}
use vlf_proto.Relay.Conn.Calls.Sums.{bytes_of, sum, sent, held}
use vlf_proto.Relay.Conn.Calls.Bounds.{waiting_bounded}
use vlf_proto.Relay.Conn.Calls.Streams.{of_call}
use vlf_proto.Relay.Conn.Calls.Order.{calls_in_order}

abbrev second_call : List Bytes
second_call = (3 ∷ 4 ∷ []) ∷ []

abbrev two_calls : List Bytes
two_calls = (1 ∷ 2 ∷ []) ∷ second_call

-- Both calls test the window before either adds to the counter.
abbrev race : List Event
race =
    calls_on 0
    ∷ calls_on 1
    ∷ calls_on 0
    ∷ calls_on 1
    ∷ calls_on 0
    ∷ calls_on 1
    ∷ calls_on 1
    ∷ calls_on 0
    ∷ []

-- What comes then: the write loop counts the first chunk off before its call adds it.
abbrev race_and_write : List Event
race_and_write =
    race
    ++ (receives
        ∷ counts_off
        ∷ writes none
        ∷ calls_on 1
        ∷ calls_on 1
        ∷ receives
        ∷ counts_off
        ∷ writes (some 1)
        ∷ marks_eos
        ∷ closes
        ∷ shuts
        ∷ [])

-- Four bytes wait in a window of three.
window_exceeded : length (bytes_of (run (new_upstream 3 two_calls) race).queue) ≡ 4
unfolding run step call_step call_step_at new_upstream new_call bytes_of
window_exceeded = refl

race_result :
    let u = run (new_upstream 3 two_calls) race_and_write in
    (u.written ≡ 3 ∷ 4 ∷ 1 ∷ [])
    × ((call_of u 1).phase ≡ finished)
    × (of_call 1 u.entered ≡ 3 ∷ 4 ∷ [])
unfolding run step call_step call_step_at receive_at count_off write_part new_upstream new_call
    of_call
race_result = (refl, refl, refl)

waiting_bounded_example :
    let u = run (new_upstream 3 two_calls) race_and_write in
    let waiting = length (bytes_of u.queue) + held u.writer in
    (waiting ≤ window_of 3 + length second_call * chunk)
    × (length u.queue ≤ queue_capacity)
    × ((sum sent u.calls ≡ 0) → u.added ≡ u.taken_off + waiting)
waiting_bounded_example = waiting_bounded 3 (1 ∷ 2 ∷ []) second_call race_and_write

calls_in_order_example :
    let u = run (new_upstream 3 two_calls) race_and_write in
    ((rest : Bytes) × (bytes_of u.entered ≡ u.written ++ rest))
    × ((j : ℕ)
        → j < length two_calls
        → let put = of_call j u.entered in
          ((rest : Bytes) × (put ++ rest ≡ get_or two_calls j []))
          × (((call_of u j).phase ≡ finished) → put ≡ (call_of u j).accepted))
calls_in_order_example = calls_in_order 3 two_calls race_and_write
