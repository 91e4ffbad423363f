-- ===== src/Relay/Conn/Calls.antt =====
-- internal/relay/conn.go: `Enqueue` and `writeLoop` in the steps that other goroutines may come between.
-- `Enqueue` holds no lock: several calls of it may run at once, each with the data of its client's
-- request, and `upstreamBytes` is read, added to and taken from by itself. That counter is what was
-- added less what was taken off, which may be more for a while. `shut` is that the channel is closed. The names of the calls on the chunks, and
-- the lists of what entered the channel and what left it, are there to be spoken about only.
pub mod Sums
pub mod Bounds
pub mod Streams
pub mod Order
mod Tests
use vlf_proto.Base.{
  ℕ, ◌+◌, Bool, true, false, ◌||◌, List, [], ◌∷◌, ◌++◌, ltb, leb, ◌==◌, if◌then◌else◌, length, take,
  drop, get_or, set, map, Option, none, some,
}
use vlf_proto.Wire.{Bytes}
use vlf_proto.Relay.Conn.{queue_capacity, chunk}

-- Where a call of `Enqueue` is: before its first tests; before the tests at the head of its loop; before
-- it reads `upstreamBytes`; before its `select`; before its `Add`; after its end; and in the panic of a
-- send on the closed channel.
pub data Phase : Type 0 where
  starts : Phase
  loops : Phase
  opened : Phase
  measured : Phase
  queued : Phase
  finished : Phase
  crashed : Phase

-- `rest` is `data[offset:]`, and `accepted` the bytes that its result counts.
pub record Call : Type 0 where
  pub phase : Phase
  pub rest : Bytes
  pub accepted : Bytes

-- Where the write loop is: at its `select`; with a chunk that is not taken off the counter yet; with one
-- that is; and at its end.
pub data Writer : Type 0 where
  idle : Writer
  received : Bytes → Writer
  counted : Bytes → Writer
  stopped : Writer

-- A chunk with the number of the call that it is of.
abbrev pub Part : Type 0
Part = ℕ × Bytes

pub record Upstream : Type 0 where
  pub calls : List Call
  pub queue : List Part
  pub added : ℕ
  pub taken_off : ℕ
  pub send_window : ℕ
  pub eos : Bool
  pub closed : Bool
  pub shut : Bool
  pub writer : Writer
  pub written : Bytes
  pub entered : List Part
  pub left : List Part

unfoldable pub new_call : Bytes → Call
new_call bytes = record { phase = starts; rest = bytes; accepted = [] }

-- A window below 1 is 1.
abbrev pub window_of : ℕ → ℕ
window_of send_window = if ltb send_window 1 then 1 else send_window

unfoldable pub new_upstream : ℕ → List Bytes → Upstream
new_upstream send_window datas = record {
  calls = map new_call datas;
  queue = [];
  added = 0;
  taken_off = 0;
  send_window = window_of send_window;
  eos = false;
  closed = false;
  shut = false;
  writer = idle;
  written = [];
  entered = [];
  left = [];
}

abbrev pub no_call : Call
no_call = record { phase = finished; rest = []; accepted = [] }

abbrev pub call_of : Upstream → ℕ → Call
call_of u i = get_or u.calls i no_call

abbrev pub part_of : Call → Bytes
part_of c = take chunk c.rest

abbrev pub goes_to : Upstream → ℕ → Call → Phase → Upstream
goes_to u i c phase = record u { calls = set u.calls i (record c { phase = phase }) }

-- The send of a chunk on the channel.
abbrev pub send_part : Upstream → ℕ → Call → Upstream
send_part u i c = record u {
  calls = set u.calls i (record c { phase = queued });
  queue = u.queue ++ (i, part_of c) ∷ [];
  entered = u.entered ++ (i, part_of c) ∷ [];
}

-- `c.upstreamBytes.Add(int64(partLen))`, and the rest of the round.
abbrev pub add_part : Upstream → ℕ → Call → Upstream
add_part u i c = record u {
  calls =
      set u.calls i
        (record { phase = loops; rest = drop chunk c.rest; accepted = c.accepted ++ part_of c });
  added = u.added + length (part_of c);
}

unfoldable pub call_step_at : Upstream → ℕ → Call → Phase → Upstream
call_step_at u i c starts =
    if length c.rest == 0
    then goes_to u i c finished
    else if u.closed || u.eos
    then goes_to u i c finished
    else goes_to u i c loops
call_step_at u i c loops =
    if length c.rest == 0
    then goes_to u i c finished
    else if u.closed || u.eos
    then goes_to u i c finished
    else goes_to u i c opened
call_step_at u i c opened =
    if ltb (u.send_window + u.taken_off) (u.added + length (part_of c))
    then goes_to u i c finished
    else goes_to u i c measured
call_step_at u i c measured =
    if u.shut
    then goes_to u i c crashed
    else if leb queue_capacity (length u.queue)
    then goes_to u i c finished
    else send_part u i c
call_step_at u i c queued = add_part u i c
call_step_at u i c finished = u
call_step_at u i c crashed = u

-- The next step of a call of `Enqueue`.
unfoldable pub call_step : Upstream → ℕ → Upstream
unfolding call_step_at
call_step u i = let c = call_of u i in call_step_at u i c c.phase

-- The receive of `writeLoop`.
unfoldable pub receive_at : Upstream → Writer → List Part → Upstream
receive_at u idle ((i, part) ∷ queue) = record u {
  queue = queue;
  writer = received part;
  left = u.left ++ (i, part) ∷ [];
}
receive_at u idle [] = u
receive_at u (received part) queue = u
receive_at u (counted part) queue = u
receive_at u stopped queue = u

-- `c.upstreamBytes.Add(-int64(len(chunk)))`
unfoldable pub count_off : Upstream → Writer → Upstream
count_off u (received part) = record u {
  writer = counted part;
  taken_off = u.taken_off + length part;
}
count_off u idle = u
count_off u (counted part) = u
count_off u stopped = u

-- The rest of the round. The write succeeds, or it fails behind so many bytes; the `MarkEOS` that follows
-- a failure is a step of its own.
unfoldable pub write_part : Upstream → Writer → Option ℕ → Upstream
write_part u (counted part) none =
    if length part == 0
    then record u { writer = idle }
    else if u.closed || u.eos
    then record u { writer = stopped }
    else record u { writer = idle; written = u.written ++ part }
write_part u (counted part) (some n) =
    if length part == 0
    then record u { writer = idle }
    else if u.closed || u.eos
    then record u { writer = stopped }
    else record u { writer = stopped; written = u.written ++ take n part }
write_part u idle failed = u
write_part u (received part) failed = u
write_part u stopped failed = u

-- The write loop ends at its `select` when its context is cancelled, as it is at either end.
unfoldable pub stop_at : Upstream → Writer → Upstream
stop_at u idle = if u.eos then record u { writer = stopped } else u
stop_at u (received part) = u
stop_at u (counted part) = u
stop_at u stopped = u

-- What may happen next: a step of the i-th call; the receive, the count, the write and the end of the
-- write loop; `MarkEOS`; `Close`, and its `close(c.upstreamQueue)`.
pub data Event : Type 0 where
  calls_on : ℕ → Event
  receives : Event
  counts_off : Event
  writes : Option ℕ → Event
  stops : Event
  marks_eos : Event
  closes : Event
  shuts : Event

unfoldable pub step : Upstream → Event → Upstream
step u (calls_on i) = call_step u i
step u receives = receive_at u u.writer u.queue
step u counts_off = count_off u u.writer
step u (writes failed) = write_part u u.writer failed
step u stops = stop_at u u.writer
step u marks_eos = record u { eos = true }
step u closes = record u { eos = true; closed = true }
step u shuts = if u.closed then record u { shut = true } else u

unfoldable pub run : Upstream → List Event → Upstream
run u [] = u
run u (event ∷ events) = run (step u event) events
