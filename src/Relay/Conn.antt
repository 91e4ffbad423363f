-- ===== src/Relay/Conn.antt =====
-- internal/relay/conn.go: a relay connection. A connection to a target is a number, its handle, and the
-- clock's reading, in milliseconds, is an argument. `Enqueue` holds no lock: here it is one call that
-- nothing comes between, as the relay manager's steps take it, and Calls has calls that run at once, in
-- their single steps. What waits in the queue when the connection closes stays there.
pub mod Loop
pub mod Calls
mod Tests
use vlf_proto.Base.{
  ℕ, zero, suc, ◌+◌, ◌-◌, ◌*◌, ◌/◌, Bool, true, false, not, ◌||◌, ◌&&◌, List, [], ◌∷◌, ◌++◌, ltb,
  leb, ◌==◌, if◌then◌else◌, length, take, drop, Option, none, some, Result, ok, err,
}
use vlf_proto.Wire.{Bytes}
use vlf_proto.Relay.RingBuffer
use vlf_proto.Relay.RingBuffer.{RingBuffer, new_ring_buffer}

pub record RelayConn : Type 0 where
  pub id : Bytes
  pub client_id : Bytes
  pub target : ℕ
  pub downstream : RingBuffer
  pub upstream_queue : List Bytes
  pub upstream_bytes : ℕ
  pub send_window : ℕ
  pub idle_timeout : ℕ
  pub last_active : ℕ
  pub eos : Bool
  pub closed : Bool

-- `ErrConnClosed`
pub data ConnError : Type 0 where
  conn_closed : ConnError

unfoldable pub new_relay_conn : Bytes → Bytes → ℕ → ℕ → ℕ → ℕ → ℕ → RelayConn
new_relay_conn id client_id target recv_window send_window idle_timeout now = record {
  id = id;
  client_id = client_id;
  target = target;
  downstream = new_ring_buffer (if ltb recv_window 1 then 1 else recv_window);
  upstream_queue = [];
  upstream_bytes = 0;
  send_window = if ltb send_window 1 then 1 else send_window;
  idle_timeout = idle_timeout;
  last_active = now;
  eos = false;
  closed = false;
}

abbrev pub queue_capacity : ℕ
queue_capacity = 256

abbrev pub chunk : ℕ
chunk = 4096

abbrev pub touch : RelayConn → ℕ → RelayConn
touch c now = record c { last_active = now }

-- The loop of `Enqueue` on what is left of the data: how much it accepts. A round that goes on takes at
-- least one byte, so as many rounds as bytes are enough.
unfoldable pub enqueue_chunks : ℕ → RelayConn → Bytes → ℕ × RelayConn
enqueue_chunks zero c rest = (0, c)
enqueue_chunks (suc fuel) c rest =
    let part = take chunk rest in
    let c' = record c {
      upstream_queue = c.upstream_queue ++ part ∷ [];
      upstream_bytes = c.upstream_bytes + length part;
    } in
    let (accepted, c'') = enqueue_chunks fuel c' (drop chunk rest) in
    if length rest == 0
    then (0, c)
    else if c.closed || c.eos
    then (0, c)
    else if ltb c.send_window (c.upstream_bytes + length part)
    then (0, c)
    else if leb queue_capacity (length c.upstream_queue)
    then (0, c)
    else (length part + accepted, c'')

-- `Enqueue`: how many bytes are accepted and how many are queued then.
unfoldable pub enqueue : RelayConn → ℕ → Bytes → Result ConnError (ℕ × ℕ) × RelayConn
enqueue c now bytes =
    let (accepted, c') = enqueue_chunks (length bytes) c bytes in
    if length bytes == 0
    then (ok (0, c.upstream_bytes), c)
    else if c.closed || c.eos
    then (err conn_closed, c)
    else if accepted == 0
    then (ok (0, c'.upstream_bytes), c')
    else (ok (accepted, c'.upstream_bytes), touch c' now)

unfoldable pub recv : RelayConn → ℕ → ℕ → Result ConnError (Bytes × Bool) × RelayConn
recv c now max =
    let (bytes, eos, downstream) = RingBuffer.read c.downstream max in
    let c' = record c { downstream = downstream } in
    if c.closed
    then (err conn_closed, c)
    else (ok (bytes, eos), if ltb 0 (length bytes) then touch c' now else c')

unfoldable pub ping : RelayConn → ℕ → RelayConn
ping c now = if not c.closed then touch c now else c

-- At a time in nanoseconds, as `idle_timeout` is.
unfoldable pub expires_in_ms : RelayConn → ℕ → ℕ
expires_in_ms c now = (c.idle_timeout - (now - c.last_active * 1000000)) / 1000000

unfoldable pub mark_eos : RelayConn → RelayConn
mark_eos c =
    if c.eos then c else record c { eos = true; downstream = RingBuffer.close c.downstream }

-- `Close` up to the wait for the two loops.
unfoldable pub close : RelayConn → RelayConn
close c =
    if c.closed
    then c
    else record c { closed = true; eos = true; downstream = RingBuffer.close c.downstream }

-- What a read of the target gives besides its bytes: an end that is marked, or a timeout.
pub data ReadEnd : Type 0 where
  goes_on : ReadEnd
  ends : ReadEnd
  times_out : ReadEnd

abbrev pub after_read : RelayConn → ReadEnd → RelayConn
after_read c goes_on = c
after_read c times_out = c
after_read c ends = mark_eos c

-- A round of `readLoop`, with whether it calls `Close`, since the ring buffer overflows.
unfoldable pub target_read : RelayConn → ℕ → Bytes → ReadEnd → Bool × RelayConn
target_read c now bytes end =
    let c₁ = touch c now in
    let (n, overflow, downstream) = RingBuffer.write c₁.downstream bytes in
    let c₂ = record c₁ { downstream = downstream } in
    if c.closed
    then (false, c)
    else if length bytes == 0
    then (false, after_read c end)
    else if overflow
    then (true, close c₂)
    else (false, after_read c₂ end)

-- A round of `writeLoop`: the bytes that it writes to the target. The write succeeds, or it fails behind so
-- many bytes.
unfoldable pub upstream_write : RelayConn → ℕ → Option ℕ → Bytes × RelayConn
upstream_write c now failed = elim c.upstream_queue [
  | [] ↦ ([], c)
  | (part ∷ queue) ↦
      let c' = record c {
        upstream_queue = queue;
        upstream_bytes = c.upstream_bytes - length part;
      } in
      if length part == 0
      then ([], c')
      else if c.closed || c.eos
      then ([], c')
      else elim failed [ none ↦ (part, touch c' now) | some n ↦ (take n part, mark_eos c') ]
]
