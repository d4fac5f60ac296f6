-- ===== src/Net/Connection.antt =====
-- common/net/TcpConnection.h and TcpConnection.cc, as the loop's own thread runs it. The connection
-- is a record; what it does to the world outside is the list `effects`, oldest first. What the
-- kernel answers to `write` and `readv` is an argument.
pub mod Stream
pub mod Send
pub mod Drain
pub mod Life
pub mod Trace
pub mod Mild
pub mod Finish
pub mod Ends
pub mod Watch
pub mod Calm
pub mod Posted
use talk_system.Prelude.{
  ltb, leb, ◌==◌, if◌then◌else◌, length, take, drop, add_size, ℕ, zero, suc, ◌-◌, ◌*◌, Bool, true,
  false, not, ◌&&◌, ◌||◌, List, [], ◌∷◌, ◌++◌,
}
use talk_system.Buffer
use talk_system.Buffer.{
  Buffer, Read, got, failed, append, retrieve, readable_bytes, read_fd, peek, k_initial_size,
}
use talk_system.Net.Channel.{
  Channel, Request, Events, enable_reading, enable_writing, disable_writing, disable_all,
  set_events, is_writing, tie,
}

-- `StateE`.
pub data State : Type 0 where
  k_disconnected k_connecting k_connected k_disconnecting : State

-- What other parts see of a connection: bytes that the kernel took, callbacks put into the loop's
-- queue, callbacks run at once, `shutdown(SHUT_WR)`, an `events_` handed to the poller, and the
-- channel taken out of it.
pub data Effect : Type 0 where
  sent : List ℕ → Effect
  queued_write_complete : Effect
  queued_high_water : ℕ → Effect
  connection_callback : State → Effect
  message_callback : Effect
  close_callback : Effect
  shutdown_write : Effect
  channel_updated : Events → Effect
  channel_removed : Effect

pub record Connection : Type 0 where
  pub state : State
  pub channel : Channel
  pub input_buffer : Buffer
  pub output_buffer : Buffer
  pub high_water_mark : ℕ
  pub has_write_complete : Bool
  pub has_high_water : Bool
  pub effects : List Effect

-- What `write` gives: how many bytes the kernel took, or `errno`.
pub data Write : Type 0 where
  wrote : ℕ → Write
  refused : ℕ → Write

abbrev pub ewouldblock : ℕ
ewouldblock = 11

abbrev pub epipe : ℕ
epipe = 32

abbrev pub econnreset : ℕ
econnreset = 104

-- The constructor, with the two optional callbacks that TcpServer may set later.
unfoldable pub new : Channel → Bool → Bool → Connection
new channel write_complete high_water = record {
  state = k_connecting;
  channel = channel;
  input_buffer = Buffer.new Buffer.k_initial_size;
  output_buffer = Buffer.new Buffer.k_initial_size;
  high_water_mark = 64 * 1024 * 1024;
  has_write_complete = write_complete;
  has_high_water = high_water;
  effects = [];
}

unfoldable pub emit : Effect → Connection → Connection
emit e c = record c { effects = c.effects ++ e ∷ [] }

unfoldable pub set_state : State → Connection → Connection
set_state s c = record c { state = s }

-- `channel_->enableReading()` and its kin: the mask changes, and the poller is told.
unfoldable pub request : Request → Connection → Connection
request q c =
    let e = set_events q c.channel.events in
    emit (channel_updated e) (record c { channel = record c.channel { events = e } })

abbrev pub writing : Connection → Bool
writing c = is_writing c.channel.events

unfoldable pub write_complete : Connection → Connection
write_complete c = if c.has_write_complete then emit queued_write_complete c else c

abbrev pub is_fatal : ℕ → Bool
is_fatal e = not (e == ewouldblock) && (e == epipe || e == econnreset)

-- The first part of `sendInLoop`, the direct write: the connection, the bytes that remain and
-- `faultError`.
unfoldable pub write_directly : List ℕ → Write → Connection → Connection × List ℕ × Bool
write_directly bs (wrote n) c =
    let c' = emit (sent (take n bs)) c in
    (if length bs - n == 0 then write_complete c' else c', drop n bs, false)
write_directly bs (refused e) c = (c, bs, is_fatal e)

-- The high-water test of the second part, for `n` bytes that remain.
unfoldable pub check_high_water : ℕ → Connection → Connection
check_high_water n c =
    let old_len = readable_bytes c.output_buffer in
    if leb c.high_water_mark (add_size old_len n)
      && (ltb old_len c.high_water_mark && c.has_high_water)
    then emit (queued_high_water (add_size old_len n)) c
    else c

-- `if (!channel_->isWriting()) channel_->enableWriting();`
unfoldable pub ask_to_write : Connection → Connection
ask_to_write c = if writing c then c else request enable_writing c

-- The second part: what remains goes to the output buffer, and the channel asks to write.
unfoldable pub keep_remaining : List ℕ → Connection → Connection
keep_remaining bs c =
    let d = check_high_water (length bs) c in
    ask_to_write (record d { output_buffer = append bs d.output_buffer })

abbrev pub finish_send : Connection × List ℕ × Bool → Connection
finish_send (c, bs, fault) = if not fault && ltb 0 (length bs) then keep_remaining bs c else c

abbrev pub is_disconnected : State → Bool
is_disconnected k_disconnected = true
is_disconnected _ = false

-- `sendInLoop(data, len)`, with `bs` the bytes and `w` the answer of `write`, if it is called.
unfoldable pub send_in_loop : List ℕ → Write → Connection → Connection
send_in_loop bs w c =
    if is_disconnected c.state
    then c
    else finish_send (
        if not (writing c) && readable_bytes c.output_buffer == 0
        then write_directly bs w c
        else (c, bs, false))

abbrev pub is_connected : State → Bool
is_connected k_connected = true
is_connected _ = false

abbrev pub is_disconnecting : State → Bool
is_disconnecting k_disconnecting = true
is_disconnecting _ = false

-- `send` in the loop's thread. In another thread `sendInLoop` is queued with the same bytes.
unfoldable pub send : List ℕ → Write → Connection → Connection
send bs w c = if is_connected c.state then send_in_loop bs w c else c

unfoldable pub shutdown_in_loop : Connection → Connection
shutdown_in_loop c = if writing c then c else emit shutdown_write c

-- `shutdown`, whose `runInLoop` runs at once in the loop's thread.
unfoldable pub shutdown : Connection → Connection
shutdown c = if is_connected c.state then shutdown_in_loop (set_state k_disconnecting c) else c

unfoldable pub connect_established : Connection → Connection
connect_established c =
    let c₁ = set_state k_connected c in
    let c₂ = request enable_reading (record c₁ { channel = tie c₁.channel }) in
    emit (connection_callback c₂.state) c₂

unfoldable pub connect_destroyed : Connection → Connection
connect_destroyed c =
    let c' =
      if is_connected c.state
      then (let d = request disable_all (set_state k_disconnected c) in
          emit (connection_callback d.state) d)
      else c in
    emit channel_removed c'

unfoldable pub handle_close : Connection → Connection
handle_close c =
    let d = request disable_all (set_state k_disconnected c) in
    emit close_callback (emit (connection_callback d.state) d)

-- `handleError` reads SO_ERROR and logs it.
unfoldable pub handle_error : Connection → Connection
handle_error c = c

-- `handleRead`, with what `readv` gave; no bytes mean that the peer has closed.
unfoldable pub handle_read : Read → Connection → Connection
handle_read (got []) c = handle_close c
handle_read (got (x ∷ bs)) c =
    emit message_callback (record c { input_buffer = (read_fd (got (x ∷ bs)) c.input_buffer).0 })
handle_read (failed e) c = handle_error c

-- After a write that emptied the output buffer.
unfoldable pub drained : Connection → Connection
drained c =
    let d = write_complete (request disable_writing c) in
    if is_disconnecting d.state then shutdown_in_loop d else d

-- A write of `n` bytes, if any, from the front of the output buffer.
unfoldable pub wrote_out : ℕ → Connection → Connection
wrote_out zero c = c
wrote_out (suc n) c =
    let d =
      emit (sent (take (suc n) (peek c.output_buffer)))
        (record c { output_buffer = retrieve (suc n) c.output_buffer }) in
    if readable_bytes d.output_buffer == 0 then drained d else d

-- `handleWrite`, with the answer of `writeFd`.
unfoldable pub handle_write : Write → Connection → Connection
handle_write (wrote n) c = if writing c then wrote_out n c else c
handle_write (refused e) c = c
