-- ===== src/Net/Connection.antt =====
-- framework/MyMuduo/src/TcpConnection.cc: one connection, driven by its event loop. A handler
-- returns the connection and what it did, in order. The kernel's `write` and `readv` are arguments,
-- and so is the thread that calls. `Channel::update` is the subject of Net/Poller.antt.
pub mod Stream
pub mod Drain
pub mod History
pub mod Lifecycle
use distributed_instant_mess.Base.{
  ℕ, ◌+◌, ◌-◌, ◌*◌, ◌≡◌, Bool, true, false, not, ◌&&◌, ◌||◌, List, [], ◌∷◌, ◌++◌, ltb, leb, ◌==◌,
  if◌then◌else◌, length, drop, take, sub_size, add_size,
}
use distributed_instant_mess.Net.Buffer
use distributed_instant_mess.Net.Buffer.{
  Buffer, IoResult, done, failed, Incoming, readable_bytes, append, retrieve, read_fd, write_fd,
}
use distributed_instant_mess.Net.Channel
use distributed_instant_mess.Net.Channel.{
  Channel, enable_reading, enable_writing, disable_writing, disable_all, is_writing, tie,
}

pub data State : Type 0 where
  disconnected connecting connected disconnecting : State

pub record Connection : Type 0 where
  pub state : State
  pub channel : Channel
  pub input_buffer : Buffer
  pub output_buffer : Buffer
  pub high_water_mark : ℕ
  -- which of the two optional callbacks are set
  pub write_complete_callback : Bool
  pub high_water_mark_callback : Bool

-- What a handler does besides changing the connection.
pub data Effect : Type 0 where
  -- bytes that the kernel took
  wrote : List ℕ → Effect
  -- functions left for the loop to run
  queue_write_complete : Effect
  queue_high_water : ℕ → Effect
  queue_send : List ℕ → Effect
  queue_shutdown : Effect
  -- calls made at once
  shutdown_write call_connection call_message call_close remove_channel : Effect

abbrev pub ewouldblock : ℕ
ewouldblock = 11

abbrev pub epipe : ℕ
epipe = 32

abbrev pub econnreset : ℕ
econnreset = 104

pub init : ℕ → Connection
init sockfd = record {
  state = connecting;
  channel = Channel.init sockfd;
  input_buffer = Buffer.init Buffer.initial_size;
  output_buffer = Buffer.init Buffer.initial_size;
  high_water_mark = 64 * 1024 * 1024;
  write_complete_callback = false;
  high_water_mark_callback = false;
}

abbrev only : Bool → Effect → List Effect
only b e = if b then e ∷ [] else []

-- How far the first `write` of `sendInLoop` came.
pub record Progress : Type 0 where
  pub nwrote : ℕ
  pub fault : Bool
  pub effects : List Effect

-- An `errno` other than EWOULDBLOCK is logged; EPIPE and ECONNRESET give up the rest.
first_result : Connection → List ℕ → IoResult → Progress
first_result c xs (done n) = record {
  nwrote = n;
  fault = false;
  effects =
      wrote (take n xs)
      ∷ only (sub_size (length xs) n == 0 && c.write_complete_callback) queue_write_complete;
}
first_result c xs (failed errno) = record {
  nwrote = 0;
  fault = not (errno == ewouldblock) && (errno == epipe || errno == econnreset);
  effects = [];
}

-- `write` is the kernel's: given the bytes, what the call returns.
first_write : Connection → (List ℕ → IoResult) → List ℕ → Progress
first_write c write xs =
    if not (is_writing c.channel) && readable_bytes c.output_buffer == 0
    then first_result c xs (write xs)
    else record { nwrote = 0; fault = false; effects = [] }

-- The rest of the message goes to the buffer, and the channel waits to write.
keep_rest : Connection → List ℕ → ℕ → List Effect × Connection
keep_rest c xs nwrote =
    let old_len = readable_bytes c.output_buffer in
    let new_len = add_size old_len (sub_size (length xs) nwrote) in
    (
      only
          (leb c.high_water_mark new_len
            && ltb old_len c.high_water_mark
            && c.high_water_mark_callback)
          (queue_high_water new_len),
      record c {
        output_buffer = append c.output_buffer (drop nwrote xs);
        channel = if not (is_writing c.channel) then enable_writing c.channel else c.channel;
      },
    )

after_first : Connection → List ℕ → Progress → List Effect × Connection
after_first c xs p =
    if not p.fault && ltb 0 (sub_size (length xs) p.nwrote)
    then (p.effects ++ (keep_rest c xs p.nwrote).0, (keep_rest c xs p.nwrote).1)
    else (p.effects, c)

abbrev send_in_state : State → Connection → (List ℕ → IoResult) → List ℕ → List Effect × Connection
send_in_state disconnected c write xs = ([], c)
send_in_state _ c write xs = after_first c xs (first_write c write xs)

pub send_in_loop : Connection → (List ℕ → IoResult) → List ℕ → List Effect × Connection
send_in_loop c write xs = send_in_state c.state c write xs

abbrev send_at : State → Bool → Connection → (List ℕ → IoResult) → List ℕ → List Effect × Connection
send_at connected here c write xs =
    if here then send_in_loop c write xs else (queue_send xs ∷ [], c)
send_at _ here c write xs = ([], c)

-- `here`: the caller is in the loop's thread.
pub send : Bool → Connection → (List ℕ → IoResult) → List ℕ → List Effect × Connection
send here c write xs = send_at c.state here c write xs

unfoldable pub shutdown_in_loop : Connection → List Effect × Connection
shutdown_in_loop c = (only (not (is_writing c.channel)) shutdown_write, c)

abbrev shutdown_at : State → Bool → Connection → List Effect × Connection
shutdown_at connected here c =
    let c' = record c { state = disconnecting } in
    if here then shutdown_in_loop c' else (queue_shutdown ∷ [], c')
shutdown_at _ here c = ([], c)

pub shutdown : Bool → Connection → List Effect × Connection
shutdown here c = shutdown_at c.state here c

pub connect_established : Connection → List Effect × Connection
connect_established c =
    (call_connection ∷ [], record c { state = connected; channel = enable_reading (tie c.channel) })

abbrev destroyed_at : State → Connection → List Effect × Connection
destroyed_at connected c = (
  call_connection ∷ remove_channel ∷ [],
  record c { state = disconnected; channel = disable_all c.channel },
)
destroyed_at _ c = (remove_channel ∷ [], c)

pub connect_destroyed : Connection → List Effect × Connection
connect_destroyed c = destroyed_at c.state c

pub handle_close : Connection → List Effect × Connection
handle_close c = (
  call_connection ∷ call_close ∷ [],
  record c { state = disconnected; channel = disable_all c.channel },
)

-- `handleError` asks the socket for its error and logs it; the connection stays.
read_result : Connection → IoResult → List Effect × Connection
read_result c (done n) = if ltb 0 n then (call_message ∷ [], c) else handle_close c
read_result c (failed errno) = ([], c)

pub handle_read : Connection → (ℕ → Incoming) → List Effect × Connection
handle_read c read =
    let (r, b) = read_fd c.input_buffer read in read_result (record c { input_buffer = b }) r

abbrev closing : State → Connection → List Effect
closing disconnecting c = (shutdown_in_loop c).0
closing _ c = []

-- Everything is written: the channel stops waiting to write, and a pending shutdown goes on.
unfoldable pub drained : Connection → List Effect × Connection
drained c =
    let c' = record c { channel = disable_writing c.channel } in
    (only c.write_complete_callback queue_write_complete ++ closing c.state c', c')

abbrev after_retrieve : List ℕ → Connection → List Effect × Connection
after_retrieve sent c =
    if readable_bytes c.output_buffer == 0
    then (wrote sent ∷ (drained c).0, (drained c).1)
    else (wrote sent ∷ [], c)

unfoldable pub write_result : Connection → IoResult → List Effect × Connection
write_result c (done n) =
    if ltb 0 n
    then after_retrieve (take n (Buffer.readable c.output_buffer))
        (record c { output_buffer = retrieve c.output_buffer n })
    else ([], c)
write_result c (failed errno) = ([], c)

unfoldable pub handle_write : Connection → (List ℕ → IoResult) → List Effect × Connection
handle_write c write =
    if is_writing c.channel then write_result c (write_fd c.output_buffer write) else ([], c)
