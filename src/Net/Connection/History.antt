-- ===== src/Net/Connection/History.antt =====
-- A connection over any sequence of events, and what comes of a shutdown.
use distributed_instant_mess.Base.{
  ℕ, ◌+◌, ◌≤◌, ◌<◌, ◌≡◌, refl, sym, ap, ◌∙◌, ◌⊎◌, inl, inr, Bool, true, false, List, [], ◌∷◌, ◌++◌,
  append-nil, append_assoc, arith, length, Bool-cases, ltb, nil_of_length,
}
use distributed_instant_mess.Net.Buffer.{Buffer, IoResult, done, failed, Incoming, read_fd}
use distributed_instant_mess.Net.Buffer.Refine.{max_size}
use distributed_instant_mess.Net.Channel.{is_writing}
use distributed_instant_mess.Net.Channel.Events.{disable_all-Waits}
use distributed_instant_mess.Net.Connection.{
  State, disconnected, connected, Connection, Effect, send, shutdown, handle_read, handle_write,
  handle_close, read_result, send_at, shutdown_at, shutdown_in_loop, send_in_loop, send_in_state,
  connect_destroyed, destroyed_at, connecting, disconnecting,
}
use distributed_instant_mess.Net.Connection.Stream.{
  taken, pending, Honest, Goes, IsLive, taken-append, send_in_loop-Moves,
}
use distributed_instant_mess.Net.Connection.Drain.{handle_write-Moves}

-- What happens to a connection. `says` and `shuts` are calls in the loop's thread, and
-- `shuts_elsewhere` is one in another. `runs_send` and `runs_shutdown` are functors that another
-- thread has queued and that run now, whichever they are and in any order; `hangs_up` is a channel
-- that tells handleClose; `is_destroyed` is `connectDestroyed`. Each event brings what the kernel
-- answers.
pub data Event : Type 0 where
  says : List ℕ → (List ℕ → IoResult) → Event
  drains : (List ℕ → IoResult) → Event
  hears : (ℕ → Incoming) → Event
  shuts : Event
  shuts_elsewhere : Event
  runs_send : List ℕ → (List ℕ → IoResult) → Event
  runs_shutdown : Event
  hangs_up : Event
  is_destroyed : Event

unfoldable pub step : Connection → Event → List Effect × Connection
step c (says xs write) = send true c write xs
step c (drains write) = handle_write c write
step c (hears read) = handle_read c read
step c shuts = shutdown true c
step c shuts_elsewhere = shutdown false c
step c (runs_send xs write) = send_in_loop c write xs
step c runs_shutdown = shutdown_in_loop c
step c hangs_up = handle_close c
step c is_destroyed = connect_destroyed c

unfoldable pub run : Connection → List Event → List Effect × Connection
run c [] = ([], c)
run c (e ∷ es) = let (out, c') = step c e in let (outs, c'') = run c' es in (out ++ outs, c'')

-- The message that an event hands over: `send` on a connection that is not connected is ignored, and
-- `sendInLoop` on one that is disconnected.
abbrev pub said_at : State → List ℕ → List ℕ
said_at connected xs = xs
said_at _ xs = []

abbrev pub queued_at : State → List ℕ → List ℕ
queued_at disconnected xs = []
queued_at _ xs = xs

abbrev pub offered_at : State → Event → List ℕ
offered_at s (says xs write) = said_at s xs
offered_at s (runs_send xs write) = queued_at s xs
offered_at s _ = []

unfoldable pub offered : Connection → List Event → List ℕ
offered c [] = []
offered c (e ∷ es) = offered_at c.state e ++ offered (step c e).1 es

abbrev pub Answers : Event → Type 0
Answers (says xs write) = Honest write × Goes (write xs)
Answers (runs_send xs write) = Honest write × Goes (write xs)
Answers (drains write) = Honest write
Answers _ = Unit {0}

abbrev pub AllAnswer : List Event → Type 0
AllAnswer [] = Unit {0}
AllAnswer (e ∷ es) = Answers e × AllAnswer es

abbrev pub size : Event → ℕ
size (says xs write) = length xs
size (runs_send xs write) = length xs
size _ = 0

abbrev pub total : List Event → ℕ
total [] = 0
total (e ∷ es) = size e + total es

-- A connection that is down waits for no event.
abbrev pub IsSound : Connection → Type 0
IsSound c = ((c.state ≡ disconnected) × (is_writing c.channel ≡ false)) ⊎ IsLive c

-- One event: what it does to the bytes.
pub record Keeps (c : Connection) (e : Event) : Type 0 where
  pub sound : IsSound (step c e).1
  pub stream : taken (step c e).0 ++ pending (step c e).1 ≡ pending c ++ offered_at c.state e
  pub bounded : length (step c e).1.output_buffer.buffer ≤ length c.output_buffer.buffer + size e

-- A handler that leaves the output alone.
record Idle (c : Connection) (r : List Effect × Connection) : Type 0 where
  sound : IsSound r.1
  quiet : taken r.0 ≡ []
  same : r.1.output_buffer ≡ c.output_buffer

send_at-Keeps :
    (s : State) (c : Connection) (write : List ℕ → IoResult) (xs : List ℕ)
    → c.state ≡ s
    → IsSound c
    → Honest write
    → Goes (write xs)
    → length c.output_buffer.buffer + length xs < max_size
    → let r = send_at s true c write xs in
      IsSound r.1
      × (taken r.0 ++ pending r.1 ≡ pending c ++ offered_at s (says xs write))
      × (length r.1.output_buffer.buffer ≤ length c.output_buffer.buffer + length xs)
send_at-Keeps connected c write xs e (inl (down, _)) h g k = cc
send_at-Keeps connected c write xs e (inr l) h g k =
    let m = send_in_loop-Moves c write xs (λ d. cc) l h g k in (inr m.live, m.stream, m.bounded)
send_at-Keeps _ c write xs e v h g k = (v, sym (append-nil (pending c)), omega arith)

read_result-Idle : (c : Connection) (r : IoResult) → IsSound c → Idle c (read_result c r)
unfolding read_result handle_close
read_result-Idle c (failed errno) v = record { sound = v; quiet = refl; same = refl }
read_result-Idle c (done n) v = elim (Bool-cases (ltb 0 n)) [
  | inl more ↦ rw more (record { sound = v; quiet = refl; same = refl })
  | inr end ↦ rw end (record {
    sound = inl (refl, (disable_all-Waits c.channel).writes_is);
    quiet = refl;
    same = refl;
  })
]

IsSound-input : (c : Connection) (b : Buffer) → IsSound c → IsSound (record c { input_buffer = b })
IsSound-input c b (inl d) = inl d
IsSound-input c b (inr l) = inr (record { valid = l.valid; mask = l.mask; waits = l.waits })

handle_read-Idle : (c : Connection) (read : ℕ → Incoming) → IsSound c → Idle c (handle_read c read)
unfolding handle_read
handle_read-Idle c read v =
    let (r, b) = read_fd c.input_buffer read in
    let i = read_result-Idle (record c { input_buffer = b }) r (IsSound-input c b v) in
    record { sound = i.sound; quiet = i.quiet; same = i.same }

shutdown_at-Idle :
    (s : State) (here : Bool) (c : Connection)
    → c.state ≡ s
    → IsSound c
    → Idle c (shutdown_at s here c)
unfolding shutdown_in_loop
shutdown_at-Idle connected here c e (inl d) = cc
shutdown_at-Idle connected true c e (inr l) = record {
  sound = inr (record { valid = l.valid; mask = l.mask; waits = l.waits });
  quiet = ground arith;
  same = refl;
}
shutdown_at-Idle connected false c e (inr l) = record {
  sound = inr (record { valid = l.valid; mask = l.mask; waits = l.waits });
  quiet = refl;
  same = refl;
}
shutdown_at-Idle _ here c e v = record { sound = v; quiet = refl; same = refl }

shutdown_in_loop-Idle : (c : Connection) → IsSound c → Idle c (shutdown_in_loop c)
unfolding shutdown_in_loop
shutdown_in_loop-Idle c v = record { sound = v; quiet = ground arith; same = refl }

handle_close-Idle : (c : Connection) → Idle c (handle_close c)
unfolding handle_close
handle_close-Idle c = record {
  sound = inl (refl, (disable_all-Waits c.channel).writes_is);
  quiet = refl;
  same = refl;
}

destroyed_at-Idle : (s : State) (c : Connection) → IsSound c → Idle c (destroyed_at s c)
destroyed_at-Idle connected c v = record {
  sound = inl (refl, (disable_all-Waits c.channel).writes_is);
  quiet = refl;
  same = refl;
}
destroyed_at-Idle _ c v = record { sound = v; quiet = refl; same = refl }

send_in_loop-down :
    (c : Connection) (write : List ℕ → IoResult) (xs : List ℕ)
    → c.state ≡ disconnected
    → send_in_loop c write xs ≡ ([], c)
unfolding send_in_loop
send_in_loop-down c write xs e = ap (λ s. send_in_state s c write xs) e

-- A functor that another thread has queued by `send`.
send_in_state-Keeps :
    (s : State) (c : Connection) (write : List ℕ → IoResult) (xs : List ℕ)
    → c.state ≡ s
    → IsSound c
    → Honest write
    → Goes (write xs)
    → length c.output_buffer.buffer + length xs < max_size
    → let r = send_in_loop c write xs in
      IsSound r.1
      × (taken r.0 ++ pending r.1 ≡ pending c ++ offered_at s (runs_send xs write))
      × (length r.1.output_buffer.buffer ≤ length c.output_buffer.buffer + length xs)
send_in_state-Keeps disconnected c write xs e v h g k =
    rw (send_in_loop-down c write xs e) (v, sym (append-nil (pending c)), omega arith)
send_in_state-Keeps connecting c write xs e (inl (down, _)) h g k = cc
send_in_state-Keeps connecting c write xs e (inr l) h g k =
    let m = send_in_loop-Moves c write xs (λ d. cc) l h g k in (inr m.live, m.stream, m.bounded)
send_in_state-Keeps connected c write xs e (inl (down, _)) h g k = cc
send_in_state-Keeps connected c write xs e (inr l) h g k =
    let m = send_in_loop-Moves c write xs (λ d. cc) l h g k in (inr m.live, m.stream, m.bounded)
send_in_state-Keeps disconnecting c write xs e (inl (down, _)) h g k = cc
send_in_state-Keeps disconnecting c write xs e (inr l) h g k =
    let m = send_in_loop-Moves c write xs (λ d. cc) l h g k in (inr m.live, m.stream, m.bounded)

Idle-Keeps :
    (c : Connection) (r : List Effect × Connection)
    → Idle c r
    → IsSound r.1
      × (taken r.0 ++ pending r.1 ≡ pending c ++ [])
      × (length r.1.output_buffer.buffer ≤ length c.output_buffer.buffer + 0)
Idle-Keeps c r i =
    (i.sound, rw (i.quiet, i.same) (sym (append-nil (pending c))), rw i.same (omega arith))

offered_at-other : (s : State) (e : Event) → size e ≡ 0 → offered_at s e ≡ []
offered_at-other connected (says xs write) h = nil_of_length xs h
offered_at-other _ (says xs write) h = refl
offered_at-other disconnected (runs_send xs write) h = refl
offered_at-other _ (runs_send xs write) h = nil_of_length xs h
offered_at-other _ _ h = refl

Idle-at : (c : Connection) (e : Event) → size e ≡ 0 → Idle c (step c e) → Keeps c e
Idle-at c e none i =
    let (a, b, d) = Idle-Keeps c (step c e) i in
    record {
      sound = a;
      stream = rw (offered_at-other c.state e none) b;
      bounded = omega (arith, d);
    }

handle_write-IsSound :
    (c : Connection) (write : List ℕ → IoResult)
    → IsSound c
    → Honest write
    → IsSound (handle_write c write).1
      × (taken (handle_write c write).0 ++ pending (handle_write c write).1 ≡ pending c ++ [])
      × (length (handle_write c write).1.output_buffer.buffer ≤ length c.output_buffer.buffer + 0)
handle_write-IsSound c write (inr l) h =
    let m = handle_write-Moves c write l h in (inr m.live, m.stream, m.bounded)
handle_write-IsSound c write (inl (down, off)) h =
    unfold handle_write in (rw off (inl (down, off), sym (append-nil (pending c)), omega arith))

pub step-Keeps :
    (c : Connection) (e : Event)
    → IsSound c
    → Answers e
    → length c.output_buffer.buffer + size e < max_size
    → Keeps c e
unfolding step
step-Keeps c (says xs write) v (h, g) k =
    unfold send in
    (let (a, b, d) = send_at-Keeps c.state c write xs refl v h g k in
      record { sound = a; stream = b; bounded = d })
step-Keeps c (drains write) v h k =
    let (a, b, d) = handle_write-IsSound c write v h in
    record { sound = a; stream = rw (offered_at-other c.state (drains write) refl) b; bounded = d }
step-Keeps c (hears read) v h k = Idle-at c (hears read) refl (handle_read-Idle c read v)
step-Keeps c shuts v h k =
    Idle-at c shuts refl (unfold shutdown in shutdown_at-Idle c.state true c refl v)
step-Keeps c shuts_elsewhere v h k =
    Idle-at c shuts_elsewhere refl (unfold shutdown in shutdown_at-Idle c.state false c refl v)
step-Keeps c (runs_send xs write) v (h, g) k =
    let (a, b, d) = send_in_state-Keeps c.state c write xs refl v h g k in
    record { sound = a; stream = b; bounded = d }
step-Keeps c runs_shutdown v h k = Idle-at c runs_shutdown refl (shutdown_in_loop-Idle c v)
step-Keeps c hangs_up v h k = Idle-at c hangs_up refl (handle_close-Idle c)
step-Keeps c is_destroyed v h k =
    Idle-at c is_destroyed refl (unfold connect_destroyed in destroyed_at-Idle c.state c v)

-- Over any sequence of sends and shutdowns in the loop's thread, of readings and writings, of
-- functors that other threads have queued by `send` and `shutdown`, of `handleClose` and of
-- `connectDestroyed`: the bytes that the kernel took, followed by those that wait, are those that
-- waited at first, followed by every message that was accepted, in order, be it by `send` on a
-- connection that is connected or by a queued functor on one that is not disconnected. No `write` of
-- a message answers EPIPE or ECONNRESET, `write` takes no more than it is given, and all bytes
-- together fit into the buffer.
pub run_stream :
    (c : Connection) (es : List Event)
    → IsSound c
    → AllAnswer es
    → length c.output_buffer.buffer + total es < max_size
    → taken (run c es).0 ++ pending (run c es).1 ≡ pending c ++ offered c es
unfolding run offered
run_stream c [] v h k = sym (append-nil (pending c))
run_stream c (e ∷ es) v h k =
    let s = step-Keeps c e v h.0 (omega arith) in
    let rest = run_stream (step c e).1 es s.sound h.1 (omega (arith, s.bounded)) in
    rw (taken-append) (
      append_assoc (taken (step c e).0) (taken (run (step c e).1 es).0)
        (pending (run (step c e).1 es).1)
      ∙ ap (◌++◌ (taken (step c e).0)) rest
      ∙ sym (append_assoc (taken (step c e).0) (pending (step c e).1) (offered (step c e).1 es))
      ∙ ap (λ ys. ys ++ offered (step c e).1 es) s.stream
      ∙ append_assoc (pending c) (offered_at c.state e) (offered (step c e).1 es))
