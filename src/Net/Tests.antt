-- ===== src/Net/Tests.antt =====
-- Runs of the network library on small inputs.
use distributed_instant_mess.Net.Connection
use distributed_instant_mess.Net.Connection.{
  Connection, State, connected, disconnected, disconnecting,
}
use distributed_instant_mess.Net.Connection.Stream.{
  Moves, Honest, IsLive, taken, pending, send_in_loop-Moves,
}
use distributed_instant_mess.Net.Connection.History
use distributed_instant_mess.Net.Connection.History.{
  Event, says, drains, hears, shuts, shuts_elsewhere, runs_send, runs_shutdown, hangs_up,
  is_destroyed, IsSound, offered, run_stream,
}
use distributed_instant_mess.Net.Connection.Lifecycle.{closes_last}
use distributed_instant_mess.Base.Table.{assign, assign-same, assign-other}
use distributed_instant_mess.Base.{
  ◌==◌, if◌then◌else◌, ℕ, ◌≡◌, refl, ap, inr, true, false, Option, none, some, List, [], ◌∷◌, ◌++◌,
  arith, length, min, not, ◌&&◌,
}
use distributed_instant_mess.Net.Buffer
use distributed_instant_mess.Net.Buffer.{Buffer, IoResult, done, failed, Incoming, bytes}
use distributed_instant_mess.Net.Buffer.Refine.{IsValid, contents}
use distributed_instant_mess.Net.Buffer.Queue
use distributed_instant_mess.Net.Buffer.Queue.{
  Op, put, skip, get, receive, Permitted, run_refines, run_queue,
}
use distributed_instant_mess.Net.Channel
use distributed_instant_mess.Net.Channel.Events
use distributed_instant_mess.Net.Channel.Events.{
  Call, reading_on, writing_on, reading_off, all_off, run_flags, run-flags,
}
use distributed_instant_mess.Net.EventLoop
use distributed_instant_mess.Net.EventLoop.Wakeup
use distributed_instant_mess.Net.EventLoop.Wakeup.{IsAwake, run-IsAwake}
use distributed_instant_mess.Net.Poller.{Ctl, ctl_add, ctl_mod, ctl_del, Epoll}
use distributed_instant_mess.Net.Poller.System
use distributed_instant_mess.Net.Poller.System.{Loop, run_in_step}

abbrev empty_buffer : Buffer
empty_buffer = record {
  buffer = 0 ∷ 0 ∷ 0 ∷ 0 ∷ 0 ∷ 0 ∷ 0 ∷ 0 ∷ 0 ∷ 0 ∷ [];
  reader_index = 8;
  writer_index = 8;
}

empty-IsValid : IsValid empty_buffer
empty-IsValid = ground arith

-- Four bytes of which the first two are read.
abbrev shifted_buffer : Buffer
shifted_buffer = record {
  buffer = 0 ∷ 0 ∷ 0 ∷ 0 ∷ 0 ∷ 0 ∷ 0 ∷ 0 ∷ 1 ∷ 2 ∷ 3 ∷ 4 ∷ [];
  reader_index = 10;
  writer_index = 12;
}

shifted-IsValid : IsValid shifted_buffer
shifted-IsValid = ground arith

abbrev some_ops : List Op
some_ops = put (1 ∷ 2 ∷ 3 ∷ []) ∷ get 2 ∷ receive (4 ∷ 5 ∷ []) ∷ skip 1 ∷ get 2 ∷ []

some_ops-Permitted : Permitted (contents empty_buffer) some_ops
unfolding Queue.step_queue
some_ops-Permitted = Permitted.cons tt (
    Permitted.cons (omega arith)
      (Permitted.cons tt (Permitted.cons tt (Permitted.cons (omega arith) Permitted.nil))))

run_refines_example : Queue.run empty_buffer some_ops ≡ run_queue (contents empty_buffer) some_ops
run_refines_example =
    run_refines empty_buffer some_ops empty-IsValid some_ops-Permitted (omega arith)

abbrev some_calls : List Call
some_calls = reading_on ∷ writing_on ∷ reading_off ∷ []

run-flags_example :
    ((
      Channel.is_reading (Events.run (Channel.init 7) some_calls),
      Channel.is_writing (Events.run (Channel.init 7) some_calls),
    )
      ≡ run_flags (false, false) some_calls)
    × (Channel.is_none_event (Events.run (Channel.init 7) some_calls) ≡ (
        not (Channel.is_reading (Events.run (Channel.init 7) some_calls))
        && not (Channel.is_writing (Events.run (Channel.init 7) some_calls))))
run-flags_example = run-flags 7 some_calls

-- A kernel that keeps its interest list as a function.
abbrev table_ctl : Ctl → ℕ → ℕ → (ℕ → Option ℕ) → Option (ℕ → Option ℕ)
table_ctl ctl_add fd events s = elim (s fd) [
  | none ↦ some (assign s fd (some events))
  | some old ↦ none
]
table_ctl ctl_mod fd events s = elim (s fd) [
  | none ↦ none
  | some old ↦ some (assign s fd (some events))
]
table_ctl ctl_del fd events s = elim (s fd) [ none ↦ none | some old ↦ some (assign s fd none) ]

abbrev table : Epoll
table = record {
  Set = ℕ → Option ℕ;
  interest = λ s fd. s fd;
  ctl = table_ctl;
  add_ok = λ s fd events h. (
    assign s fd (some events),
    rw (h, table_ctl) refl,
    assign-same s fd (some events),
    assign-other s fd (some events),
  );
  mod_ok = λ s fd events {old} h. (
    assign s fd (some events),
    rw (h, table_ctl) refl,
    assign-same s fd (some events),
    assign-other s fd (some events),
  );
  del_ok = λ s fd events {old} h.
      (assign s fd none, rw (h, table_ctl) refl, assign-same s fd none, assign-other s fd none);
}

abbrev poller_ops : List System.Op
poller_ops =
    System.calls 5 reading_on
    ∷ System.calls 7 writing_on
    ∷ System.calls 5 all_off
    ∷ System.calls 5 reading_on
    ∷ System.removes 7
    ∷ []

run_in_step_example :
    (l : Loop (ℕ → Option ℕ)) × (System.run table (System.start table (λ _. none)) poller_ops
      ≡ some l)
    × System.IsValid table l
run_in_step_example = run_in_step table (λ _. none) poller_ops (λ fd. refl)

-- A connection that is up, with nothing to write.
abbrev up : Connection
up = record {
  state = connected;
  channel = record { fd = 5; events = 3; revents = 0; index = Channel.added; tied = true };
  input_buffer = empty_buffer;
  output_buffer = empty_buffer;
  high_water_mark = 1000;
  write_complete_callback = true;
  high_water_mark_callback = true;
}

up-IsLive : IsLive up
unfolding Channel.is_writing Buffer.readable_bytes
up-IsLive = record { valid = empty-IsValid; mask = Events.reads refl; waits = refl }

-- A kernel that takes two bytes at most.
abbrev takes_two : List ℕ → IoResult
takes_two xs = done (min 2 (length xs))

abbrev count : IoResult → ℕ
count (done n) = n
count (failed errno) = 0

takes_two-Honest : Honest takes_two
takes_two-Honest xs n e = omega (arith, ap count e)

send_in_loop-Moves_example :
    Moves up (1 ∷ 2 ∷ 3 ∷ []) (Connection.send_in_loop up takes_two (1 ∷ 2 ∷ 3 ∷ []))
send_in_loop-Moves_example =
    send_in_loop-Moves up takes_two (1 ∷ 2 ∷ 3 ∷ []) (λ e. cc) up-IsLive takes_two-Honest tt
      (omega arith)

-- A connection that is shutting down, with two bytes to write.
abbrev closing_up : Connection
closing_up = record {
  state = disconnecting;
  channel = record { fd = 5; events = 7; revents = 4; index = Channel.added; tied = true };
  input_buffer = empty_buffer;
  output_buffer = shifted_buffer;
  high_water_mark = 1000;
  write_complete_callback = true;
  high_water_mark_callback = true;
}

closing_up-IsLive : IsLive closing_up
unfolding Channel.is_writing Buffer.readable_bytes
closing_up-IsLive = record { valid = shifted-IsValid; mask = Events.both refl; waits = refl }

abbrev some_events : List Event
some_events =
    says (1 ∷ 2 ∷ 3 ∷ []) takes_two ∷ hears (λ room. bytes (9 ∷ [])) ∷ shuts ∷ drains takes_two ∷ []

-- Two other threads have queued a `send` and a `shutdown`, and the peer goes away.
abbrev threaded : List Event
threaded =
    says (1 ∷ 2 ∷ 3 ∷ []) takes_two
    ∷ shuts_elsewhere
    ∷ runs_send (4 ∷ []) takes_two
    ∷ runs_shutdown
    ∷ drains takes_two
    ∷ hangs_up
    ∷ is_destroyed
    ∷ []

run_stream_example :
    taken (History.run up threaded).0 ++ pending (History.run up threaded).1
    ≡ pending up ++ offered up threaded
run_stream_example =
    run_stream up threaded (inr up-IsLive)
      (
        (takes_two-Honest, tt),
        (tt, ((takes_two-Honest, tt), (tt, (takes_two-Honest, (tt, (tt, tt)))))),
      )
      (omega arith)

closes_last_example :
    (pending (History.step closing_up (drains takes_two)).1 ≡ [])
    × (taken (History.run (History.step closing_up (drains takes_two)).1 some_events).0 ≡ [])
unfolding History.step Connection.handle_write Connection.write_result Connection.drained
    Connection.shutdown_in_loop Buffer.retrieve Buffer.retrieve_all Buffer.write_fd Buffer.readable
    Buffer.readable_bytes Channel.is_writing Channel.disable_writing
closes_last_example =
    closes_last closing_up (drains takes_two) some_events (inr closing_up-IsLive) takes_two-Honest
      ((takes_two-Honest, tt), (tt, (tt, (takes_two-Honest, tt)))) tt (tt, (tt, (tt, (tt, tt))))
      (omega arith) refl

-- The functor 3 queues 4 and 5.
abbrev nested : ℕ → List ℕ
nested f = if f == 3 then 4 ∷ 5 ∷ [] else []

abbrev loop_events : List Wakeup.Event
loop_events =
    Wakeup.other_queues 3
    ∷ Wakeup.other_wakes
    ∷ Wakeup.steps false
    ∷ Wakeup.handler_reads
    ∷ Wakeup.handler_queues 7
    ∷ Wakeup.steps false
    ∷ Wakeup.steps false
    ∷ Wakeup.other_queues 8
    ∷ Wakeup.steps false
    ∷ Wakeup.other_quits
    ∷ []

run-IsAwake_example : IsAwake (Wakeup.run nested EventLoop.start loop_events)
run-IsAwake_example = run-IsAwake nested loop_events
