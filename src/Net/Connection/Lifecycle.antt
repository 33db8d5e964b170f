-- ===== src/Net/Connection/Lifecycle.antt =====
-- The end of a connection: when its write side is closed, and what can follow.
use distributed_instant_mess.Base.{
  ℕ, ◌+◌, ◌<◌, ◌≡◌, ◌≢◌, refl, sym, ◌∙◌, ◌⊎◌, inl, inr, Bool, true, false, List, [], ◌∷◌, ◌++◌,
  arith, length, ◌==◌, if◌then◌else◌, Bool-cases, ltb, nil_of_length, take,
}
use distributed_instant_mess.Net.Buffer.{
  IoResult, done, failed, Incoming, readable_bytes, readable, retrieve, write_fd,
}
use distributed_instant_mess.Net.Buffer.Refine.{
  IsValid, max_size, retrieve-IsValid, length-contents,
}
use distributed_instant_mess.Net.Channel.{is_writing, disable_writing}
use distributed_instant_mess.Net.Connection.{
  State, disconnected, connected, Connection, Effect, queue_write_complete, shutdown_write,
  first_write, first_result, after_first, keep_rest, send_in_loop, send, send_at, shutdown,
  connect_destroyed, destroyed_at, shutdown_at, shutdown_in_loop, handle_read, handle_write,
  handle_close, read_result, write_result, after_retrieve, drained, closing,
}
use distributed_instant_mess.Net.Connection.Stream.{taken, pending, IsLive, nothing_pending}
use distributed_instant_mess.Net.Connection.History.{
  Event, says, drains, hears, shuts, shuts_elsewhere, runs_send, runs_shutdown, hangs_up,
  is_destroyed, step, run, offered, offered_at, Answers, AllAnswer, size, total, IsSound,
  step-Keeps, run_stream,
}

-- The write side of the socket is closed during a handler.
abbrev pub half_closes : List Effect → Bool
half_closes [] = false
half_closes (shutdown_write ∷ es) = true
half_closes (_ ∷ es) = half_closes es

-- What needs no other thread: it is none of a queued functor and of a `shutdown` elsewhere.
abbrev pub IsLocal : Event → Type 0
IsLocal (runs_send xs write) = ⊥
IsLocal runs_shutdown = ⊥
IsLocal shuts_elsewhere = ⊥
IsLocal _ = Unit {0}

abbrev pub AllLocal : List Event → Type 0
AllLocal [] = Unit {0}
AllLocal (e ∷ es) = IsLocal e × AllLocal es

-- The connection takes no more messages.
pub record IsEnding (c : Connection) : Type 0 where
  pub not_connected : c.state ≢ connected
  pub empty : pending c ≡ []

send_keeps_open :
    (c : Connection) (write : List ℕ → IoResult) (xs : List ℕ)
    → half_closes (send true c write xs).0 ≡ false
unfolding send send_in_loop after_first first_write first_result keep_rest
send_keeps_open c write xs = ground arith

read_keeps_open :
    (c : Connection) (read : ℕ → Incoming) → half_closes (handle_read c read).0 ≡ false
unfolding handle_read read_result handle_close
read_keeps_open c read = ground arith

destroyed_keeps_open : (s : State) (c : Connection) → half_closes (destroyed_at s c).0 ≡ false
destroyed_keeps_open connected c = refl
destroyed_keeps_open _ c = refl

shutdown_at-IsEnding :
    (s : State) (c : Connection)
    → IsSound c
    → c.state ≡ s
    → half_closes (shutdown_at s true c).0 ≡ true
    → IsEnding (shutdown_at s true c).1
unfolding shutdown_in_loop
shutdown_at-IsEnding connected c (inl d) e h = cc
shutdown_at-IsEnding connected c (inr l) e h = record {
  not_connected = λ d. cc;
  empty = nothing_pending l (ground arith);
}
shutdown_at-IsEnding _ c v e h = cc

drained-IsEnding :
    (s : State) (c : Connection) (b : Bool)
    → half_closes ((if b then queue_write_complete ∷ [] else []) ++ closing s c) ≡ true
    → s ≢ connected
drained-IsEnding connected c b h = ground arith
drained-IsEnding _ c b h = λ e. cc

after_retrieve-IsEnding :
    (sent : List ℕ) (c : Connection)
    → IsValid c.output_buffer
    → half_closes (after_retrieve sent c).0 ≡ true
    → IsEnding (after_retrieve sent c).1
unfolding drained
after_retrieve-IsEnding sent c v h = elim (Bool-cases (readable_bytes c.output_buffer == 0)) [
  | inl none_left ↦ rw none_left (record {
    not_connected =
        drained-IsEnding c.state (record c { channel = disable_writing c.channel })
          c.write_complete_callback (rw none_left at h);
    empty = nil_of_length (pending c) (ground (arith, length-contents v));
  })
  | inr more ↦ absurd (ground arith)
]

write_result-IsEnding :
    (c : Connection) (r : IoResult)
    → IsLive c
    → half_closes (write_result c r).0 ≡ true
    → IsEnding (write_result c r).1
unfolding write_result
write_result-IsEnding c (failed errno) l h = cc
write_result-IsEnding c (done n) l h = elim (Bool-cases (ltb 0 n)) [
  | inl more ↦ rw more (
      after_retrieve-IsEnding (take n (readable c.output_buffer))
        (record c { output_buffer = retrieve c.output_buffer n }) (retrieve-IsValid l.valid n)
        (rw more at h))
  | inr none_sent ↦ absurd (ground arith)
]

handle_write-IsEnding :
    (c : Connection) (write : List ℕ → IoResult)
    → IsSound c
    → half_closes (handle_write c write).0 ≡ true
    → IsEnding (handle_write c write).1
unfolding handle_write
handle_write-IsEnding c write (inl (down, off)) h = ground arith
handle_write-IsEnding c write (inr l) h = elim (Bool-cases (is_writing c.channel)) [
  | inl on ↦ rw on (write_result-IsEnding c (write_fd c.output_buffer write) l (rw on at h))
  | inr off ↦ absurd (ground arith)
]

step-IsEnding :
    (c : Connection) (e : Event)
    → IsSound c
    → IsLocal e
    → half_closes (step c e).0 ≡ true
    → IsEnding (step c e).1
unfolding step
step-IsEnding c (says xs write) v local h = absurd (ground (arith, send_keeps_open c write xs))
step-IsEnding c (drains write) v local h = handle_write-IsEnding c write v h
step-IsEnding c (hears read) v local h = absurd (ground (arith, read_keeps_open c read))
step-IsEnding c shuts v local h = unfold shutdown in (shutdown_at-IsEnding c.state c v refl h)
step-IsEnding c shuts_elsewhere v local h = absurd local
step-IsEnding c (runs_send xs write) v local h = absurd local
step-IsEnding c runs_shutdown v local h = absurd local
step-IsEnding c hangs_up v local h = unfold handle_close in (absurd (ground (arith, h)))
step-IsEnding c is_destroyed v local h =
    unfold connect_destroyed in (absurd (ground (arith, h, destroyed_keeps_open c.state c)))

send_at-state :
    (s : State) (c : Connection) (write : List ℕ → IoResult) (xs : List ℕ)
    → s ≢ connected
    → (send_at s true c write xs).1 ≡ c
send_at-state connected c write xs ne = absurd (ne refl)
send_at-state _ c write xs ne = refl

shutdown_at-state : (s : State) (c : Connection) → s ≢ connected → (shutdown_at s true c).1 ≡ c
shutdown_at-state connected c ne = absurd (ne refl)
shutdown_at-state _ c ne = refl

state-handle_write :
    (c : Connection) (write : List ℕ → IoResult) → (handle_write c write).1.state ≡ c.state
unfolding handle_write write_result drained
state-handle_write c write = ground arith

state-handle_read :
    (c : Connection) (read : ℕ → Incoming)
    → ((handle_read c read).1.state ≡ c.state) ⊎ ((handle_read c read).1.state ≡ disconnected)
unfolding handle_read read_result handle_close
state-handle_read c read = ground arith

destroyed_at-down :
    (s : State) (c : Connection) → c.state ≢ connected → (destroyed_at s c).1.state ≢ connected
destroyed_at-down connected c ne = λ e. cc
destroyed_at-down _ c ne = ne

step-down :
    (c : Connection) (e : Event) → IsLocal e → c.state ≢ connected → (step c e).1.state ≢ connected
unfolding step
step-down c (says xs write) local ne = unfold send in (rw (send_at-state c.state c write xs ne) ne)
step-down c (drains write) local ne = rw (state-handle_write c write) ne
step-down c (hears read) local ne =
    λ up. elim (state-handle_read c read) [ inl same ↦ ne (sym same ∙ up) | inr down ↦ cc ]
step-down c shuts local ne = unfold shutdown in (rw (shutdown_at-state c.state c ne) ne)
step-down c shuts_elsewhere local ne = absurd local
step-down c (runs_send xs write) local ne = absurd local
step-down c runs_shutdown local ne = absurd local
step-down c hangs_up local ne = unfold handle_close in (λ e. cc)
step-down c is_destroyed local ne = unfold connect_destroyed in destroyed_at-down c.state c ne

offered_at-down : (s : State) (e : Event) → IsLocal e → s ≢ connected → offered_at s e ≡ []
offered_at-down connected e local ne = absurd (ne refl)
offered_at-down _ (runs_send xs write) local ne = absurd local
offered_at-down _ _ local ne = refl

offered-down :
    (c : Connection) (es : List Event) → AllLocal es → c.state ≢ connected → offered c es ≡ []
unfolding offered
offered-down c [] local ne = refl
offered-down c (e ∷ es) (local, others) ne =
    rw (offered_at-down c.state e local ne)
      (offered-down (step c e).1 es others (step-down c e local ne))

nil_of_append : (xs ys : List ℕ) → xs ++ ys ≡ [] → xs ≡ []
nil_of_append [] ys h = refl
nil_of_append (x ∷ xs) ys h = cc

-- Shutting down is graceful, on a connection that is used in the loop's thread only, so that no other
-- thread has queued a `send` or a `shutdown`: the write side is closed only when no byte waits any
-- more, and whatever happens afterwards, the kernel is given no further byte. No `write` of a message
-- answers EPIPE or ECONNRESET, `write` takes no more than it is given, and all bytes together fit into
-- the buffer.
pub closes_last :
    (c : Connection) (e : Event) (es : List Event)
    → IsSound c
    → Answers e
    → AllAnswer es
    → IsLocal e
    → AllLocal es
    → length c.output_buffer.buffer + size e + total es < max_size
    → half_closes (step c e).0 ≡ true
    → (pending (step c e).1 ≡ []) × (taken (run (step c e).1 es).0 ≡ [])
closes_last c e es v h hs local locals k closes =
    let s = step-Keeps c e v h (omega arith) in
    let d = step-IsEnding c e v local closes in
    let all = run_stream (step c e).1 es s.sound hs (omega (arith, s.bounded)) in
    (
      d.empty,
      nil_of_append (taken (run (step c e).1 es).0) (pending (run (step c e).1 es).1)
          (all ∙ cc (d.empty, offered-down (step c e).1 es locals d.not_connected)),
    )
