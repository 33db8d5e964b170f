-- ===== src/Net/Connection/Stream.antt =====
-- The bytes of a connection: what it was given, what the kernel took, and what waits.
use distributed_instant_mess.Base.{
  ℕ, ◌+◌, ◌≤◌, ◌<◌, ◌≡◌, ◌≢◌, refl, sym, ap, ◌∙◌, ◌⊎◌, inl, inr, true, false, not, List, [], ◌∷◌,
  ◌++◌, append-nil, append_assoc, arith, length, take, drop, take-append-drop, drop-all,
  nil_of_length, length-append, if◌then◌else◌, length-drop, ◌==◌, Bool-cases, sub_size, ltb,
}
use distributed_instant_mess.Net.Buffer.{IoResult, done, failed, readable_bytes}
use distributed_instant_mess.Net.Buffer.Refine.{
  max_size, IsValid, contents, length-contents, append-lem,
}
use distributed_instant_mess.Net.Channel.{Channel, enable_writing, is_writing}
use distributed_instant_mess.Net.Channel.Events.{IsMask, enable_writing-Waits}
use distributed_instant_mess.Net.Connection.{
  State, disconnected, Connection, Effect, wrote, queue_write_complete, queue_high_water,
  queue_send, queue_shutdown, shutdown_write, call_connection, call_message, call_close,
  remove_channel, epipe, econnreset, Progress, first_result, first_write, keep_rest, after_first,
  send_in_loop, send_in_state,
}

-- The bytes that the kernel took during a handler.
abbrev pub taken : List Effect → List ℕ
taken [] = []
taken (wrote xs ∷ es) = xs ++ taken es
taken (_ ∷ es) = taken es

abbrev pub pending : Connection → List ℕ
pending c = contents c.output_buffer

-- `write` takes at most what it is given.
abbrev pub Honest : (List ℕ → IoResult) → Type 0
Honest write = (xs : List ℕ) (n : ℕ) → write xs ≡ done n → n ≤ length xs

-- The error is none after which the code gives a message up.
abbrev pub Goes : IoResult → Type 0
Goes (done n) = Unit {0}
Goes (failed errno) = (errno ≢ epipe) × (errno ≢ econnreset)

-- The channel waits to write exactly while bytes are pending.
pub record IsLive (c : Connection) : Type 0 where
  pub valid : IsValid c.output_buffer
  pub mask : IsMask c.channel.events
  pub waits : is_writing c.channel ≡ not (readable_bytes c.output_buffer == 0)

pub taken-append : (es fs : List Effect) → taken (es ++ fs) ≡ taken es ++ taken fs
taken-append [] fs = refl
taken-append (wrote xs ∷ es) fs =
    ap (◌++◌ xs) (taken-append es fs) ∙ sym (append_assoc xs (taken es) (taken fs))
taken-append (queue_write_complete ∷ es) fs = taken-append es fs
taken-append (queue_high_water n ∷ es) fs = taken-append es fs
taken-append (queue_send xs ∷ es) fs = taken-append es fs
taken-append (queue_shutdown ∷ es) fs = taken-append es fs
taken-append (shutdown_write ∷ es) fs = taken-append es fs
taken-append (call_connection ∷ es) fs = taken-append es fs
taken-append (call_message ∷ es) fs = taken-append es fs
taken-append (call_close ∷ es) fs = taken-append es fs
taken-append (remove_channel ∷ es) fs = taken-append es fs

-- What the first `write` of a message does to it: the kernel has the first `nwrote` bytes.
record Progresses (c : Connection) (xs : List ℕ) (p : Progress) : Type 0 where
  bounded : p.nwrote ≤ length xs
  no_fault : p.fault ≡ false
  took : taken p.effects ≡ take p.nwrote xs
  direct : (p.nwrote ≡ 0) ⊎ (pending c ≡ [])

pub nothing_pending : {c : Connection} → IsLive c → is_writing c.channel ≡ false → pending c ≡ []
nothing_pending {c} l h =
    nil_of_length (pending c) (ground (arith, l.waits, length-contents l.valid))

first_result-Progresses :
    (c : Connection) (xs : List ℕ) (r : IoResult)
    → ((n : ℕ) → r ≡ done n → n ≤ length xs)
    → Goes r
    → pending c ≡ []
    → Progresses c xs (first_result c xs r)
unfolding first_result
first_result-Progresses c xs (done n) h g e = record {
  bounded = h n refl;
  no_fault = refl;
  took = ground (arith, append-nil (take n xs));
  direct = inr e;
}
first_result-Progresses c xs (failed errno) h g e = ground arith

first_write-Progresses :
    (c : Connection) (write : List ℕ → IoResult) (xs : List ℕ)
    → IsLive c
    → Honest write
    → Goes (write xs)
    → Progresses c xs (first_write c write xs)
unfolding first_write
first_write-Progresses c write xs l h g = elim (Bool-cases (is_writing c.channel)) [
  | inl busy ↦
      rw busy (record { bounded = omega arith; no_fault = refl; took = refl; direct = inl refl })
  | inr idle ↦ elim (Bool-cases (readable_bytes c.output_buffer == 0)) [
    | inl empty ↦
        rw (idle, empty) (first_result-Progresses c xs (write xs) (h xs) g (nothing_pending l idle))
    | inr more ↦
        rw (idle, more)
          (record { bounded = omega arith; no_fault = refl; took = refl; direct = inl refl })
  ]
]

-- The kernel's part in front, the rest behind what was pending.
regroup :
    (n : ℕ) (xs waiting : List ℕ)
    → (n ≡ 0) ⊎ (waiting ≡ [])
    → take n xs ++ (waiting ++ drop n xs) ≡ waiting ++ xs
regroup n xs waiting (inl e) = rw e
regroup n xs waiting (inr e) = rw e (take-append-drop n xs)

-- The channel after the rest is kept.
waits_to_write :
    (ch : Channel)
    → IsMask ch.events
    → let ch' = if not (is_writing ch) then enable_writing ch else ch in
      IsMask ch'.events × (is_writing ch' ≡ true)
waits_to_write ch m = elim (Bool-cases (is_writing ch)) [
  | inl on ↦ rw on (m, on)
  | inr off ↦ rw off (let w = enable_writing-Waits ch m in (w.mask, w.writes_is))
]

keep_rest-lem :
    (c : Connection) (xs : List ℕ) (n : ℕ)
    → IsLive c
    → n < length xs
    → length c.output_buffer.buffer + length xs < max_size
    → IsLive (keep_rest c xs n).1
      × (pending (keep_rest c xs n).1 ≡ pending c ++ drop n xs)
      × (taken (keep_rest c xs n).0 ≡ [])
unfolding keep_rest
keep_rest-lem c xs n l h k =
    let (v, holds, grows) = append-lem l.valid (drop n xs) (omega (arith, length-drop n xs)) in
    let (m, w) = waits_to_write c.channel l.mask in
    (
      record {
        valid = v;
        mask = m;
        waits =
            w
            ∙ ground (
              arith,
              length-contents v,
              ap length holds,
              length-append (pending c) (drop n xs),
              length-drop n xs,
            );
      },
      holds,
      ground arith,
    )

after_first-lem :
    (c : Connection) (xs : List ℕ) (p : Progress)
    → IsLive c
    → Progresses c xs p
    → length c.output_buffer.buffer + length xs < max_size
    → IsLive (after_first c xs p).1
      × (taken (after_first c xs p).0 ++ pending (after_first c xs p).1 ≡ pending c ++ xs)
unfolding after_first
after_first-lem c xs p l q k = elim (Bool-cases (ltb 0 (sub_size (length xs) p.nwrote))) [
  | inl more ↦
      rw (q.no_fault, more)
        (let (l', holds, quiet) = keep_rest-lem c xs p.nwrote l (ground arith) k in
          (
            l',
            rw (taken-append, quiet, append-nil, holds, q.took)
                (regroup p.nwrote xs (pending c) q.direct),
          ))
  | inr all ↦
      rw (q.no_fault, all)
        (
          l,
          rw q.took (
              ground (
                arith,
                regroup p.nwrote xs (pending c) q.direct,
                drop-all p.nwrote xs,
                append-nil (pending c),
              )),
        )
]

-- A handler that took `xs` from its caller.
pub record Moves (c : Connection) (xs : List ℕ) (r : List Effect × Connection) : Type 0 where
  pub live : IsLive r.1
  pub stream : taken r.0 ++ pending r.1 ≡ pending c ++ xs
  pub bounded : length r.1.output_buffer.buffer ≤ length c.output_buffer.buffer + length xs

length-keep_rest :
    (c : Connection) (xs : List ℕ) (n : ℕ)
    → IsLive c
    → length c.output_buffer.buffer + length xs < max_size
    → length (keep_rest c xs n).1.output_buffer.buffer ≤ length c.output_buffer.buffer + length xs
unfolding keep_rest
length-keep_rest c xs n l k =
    let (v, holds, grows) = append-lem l.valid (drop n xs) (omega (arith, length-drop n xs)) in
    omega (arith, length-drop n xs)

length-after_first :
    (c : Connection) (xs : List ℕ) (p : Progress)
    → IsLive c
    → length c.output_buffer.buffer + length xs < max_size
    → length (after_first c xs p).1.output_buffer.buffer ≤ length c.output_buffer.buffer + length xs
unfolding after_first
length-after_first c xs p l k = ground (arith, length-keep_rest c xs p.nwrote l k)

send_in_state-Moves :
    (s : State) (c : Connection) (write : List ℕ → IoResult) (xs : List ℕ)
    → s ≢ disconnected
    → IsLive c
    → Honest write
    → Goes (write xs)
    → length c.output_buffer.buffer + length xs < max_size
    → Moves c xs (send_in_state s c write xs)
send_in_state-Moves disconnected c write xs ne l h g k = absurd (ne refl)
send_in_state-Moves _ c write xs ne l h g k =
    let p = first_write-Progresses c write xs l h g in
    let (live, stream) = after_first-lem c xs (first_write c write xs) l p k in
    record {
      live = live;
      stream = stream;
      bounded = length-after_first c xs (first_write c write xs) l k;
    }

-- `sendInLoop` on a connection that is not disconnected, with a `write` that takes no more than it is
-- given and does not answer EPIPE or ECONNRESET, after which the code gives the message up, and with
-- room for all bytes in the buffer: the bytes that the kernel takes, followed by those that
-- then wait, are the bytes that waited before, followed by the whole message. So nothing is lost,
-- doubled or reordered, and the channel waits to write exactly while bytes are left.
pub send_in_loop-Moves :
    (c : Connection) (write : List ℕ → IoResult) (xs : List ℕ)
    → c.state ≢ disconnected
    → IsLive c
    → Honest write
    → Goes (write xs)
    → length c.output_buffer.buffer + length xs < max_size
    → Moves c xs (send_in_loop c write xs)
unfolding send_in_loop
send_in_loop-Moves c write xs = send_in_state-Moves c.state c write xs
