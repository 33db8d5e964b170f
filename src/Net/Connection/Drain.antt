-- ===== src/Net/Connection/Drain.antt =====
-- `handleWrite`: the waiting bytes go to the kernel.
use distributed_instant_mess.Base.{
  ℕ, ◌≤◌, ◌≡◌, refl, sym, ap, inl, inr, true, List, [], append-nil, arith, length, take,
  take-append-drop, ◌==◌, Bool-cases, ltb,
}
use distributed_instant_mess.Net.Buffer.{
  Buffer, IoResult, done, failed, readable_bytes, readable, retrieve, write_fd,
}
use distributed_instant_mess.Net.Buffer.Refine.{
  IsValid, retrieve-IsValid, contents-retrieve, length-retrieve, readable-eq,
}
use distributed_instant_mess.Net.Channel.{disable_writing, is_writing}
use distributed_instant_mess.Net.Channel.Events.{IsMask, disable_writing-Waits}
use distributed_instant_mess.Net.Connection.{
  State, disconnecting, Connection, drained, after_retrieve, write_result, handle_write, closing,
  shutdown_in_loop,
}
use distributed_instant_mess.Net.Connection.Stream.{taken, pending, Honest, IsLive, Moves}

taken-closing : (s : State) (c : Connection) → taken (closing s c) ≡ []
unfolding shutdown_in_loop
taken-closing disconnecting c = ground arith
taken-closing _ c = refl

taken-drained : (c : Connection) → taken (drained c).0 ≡ []
unfolding drained
taken-drained c =
    let c' : Connection = record c { channel = disable_writing c.channel } in
    ground (arith, taken-closing c.state c')

-- `c` is the connection after the sent bytes are gone from its buffer.
after_retrieve-Moves :
    (sent : List ℕ) (c : Connection)
    → IsValid c.output_buffer
    → IsMask c.channel.events
    → is_writing c.channel ≡ true
    → IsLive (after_retrieve sent c).1
      × (taken (after_retrieve sent c).0 ≡ sent)
      × ((after_retrieve sent c).1.output_buffer ≡ c.output_buffer)
unfolding drained
after_retrieve-Moves sent c v m on = elim (Bool-cases (readable_bytes c.output_buffer == 0)) [
  | inl empty ↦ rw empty (
      let w = disable_writing-Waits c.channel m in
      (
        record { valid = v; mask = w.mask; waits = rw empty w.writes_is },
        rw taken-drained (append-nil sent),
        refl,
      ))
  | inr more ↦ rw more (record { valid = v; mask = m; waits = rw more on }, append-nil sent, refl)
]

write_result-Moves :
    (c : Connection) (r : IoResult)
    → IsLive c
    → is_writing c.channel ≡ true
    → ((n : ℕ) → r ≡ done n → n ≤ length (readable c.output_buffer))
    → Moves c [] (write_result c r)
unfolding write_result
write_result-Moves c (failed errno) l on h = record {
  live = l;
  stream = sym (append-nil (pending c));
  bounded = omega arith;
}
write_result-Moves c (done n) l on h = elim (Bool-cases (ltb 0 n)) [
  | inl some_bytes ↦ rw some_bytes (
      let (live, took, same) =
        after_retrieve-Moves (take n (readable c.output_buffer))
          (record c { output_buffer = retrieve c.output_buffer n }) (retrieve-IsValid l.valid n)
          l.mask on in
      record {
        live = live;
        stream = cc (
          took,
          contents-retrieve l.valid n,
          readable-eq l.valid,
          take-append-drop n (pending c),
          append-nil (pending c),
        );
        bounded =
            omega
              (arith, ap (λ (b : Buffer). length b.buffer) same, length-retrieve c.output_buffer n);
      })
  | inr none_sent ↦
      rw none_sent
        (record { live = l; stream = sym (append-nil (pending c)); bounded = omega arith })
]

-- `handleWrite` moves bytes from the buffer to the kernel, in order, and stops waiting to write when
-- the last is gone. Whatever error `write` returns, nothing is lost.
pub handle_write-Moves :
    (c : Connection) (write : List ℕ → IoResult)
    → IsLive c
    → Honest write
    → Moves c [] (handle_write c write)
unfolding handle_write write_fd
handle_write-Moves c write l h = elim (Bool-cases (is_writing c.channel)) [
  | inl on ↦
      rw on
        (write_result-Moves c (write_fd c.output_buffer write) l on (h (readable c.output_buffer)))
  | inr off ↦
      rw off (record { live = l; stream = sym (append-nil (pending c)); bounded = omega arith })
]
