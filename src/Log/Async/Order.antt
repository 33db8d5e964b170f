-- ===== src/Log/Async/Order.antt =====
-- What reaches the file: the lines in the order in which they were logged.
pub mod Rounds
pub mod Run
use mathlib.Core.Option.{some-injective, none-ne-some}
use distributed_instant_mess.Log.Async.Handover.{run_never_fails}
use distributed_instant_mess.Base.{
  zero, suc, min, length-take, ℕ, ◌+◌, ◌-◌, ◌^◌, ◌≤◌, ◌<◌, ◌≡◌, ◌≢◌, refl, sym, ap, subst, ◌∙◌, ◌⊎◌,
  inl, inr, Bool, true, false, List, [], ◌∷◌, ◌++◌, Option, none, some, ltb, if◌then◌else◌, length,
  take, arith, length-append, Bool-cases, append-nil, append_assoc, Gives, Gives-some, Gives-map,
  Option-cases,
}
use distributed_instant_mess.Log.FixedBuffer
use distributed_instant_mess.Log.FixedBuffer.{FixedBuffer, avail, IsWithin, append-lem}
use distributed_instant_mess.Log.Async.{
  Logger, fresh, init, append, swap, swapped, flush, flush_list, work, Action, logs, works, step,
  run, bytes_of, trim, pop_back, recycle, recycle_both, max_backlog, refill_next, spare,
}

-- All bytes that were accepted: in the file, on the way to it, in full buffers, in the current one.
abbrev pub accepted : Logger → List ℕ
accepted s = s.file ++ (bytes_of s.to_write ++ (bytes_of s.buffers ++ s.current.written))

-- An empty buffer of the full size.
abbrev pub IsBlank : ℕ → Option FixedBuffer → Type 0
IsBlank capacity none = Unit {0}
IsBlank capacity (some b) = (b.written ≡ []) × (b.size ≡ capacity)

abbrev pub AllSized : ℕ → List FixedBuffer → Type 0
AllSized capacity [] = Unit {0}
AllSized capacity (b ∷ bs) = (b.size ≡ capacity) × AllSized capacity bs

pub record IsClean (capacity : ℕ) (s : Logger) : Type 0 where
  pub sized : s.current.size ≡ capacity
  pub within : IsWithin s.current
  pub spare_blank : IsBlank capacity s.next
  pub blank1 : IsBlank capacity s.new_buffer1
  pub blank2 : IsBlank capacity s.new_buffer2
  pub sized_buffers : AllSized capacity s.buffers
  pub sized_writes : AllSized capacity s.to_write

-- A line is kept if it is shorter than a whole buffer.
abbrev pub kept : ℕ → List ℕ → List ℕ
kept capacity line = if ltb (length line) capacity then line else []

pub bytes_of-append : (bs cs : List FixedBuffer) → bytes_of (bs ++ cs) ≡ bytes_of bs ++ bytes_of cs
bytes_of-append [] cs = refl
bytes_of-append (b ∷ bs) cs =
    ap (◌++◌ b.written) (bytes_of-append bs cs)
    ∙ sym (append_assoc b.written (bytes_of bs) (bytes_of cs))

pub AllSized-append :
    (capacity : ℕ) (bs cs : List FixedBuffer)
    → AllSized capacity bs
    → AllSized capacity cs
    → AllSized capacity (bs ++ cs)
AllSized-append capacity [] cs h k = k
AllSized-append capacity (b ∷ bs) cs h k = (h.0, AllSized-append capacity bs cs h.1 k)

pub init-IsClean : (capacity : ℕ) → IsClean capacity (init capacity)
unfolding init FixedBuffer.init
init-IsClean capacity = ground arith

pub init-accepted : (capacity : ℕ) → accepted (init capacity) ≡ []
unfolding init FixedBuffer.init
init-accepted capacity = refl

spare-IsBlank :
    (capacity : ℕ) (o : Option FixedBuffer)
    → IsBlank capacity o
    → IsBlank capacity (some (spare capacity o))
unfolding FixedBuffer.init
spare-IsBlank capacity none h = (refl, refl)
spare-IsBlank capacity (some b) h = h

append-room :
    (capacity : ℕ) (s : Logger) (line : List ℕ)
    → length line < 2 ^ 31
    → IsClean capacity s
    → ltb (length line) (avail s.current) ≡ true
    → let t = record s { current = FixedBuffer.append s.current line } in
      IsClean capacity t × (accepted t ≡ accepted s ++ kept capacity line)
append-room capacity s line h c room =
    let (w, e, z) = append-lem s.current line h c.within in
    let fits : ltb (length line) capacity ≡ true = unfold avail in ground (arith, c.sized, room) in
    (
      record {
        sized = z ∙ c.sized;
        within = w;
        spare_blank = c.spare_blank;
        blank1 = c.blank1;
        blank2 = c.blank2;
        sized_buffers = c.sized_buffers;
        sized_writes = c.sized_writes;
      },
      rw (e, room, fits) (simp append_assoc),
    )

-- The written bytes of a blank buffer that a line was offered to.
append-blank :
    (capacity : ℕ) (b : FixedBuffer) (line : List ℕ)
    → length line < 2 ^ 31
    → (b.written ≡ []) × (b.size ≡ capacity)
    → IsWithin (FixedBuffer.append b line)
      × ((FixedBuffer.append b line).written ≡ kept capacity line)
      × ((FixedBuffer.append b line).size ≡ capacity)
append-blank capacity b line h (blank, sized) =
    let (w, e, z) = append-lem b line h (omega (arith, ap length blank)) in
    let room : avail b ≡ capacity = unfold avail in omega (arith, ap length blank) in
    (w, e ∙ rw (room, blank), z ∙ sized)

append-full :
    (capacity : ℕ) (s : Logger) (line : List ℕ)
    → length line < 2 ^ 31
    → IsClean capacity s
    → let t = record s {
      buffers = s.buffers ++ s.current ∷ [];
      current = FixedBuffer.append (spare capacity s.next) line;
      next = none;
    } in
      IsClean capacity t × (accepted t ≡ accepted s ++ kept capacity line)
append-full capacity s line h c =
    let (w, e, z) =
      append-blank capacity (spare capacity s.next) line h
        (spare-IsBlank capacity s.next c.spare_blank) in
    (
      record {
        sized = z;
        within = w;
        spare_blank = tt;
        blank1 = c.blank1;
        blank2 = c.blank2;
        sized_buffers =
            AllSized-append capacity s.buffers (s.current ∷ []) c.sized_buffers (c.sized, tt);
        sized_writes = c.sized_writes;
      },
      rw e (simp (bytes_of-append, append_assoc, append-nil)),
    )

-- Logging adds the line behind all that was accepted, if it fits in a buffer at all.
pub append-accepted :
    (capacity : ℕ) (s : Logger) (line : List ℕ)
    → length line < 2 ^ 31
    → IsClean capacity s
    → IsClean capacity (append capacity s line)
      × (accepted (append capacity s line) ≡ accepted s ++ kept capacity line)
unfolding append
append-accepted capacity s line h c = elim (Bool-cases (ltb (length line) (avail s.current))) [
  | inl room ↦ rw room (append-room capacity s line h c room)
  | inr full ↦ rw full (append-full capacity s line h c)
]
