-- ===== src/Log/Async.antt =====
-- framework/AsyncLog/src/AsyncLogging.cc: the callers of `append` and the log thread exchange
-- buffers under one lock. `unique_ptr` is `Option`. Each critical section is one step; the writing
-- to the file is a step of the log thread alone. The file is the list of bytes written to it.
pub mod Handover
pub mod Order
use distributed_instant_mess.Base.{
  ℕ, ◌+◌, ◌-◌, ◌^◌, Bool, true, false, List, [], ◌∷◌, ◌++◌, Option, none, some, ltb, if◌then◌else◌,
  length, take,
}
use distributed_instant_mess.Log.FixedBuffer
use distributed_instant_mess.Log.FixedBuffer.{FixedBuffer, avail}
use distributed_instant_mess.Log.Numbers.{ℤ, pos, convert, codes}

abbrev pub max_backlog : ℕ
max_backlog = 25

pub record Logger : Type 0 where
  -- shared, under the lock
  pub current : FixedBuffer
  pub next : Option FixedBuffer
  pub buffers : List FixedBuffer
  -- the log thread's own
  pub new_buffer1 : Option FixedBuffer
  pub new_buffer2 : Option FixedBuffer
  pub to_write : List FixedBuffer
  pub file : List ℕ

-- `capacity` is `kLargeBuffer`, 4,000,000.
module _ (capacity : ℕ) where
  abbrev pub fresh : FixedBuffer
  fresh = FixedBuffer.init capacity

  unfoldable pub init : Logger
  init = record {
    current = fresh;
    next = some fresh;
    buffers = [];
    new_buffer1 = some fresh;
    new_buffer2 = some fresh;
    to_write = [];
    file = [];
  }

  -- `nextBuffer_`, or a new buffer if it is gone.
  abbrev spare : Option FixedBuffer → FixedBuffer
  spare none = fresh
  spare (some b) = b

  unfoldable pub append : Logger → List ℕ → Logger
  append s line =
      if ltb (length line) (avail s.current)
      then record s { current = FixedBuffer.append s.current line }
      else record s {
        buffers = s.buffers ++ s.current ∷ [];
        current = FixedBuffer.append (spare s.next) line;
        next = none;
      }

-- An assertion that fails, or a null pointer that is followed, ends the program: `none`.
abbrev pub refill_next :
    Option FixedBuffer → Option FixedBuffer → Option FixedBuffer × Option FixedBuffer
refill_next (some b) new2 = (some b, new2)
refill_next none new2 = (new2, none)

unfoldable pub swapped : Logger → FixedBuffer → Logger
swapped s b = record s {
  current = b;
  new_buffer1 = none;
  buffers = s.to_write;
  to_write = s.buffers ++ s.current ∷ [];
  next = (refill_next s.next s.new_buffer2).0;
  new_buffer2 = (refill_next s.next s.new_buffer2).1;
}

-- The log thread takes all full buffers and the current one, and gives an empty one back.
unfoldable pub swap : Logger → Option Logger
swap s = elim s.new_buffer1 [ none ↦ none | some b ↦ some (swapped s b) ]

abbrev pub bytes_of : List FixedBuffer → List ℕ
bytes_of [] = []
bytes_of (b ∷ bs) = b.written ++ bytes_of bs

-- The note on dropped buffers.
abbrev pub dropped_note : ℕ → List ℕ
dropped_note n =
    codes "Dropped log messages... " ++ (convert (2 ^ 64) (pos (n - 2)) ++ codes " buffers\n")

-- A backlog above 25 buffers loses all but the first two.
unfoldable pub trim : List FixedBuffer → List ℕ × List FixedBuffer
trim bs = if ltb max_backlog (length bs) then (dropped_note (length bs), take 2 bs) else ([], bs)

-- `back()` and `pop_back()`; `none` is the assertion that fails.
unfoldable pub pop_back : List FixedBuffer → Option (List FixedBuffer × FixedBuffer)
pop_back [] = none
pop_back (b ∷ bs) = elim (pop_back bs) [
  | none ↦ some ([], b)
  | some (rest, last) ↦ some (b ∷ rest, last)
]

-- One of the two reserve buffers is filled again, if it is gone.
abbrev pub recycle :
    Option FixedBuffer → List FixedBuffer → Option (Option FixedBuffer × List FixedBuffer)
recycle (some b) bs = some (some b, bs)
recycle none bs = elim (pop_back bs) [
  | none ↦ none
  | some (rest, last) ↦ some (some (FixedBuffer.reset last), rest)
]

abbrev recycled :
    Logger → Option FixedBuffer → Option (Option FixedBuffer × List FixedBuffer) → Option Logger
recycled s b1 none = none
recycled s b1 (some (b2, rest)) =
    some (record s { new_buffer1 = b1; new_buffer2 = b2; to_write = [] })

abbrev recycle_both : Logger → Option (Option FixedBuffer × List FixedBuffer) → Option Logger
recycle_both s none = none
recycle_both s (some (b1, rest)) = recycled s b1 (recycle s.new_buffer2 rest)

unfoldable pub flush_list : Logger → List FixedBuffer → Option Logger
flush_list s [] = none
flush_list s (b ∷ bs) =
    let (note, kept) = trim (b ∷ bs) in
    recycle_both (record s { file = s.file ++ (note ++ bytes_of kept) })
      (recycle s.new_buffer1 (take 2 kept))

-- What the log thread does without the lock: write, and keep two buffers for the next round.
unfoldable pub flush : Logger → Option Logger
unfolding flush_list
flush s = flush_list s s.to_write

-- The next thing that the log thread does.
unfoldable pub work : Logger → Option Logger
work s = elim s.to_write [ [] ↦ swap s | b ∷ bs ↦ flush s ]

-- A caller logs a line, or the log thread goes on.
pub data Action : Type 0 where
  logs : List ℕ → Action
  works : Action

pub step : ℕ → Logger → Action → Option Logger
step capacity s (logs line) = some (append capacity s line)
step capacity s works = work s

pub run : ℕ → Logger → List Action → Option Logger
run capacity s [] = some s
run capacity s (a ∷ actions) = elim (step capacity s a) [
  | none ↦ none
  | some t ↦ run capacity t actions
]
