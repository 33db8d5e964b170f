-- ===== src/Log/Tests.antt =====
-- Runs of the logger on small inputs.
use distributed_instant_mess.Log.File.{LogFile, fresh_file, Fwrite}
use distributed_instant_mess.Log.File.Rolling
use distributed_instant_mess.Log.File.Rolling.{
  Entry, all_bytes, lines, IsCounted, run_keeps_lines, append_within,
}
use distributed_instant_mess.Base.{
  false, refl, ℕ, ◌-◌, ◌^◌, ◌<◌, ◌≤◌, ◌≡◌, List, [], ◌∷◌, ◌++◌, some, arith, length, Gives-at,
}
use distributed_instant_mess.Log.FixedBuffer
use distributed_instant_mess.Log.FixedBuffer.{FixedBuffer, IsWithin, avail, append-lem}
use distributed_instant_mess.Log.Numbers.{ℤ, negsuc, convert, codes}
use distributed_instant_mess.Log.Numbers.RoundTrip.{IsText, convert-IsText}
use distributed_instant_mess.Log.Stream
use distributed_instant_mess.Log.Stream.{Printf, Item, put_all}
use distributed_instant_mess.Log.Stream.Whole.{Keeps, put_all-Keeps}
use distributed_instant_mess.Log.Async
use distributed_instant_mess.Log.Async.{
  Logger, Action, logs, works, bytes_of, append, work, swap, flush,
}
use distributed_instant_mess.Log.Async.Handover.{IsSound, run_never_fails}
use distributed_instant_mess.Log.Async.Order.Run.{KeepsUp, run_order}

-- The lowest value of 64 bits, whose negation is not one of them.
abbrev lowest : ℤ
lowest = negsuc (2 ^ 63 - 1)

convert-IsText_example : IsText lowest (convert (2 ^ 64) lowest)
convert-IsText_example = convert-IsText (2 ^ 64) lowest (omega arith)

abbrev small : FixedBuffer
small = record { written = 1 ∷ 2 ∷ []; size = 4 }

-- A printer of one `double`.
abbrev printf_zero : Printf
printf_zero = record { Double = Unit {0}; print = λ v. codes "0"; print_short = λ v. omega arith }

abbrev items : List (Item printf_zero)
items = Stream.string (codes "id ") ∷ Stream.integer (2 ^ 32) (negsuc 41) ∷ Stream.double tt ∷ []

put_all-Keeps_example :
    IsWithin (put_all printf_zero small items)
    × ((text : List ℕ) × ((put_all printf_zero small items).written ≡ 1 ∷ 2 ∷ text)
        × Keeps printf_zero items text)
put_all-Keeps_example =
    put_all-Keeps printf_zero small items (omega arith, ((omega arith, omega arith), (tt, tt)))
      (omega arith)

abbrev schedule : List Action
schedule = logs (1 ∷ 2 ∷ []) ∷ logs (3 ∷ 4 ∷ []) ∷ works ∷ logs (5 ∷ []) ∷ works ∷ []

run_never_fails_example : (s : Logger) × (Async.run 4 (Async.init 4) schedule ≡ some s) × IsSound s
run_never_fails_example = run_never_fails 4 schedule

schedule-KeepsUp : KeepsUp 4 (Async.init 4) schedule
unfolding Async.init append work swap flush Async.swapped FixedBuffer.init FixedBuffer.append avail
    Async.trim Async.pop_back Async.flush_list FixedBuffer.reset
schedule-KeepsUp = (
  omega arith,
  (
    omega arith,
    (
      omega arith,
      λ t e.
          Gives-at
            (λ t.
              (1 < 2 ^ 31)
              × ((length (append 4 t (5 ∷ [])).to_write ≤ Async.max_backlog)
                  × ((u : Logger) → work (append 4 t (5 ∷ [])) ≡ some u → Unit {0})))
            (work (append 4 (append 4 (Async.init 4) (1 ∷ 2 ∷ [])) (3 ∷ 4 ∷ []))) t
            (omega arith, (omega arith, λ u f. tt)) e,
    ),
  ),
)

run_order_example :
    (s : Logger) × (Async.run 4 (Async.init 4) schedule ≡ some s)
    × (s.file ++ (bytes_of s.to_write ++ (bytes_of s.buffers ++ s.current.written))
        ≡ 1 ∷ 2 ∷ 3 ∷ 4 ∷ 5 ∷ [])
run_order_example = run_order 4 schedule schedule-KeepsUp

abbrev takes_all : Fwrite
takes_all xs = (length xs, false)

-- A log that rolls beyond three bytes.
abbrev small_log : LogFile
small_log = record {
  file = fresh_file;
  older = [];
  roll_size = 3;
  check_every = 2;
  count = 0;
  start_of_period = 0;
  last_roll = 100;
  last_flush = 100;
}

abbrev entries : List Entry
entries =
    record { line = 1 ∷ 2 ∷ []; now = 101; roll_now = 101 }
    ∷ record { line = 3 ∷ 4 ∷ []; now = 102; roll_now = 103 }
    ∷ record { line = 5 ∷ []; now = 90000; roll_now = 90000 }
    ∷ []

run_keeps_lines_example :
    (all_bytes (Rolling.run takes_all small_log entries) ≡ all_bytes small_log ++ lines entries)
    × IsCounted (Rolling.run takes_all small_log entries)
run_keeps_lines_example = run_keeps_lines takes_all small_log entries (λ xs. refl) refl
