-- ===== src/Log/File.antt =====
-- framework/AsyncLog/src/LogFile.cc: log files that roll by size and by day. `fwrite_unlocked` is an
-- argument: given the bytes, how many it took, and what `ferror` says. `time` is an argument too: the
-- seconds that `append_unlocked` reads, and those that `rollFile` reads after it.
pub mod Rolling
use distributed_instant_mess.Base.{
  ℕ, zero, suc, ◌+◌, ◌-◌, ◌*◌, ◌/◌, Bool, true, false, not, ◌&&◌, List, [], ◌∷◌, ◌++◌, ltb, leb,
  ◌==◌, if◌then◌else◌, length, take, drop,
}

-- `AppendFile`: the bytes that reached the file, and `writtenBytes_`.
pub record AppendFile : Type 0 where
  pub bytes : List ℕ
  pub written_bytes : ℕ

abbrev pub fresh_file : AppendFile
fresh_file = record { bytes = []; written_bytes = 0 }

-- The call: how many of the bytes it takes, and whether `ferror` says so.
abbrev pub Fwrite : Type 0
Fwrite = List ℕ → ℕ × Bool

-- The loop of `AppendFile::append`, on fuel: the bytes from `logline + written` on, and how many it
-- wrote. A call that takes part of the bytes without an error is repeated for the rest.
unfoldable pub write_loop : ℕ → Fwrite → List ℕ → ℕ
write_loop zero fwrite rest = 0
write_loop (suc fuel) fwrite rest =
    let n = (fwrite rest).0 in
    let err = (fwrite rest).1 in
    let more = write_loop fuel fwrite (drop n rest) in
    if length rest == 0 then 0 else (if not (n == length rest) && err then 0 else n + more)

unfoldable pub file_append : Fwrite → AppendFile → List ℕ → AppendFile
file_append fwrite f line =
    let written = write_loop (suc (length line)) fwrite line in
    record { bytes = f.bytes ++ take written line; written_bytes = f.written_bytes + written }

pub record LogFile : Type 0 where
  pub file : AppendFile
  -- the files before it, the last one first
  pub older : List AppendFile
  pub roll_size : ℕ
  pub check_every : ℕ
  pub count : ℕ
  pub start_of_period : ℕ
  pub last_roll : ℕ
  pub last_flush : ℕ

abbrev pub period : ℕ → ℕ
period now = now / (60 * 60 * 24) * (60 * 60 * 24)

unfoldable pub roll_file : LogFile → ℕ → LogFile
roll_file l now =
    if ltb l.last_roll now
    then record l {
      last_roll = now;
      last_flush = now;
      start_of_period = period now;
      file = fresh_file;
      older = l.file ∷ l.older;
    }
    else l

unfoldable pub check_period : LogFile → ℕ → ℕ → LogFile
check_period l now roll_now =
    if not (period now == l.start_of_period)
    then roll_file l roll_now
    else (if ltb 3 (now - l.last_flush) then record l { last_flush = now } else l)

-- What follows the writing in `append_unlocked`.
unfoldable pub after_append : LogFile → ℕ → ℕ → LogFile
after_append l now roll_now =
    if ltb l.roll_size l.file.written_bytes
    then roll_file l roll_now
    else (if leb l.check_every (suc l.count)
        then check_period (record l { count = 0 }) now roll_now
        else record l { count = suc l.count })

unfoldable pub append_unlocked : Fwrite → LogFile → List ℕ → ℕ → ℕ → LogFile
append_unlocked fwrite l line now roll_now =
    after_append (record l { file = file_append fwrite l.file line }) now roll_now
