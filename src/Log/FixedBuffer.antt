-- ===== src/Log/FixedBuffer.antt =====
-- framework/AsyncLog/src/include/FixedBuffer.h: a buffer of `size` bytes. `written` is what lies
-- between `data_` and `cur_`.
use distributed_instant_mess.Base.{
  ℕ, ◌-◌, ◌^◌, ◌%◌, ◌≤◌, ◌<◌, ◌≡◌, Bool, true, List, [], ◌++◌, ltb, leb, if◌then◌else◌, length,
  arith, length-append,
}

pub record FixedBuffer : Type 0 where
  pub written : List ℕ
  pub size : ℕ

unfoldable pub init : ℕ → FixedBuffer
init size = record { written = []; size = size }

unfoldable pub avail : FixedBuffer → ℕ
avail b = b.size - length b.written

-- `avail > static_cast<int>(len)`: a length from 2 ^ 31 on becomes a negative `int`.
abbrev pub exceeds : ℕ → ℕ → Bool
exceeds avail len =
    let pattern = len % 2 ^ 32 in if leb (2 ^ 31) pattern then true else ltb pattern avail

unfoldable pub append : FixedBuffer → List ℕ → FixedBuffer
unfolding avail
append b xs = if exceeds (avail b) (length xs) then record b { written = b.written ++ xs } else b

-- `add` after the bytes were written at `current()`.
unfoldable pub add : FixedBuffer → List ℕ → FixedBuffer
add b xs = record b { written = b.written ++ xs }

unfoldable pub reset : FixedBuffer → FixedBuffer
reset b = record b { written = [] }

abbrev pub IsWithin : FixedBuffer → Type 0
IsWithin b = length b.written ≤ b.size

-- `append` writes all of the bytes or none, and leaves room behind what it writes.
pub append-lem :
    (b : FixedBuffer) (xs : List ℕ)
    → length xs < 2 ^ 31
    → IsWithin b
    → IsWithin (append b xs)
      × ((append b xs).written ≡ (if ltb (length xs) (avail b) then b.written ++ xs else b.written))
      × ((append b xs).size ≡ b.size)
unfolding append avail
append-lem b xs h v = ground (arith, length-append b.written xs)
