-- ===== src/Redis/Count.antt =====
-- ResourceServer/RedisMgr.cpp: the number of users on each chat server, which all servers change
-- under one lock.
pub mod Runs
pub mod Steps
pub mod Refine
use distributed_instant_mess.Base.{
  ℕ, ◌+◌, ◌-◌, ◌%◌, ◌^◌, ltb, Bool, true, false, Option, none, some, List, [], ◌∷◌, if◌then◌else◌,
}
use distributed_instant_mess.Base.Text.{Text}
use distributed_instant_mess.Redis.{Server}
use distributed_instant_mess.Redis.Manager.{
  Manager, Read, missing, read, undefined, h_get, h_set, h_del,
}
use distributed_instant_mess.Redis.Lock.{manager_acquire_lock, manager_release_lock}

-- LOGIN_COUNT, LOCK_COUNT and LOCK_TIME_OUT
abbrev pub login_count : Text
login_count = 108 ∷ 111 ∷ 103 ∷ 105 ∷ 110 ∷ 99 ∷ 111 ∷ 117 ∷ 110 ∷ 116 ∷ []

abbrev pub lock_count : Text
lock_count = 108 ∷ 111 ∷ 99 ∷ 107 ∷ 99 ∷ 111 ∷ 117 ∷ 110 ∷ 116 ∷ []

abbrev pub lock_time_out : ℕ
lock_time_out = 10

-- `std::to_string` of an int, and `std::stoi`, which is none where it throws.
pub record Numerals : Type 0 where
  pub to_string : ℕ → Text
  pub stoi : Text → Option ℕ

-- How a function returns: it is through, or an exception leaves it.
pub data Ended : Type 0 where
  done : Ended
  threw : Ended

-- The attempts of one call to get the lock: the identifier that it makes, and for each turn of the
-- loop what other clients do before it.
pub record Attempt (V : Server) : Type 0 where
  pub identifier : Text
  pub turns : List (V.State → V.State)

-- An int is its bit pattern. `count++` wraps here at 2 ^ 32; that it leaves the positive numbers at
-- 2 ^ 31, which C++ leaves undefined, is excluded where something is proved.
abbrev pub count_up : ℕ → ℕ
count_up n = (n + 1) % 2 ^ 32

-- `if (count > 0) count--`
abbrev pub count_down : ℕ → ℕ
count_down n = if ltb n (2 ^ 31) then n - 1 else n

module _ (V : Server) where
  -- An operation after another; while one waits, so does the whole.
  abbrev pub and_then :
      {A B : Type 0}
      → Option (A × Manager V)
      → (A → Manager V → Option (B × Manager V))
      → Option (B × Manager V)
  and_then none k = none
  and_then (some (a, m)) k = k a m

  -- A call that has the clock for one turn, before which other clients do nothing.
  abbrev pub first_turn : ℕ → Text → Attempt V
  first_turn c id = record { identifier = c ∷ id; turns = (λ s. s) ∷ [] }

module _ (V : Server) (N : Numerals) where
  -- The count that is read, changed by `f`: an empty text counts as 0. None: `stoi` throws, or there
  -- is no text to read.
  abbrev pub changed : (ℕ → ℕ) → Option ℕ → Option ℕ
  changed f none = none
  changed f (some n) = some (f n)

  abbrev pub new_count : (ℕ → ℕ) → Read → Option ℕ
  new_count f (read []) = some (f 0)
  new_count f (read (c ∷ s)) = changed f (N.stoi (c ∷ s))
  new_count f missing = none
  new_count f undefined = none

  -- The `Defer`, which runs also when an exception leaves the function.
  abbrev pub release_after : Manager V → Text → Ended → Option (Ended × Manager V)
  release_after m identifier e =
      and_then V (manager_release_lock V m lock_count identifier) (λ b m'. some (e, m'))

  abbrev pub store_count : Option ℕ → Manager V → Text → Text → Option (Ended × Manager V)
  store_count none m server_name identifier = release_after m identifier threw
  store_count (some n) m server_name identifier =
      and_then V (h_set V m login_count server_name (N.to_string n))
        λ b m'. release_after m' identifier done

  -- `IncreaseCount` and `DecreaseCount` up to the change. They go on also without the lock.
  unfoldable pub change_count : (ℕ → ℕ) → Manager V → Text → Attempt V → Option (Ended × Manager V)
  change_count f m server_name a =
      and_then V (manager_acquire_lock V m lock_count a.identifier lock_time_out a.turns)
        λ identifier m1.
          and_then V (h_get V m1 login_count server_name)
            λ rd_res m2. store_count (new_count f rd_res) m2 server_name identifier

  abbrev pub increase_count : Manager V → Text → Attempt V → Option (Ended × Manager V)
  increase_count m server_name a = change_count count_up m server_name a

  abbrev pub decrease_count : Manager V → Text → Attempt V → Option (Ended × Manager V)
  decrease_count m server_name a = change_count count_down m server_name a

  -- The text is "0".
  unfoldable pub init_count : Manager V → Text → Attempt V → Option (Ended × Manager V)
  init_count m server_name a =
      and_then V (manager_acquire_lock V m lock_count a.identifier lock_time_out a.turns)
        λ identifier m1.
          and_then V (h_set V m1 login_count server_name (48 ∷ []))
            λ b m2. release_after m2 identifier done

  unfoldable pub del_count : Manager V → Text → Attempt V → Option (Ended × Manager V)
  del_count m server_name a =
      and_then V (manager_acquire_lock V m lock_count a.identifier lock_time_out a.turns)
        λ identifier m1.
          and_then V (h_del V m1 login_count server_name) λ b m2. release_after m2 identifier done
