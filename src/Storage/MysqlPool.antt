-- ===== src/Storage/MysqlPool.antt =====
-- ChatServer/MysqlDao.h: the pool of connections to the database. A critical section under `mutex_`
-- is one step. The answers of the database are arguments: whether `SELECT 1` and `connect` succeed.
pub mod Conservation
pub mod Ending
use distributed_instant_mess.Base.{
  ℕ, zero, suc, ◌+◌, ◌-◌, Bool, true, false, Option, none, some, List, [], ◌∷◌, ◌++◌, ltb, leb,
  ◌==◌, if◌then◌else◌, length, replicate,
}

-- A connection, as its `_last_oper_time`.
abbrev pub Con : Type 0
Con = ℕ

-- Where the check thread is, if it was started. `now` is the time at which the round began.
pub data Phase : Type 0 where
  absent : Phase
  resting : Phase
  probing : (target processed now : ℕ) → Phase
  holding : (con target processed now : ℕ) → Phase
  reconnecting : (now : ℕ) → Phase

-- `leased` counts the connections that callers have; `dropped` those that came back after
-- `Close`, and `lost` those that a caller destroyed.
pub record Pool : Type 0 where
  pub pool : List Con
  pub leased : ℕ
  pub dropped : ℕ
  pub lost : ℕ
  pub fail_count : ℕ
  pub stop : Bool
  pub phase : Phase

-- The constructor at the time `now`: `made` of the `size` connections succeed. An exception at the
-- next one leaves the loop, and then the check thread is not started.
unfoldable pub init : ℕ → ℕ → ℕ → Pool
init made size now = record {
  pool = replicate made now;
  leased = 0;
  dropped = 0;
  lost = 0;
  fail_count = 0;
  stop = false;
  phase = if made == size then resting else absent;
}

abbrev pub get_front : List Con → Pool → Option Con × Pool
get_front [] p = (none, p)
get_front (con ∷ rest) p = (some con, record p { pool = rest; leased = p.leased + 1 })

-- `getConnection`. A caller who finds the pool empty waits: the call has not happened yet.
unfoldable pub get_connection : Pool → Option Con × Pool
get_connection p = if p.stop then (none, p) else get_front p.pool p

-- Only a connection that was leased comes back.
unfoldable pub return_connection : Pool → Con → Pool
return_connection p con =
    if p.leased == 0
    then p
    else if p.stop
    then record p { leased = p.leased - 1; dropped = p.dropped + 1 }
    else record p { leased = p.leased - 1; pool = p.pool ++ con ∷ [] }

-- A caller that ends without giving its connection back destroys it, as `CheckEmail` does where no
-- row has the name.
unfoldable pub lose_connection : Pool → Pool
lose_connection p =
    if p.leased == 0 then p else record p { leased = p.leased - 1; lost = p.lost + 1 }

-- `Close`.
unfoldable pub close : Pool → Pool
close p = record p { stop = true }

-- The first section of `checkConnectionPro`.
unfoldable pub begin_check : Pool → ℕ → Pool
begin_check p now = record p { phase = probing (length p.pool) 0 now }

abbrev pub take_front : List Con → ℕ → ℕ → ℕ → Pool → Pool
take_front [] target processed now p = record p { phase = reconnecting now }
take_front (con ∷ rest) target processed now p = record p {
  pool = rest;
  phase = holding con target processed now;
}

-- The test of the loop, and the section that takes a connection out.
unfoldable pub take_con : ℕ → ℕ → ℕ → Pool → Pool
take_con target processed now p =
    if ltb processed target
    then take_front p.pool target processed now p
    else record p { phase = reconnecting now }

-- The rest of a round of the loop. `ok`: the query succeeds, if it is made at all.
unfoldable pub probe : Bool → ℕ → ℕ → ℕ → ℕ → Pool → Pool
probe ok con target processed now p =
    if leb 5 (now - con)
    then (if ok
        then record p { pool = p.pool ++ now ∷ []; phase = probing target (processed + 1) now }
        else record p { fail_count = p.fail_count + 1; phase = probing target (processed + 1) now })
    else record p { pool = p.pool ++ con ∷ []; phase = probing target (processed + 1) now }

-- One round of the last loop, with `reconnect`.
unfoldable pub reconnect : Bool → ℕ → Pool → Pool
reconnect ok now p =
    if ltb 0 p.fail_count
    then (if ok
        then record p { pool = p.pool ++ now ∷ []; fail_count = p.fail_count - 1 }
        else record p { phase = resting })
    else record p { phase = resting }

-- What the check thread does next: it begins a round if the pool is not closed. `ok` is the answer of the database, if it is asked.
abbrev pub check_at : Phase → Bool → ℕ → Pool → Pool
check_at absent ok now p = p
check_at resting ok now p = if p.stop then p else begin_check p now
check_at (probing target processed began) ok now p = take_con target processed began p
check_at (holding con target processed began) ok now p = probe ok con target processed began p
check_at (reconnecting began) ok now p = reconnect ok began p

unfoldable pub check_step : Bool → ℕ → Pool → Pool
check_step ok now p = check_at p.phase ok now p
