-- ===== src/Redis/Lock.antt =====
-- ResourceServer/DistLock.cpp, the lock that the servers share by Redis, and the functions of
-- ResourceServer/RedisMgr.cpp that lend it a connection.
pub mod Script
pub mod Exclusion
use distributed_instant_mess.Base.{
  ℕ, suc, ◌+◌, ◌-◌, Bool, true, false, Option, none, some, List, [], ◌∷◌, ◌++◌, ◌==◌, if◌then◌else◌,
}
use distributed_instant_mess.Base.Text.{Text, text_eq}
use distributed_instant_mess.Log.Numbers.{ℤ, pos, negsuc}
use distributed_instant_mess.Redis.{
  Reply, string, status, integer, nil, error, redis_set_nx, redis_eval_unlock, Server, ok,
}
use distributed_instant_mess.Redis.Manager.{Manager, return_connection}

-- "lock:"
abbrev pub lock_prefix : Text
lock_prefix = 108 ∷ 111 ∷ 99 ∷ 107 ∷ 58 ∷ []

abbrev pub is_ok : Option Reply → Bool
is_ok (some (status s)) = text_eq s ok
is_ok _ = false

abbrev pub is_deleted : Option Reply → Bool
is_deleted (some (integer (pos n))) = n == 1
is_deleted _ = false

module _ (V : Server) where
  -- One turn of the loop: `SET key identifier NX EX timeout`.
  unfoldable pub try_lock : V.State → Text → Text → ℕ → Bool × V.State
  try_lock s lock_name identifier lock_timeout =
      let (reply, s') =
        V.command s (redis_set_nx (lock_prefix ++ lock_name) identifier lock_timeout) in
      (is_ok reply, s')

  -- `acquireLock`. The list has an entry for each turn that the clock allows, which is what other
  -- clients do to Redis before it. The text is the identifier, or empty.
  unfoldable pub acquire_lock :
      V.State → Text → Text → ℕ → List (V.State → V.State) → Text × V.State
  acquire_lock s lock_name identifier lock_timeout [] = ([], s)
  acquire_lock s lock_name identifier lock_timeout (others ∷ turns) =
      let (success, s') = try_lock (others s) lock_name identifier lock_timeout in
      let rest = acquire_lock s' lock_name identifier lock_timeout turns in
      if success then (identifier, s') else rest

  -- `releaseLock`
  unfoldable pub release_lock : V.State → Text → Text → Bool × V.State
  release_lock s lock_name identifier =
      let (reply, s') = V.command s (redis_eval_unlock (lock_prefix ++ lock_name) identifier) in
      (is_deleted reply, s')

  -- The functions of RedisMgr: a connection is taken, and given back at the end.
  abbrev pub with_connection :
      {A : Type 0} → List ℕ → Manager V → A → (V.State → A × V.State) → Option (A × Manager V)
  with_connection [] m fail f = none
  with_connection (context ∷ rest) m fail f =
      let (a, redis) = f m.redis in
      some (a, return_connection V (record m { redis = redis; connections = rest }) context)

  abbrev pub lend : {A : Type 0} → Manager V → A → (V.State → A × V.State) → Option (A × Manager V)
  lend m fail f = if m.b_stop then some (fail, m) else with_connection m.connections m fail f

  unfoldable pub manager_acquire_lock :
      Manager V → Text → Text → ℕ → List (V.State → V.State) → Option (Text × Manager V)
  manager_acquire_lock m lock_name identifier lock_timeout turns =
      lend m [] (λ s. acquire_lock s lock_name identifier lock_timeout turns)

  -- An empty identifier is no lock.
  unfoldable pub manager_release_lock : Manager V → Text → Text → Option (Bool × Manager V)
  manager_release_lock m lock_name [] = some (true, m)
  manager_release_lock m lock_name (c ∷ identifier) =
      lend m false (λ s. release_lock s lock_name (c ∷ identifier))
