-- ===== src/Redis/Manager.antt =====
-- ResourceServer/RedisMgr.cpp: the operations, each with the connection it takes from the pool of
-- ResourceServer/RedisMgr.h and the reply it frees.
pub mod Balance
use distributed_instant_mess.Base.{
  ℕ, zero, suc, ◌+◌, ◌-◌, Bool, true, false, ◌||◌, Option, none, some, List, [], ◌∷◌, ◌++◌, ◌==◌,
  ltb, if◌then◌else◌,
}
use distributed_instant_mess.Base.Text.{Text, text_eq}
use distributed_instant_mess.Log.Numbers.{ℤ, pos, negsuc}
use distributed_instant_mess.Redis.{
  Reply, string, status, integer, nil, error, Command, redis_get, redis_set, redis_setex,
  redis_lpush, redis_lpop, redis_rpush, redis_rpop, redis_hset, redis_hget, redis_hdel, redis_del,
  redis_exists, Server, ok, ok_small,
}

-- What an operation does once it has a reply: it frees it, and gives the connection back.
pub data Step : Type 0 where
  free_reply : Step
  give_back : Step

-- A result, and the steps before the return, in their order.
abbrev pub Ends : Type 0 → Type 0
Ends A = A × List Step

-- `reply->integer <= 0`
abbrev pub is_positive : ℤ → Bool
is_positive (pos n) = ltb 0 n
is_positive (negsuc n) = false

-- The error path of the operations that test for NULL first.
abbrev pub failed : {A : Type 0} → A → Ends A
failed a = (a, free_reply ∷ give_back ∷ [])

abbrev pub no_reply : {A : Type 0} → A → Ends A
no_reply a = (a, give_back ∷ [])

unfoldable pub on_get : Option Reply → Ends (Option Text)
on_get none = no_reply none
on_get (some (string s)) = (some s, free_reply ∷ give_back ∷ [])
on_get (some _) = failed none

-- `Set` and `SetExp`
unfoldable pub on_set : Option Reply → Ends Bool
on_set none = no_reply false
on_set (some (status s)) =
    if text_eq s ok || text_eq s ok_small then (true, free_reply ∷ give_back ∷ []) else failed false
on_set (some _) = failed false

-- `LPush` and `RPush`. They free the reply also where it is NULL, which does nothing.
unfoldable pub on_push : Option Reply → Ends Bool
on_push none = no_reply false
on_push (some (integer n)) =
    if is_positive n then (true, free_reply ∷ give_back ∷ []) else failed false
on_push (some _) = failed false

-- The text of a reply. That of an integer is NULL, and to copy it is not defined: none.
abbrev pub str : Reply → Option Text
str (string s) = some s
str (status s) = some s
str (error s) = some s
str (integer n) = none
str nil = none

-- How an operation ends that reads the text of any reply but nil. `undefined`: the text is NULL.
pub data Read : Type 0 where
  missing : Read
  read : Text → Read
  undefined : Read

abbrev pub read_str : Option Text → Ends Read
read_str none = (undefined, [])
read_str (some s) = (read s, free_reply ∷ give_back ∷ [])

-- `LPop` and `RPop`, and `HGet`, which answers an empty text where they fail.
unfoldable pub on_pop : Option Reply → Ends Read
on_pop none = no_reply missing
on_pop (some nil) = failed missing
on_pop (some reply) = read_str (str reply)

unfoldable pub on_hget : Option Reply → Ends Read
on_hget none = no_reply (read [])
on_hget (some nil) = failed (read [])
on_hget (some reply) = read_str (str reply)

-- `HSet` and `Del`
unfoldable pub on_integer : Option Reply → Ends Bool
on_integer none = no_reply false
on_integer (some (integer n)) = (true, free_reply ∷ give_back ∷ [])
on_integer (some _) = failed false

-- The connection is given back by a `Defer`.
unfoldable pub on_hdel : Option Reply → Ends Bool
on_hdel none = no_reply false
on_hdel (some (integer n)) = (is_positive n, free_reply ∷ give_back ∷ [])
on_hdel (some _) = failed false

abbrev pub integer_is_zero : ℤ → Bool
integer_is_zero (pos n) = n == 0
integer_is_zero (negsuc n) = false

-- Where the key is missing, the connection is given back before the reply is freed.
unfoldable pub on_exists : Option Reply → Ends Bool
on_exists none = no_reply false
on_exists (some (integer n)) =
    if integer_is_zero n
    then (false, give_back ∷ free_reply ∷ [])
    else (true, free_reply ∷ give_back ∷ [])
on_exists (some _) = (false, give_back ∷ free_reply ∷ [])

-- A manager: Redis, the connections in the pool, `b_stop_`, and how many replies are not freed.
pub record Manager (V : Server) : Type 0 where
  pub redis : V.State
  pub connections : List ℕ
  pub b_stop : Bool
  pub replies : ℕ

module _ (V : Server) where
  -- `returnConnection`: after `Close`, the connection is dropped.
  unfoldable pub return_connection : Manager V → ℕ → Manager V
  return_connection m context =
      if m.b_stop then m else record m { connections = m.connections ++ context ∷ [] }

  abbrev pub apply_step : Manager V → ℕ → Step → Manager V
  apply_step m context free_reply = record m { replies = m.replies - 1 }
  apply_step m context give_back = return_connection m context

  unfoldable pub apply_steps : Manager V → ℕ → List Step → Manager V
  apply_steps m context [] = m
  apply_steps m context (e ∷ es) = apply_steps (apply_step m context e) context es

  -- A reply that is there has to be freed.
  abbrev pub count_reply : Option Reply → ℕ → ℕ
  count_reply none n = n
  count_reply (some reply) n = suc n

  abbrev pub with_context :
      {A : Type 0}
      → List ℕ
      → Manager V
      → A
      → Command
      → (Option Reply → Ends A)
      → Option (A × Manager V)
  with_context [] m fail c on_reply = none
  with_context (context ∷ rest) m fail c on_reply =
      let (reply, redis) = V.command m.redis c in
      let (a, steps) = on_reply reply in
      some (
        a,
        apply_steps
            (record m { redis = redis; connections = rest; replies = count_reply reply m.replies })
            context steps,
      )

  -- An operation: `getConnection`, the command, and what follows the reply. After `Close` it fails at
  -- once; none: it waits for a connection.
  unfoldable pub run_command :
      {A : Type 0} → Manager V → A → Command → (Option Reply → Ends A) → Option (A × Manager V)
  run_command m fail c on_reply =
      if m.b_stop then some (fail, m) else with_context m.connections m fail c on_reply

  -- The operations of RedisMgr. `h_set` is both functions of this name.
  abbrev pub get : Manager V → Text → Option (Option Text × Manager V)
  get m key = run_command m none (redis_get key) on_get

  abbrev pub set : Manager V → Text → Text → Option (Bool × Manager V)
  set m key value = run_command m false (redis_set key value) on_set

  abbrev pub set_exp : Manager V → Text → Text → ℕ → Option (Bool × Manager V)
  set_exp m key value expire_seconds =
      run_command m false (redis_setex key expire_seconds value) on_set

  abbrev pub l_push : Manager V → Text → Text → Option (Bool × Manager V)
  l_push m key value = run_command m false (redis_lpush key value) on_push

  abbrev pub l_pop : Manager V → Text → Option (Read × Manager V)
  l_pop m key = run_command m missing (redis_lpop key) on_pop

  abbrev pub r_push : Manager V → Text → Text → Option (Bool × Manager V)
  r_push m key value = run_command m false (redis_rpush key value) on_push

  abbrev pub r_pop : Manager V → Text → Option (Read × Manager V)
  r_pop m key = run_command m missing (redis_rpop key) on_pop

  abbrev pub h_set : Manager V → Text → Text → Text → Option (Bool × Manager V)
  h_set m key hkey value = run_command m false (redis_hset key hkey value) on_integer

  abbrev pub h_get : Manager V → Text → Text → Option (Read × Manager V)
  h_get m key hkey = run_command m (read []) (redis_hget key hkey) on_hget

  abbrev pub h_del : Manager V → Text → Text → Option (Bool × Manager V)
  h_del m key field = run_command m false (redis_hdel key field) on_hdel

  abbrev pub del : Manager V → Text → Option (Bool × Manager V)
  del m key = run_command m false (redis_del key) on_integer

  abbrev pub exists_key : Manager V → Text → Option (Bool × Manager V)
  exists_key m key = run_command m false (redis_exists key) on_exists
