-- ===== src/Redis.antt =====
-- ResourceServer/RedisMgr.cpp, whose parts the other servers have as copies. hiredis and the server
-- behind it are a parameter: a state, and what a command does to it and replies.
mod Tests
pub mod Manager
pub mod Files
pub mod Lock
pub mod Count
use distributed_instant_mess.Base.{
  ℕ, zero, suc, ◌<◌, ◌≡◌, ◌≢◌, Bool, true, false, Option, none, some, List, [], ◌∷◌, if◌then◌else◌,
}
use distributed_instant_mess.Base.Text.{Text, text_eq}
use distributed_instant_mess.Log.Numbers.{ℤ, pos, negsuc}

-- A reply by its type, with the text or the number that it has.
pub data Reply : Type 0 where
  string : Text → Reply
  status : Text → Reply
  integer : ℤ → Reply
  nil : Reply
  error : Text → Reply

-- The commands, by the formats of `redisCommand` and `redisCommandArgv`. `eval_unlock` is the script
-- of `releaseLock`.
pub data Command : Type 0 where
  redis_get : (key : Text) → Command
  redis_set : (key value : Text) → Command
  redis_setex : (key : Text) (seconds : ℕ) (value : Text) → Command
  redis_lpush : (key value : Text) → Command
  redis_lpop : (key : Text) → Command
  redis_rpush : (key value : Text) → Command
  redis_rpop : (key : Text) → Command
  redis_hset : (key hkey value : Text) → Command
  redis_hget : (key hkey : Text) → Command
  redis_hdel : (key field : Text) → Command
  redis_del : (key : Text) → Command
  redis_exists : (key : Text) → Command
  redis_set_nx : (key value : Text) (seconds : ℕ) → Command
  redis_eval_unlock : (key value : Text) → Command

-- `command` is none where `redisCommand` returns NULL.
pub record Server : Type 1 where
  pub State : Type 0
  pub command : State → Command → Option Reply × State

-- "OK" and "ok"
abbrev pub ok : Text
ok = 79 ∷ 75 ∷ []

abbrev pub ok_small : Text
ok_small = 111 ∷ 107 ∷ []

-- What there is under a key.
pub data Entry : Type 0 where
  absent : Entry
  text : Text → Entry
  hash : Entry
  list : Entry

-- A command on hashes takes the key.
abbrev pub TakesFields : Entry → Type 0
TakesFields absent = Unit {0}
TakesFields hash = Unit {0}
TakesFields _ = ⊥

-- The script of `releaseLock` behind its `redis.call('get', KEYS[1])`: what the call gave is compared
-- with ARGV[1]. An error of the call ends the script.
abbrev pub script_after :
    {S : Type 0} → (S → Option Reply × S) → Text → Option Reply × S → Option Reply × S
script_after delete v (some (string w), s) =
    if text_eq w v then delete s else (some (integer (pos 0)), s)
script_after delete v (some (error e), s) = (some (error e), s)
script_after delete v (some _, s) = (some (integer (pos 0)), s)
script_after delete v (none, s) = (none, s)

unfoldable pub unlock_script : (V : Server) → V.State → Text → Text → Option Reply × V.State
unlock_script V s key v =
    script_after (λ s'. V.command s' (redis_del key)) v (V.command s (redis_get key))

-- What the documentation of Redis says of the commands that the proofs use. A command on a text or
-- on a hash fails on a key of another type and changes nothing; a time to live is positive. EVAL runs
-- the commands of a script with nothing in between. Nothing expires, and every command is replied to.
pub record IsRedis (V : Server) : Type 0 where
  pub entry : V.State → Text → Entry
  pub hvalue : V.State → Text → Text → Option Text
  pub get_text :
      (s : V.State) (k v : Text)
      → entry s k ≡ text v
      → V.command s (redis_get k) ≡ (some (string v), s)
  pub setex_ok :
      (s : V.State) (k v : Text) (n : ℕ)
      → 0 < n
      → (V.command s (redis_setex k n v)).0 ≡ some (status ok)
  pub setex_text :
      (s : V.State) (k v : Text) (n : ℕ)
      → 0 < n
      → entry (V.command s (redis_setex k n v)).1 k ≡ text v
  pub set_nx_absent :
      (s : V.State) (k v : Text) (n : ℕ)
      → 0 < n
      → entry s k ≡ absent
      → ((V.command s (redis_set_nx k v n)).0 ≡ some (status ok))
        × (entry (V.command s (redis_set_nx k v n)).1 k ≡ text v)
  pub set_nx_there :
      (s : V.State) (k v : Text) (n : ℕ)
      → 0 < n
      → entry s k ≢ absent
      → V.command s (redis_set_nx k v n) ≡ (some nil, s)
  pub set_nx_others :
      (s : V.State) (k v : Text) (n : ℕ) (j : Text)
      → j ≢ k
      → entry (V.command s (redis_set_nx k v n)).1 j ≡ entry s j
  pub set_nx_hvalue :
      (s : V.State) (k v : Text) (n : ℕ) (h f : Text)
      → hvalue (V.command s (redis_set_nx k v n)).1 h f ≡ hvalue s h f
  pub del_text :
      (s : V.State) (k v : Text)
      → entry s k ≡ text v
      → ((V.command s (redis_del k)).0 ≡ some (integer (pos 1)))
        × (entry (V.command s (redis_del k)).1 k ≡ absent)
        × ((h f : Text) → hvalue (V.command s (redis_del k)).1 h f ≡ hvalue s h f)
  pub del_others :
      (s : V.State) (k j : Text) → j ≢ k → entry (V.command s (redis_del k)).1 j ≡ entry s j
  pub eval_runs :
      (s : V.State) (k v : Text) → V.command s (redis_eval_unlock k v) ≡ unlock_script V s k v
  pub hget_some :
      (s : V.State) (h f v : Text)
      → hvalue s h f ≡ some v
      → V.command s (redis_hget h f) ≡ (some (string v), s)
  pub hget_none :
      (s : V.State) (h f : Text)
      → TakesFields (entry s h)
      → hvalue s h f ≡ none
      → V.command s (redis_hget h f) ≡ (some nil, s)
  pub hset_field :
      (s : V.State) (h f v : Text)
      → TakesFields (entry s h)
      → (hvalue (V.command s (redis_hset h f v)).1 h f ≡ some v)
        × (entry (V.command s (redis_hset h f v)).1 h ≡ hash)
  pub hset_other :
      (s : V.State) (h f v g : Text)
      → g ≢ f
      → hvalue (V.command s (redis_hset h f v)).1 h g ≡ hvalue s h g
  pub hset_text :
      (s : V.State) (h f v k w : Text)
      → entry s k ≡ text w
      → entry (V.command s (redis_hset h f v)).1 k ≡ text w
