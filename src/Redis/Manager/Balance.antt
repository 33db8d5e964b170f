-- ===== src/Redis/Manager/Balance.antt =====
-- What the operations do with the connections and the replies.
use mathlib.Core.List.{Perm}
use mathlib.Core.List.Perm
use distributed_instant_mess.Base.{
  ℕ, ◌≡◌, ◌⊎◌, Bool, true, false, Option, none, some, List, [], ◌∷◌, arith,
}
use distributed_instant_mess.Base.Text.{Text}
use distributed_instant_mess.Redis.{Reply, Server}
use distributed_instant_mess.Redis.Manager.{
  Step, free_reply, give_back, Ends, on_get, on_set, on_push, Read, undefined, on_integer, on_hdel,
  on_exists, Manager, get, set, set_exp, l_push, l_pop, r_push, r_pop, h_set, h_get, h_del, del,
  exists_key,
}

-- The reply is freed once, if there is one, and the connection is given back once.
abbrev pub IsBalanced : Option Reply → List Step → Type 0
IsBalanced none steps = steps ≡ give_back ∷ []
IsBalanced (some reply) steps =
    (steps ≡ free_reply ∷ give_back ∷ []) ⊎ (steps ≡ give_back ∷ free_reply ∷ [])

-- The calls of the operations.
pub data Call : Type 0 where
  calls_get : (key : Text) → Call
  calls_set : (key value : Text) → Call
  calls_set_exp : (key value : Text) (expire_seconds : ℕ) → Call
  calls_l_push : (key value : Text) → Call
  calls_l_pop : (key : Text) → Call
  calls_r_push : (key value : Text) → Call
  calls_r_pop : (key : Text) → Call
  calls_h_set : (key hkey value : Text) → Call
  calls_h_get : (key hkey : Text) → Call
  calls_h_del : (key field : Text) → Call
  calls_del : (key : Text) → Call
  calls_exists_key : (key : Text) → Call

-- What they return.
pub data Answer : Type 0 where
  flag : Bool → Answer
  found : Option Text → Answer
  text : Read → Answer

abbrev is_defined : Answer → Bool
is_defined (text undefined) = false
is_defined _ = true

pub on_get-IsBalanced : (o : Option Reply) → IsBalanced o (on_get o).1
unfolding on_get
on_get-IsBalanced o = ground arith

pub on_set-IsBalanced : (o : Option Reply) → IsBalanced o (on_set o).1
unfolding on_set
on_set-IsBalanced o = ground arith

pub on_push-IsBalanced : (o : Option Reply) → IsBalanced o (on_push o).1
unfolding on_push
on_push-IsBalanced o = ground arith

pub on_integer-IsBalanced : (o : Option Reply) → IsBalanced o (on_integer o).1
unfolding on_integer
on_integer-IsBalanced o = ground arith

pub on_hdel-IsBalanced : (o : Option Reply) → IsBalanced o (on_hdel o).1
unfolding on_hdel
on_hdel-IsBalanced o = ground arith

pub on_exists-IsBalanced : (o : Option Reply) → IsBalanced o (on_exists o).1
unfolding on_exists
on_exists-IsBalanced o = ground arith

module _ (V : Server) where
  abbrev tag : {A : Type 0} → (A → Answer) → Option (A × Manager V) → Option (Answer × Manager V)
  tag f none = none
  tag f (some (a, m)) = some (f a, m)

  -- None: the call waits for a connection.
  unfoldable pub perform : Manager V → Call → Option (Answer × Manager V)
  perform m (calls_get key) = tag found (get V m key)
  perform m (calls_set key value) = tag flag (set V m key value)
  perform m (calls_set_exp key value expire_seconds) =
      tag flag (set_exp V m key value expire_seconds)
  perform m (calls_l_push key value) = tag flag (l_push V m key value)
  perform m (calls_l_pop key) = tag text (l_pop V m key)
  perform m (calls_r_push key value) = tag flag (r_push V m key value)
  perform m (calls_r_pop key) = tag text (r_pop V m key)
  perform m (calls_h_set key hkey value) = tag flag (h_set V m key hkey value)
  perform m (calls_h_get key hkey) = tag text (h_get V m key hkey)
  perform m (calls_h_del key field) = tag flag (h_del V m key field)
  perform m (calls_del key) = tag flag (del V m key)
  perform m (calls_exists_key key) = tag flag (exists_key V m key)

  -- The same connections, in the order of their next use, and no reply more or less to free.
  pub record IsSettled (m m' : Manager V) : Type 0 where
    pub same_connections : Perm m'.connections m.connections
    pub same_replies : m'.replies ≡ m.replies
    pub same_stop : m'.b_stop ≡ m.b_stop

  -- A call waits only if the pool is empty.
  abbrev pub Kept : Manager V → Option (Answer × Manager V) → Type 0
  Kept m none = (m.b_stop ≡ false) × (m.connections ≡ [])
  Kept m (some (a, m')) = (a ≡ text undefined) ⊎ IsSettled m m'

  abbrev taken : Manager V → V.State → List ℕ → ℕ → Manager V
  taken m redis rest replies = record m { redis = redis; connections = rest; replies = replies }

  -- A handler of replies that is balanced wherever its result is defined.
  abbrev Handles : {A : Type 0} → (A → Answer) → (Option Reply → Ends A) → Type 0
  Handles f h = (o : Option Reply) → (f (h o).0 ≡ text undefined) ⊎ IsBalanced o (h o).1
