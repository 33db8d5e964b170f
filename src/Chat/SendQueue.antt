-- ===== src/Chat/SendQueue.antt =====
-- ChatServer/CSession.cpp: the queue of messages that a session has to write. `async_write` is given
-- one message at a time; its completion calls `HandleWrite`.
pub mod Order
use distributed_instant_mess.Base.{
  ℕ, ◌<◌, ◌≡◌, Bool, true, false, List, [], ◌∷◌, ◌++◌, ltb, if◌then◌else◌, length,
}

abbrev pub max_sendque : ℕ
max_sendque = 1000

-- `_send_que`, each node as its bytes, and `_b_close`.
pub record Sender : Type 0 where
  pub queue : List (List ℕ)
  pub closed : Bool

pub data Effect : Type 0 where
  -- `async_write` of these bytes
  writes : List ℕ → Effect
  -- `DealExceptionSession`
  deals : Effect

unfoldable pub init : Sender
init = record { queue = []; closed = false }

-- `auto& msgnode = _send_que.front()`, and the write of it.
abbrev write_front : List (List ℕ) → List Effect
write_front [] = []
write_front (xs ∷ rest) = writes xs ∷ []

unfoldable pub send : Sender → List ℕ → List Effect × Sender
send s node =
    let s' = record s { queue = s.queue ++ node ∷ [] } in
    if ltb max_sendque (length s.queue)
    then ([], s)
    else (if ltb 0 (length s.queue) then ([], s') else (write_front s'.queue, s'))

abbrev pop : List (List ℕ) → List (List ℕ)
pop [] = []
pop (xs ∷ rest) = rest

-- `ok`: the write came to its end without an error.
unfoldable pub handle_write : Sender → Bool → List Effect × Sender
handle_write s ok =
    if ok
    then (write_front (pop s.queue), record s { queue = pop s.queue })
    else (deals ∷ [], record s { closed = true })
