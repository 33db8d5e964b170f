-- ===== src/Chat/LogicQueue.antt =====
-- ChatServer/LogicSystem.cpp: the queue between the sessions and the one thread that runs the
-- handlers. The worker holds `_mutex` while a handler runs, and between the test of its wait loop and
-- the wait, which gives it up. A post pushes under the lock and notifies when it has given it up.
-- `_b_stop` is set without the lock.
pub mod Order
use distributed_instant_mess.Base.{
  ℕ, ◌+◌, ◌-◌, Bool, true, false, List, [], ◌∷◌, ◌++◌, ◌==◌, if◌then◌else◌, length,
}

-- Where the worker is: at the test of its wait loop; past the test, with nothing to do, holding the
-- lock; in `wait`; or out of the loop.
pub data Worker : Type 0 where
  testing holding asleep done : Worker

-- A posted message is its id and a number that stands for the session and the text.
pub record Node : Type 0 where
  pub id : ℕ
  pub content : ℕ

-- `owed`: how many posts have given the lock up and are still to call `notify_one`.
pub record Logic : Type 0 where
  pub queue : List Node
  pub stop : Bool
  pub worker : Worker
  pub owed : ℕ

unfoldable pub init : Logic
init = record { queue = []; stop = false; worker = testing; owed = 0 }

-- `notify_one`: a sleeping worker goes on; no other thread is notified.
abbrev pub notify : Worker → Worker
notify asleep = testing
notify w = w

-- A caller waits for the lock while the worker holds it.
abbrev pub locked : Worker → Bool
locked holding = true
locked _ = false

abbrev pub after_push : Logic → List Node → Logic
after_push l queue = record l {
  queue = queue;
  owed = if length queue == 1 then l.owed + 1 else l.owed;
}

-- `PostMsgToQue` up to the unlock.
unfoldable pub post_msg_to_que : Logic → Node → Logic
post_msg_to_que l m = if locked l.worker then l else after_push l (l.queue ++ m ∷ [])

-- Its `notify_one`, of one of the posts that are still to make it.
unfoldable pub notify_posted : Logic → Logic
notify_posted l =
    if l.owed == 0 then l else record l { worker = notify l.worker; owed = l.owed - 1 }

-- The destructor, up to `join`: two statements, without the lock.
unfoldable pub set_stop : Logic → Logic
set_stop l = record l { stop = true }

unfoldable pub notify_stop : Logic → Logic
notify_stop l = record l { worker = notify l.worker }

-- `_fun_callbacks.find`: which messages have a handler. A handler that runs is an entry of the list.
abbrev pub handled_by : (ℕ → Bool) → List Node → List Node
handled_by known [] = []
handled_by known (m ∷ ms) = if known m.id then m ∷ handled_by known ms else handled_by known ms

-- One round of `DealMsg`. A worker that is to stop deals with all that is left and leaves.
abbrev pub round_at : (ℕ → Bool) → Logic → List Node → List Node × Logic
round_at known l [] = ([], record l { worker = holding })
round_at known l (m ∷ rest) = (handled_by known (m ∷ []), record l { queue = rest })

unfoldable pub deal_msg : (ℕ → Bool) → Logic → List Node × Logic
deal_msg known l =
    if l.stop
    then (handled_by known l.queue, record l { queue = []; worker = done })
    else round_at known l l.queue

abbrev pub work_at : Worker → (ℕ → Bool) → Logic → List Node × Logic
work_at testing known l = deal_msg known l
work_at holding known l = ([], record l { worker = asleep })
work_at _ known l = ([], l)

unfoldable pub work : (ℕ → Bool) → Logic → List Node × Logic
work known l = work_at l.worker known l
