-- ===== src/Net/EventLoop.antt =====
-- framework/MyMuduo/src/EventLoop.cc: the loop, the functors that are queued for it, and the eventfd
-- that wakes it.
pub mod Wakeup
use distributed_instant_mess.Base.{
  ℕ, ◌+◌, ◌-◌, Bool, true, false, ◌||◌, not, List, [], ◌∷◌, ◌++◌, ltb, if◌then◌else◌,
}

-- Where the thread of the loop is: in `poll`, in the handlers of the channels, in
-- `doPendingFunctors` with the functors still to be called, or out of the loop.
pub data Phase : Type 0 where
  polling : Phase
  handling : Phase
  calling : List ℕ → Phase
  left : Phase

-- A functor is a number. `wakeups` is the counter of the eventfd, `owed` the number of other threads
-- that have queued and not called `wakeup` yet. `queued` and `called` keep what happened, in order.
pub record EventLoop : Type 0 where
  pub pending_functors : List ℕ
  pub phase : Phase
  pub quit_flag : Bool
  pub wakeups : ℕ
  pub owed : ℕ
  pub queued : List ℕ
  pub called : List ℕ

-- `loop` is called.
abbrev pub start : EventLoop
start = record {
  pending_functors = [];
  phase = polling;
  quit_flag = false;
  wakeups = 0;
  owed = 0;
  queued = [];
  called = [];
}

abbrev pub is_calling : Phase → Bool
is_calling (calling _) = true
is_calling _ = false

unfoldable pub wakeup : EventLoop → EventLoop
wakeup l = record l { wakeups = l.wakeups + 1 }

-- The section of `queueInLoop` under the mutex.
abbrev pub push_functor : EventLoop → ℕ → EventLoop
push_functor l f = record l {
  pending_functors = l.pending_functors ++ f ∷ [];
  queued = l.queued ++ f ∷ [];
}

-- `queueInLoop` in the thread of the loop.
unfoldable pub queue_in_loop : EventLoop → ℕ → EventLoop
queue_in_loop l f = if is_calling l.phase then wakeup (push_functor l f) else push_functor l f

-- `queueInLoop` in another thread, in two steps.
unfoldable pub queue_outside : EventLoop → ℕ → EventLoop
queue_outside l f = let l' = push_functor l f in record l' { owed = l'.owed + 1 }

unfoldable pub wake_outside : EventLoop → EventLoop
wake_outside l = if ltb 0 l.owed then wakeup (record l { owed = l.owed - 1 }) else l

-- `quit` in another thread: the wakeup is owed.
unfoldable pub quit_outside : EventLoop → EventLoop
quit_outside l = record l { quit_flag = true; owed = l.owed + 1 }

-- The functor that is called queues others.
abbrev pub queue_all : EventLoop → List ℕ → EventLoop
queue_all l [] = l
queue_all l (f ∷ fs) = queue_all (queue_in_loop l f) fs

-- `handleRead` reads the counter down to 0.
unfoldable pub handle_read : EventLoop → EventLoop
handle_read l = record l { wakeups = 0 }

module _ (queues : ℕ → List ℕ) where
  -- A functor is called: it queues what it queues.
  abbrev pub call_functor : EventLoop → ℕ → List ℕ → EventLoop
  call_functor l f rest =
      queue_all (record l { phase = calling rest; called = l.called ++ f ∷ [] }) (queues f)

  -- The next step of the thread of the loop. `ready`: another channel has an event, or the time is
  -- over.
  abbrev pub step_at : Phase → Bool → EventLoop → EventLoop
  step_at polling ready l = if ready || ltb 0 l.wakeups then record l { phase = handling } else l
  step_at handling ready l = record l { phase = calling l.pending_functors; pending_functors = [] }
  step_at (calling []) ready l = record l { phase = if l.quit_flag then left else polling }
  step_at (calling (f ∷ rest)) ready l = call_functor l f rest
  step_at left ready l = l

  unfoldable pub loop_step : Bool → EventLoop → EventLoop
  loop_step ready l = step_at l.phase ready l
