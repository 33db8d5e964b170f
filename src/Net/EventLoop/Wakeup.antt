-- ===== src/Net/EventLoop/Wakeup.antt =====
-- Functors are called in order, and the loop does not sleep while one waits.
use distributed_instant_mess.Base.{
  ℕ, ◌+◌, ◌-◌, ◌<◌, ◌≡◌, refl, sym, ap, ◌∙◌, subst, Bool, true, false, ◌||◌, List, [], ◌∷◌, ◌++◌,
  append_assoc, append-nil, arith, ltb, length, if◌then◌else◌,
}
use distributed_instant_mess.Net.EventLoop.{
  Phase, polling, handling, calling, left, EventLoop, start, is_calling, wakeup, push_functor,
  queue_in_loop, queue_outside, wake_outside, quit_outside, queue_all, handle_read, step_at,
  loop_step,
}

-- What can happen, in any order: a step of the loop, `handleRead` or a call of `queueInLoop` by the
-- handler of a channel, and the calls of other threads.
pub data Event : Type 0 where
  steps : Bool → Event
  handler_reads : Event
  handler_queues : ℕ → Event
  other_queues : ℕ → Event
  other_wakes : Event
  other_quits : Event

abbrev pub handle_queue : Phase → EventLoop → ℕ → EventLoop
handle_queue handling l f = queue_in_loop l f
handle_queue _ l f = l

abbrev pub handler_read : Phase → EventLoop → EventLoop
handler_read handling l = handle_read l
handler_read _ l = l

unfoldable pub step : (ℕ → List ℕ) → EventLoop → Event → EventLoop
step queues l (steps ready) = loop_step queues ready l
step queues l handler_reads = handler_read l.phase l
step queues l (handler_queues f) = handle_queue l.phase l f
step queues l (other_queues f) = queue_outside l f
step queues l other_wakes = wake_outside l
step queues l other_quits = quit_outside l

unfoldable pub run : (ℕ → List ℕ) → EventLoop → List Event → EventLoop
run queues l [] = l
run queues l (e ∷ es) = run queues (step queues l e) es

abbrev pub batch : Phase → List ℕ
batch (calling fs) = fs
batch _ = []

-- The phase in which the handlers run: what they queue is called in the same round.
abbrev pub is_handling : Phase → Bool
is_handling handling = true
is_handling _ = false

-- Called, being called, waiting: in this order what was queued. And where functors wait, and it is
-- not the turn of the handlers, the loop is woken, or another thread is about to wake it.
pub record IsAwake (l : EventLoop) : Type 0 where
  pub order : l.called ++ (batch l.phase ++ l.pending_functors) ≡ l.queued
  pub awake : is_handling l.phase ≡ false → 0 < length l.pending_functors → 0 < l.wakeups + l.owed

push-order :
    (a b c q : List ℕ) (f : ℕ) → a ++ (b ++ c) ≡ q → a ++ (b ++ (c ++ f ∷ [])) ≡ q ++ f ∷ []
push-order a b c q f e =
    ap (λ x. a ++ x) (sym (append_assoc b c (f ∷ [])))
    ∙ sym (append_assoc a (b ++ c) (f ∷ []))
    ∙ ap (λ x. x ++ f ∷ []) e

order_at :
    (l : EventLoop) (p : Phase)
    → l.phase ≡ p
    → IsAwake l
    → l.called ++ (batch p ++ l.pending_functors) ≡ l.queued
order_at l p e h = subst (λ q. l.called ++ (batch q ++ l.pending_functors) ≡ l.queued) e h.order

awake_at :
    (l : EventLoop) (p : Phase)
    → l.phase ≡ p
    → IsAwake l
    → is_handling p ≡ false
    → 0 < length l.pending_functors
    → 0 < l.wakeups + l.owed
awake_at l p e h off = h.awake (ap is_handling e ∙ off)

wake_if-IsAwake :
    (b : Bool) (l : EventLoop) (f : ℕ)
    → (b ≡ false → is_handling l.phase ≡ true)
    → IsAwake l
    → IsAwake (if b then wakeup (push_functor l f) else push_functor l f)
unfolding wakeup
wake_if-IsAwake true l f on h = record {
  order = push-order l.called (batch l.phase) l.pending_functors l.queued f h.order;
  awake = λ _ _. omega arith;
}
wake_if-IsAwake false l f on h = record {
  order = push-order l.called (batch l.phase) l.pending_functors l.queued f h.order;
  awake = λ off _. absurd (ground (arith, off, on refl));
}

wake_if-phase :
    (b : Bool) (l : EventLoop) (f : ℕ)
    → (if b then wakeup (push_functor l f) else push_functor l f).phase ≡ l.phase
unfolding wakeup
wake_if-phase true l f = refl
wake_if-phase false l f = refl

queue_all-IsAwake :
    (fs : List ℕ) (l : EventLoop) → is_calling l.phase ≡ true → IsAwake l → IsAwake (queue_all l fs)
unfolding queue_in_loop
queue_all-IsAwake [] l c h = h
queue_all-IsAwake (f ∷ fs) l c h =
    queue_all-IsAwake fs (queue_in_loop l f)
      (ap is_calling (wake_if-phase (is_calling l.phase) l f) ∙ c)
      (wake_if-IsAwake (is_calling l.phase) l f (λ off. absurd (ground (arith, off, c))) h)

poll-IsAwake :
    (b : Bool) (l : EventLoop)
    → l.phase ≡ polling
    → IsAwake l
    → IsAwake (if b then record l { phase = handling } else l)
poll-IsAwake true l e h = record {
  order = order_at l polling e h;
  awake = λ off. absurd (ground (arith, off));
}
poll-IsAwake false l e h = h

leave-IsAwake :
    (b : Bool) (l : EventLoop)
    → l.phase ≡ calling []
    → IsAwake l
    → IsAwake (record l { phase = if b then left else polling })
leave-IsAwake true l e h = record {
  order = order_at l (calling []) e h;
  awake = λ _. awake_at l (calling []) e h refl;
}
leave-IsAwake false l e h = record {
  order = order_at l (calling []) e h;
  awake = λ _. awake_at l (calling []) e h refl;
}

step_at-IsAwake :
    (queues : ℕ → List ℕ) (p : Phase) (ready : Bool) (l : EventLoop)
    → l.phase ≡ p
    → IsAwake l
    → IsAwake (step_at queues p ready l)
step_at-IsAwake queues polling ready l e h = poll-IsAwake (ready || ltb 0 l.wakeups) l e h
step_at-IsAwake queues handling ready l e h = record {
  order = ap (λ q. l.called ++ q) (append-nil l.pending_functors) ∙ order_at l handling e h;
  awake = λ _ pos. absurd (omega (arith, pos));
}
step_at-IsAwake queues (calling []) ready l e h = leave-IsAwake l.quit_flag l e h
step_at-IsAwake queues (calling (f ∷ rest)) ready l e h =
    queue_all-IsAwake (queues f) _ refl record {
      order =
          append_assoc l.called (f ∷ []) (rest ++ l.pending_functors)
          ∙ order_at l (calling (f ∷ rest)) e h;
      awake = λ _. awake_at l (calling (f ∷ rest)) e h refl;
    }
step_at-IsAwake queues left ready l e h = h

handle_queue-IsAwake :
    (p : Phase) (l : EventLoop) (f : ℕ) → l.phase ≡ p → IsAwake l → IsAwake (handle_queue p l f)
unfolding queue_in_loop
handle_queue-IsAwake handling l f e h =
    wake_if-IsAwake (is_calling l.phase) l f (λ _. ap is_handling e) h
handle_queue-IsAwake polling l f e h = h
handle_queue-IsAwake (calling fs) l f e h = h
handle_queue-IsAwake left l f e h = h

handler_read-IsAwake :
    (p : Phase) (l : EventLoop) → l.phase ≡ p → IsAwake l → IsAwake (handler_read p l)
unfolding handle_read
handler_read-IsAwake handling l e h = record {
  order = h.order;
  awake = λ off. absurd (ground (arith, off, ap is_handling e));
}
handler_read-IsAwake polling l e h = h
handler_read-IsAwake (calling fs) l e h = h
handler_read-IsAwake left l e h = h

wake_owed-IsAwake :
    (b : Bool) (l : EventLoop)
    → ltb 0 l.owed ≡ b
    → IsAwake l
    → IsAwake (if b then wakeup (record l { owed = l.owed - 1 }) else l)
unfolding wakeup
wake_owed-IsAwake true l e h = record { order = h.order; awake = λ _ _. omega arith }
wake_owed-IsAwake false l e h = h

step-IsAwake :
    (queues : ℕ → List ℕ) (l : EventLoop) (e : Event) → IsAwake l → IsAwake (step queues l e)
unfolding step loop_step queue_outside wake_outside quit_outside
step-IsAwake queues l (steps ready) h = step_at-IsAwake queues l.phase ready l refl h
step-IsAwake queues l handler_reads h = handler_read-IsAwake l.phase l refl h
step-IsAwake queues l (handler_queues f) h = handle_queue-IsAwake l.phase l f refl h
step-IsAwake queues l (other_queues f) h = record {
  order = push-order l.called (batch l.phase) l.pending_functors l.queued f h.order;
  awake = λ _ _. omega arith;
}
step-IsAwake queues l other_wakes h = wake_owed-IsAwake (ltb 0 l.owed) l refl h
step-IsAwake queues l other_quits h = record { order = h.order; awake = λ _ _. omega arith }

run-keeps-IsAwake :
    (queues : ℕ → List ℕ) (l : EventLoop) (es : List Event) → IsAwake l → IsAwake (run queues l es)
unfolding run
run-keeps-IsAwake queues l [] h = h
run-keeps-IsAwake queues l (e ∷ es) h =
    run-keeps-IsAwake queues (step queues l e) es (step-IsAwake queues l e h)

-- However the thread of the loop, the handlers of channels and other threads take turns, and whatever
-- the functors queue themselves: the functors called, those taken out to be called and those that
-- wait are, in this order, exactly those that were queued, so that each is called at most once and
-- none before an earlier one. And when one waits while the loop does not run handlers, the eventfd is
-- readable or another thread is still to write to it: the loop does not sleep on a functor.
pub run-IsAwake : (queues : ℕ → List ℕ) (es : List Event) → IsAwake (run queues start es)
run-IsAwake queues es =
    run-keeps-IsAwake queues start es
      record { order = refl; awake = λ _ pos. absurd (omega (arith, pos)) }
