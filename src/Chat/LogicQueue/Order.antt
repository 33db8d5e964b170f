-- ===== src/Chat/LogicQueue/Order.antt =====
-- No message is lost, and no wake-up.
use distributed_instant_mess.Base.{
  ℕ, ◌+◌, ◌-◌, ◌<◌, ◌≡◌, ◌⊎◌, refl, sym, ap, ◌∙◌, inl, inr, Bool, true, false, List, [], ◌∷◌, ◌++◌,
  ◌==◌, if◌then◌else◌, arith, length, append-nil, append_assoc, Bool-cases,
}
use distributed_instant_mess.Chat.LogicQueue.{
  Worker, testing, holding, asleep, done, Node, Logic, init, notify, locked, post_msg_to_que,
  notify_posted, set_stop, notify_stop, handled_by, deal_msg, work,
}

pub data Event : Type 0 where
  posts : Node → Event
  notifies_post sets_stop notifies works : Event

unfoldable pub step : (ℕ → Bool) → Logic → Event → List Node × Logic
step known l (posts m) = ([], post_msg_to_que l m)
step known l notifies_post = ([], notify_posted l)
step known l sets_stop = ([], set_stop l)
step known l notifies = ([], notify_stop l)
step known l works = work known l

-- The messages whose handlers ran, and the state after.
unfoldable pub run : (ℕ → Bool) → Logic → List Event → List Node × Logic
run known l [] = ([], l)
run known l (e ∷ es) =
    let (ms, l') = step known l e in let (ns, last) = run known l' es in (ms ++ ns, last)

-- The messages that were pushed: a caller who has to wait for the lock has not pushed yet.
abbrev pub posted_at : Logic → Event → List Node
posted_at l (posts m) = if locked l.worker then [] else m ∷ []
posted_at l _ = []

unfoldable pub posted : (ℕ → Bool) → Logic → List Event → List Node
posted known l [] = []
posted known l (e ∷ es) = posted_at l e ++ posted known (step known l e).1 es

-- A worker that is about to sleep has no message waiting; for one that sleeps, none waits or a post is
-- still to notify it.
abbrev pub Rests : Worker → List Node → ℕ → Type 0
Rests holding queue owed = queue ≡ []
Rests asleep queue owed = (queue ≡ []) ⊎ (0 < owed)
Rests _ queue owed = Unit {0}

pub IsAwake : Logic → Type 0
IsAwake l = Rests l.worker l.queue l.owed

handled-append :
    (known : ℕ → Bool) (ms ns : List Node)
    → handled_by known (ms ++ ns) ≡ handled_by known ms ++ handled_by known ns
handled-append known [] ns = refl
handled-append known (m ∷ ms) ns = elim (Bool-cases (known m.id)) [
  | inl found ↦ rw found (ap (◌∷◌ m) (handled-append known ms ns))
  | inr no_handler ↦ rw no_handler (handled-append known ms ns)
]

-- A step: the handlers that ran, and those that will run for what waits, are the old ones and the new.
record Keeps (known : ℕ → Bool) (l : Logic) (more : List Node) (out : List Node × Logic)
    : Type 0 where
  awake : Rests out.1.worker out.1.queue out.1.owed
  order : out.0 ++ handled_by known out.1.queue ≡ handled_by known l.queue ++ handled_by known more

after_push-Rests :
    (w : Worker) (q : List Node) (m : Node) (n : ℕ)
    → locked w ≡ false
    → Rests w q n
    → Rests w (q ++ m ∷ []) (if length (q ++ m ∷ []) == 1 then n + 1 else n)
after_push-Rests testing q m n free h = tt
after_push-Rests holding q m n free h = cc free
after_push-Rests asleep q m n free (inl e) = rw e (inr (omega arith))
after_push-Rests asleep q m n free (inr pos) = elim (Bool-cases (length (q ++ m ∷ []) == 1)) [
  | inl one ↦ rw one (inr (omega arith))
  | inr more ↦ rw more (inr pos)
]
after_push-Rests done q m n free h = tt

notify-Rests : (w : Worker) (q : List Node) (n k : ℕ) → Rests w q n → Rests (notify w) q k
notify-Rests testing q n k h = tt
notify-Rests holding q n k h = h
notify-Rests asleep q n k h = tt
notify-Rests done q n k h = tt

post-Keeps :
    (known : ℕ → Bool) (l : Logic) (m : Node)
    → Rests l.worker l.queue l.owed
    → Keeps known l (posted_at l (posts m)) ([], post_msg_to_que l m)
unfolding post_msg_to_que
post-Keeps known l m h = elim (Bool-cases (locked l.worker)) [
  | inl busy ↦ rw busy (record { awake = h; order = sym (append-nil (handled_by known l.queue)) })
  | inr free ↦ rw free (record {
    awake = after_push-Rests l.worker l.queue m l.owed free h;
    order = handled-append known l.queue (m ∷ []);
  })
]

abbrev logic : List Node → Bool → Worker → ℕ → Logic
logic q stop w n = record { queue = q; stop = stop; worker = w; owed = n }

notify_posted-Keeps :
    (known : ℕ → Bool) (l : Logic)
    → Rests l.worker l.queue l.owed
    → Keeps known l [] ([], notify_posted l)
unfolding notify_posted
notify_posted-Keeps known l h =
    let same = sym (append-nil (handled_by known l.queue)) in
    elim (Bool-cases (l.owed == 0)) [
      | inl none_owed ↦ rw none_owed (record { awake = h; order = same })
      | inr owed ↦
          rw owed
            (record { awake = notify-Rests l.worker l.queue l.owed (l.owed - 1) h; order = same })
    ]

deal-Keeps :
    (known : ℕ → Bool) (stop : Bool) (q : List Node) (n : ℕ)
    → let l = logic q stop testing n in Keeps known l [] (deal_msg known l)
unfolding deal_msg
deal-Keeps known true q n = record { awake = tt; order = refl }
deal-Keeps known false [] n = record { awake = refl; order = refl }
deal-Keeps known false (m ∷ q) n = record {
  awake = tt;
  order = sym (handled-append known (m ∷ []) q) ∙ sym (append-nil (handled_by known (m ∷ q)));
}

work-Keeps :
    (known : ℕ → Bool) (w : Worker) (stop : Bool) (q : List Node) (n : ℕ)
    → Rests w q n
    → let l = logic q stop w n in Keeps known l [] (work known l)
unfolding work
work-Keeps known testing stop q n h = deal-Keeps known stop q n
work-Keeps known holding stop q n h = record {
  awake = inl h;
  order = sym (append-nil (handled_by known q));
}
work-Keeps known asleep stop q n h = record {
  awake = h;
  order = sym (append-nil (handled_by known q));
}
work-Keeps known done stop q n h = record {
  awake = h;
  order = sym (append-nil (handled_by known q));
}

step-Keeps :
    (known : ℕ → Bool) (l : Logic) (e : Event)
    → Rests l.worker l.queue l.owed
    → Keeps known l (posted_at l e) (step known l e)
unfolding step set_stop notify_stop
step-Keeps known l (posts m) h = post-Keeps known l m h
step-Keeps known l notifies_post h = notify_posted-Keeps known l h
step-Keeps known l sets_stop h = record {
  awake = h;
  order = sym (append-nil (handled_by known l.queue));
}
step-Keeps known l notifies h = record {
  awake = notify-Rests l.worker l.queue l.owed l.owed h;
  order = sym (append-nil (handled_by known l.queue));
}
step-Keeps known l works h = work-Keeps known l.worker l.stop l.queue l.owed h

run-Keeps :
    (known : ℕ → Bool) (l : Logic) (es : List Event)
    → Rests l.worker l.queue l.owed
    → Keeps known l (posted known l es) (run known l es)
unfolding run posted
run-Keeps known l [] h = record { awake = h; order = sym (append-nil (handled_by known l.queue)) }
run-Keeps known l (e ∷ es) h =
    let s = step-Keeps known l e h in
    let rest = run-Keeps known (step known l e).1 es s.awake in
    let more = posted known (step known l e).1 es in
    record {
      awake = rest.awake;
      order =
          append_assoc (step known l e).0 (run known (step known l e).1 es).0
            (handled_by known (run known (step known l e).1 es).1.queue)
          ∙ ap (◌++◌ (step known l e).0) rest.order
          ∙ sym (
              append_assoc (step known l e).0 (handled_by known (step known l e).1.queue)
                (handled_by known more))
          ∙ ap (λ ms. ms ++ handled_by known more) s.order
          ∙ append_assoc (handled_by known l.queue) (handled_by known (posted_at l e))
              (handled_by known more)
          ∙ ap (◌++◌ (handled_by known l.queue)) (sym (handled-append known (posted_at l e) more));
    }

-- However pushes, the notifications behind them, the statements of the destructor and the worker take
-- turns: the handlers that ran, followed by those of the messages that wait, are those of the messages
-- that were pushed, in order; a worker that is about to sleep has no message waiting; and when one
-- sleeps while a message waits, a post is still to notify it: no wake-up of a post is lost.
pub run_handles_in_order :
    (known : ℕ → Bool) (es : List Event)
    → IsAwake (run known init es).1
      × ((run known init es).0 ++ handled_by known (run known init es).1.queue
          ≡ handled_by known (posted known init es))
unfolding init IsAwake
run_handles_in_order known es = let k = run-Keeps known init es tt in (k.awake, k.order)
