-- ===== src/Chat/Tests.antt =====
-- Runs of the chat server's sessions on small inputs.
mod Handlers
use distributed_instant_mess.Base.{◌==◌, Bool}
use distributed_instant_mess.Chat.LogicQueue
use distributed_instant_mess.Chat.LogicQueue.{Node, handled_by}
use distributed_instant_mess.Chat.LogicQueue.Order as Logic
use distributed_instant_mess.Chat.LogicQueue.Order.{
  IsAwake, run_handles_in_order, works, notifies_post,
}
use distributed_instant_mess.Base.{ℕ, ◌≡◌, true, false, List, [], ◌∷◌, ◌++◌, arith}
use distributed_instant_mess.Chat.Frame.{Message, IsSendable, frame, node_of, node_of-frame}
use distributed_instant_mess.Chat.Frame
use distributed_instant_mess.Chat.Reader.{reads, start}
use distributed_instant_mess.Chat.Reader.Delivery
use distributed_instant_mess.Chat.Reader.Delivery.{AllSendable, posted}
use distributed_instant_mess.Chat.Reader.Delivery.Whole.{wire, run_delivers}
use distributed_instant_mess.Chat.Reader.Bounds.{IsWithin, run-IsWithin}
use distributed_instant_mess.Chat.SendQueue.Order
use mathlib.Core.Option.{none-ne-some}
use distributed_instant_mess.Base.{none, some, refl, inl, inr, ap, sym, ◌∙◌}
use distributed_instant_mess.Base.Table.{assign}
use distributed_instant_mess.Chat.Registry
use distributed_instant_mess.Chat.Registry.{Registry, Op, accepts, clears, kicks, logs_in}
use distributed_instant_mess.Chat.Registry.Consistent.{IsConsistent}
use distributed_instant_mess.Chat.Registry.Runs.{
  AllAllowed, bound-cases, run-IsConsistent, login_again,
}
use distributed_instant_mess.Chat.SendQueue.Order.{
  Event, sends, ends, IsSound, accepted, run_writes_in_order,
}

abbrev two_messages : List Message
two_messages = record { id = 1005; text = 104 ∷ 105 ∷ [] } ∷ record { id = 7; text = [] } ∷ []

two_messages-AllSendable : AllSendable two_messages
two_messages-AllSendable = ((omega arith, omega arith), ((omega arith, omega arith), tt))

-- Pieces of one to four bytes.
abbrev pieces : List ℕ
pieces = 0 ∷ 1 ∷ 3 ∷ 0 ∷ 2 ∷ 0 ∷ 0 ∷ 1 ∷ 0 ∷ 0 ∷ 0 ∷ 0 ∷ 0 ∷ 0 ∷ 0 ∷ []

run_delivers_example :
    posted (Delivery.run true (reads start) (wire two_messages) pieces).0 ≡ two_messages
unfolding Frame.node_of Frame.send_node
run_delivers_example = run_delivers two_messages pieces two_messages-AllSendable (omega arith)

run-IsWithin_example :
    IsWithin (Delivery.run true (reads start) (0 ∷ 1 ∷ 255 ∷ 255 ∷ 9 ∷ []) (9 ∷ 9 ∷ [])).1
run-IsWithin_example = run-IsWithin true (0 ∷ 1 ∷ 255 ∷ 255 ∷ 9 ∷ []) (9 ∷ 9 ∷ [])

abbrev link_events : List Event
link_events = sends (1 ∷ []) ∷ sends (2 ∷ []) ∷ ends true ∷ sends (3 ∷ []) ∷ ends false ∷ []

run_writes_in_order_example :
    IsSound (Order.run Order.start link_events)
    × ((Order.run Order.start link_events).written
          ++ (Order.run Order.start link_events).sender.queue
        ≡ accepted Order.start link_events)
run_writes_in_order_example = run_writes_in_order link_events

-- Session 3 is that of user 42, and session 4 is of nobody.
abbrev two_sessions : Registry
two_sessions = record {
  sessions = assign (assign (λ _. false) 3 true) 4 true;
  uid_of = assign (λ _. 0) 3 42;
  user_session = assign (λ _. none) 42 (some 3);
}

two_sessions-IsConsistent : IsConsistent two_sessions
two_sessions-IsConsistent = record {
  alive = λ uid id h. elim (bound-cases (λ _. none) 42 3 uid id h) [
    | inl (own, e) ↦ ap two_sessions.sessions e
    | inr nobody ↦ absurd (none-ne-some id nobody)
  ];
  owner = λ uid id h. elim (bound-cases (λ _. none) 42 3 uid id h) [
    | inl (own, e) ↦ ap two_sessions.uid_of e ∙ sym own
    | inr nobody ↦ absurd (none-ne-some id nobody)
  ];
}

abbrev registry_ops : List Op
registry_ops = accepts 3 ∷ logs_in false 42 3 ∷ clears 3 ∷ kicks 42 ∷ []

registry_ops-AllAllowed : AllAllowed Registry.init registry_ops
unfolding Registry.init Registry.step Registry.handle_accept
registry_ops-AllAllowed =
    AllAllowed.cons (λ uid h. none-ne-some 3 h)
      (AllAllowed.cons (refl, λ uid h. none-ne-some 3 h)
        (AllAllowed.cons tt (AllAllowed.cons tt AllAllowed.nil)))

run-IsConsistent_example : IsConsistent (Registry.run Registry.init registry_ops)
run-IsConsistent_example = run-IsConsistent registry_ops registry_ops-AllAllowed

login_again_example :
    ((Registry.login two_sessions true 42 3).user_session 42 ≡ some 3)
    × (Registry.check_valid (Registry.login two_sessions true 42 3) 3 ≡ false)
login_again_example = login_again two_sessions 42 3 two_sessions-IsConsistent refl

-- Only 1005 has a handler.
abbrev known_id : ℕ → Bool
known_id id = id == 1005

abbrev logic_events : List Logic.Event
logic_events =
    works
    ∷ works
    ∷ Logic.posts (record { id = 1005; content = 1 })
    ∷ Logic.posts (record { id = 9; content = 2 })
    ∷ notifies_post
    ∷ works
    ∷ []

run_handles_in_order_example :
    IsAwake (Logic.run known_id LogicQueue.init logic_events).1
    × ((Logic.run known_id LogicQueue.init logic_events).0
          ++ handled_by known_id (Logic.run known_id LogicQueue.init logic_events).1.queue
        ≡ handled_by known_id (Logic.posted known_id LogicQueue.init logic_events))
run_handles_in_order_example = run_handles_in_order known_id logic_events
