-- ===== src/Chat/SendQueue/Order.antt =====
-- Messages are written one at a time and in order, and the queue is bounded.
use mathlib.Core.Option.{some-injective}
use distributed_instant_mess.Base.{
  ℕ, suc, ◌≤◌, ◌≡◌, refl, sym, ap, ◌∙◌, inl, inr, Bool, true, false, List, [], ◌∷◌, ◌++◌, Option,
  none, some, ltb, if◌then◌else◌, length, arith, length-append, append-nil, append_assoc,
  Bool-cases,
}
use distributed_instant_mess.Chat.SendQueue.{
  Sender, Effect, writes, deals, init, send, handle_write, max_sendque,
}

-- A session and its socket: the bytes of the write that goes on, and those of the writes that ended.
pub record Link : Type 0 where
  pub sender : Sender
  pub going : Option (List ℕ)
  pub written : List (List ℕ)
  pub failed : Bool

-- A message is sent, or the write that goes on comes to its end.
pub data Event : Type 0 where
  sends : List ℕ → Event
  ends : Bool → Event

abbrev begun : List Effect → Option (List ℕ) → Option (List ℕ)
begun [] going = going
begun (writes xs ∷ es) going = begun es (some xs)
begun (deals ∷ es) going = begun es going

abbrev send_step : Link → List Effect × Sender → Link
send_step l (es, s) = record l { sender = s; going = begun es l.going }

abbrev end_step : Link → List ℕ → Bool → List Effect × Sender → Link
end_step l xs ok (es, s) = record {
  sender = s;
  going = begun es none;
  written = if ok then l.written ++ xs ∷ [] else l.written;
  failed = if ok then l.failed else true;
}

-- The socket completes a write only while one goes on.
abbrev ends_at : Option (List ℕ) → Link → Bool → Link
ends_at none l ok = l
ends_at (some xs) l ok = end_step l xs ok (handle_write l.sender ok)

unfoldable pub step : Link → Event → Link
step l (sends xs) = send_step l (send l.sender xs)
step l (ends ok) = ends_at l.going l ok

unfoldable pub run : Link → List Event → Link
run l [] = l
run l (e ∷ es) = run (step l e) es

unfoldable pub start : Link
start = record { sender = init; going = none; written = []; failed = false }

-- The messages that found room in the queue, in order.
abbrev accepted_at : Link → Event → List (List ℕ)
accepted_at l (sends xs) = if ltb max_sendque (length l.sender.queue) then [] else xs ∷ []
accepted_at l (ends ok) = []

unfoldable pub accepted : Link → List Event → List (List ℕ)
accepted l [] = []
accepted l (e ∷ es) = accepted_at l e ++ accepted (step l e) es

-- The front of the queue is what is being written. After an error nothing is.
abbrev Goes : List (List ℕ) → Bool → Option (List ℕ) → Type 0
Goes [] failed going = (going ≡ none) × (failed ≡ false)
Goes (xs ∷ rest) false going = going ≡ some xs
Goes (xs ∷ rest) true going = going ≡ none

pub record IsSound (l : Link) : Type 0 where
  pub bounded : length l.sender.queue ≤ suc max_sendque
  pub goes : Goes l.sender.queue l.failed l.going

record Keeps (l l' : Link) (more : List (List ℕ)) : Type 0 where
  sound : IsSound l'
  order : l'.written ++ l'.sender.queue ≡ (l.written ++ l.sender.queue) ++ more

-- The link with its parts in view.
abbrev link : List (List ℕ) → Bool → Option (List ℕ) → List (List ℕ) → Bool → Link
link queue closed going written failed = record {
  sender = record { queue = queue; closed = closed };
  going = going;
  written = written;
  failed = failed;
}

send_first-Keeps :
    (closed failed : Bool) (going : Option (List ℕ)) (written : List (List ℕ)) (xs : List ℕ)
    → let l = link [] closed going written failed in
      IsSound l → Keeps l (step l (sends xs)) (accepted_at l (sends xs))
unfolding step send
send_first-Keeps closed false going written xs v = record {
  sound = record { bounded = omega arith; goes = refl };
  order = rw (append-nil written) refl;
}
send_first-Keeps closed true going written xs v = cc (v.goes.1)

Goes-longer :
    (x : List ℕ) (q r : List (List ℕ)) (failed : Bool) (going : Option (List ℕ))
    → Goes (x ∷ q) failed going
    → Goes (x ∷ r) failed going
Goes-longer x q r false going h = h
Goes-longer x q r true going h = h

send_more-Keeps :
    (x : List ℕ) (q : List (List ℕ)) (closed failed : Bool) (going : Option (List ℕ))
    (written : List (List ℕ)) (xs : List ℕ)
    → let l = link (x ∷ q) closed going written failed in
      IsSound l → Keeps l (step l (sends xs)) (accepted_at l (sends xs))
unfolding step send
send_more-Keeps x q closed failed going written xs v =
    elim (Bool-cases (ltb max_sendque (length (x ∷ q)))) [
      | inl full ↦ rw full (record { sound = v; order = sym (append-nil (written ++ x ∷ q)) })
      | inr room ↦ rw room (
          let busy : ltb 0 (length (x ∷ q)) ≡ true = ground arith in
          rw busy (record {
            sound = record {
              bounded = ground (arith, room, length-append q (xs ∷ []));
              goes = Goes-longer x q (q ++ xs ∷ []) failed going v.goes;
            };
            order = sym (append_assoc written (x ∷ q) (xs ∷ []));
          }))
    ]

end-Keeps :
    (x : List ℕ) (q : List (List ℕ)) (closed failed ok : Bool) (going : Option (List ℕ))
    (written : List (List ℕ))
    → let l = link (x ∷ q) closed going written failed in IsSound l → Keeps l (step l (ends ok)) []
unfolding step handle_write
end-Keeps x q closed failed ok none written v = record {
  sound = v;
  order = sym (append-nil (written ++ x ∷ q));
}
end-Keeps x [] closed false true (some y) written v =
    let same : y ≡ x = some-injective y x v.goes in
    record { sound = record { bounded = omega arith; goes = (refl, refl) }; order = rw same refl }
end-Keeps x (z ∷ q) closed false true (some y) written v =
    let same : y ≡ x = some-injective y x v.goes in
    record {
      sound = record { bounded = omega (arith, v.bounded); goes = refl };
      order =
          rw same (append_assoc written (x ∷ []) (z ∷ q) ∙ sym (append-nil (written ++ x ∷ z ∷ q)));
    }
end-Keeps x q closed false false (some y) written v = record {
  sound = record { bounded = v.bounded; goes = refl };
  order = sym (append-nil (written ++ x ∷ q));
}
end-Keeps x q closed true ok (some y) written v = cc (v.goes)

end_first-Keeps :
    (closed failed ok : Bool) (going : Option (List ℕ)) (written : List (List ℕ))
    → let l = link [] closed going written failed in IsSound l → Keeps l (step l (ends ok)) []
unfolding step
end_first-Keeps closed failed ok none written v = record {
  sound = v;
  order = sym (append-nil (written ++ []));
}
end_first-Keeps closed failed ok (some y) written v = cc (v.goes.0)

link-Keeps :
    (q : List (List ℕ)) (closed failed : Bool) (going : Option (List ℕ)) (written : List (List ℕ))
    (e : Event)
    → let l = link q closed going written failed in IsSound l → Keeps l (step l e) (accepted_at l e)
link-Keeps [] closed failed going written (sends xs) v =
    send_first-Keeps closed failed going written xs v
link-Keeps (x ∷ q) closed failed going written (sends xs) v =
    send_more-Keeps x q closed failed going written xs v
link-Keeps [] closed failed going written (ends ok) v =
    end_first-Keeps closed failed ok going written v
link-Keeps (x ∷ q) closed failed going written (ends ok) v =
    end-Keeps x q closed failed ok going written v

step-Keeps : (l : Link) (e : Event) → IsSound l → Keeps l (step l e) (accepted_at l e)
step-Keeps l e v = link-Keeps l.sender.queue l.sender.closed l.failed l.going l.written e v

run-Keeps : (l : Link) (es : List Event) → IsSound l → Keeps l (run l es) (accepted l es)
unfolding run accepted
run-Keeps l [] v = record { sound = v; order = sym (append-nil (l.written ++ l.sender.queue)) }
run-Keeps l (e ∷ es) v =
    let s = step-Keeps l e v in
    let rest = run-Keeps (step l e) es s.sound in
    record {
      sound = rest.sound;
      order =
          rest.order
          ∙ ap (λ ms. ms ++ accepted (step l e) es) s.order
          ∙ append_assoc (l.written ++ l.sender.queue) (accepted_at l e) (accepted (step l e) es);
    }

-- However sends and completions of writes follow each other on a new session: the messages that are
-- written, followed by those in the queue, are the messages that found room, in order. The write that
-- goes on is that of the front of the queue, none goes on when the queue is empty or after an error,
-- and the queue holds at most 1001 messages.
pub run_writes_in_order :
    (es : List Event)
    → IsSound (run start es)
      × ((run start es).written ++ (run start es).sender.queue ≡ accepted start es)
unfolding start init
run_writes_in_order es =
    let k = run-Keeps start es (record { bounded = omega arith; goes = (refl, refl) }) in
    (k.sound, k.order)
