-- ===== src/Chat/Reader/Delivery/Whole.antt =====
-- Whole runs of a session that reads.
use distributed_instant_mess.Base.{
  ℕ, ◌+◌, ◌*◌, ◌≤◌, ◌≡◌, refl, sym, ap, subst, ◌∙◌, inl, inr, Option, none, some, true, List, [],
  ◌∷◌, ◌++◌, append-nil, append_assoc, arith, length, take, drop, length-append, nil_of_length,
}
use distributed_instant_mess.Chat.Frame.{Message, node_of, node_of-frame}
use distributed_instant_mess.Chat.Reader.{Reader, Effect, reads, start, total, on_read}
use distributed_instant_mess.Chat.Reader.Delivery.{
  run, posted, posted-append, delivered, frames, AllSendable, Awaits, in_head, in_body, left,
  on_read-Delivers, delivered-Piece,
}

Awaits-bound :
    (r : Reader) (stream : List ℕ) (ms : List Message)
    → Awaits r stream ms
    → length r.got ≤ total r.phase
Awaits-bound r stream ms (in_head e l s a) = omega (arith, l, ap total e)
Awaits-bound r stream _ (in_body m e l s a) = omega (arith, l, ap total e)

Awaits-none :
    (r : Reader) (stream : List ℕ) (ms : List Message)
    → Awaits r stream ms
    → left r.phase stream ms ≤ 0
    → ms ≡ []
Awaits-none r stream ms (in_head e l s a) h =
    nil_of_length ms (omega (arith, subst (λ ph. left ph stream ms ≤ 0) e h))
Awaits-none r stream _ (in_body m {ms} e l s a) h =
    absurd (omega (arith, subst (λ ph. left ph stream (m ∷ ms) ≤ 0) e h))

-- What a run comes to: messages posted, and messages not posted yet.
record Posts (r : Reader) (stream ks : List ℕ) (ms : List Message) (out : List Effect)
    : Type 0 where
  rest : List Message
  in_order : posted out ++ rest ≡ ms
  none_left : left r.phase stream ms ≤ length ks → rest ≡ []

run-Posts :
    (r : Reader) (stream ks : List ℕ) (ms : List Message)
    → Awaits r stream ms
    → Posts r stream ks ms (run true (reads r) stream ks).0
unfolding run
run-Posts r stream [] ms w = record {
  rest = ms;
  in_order = refl;
  none_left = Awaits-none r stream ms w;
}
run-Posts r stream (k ∷ ks) ms w =
    let d =
      on_read-Delivers r stream (take (delivered r k) stream) (drop (delivered r k) stream) ms
        (delivered-Piece r stream k (Awaits-bound r stream ms w)) w in
    let later = run-Posts d.reader (drop (delivered r k) stream) ks d.coming d.awaits in
    let es = (on_read true r (take (delivered r k) stream)).0 in
    let fs = (run true (reads d.reader) (drop (delivered r k) stream) ks).0 in
    let whole : posted (es ++ fs) ++ later.rest ≡ ms = rw (posted-append es fs) (
      append_assoc (posted es) (posted fs) later.rest
      ∙ ap (◌++◌ (posted es)) later.in_order
      ∙ d.splits) in
    rw (d.goes_on) (record {
      rest = later.rest;
      in_order = whole;
      none_left = λ h. elim d.less [
        | inl nothing ↦ nil_of_length later.rest (
            omega (
              arith,
              length-append (posted (es ++ fs)) later.rest,
              ap length whole,
              ap length nothing,
            ))
        | inr less ↦ later.none_left (omega (arith, less, h))
      ];
    })

-- The bytes that `async_write` is given for messages that are sent one after the other.
abbrev node_bytes : Option (List ℕ) → List ℕ
node_bytes none = []
node_bytes (some xs) = xs

abbrev pub wire : List Message → List ℕ
wire [] = []
wire (m ∷ ms) = node_bytes (node_of m) ++ wire ms

wire-frames : (ms : List Message) → AllSendable ms → wire ms ≡ frames ms
wire-frames [] a = refl
wire-frames (m ∷ ms) a = rw (node_of-frame m a.0, wire-frames ms a.1) refl

-- However the network cuts the bytes of the messages, what a session has posted at any time is a
-- first part of the messages, in order. Ids and lengths are at most 2048.
pub run_posts_in_order :
    (ms : List Message) (ks : List ℕ)
    → AllSendable ms
    → (rest : List Message) × (posted (run true (reads start) (wire ms) ks).0 ++ rest ≡ ms)
run_posts_in_order ms ks a =
    let d = run-Posts start (frames ms) ks ms (in_head refl (omega arith) refl a) in
    rw (wire-frames ms a) (d.rest, d.in_order)

-- However the network cuts the bytes of the messages, as soon as there were as many completions as
-- there are bytes, and two more for each message, a session has posted exactly the messages, in
-- order. Ids and lengths are at most 2048.
pub run_delivers :
    (ms : List Message) (ks : List ℕ)
    → AllSendable ms
    → length (wire ms) + 2 * length ms ≤ length ks
    → posted (run true (reads start) (wire ms) ks).0 ≡ ms
run_delivers ms ks a = rw (wire-frames ms a) (λ h.
    let d = run-Posts start (frames ms) ks ms (in_head refl (omega arith) refl a) in
    sym (append-nil (posted (run true (reads start) (frames ms) ks).0))
    ∙ ap (◌++◌ (posted (run true (reads start) (frames ms) ks).0)) (sym (d.none_left h))
    ∙ d.in_order)
