-- ===== src/Chat/Reader/Delivery.antt =====
-- Whatever pieces the network cuts the bytes into, the session posts the messages that were sent.
pub mod Whole
use distributed_instant_mess.Base.{
  ℕ, ◌+◌, ◌-◌, ◌*◌, ◌≤◌, ◌<◌, ◌≡◌, refl, sym, ap, subst, ◌∙◌, ◌⊎◌, inl, inr, Option, none, some,
  Bool, true, false, List, [], ◌∷◌, ◌++◌, min, suc, append-nil, append_assoc, arith, length, take,
  drop, leb, ltb, Bool-cases, take-append-drop, length-take, length-drop, length-append, append_inj,
  nil_of_length,
}
use distributed_instant_mess.Chat.Frame.{
  Message, IsSendable, frame, node_of, node_of-frame, to_network, from_network, head_total_len,
  max_length,
}
use distributed_instant_mess.Chat.Reader.{
  Phase, head, body, Reader, Effect, posts, clears, closes, deals, Next, reads, stops, start, total,
  read_body, after_head, after_body, after, on_read,
}

-- How many bytes `async_read_some` delivers at most: what the session asks for, or `suc k` if the
-- network has no more.
abbrev pub delivered : Reader → ℕ → ℕ
delivered r k = min (suc k) (total r.phase - length r.got)

-- The bytes of a stream come in pieces; each piece is a completion.
unfoldable pub run : Bool → Next → List ℕ → List ℕ → List Effect × Next
run valid next stream [] = ([], next)
run valid (reads r) stream (k ∷ ks) =
    let (es, next) = on_read valid r (take (delivered r k) stream) in
    let (fs, last) = run valid next (drop (delivered r k) stream) ks in (es ++ fs, last)
run valid next stream (k ∷ ks) = ([], next)

abbrev pub posted : List Effect → List Message
posted [] = []
posted (posts m ∷ es) = m ∷ posted es
posted (_ ∷ es) = posted es

pub posted-append : (es fs : List Effect) → posted (es ++ fs) ≡ posted es ++ posted fs
posted-append [] fs = refl
posted-append (posts m ∷ es) fs = ap (◌∷◌ m) (posted-append es fs)
posted-append (clears ∷ es) fs = posted-append es fs
posted-append (closes ∷ es) fs = posted-append es fs
posted-append (deals ∷ es) fs = posted-append es fs

-- The bytes of messages that are sent one after the other.
abbrev pub frames : List Message → List ℕ
frames [] = []
frames (m ∷ ms) = frame m ++ frames ms

abbrev pub AllSendable : List Message → Type 0
AllSendable [] = Unit {0}
AllSendable (m ∷ ms) = IsSendable m × AllSendable ms

-- What a session has read, and what is on the way to it, is these messages.
pub data Awaits (r : Reader) (stream : List ℕ) : List Message → Type 0 where
  in_head :
      {ms : List Message}
      → r.phase ≡ head
      → length r.got ≤ head_total_len
      → r.got ++ stream ≡ frames ms
      → AllSendable ms
      → Awaits r stream ms
  in_body :
      (m : Message) {ms : List Message}
      → r.phase ≡ body m.id (length m.text)
      → length r.got ≤ length m.text
      → r.got ++ stream ≡ m.text ++ frames ms
      → AllSendable ms
      → Awaits r stream (m ∷ ms)

-- How many more completions are needed at most.
abbrev pub left : Phase → List ℕ → List Message → ℕ
left head stream ms = length stream + 2 * length ms
left (body id len) stream ms = length stream + 2 * length ms - 1

-- One completion: the messages that it posts, and those that are still to come.
pub record Delivers (r : Reader) (stream rest : List ℕ) (ms : List Message)
    (out : List Effect × Next) : Type 0 where
  pub reader : Reader
  pub goes_on : out.1 ≡ reads reader
  pub coming : List Message
  pub awaits : Awaits reader rest coming
  pub splits : posted out.0 ++ coming ≡ ms
  pub less : (ms ≡ []) ⊎ (left reader.phase rest coming < left r.phase stream ms)

-- A piece: what was there before the cut, and how long it is.
pub record Piece (r : Reader) (stream : List ℕ) (xs rest : List ℕ) : Type 0 where
  cut : xs ++ rest ≡ stream
  fits : length r.got + length xs ≤ total r.phase
  some_bytes : (length rest < length stream) ⊎ ((stream ≡ []) ⊎ (total r.phase ≤ length r.got))

pub delivered-Piece :
    (r : Reader) (stream : List ℕ) (k : ℕ)
    → length r.got ≤ total r.phase
    → Piece r stream (take (delivered r k) stream) (drop (delivered r k) stream)
delivered-Piece r [] k h = record {
  cut = take-append-drop (delivered r k) [];
  fits = omega (arith, length-take {A = ℕ} (delivered r k) []);
  some_bytes = inr (inl refl);
}
delivered-Piece r (x ∷ xs) k h = record {
  cut = take-append-drop (delivered r k) (x ∷ xs);
  fits = omega (arith, length-take (delivered r k) (x ∷ xs));
  some_bytes = ground (arith, length-drop (delivered r k) (x ∷ xs));
}

frames-nil : (ms : List Message) → length (frames ms) < head_total_len → ms ≡ []
frames-nil [] h = refl
frames-nil (m ∷ ms) h = absurd (omega (arith, length-append (frame m) (frames ms)))

-- A piece that does not complete what is being read.
partial-Delivers :
    (r : Reader) (stream xs rest : List ℕ) (ms : List Message)
    → Piece r stream xs rest
    → Awaits r stream ms
    → leb (total r.phase) (length (r.got ++ xs)) ≡ false
    → Delivers r stream rest ms ([], reads (record r { got = r.got ++ xs }))
partial-Delivers r stream xs rest ms p (in_head e l s a) short =
    let few : length (r.got ++ xs) < total r.phase = ground (arith, short) in
    record {
      reader = record r { got = r.got ++ xs };
      goes_on = refl;
      coming = ms;
      awaits =
          in_head e (omega (arith, length-append r.got xs, p.fits, ap total e))
            (append_assoc r.got xs rest ∙ ap (◌++◌ r.got) p.cut ∙ s) a;
      splits = refl;
      less = elim p.some_bytes [
        | inl fewer ↦ inr (rw e (omega (arith, fewer)))
        | inr (inl none_left) ↦ inl (
            frames-nil ms (
              omega (
                arith,
                ap length s,
                length-append r.got stream,
                ap length none_left,
                few,
                length-append r.got xs,
                ap total e,
              )))
        | inr (inr enough) ↦ absurd (omega (arith, few, length-append r.got xs))
      ];
    }
partial-Delivers r stream xs rest _ p (in_body m {ms} e l s a) short =
    let few : length (r.got ++ xs) < total r.phase = ground (arith, short) in
    record {
      reader = record r { got = r.got ++ xs };
      goes_on = refl;
      coming = m ∷ ms;
      awaits =
          in_body m e (omega (arith, length-append r.got xs, p.fits, ap total e))
            (append_assoc r.got xs rest ∙ ap (◌++◌ r.got) p.cut ∙ s) a;
      splits = refl;
      less = elim p.some_bytes [
        | inl fewer ↦ inr (rw e (omega (arith, fewer)))
        | inr (inl none_left) ↦ absurd (
            omega (
              arith,
              ap length s,
              length-append r.got stream,
              length-append m.text (frames ms),
              ap length none_left,
              few,
              length-append r.got xs,
              ap total e,
            ))
        | inr (inr enough) ↦ absurd (omega (arith, few, length-append r.got xs))
      ];
    }

from_to_network : (n : ℕ) → n ≤ max_length → from_network (to_network n) ≡ n
from_to_network n h = omega arith

after_head-frame :
    (m : Message)
    → IsSendable m
    → after_head true (to_network m.id ++ to_network (length m.text))
      ≡ ([], reads (record { phase = body m.id (length m.text); got = [] }))
unfolding after_head read_body
after_head-frame m h =
    let i = from_to_network m.id h.0 in
    let l = from_to_network (length m.text) h.1 in rw (i, l) (ground arith)

-- A header that is complete is taken for what it says.
head-Delivers :
    (r : Reader) (stream rest all : List ℕ) (ms : List Message)
    → r.phase ≡ head
    → length all ≡ head_total_len
    → length rest ≤ length stream
    → all ++ rest ≡ frames ms
    → AllSendable ms
    → Delivers r stream rest ms (after_head true all)
head-Delivers r stream rest all [] e l le s a =
    absurd (omega (arith, ap length s, length-append all rest))
head-Delivers r stream rest all (m ∷ ms) e l le s a =
    let (read, coming) =
      append_inj all {zs = to_network m.id ++ to_network (length m.text)} {ws = m.text ++ frames ms}
        l s in
    rw (read, after_head-frame m a.0)
      (record {
        reader = record { phase = body m.id (length m.text); got = [] };
        goes_on = refl;
        coming = m ∷ ms;
        awaits = in_body m refl (omega arith) coming a.1;
        splits = refl;
        less = inr (rw e (omega arith));
      })

-- A body that is complete is posted.
body-Delivers :
    (r : Reader) (stream rest all : List ℕ) (m : Message) (ms : List Message)
    → r.phase ≡ body m.id (length m.text)
    → length all ≡ length m.text
    → length rest ≤ length stream
    → all ++ rest ≡ m.text ++ frames ms
    → AllSendable ms
    → Delivers r stream rest (m ∷ ms) (after_body true m.id (length m.text) all)
unfolding after_body
body-Delivers r stream rest all m ms e l le s a =
    let (read, coming) = append_inj all {zs = m.text} {ws = frames ms} l s in
    let whole : ltb (length all) (length m.text) ≡ false = ground arith in
    rw whole (record {
      reader = start;
      goes_on = refl;
      coming = ms;
      awaits = in_head refl (omega arith) coming a;
      splits = ap (λ t. record { id = m.id; text = t } ∷ ms) read;
      less = inr (rw e (omega arith));
    })

full-Delivers :
    (r : Reader) (stream xs rest : List ℕ) (ms : List Message)
    → Piece r stream xs rest
    → Awaits r stream ms
    → leb (total r.phase) (length (r.got ++ xs)) ≡ true
    → Delivers r stream rest ms (after true r.phase (r.got ++ xs))
full-Delivers r stream xs rest ms p (in_head e l s a) full =
    let enough : total r.phase ≤ length (r.got ++ xs) = ground (arith, full) in
    subst (λ ph. Delivers r stream rest ms (after true ph (r.got ++ xs))) (sym e)
      (head-Delivers r stream rest (r.got ++ xs) ms e
        (omega (arith, enough, p.fits, length-append r.got xs, ap total e))
        (omega (arith, ap length p.cut, length-append xs rest))
        (append_assoc r.got xs rest ∙ ap (◌++◌ r.got) p.cut ∙ s) a)
full-Delivers r stream xs rest _ p (in_body m {ms} e l s a) full =
    let enough : total r.phase ≤ length (r.got ++ xs) = ground (arith, full) in
    subst (λ ph. Delivers r stream rest (m ∷ ms) (after true ph (r.got ++ xs))) (sym e)
      (body-Delivers r stream rest (r.got ++ xs) m ms e
        (omega (arith, enough, p.fits, length-append r.got xs, ap total e))
        (omega (arith, ap length p.cut, length-append xs rest))
        (append_assoc r.got xs rest ∙ ap (◌++◌ r.got) p.cut ∙ s) a)

pub on_read-Delivers :
    (r : Reader) (stream xs rest : List ℕ) (ms : List Message)
    → Piece r stream xs rest
    → Awaits r stream ms
    → Delivers r stream rest ms (on_read true r xs)
unfolding on_read
on_read-Delivers r stream xs rest ms p w =
    elim (Bool-cases (leb (total r.phase) (length (r.got ++ xs)))) [
      | inl full ↦ rw full (full-Delivers r stream xs rest ms p w full)
      | inr short ↦ rw short (partial-Delivers r stream xs rest ms p w short)
    ]
