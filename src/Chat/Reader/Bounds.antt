-- ===== src/Chat/Reader/Bounds.antt =====
-- What a session reads stays inside its array, whatever bytes come.
use distributed_instant_mess.Base.{
  ℕ, ◌≤◌, ◌≡◌, ◌⊎◌, Bool, List, [], ◌∷◌, ◌++◌, arith, length, take, drop, leb, Bool-cases, inl, inr,
}
use distributed_instant_mess.Chat.Frame.{max_length}
use distributed_instant_mess.Chat.Reader.{
  Phase, head, body, Reader, Next, reads, stops, start, total, read_body, size_max, after_head,
  after_body, after, on_read,
}
use distributed_instant_mess.Chat.Reader.Delivery.{run, delivered}

-- The bytes that are there and those that are asked for fit into `_data`.
abbrev pub Fits : Reader → Type 0
Fits r = (length r.got ≤ total r.phase) × (total r.phase ≤ max_length)

-- It reads the body of a message of the length -1.
abbrev pub IsEndless : Phase → Type 0
IsEndless head = ⊥
IsEndless (body id len) = len ≡ size_max

abbrev pub IsWithin : Next → Type 0
IsWithin (reads r) = Fits r ⊎ IsEndless r.phase
IsWithin stops = Unit {0}

after_head-IsWithin : (valid : Bool) (all : List ℕ) → IsWithin (after_head valid all).1
unfolding after_head read_body
after_head-IsWithin valid all = ground arith

after_body-IsWithin :
    (valid : Bool) (id len : ℕ) (all : List ℕ) → IsWithin (after_body valid id len all).1
unfolding after_body
after_body-IsWithin valid id len all = ground arith

after-IsWithin : (valid : Bool) (p : Phase) (all : List ℕ) → IsWithin (after valid p all).1
after-IsWithin valid head all = after_head-IsWithin valid all
after-IsWithin valid (body id len) all = after_body-IsWithin valid id len all

on_read-IsWithin :
    (valid : Bool) (r : Reader) (xs : List ℕ)
    → Fits r ⊎ IsEndless r.phase
    → IsWithin (on_read valid r xs).1
unfolding on_read
on_read-IsWithin valid r xs f = elim (Bool-cases (leb (total r.phase) (length (r.got ++ xs)))) [
  | inl full ↦ rw full (after-IsWithin valid r.phase (r.got ++ xs))
  | inr short ↦ rw short (elim f [ inl fits ↦ inl (ground (arith, short, fits)) | inr e ↦ inr e ])
]

run_next-IsWithin :
    (valid : Bool) (next : Next) (stream ks : List ℕ)
    → IsWithin next
    → IsWithin (run valid next stream ks).1
unfolding run
run_next-IsWithin valid next stream [] f = f
run_next-IsWithin valid (reads r) stream (k ∷ ks) f =
    run_next-IsWithin valid (on_read valid r (take (delivered r k) stream)).1
      (drop (delivered r k) stream) ks (on_read-IsWithin valid r (take (delivered r k) stream) f)
run_next-IsWithin valid stops stream (k ∷ ks) f = f

-- Whatever bytes a client sends, as long as a session goes on reading, the bytes that it holds and
-- those that it asks for fit together into its array of 2048 bytes, unless it reads the body of a
-- message whose header gave the length -1, for which it asks for 2 ^ 64 - 1 bytes.
pub run-IsWithin :
    (valid : Bool) (stream ks : List ℕ) → IsWithin (run valid (reads start) stream ks).1
run-IsWithin valid stream ks = run_next-IsWithin valid (reads start) stream ks (inl (omega arith))
