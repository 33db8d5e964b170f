-- ===== src/Net/Buffer/Queue.antt =====
-- A buffer against its specification, a queue of bytes.
use distributed_instant_mess.Base.{
  ℕ, ◌+◌, ◌≤◌, ◌<◌, ◌≡◌, refl, List, [], ◌∷◌, ◌++◌, arith, length, take, drop,
}
use distributed_instant_mess.Net.Buffer.{
  Buffer, bytes, retrieve, retrieve_as_string, append, read_fd,
}
use distributed_instant_mess.Net.Buffer.Refine.{
  max_size, IsValid, contents, length-contents, retrieve-IsValid, contents-retrieve, append-lem,
  length-retrieve, retrieve_as_string-lem, read_fd-lem,
}

-- The calls that a user of a buffer makes. `receive` is a `readFd` for which the kernel has these
-- bytes.
pub data Op : Type 0 where
  put : List ℕ → Op
  skip : ℕ → Op
  get : ℕ → Op
  receive : List ℕ → Op

-- Each call, with the bytes that it returns.
unfoldable pub step : Buffer → Op → List ℕ × Buffer
step b (put xs) = ([], append b xs)
step b (skip n) = ([], retrieve b n)
step b (get n) = retrieve_as_string b n
step b (receive xs) = ([], (read_fd b (λ _. bytes xs)).1)

pub run : Buffer → List Op → List (List ℕ)
run b [] = []
run b (op ∷ ops) = let (out, b') = step b op in out ∷ run b' ops

-- The same calls on a queue.
unfoldable pub step_queue : List ℕ → Op → List ℕ × List ℕ
step_queue q (put xs) = ([], q ++ xs)
step_queue q (skip n) = ([], drop n q)
step_queue q (get n) = (take n q, drop n q)
step_queue q (receive xs) = ([], q ++ xs)

pub run_queue : List ℕ → List Op → List (List ℕ)
run_queue q [] = []
run_queue q (op ∷ ops) = let (out, q') = step_queue q op in out ∷ run_queue q' ops

-- Nobody asks `retrieveAsString` for more than is readable.
abbrev pub Asks : List ℕ → Op → Type 0
Asks q (get n) = n ≤ length q
Asks q _ = Unit {0}

pub data Permitted : List ℕ → List Op → Type 0 where
  nil : {q : List ℕ} → Permitted q []
  cons :
      {q : List ℕ} {op : Op} {ops : List Op}
      → Asks q op
      → Permitted (step_queue q op).1 ops
      → Permitted q (op ∷ ops)

-- How many bytes the calls bring in.
abbrev pub incoming : Op → ℕ
incoming (put xs) = length xs
incoming (receive xs) = length xs
incoming _ = 0

abbrev pub total : List Op → ℕ
total [] = 0
total (op ∷ ops) = incoming op + total ops

record Steps (b : Buffer) (op : Op) : Type 0 where
  out : (step b op).0 ≡ (step_queue (contents b) op).0
  valid : IsValid (step b op).1
  holds : contents (step b op).1 ≡ (step_queue (contents b) op).1
  grows : length (step b op).1.buffer ≤ length b.buffer + incoming op

step-Steps :
    {b : Buffer} (op : Op)
    → IsValid b
    → Asks (contents b) op
    → length b.buffer + incoming op < max_size
    → Steps b op
unfolding step step_queue
step-Steps (put xs) v a k = ground (arith, append-lem v xs k)
step-Steps {b} (skip n) v a k =
    ground (arith, retrieve-IsValid v n, contents-retrieve v n, length-retrieve b n)
step-Steps {b} (get n) v a k = ground (arith, retrieve_as_string-lem v n, length-contents v)
step-Steps (receive xs) v a k = ground (arith, read_fd-lem v (λ _. bytes xs) xs refl k)

-- No sequence of calls tells a valid buffer from the queue of its readable bytes, as long as the
-- bytes that it is given fit in memory.
pub run_refines :
    (b : Buffer) (ops : List Op)
    → IsValid b
    → Permitted (contents b) ops
    → length b.buffer + total ops < max_size
    → run b ops ≡ run_queue (contents b) ops
unfolding run run_queue
run_refines b [] v p k = refl
run_refines b (op ∷ ops) v (cons a p) k =
    let s = step-Steps op v a (omega arith) in
    rw (
      s.out,
      run_refines (step b op).1 ops s.valid (rw s.holds p) (omega (arith, s.grows)),
      s.holds,
    )
