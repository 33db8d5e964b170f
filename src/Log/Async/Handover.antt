-- ===== src/Log/Async/Handover.antt =====
-- The exchange of buffers never runs out of them: no assertion of the log thread fails.
use mathlib.Core.List.{concat-ne-nil}
use distributed_instant_mess.Base.{
  ℕ, ◌≤◌, ◌≡◌, ◌≢◌, refl, ap, ◌⊎◌, inl, inr, List, [], ◌∷◌, ◌++◌, none, some, ltb, length, take,
  min, length-take, arith, length-append, Bool-cases, Gives, Gives-some, Gives-map, Option-cases,
}
use distributed_instant_mess.Log.FixedBuffer.{FixedBuffer}
use distributed_instant_mess.Log.Async.{
  Logger, init, append, swap, swapped, flush, flush_list, work, Action, logs, works, step, run,
  bytes_of, trim, pop_back, recycle, recycle_both, max_backlog,
}

-- Between rounds: two reserve buffers, and a full buffer wherever the spare one is used up.
pub record IsReady (s : Logger) : Type 0 where
  pub reserve1 : s.new_buffer1 ≢ none
  pub reserve2 : s.new_buffer2 ≢ none
  pub used : (s.next ≢ none) ⊎ (s.buffers ≢ [])
  pub idle : s.to_write ≡ []

-- In a round: enough buffers wait to be written to fill the reserve again.
pub record IsWriting (s : Logger) : Type 0 where
  pub one : 1 ≤ length s.to_write
  pub two : (s.new_buffer2 ≢ none) ⊎ (2 ≤ length s.to_write)
  pub used : (s.next ≢ none) ⊎ (s.buffers ≢ [])

init-IsReady : (capacity : ℕ) → IsReady (init capacity)
unfolding init
init-IsReady capacity = ground arith

append-used :
    (capacity : ℕ) (s : Logger) (line : List ℕ)
    → (s.next ≢ none) ⊎ (s.buffers ≢ [])
    → ((append capacity s line).next ≢ none) ⊎ ((append capacity s line).buffers ≢ [])
unfolding append
append-used capacity s line h = ground (arith, concat-ne-nil s.current s.buffers)

swapped-IsWriting : (s : Logger) (b : FixedBuffer) → IsReady s → IsWriting (swapped s b)
unfolding swapped
swapped-IsWriting s b r = record {
  one = omega (arith, length-append s.buffers (s.current ∷ []));
  two = ground (arith, length-append s.buffers (s.current ∷ []), r.used, r.reserve2);
  used = ground (arith, r.reserve2);
}

length-kept : (bs : List FixedBuffer) → length (take 2 (trim bs).1) ≡ min 2 (length bs)
unfolding trim
length-kept bs = elim (Bool-cases (ltb max_backlog (length bs))) [
  | inl long ↦ rw long (omega (arith, length-take 2 (take 2 bs), length-take 2 bs))
  | inr short ↦ rw short (length-take 2 bs)
]

-- One buffer fills one gap of the reserve, two fill both.
recycle_both-IsReady :
    (s : Logger) (bs : List FixedBuffer)
    → 1 ≤ length bs
    → length bs ≤ 2
    → (s.new_buffer2 ≢ none) ⊎ (2 ≤ length bs)
    → (s.next ≢ none) ⊎ (s.buffers ≢ [])
    → Gives IsReady (recycle_both s (recycle s.new_buffer1 bs))
unfolding pop_back
recycle_both-IsReady s [] one most two used = absurd (omega arith)
recycle_both-IsReady s (b ∷ []) one most two used = ground arith
recycle_both-IsReady s (b ∷ c ∷ []) one most two used = ground arith
recycle_both-IsReady s (b ∷ c ∷ d ∷ bs) one most two used = absurd (omega arith)

-- The backlog that is written fills the reserve.
flush_list-IsReady :
    (s : Logger) (bs : List FixedBuffer)
    → 1 ≤ length bs
    → (s.new_buffer2 ≢ none) ⊎ (2 ≤ length bs)
    → (s.next ≢ none) ⊎ (s.buffers ≢ [])
    → Gives IsReady (flush_list s bs)
unfolding flush_list
flush_list-IsReady s [] one two used = absurd (omega arith)
flush_list-IsReady s (b ∷ bs) one two used =
    let k = length-kept (b ∷ bs) in
    recycle_both-IsReady
      (record s { file = s.file ++ ((trim (b ∷ bs)).0 ++ bytes_of (trim (b ∷ bs)).1) })
      (take 2 (trim (b ∷ bs)).1) (omega arith) (omega arith) (ground arith) used

flush-IsReady : (s : Logger) → IsWriting s → Gives IsReady (flush s)
unfolding flush
flush-IsReady s w = flush_list-IsReady s s.to_write w.one w.two w.used

-- Between rounds or in one.
pub data IsSound (s : Logger) : Type 0 where
  ready : IsReady s → IsSound s
  writing : IsWriting s → IsSound s

swap-IsWriting : (s : Logger) → IsReady s → Gives IsWriting (swap s)
unfolding swap
swap-IsWriting s r = elim (Option-cases s.new_buffer1) [
  | inl gone ↦ absurd (r.reserve1 gone)
  | inr (b, e) ↦ rw (e, swap) (swapped-IsWriting s b r)
]

work_at-IsSound :
    (s : Logger) (bs : List FixedBuffer)
    → s.to_write ≡ bs
    → IsSound s
    → Gives IsSound (elim bs [ [] ↦ swap s | b ∷ rest ↦ flush s ])
work_at-IsSound s [] e (ready r) = Gives-map (swap s) (λ t h. writing h) (swap-IsWriting s r)
work_at-IsSound s [] e (writing w) = absurd (omega (arith, ap length e, w.one))
work_at-IsSound s (b ∷ bs) e (ready r) = cc (r.idle)
work_at-IsSound s (b ∷ bs) e (writing w) = Gives-map (flush s) (λ t h. ready h) (flush-IsReady s w)

work-IsSound : (s : Logger) → IsSound s → Gives IsSound (work s)
unfolding work
work-IsSound s v = work_at-IsSound s s.to_write refl v

append-IsSound :
    (capacity : ℕ) (s : Logger) (line : List ℕ) → IsSound s → IsSound (append capacity s line)
append-IsSound capacity s line (ready r) = ready (record {
  reserve1 = unfold append in ground (arith, r.reserve1);
  reserve2 = unfold append in ground (arith, r.reserve2);
  used = append-used capacity s line r.used;
  idle = unfold append in ground (arith, r.idle);
})
append-IsSound capacity s line (writing w) = writing (record {
  one = unfold append in ground (arith, w.one);
  two = unfold append in ground (arith, w.two);
  used = append-used capacity s line w.used;
})

step-IsSound :
    (capacity : ℕ) (s : Logger) (a : Action) → IsSound s → Gives IsSound (step capacity s a)
unfolding step
step-IsSound capacity s (logs line) v = append-IsSound capacity s line v
step-IsSound capacity s works v = work-IsSound s v

run-IsSound :
    (capacity : ℕ) (s : Logger) (actions : List Action)
    → IsSound s
    → Gives IsSound (run capacity s actions)
unfolding run
run-IsSound capacity s [] v = v
run-IsSound capacity s (a ∷ actions) v =
    let (t, e, w) = Gives-some (step capacity s a) (step-IsSound capacity s a v) in
    rw (e, run) (run-IsSound capacity t actions w)

-- However the callers and the log thread take turns, none of the assertions on its buffers in the loop
-- of `threadFunc` fails, and no buffer that it moves or that a caller writes to is missing: every
-- step of every schedule comes back. `running_` and the file are not part of this.
pub run_never_fails :
    (capacity : ℕ) (actions : List Action)
    → (s : Logger) × (run capacity (init capacity) actions ≡ some s) × IsSound s
run_never_fails capacity actions =
    Gives-some (run capacity (init capacity) actions)
      (run-IsSound capacity (init capacity) actions (ready (init-IsReady capacity)))
