-- ===== src/Log/Async/Order/Rounds.antt =====
-- The rounds of the log thread keep what was accepted, in its order.
use mathlib.Core.Option.{some-injective, none-ne-some}
use distributed_instant_mess.Base.{
  zero, suc, length-take, ℕ, ◌≤◌, ◌≡◌, refl, ap, subst, ◌∙◌, inl, inr, List, [], ◌∷◌, ◌++◌, none,
  some, length, take, arith, append-nil, append_assoc, Option-cases,
}
use distributed_instant_mess.Log.FixedBuffer
use distributed_instant_mess.Log.FixedBuffer.{FixedBuffer, avail, IsWithin, append-lem}
use distributed_instant_mess.Log.Async.{
  Logger, swap, swapped, flush, flush_list, work, bytes_of, trim, pop_back, recycle, recycle_both,
  max_backlog,
}
use distributed_instant_mess.Log.Async.Order.{
  accepted, IsBlank, AllSized, IsClean, bytes_of-append, AllSized-append,
}

swapped-accepted :
    (capacity : ℕ) (s : Logger) (b : FixedBuffer)
    → IsClean capacity s
    → s.new_buffer1 ≡ some b
    → s.to_write ≡ []
    → IsClean capacity (swapped s b) × (accepted (swapped s b) ≡ accepted s)
unfolding swapped
swapped-accepted capacity s b c e idle =
    let blank : (b.written ≡ []) × (b.size ≡ capacity) = subst (IsBlank capacity) e c.blank1 in
    (
      record {
        sized = blank.1;
        within = omega (arith, ap length blank.0);
        spare_blank = ground (arith, c.spare_blank, c.blank2);
        blank1 = tt;
        blank2 = ground (arith, c.spare_blank, c.blank2);
        sized_buffers = c.sized_writes;
        sized_writes =
            AllSized-append capacity s.buffers (s.current ∷ []) c.sized_buffers (c.sized, tt);
      },
      rw (idle, blank.0) (simp (bytes_of-append, append_assoc, append-nil)),
    )

-- Recycling keeps what is in the file and in the shared buffers.
recycle_both-accepted :
    (capacity : ℕ) (s : Logger) (bs : List FixedBuffer) (t : Logger)
    → length bs ≤ 2
    → IsClean capacity s
    → AllSized capacity bs
    → recycle_both s (recycle s.new_buffer1 bs) ≡ some t
    → IsClean capacity t × (accepted t ≡ s.file ++ (bytes_of s.buffers ++ s.current.written))
unfolding pop_back FixedBuffer.reset
recycle_both-accepted capacity s [] t l c z e = ground (arith, c)
recycle_both-accepted capacity s (b ∷ []) t l c z e = ground (arith, c)
recycle_both-accepted capacity s (b ∷ d ∷ []) t l c z e = ground (arith, c)
recycle_both-accepted capacity s (b ∷ d ∷ f ∷ bs) t l c z e = absurd (omega arith)

AllSized-take :
    (capacity n : ℕ) (bs : List FixedBuffer) → AllSized capacity bs → AllSized capacity (take n bs)
AllSized-take capacity zero bs h = tt
AllSized-take capacity (suc n) [] h = tt
AllSized-take capacity (suc n) (b ∷ bs) h = (h.0, AllSized-take capacity n bs h.1)

trim-short : (bs : List FixedBuffer) → length bs ≤ max_backlog → trim bs ≡ ([], bs)
unfolding trim
trim-short bs h = ground arith

-- Writing moves the backlog behind what is in the file.
flush_list-accepted :
    (capacity : ℕ) (s : Logger) (bs : List FixedBuffer) (t : Logger)
    → length bs ≤ max_backlog
    → s.to_write ≡ bs
    → IsClean capacity s
    → flush_list s bs ≡ some t
    → IsClean capacity t × (accepted t ≡ accepted s)
unfolding flush_list
flush_list-accepted capacity s [] t l idle c e = ground arith
flush_list-accepted capacity s (b ∷ bs) t l idle c e =
    let written = record s { file = s.file ++ bytes_of (b ∷ bs) } in
    let sized = subst (AllSized capacity) idle c.sized_writes in
    let clean : IsClean capacity written = record {
      sized = c.sized;
      within = c.within;
      spare_blank = c.spare_blank;
      blank1 = c.blank1;
      blank2 = c.blank2;
      sized_buffers = c.sized_buffers;
      sized_writes = c.sized_writes;
    } in
    let (k, a) =
      recycle_both-accepted capacity written (take 2 (b ∷ bs)) t
        (omega (arith, length-take 2 (b ∷ bs))) clean (AllSized-take capacity 2 (b ∷ bs) sized)
        (subst
          (λ p.
            recycle_both (record s { file = s.file ++ (p.0 ++ bytes_of p.1) })
              (recycle s.new_buffer1 (take 2 p.1))
            ≡ some t)
          (trim-short (b ∷ bs) l) e) in
    (k, a ∙ rw idle (simp append_assoc))

-- A backlog of at most 25 buffers is written whole.
flush-accepted :
    (capacity : ℕ) (s t : Logger)
    → length s.to_write ≤ max_backlog
    → IsClean capacity s
    → flush s ≡ some t
    → IsClean capacity t × (accepted t ≡ accepted s)
unfolding flush
flush-accepted capacity s t l c e = flush_list-accepted capacity s s.to_write t l refl c e

-- With a reserve buffer, the exchange of buffers comes back.
swap-accepted :
    (capacity : ℕ) (s t : Logger)
    → s.to_write ≡ []
    → IsClean capacity s
    → swap s ≡ some t
    → IsClean capacity t × (accepted t ≡ accepted s)
unfolding swap
swap-accepted capacity s t idle c e = elim (Option-cases s.new_buffer1) [
  | inl gone ↦ absurd (
      none-ne-some t
        (subst (λ o. elim o [ none ↦ none | some b ↦ some (swapped s b) ] ≡ some t) gone e))
  | inr (b, f) ↦
      let g : swapped s b ≡ t =
        some-injective (swapped s b) t
          (subst (λ o. elim o [ none ↦ none | some b ↦ some (swapped s b) ] ≡ some t) f e) in
      subst (λ u. IsClean capacity u × (accepted u ≡ accepted s)) g
        (swapped-accepted capacity s b c f idle)
]

work_at-accepted :
    (capacity : ℕ) (s t : Logger) (bs : List FixedBuffer)
    → s.to_write ≡ bs
    → length s.to_write ≤ max_backlog
    → IsClean capacity s
    → elim bs [ [] ↦ swap s | b ∷ rest ↦ flush s ] ≡ some t
    → IsClean capacity t × (accepted t ≡ accepted s)
work_at-accepted capacity s t [] idle l c e = swap-accepted capacity s t idle c e
work_at-accepted capacity s t (b ∷ bs) idle l c e = flush-accepted capacity s t l c e

pub work-accepted :
    (capacity : ℕ) (s t : Logger)
    → length s.to_write ≤ max_backlog
    → IsClean capacity s
    → work s ≡ some t
    → IsClean capacity t × (accepted t ≡ accepted s)
unfolding work
work-accepted capacity s t l c e = work_at-accepted capacity s t s.to_write refl l c e
