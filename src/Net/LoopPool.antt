-- ===== src/Net/LoopPool.antt =====
-- framework/MyMuduo/src/EventLoopThreadPool.cc: which loop gets the next connection.
use native.Mathlib.Nat.{mod_self, mod-lt, mod-add-mod, mod-eq_of_lt}
use distributed_instant_mess.Base.{
  ℕ, zero, suc, ◌+◌, ◌%◌, ◌<◌, ◌≡◌, refl, sym, ◌∙◌, false, Option, none, some, leb, ◌==◌,
  if◌then◌else◌, arith, Bool-cases, inl, inr, ap,
}

-- `loops_.size()` and `next_`. A loop is its index in `loops_`.
pub record LoopPool : Type 0 where
  pub size : ℕ
  pub next : ℕ

-- `none` is the base loop.
unfoldable pub get_next_loop : LoopPool → Option ℕ × LoopPool
get_next_loop p =
    if p.size == 0
    then (none, p)
    else (some p.next, record p { next = if leb p.size (suc p.next) then 0 else suc p.next })

-- The pool after some calls.
unfoldable pub after : LoopPool → ℕ → LoopPool
after p zero = p
after p (suc n) = after (get_next_loop p).1 n

-- A call moves on by one, around the end.
get_next_loop-lem :
    (p : LoopPool)
    → p.next < p.size
    → get_next_loop p ≡ (some p.next, record p { next = suc p.next % p.size })
unfolding get_next_loop
get_next_loop-lem p h =
    let some_loops : (p.size == 0) ≡ false = ground arith in
    elim (Bool-cases (leb p.size (suc p.next))) [
      | inl last ↦
          let around : suc p.next % p.size ≡ 0 =
            ap (λ k. k % p.size) (ground (arith, last)) ∙ mod_self p.size in
          rw (some_loops, last, around) refl
      | inr inside ↦
          let same : suc p.next % p.size ≡ suc p.next = mod-eq_of_lt (ground (arith, inside)) in
          rw (some_loops, inside, same) refl
    ]

after-next :
    (p : LoopPool) (n : ℕ) → p.next < p.size → after p n ≡ record p { next = (p.next + n) % p.size }
unfolding after
after-next p zero h =
    let here : (p.next + 0) % p.size ≡ p.next =
      ap (λ k. k % p.size) (omega arith) ∙ mod-eq_of_lt h in
    ap (λ k. record p { next = k }) (sym here)
after-next p (suc n) h =
    let moved : (suc p.next % p.size + n) % p.size ≡ (p.next + suc n) % p.size =
      mod-add-mod (suc p.next) p.size n ∙ ap (λ k. k % p.size) (omega arith) in
    let later =
      after-next (record p { next = suc p.next % p.size }) n (mod-lt (suc p.next) (omega arith)) in
    ap (λ q. after q.1 n) (get_next_loop-lem p h) ∙ later ∙ ap (λ k. record p { next = k }) moved

-- The loops take turns: on a new pool with loops, the call after `n` others returns loop `n` modulo
-- the number of loops.
pub get_next_loop_turns :
    (size n : ℕ)
    → 0 < size
    → (get_next_loop (after (record { size = size; next = 0 }) n)).0 ≡ some (n % size)
get_next_loop_turns size n h =
    let p : LoopPool = record { size = size; next = (0 + n) % size } in
    ap (λ q. (get_next_loop q).0) (after-next (record { size = size; next = 0 }) n h)
    ∙ ap (λ r. r.0) (get_next_loop-lem p (mod-lt (0 + n) h))
    ∙ ap (λ k. some (k % size)) (omega arith)
