-- ===== src/Storage/MysqlPool/Ending.antt =====
-- A round of the check thread comes to its end.
use distributed_instant_mess.Base.{
  ℕ, ◌+◌, ◌-◌, ◌*◌, ◌≤◌, ◌<◌, ◌≡◌, refl, inl, inr, Bool, true, false, none, List, [], ◌∷◌, ◌++◌,
  arith, ltb, ◌==◌, if◌then◌else◌, Bool-cases,
}
use distributed_instant_mess.Storage.MysqlPool.{
  Con, Phase, absent, resting, probing, holding, reconnecting, Pool, get_front, get_connection,
  return_connection, lose_connection, close, take_front, take_con, probe, reconnect, check_at,
  check_step,
}
use distributed_instant_mess.Storage.MysqlPool.Conservation.{
  Event, gets, returns, loses, closes, checks, step,
}

-- A bound on the steps of the check thread up to the end of its round.
abbrev pub steps_at : Phase → ℕ → ℕ
steps_at absent failed = 0
steps_at resting failed = 0
steps_at (probing target processed now) failed = 3 * (target - processed) + failed + 2
steps_at (holding con target processed now) failed = 3 * (target - (processed + 1)) + failed + 4
steps_at (reconnecting now) failed = failed + 1

abbrev pub steps_left : Pool → ℕ
steps_left p = steps_at p.phase p.fail_count

abbrev pub is_idle : Phase → Bool
is_idle absent = true
is_idle resting = true
is_idle _ = false

-- How often it is the turn of the check thread.
unfoldable pub turns : List Event → ℕ
turns [] = 0
turns (checks ok now ∷ es) = 1 + turns es
turns (gets ∷ es) = turns es
turns (returns con ∷ es) = turns es
turns (loses ∷ es) = turns es
turns (closes ∷ es) = turns es

-- The thread has no round on at some moment of the run.
unfoldable pub gets_idle : Pool → List Event → Bool
gets_idle p [] = is_idle p.phase
gets_idle p (e ∷ es) = let rest = gets_idle (step p e) es in if is_idle p.phase then true else rest

take-steps :
    (q : List Con) (t k began : ℕ) (p : Pool)
    → k < t
    → steps_left (take_front q t k began p) < 3 * (t - k) + p.fail_count + 2
take-steps [] t k began p lt = omega (arith, lt)
take-steps (con ∷ rest) t k began p lt = omega (arith, lt)

check_at-steps :
    (f : Phase) (ok : Bool) (now : ℕ) (p : Pool)
    → p.phase ≡ f
    → is_idle f ≡ false
    → steps_left (check_at f ok now p) < steps_at f p.fail_count
unfolding take_con probe reconnect
check_at-steps absent ok now p e busy = ground (arith, busy)
check_at-steps resting ok now p e busy = ground (arith, busy)
check_at-steps (probing t k began) ok now p e busy = elim (Bool-cases (ltb k t)) [
  | inl more ↦ rw more (take-steps p.pool t k began p (ground (arith, more)))
  | inr enough ↦ rw enough (omega arith)
]
check_at-steps (holding con t k began) ok now p e busy = ground arith
check_at-steps (reconnecting began) ok now p e busy = ground arith

turn-steps :
    (p : Pool) (ok : Bool) (now : ℕ)
    → is_idle p.phase ≡ false
    → steps_left (check_step ok now p) < steps_left p
unfolding check_step
turn-steps p ok now busy = check_at-steps p.phase ok now p refl busy

get-steps : (q : List Con) (p : Pool) → steps_left (get_front q p).1 ≡ steps_left p
get-steps [] p = refl
get-steps (con ∷ rest) p = refl

get_connection-steps :
    (b : Bool) (p : Pool)
    → steps_left (if b then (none, p) else get_front p.pool p).1 ≡ steps_left p
get_connection-steps true p = refl
get_connection-steps false p = get-steps p.pool p

return-steps :
    (empty closed : Bool) (con : Con) (p : Pool)
    → steps_left (
        if empty
        then p
        else if closed
        then record p { leased = p.leased - 1; dropped = p.dropped + 1 }
        else record p { leased = p.leased - 1; pool = p.pool ++ con ∷ [] })
      ≡ steps_left p
return-steps true closed con p = refl
return-steps false true con p = refl
return-steps false false con p = refl

lose-steps :
    (none_out : Bool) (p : Pool)
    → steps_left (if none_out then p else record p { leased = p.leased - 1; lost = p.lost + 1 })
      ≡ steps_left p
lose-steps true p = refl
lose-steps false p = refl

idle_of_zero : (f : Phase) (failed : ℕ) → steps_at f failed ≤ 0 → is_idle f ≡ true
idle_of_zero absent failed le = refl
idle_of_zero resting failed le = refl
idle_of_zero (probing t k began) failed le = absurd (omega (arith, le))
idle_of_zero (holding con t k began) failed le = absurd (omega (arith, le))
idle_of_zero (reconnecting began) failed le = absurd (omega (arith, le))

step-steps :
    (p : Pool) (e : Event) (es : List Event)
    → is_idle p.phase ≡ false
    → steps_left p ≤ turns (e ∷ es)
    → steps_left (step p e) ≤ turns es
unfolding turns step get_connection return_connection lose_connection close
step-steps p gets es busy enough = omega (arith, get_connection-steps p.stop p, enough)
step-steps p (returns con) es busy enough =
    omega (arith, return-steps (p.leased == 0) p.stop con p, enough)
step-steps p loses es busy enough = omega (arith, lose-steps (p.leased == 0) p, enough)
step-steps p closes es busy enough = enough
step-steps p (checks ok now) es busy enough = omega (arith, turn-steps p ok now busy, enough)

-- A round of the check thread ends: from every state, in the middle of a round or not, and however
-- callers and `Close` come between and whatever the database answers, the thread is idle at some
-- moment of a run in which it gets `steps_left` turns. `steps_left` is at most three for each
-- connection that is to be probed still, one for each failed one, and four.
pub round-ends : (p : Pool) (es : List Event) → steps_left p ≤ turns es → gets_idle p es ≡ true
unfolding gets_idle turns
round-ends p [] enough = idle_of_zero p.phase p.fail_count enough
round-ends p (e ∷ es) enough = elim (Bool-cases (is_idle p.phase)) [
  | inl idle ↦ simp idle
  | inr busy ↦ simp (busy, round-ends (step p e) es (step-steps p e es busy enough))
]
