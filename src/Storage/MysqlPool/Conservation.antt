-- ===== src/Storage/MysqlPool/Conservation.antt =====
-- Where the connections are, whoever takes turns.
use distributed_instant_mess.Base.{
  ℕ, ◌+◌, ◌≡◌, refl, ap, ◌∙◌, inl, inr, Bool, true, false, none, List, [], ◌∷◌, arith, length,
  length-append, length-replicate, ltb, ◌==◌, if◌then◌else◌, Bool-cases,
}
use distributed_instant_mess.Storage.MysqlPool.{
  Con, Phase, absent, resting, probing, holding, reconnecting, Pool, init, get_front,
  get_connection, return_connection, lose_connection, close, begin_check, take_front, take_con,
  probe, reconnect, check_at, check_step,
}

pub data Event : Type 0 where
  gets : Event
  returns : Con → Event
  loses : Event
  closes : Event
  checks : Bool → ℕ → Event

unfoldable pub step : Pool → Event → Pool
step p gets = (get_connection p).1
step p (returns con) = return_connection p con
step p loses = lose_connection p
step p closes = close p
step p (checks ok now) = check_step ok now p

unfoldable pub run : Pool → List Event → Pool
run p [] = p
run p (e ∷ es) = run (step p e) es

abbrev pub in_hand : Phase → ℕ
in_hand (holding con target processed now) = 1
in_hand _ = 0

-- In the pool, with callers, with the check thread, counted as failed, dropped because the pool is
-- closed, or destroyed by a caller.
abbrev pub all_of : Pool → ℕ
all_of p = length p.pool + p.leased + in_hand p.phase + p.fail_count + p.dropped + p.lost

get-all_of : (q : List Con) (p : Pool) → p.pool ≡ q → all_of (get_front q p).1 ≡ all_of p
get-all_of [] p e = refl
get-all_of (con ∷ rest) p e = omega (arith, ap length e)

take-all_of :
    (q : List Con) (t k began : ℕ) (p : Pool)
    → p.pool ≡ q
    → in_hand p.phase ≡ 0
    → all_of (take_front q t k began p) ≡ all_of p
take-all_of [] t k began p e h = omega (arith, h)
take-all_of (con ∷ rest) t k began p e h = omega (arith, ap length e, h)

check_at-all_of :
    (f : Phase) (ok : Bool) (now : ℕ) (p : Pool)
    → p.phase ≡ f
    → all_of (check_at f ok now p) ≡ all_of p
unfolding begin_check take_con probe reconnect
check_at-all_of absent ok now p e = refl
check_at-all_of resting ok now p e = ground (arith, ap in_hand e)
check_at-all_of (probing t k began) ok now p e = elim (Bool-cases (ltb k t)) [
  | inl more ↦ rw more (take-all_of p.pool t k began p refl (ap in_hand e))
  | inr enough ↦ rw enough (omega (arith, ap in_hand e))
]
check_at-all_of (holding con t k began) ok now p e =
    ground (arith, ap in_hand e, length-append p.pool (con ∷ []), length-append p.pool (began ∷ []))
check_at-all_of (reconnecting began) ok now p e =
    ground (arith, ap in_hand e, length-append p.pool (began ∷ []))

if-all_of :
    (b : Bool) (p : Pool) → all_of (if b then (none, p) else get_front p.pool p).1 ≡ all_of p
if-all_of true p = refl
if-all_of false p = get-all_of p.pool p refl

step-all_of : (p : Pool) (e : Event) → all_of (step p e) ≡ all_of p
unfolding step get_connection return_connection lose_connection close check_step
step-all_of p gets = if-all_of p.stop p
step-all_of p (returns con) = ground (arith, length-append p.pool (con ∷ []))
step-all_of p loses = ground arith
step-all_of p closes = refl
step-all_of p (checks ok now) = check_at-all_of p.phase ok now p refl

run-all_of : (p : Pool) (es : List Event) → all_of (run p es) ≡ all_of p
unfolding run
run-all_of p [] = refl
run-all_of p (e ∷ es) = run-all_of (step p e) es ∙ step-all_of p e

init-in_hand : (b : Bool) → in_hand (if b then resting else absent) ≡ 0
init-in_hand true = refl
init-in_hand false = refl

init-all_of : (made size now : ℕ) → all_of (init made size now) ≡ made
unfolding init
init-all_of made size now = omega (arith, length-replicate made now, init-in_hand (made == size))

-- However callers, the check thread and `Close` take turns, and whatever the database answers, every
-- connection that the constructor made is in the queue, with a caller, with the check thread, counted
-- as failed and so to be made again, was dropped after `Close`, or was destroyed by a caller that did
-- not give it back: they stay as many as were made, and the pool itself loses none.
pub run_conserves :
    (made size now : ℕ) (es : List Event) → all_of (run (init made size now) es) ≡ made
run_conserves made size now es = run-all_of (init made size now) es ∙ init-all_of made size now
