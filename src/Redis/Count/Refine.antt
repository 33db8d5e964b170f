-- ===== src/Redis/Count/Refine.antt =====
-- The counts that the servers keep in Redis, against a table of numbers.
use mathlib.Core.Bool.{true≢false}
use distributed_instant_mess.Base.{
  ℕ, suc, ◌+◌, ◌-◌, ◌^◌, ◌<◌, ◌≤◌, arith, ap, length, ◌≡◌, refl, sym, ◌∙◌, subst, inl, inr, false,
  Option, some, List, [], ◌∷◌, if◌then◌else◌, Bool-cases,
}
use distributed_instant_mess.Base.Text.{Text, text_eq, text_eq_refl, text_eq_sound}
use distributed_instant_mess.Redis.{Server, TakesFields, IsRedis}
use distributed_instant_mess.Redis.Manager.{Manager}
use distributed_instant_mess.Redis.Count.{
  login_count, Numerals, Ended, done, threw, count_up, count_down, and_then, first_turn,
  increase_count, decrease_count, init_count,
}
use distributed_instant_mess.Redis.Count.Runs.{IsLive, Returns}
use distributed_instant_mess.Redis.Count.Steps.{
  IsNumerals, HasCount, IsFree, written, IsWritten, written-IsWritten, change-Returns, init-Returns,
}

-- The calls, each with the identifier that it makes for the lock, which is not empty.
pub data Change : Type 0 where
  increases : ℕ → Text → Text → Change
  decreases : ℕ → Text → Text → Change
  inits : ℕ → Text → Text → Change

-- What they mean for a table.
abbrev pub set_entry : (Text → ℕ) → Text → ℕ → Text → ℕ
set_entry t server_name n g = if text_eq g server_name then n else t g

abbrev pub change_table : (Text → ℕ) → Change → Text → ℕ
change_table t (increases c id server_name) = set_entry t server_name (suc (t server_name))
change_table t (decreases c id server_name) = set_entry t server_name (t server_name - 1)
change_table t (inits c id server_name) = set_entry t server_name 0

unfoldable pub table_after : (Text → ℕ) → List Change → Text → ℕ
table_after t [] = t
table_after t (c ∷ cs) = table_after (change_table t c) cs

set_entry-le :
    (t : Text → ℕ) (server_name : Text) (n : ℕ) (g : Text)
    → n ≤ t server_name + 1
    → set_entry t server_name n g ≤ t g + 1
set_entry-le t server_name n g le = elim (Bool-cases (text_eq g server_name)) [
  | inl same ↦ rw same (omega (arith, le, ap t (text_eq_sound g server_name same)))
  | inr other ↦ rw other (omega arith)
]

change_table-le : (t : Text → ℕ) (c : Change) (g : Text) → change_table t c g ≤ t g + 1
change_table-le t (increases c id server_name) g =
    set_entry-le t server_name (suc (t server_name)) g (omega arith)
change_table-le t (decreases c id server_name) g =
    set_entry-le t server_name (t server_name - 1) g (omega arith)
change_table-le t (inits c id server_name) g = set_entry-le t server_name 0 g (omega arith)

count_up-lem : (n : ℕ) → n + 1 < 2 ^ 31 → count_up n ≡ suc n
count_up-lem n small = omega arith

count_down-lem : (n : ℕ) → n + 1 < 2 ^ 31 → count_down n ≡ n - 1
count_down-lem n small = ground arith

module _ (V : Server) (N : Numerals) where
  abbrev pub perform : Manager V → Change → Option (Ended × Manager V)
  perform m (increases c id server_name) = increase_count V N m server_name (first_turn V c id)
  perform m (decreases c id server_name) = decrease_count V N m server_name (first_turn V c id)
  perform m (inits c id server_name) = init_count V N m server_name (first_turn V c id)

  -- The calls of any servers, one after the other, as the lock has them.
  unfoldable pub run_changes : Manager V → List Change → Option (Ended × Manager V)
  run_changes m [] = some (done, m)
  run_changes m (c ∷ cs) =
      and_then V (perform m c)
        λ e m'. elim e [ done ↦ run_changes m' cs | threw ↦ some (threw, m') ]

  module _ (I : IsRedis V) (L : IsNumerals N) where
    -- The manager has a connection, the lock is free, and Redis has the numbers of the table.
    pub record IsCounting (m : Manager V) (t : Text → ℕ) : Type 0 where
      pub live : IsLive V m
      pub free : IsFree V I N L m.redis
      pub takes : TakesFields (I.entry m.redis login_count)
      pub counts : (g : Text) → HasCount V I N L m.redis g (t g)

    -- The call comes to its end, and leaves the numbers of the table.
    pub record IsDone (t : Text → ℕ) (out : Option (Ended × Manager V)) : Type 0 where
      pub manager : Manager V
      pub returned : out ≡ some (done, manager)
      pub counting : IsCounting manager t

    others-HasCount :
        (s s' : V.State) (g : Text) (n : ℕ)
        → I.hvalue s' login_count g ≡ I.hvalue s login_count g
        → HasCount V I N L s g n
        → HasCount V I N L s' g n
    others-HasCount s s' g n same (inl e) = inl (same ∙ e)
    others-HasCount s s' g n same (inr (e, z)) = inr (same ∙ e, z)

    written-counts :
        (s s' : V.State) (t : Text → ℕ) (server_name : Text) (n : ℕ)
        → IsWritten V I N L s server_name (N.to_string n) s'
        → ((g : Text) → HasCount V I N L s g (t g))
        → (g : Text) → HasCount V I N L s' g (set_entry t server_name n g)
    written-counts s s' t server_name n w counts g = elim (Bool-cases (text_eq g server_name)) [
      | inl e ↦ rw e (inl (rw (text_eq_sound g server_name e) w.same))
      | inr e ↦ rw e (
          others-HasCount s s' g (t g)
            (w.others g λ same.
              true≢false (sym (text_eq_refl g) ∙ subst (λ x. text_eq g x ≡ false) (sym same) e))
            (counts g))
    ]

    done-IsCounting :
        (m : Manager V) (t : Text → ℕ) (server_name : Text) (c : ℕ) (id : Text) (n : ℕ)
        (out : Option (Ended × Manager V))
        → IsCounting m t
        → Returns V done (written V I N L m.redis (c ∷ id) server_name (N.to_string n)) out
        → IsDone (set_entry t server_name n) out
    done-IsCounting m t server_name c id n out h r =
        let w =
          written-IsWritten V I N L m.redis (c ∷ id) server_name (N.to_string n) h.free h.takes in
        record {
          manager = r.manager;
          returned = r.returned;
          counting = record {
            live = r.live;
            free = rw r.state_is w.free;
            takes = rw r.state_is w.takes;
            counts = λ g.
                subst (λ s. HasCount V I N L s g (set_entry t server_name n g)) (sym r.state_is)
                  (written-counts m.redis
                    (written V I N L m.redis (c ∷ id) server_name (N.to_string n)) t server_name n w
                    h.counts g);
          };
        }

    perform-IsDone :
        (m : Manager V) (t : Text → ℕ) (c : Change)
        → ((g : Text) → t g + 1 < 2 ^ 31)
        → IsCounting m t
        → IsDone (change_table t c) (perform m c)
    perform-IsDone m t (increases c id server_name) small h =
        subst (λ n. IsDone (set_entry t server_name n) (perform m (increases c id server_name)))
          (count_up-lem (t server_name) (small server_name))
          (done-IsCounting m t server_name c id (count_up (t server_name)) _ h (
            change-Returns V I N L count_up m c id server_name (t server_name) h.live h.free
              (omega (arith, small server_name)) h.takes (h.counts server_name)))
    perform-IsDone m t (decreases c id server_name) small h =
        subst (λ n. IsDone (set_entry t server_name n) (perform m (decreases c id server_name)))
          (count_down-lem (t server_name) (small server_name))
          (done-IsCounting m t server_name c id (count_down (t server_name)) _ h (
            change-Returns V I N L count_down m c id server_name (t server_name) h.live h.free
              (omega (arith, small server_name)) h.takes (h.counts server_name)))
    perform-IsDone m t (inits c id server_name) small h =
        done-IsCounting m t server_name c id 0 _ h
          (rw L.zero_text (init-Returns V I N L m c id server_name h.live h.free))

    -- IncreaseCount, DecreaseCount and InitCount, called for any servers in any order, come to their
    -- ends, and Redis then has for every server the number that a table has in which each call adds
    -- one, takes one away that is there, or sets 0; and the lock is free again. Before, the lock is
    -- free, Redis has the numbers of the table in a hash, where no entry stands for 0, the manager
    -- runs and has a connection, and no number can reach 2 ^ 31 by as many calls as there are. Redis
    -- does what its documentation says of GET, SET, DEL, HGET, HSET and EVAL, and a number below
    -- 2 ^ 31 can be read from its text.
    pub run_changes-refines :
        (cs : List Change) (m : Manager V) (t : Text → ℕ)
        → ((g : Text) → t g + length cs < 2 ^ 31)
        → IsCounting m t
        → IsDone (table_after t cs) (run_changes m cs)
    unfolding table_after run_changes
    run_changes-refines [] m t small h = record { manager = m; returned = refl; counting = h }
    run_changes-refines (c ∷ cs) m t small h =
        let d = perform-IsDone m t c (λ g. omega (arith, small g)) h in
        rw d.returned (
          run_changes-refines cs d.manager (change_table t c)
            (λ g. omega (arith, small g, change_table-le t c g)) d.counting)
