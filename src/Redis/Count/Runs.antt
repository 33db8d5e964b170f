-- ===== src/Redis/Count/Runs.antt =====
-- Operations of a manager that runs and has a connection: what they return, and what Redis becomes.
use distributed_instant_mess.Base.{
  ℕ, suc, ◌-◌, ◌≡◌, refl, inl, inr, false, Option, none, some, List, [], ◌∷◌, ◌++◌,
}
use distributed_instant_mess.Redis.{Reply, Command, Server}
use distributed_instant_mess.Redis.Manager.{
  Step, Ends, Manager, return_connection, apply_steps, count_reply, run_command,
}
use distributed_instant_mess.Redis.Lock.{lend}
use distributed_instant_mess.Redis.Count.{and_then}
use distributed_instant_mess.Redis.Manager.Balance.{IsBalanced}

module _ (V : Server) where
  pub record IsLive (m : Manager V) : Type 0 where
    pub context : ℕ
    pub others : List ℕ
    pub has_connection : m.connections ≡ context ∷ others
    pub runs : m.b_stop ≡ false

  -- The operation returns `a`, and Redis is then in the state `s`.
  pub record Returns {A : Type 0} (a : A) (s : V.State) (out : Option (A × Manager V))
      : Type 0 where
    pub manager : Manager V
    pub returned : out ≡ some (a, manager)
    pub live : IsLive manager
    pub state_is : manager.redis ≡ s

  append-IsLive :
      (s : V.State) (xs : List ℕ) (context n : ℕ)
      → IsLive (record { redis = s; connections = xs ++ context ∷ []; b_stop = false; replies = n })
  append-IsLive s [] context n = record {
    context = context;
    others = [];
    has_connection = refl;
    runs = refl;
  }
  append-IsLive s (x ∷ xs) context n = record {
    context = x;
    others = xs ++ context ∷ [];
    has_connection = refl;
    runs = refl;
  }

  steps-Returns :
      {A : Type 0} (a : A) (s : V.State) (xs : List ℕ) (context n : ℕ) (o : Option Reply)
      (steps : List Step)
      → IsBalanced o steps
      → Returns a s (
          some (
            a,
            apply_steps V
                (record {
                  redis = s;
                  connections = xs;
                  b_stop = false;
                  replies = count_reply V o n;
                })
                context
                steps,
          ))
  unfolding apply_steps return_connection
  steps-Returns a s xs context n none steps b = rw b (record {
    manager = record { redis = s; connections = xs ++ context ∷ []; b_stop = false; replies = n };
    returned = refl;
    live = append-IsLive s xs context n;
    state_is = refl;
  })
  steps-Returns a s xs context n (some r) steps (inl b) = rw b (record {
    manager = record {
      redis = s;
      connections = xs ++ context ∷ [];
      b_stop = false;
      replies = suc n - 1;
    };
    returned = refl;
    live = append-IsLive s xs context (suc n - 1);
    state_is = refl;
  })
  steps-Returns a s xs context n (some r) steps (inr b) = rw b (record {
    manager = record {
      redis = s;
      connections = xs ++ context ∷ [];
      b_stop = false;
      replies = suc n - 1;
    };
    returned = refl;
    live = append-IsLive s xs context (suc n - 1);
    state_is = refl;
  })

  pub run_command-Returns :
      {A : Type 0} (m : Manager V) (fail : A) (c : Command) (h : Option Reply → Ends A)
      → IsBalanced (V.command m.redis c).0 (h (V.command m.redis c).0).1
      → IsLive m
      → Returns (h (V.command m.redis c).0).0 (V.command m.redis c).1 (run_command V m fail c h)
  unfolding run_command
  run_command-Returns m fail c h b live =
      rw (live.runs, live.has_connection)
        (steps-Returns (h (V.command m.redis c).0).0 (V.command m.redis c).1 live.others
          live.context m.replies (V.command m.redis c).0 (h (V.command m.redis c).0).1 b)

  pub lend-Returns :
      {A : Type 0} (m : Manager V) (fail : A) (f : V.State → A × V.State)
      → IsLive m
      → Returns (f m.redis).0 (f m.redis).1 (lend V m fail f)
  unfolding return_connection
  lend-Returns m fail f live =
      rw (live.runs, live.has_connection)
        (record {
          manager = record {
            redis = (f m.redis).1;
            connections = live.others ++ live.context ∷ [];
            b_stop = false;
            replies = m.replies;
          };
          returned = refl;
          live = append-IsLive (f m.redis).1 live.others live.context m.replies;
          state_is = refl;
        })

  -- An operation after another.
  pub and_then-Returns :
      {A B : Type 0} {a : A} {b : B} {s t : V.State} (out : Option (A × Manager V))
      (k : A → Manager V → Option (B × Manager V))
      → Returns a s out
      → ((m : Manager V) → IsLive m → m.redis ≡ s → Returns b t (k a m))
      → Returns b t (and_then V out k)
  and_then-Returns out k r h = rw r.returned (h r.manager r.live r.state_is)
