-- ===== src/Storage/Session/Atomic.antt =====
-- A transaction is committed as a whole or not at all.
use distributed_instant_mess.Base.{◌≡◌, refl, ap, ◌∙◌, Bool, true, false, List, [], ◌∷◌, ◌++◌}
use distributed_instant_mess.Storage.Session.{
  Answer, throws, gives, Count, Database, IsTransactional, Step, next, raised, returned, Db,
  bind_step, ◌>>=◌, ◌>>◌, pure, return_value, query, execute, set_auto_commit, commit, rollback,
  require, Outcome, returns, escapes, try_catch,
}

-- `old` was committed before; `Whole` says which lists of statements are a whole transaction.
module _ {C : Type 0} (D : Database C) (old : List C) (Whole : List C → Type 0) where
  -- In the transaction, with the statements `p` so far.
  abbrev pub At : List C → D.State → Type 0
  At p s = (D.committed s ≡ old) × (D.auto_commit s ≡ false) × (D.pending s ≡ p)

  -- True comes with a whole transaction, false with nothing, and none is open.
  abbrev pub IsDone : Bool → D.State → Type 0
  IsDone true s = (p : List C) × (D.committed s ≡ old ++ p) × Whole p × (D.pending s ≡ [])
  IsDone false s = (D.committed s ≡ old) × (D.pending s ≡ [])

  -- An exception that leaves the function has committed nothing.
  abbrev pub IsAtomic : Outcome D.State → Type 0
  IsAtomic (returns b s) = IsDone b s
  IsAtomic (escapes code s) = D.committed s ≡ old

  abbrev pub Leads : {A : Type 0} → (D.State → Type 0) → Step D.State A → Type 0
  Leads P (next a s) = P s
  Leads P (raised code s) = D.committed s ≡ old
  Leads P (returned b s) = IsDone b s

  -- From inside of the transaction with the statements `p`, a piece of code that ends the function
  -- ends it as it should.
  pub record Ends (p : List C) (m : Db D.State Unit) : Type 0 where
    pub at : (s : D.State) → At p s → Leads (λ _. ⊥) (m s)

  bind_step-Leads :
      {A B : Type 0} (P Q : D.State → Type 0) (m : Step D.State A) (k : A → Db D.State B)
      → Leads P m
      → ((a : A) (s : D.State) → P s → Leads Q (k a s))
      → Leads Q (bind_step m k)
  bind_step-Leads P Q (next a s) k h g = g a s h
  bind_step-Leads P Q (raised code s) k h g = h
  bind_step-Leads P Q (returned b s) k h g = h

  query-Leads :
      {A : Type 0} (p : List C) (r : Answer A) (s : D.State) → At p s → Leads (At p) (query r s)
  unfolding query
  query-Leads p (throws code) s (c, a, e) = c
  query-Leads p (gives x) s h = h

  pub query-Ends :
      {A : Type 0} (p : List C) (r : Answer A) (k : A → Db D.State Unit)
      → ((a : A) → Ends p (k a))
      → Ends p (query r >>= k)
  unfolding ◌>>=◌
  query-Ends p r k g = record {
    at = λ s h. bind_step-Leads (At p) (λ _. ⊥) (query r s) k (query-Leads p r s h) λ a. (g a).at;
  }

  -- The same, and what the database answered is kept.
  pub asked-Ends :
      {A : Type 0} (p : List C) (r : Answer A) (k : A → Db D.State Unit)
      → ((a : A) → r ≡ gives a → Ends p (k a))
      → Ends p (query r >>= k)
  unfolding ◌>>=◌ query
  asked-Ends p (throws code) k g = record { at = λ s (c, a, e). c }
  asked-Ends p (gives x) k g = record { at = (g x refl).at }

module _ {C : Type 0} (D : Database C) (L : IsTransactional D) (old : List C)
    (Whole : List C → Type 0) where
  execute-Leads :
      (p : List C) (c : C) (r : Answer Count) (s : D.State)
      → At D old Whole p s
      → Leads D old Whole (At D old Whole (p ++ c ∷ [])) (execute D c r s)
  unfolding execute
  execute-Leads p c (throws code) s (e, a, f) = e
  execute-Leads p c (gives n) s (e, a, f) = (
    L.committed-do_statement c s a ∙ e,
    L.auto_commit-do_statement c s ∙ a,
    L.pending-do_statement c s a ∙ ap (λ q. q ++ c ∷ []) f,
  )

  require-Leads :
      (p : List C) (b : Bool) (r : Answer Unit) (s : D.State)
      → At D old Whole p s
      → Leads D old Whole (At D old Whole p) (require D b r s)
  unfolding require pure rollback return_value ◌>>=◌
  require-Leads p true r s h = h
  require-Leads p false (throws code) s (e, a, f) = e
  require-Leads p false (gives _) s (e, a, f) =
      (L.committed-do_rollback s ∙ e, L.pending-do_rollback s)

  begin-Leads :
      (r : Answer Unit) (s : D.State)
      → D.committed s ≡ old
      → D.pending s ≡ []
      → Leads D old Whole (At D old Whole []) (set_auto_commit D false r s)
  unfolding set_auto_commit
  begin-Leads (throws code) s e f = e
  begin-Leads (gives _) s e f =
      (L.committed-switch_off s ∙ e, L.auto_commit-switch_off s, L.pending-switch_off s ∙ f)

  -- The end of a body, behind which nothing stands.
  pub commit-Ends :
      (p : List C) (r : Answer Unit)
      → Whole p
      → Ends D old Whole p (commit D r >> return_value true)
  unfolding commit return_value ◌>>=◌
  commit-Ends p (throws code) w = record { at = λ s (e, a, f). e }
  commit-Ends p (gives _) w = record {
    at = λ s (e, a, f). (
      p,
      L.committed-do_commit s ∙ ap (λ c. c ++ D.pending s) e ∙ ap (λ q. old ++ q) f,
      w,
      L.pending-do_commit s,
    );
  }

  try_catch-IsAtomic :
      (r : Answer Unit) (m : Step D.State Unit)
      → Leads D old Whole (λ _. ⊥) m
      → IsAtomic D old Whole (try_catch D r m)
  unfolding try_catch rollback
  try_catch-IsAtomic r (next _ s) h = absurd h
  try_catch-IsAtomic (throws c) (raised code s) h = h
  try_catch-IsAtomic (gives _) (raised code s) h =
      (L.committed-do_rollback s ∙ h, L.pending-do_rollback s)
  try_catch-IsAtomic r (returned b s) h = h

  pub execute-Ends :
      (p : List C) (c : C) (r : Answer Count) (k : Count → Db D.State Unit)
      → ((n : Count) → Ends D old Whole (p ++ c ∷ []) (k n))
      → Ends D old Whole p (execute D c r >>= k)
  unfolding ◌>>=◌
  execute-Ends p c r k g = record {
    at = λ s h.
        bind_step-Leads D old Whole (At D old Whole (p ++ c ∷ [])) (λ _. ⊥) (execute D c r s) k
          (execute-Leads p c r s h) λ n. (g n).at;
  }

  pub require-Ends :
      (p : List C) (b : Bool) (r : Answer Unit) (k : Unit → Db D.State Unit)
      → ((a : Unit) → Ends D old Whole p (k a))
      → Ends D old Whole p (require D b r >>= k)
  unfolding ◌>>=◌
  require-Ends p b r k g = record {
    at = λ s h.
        bind_step-Leads D old Whole (At D old Whole p) (λ _. ⊥) (require D b r s) k
          (require-Leads p b r s h) λ a. (g a).at;
  }

  pub give_up-Ends :
      (p : List C) (r : Answer Unit) → Ends D old Whole p (rollback D r >> return_value false)
  unfolding rollback return_value ◌>>=◌
  give_up-Ends p (throws code) = record { at = λ s (e, a, f). e }
  give_up-Ends p (gives _) = record {
    at = λ s (e, a, f). (L.committed-do_rollback s ∙ e, L.pending-do_rollback s);
  }

  -- Code that begins a transaction in a session in which none is open.
  pub begin-Ends :
      (r : Answer Unit) (k : Unit → Db D.State Unit) (s : D.State)
      → D.committed s ≡ old
      → D.pending s ≡ []
      → Ends D old Whole [] (k tt)
      → Leads D old Whole (λ _. ⊥) ((set_auto_commit D false r >>= k) s)
  unfolding ◌>>=◌
  begin-Ends r k s e f g =
      bind_step-Leads D old Whole (At D old Whole []) (λ _. ⊥) (set_auto_commit D false r s) k
        (begin-Leads r s e f) λ _. g.at

  pub begin-IsAtomic :
      (r u : Answer Unit) (k : Unit → Db D.State Unit) (s : D.State)
      → D.committed s ≡ old
      → D.pending s ≡ []
      → Ends D old Whole [] (k tt)
      → IsAtomic D old Whole (try_catch D u ((set_auto_commit D false r >>= k) s))
  begin-IsAtomic r u k s e f g =
      try_catch-IsAtomic u ((set_auto_commit D false r >>= k) s) (begin-Ends r k s e f g)
