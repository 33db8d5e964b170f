-- ===== src/Storage/Session.antt =====
-- A connection to the database, and the calls that the functions of MysqlDao.cpp make on it. What
-- the database answers to a call is an argument of the call.
pub mod Atomic
use distributed_instant_mess.Base.{◌≡◌, ℕ, Bool, true, false, List, [], ◌∷◌, ◌++◌, if◌then◌else◌}

-- An `SQLException` with its error code, or a result.
pub data Answer (A : Type 0) : Type 0 where
  throws : ℕ → Answer A
  gives : A → Answer A

-- What `executeUpdate` returns.
pub data Count : Type 0 where
  negative : Count
  rows : ℕ → Count

-- A connection, over an unknown state: the statements that are committed, those of the open
-- transaction, and what the calls do to them if they succeed.
pub record Database (C : Type 0) : Type 1 where
  pub State : Type 0
  pub committed : State → List C
  pub pending : State → List C
  pub auto_commit : State → Bool
  pub do_statement : C → State → State
  pub do_commit : State → State
  pub do_rollback : State → State
  pub do_switch : Bool → State → State

-- In a transaction a statement is added to the open ones, which a commit commits in their order and
-- a rollback drops. Switching auto-commit on commits what is open.
pub record IsTransactional {C : Type 0} (D : Database C) : Type 0 where
  pub committed-do_statement :
      (c : C) (s : D.State)
      → D.auto_commit s ≡ false
      → D.committed (D.do_statement c s) ≡ D.committed s
  pub pending-do_statement :
      (c : C) (s : D.State)
      → D.auto_commit s ≡ false
      → D.pending (D.do_statement c s) ≡ D.pending s ++ c ∷ []
  pub auto_commit-do_statement :
      (c : C) (s : D.State) → D.auto_commit (D.do_statement c s) ≡ D.auto_commit s
  pub committed-do_commit :
      (s : D.State) → D.committed (D.do_commit s) ≡ D.committed s ++ D.pending s
  pub pending-do_commit : (s : D.State) → D.pending (D.do_commit s) ≡ []
  pub committed-do_rollback : (s : D.State) → D.committed (D.do_rollback s) ≡ D.committed s
  pub pending-do_rollback : (s : D.State) → D.pending (D.do_rollback s) ≡ []
  pub committed-switch_off : (s : D.State) → D.committed (D.do_switch false s) ≡ D.committed s
  pub pending-switch_off : (s : D.State) → D.pending (D.do_switch false s) ≡ D.pending s
  pub auto_commit-switch_off : (s : D.State) → D.auto_commit (D.do_switch false s) ≡ false
  pub committed-switch_on :
      (s : D.State) → D.committed (D.do_switch true s) ≡ D.committed s ++ D.pending s
  pub pending-switch_on : (s : D.State) → D.pending (D.do_switch true s) ≡ []

-- Where a piece of code ends: behind its last statement, by an exception, or by a `return`.
pub data Step (S A : Type 0) : Type 0 where
  next : A → S → Step S A
  raised : ℕ → S → Step S A
  returned : Bool → S → Step S A

abbrev pub Db : Type 0 → Type 0 → Type 0
Db S A = S → Step S A

module _ {S A B : Type 0} where
  abbrev pub bind_step : Step S A → (A → Db S B) → Step S B
  bind_step (next a s) k = k a s
  bind_step (raised code s) k = raised code s
  bind_step (returned b s) k = returned b s

  infixl 5 ◌>>=◌ ◌>>◌
  unfoldable pub ◌>>=◌ : Db S A → (A → Db S B) → Db S B
  ◌>>=◌ m k s = bind_step (m s) k

  abbrev pub ◌>>◌ : Db S A → Db S B → Db S B
  m >> n = m >>= λ _. n

module _ {S : Type 0} where
  unfoldable pub pure : Db S Unit
  pure s = next tt s

  unfoldable pub return_value : Bool → Db S Unit
  return_value b s = returned b s

  -- A call that changes nothing, as a `SELECT`.
  unfoldable pub query : {A : Type 0} → Answer A → Db S A
  query (throws code) s = raised code s
  query (gives a) s = next a s

-- How a function ends.
pub data Outcome (S : Type 0) : Type 0 where
  returns : Bool → S → Outcome S
  escapes : ℕ → S → Outcome S

abbrev pub after_rollback : {S : Type 0} → Step S Unit → Outcome S
after_rollback (next _ s) = returns false s
after_rollback (raised code s) = escapes code s
after_rollback (returned b s) = returns b s

module _ {C : Type 0} (D : Database C) where
  -- `executeUpdate`. A call that throws has had no effect: neither a statement nor, below, a commit,
  -- so that a server that commits and then loses the connection is left out.
  unfoldable pub execute : C → Answer Count → Db D.State Count
  execute c (throws code) s = raised code s
  execute c (gives n) s = next n (D.do_statement c s)

  unfoldable pub set_auto_commit : Bool → Answer Unit → Db D.State Unit
  set_auto_commit b (throws code) s = raised code s
  set_auto_commit b (gives _) s = next tt (D.do_switch b s)

  unfoldable pub commit : Answer Unit → Db D.State Unit
  commit (throws code) s = raised code s
  commit (gives _) s = next tt (D.do_commit s)

  unfoldable pub rollback : Answer Unit → Db D.State Unit
  rollback (throws code) s = raised code s
  rollback (gives _) s = next tt (D.do_rollback s)

  -- `if (…) { rollback(); return false; }`, with the test that lets the code go on.
  unfoldable pub require : Bool → Answer Unit → Db D.State Unit
  require true r = pure
  require false r = rollback r >> return_value false

  -- A `try` whose handler rolls back and returns false, before a `return true`.
  unfoldable pub try_catch : Answer Unit → Step D.State Unit → Outcome D.State
  try_catch r (next _ s) = returns true s
  try_catch r (raised code s) = after_rollback (rollback r s)
  try_catch r (returned b s) = returns b s
