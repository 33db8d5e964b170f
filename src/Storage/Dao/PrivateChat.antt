-- ===== src/Storage/Dao/PrivateChat.antt =====
-- ChatServer/MysqlDao.cpp: `CreatePrivateChat`. The id of the thread, an output, is left out.
use distributed_instant_mess.Base.{
  sym, ℕ, ◌≡◌, ◌⊎◌, refl, inl, inr, true, false, Option, none, some, List, [], ◌∷◌, ◌++◌, ◌==◌,
  Bool-cases, ap, ◌∙◌, if◌then◌else◌, min, append-nil,
}
use Prim.Native.Nat.{max}
use distributed_instant_mess.Storage.Session.{
  Database, IsTransactional, Answer, throws, gives, Count, Step, next, raised, returned, Db, ◌>>=◌,
  ◌>>◌, return_value, query, execute, set_auto_commit, commit, rollback, Outcome, returns, escapes,
}
use distributed_instant_mess.Storage.Session.Atomic.{
  IsAtomic, Ends, Leads, execute-Ends, asked-Ends, commit-Ends, begin-Ends,
}

pub data Change : Type 0 where
  insert_chat_thread : Change
  insert_private_chat : (thread_id user1_id user2_id : ℕ) → Change

-- What the database answers, call by call. Without a row `getInt` throws.
pub record Answers : Type 0 where
  pub begin : Answer Unit
  pub check : Answer (Option ℕ)
  pub insert_thread : Answer Count
  pub last_id : Answer ℕ
  pub insert_private : Answer Count
  pub end_commit : Answer Unit
  pub catch_undo : Answer Unit
  pub retry_begin : Answer Unit
  pub retry : Answer (Option ℕ)

module _ (D : Database Change) (user1_id user2_id : ℕ) (r : Answers) where
  unfoldable pub create_thread : Option ℕ → Db D.State Unit
  create_thread (some thread_id) = do commit D r.end_commit; return_value true
  create_thread none = do
    _ ← execute D insert_chat_thread r.insert_thread
    thread_id ← query r.last_id
    _ ←
        execute D (insert_private_chat thread_id (min user1_id user2_id) (max user1_id user2_id))
          r.insert_private
    commit D r.end_commit
    return_value true

  -- The `try` of the handler.
  unfoldable pub retry_select : Db D.State (Option ℕ)
  retry_select = do set_auto_commit D true r.retry_begin; query r.retry

  abbrev pub after_retry : Step D.State (Option ℕ) → Outcome D.State
  after_retry (next none s) = returns false s
  after_retry (next (some thread_id) s) = returns true s
  after_retry (raised code s) = returns false s
  after_retry (returned b s) = returns b s

  -- The handler: 1062 is the code of a duplicate key.
  abbrev pub handle_raised : ℕ → Step D.State Unit → Outcome D.State
  handle_raised code (raised again s) = escapes again s
  handle_raised code (returned b s) = returns b s
  handle_raised code (next _ s) =
      if code == 1062 then after_retry (retry_select s) else returns false s

  abbrev pub catch_duplicate : Step D.State Unit → Outcome D.State
  catch_duplicate (next _ s) = returns false s
  catch_duplicate (raised code s) = handle_raised code (rollback D r.catch_undo s)
  catch_duplicate (returned b s) = returns b s

  unfoldable pub create_private_chat : D.State → Outcome D.State
  create_private_chat s =
      catch_duplicate
        ((do set_auto_commit D false r.begin; found ← query r.check; create_thread found) s)

module _ (user1_id user2_id : ℕ) where
  -- The first query found no chat, and there is a new thread and the private chat of the two in it, the
  -- smaller user first; or one of the two queries found a chat, and there is nothing new.
  abbrev pub IsChat : Answers → List Change → Type 0
  IsChat r p =
      ((thread_id : ℕ) × (p ≡ [])
        × ((r.check ≡ gives (some thread_id)) ⊎ (r.retry ≡ gives (some thread_id))))
      ⊎ ((thread_id : ℕ) × (r.check ≡ gives none)
          × (r.last_id ≡ gives thread_id)
          × (p
              ≡ insert_chat_thread
                ∷ insert_private_chat thread_id (min user1_id user2_id) (max user1_id user2_id)
                ∷ []))

module _ (D : Database Change) (L : IsTransactional D) (user1_id user2_id : ℕ) (r : Answers)
    (old : List Change) where
  create_thread-Ends :
      (o : Option ℕ)
      → r.check ≡ gives o
      → Ends D old (IsChat user1_id user2_id r) [] (create_thread D user1_id user2_id r o)
  unfolding create_thread
  create_thread-Ends (some thread_id) checked =
      commit-Ends D L old (IsChat user1_id user2_id r) [] _ (inl (thread_id, refl, inl checked))
  create_thread-Ends none checked =
      let W = IsChat user1_id user2_id r in
      execute-Ends D L old W [] _ _ _ λ _.
        asked-Ends D old W (insert_chat_thread ∷ []) _ _ λ thread_id given.
          execute-Ends D L old W (insert_chat_thread ∷ []) _ _ _ λ _.
            commit-Ends D L old W
              (insert_chat_thread
                ∷ insert_private_chat thread_id (min user1_id user2_id) (max user1_id user2_id)
                ∷ [])
              _ (inr (thread_id, checked, given, refl))

  -- Switching on commits nothing if nothing is open.
  on :
      (s : D.State)
      → D.committed s ≡ old
      → D.pending s ≡ []
      → D.committed (D.do_switch true s) ≡ old
  on s e f =
      L.committed-switch_on s ∙ ap (λ p. D.committed s ++ p) f ∙ append-nil (D.committed s) ∙ e

  retry-IsAtomic :
      (a : Answer Unit) (b : Answer (Option ℕ)) (s : D.State)
      → r.retry ≡ b
      → D.committed s ≡ old
      → D.pending s ≡ []
      → IsAtomic D old
          (IsChat user1_id user2_id r)
          (after_retry D user1_id user2_id r ((set_auto_commit D true a >> query b) s))
  unfolding set_auto_commit query ◌>>=◌
  retry-IsAtomic (throws c) b s found e f = (e, f)
  retry-IsAtomic (gives _) (throws c) s found e f = (on s e f, L.pending-switch_on s)
  retry-IsAtomic (gives _) (gives none) s found e f = (on s e f, L.pending-switch_on s)
  retry-IsAtomic (gives _) (gives (some thread_id)) s found e f =
      ([], on s e f ∙ sym (append-nil old), inl (thread_id, refl, inr found), L.pending-switch_on s)

  raised-IsAtomic :
      (code : ℕ) (a : Answer Unit) (s : D.State)
      → D.committed s ≡ old
      → IsAtomic D old
          (IsChat user1_id user2_id r)
          (handle_raised D user1_id user2_id r code (rollback D a s))
  unfolding rollback retry_select
  raised-IsAtomic code (throws c) s e = e
  raised-IsAtomic code (gives _) s e = elim (Bool-cases (code == 1062)) [
    | inl duplicate ↦ rw duplicate (
        retry-IsAtomic r.retry_begin r.retry (D.do_rollback s) refl (L.committed-do_rollback s ∙ e)
          (L.pending-do_rollback s))
    | inr other ↦ rw other (L.committed-do_rollback s ∙ e, L.pending-do_rollback s)
  ]

  catch-IsAtomic :
      (m : Step D.State Unit)
      → Leads D old (IsChat user1_id user2_id r) (λ _. ⊥) m
      → IsAtomic D old (IsChat user1_id user2_id r) (catch_duplicate D user1_id user2_id r m)
  catch-IsAtomic (next _ s) h = absurd h
  catch-IsAtomic (raised code s) h = raised-IsAtomic code r.catch_undo s h
  catch-IsAtomic (returned b s) h = h

-- A private chat is made as a whole or not at all, whichever calls the database lets fail and
-- wherever. If `CreatePrivateChat` returns true, one of two things holds. The first query found no
-- chat, and a new thread is committed and the private chat of the two users, the smaller one first,
-- with the id that the database gave for the thread. Or one of the two queries found a chat, and
-- nothing is committed. If it returns false, it has committed nothing. In both cases no transaction
-- is open. If an exception leaves it, nothing is committed. The database does what `IsTransactional`
-- says, a call that throws has had no effect, and no transaction is open before.
pub create_private_chat-IsAtomic :
    (D : Database Change) (L : IsTransactional D) (user1_id user2_id : ℕ) (r : Answers)
    (s : D.State)
    → D.pending s ≡ []
    → IsAtomic D
        (D.committed s)
        (IsChat user1_id user2_id r)
        (create_private_chat D user1_id user2_id r s)
unfolding create_private_chat
create_private_chat-IsAtomic D L user1_id user2_id r s none_open =
    let W = IsChat user1_id user2_id r in
    catch-IsAtomic D L user1_id user2_id r (D.committed s) _ (
      begin-Ends D L (D.committed s) W r.begin _ s refl none_open (
        asked-Ends D (D.committed s) W [] _ _ λ found checked.
          create_thread-Ends D L user1_id user2_id r (D.committed s) found checked))
