-- ===== src/Storage/Dao/ChatMsg.antt =====
-- ChatServer/MysqlDao.cpp: the two functions `AddChatMsg`, which store one message or several. The
-- ids that the database gives to the messages, an output, are left out.
use distributed_instant_mess.Base.{
  ℕ, ◌+◌, ◌∙◌, ◌≡◌, refl, sym, true, false, Option, List, [], ◌∷◌, ◌++◌, append_assoc, append-nil,
}
use distributed_instant_mess.Storage.Session.{
  Database, IsTransactional, Answer, Count, Db, ◌>>=◌, ◌>>◌, return_value, query, execute,
  set_auto_commit, commit, Outcome, try_catch,
}
use distributed_instant_mess.Storage.Session.Atomic.{
  IsAtomic, Ends, execute-Ends, query-Ends, commit-Ends, begin-IsAtomic,
}

-- The row of a message, also the statement that inserts it.
pub record ChatMessage : Type 0 where
  pub thread_id : ℕ
  pub sender_id : ℕ
  pub recv_id : ℕ
  pub content : List ℕ
  pub chat_time : List ℕ
  pub status : ℕ
  pub msg_type : ℕ

-- What the database answers to the insertion of the message `i`, counted from 0, and to the question
-- for its id; a result without a row is passed over.
pub record Answers : Type 0 where
  pub begin : Answer Unit
  pub insert : ℕ → Answer Count
  pub last_id : ℕ → Answer (Option ℕ)
  pub end_commit : Answer Unit
  pub catch_undo : Answer Unit

module _ (D : Database ChatMessage) (r : Answers) where
  unfoldable pub insert_all : ℕ → List ChatMessage → Db D.State Unit
  insert_all i [] = do commit D r.end_commit; return_value true
  insert_all i (msg ∷ chat_datas) = do
    _ ← execute D msg (r.insert i)
    _ ← query (r.last_id i)
    insert_all (i + 1) chat_datas

  unfoldable pub add_chat_msgs : List ChatMessage → D.State → Outcome D.State
  add_chat_msgs chat_datas s =
      try_catch D r.catch_undo ((do set_auto_commit D false r.begin; insert_all 0 chat_datas) s)

  unfoldable pub add_chat_msg : ChatMessage → D.State → Outcome D.State
  add_chat_msg chat_data s = try_catch D r.catch_undo (
      (do
        set_auto_commit D false r.begin
        _ ← execute D chat_data (r.insert 0)
        _ ← query (r.last_id 0)
        commit D r.end_commit
        return_value true)
        s)

module _ (D : Database ChatMessage) (L : IsTransactional D) (r : Answers) where
  insert_all-Ends :
      (old all p : List ChatMessage) (i : ℕ) (chat_datas : List ChatMessage)
      → p ++ chat_datas ≡ all
      → Ends D old (λ q. q ≡ all) p (insert_all D r i chat_datas)
  unfolding insert_all
  insert_all-Ends old all p i [] e = commit-Ends D L old (λ q. q ≡ all) p _ (sym (append-nil p) ∙ e)
  insert_all-Ends old all p i (msg ∷ chat_datas) e =
      execute-Ends D L old (λ q. q ≡ all) p _ _ _
        λ _.
          query-Ends D old (λ q. q ≡ all) (p ++ msg ∷ []) _ _
            λ _.
              insert_all-Ends old all (p ++ msg ∷ []) (i + 1) chat_datas
                (append_assoc p (msg ∷ []) chat_datas ∙ e)

  -- The messages of a list are stored all together or not at all, whichever calls the database lets
  -- fail and wherever. If `AddChatMsg` returns true, it has committed exactly them, in their order;
  -- if it returns false, nothing, and in both cases no transaction is open. If an exception leaves
  -- it, nothing is committed. The database does what `IsTransactional` says, a call that throws has
  -- had no effect, and no transaction is open before.
  pub add_chat_msgs-IsAtomic :
      (chat_datas : List ChatMessage) (s : D.State)
      → D.pending s ≡ []
      → IsAtomic D (D.committed s) (λ p. p ≡ chat_datas) (add_chat_msgs D r chat_datas s)
  unfolding add_chat_msgs
  add_chat_msgs-IsAtomic chat_datas s none_open =
      begin-IsAtomic D L (D.committed s) (λ p. p ≡ chat_datas) r.begin r.catch_undo _ s refl
        none_open (insert_all-Ends (D.committed s) chat_datas [] 0 chat_datas refl)

  -- Storing one message is storing a list of one message.
  pub add_chat_msg-eq :
      (chat_data : ChatMessage) (s : D.State)
      → add_chat_msg D r chat_data s ≡ add_chat_msgs D r (chat_data ∷ []) s
  unfolding add_chat_msg add_chat_msgs insert_all
  add_chat_msg-eq chat_data s = refl
