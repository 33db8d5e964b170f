-- ===== src/Storage/Dao/AddFriend/Whole.antt =====
-- Two users become friends as a whole or not at all.
use distributed_instant_mess.Base.{
  ℕ, ◌≡◌, ◌≢◌, refl, sym, ap, subst, append_assoc, Option, none, some, List, [], ◌∷◌, ◌++◌, arith,
  ltb, if◌then◌else◌,
}
use distributed_instant_mess.Storage.Session.{gives, Database, IsTransactional}
use distributed_instant_mess.Storage.Session.Atomic.{
  IsAtomic, Ends, execute-Ends, query-Ends, asked-Ends, require-Ends, commit-Ends, give_up-Ends,
  begin-IsAtomic,
}
use distributed_instant_mess.Storage.Dao.AddFriend.{
  Change, set_status, insert_ignore_friend, insert_thread, insert_private_chat, insert_message,
  Answers, hello, smaller_row, larger_row, say_hello, send_apply, with_thread, with_apply,
  add_friend_body, add_friend,
}

module _ (from to : ℕ) (back_name : List ℕ) where
  -- The two rows of a friendship, each with the name that its owner gave the other.
  abbrev pub friend_rows : List ℕ → List Change
  friend_rows reverse_back =
      if ltb from to
      then insert_ignore_friend from to back_name ∷ insert_ignore_friend to from reverse_back ∷ []
      else insert_ignore_friend to from reverse_back ∷ insert_ignore_friend from to back_name ∷ []

  abbrev pub messages : List ℕ → ℕ → List Change
  messages [] thread_id = insert_message thread_id from to hello ∷ []
  messages (c ∷ desc) thread_id =
      insert_message thread_id to from (c ∷ desc) ∷ insert_message thread_id from to hello ∷ []

  -- Everything that makes two users friends.
  abbrev pub friendship : List ℕ → List ℕ → ℕ → List Change
  friendship reverse_back apply_desc thread_id =
      set_status to from ∷ friend_rows reverse_back
      ++ insert_thread ∷ insert_private_chat thread_id from to ∷ messages apply_desc thread_id

  -- With the name and the text that the application had, and the thread whose id the database gave.
  abbrev pub IsFriendship : Answers → List Change → Type 0
  IsFriendship r p =
      (reverse_back apply_desc : List ℕ) × (thread_id : ℕ) × (r.select
        ≡ gives (some (reverse_back, apply_desc)))
      × (r.thread_id ≡ gives (some thread_id))
      × (p ≡ friendship reverse_back apply_desc thread_id)

module _ (D : Database Change) (L : IsTransactional D) (from to : ℕ) (back_name : List ℕ)
    (r : Answers) (old : List Change) where
  say_hello-Ends :
      (p : List Change) (thread_id : ℕ)
      → IsFriendship from to back_name r (p ++ insert_message thread_id from to hello ∷ [])
      → Ends D old (IsFriendship from to back_name r) p (say_hello D from to back_name r thread_id)
  unfolding say_hello
  say_hello-Ends p thread_id w =
      let W = IsFriendship from to back_name r in
      let p' = p ++ insert_message thread_id from to hello ∷ [] in
      execute-Ends D L old W p _ _ _ λ n. require-Ends D L old W p' _ _ _ λ _.
        query-Ends D old W p' _ _
          λ id. require-Ends D L old W p' _ _ _ λ _. commit-Ends D L old W p' _ w

  send_apply-Ends :
      (p : List Change) (thread_id : ℕ) (desc : List ℕ)
      → IsFriendship from to back_name r (p ++ messages from to back_name desc thread_id)
      → Ends D old
          (IsFriendship from to back_name r)
          p
          (send_apply D from to back_name r thread_id desc)
  unfolding send_apply
  send_apply-Ends p thread_id [] w = say_hello-Ends p thread_id w
  send_apply-Ends p thread_id (c ∷ desc) w =
      let W = IsFriendship from to back_name r in
      let p' = p ++ insert_message thread_id to from (c ∷ desc) ∷ [] in
      execute-Ends D L old W p _ _ _ λ n. require-Ends D L old W p' _ _ _ λ _.
        query-Ends D old W p' _ _ λ id. require-Ends D L old W p' _ _ _ λ _.
          say_hello-Ends p' thread_id (
            subst W
              (sym (
                append_assoc p (insert_message thread_id to from (c ∷ desc) ∷ [])
                  (insert_message thread_id from to hello ∷ [])))
              w)

  with_thread-Ends :
      (p : List Change) (desc : List ℕ) (o : Option ℕ)
      → r.thread_id ≡ gives o
      → ((thread_id : ℕ)
          → r.thread_id ≡ gives (some thread_id)
          → IsFriendship from to back_name r (
              p
              ++ insert_private_chat thread_id from to ∷ messages from to back_name desc thread_id))
      → Ends D old (IsFriendship from to back_name r) p (with_thread D from to back_name r desc o)
  unfolding with_thread
  with_thread-Ends p desc none asked w =
      give_up-Ends D L old (IsFriendship from to back_name r) p r.undo
  with_thread-Ends p desc (some thread_id) asked w =
      let W = IsFriendship from to back_name r in
      let p' = p ++ insert_private_chat thread_id from to ∷ [] in
      execute-Ends D L old W p _ _ _ λ n. require-Ends D L old W p' _ _ _ λ _.
        send_apply-Ends p' thread_id desc (
          subst W
            (sym (
              append_assoc p (insert_private_chat thread_id from to ∷ [])
                (messages from to back_name desc thread_id)))
            (w thread_id asked))

  rows-lem :
      (reverse_back : List ℕ)
      → from ≢ to
      → smaller_row from to back_name reverse_back ∷ larger_row from to back_name reverse_back ∷ []
        ≡ friend_rows from to back_name reverse_back
  rows-lem reverse_back ne = ground (arith, ne)

  with_apply-Ends :
      (o : Option (List ℕ × List ℕ))
      → from ≢ to
      → r.select ≡ gives o
      → Ends D old (IsFriendship from to back_name r) [] (with_apply D from to back_name r o)
  unfolding with_apply
  with_apply-Ends none ne chosen = give_up-Ends D L old (IsFriendship from to back_name r) [] r.undo
  with_apply-Ends (some (reverse_back, desc)) ne chosen =
      let W = IsFriendship from to back_name r in
      let a = set_status to from in
      let b = smaller_row from to back_name reverse_back in
      let c = larger_row from to back_name reverse_back in
      execute-Ends D L old W [] _ _ _ λ n. require-Ends D L old W (a ∷ []) _ _ _ λ _.
        execute-Ends D L old W (a ∷ []) _ _ _ λ m. require-Ends D L old W (a ∷ b ∷ []) _ _ _ λ _.
          execute-Ends D L old W (a ∷ b ∷ []) _ _ _ λ k.
            require-Ends D L old W (a ∷ b ∷ c ∷ []) _ _ _ λ _.
              execute-Ends D L old W (a ∷ b ∷ c ∷ []) _ _ _ λ _.
                asked-Ends D old W (a ∷ b ∷ c ∷ insert_thread ∷ []) _ _ λ id given.
                  with_thread-Ends (a ∷ b ∷ c ∷ insert_thread ∷ []) desc id given λ thread_id e. (
                    reverse_back,
                    desc,
                    thread_id,
                    chosen,
                    e,
                    ap
                        (λ rows.
                          a ∷ rows
                          ++ insert_thread
                            ∷ insert_private_chat thread_id from to
                            ∷ messages from to back_name desc thread_id)
                        (rows-lem reverse_back ne),
                  )

-- Two different users become friends as a whole or not at all, whichever calls the database lets fail
-- and wherever. If `AddFriend` returns true, it has committed exactly these statements: the status of
-- the application; the INSERT IGNORE of the row of each of the two, the smaller first, one with
-- `back_name` and one with the name that the application had; the thread; the private chat of the two
-- with the id that the database gave for the thread; the text that the application had, if it is not
-- empty; and the greeting. If it returns false, it has committed nothing. In both cases no
-- transaction is open. If an exception leaves it, nothing is committed. The database does what
-- `IsTransactional` says, a call that throws has had no effect, and no transaction is open before.
pub add_friend-IsAtomic :
    (D : Database Change) (L : IsTransactional D) (from to : ℕ) (back_name : List ℕ) (r : Answers)
    (s : D.State)
    → from ≢ to
    → D.pending s ≡ []
    → IsAtomic D
        (D.committed s)
        (IsFriendship from to back_name r)
        (add_friend D from to back_name r s)
unfolding add_friend add_friend_body
add_friend-IsAtomic D L from to back_name r s ne none_open =
    let W = IsFriendship from to back_name r in
    begin-IsAtomic D L (D.committed s) W r.begin r.catch_undo _ s refl none_open (
      asked-Ends D (D.committed s) W [] _ _
        λ found chosen. with_apply-Ends D L from to back_name r (D.committed s) found ne chosen)
