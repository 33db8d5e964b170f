-- ===== src/Storage/Dao/AddFriend.antt =====
-- ChatServer/MysqlDao.cpp: `AddFriend`.
pub mod Whole
use distributed_instant_mess.Base.{
  ℕ, ◌+◌, ◌≡◌, refl, Bool, true, false, not, Option, none, some, List, [], ◌∷◌, ◌++◌, ltb, leb,
  ◌==◌, if◌then◌else◌, min,
}
use Prim.Native.Nat.{max}
use distributed_instant_mess.Storage.Session.{
  Answer, Count, negative, rows, Database, Step, Db, ◌>>=◌, ◌>>◌, pure, return_value, query,
  execute, set_auto_commit, commit, rollback, require, Outcome, try_catch,
}

-- The statements, with their parameters. Whether an INSERT IGNORE makes a row or passes over one that
-- is there is up to the database; the code goes on in both cases.
pub data Change : Type 0 where
  set_status : (from_uid to_uid : ℕ) → Change
  insert_ignore_friend : (self_id friend_id : ℕ) (back : List ℕ) → Change
  insert_thread : Change
  insert_private_chat : (thread_id user1_id user2_id : ℕ) → Change
  insert_message : (thread_id sender_id recv_id : ℕ) (content : List ℕ) → Change

-- What the database answers, call by call: `select` and the three that ask for the last id give
-- the row, if there is one.
pub record Answers : Type 0 where
  pub begin : Answer Unit
  pub select : Answer (Option (List ℕ × List ℕ))
  pub update_status : Answer Count
  pub insert_smaller : Answer Count
  pub insert_larger : Answer Count
  pub thread : Answer Count
  pub thread_id : Answer (Option ℕ)
  pub private_chat : Answer Count
  pub apply_message : Answer Count
  pub apply_id : Answer (Option ℕ)
  pub hello_message : Answer Count
  pub hello_id : Answer (Option ℕ)
  pub end_commit : Answer Unit
  pub undo : Answer Unit
  pub catch_undo : Answer Unit

abbrev pub is_one : Count → Bool
is_one negative = false
is_one (rows n) = n == 1

-- Not `< 0`.
abbrev pub is_good : Count → Bool
is_good negative = false
is_good (rows n) = true

abbrev pub is_empty : List ℕ → Bool
is_empty [] = true
is_empty (_ ∷ _) = false

abbrev pub is_some : {A : Type 0} → Option A → Bool
is_some none = false
is_some (some _) = true

-- "We are friends now!" by its codes.
abbrev pub hello : List ℕ
hello =
    87 ∷ 101 ∷ 32 ∷ 97 ∷ 114 ∷ 101 ∷ 32 ∷ 102 ∷ 114 ∷ 105 ∷ 101 ∷ 110 ∷ 100 ∷ 115 ∷ 32 ∷ 110 ∷ 111
    ∷ 119 ∷ 33 ∷ []

module _ (from to : ℕ) (back_name : List ℕ) where
  -- The INSERT IGNORE of each of the two, the one of the smaller user first.
  abbrev pub smaller_row : List ℕ → Change
  smaller_row reverse_back =
      if from == min from to
      then insert_ignore_friend from to back_name
      else insert_ignore_friend to from reverse_back

  abbrev pub larger_row : List ℕ → Change
  larger_row reverse_back =
      if from == max from to
      then insert_ignore_friend from to back_name
      else insert_ignore_friend to from reverse_back

module _ (D : Database Change) (from to : ℕ) (back_name : List ℕ) (r : Answers) where
  -- 7 and the commit.
  unfoldable pub say_hello : ℕ → Db D.State Unit
  say_hello thread_id = do
    n ← execute D (insert_message thread_id from to hello) r.hello_message
    require D (is_good n) r.undo
    id ← query r.hello_id
    require D (is_some id) r.undo
    commit D r.end_commit
    return_value true

  -- 6, if the application has a text.
  unfoldable pub send_apply : ℕ → List ℕ → Db D.State Unit
  send_apply thread_id apply_desc = if is_empty apply_desc then say_hello thread_id else do
    n ← execute D (insert_message thread_id to from apply_desc) r.apply_message
    require D (is_good n) r.undo
    id ← query r.apply_id
    require D (is_some id) r.undo
    say_hello thread_id

  -- 4 and 5.
  unfoldable pub with_thread : List ℕ → Option ℕ → Db D.State Unit
  with_thread apply_desc none = rollback D r.undo >> return_value false
  with_thread apply_desc (some thread_id) = do
    n ← execute D (insert_private_chat thread_id from to) r.private_chat
    require D (is_good n) r.undo
    send_apply thread_id apply_desc

  -- 2 and 3, and the row of 4.
  unfoldable pub with_apply : Option (List ℕ × List ℕ) → Db D.State Unit
  with_apply none = rollback D r.undo >> return_value false
  with_apply (some (reverse_back, apply_desc)) = do
    n ← execute D (set_status to from) r.update_status
    require D (is_one n) r.undo
    m ← execute D (smaller_row from to back_name reverse_back) r.insert_smaller
    require D (is_good m) r.undo
    k ← execute D (larger_row from to back_name reverse_back) r.insert_larger
    require D (is_good k) r.undo
    _ ← execute D insert_thread r.thread
    id ← query r.thread_id
    with_thread apply_desc id

  unfoldable pub add_friend_body : Db D.State Unit
  add_friend_body = do set_auto_commit D false r.begin; found ← query r.select; with_apply found

  unfoldable pub add_friend : D.State → Outcome D.State
  add_friend s = try_catch D r.catch_undo (add_friend_body s)
