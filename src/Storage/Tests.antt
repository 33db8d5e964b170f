-- ===== src/Storage/Tests.antt =====
-- Runs of the storage components on small inputs.
use distributed_instant_mess.Base.{
  Bool, ◌++◌, ℕ, refl, some, none, take, ◌≡◌, true, false, List, [], ◌∷◌, arith,
}
use distributed_instant_mess.Storage.Session.{throws, gives, rows, Database, IsTransactional}
use distributed_instant_mess.Storage.Session.Atomic.{IsAtomic}
use distributed_instant_mess.Storage.Dao.AddFriend
use distributed_instant_mess.Storage.Dao.AddFriend.{add_friend}
use distributed_instant_mess.Storage.Dao.AddFriend.Whole.{IsFriendship, add_friend-IsAtomic}
use distributed_instant_mess.Storage.Dao.RegUser
use distributed_instant_mess.Storage.Dao.RegUser.{
  reg_user_transaction, IsRegistration, reg_user_transaction-IsAtomic,
}
use distributed_instant_mess.Storage.Dao.PrivateChat
use distributed_instant_mess.Storage.Dao.PrivateChat.{
  create_private_chat, IsChat, create_private_chat-IsAtomic,
}
use distributed_instant_mess.Storage.Dao.ChatMsg
use distributed_instant_mess.Storage.Dao.ChatMsg.{
  ChatMessage, add_chat_msgs, add_chat_msgs-IsAtomic,
}
use distributed_instant_mess.Storage.Dao.Paging.Whole.{
  after, Rises, AreInts, load_all, load_all-whole,
}
use distributed_instant_mess.Storage.MysqlPool.{Pool, init, holding}
use distributed_instant_mess.Storage.MysqlPool.Conservation.{
  Event, gets, returns, loses, closes, checks, run, all_of, run_conserves,
}
use distributed_instant_mess.Storage.MysqlPool.Ending.{turns, gets_idle, round-ends}

-- A round that meets a connection that is broken, with a caller and the end of the pool between.
abbrev events : List Event
events =
    checks true 170
    ∷ checks true 170
    ∷ gets
    ∷ gets
    ∷ loses
    ∷ checks false 170
    ∷ checks true 171
    ∷ checks true 171
    ∷ closes
    ∷ returns 100
    ∷ checks true 172
    ∷ []

run_conserves_example : all_of (run (init 3 3 100) events) ≡ 3
run_conserves_example = run_conserves 3 3 100 events

-- The thread holds a connection, and one more is to be probed.
abbrev in_round : Pool
in_round = record {
  pool = 100 ∷ [];
  leased = 1;
  dropped = 0;
  lost = 0;
  fail_count = 0;
  stop = false;
  phase = holding 100 2 0 170;
}

abbrev turns_left : List Event
turns_left =
    checks false 170
    ∷ gets
    ∷ checks true 170
    ∷ checks true 170
    ∷ checks true 170
    ∷ checks false 170
    ∷ closes
    ∷ checks true 170
    ∷ checks true 170
    ∷ []

round-ends_example : gets_idle in_round turns_left ≡ true
unfolding turns
round-ends_example = round-ends in_round turns_left (omega arith)

-- A database that holds its statements in lists.
record Lists (C : Type 0) : Type 0 where
  auto : Bool
  stored : List C
  open_ones : List C

abbrev add_to : {C : Type 0} → Bool → C → Lists C → Lists C
add_to true c s = record s { stored = s.stored ++ c ∷ [] }
add_to false c s = record s { open_ones = s.open_ones ++ c ∷ [] }

abbrev close_all : {C : Type 0} → Lists C → Lists C
close_all s = record s { stored = s.stored ++ s.open_ones; open_ones = [] }

abbrev switch_to : {C : Type 0} → Bool → Lists C → Lists C
switch_to true s = record (close_all s) { auto = true }
switch_to false s = record s { auto = false }

abbrev database : (C : Type 0) → Database C
database C = record {
  State = Lists C;
  committed = λ s. s.stored;
  pending = λ s. s.open_ones;
  auto_commit = λ s. s.auto;
  do_statement = λ c s. add_to s.auto c s;
  do_commit = λ s. close_all s;
  do_rollback = λ s. record s { open_ones = [] };
  do_switch = λ b s. switch_to b s;
}

add_to-stored :
    {C : Type 0} (b : Bool) (c : C) (s : Lists C) → b ≡ false → (add_to b c s).stored ≡ s.stored
add_to-stored true c s off = absurd (ground (arith, off))
add_to-stored false c s off = refl

add_to-open_ones :
    {C : Type 0} (b : Bool) (c : C) (s : Lists C)
    → b ≡ false
    → (add_to b c s).open_ones ≡ s.open_ones ++ c ∷ []
add_to-open_ones true c s off = absurd (ground (arith, off))
add_to-open_ones false c s off = refl

add_to-auto : {C : Type 0} (b : Bool) (c : C) (s : Lists C) → (add_to b c s).auto ≡ s.auto
add_to-auto true c s = refl
add_to-auto false c s = refl

database-IsTransactional : (C : Type 0) → IsTransactional (database C)
database-IsTransactional C = record {
  committed-do_statement = λ c s off. add_to-stored s.auto c s off;
  pending-do_statement = λ c s off. add_to-open_ones s.auto c s off;
  auto_commit-do_statement = λ c s. add_to-auto s.auto c s;
  committed-do_commit = λ s. refl;
  pending-do_commit = λ s. refl;
  committed-do_rollback = λ s. refl;
  pending-do_rollback = λ s. refl;
  committed-switch_off = λ s. refl;
  pending-switch_off = λ s. refl;
  auto_commit-switch_off = λ s. refl;
  committed-switch_on = λ s. refl;
  pending-switch_on = λ s. refl;
}

-- The insertion of the second row meets a deadlock.
abbrev deadlock : AddFriend.Answers
deadlock = record {
  begin = gives tt;
  select = gives (some (b'b' ∷ [], b'h' ∷ []));
  update_status = gives (rows 1);
  insert_smaller = gives (rows 1);
  insert_larger = throws 1213;
  thread = gives (rows 1);
  thread_id = gives (some 12);
  private_chat = gives (rows 1);
  apply_message = gives (rows 1);
  apply_id = gives (some 30);
  hello_message = gives (rows 1);
  hello_id = gives (some 31);
  end_commit = gives tt;
  undo = gives tt;
  catch_undo = gives tt;
}

abbrev friend_session : Lists AddFriend.Change
friend_session = record { auto = true; stored = AddFriend.insert_thread ∷ []; open_ones = [] }

add_friend-IsAtomic_example :
    IsAtomic
      (database AddFriend.Change)
      (AddFriend.insert_thread ∷ [])
      (IsFriendship 9 4 (b'a' ∷ []) deadlock)
      (add_friend (database AddFriend.Change) 9 4 (b'a' ∷ []) deadlock friend_session)
add_friend-IsAtomic_example =
    add_friend-IsAtomic (database AddFriend.Change) (database-IsTransactional AddFriend.Change) 9 4
      (b'a' ∷ []) deadlock friend_session (λ e. absurd (omega (arith, e))) refl

-- Another session makes the chat of the two at the same time.
abbrev duplicate : PrivateChat.Answers
duplicate = record {
  begin = gives tt;
  check = gives none;
  insert_thread = gives (rows 1);
  last_id = gives 12;
  insert_private = throws 1062;
  end_commit = gives tt;
  catch_undo = gives tt;
  retry_begin = gives tt;
  retry = gives (some 11);
}

abbrev chat_session : Lists PrivateChat.Change
chat_session = record { auto = false; stored = []; open_ones = [] }

create_private_chat-IsAtomic_example :
    IsAtomic
      (database PrivateChat.Change)
      []
      (IsChat 9 4 duplicate)
      (create_private_chat (database PrivateChat.Change) 9 4 duplicate chat_session)
create_private_chat-IsAtomic_example =
    create_private_chat-IsAtomic (database PrivateChat.Change)
      (database-IsTransactional PrivateChat.Change) 9 4 duplicate chat_session refl

abbrev message : ℕ → ChatMessage
message content = record {
  thread_id = 11;
  sender_id = 4;
  recv_id = 9;
  content = content ∷ [];
  chat_time = [];
  status = 0;
  msg_type = 0;
}

abbrev stored : ChatMsg.Answers
stored = record {
  begin = gives tt;
  insert = λ i. gives (rows 1);
  last_id = λ i. gives none;
  end_commit = gives tt;
  catch_undo = gives tt;
}

abbrev message_session : Lists ChatMessage
message_session = record { auto = true; stored = message 1 ∷ []; open_ones = [] }

add_chat_msgs-IsAtomic_example :
    IsAtomic
      (database ChatMessage)
      (message 1 ∷ [])
      (λ p. p ≡ message 2 ∷ message 3 ∷ [])
      (add_chat_msgs (database ChatMessage) stored (message 2 ∷ message 3 ∷ []) message_session)
add_chat_msgs-IsAtomic_example =
    add_chat_msgs-IsAtomic (database ChatMessage) (database-IsTransactional ChatMessage) stored
      (message 2 ∷ message 3 ∷ []) message_session refl

abbrev table : List ℕ
table = 3 ∷ 5 ∷ 8 ∷ 9 ∷ []

-- Two pages behind the id 3.
load_all-whole_example :
    load_all (λ row. row) (λ last limit. take limit (after (λ row. row) last table)) 2 2 3
    ≡ some (after (λ row. row) 3 table)
unfolding after Rises AreInts
load_all-whole_example =
    load_all-whole (λ row. row) (λ last limit. take limit (after (λ row. row) last table)) table 0
      (omega arith, (omega arith, (omega arith, (omega arith, tt))))
      (omega arith, (omega arith, (omega arith, (omega arith, tt)))) (λ last limit small fits. refl)
      2 2 3 (omega arith) (omega arith) (omega arith) (omega arith) (omega arith)

-- The name is taken.
abbrev taken : RegUser.Answers
taken = record {
  begin = gives tt;
  email_exist = gives false;
  name_exist = gives true;
  update_id = gives (rows 1);
  select_id = gives (some 13);
  insert = gives (rows 1);
  end_commit = gives tt;
  undo = gives tt;
  catch_undo = gives tt;
}

abbrev user_session : Lists RegUser.Change
user_session = record { auto = true; stored = RegUser.next_user_id ∷ []; open_ones = [] }

reg_user_transaction-IsAtomic_example :
    IsAtomic
      (database RegUser.Change)
      (RegUser.next_user_id ∷ [])
      (IsRegistration taken (b'n' ∷ []) (b'm' ∷ []) [] [])
      (reg_user_transaction
        (database RegUser.Change)
        (b'n' ∷ [])
        (b'm' ∷ [])
        []
        []
        taken
        user_session)
reg_user_transaction-IsAtomic_example =
    reg_user_transaction-IsAtomic (database RegUser.Change)
      (database-IsTransactional RegUser.Change) (b'n' ∷ []) (b'm' ∷ []) [] [] taken user_session
      refl
