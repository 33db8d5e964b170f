-- ===== src/Storage/Dao/Paging.antt =====
-- ChatServer/MysqlDao.cpp: `LoadChatMsg` and `GetUserThreads`, which read a table page by page, each
-- page behind the last id of the one before. The ids of the database have 64 bits and go into an int,
-- which is its bit pattern below 2 ^ 32; the parameter of the next query is such an int.
pub mod Whole
use distributed_instant_mess.Base.{
  ℕ, ◌+◌, ◌-◌, ◌%◌, ◌^◌, ◌≡◌, Bool, true, false, Option, none, some, List, [], ◌∷◌, ◌++◌, ltb,
  if◌then◌else◌, length, take,
}

-- `PageResult`. The cursor is `none` where `back()` is called on an empty vector, which C++ leaves
-- undefined.
pub record PageResult (A : Type 0) : Type 0 where
  pub messages : List A
  pub load_more : Bool
  pub next_cursor : Option ℕ

-- The outputs of `GetUserThreads`.
pub record ThreadPage (A : Type 0) : Type 0 where
  pub threads : List A
  pub more : Bool
  pub next_last_id : ℕ

-- The conversion of a `uint64_t` or `int64_t` to an int.
abbrev pub to_int : ℕ → ℕ
to_int n = n % 2 ^ 32

-- A row has an id. `select last limit`: the answer of the database to the query.
module _ {A : Type 0} (id : A → ℕ) (select : ℕ → ℕ → List A) where
  abbrev pub pop_back : List A → List A
  pop_back rows = take (length rows - 1) rows

  -- The id of the last row, `last` if there is none.
  abbrev pub last_or : ℕ → List A → ℕ
  last_or last [] = last
  last_or last (row ∷ rows) = last_or (id row) rows

  abbrev pub back : List A → Option ℕ
  back [] = none
  back (row ∷ rows) = some (to_int (last_or (id row) rows))

  abbrev pub page_of : List A → ℕ → PageResult A
  page_of rows page_size =
      if ltb page_size (length rows)
      then record { messages = pop_back rows; load_more = true; next_cursor = back (pop_back rows) }
      else record { messages = rows; load_more = false; next_cursor = back rows }

  unfoldable pub load_chat_msg : ℕ → ℕ → PageResult A
  load_chat_msg last_message_id page_size =
      page_of (select last_message_id (page_size + 1)) page_size

  abbrev pub thread_page : ℕ → List A → ℕ → ThreadPage A
  thread_page last_id rows page_size =
      if ltb page_size (length rows)
      then record {
        threads = pop_back rows;
        more = true;
        next_last_id = to_int (last_or last_id (pop_back rows));
      }
      else record { threads = rows; more = false; next_last_id = to_int (last_or last_id rows) }

  unfoldable pub get_user_threads : ℕ → ℕ → ThreadPage A
  get_user_threads last_id page_size =
      thread_page last_id (select last_id (page_size + 1)) page_size
