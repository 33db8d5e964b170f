-- ===== src/Chat/Reader.antt =====
-- ChatServer/CSession.cpp: how a session reads messages. `async_read_some` completes with the bytes
-- that came, at most as many as were asked for, or with an error.
pub mod Delivery
pub mod Bounds
use distributed_instant_mess.Base.{
  ℕ, ◌+◌, ◌-◌, ◌^◌, ◌≡◌, Bool, true, false, List, [], ◌∷◌, ◌++◌, ltb, leb, ◌==◌, if◌then◌else◌,
  length, take, drop,
}
use distributed_instant_mess.Chat.Frame.{Message, max_length, head_total_len, too_big, from_network}

-- What is being read: the header, or the body of a message.
pub data Phase : Type 0 where
  head : Phase
  body : ℕ → ℕ → Phase

-- `got` is what `_data` holds: its first `read_len` bytes.
pub record Reader : Type 0 where
  pub phase : Phase
  pub got : List ℕ

pub data Effect : Type 0 where
  -- `PostMsgToQue`
  posts : Message → Effect
  -- `ClearSession`, `Close` and `DealExceptionSession`
  clears closes deals : Effect

-- After a completion the session waits for more, or reads no more.
pub data Next : Type 0 where
  reads : Reader → Next
  stops : Next

abbrev pub start : Reader
start = record { phase = head; got = [] }

abbrev pub total : Phase → ℕ
total head = head_total_len
total (body id len) = len

-- SIZE_MAX
abbrev pub size_max : ℕ
size_max = 2 ^ 64 - 1

-- `make_shared<RecvNode>(msg_len, msg_id)` and `AsyncReadBody(msg_len)`. The array of a length below
-- -1 is refused with an exception, which is caught. At -1 the array is empty, its closing NUL is
-- written in front of it, which is taken to have no effect, and the session goes on to ask for the
-- number of bytes that -1 is as a `size_t`.
unfoldable pub read_body : ℕ → ℕ → List Effect × Next
read_body msg_id msg_len =
    if ltb msg_len (2 ^ 15)
    then ([], reads (record { phase = body msg_id msg_len; got = [] }))
    else (if msg_len == 2 ^ 16 - 1
        then ([], reads (record { phase = body msg_id size_max; got = [] }))
        else ([], stops))

-- `valid`: the session is still in the table of the server.
unfoldable pub after_head : Bool → List ℕ → List Effect × Next
after_head valid all =
    let msg_id = from_network (take 2 all) in
    let msg_len = from_network (drop 2 all) in
    if ltb (length all) head_total_len
    then (closes ∷ clears ∷ [], stops)
    else (if valid
        then (if too_big msg_id
            then (clears ∷ [], stops)
            else (if too_big msg_len then (clears ∷ [], stops) else read_body msg_id msg_len))
        else (closes ∷ [], stops))

unfoldable pub after_body : Bool → ℕ → ℕ → List ℕ → List Effect × Next
after_body valid msg_id msg_len all =
    if ltb (length all) msg_len
    then (closes ∷ clears ∷ [], stops)
    else (if valid
        then (posts (record { id = msg_id; text = all }) ∷ [], reads start)
        else (closes ∷ [], stops))

abbrev pub after : Bool → Phase → List ℕ → List Effect × Next
after valid head all = after_head valid all
after valid (body msg_id msg_len) all = after_body valid msg_id msg_len all

-- The completion of `async_read_some` in `asyncReadLen`.
unfoldable pub on_read : Bool → Reader → List ℕ → List Effect × Next
on_read valid r xs =
    let all = r.got ++ xs in
    if leb (total r.phase) (length all)
    then after valid r.phase all
    else ([], reads (record r { got = all }))

-- The completion with an error.
unfoldable pub on_error : List Effect × Next
on_error = (closes ∷ deals ∷ [], stops)
