-- ===== src/Chat/Frame.antt =====
-- ChatServer/MsgNode.h and ChatServer/MsgNode.cpp: a message on the wire. Two bytes of id and two of
-- length, in network order, stand in front of the text. A `short` is its bit pattern, below 2 ^ 16;
-- it is negative from 2 ^ 15 on.
use distributed_instant_mess.Base.{
  ℕ, ◌+◌, ◌*◌, ◌/◌, ◌%◌, ◌^◌, ◌≤◌, ◌≡◌, refl, Bool, true, ◌&&◌, List, [], ◌∷◌, ◌++◌, Option, none,
  some, ltb, if◌then◌else◌, length, take, arith, take-all,
}

abbrev pub max_length : ℕ
max_length = 1024 * 2

abbrev pub head_total_len : ℕ
head_total_len = 4

-- `n > MAX_LENGTH` of a `short`.
abbrev pub too_big : ℕ → Bool
too_big n = ltb n (2 ^ 15) && ltb max_length n

-- `host_to_network_short`, and the copy of its two bytes.
abbrev pub to_network : ℕ → List ℕ
to_network n = n / 2 ^ 8 % 2 ^ 8 ∷ n % 2 ^ 8 ∷ []

abbrev pub from_network : List ℕ → ℕ
from_network (a ∷ b ∷ rest) = a * 2 ^ 8 + b
from_network _ = 0

-- A message: the id and the bytes.
pub record Message : Type 0 where
  pub id : ℕ
  pub text : List ℕ

-- `SendNode(msg, max_len, msg_id)`, where `max_len` is a `short`. A negative length, and one with no
-- room for the header, have no defined copy.
unfoldable pub send_node : List ℕ → ℕ → ℕ → Option (List ℕ)
send_node msg max_len msg_id =
    if ltb (max_len + head_total_len) (2 ^ 15)
    then some (to_network msg_id ++ (to_network max_len ++ take max_len msg))
    else none

-- The node of `Send(std::string, short)`: the length becomes a `short`.
unfoldable pub node_of : Message → Option (List ℕ)
unfolding send_node
node_of m = send_node m.text (length m.text % 2 ^ 16) m.id

-- A message that the receiver takes.
abbrev pub IsSendable : Message → Type 0
IsSendable m = (m.id ≤ max_length) × (length m.text ≤ max_length)

abbrev pub frame : Message → List ℕ
frame m = to_network m.id ++ (to_network (length m.text) ++ m.text)

pub node_of-frame : (m : Message) → IsSendable m → node_of m ≡ some (frame m)
unfolding node_of send_node
node_of-frame m h =
    let small : length m.text % 2 ^ 16 ≡ length m.text = omega arith in
    let room : ltb (length m.text + head_total_len) (2 ^ 15) ≡ true = ground arith in
    rw (small, room, take-all (length m.text) m.text (omega arith)) refl
