-- ===== src/Status.antt =====
-- StatusServer/StatusServiceImpl.cpp: which chat server a user is sent to, and with which token.
mod Tests
pub mod Login
use distributed_instant_mess.Base.{
  ℕ, Bool, true, false, Option, none, some, List, [], ◌∷◌, ◌++◌, ◌==◌, map, if◌then◌else◌,
}
use distributed_instant_mess.Base.Text.{Text, text_eq}
use distributed_instant_mess.Chat.Users.{Cache}
use distributed_instant_mess.Chat.Handlers.{user_token_prefix}

pub record ChatServer : Type 0 where
  pub host : Text
  pub port : Text
  pub name : Text

-- `_servers`, by their names.
abbrev pub Servers : Type 0
Servers = List (Text × ChatServer)

-- The configuration: a section and a key give a text, which is empty if there is none.
pub data Key : Type 0 where
  name_key : Key
  host_key : Key
  port_key : Key

abbrev pub Config : Type 0
Config = Text → Key → Text

-- `std::getline(ss, word, ',')` until the end: what is behind the last comma counts unless it is
-- empty.
abbrev pub push_word : Text → List Text → List Text
push_word [] words = words
push_word (c ∷ word) words = (c ∷ word) ∷ words

-- The words from a place on. The first of them goes on from the letters before that place.
unfoldable pub words_at : Text → Text → List Text
words_at word [] = push_word word []
words_at word (c ∷ s) =
    let ended = words_at [] s in
    let longer = words_at (word ++ c ∷ []) s in if c == 44 then word ∷ ended else longer

unfoldable pub split_words : Text → List Text
split_words s = words_at [] s

abbrev pub server_of : Config → Text → ChatServer
server_of cfg word = record {
  host = cfg word host_key;
  port = cfg word port_key;
  name = cfg word name_key;
}

-- `_servers[name] = server`
unfoldable pub put_server : Servers → ChatServer → Servers
put_server [] server = (server.name, server) ∷ []
put_server ((name, old) ∷ servers) server =
    let rest = put_server servers server in
    if text_eq name server.name then (name, server) ∷ servers else (name, old) ∷ rest

abbrev pub has_name : Text → Bool
has_name [] = false
has_name (c ∷ s) = true

-- The loop of the constructor.
unfoldable pub add_servers : Config → Servers → List Text → Servers
add_servers cfg servers [] = servers
add_servers cfg servers (word ∷ words) =
    let skipped = add_servers cfg servers words in
    let added = add_servers cfg (put_server servers (server_of cfg word)) words in
    if has_name (cfg word name_key) then added else skipped

-- `server_list` is what the configuration says for "chatservers".
unfoldable pub init : Config → Text → Servers
init cfg server_list = add_servers cfg [] (split_words server_list)

pub record Reply : Type 0 where
  pub host : Text
  pub port : Text
  pub token : Text

-- `begin` of the map: some server of it, or none if there is no server, where the source reads what
-- is not there. `uuid`: the new token.
module _ (R : Cache) (to_string : ℕ → Text) (begin : Servers → Option ChatServer) where
  unfoldable pub insert_token : R.State → ℕ → Text → R.State
  insert_token r uid token = R.set r (user_token_prefix ++ to_string uid) token

  abbrev pub reply_with : Option ChatServer → R.State → ℕ → Text → Option (Reply × R.State)
  reply_with none r uid uuid = none
  reply_with (some server) r uid uuid =
      some
        (record { host = server.host; port = server.port; token = uuid }, insert_token r uid uuid)

  unfoldable pub get_chat_server : Servers → R.State → ℕ → Text → Option (Reply × R.State)
  get_chat_server servers r uid uuid = reply_with (begin servers) r uid uuid
