-- ===== src/Status/Tests.antt =====
-- Runs of the status server over the small cache.
use distributed_instant_mess.Base.{
  ◌+◌, ◌≡◌, ◌≢◌, ◌↔◌, refl, Option, none, some, [], ◌∷◌, if◌then◌else◌, Bool-cases, inl, inr,
}
use distributed_instant_mess.Base.Text.{Text, text_eq, text_eq_refl, text_eq_sound}
use distributed_instant_mess.Chat.Users.{UserInfo, Cache, Services, get_base_info}
use distributed_instant_mess.Chat.Users.Direct.{Keeps}
use distributed_instant_mess.Chat.Handlers.{msg_chat_login, Request, Server, logs_in}
use distributed_instant_mess.Chat.Handlers.Requests.{handle}
use distributed_instant_mess.Status.{
  ChatServer, Servers, Key, name_key, host_key, port_key, init, split_words, words_at, add_servers,
  put_server, get_chat_server, insert_token,
}
use distributed_instant_mess.Status.Login.{first_act, token-logs_in}

abbrev store_text : (Text → Option Text) → Text → Text → Text → Option Text
store_text f k v j = if text_eq j k then some v else f j

store_text-other : (f : Text → Option Text) (k v j : Text) → j ≢ k → store_text f k v j ≡ f j
store_text-other f k v j ne = elim (Bool-cases (text_eq j k)) [
  | inl e ↦ absurd (ne (text_eq_sound j k e))
  | inr e ↦ rw e refl
]

abbrev texts : Cache
texts = record { State = Text → Option Text; get = λ r k. r k; set = λ r k v. store_text r k v }

texts-Keeps : Keeps texts
texts-Keeps = record {
  get-set = λ r k v. rw (text_eq_refl k) refl;
  get_other = λ r k v j ne. store_text-other r k v j ne;
}

abbrev someone : UserInfo
someone = record {
  uid = 7;
  name = [];
  pwd = [];
  email = [];
  nick = [];
  desc = [];
  sex = 0;
  icon = [];
}

abbrev one_user : Services
one_user = record {
  get_user = λ uid. some someone;
  get_user_named = λ name. none;
  to_styled_string = λ u. [];
  parse = λ s. someone;
  to_string = λ n. (48 + n) ∷ [];
  stoi = λ s. none;
}

abbrev chat_server : Server
chat_server = record {
  self_name = 49 ∷ [];
  get_session = λ uid. none;
  now = [];
  get_apply_list = λ uid. none;
  get_friend_list = λ uid. [];
  add_friend = λ uid other back. [];
  add_chat_msgs = λ msgs. msgs;
  get_user_threads = λ uid last n. none;
  create_private_chat = λ uid other. none;
  load_chat_msg = λ thread last n. none;
}

-- Every section that is named has its own name.
abbrev config : Text → Key → Text
config word name_key = word
config word host_key = 104 ∷ []
config word port_key = 112 ∷ []

abbrev first_server : Servers → Option ChatServer
first_server [] = none
first_server ((name, server) ∷ servers) = some server

-- "a,,b" names two servers.
configured :
    init config (97 ∷ 44 ∷ 44 ∷ 98 ∷ [])
    ≡ (97 ∷ [], record { host = 104 ∷ []; port = 112 ∷ []; name = 97 ∷ [] })
      ∷ (98 ∷ [], record { host = 104 ∷ []; port = 112 ∷ []; name = 98 ∷ [] })
      ∷ []
unfolding init split_words words_at add_servers put_server text_eq
configured = refl

abbrev login_request : Request
login_request = record {
  uid = 7;
  token = 5 ∷ [];
  uid_text = [];
  applyname = [];
  bakname = [];
  touid = 0;
  fromuid = 0;
  back_name = [];
  thread_id = 0;
  text_array = [];
  other_id = 0;
  message_id = 0;
  md5 = [];
  name = [];
  unique_id = [];
}

abbrev empty : Text → Option Text
empty k = none

abbrev after : Text → Option Text
after = store_text empty (117 ∷ 116 ∷ 111 ∷ 107 ∷ 101 ∷ 110 ∷ 95 ∷ 55 ∷ []) (5 ∷ [])

abbrev one_server : Servers
one_server = (97 ∷ [], record { host = 104 ∷ []; port = 112 ∷ []; name = 97 ∷ [] }) ∷ []

token-logs_in_example :
    (first_act (handle texts one_user chat_server after msg_chat_login login_request).1
      ≡ some (logs_in 7))
    ↔ (◌≡◌ {A = Text} (5 ∷ []) (5 ∷ []))
unfolding get_chat_server insert_token get_base_info text_eq
token-logs_in_example =
    token-logs_in texts texts-Keeps one_user chat_server first_server one_server empty (5 ∷ [])
      login_request someone (record { host = 104 ∷ []; port = 112 ∷ []; token = 5 ∷ [] }) after refl
      refl
