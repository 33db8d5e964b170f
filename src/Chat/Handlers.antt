-- ===== src/Chat/Handlers.antt =====
-- ChatServer/LogicSystem.cpp: what the handlers of the requests do, in order. The database and the
-- other servers answer by functions; the body of a request is the record of its fields.
pub mod Requests
pub mod Answers
use distributed_instant_mess.Base.{
  ℕ, Bool, true, false, Option, none, some, List, [], ◌∷◌, ◌++◌, if◌then◌else◌,
}
use distributed_instant_mess.Base.Text.{Text, text_eq}
use distributed_instant_mess.Chat.Users
use distributed_instant_mess.Chat.Users.{
  UserInfo, Cache, Lookup, found, uid_invalid, throws, get_base_info, search_info,
}

-- The keys of `_fun_callbacks`, and any other id.
pub data ReqId : Type 0 where
  msg_chat_login : ReqId
  id_search_user_req : ReqId
  id_add_friend_req : ReqId
  id_auth_friend_req : ReqId
  id_text_chat_msg_req : ReqId
  id_heart_beat_req : ReqId
  id_load_chat_thread_req : ReqId
  id_create_private_chat_req : ReqId
  id_load_chat_msg_req : ReqId
  id_img_chat_msg_req : ReqId
  other_req : ReqId

pub record TextMsg : Type 0 where
  pub content : Text
  pub unique_id : Text

-- The fields of a request; numbers are taken as not negative.
pub record Request : Type 0 where
  pub uid : ℕ
  pub token : Text
  pub uid_text : Text
  pub applyname : Text
  pub bakname : Text
  pub touid : ℕ
  pub fromuid : ℕ
  pub back_name : Text
  pub thread_id : ℕ
  pub text_array : List TextMsg
  pub other_id : ℕ
  pub message_id : ℕ
  pub md5 : Text
  pub name : Text
  pub unique_id : Text

pub record ApplyInfo : Type 0 where
  pub uid : ℕ
  pub name : Text
  pub desc : Text
  pub icon : Text
  pub nick : Text
  pub sex : ℕ
  pub status : ℕ

pub record ChatMessage : Type 0 where
  pub message_id : ℕ
  pub thread_id : ℕ
  pub sender_id : ℕ
  pub recv_id : ℕ
  pub unique_id : Text
  pub content : Text
  pub chat_time : Text
  pub status : ℕ
  pub msg_type : ℕ

pub record ThreadInfo : Type 0 where
  pub thread_id : ℕ
  pub type : Text
  pub user1_id : ℕ
  pub user2_id : ℕ

-- A page of threads or of messages.
pub record Page (A : Type 0) : Type 0 where
  pub items : List A
  pub load_more : Bool
  pub next : ℕ

-- `get_session`: the session of a user at this server. The others are the functions of MysqlMgr; an
-- inserting one gives what it has changed in its arguments. `now`: the timestamp.
pub record Server : Type 0 where
  pub self_name : Text
  pub get_session : ℕ → Option ℕ
  pub now : Text
  pub get_apply_list : ℕ → Option (List ApplyInfo)
  pub get_friend_list : ℕ → List UserInfo
  pub add_friend : ℕ → ℕ → Text → List ChatMessage
  pub add_chat_msgs : List ChatMessage → List ChatMessage
  pub get_user_threads : ℕ → ℕ → ℕ → Option (Page ThreadInfo)
  pub create_private_chat : ℕ → ℕ → Option ℕ
  pub load_chat_msg : ℕ → ℕ → ℕ → Option (Page ChatMessage)

pub data ErrorCode : Type 0 where
  error_uid_invalid : ErrorCode
  error_token_invalid : ErrorCode
  error_create_chat_failed : ErrorCode
  error_load_chat_failed : ErrorCode

-- The answers. The fields of a login are the user, the token, the applications and the friends.
pub data Reply : Type 0 where
  refused : ErrorCode → Reply
  logged_in : UserInfo → Text → List ApplyInfo → List UserInfo → Reply
  user_found : UserInfo → Reply
  applied : Reply
  befriended : Option UserInfo → List ChatMessage → Reply
  texts_stored : (fromuid touid thread_id : ℕ) (chat_datas : List ChatMessage) → Reply
  alive : Reply
  threads : (uid : ℕ) → Page ThreadInfo → Reply
  chat_created : (uid other_id thread_id : ℕ) → Reply
  messages : (thread_id : ℕ) → Page ChatMessage → Reply
  image_stored : ChatMessage → (md5 : Text) → Reply

-- What another user is told.
pub data Notice : Type 0 where
  friend_applied : (applyuid : ℕ) (name desc : Text) (info : Option UserInfo) → Notice
  friend_agreed :
      (fromuid touid : ℕ) (info : Option UserInfo) (chat_datas : List ChatMessage) → Notice
  texts_sent : (fromuid touid thread_id : ℕ) (chat_datas : List ChatMessage) → Notice

-- What a handler does. `calls_server` is a call of ChatGrpcClient. `logs_in` is what `LoginHandler`
-- does under the lock of the user, which the tables of sessions describe.
pub data Act : Type 0 where
  answers : Reply → Act
  stores_apply : (uid touid : ℕ) (desc bakname : Text) → Act
  stores_friend : (uid touid : ℕ) (back_name : Text) → Act
  stores_msgs : List ChatMessage → Act
  stores_chat : (uid other_id : ℕ) → Act
  notifies : (session : ℕ) → Notice → Act
  calls_server : Text → Notice → Act
  logs_in : (uid : ℕ) → Act
  raises : Act

-- "utoken_" and "uip_"
abbrev pub user_token_prefix : Text
user_token_prefix = 117 ∷ 116 ∷ 111 ∷ 107 ∷ 101 ∷ 110 ∷ 95 ∷ []

abbrev pub user_ip_prefix : Text
user_ip_prefix = 117 ∷ 105 ∷ 112 ∷ 95 ∷ []

abbrev pub page_size : ℕ
page_size = 10

-- The user of a lookup, if it has one, and the name in it, which is empty if not.
abbrev pub info_of : Lookup → Option UserInfo
info_of (found u) = some u
info_of uid_invalid = none
info_of throws = none

abbrev pub name_of : Lookup → Text
name_of (found u) = u.name
name_of uid_invalid = []
name_of throws = []

-- Where a user is: at no server, at this one with or without a session, or at another.
pub data Place : Type 0 where
  offline : Place
  no_session : Place
  here : (session : ℕ) → Place
  elsewhere : Text → Place

abbrev pub at_session : Option ℕ → Place
at_session none = no_session
at_session (some session) = here session

unfoldable pub place_of : Text → Option ℕ → Option Text → Place
place_of self_name session none = offline
place_of self_name session (some ip) =
    if text_eq ip self_name then at_session session else elsewhere ip
