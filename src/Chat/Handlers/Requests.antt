-- ===== src/Chat/Handlers/Requests.antt =====
-- ChatServer/LogicSystem.cpp: the handlers.
use distributed_instant_mess.Base.{ℕ, Option, none, some, List, [], ◌∷◌, ◌++◌, map, if◌then◌else◌}
use distributed_instant_mess.Base.Text.{Text, text_eq}
use distributed_instant_mess.Chat.Users.{
  Cache, Services, Lookup, found, uid_invalid, throws, get_base_info, search_info,
}
use distributed_instant_mess.Chat.Handlers.{
  ReqId, msg_chat_login, id_search_user_req, id_add_friend_req, id_auth_friend_req,
  id_text_chat_msg_req, id_heart_beat_req, id_load_chat_thread_req, id_create_private_chat_req,
  id_load_chat_msg_req, id_img_chat_msg_req, other_req, TextMsg, Request, ApplyInfo, ChatMessage,
  ThreadInfo, Page, Server, error_uid_invalid, error_token_invalid, error_create_chat_failed,
  error_load_chat_failed, refused, logged_in, user_found, applied, befriended, texts_stored, alive,
  threads, chat_created, messages, image_stored, Notice, friend_applied, friend_agreed, texts_sent,
  Act, answers, stores_apply, stores_friend, stores_msgs, stores_chat, notifies, calls_server,
  logs_in, raises, user_token_prefix, user_ip_prefix, page_size, info_of, name_of, Place, offline,
  no_session, here, elsewhere, place_of,
}

module _ (R : Cache) (S : Services) (H : Server) where
  -- Where the other user of a request is, by the entry of Redis.
  abbrev pub place : R.State → ℕ → Place
  place r touid =
      place_of H.self_name (H.get_session touid) (R.get r (user_ip_prefix ++ S.to_string touid))

  abbrev pub applies_of : Option (List ApplyInfo) → List ApplyInfo
  applies_of none = []
  applies_of (some apply_list) = apply_list

  abbrev pub login_base : Request → Lookup × R.State → R.State × List Act
  login_base q (found user_info, r) = (
    r,
    logs_in q.uid
        ∷ answers (
            logged_in user_info q.token (applies_of (H.get_apply_list q.uid))
              (H.get_friend_list q.uid))
        ∷ [],
  )
  login_base q (uid_invalid, r) = (r, answers (refused error_uid_invalid) ∷ [])
  login_base q (throws, r) = (r, answers (refused error_uid_invalid) ∷ [])

  abbrev pub login_token : R.State → Request → Option Text → R.State × List Act
  login_token r q none = (r, answers (refused error_uid_invalid) ∷ [])
  login_token r q (some token_value) =
      if text_eq token_value q.token
      then login_base q (get_base_info R S r q.uid)
      else (r, answers (refused error_token_invalid) ∷ [])

  unfoldable pub login_handler : R.State → Request → R.State × List Act
  login_handler r q = login_token r q (R.get r (user_token_prefix ++ S.to_string q.uid))

  abbrev pub search_found : Lookup → List Act
  search_found (found user_info) = answers (user_found user_info) ∷ []
  search_found uid_invalid = answers (refused error_uid_invalid) ∷ []
  search_found throws = raises ∷ []

  unfoldable pub on_search : R.State → Request → R.State × List Act
  on_search r q = ((search_info R S r q.uid_text).1, search_found (search_info R S r q.uid_text).0)

  -- A user at this server is told if it has a session here, one at another server through it.
  abbrev pub deliver : Place → Notice → List Act
  deliver offline n = []
  deliver no_session n = []
  deliver (here session) n = notifies session n ∷ []
  deliver (elsewhere ip) n = calls_server ip n ∷ []

  abbrev pub apply_notice : Request → Lookup → Notice
  apply_notice q l = friend_applied q.uid (name_of l) q.applyname (info_of l)

  -- The user who applies is looked up unless the other one is at no server.
  abbrev pub apply_at : Place → R.State → Request → R.State × List Act
  apply_at offline r q = (r, [])
  apply_at p r q =
      ((get_base_info R S r q.uid).1, deliver p (apply_notice q (get_base_info R S r q.uid).0))

  unfoldable pub add_friend_apply : R.State → Request → R.State × List Act
  add_friend_apply r q = (
    (apply_at (place r q.touid) r q).0,
    stores_apply q.uid q.touid q.applyname q.bakname
        ∷ ((apply_at (place r q.touid) r q).1 ++ answers applied ∷ []),
  )

  -- The messages are in the answer only if the other user is told.
  abbrev pub auth_at : Place → R.State → Request → Lookup → List ChatMessage → R.State × List Act
  auth_at offline r q l chat_datas = (r, answers (befriended (info_of l) []) ∷ [])
  auth_at no_session r q l chat_datas = (r, answers (befriended (info_of l) []) ∷ [])
  auth_at (here session) r q l chat_datas = (
    (get_base_info R S r q.fromuid).1,
    notifies session
          (friend_agreed q.fromuid q.touid (info_of (get_base_info R S r q.fromuid).0) chat_datas)
        ∷ answers (befriended (info_of l) chat_datas)
        ∷ [],
  )
  auth_at (elsewhere ip) r q l chat_datas = (
    r,
    calls_server ip (friend_agreed q.fromuid q.touid none chat_datas)
        ∷ answers (befriended (info_of l) chat_datas)
        ∷ [],
  )

  abbrev pub auth_with : Lookup × R.State → Request → R.State × List Act
  auth_with (l, r) q = (
    (auth_at (place r q.touid) r q l (H.add_friend q.fromuid q.touid q.back_name)).0,
    stores_friend q.fromuid q.touid q.back_name
        ∷ (auth_at (place r q.touid) r q l (H.add_friend q.fromuid q.touid q.back_name)).1,
  )

  unfoldable pub auth_friend_apply : R.State → Request → R.State × List Act
  auth_friend_apply r q = auth_with (get_base_info R S r q.touid) q

  -- `chat_msg->status = 2` and `ChatMsgType::TEXT`. The id is set by the database.
  abbrev pub message_of : Request → TextMsg → ChatMessage
  message_of q txt_obj = record {
    message_id = 0;
    thread_id = q.thread_id;
    sender_id = q.fromuid;
    recv_id = q.touid;
    unique_id = txt_obj.unique_id;
    content = txt_obj.content;
    chat_time = H.now;
    status = 2;
    msg_type = 0;
  }

  abbrev pub text_acts : Place → Request → List ChatMessage → List Act
  text_acts p q chat_datas =
      deliver p (texts_sent q.fromuid q.touid q.thread_id chat_datas)
      ++ answers (texts_stored q.fromuid q.touid q.thread_id chat_datas) ∷ []

  unfoldable pub deal_chat_text_msg : R.State → Request → R.State × List Act
  deal_chat_text_msg r q = (
    r,
    stores_msgs (map (message_of q) q.text_array)
        ∷ text_acts (place r q.touid) q (H.add_chat_msgs (map (message_of q) q.text_array)),
  )

  unfoldable pub heart_beat_handler : R.State → Request → R.State × List Act
  heart_beat_handler r q = (r, answers alive ∷ [])

  abbrev pub threads_found : Request → Option (Page ThreadInfo) → List Act
  threads_found q none = answers (refused error_uid_invalid) ∷ []
  threads_found q (some page) = answers (threads q.uid page) ∷ []

  unfoldable pub get_user_threads_handler : R.State → Request → R.State × List Act
  get_user_threads_handler r q =
      (r, threads_found q (H.get_user_threads q.uid q.thread_id page_size))

  abbrev pub chat_made : Request → Option ℕ → List Act
  chat_made q none = answers (refused error_create_chat_failed) ∷ []
  chat_made q (some thread_id) = answers (chat_created q.uid q.other_id thread_id) ∷ []

  unfoldable pub on_create_private_chat : R.State → Request → R.State × List Act
  on_create_private_chat r q =
      (r, stores_chat q.uid q.other_id ∷ chat_made q (H.create_private_chat q.uid q.other_id))

  abbrev pub msgs_found : Request → Option (Page ChatMessage) → List Act
  msgs_found q none = answers (refused error_load_chat_failed) ∷ []
  msgs_found q (some page) = answers (messages q.thread_id page) ∷ []

  unfoldable pub on_load_chat_msg : R.State → Request → R.State × List Act
  on_load_chat_msg r q = (r, msgs_found q (H.load_chat_msg q.thread_id q.message_id page_size))

  -- `MsgStatus::UN_UPLOAD` and `ChatMsgType::PIC`
  abbrev pub image_of : Request → ChatMessage
  image_of q = record {
    message_id = 0;
    thread_id = q.thread_id;
    sender_id = q.fromuid;
    recv_id = q.touid;
    unique_id = q.unique_id;
    content = q.name;
    chat_time = H.now;
    status = 3;
    msg_type = 1;
  }

  abbrev pub images_stored : Request → List ChatMessage → List Act
  images_stored q [] = answers (image_stored (image_of q) q.md5) ∷ []
  images_stored q (chat_msg ∷ rest) = answers (image_stored chat_msg q.md5) ∷ []

  -- The other user is told by the server that takes the file.
  unfoldable pub deal_chat_img_msg : R.State → Request → R.State × List Act
  deal_chat_img_msg r q =
      (r, stores_msgs (image_of q ∷ []) ∷ images_stored q (H.add_chat_msgs (image_of q ∷ [])))

  unfoldable pub handle : R.State → ReqId → Request → R.State × List Act
  handle r msg_chat_login q = login_handler r q
  handle r id_search_user_req q = on_search r q
  handle r id_add_friend_req q = add_friend_apply r q
  handle r id_auth_friend_req q = auth_friend_apply r q
  handle r id_text_chat_msg_req q = deal_chat_text_msg r q
  handle r id_heart_beat_req q = heart_beat_handler r q
  handle r id_load_chat_thread_req q = get_user_threads_handler r q
  handle r id_create_private_chat_req q = on_create_private_chat r q
  handle r id_load_chat_msg_req q = on_load_chat_msg r q
  handle r id_img_chat_msg_req q = deal_chat_img_msg r q
  handle r other_req q = (r, [])
