-- ===== src/Resource/Logic/Handlers.antt =====
-- ResourceServer/LogicWorker.cpp: the handlers that take no chunk, and `task_callback`. The files that
-- ResourceServer/LogicSystem.cpp keeps by their hash are a list.
use distributed_instant_mess.Base.{
  ℕ, ◌%◌, true, false, Option, none, some, List, [], ◌∷◌, if◌then◌else◌,
}
use distributed_instant_mess.Base.Text.{Text, text_eq}
use distributed_instant_mess.Resource.Download.{FileInfo, DownloadTask}
use distributed_instant_mess.Resource.Logic.{
  ReqId, id_test_msg_req, id_upload_file_req, id_sync_file_req, id_upload_head_icon_req,
  id_down_load_file_req, id_img_chat_upload_req, id_file_info_sync_req,
  id_img_chat_continue_upload_req, id_img_chat_down_info_sync_req, id_img_chat_down_req, other_req,
  id_test_msg_rsp, id_sync_file_rsp, id_down_load_file_rsp, id_img_chat_down_info_sync_rsp,
  id_img_chat_down_rsp, success, file_not_exists, data_key, total_size_key, seq_key, name_key,
  trans_size_key, md5_key, client_path_key, req_type_key, message_id_key, thread_id_key,
  sender_id_key, recv_id_key, receiver_id_key, msg_type_key, status_key, number, text, Request,
  ChatMessage, Services, Store, Callback, Act, sends, posts_download, throws, file_worker_count,
  down_load_worker_count, refuse,
}
use distributed_instant_mess.Resource.Logic.Uploads.{
  on_upload_file, on_upload_head_icon, on_img_chat_upload, on_file_info_sync,
  on_img_chat_continue_upload, check_token, unless_refused,
}

-- `_map_md5_files`
abbrev pub Md5Files : Type 0 → Type 0
Md5Files P = List (Text × FileInfo P Text)

-- `AddMD5File` and `GetFileInfo` of LogicSystem.
unfoldable pub add_md5_file : {P : Type 0} → Md5Files P → Text → FileInfo P Text → Md5Files P
add_md5_file files md5 info = (md5, info) ∷ files

unfoldable pub find_md5_file : {P : Type 0} → Md5Files P → Text → Option (FileInfo P Text)
find_md5_file [] md5 = none
find_md5_file ((key, info) ∷ files) md5 =
    let rest = find_md5_file files md5 in if text_eq key md5 then some info else rest

module _ {P : Type 0} (S : Services P) (R : Store P) where
  -- The text is the request's field `data`.
  unfoldable pub on_test_msg : R.State → Request → R.State × List (Act P)
  on_test_msg r q = (
    r,
    sends (record {
      rsp = id_test_msg_rsp;
      error = success;
      fields = text data_key q.file_data ∷ [];
    })
        ∷ [],
  )

  abbrev pub sync_found : Request → Option (FileInfo P Text) → List (Act P)
  sync_found q none = refuse id_sync_file_rsp file_not_exists
  sync_found q (some file) =
      sends (record {
        rsp = id_sync_file_rsp;
        error = success;
        fields =
            text total_size_key (S.to_string file.total_size)
            ∷ number seq_key file.seq
            ∷ text name_key file.name
            ∷ text trans_size_key (S.to_string file.trans_size)
            ∷ text md5_key q.md5
            ∷ [];
      })
      ∷ []

  unfoldable pub on_sync_file : Md5Files P → R.State → Request → R.State × List (Act P)
  on_sync_file files r q = (r, sync_found q (find_md5_file files q.md5))

  abbrev pub download_task : ℕ → Request → DownloadTask P Text
  download_task owner q = record {
    task_name = q.name;
    task_seq = q.seq;
    task_path = S.path_of owner q.name;
    callback = true;
  }

  abbrev pub download_callback : Request → Callback
  download_callback q = record {
    rsp = id_down_load_file_rsp;
    resets_error = false;
    captured =
        text client_path_key q.client_path
        ∷ text name_key q.name
        ∷ text req_type_key q.req_type
        ∷ [];
  }

  unfoldable pub on_down_load_file : R.State → Request → R.State × List (Act P)
  on_down_load_file r q = unless_refused S R (check_token S R id_down_load_file_rsp r q) r (
    r,
    posts_download (S.hash q.name % file_worker_count) (download_task q.uid q) (download_callback q)
        ∷ [],
  )

  -- The size is what `file_size` gives or throws.
  abbrev pub info_reply : ChatMessage → Option ℕ → List (Act P)
  info_reply chat_msg none = throws ∷ []
  info_reply chat_msg (some file_size) =
      sends (record {
        rsp = id_img_chat_down_info_sync_rsp;
        error = success;
        fields =
            number message_id_key chat_msg.message_id
            ∷ number thread_id_key chat_msg.thread_id
            ∷ number sender_id_key chat_msg.sender_id
            ∷ number recv_id_key chat_msg.recv_id
            ∷ text name_key chat_msg.content
            ∷ number msg_type_key chat_msg.msg_type
            ∷ number status_key chat_msg.status
            ∷ text total_size_key (S.to_string file_size)
            ∷ [];
      })
      ∷ []

  -- A message that is not found has no answer.
  abbrev pub info_found : Option ChatMessage → List (Act P)
  info_found none = []
  info_found (some chat_msg) =
      info_reply chat_msg (S.file_size (S.path_of chat_msg.sender_id chat_msg.content))

  unfoldable pub on_img_chat_down_info_sync : R.State → Request → R.State × List (Act P)
  on_img_chat_down_info_sync r q = (r, info_found (S.get_chat_msg_by_id q.message_id))

  abbrev pub img_down_callback : Request → Callback
  img_down_callback q = record {
    rsp = id_img_chat_down_rsp;
    resets_error = true;
    captured =
        text name_key q.name
        ∷ number sender_id_key q.sender
        ∷ number receiver_id_key q.receiver
        ∷ [];
  }

  unfoldable pub on_img_chat_down : R.State → Request → R.State × List (Act P)
  on_img_chat_down r q = unless_refused S R (check_token S R id_img_chat_down_rsp r q) r (
    r,
    posts_download (S.hash q.name % down_load_worker_count) (download_task q.sender q)
          (img_down_callback q)
        ∷ [],
  )

  unfoldable pub task_callback : Md5Files P → R.State → ReqId → Request → R.State × List (Act P)
  task_callback files r id_test_msg_req q = on_test_msg r q
  task_callback files r id_upload_file_req q = on_upload_file S R r q
  task_callback files r id_sync_file_req q = on_sync_file files r q
  task_callback files r id_upload_head_icon_req q = on_upload_head_icon S R r q
  task_callback files r id_down_load_file_req q = on_down_load_file r q
  task_callback files r id_img_chat_upload_req q = on_img_chat_upload S R r q
  task_callback files r id_file_info_sync_req q = on_file_info_sync S R r q
  task_callback files r id_img_chat_continue_upload_req q = on_img_chat_continue_upload S R r q
  task_callback files r id_img_chat_down_info_sync_req q = on_img_chat_down_info_sync r q
  task_callback files r id_img_chat_down_req q = on_img_chat_down r q
  task_callback files r other_req q = (r, [])
