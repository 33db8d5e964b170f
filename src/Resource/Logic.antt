-- ===== src/Resource/Logic.antt =====
-- ResourceServer/LogicWorker.cpp: what its handlers read, keep and answer. Json, the configuration
-- and the database are parameters: a body that is parsed is the record of its fields, and a path is
-- made from the directory of a user and a name.
pub mod Uploads
pub mod Handlers
pub mod Workers
mod Cases
pub mod Served
pub mod Token
pub mod Pipeline
use distributed_instant_mess.Base.{
  ℕ, zero, suc, ◌+◌, ◌%◌, Bool, true, false, not, Option, none, some, List, [], ◌∷◌, ◌++◌, ◌==◌,
  if◌then◌else◌,
}
use distributed_instant_mess.Base.Text.{Text, text_eq}
use distributed_instant_mess.Resource.Upload
use distributed_instant_mess.Resource.Upload.{MsgId, FileTask}
use distributed_instant_mess.Resource.Download
use distributed_instant_mess.Resource.Download.{FileInfo, DownloadTask, chunk}

-- The keys of `_fun_callbacks`, and any other id.
pub data ReqId : Type 0 where
  id_test_msg_req : ReqId
  id_upload_file_req : ReqId
  id_sync_file_req : ReqId
  id_upload_head_icon_req : ReqId
  id_down_load_file_req : ReqId
  id_img_chat_upload_req : ReqId
  id_file_info_sync_req : ReqId
  id_img_chat_continue_upload_req : ReqId
  id_img_chat_down_info_sync_req : ReqId
  id_img_chat_down_req : ReqId
  other_req : ReqId

-- The ids of the answers.
pub data RspId : Type 0 where
  id_test_msg_rsp : RspId
  id_upload_file_rsp : RspId
  id_sync_file_rsp : RspId
  id_upload_head_icon_rsp : RspId
  id_down_load_file_rsp : RspId
  id_img_chat_upload_rsp : RspId
  id_file_info_sync_rsp : RspId
  id_img_chat_continue_upload_rsp : RspId
  id_img_chat_down_info_sync_rsp : RspId
  id_img_chat_down_rsp : RspId

-- The `ErrorCodes` that an answer can have.
pub data ErrorCode : Type 0 where
  success : ErrorCode
  file_save_redis_failed : ErrorCode
  file_not_exists : ErrorCode
  uid_invalid : ErrorCode
  token_invalid : ErrorCode
  file_write_permission_failed : ErrorCode
  file_read_permission_failed : ErrorCode
  redis_read_err : ErrorCode
  file_seq_invalid : ErrorCode
  file_offset_invalid : ErrorCode
  file_read_failed : ErrorCode

-- The keys of an answer besides `error`.
pub data Key : Type 0 where
  data_key : Key
  total_size_key : Key
  seq_key : Key
  name_key : Key
  trans_size_key : Key
  last_key : Key
  md5_key : Key
  uid_key : Key
  last_seq_key : Key
  client_path_key : Key
  req_type_key : Key
  sender_key : Key
  receiver_key : Key
  message_id_key : Key
  thread_id_key : Key
  sender_id_key : Key
  recv_id_key : Key
  receiver_id_key : Key
  msg_type_key : Key
  status_key : Key
  current_size_key : Key
  is_last_key : Key

pub data Field : Type 0 where
  number : Key → ℕ → Field
  text : Key → Text → Field
  flag : Key → Bool → Field

-- The fields of a request. A number is taken as not negative. The two sizes come as numbers in some
-- requests and as texts in others.
pub record Request : Type 0 where
  pub md5 : Text
  pub seq : ℕ
  pub name : Text
  pub total_size : ℕ
  pub trans_size : ℕ
  pub total_size_str : Text
  pub trans_size_str : Text
  pub last : ℕ
  pub file_data : Text
  pub uid : ℕ
  pub token : Text
  pub last_seq : ℕ
  pub client_path : Text
  pub req_type : Text
  pub message_id : ℕ
  pub sender : ℕ
  pub receiver : ℕ

pub record ChatMessage : Type 0 where
  pub message_id : ℕ
  pub thread_id : ℕ
  pub sender_id : ℕ
  pub recv_id : ℕ
  pub content : Text
  pub status : ℕ
  pub msg_type : ℕ

-- `path_of uid name`: the path of a user's file. `stoll` and `file_size` are none where they throw.
-- `to_string` writes a number.
pub record Services (FilePath : Type 0) : Type 0 where
  pub path_of : ℕ → Text → FilePath
  pub hash : Text → ℕ
  pub stoll : Text → Option ℕ
  pub to_string : ℕ → Text
  pub get_chat_msg_by_id : ℕ → Option ChatMessage
  pub file_size : FilePath → Option ℕ

-- The operations of RedisMgr that the handlers use, over a state of Redis.
pub record Store (FilePath : Type 0) : Type 1 where
  pub State : Type 0
  pub get : State → Text → Option Text
  pub get_file_info : State → Text → Option (FileInfo FilePath Text)
  pub set_file_info : State → Text → FileInfo FilePath Text → Bool × State

-- An answer: its id, its field `error`, and the others.
pub record Reply : Type 0 where
  pub rsp : RspId
  pub error : ErrorCode
  pub fields : List Field

-- What a worker passes to a callback.
pub record Result : Type 0 where
  pub error : ErrorCode
  pub fields : List Field

-- A callback sends the result with the fields it has captured, under its own id. `resets_error`: it
-- sets the field `error` to `Success` first.
pub record Callback : Type 0 where
  pub rsp : RspId
  pub resets_error : Bool
  pub captured : List Field

unfoldable pub call : Callback → Result → Reply
call c r = record {
  rsp = c.rsp;
  error = if c.resets_error then success else r.error;
  fields = r.fields ++ c.captured;
}

abbrev pub upload_code : Upload.ErrorCode → ErrorCode
upload_code Upload.success = success
upload_code Upload.file_not_exists = file_not_exists
upload_code Upload.file_write_permission_failed = file_write_permission_failed

abbrev pub download_code : Download.ErrorCode → ErrorCode
download_code Download.file_not_exists = file_not_exists
download_code Download.file_read_permission_failed = file_read_permission_failed
download_code Download.redis_read_err = redis_read_err
download_code Download.file_seq_invalid = file_seq_invalid
download_code Download.file_offset_invalid = file_offset_invalid
download_code Download.file_read_failed = file_read_failed

-- The results of the two workers.
unfoldable pub upload_result : Upload.ErrorCode → Result
upload_result code = record { error = upload_code code; fields = [] }

unfoldable pub download_result : (ℕ → Text) → Download.Reply → Result
download_result to_string (Download.error code) = record { error = download_code code; fields = [] }
download_result to_string (chunk encoded seq total_size current_size is_last) = record {
  error = success;
  fields =
      text data_key encoded
      ∷ number seq_key seq
      ∷ text total_size_key (to_string total_size)
      ∷ text current_size_key (to_string current_size)
      ∷ flag is_last_key is_last
      ∷ [];
}

-- What a handler does besides changing Redis: it answers, or posts a task to the worker of an index,
-- or an exception leaves it, which ends the process.
pub data Act (FilePath : Type 0) : Type 0 where
  sends : Reply → Act FilePath
  posts_file : ℕ → FileTask FilePath → Callback → Act FilePath
  posts_download : ℕ → DownloadTask FilePath Text → Callback → Act FilePath
  throws : Act FilePath

abbrev pub file_worker_count : ℕ
file_worker_count = 4

abbrev pub down_load_worker_count : ℕ
down_load_worker_count = 4

-- `USERTOKENPREFIX`
abbrev pub user_token_prefix : Text
user_token_prefix = 117 ∷ 116 ∷ 111 ∷ 107 ∷ 101 ∷ 110 ∷ 95 ∷ []

-- An answer that has no field but the error.
abbrev pub refuse : {P : Type 0} → RspId → ErrorCode → List (Act P)
refuse rsp code = sends (record { rsp = rsp; error = code; fields = [] }) ∷ []
