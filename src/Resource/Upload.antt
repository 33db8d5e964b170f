-- ===== src/Resource/Upload.antt =====
-- ResourceServer/FileWorker.cpp: the handlers that write a chunk of an uploaded file, and the thread
-- that runs them.
pub mod Content
pub mod Answer
use distributed_instant_mess.Base.{
  ℕ, zero, suc, ◌+◌, Bool, true, false, Option, none, some, List, [], ◌∷◌, ◌++◌, ◌==◌,
  if◌then◌else◌,
}
use distributed_instant_mess.Resource.Disk.{Disk}

-- The `ErrorCodes` that the handlers answer.
pub data ErrorCode : Type 0 where
  success : ErrorCode
  file_not_exists : ErrorCode
  file_write_permission_failed : ErrorCode

-- The keys of `_handlers`, and any other id.
pub data MsgId : Type 0 where
  upload_file_req : MsgId
  upload_head_icon_req : MsgId
  img_chat_upload_req : MsgId
  file_info_sync_req : MsgId
  img_chat_continue_upload_req : MsgId
  other_id : MsgId

-- What `GetUser` finds.
pub record UserInfo : Type 0 where
  pub pwd : List ℕ
  pub name : List ℕ
  pub email : List ℕ
  pub nick : List ℕ
  pub desc : List ℕ
  pub sex : ℕ
  pub icon : List ℕ

-- A task. `callback`: `_callback` is set.
pub record FileTask (FilePath : Type 0) : Type 0 where
  pub msg_id : MsgId
  pub uid : ℕ
  pub path : FilePath
  pub seq : ℕ
  pub last : Bool
  pub file_data : List ℕ
  pub callback : Bool
  pub chat_msg_id : ℕ
  pub receiver : ℕ

-- What a handler does besides writing, in order. `bad_call` is the exception of calling an empty
-- function. `updates_icon` gives the file's name, the last part of the path.
pub data Effect (FilePath : Type 0) : Type 0 where
  answers : ErrorCode → Effect FilePath
  bad_call : Effect FilePath
  updates_icon : ℕ → FilePath → Effect FilePath
  caches_user : ℕ → UserInfo → Effect FilePath
  updates_status : ℕ → Effect FilePath
  notifies : ℕ → List ℕ → Effect FilePath

-- `task->_callback(result)` without a test, and with one.
abbrev pub call_back : {P : Type 0} → FileTask P → ErrorCode → List (Effect P)
call_back t code = if t.callback then answers code ∷ [] else bad_call ∷ []

abbrev pub call_if_set : {P : Type 0} → FileTask P → ErrorCode → List (Effect P)
call_if_set t code = if t.callback then answers code ∷ [] else []

-- How the writing of a chunk ends.
pub data Written (State : Type 0) : Type 0 where
  failed : ErrorCode → State → Written State
  written : State → Written State

-- `base64_decode`, the user in the database after the update, and the address of the chat server at
-- which a user is, in Redis.
pub record Services : Type 0 where
  pub base64_decode : List ℕ → List ℕ
  pub find_user : ℕ → Option UserInfo
  pub find_ip : ℕ → Option (List ℕ)

module _ (D : Disk) where
  abbrev pub write_data : Bool × D.State → FileTask D.FilePath → List ℕ → Written D.State
  write_data (false, s) t decoded = failed file_write_permission_failed s
  write_data (true, s) t decoded =
      if (D.write s t.path decoded).0
      then written (D.write s t.path decoded).1
      else failed file_write_permission_failed (D.write s t.path decoded).1

  abbrev pub open_file : D.State → FileTask D.FilePath → List ℕ → Written D.State
  open_file s t decoded =
      if t.seq == 1
      then write_data (D.open_trunc s t.path) t decoded
      else write_data (D.open_app s t.path) t decoded

  abbrev pub after_create : Bool × D.State → FileTask D.FilePath → List ℕ → Written D.State
  after_create (false, s) t decoded = failed file_not_exists s
  after_create (true, s) t decoded = open_file s t decoded

  -- The part that all handlers share, up to `outfile.close()`.
  unfoldable pub write_chunk : D.State → FileTask D.FilePath → List ℕ → Written D.State
  write_chunk s t decoded =
      if D.has_dir s t.path
      then open_file s t decoded
      else after_create (D.create_dirs s t.path) t decoded

  abbrev pub close_file :
      Written D.State
      → FileTask D.FilePath
      → List (Effect D.FilePath)
      → D.State × List (Effect D.FilePath)
  close_file (failed code s) t rest = (s, call_back t code)
  close_file (written s) t rest = (s, rest)

module _ (D : Disk) (S : Services) where
  abbrev pub finish_file : FileTask D.FilePath → List (Effect D.FilePath)
  finish_file t = call_if_set t success

  abbrev pub cache_icon : Option UserInfo → FileTask D.FilePath → List (Effect D.FilePath)
  cache_icon none t = []
  cache_icon (some user_info) t = caches_user t.uid user_info ∷ call_if_set t success

  abbrev pub finish_head_icon : FileTask D.FilePath → List (Effect D.FilePath)
  finish_head_icon t =
      if t.last
      then updates_icon t.uid t.path ∷ cache_icon (S.find_user t.uid) t
      else call_if_set t success

  -- The answer comes before the notification.
  abbrev pub answer_notify : Option (List ℕ) → FileTask D.FilePath → List (Effect D.FilePath)
  answer_notify none t = call_if_set t success
  answer_notify (some ip) t = call_if_set t success ++ notifies t.chat_msg_id ip ∷ []

  -- The notification comes before the answer.
  abbrev pub notify_answer : Option (List ℕ) → FileTask D.FilePath → List (Effect D.FilePath)
  notify_answer none t = call_if_set t success
  notify_answer (some ip) t = notifies t.chat_msg_id ip ∷ call_if_set t success

  abbrev pub finish_img_chat : FileTask D.FilePath → List (Effect D.FilePath)
  finish_img_chat t =
      if t.last
      then updates_status t.chat_msg_id ∷ answer_notify (S.find_ip t.receiver) t
      else call_if_set t success

  abbrev pub finish_continue : FileTask D.FilePath → List (Effect D.FilePath)
  finish_continue t =
      if t.last
      then updates_status t.chat_msg_id ∷ notify_answer (S.find_ip t.receiver) t
      else call_if_set t success

  -- The five handlers.
  unfoldable pub upload_file : D.State → FileTask D.FilePath → D.State × List (Effect D.FilePath)
  upload_file s t = close_file D (write_chunk D s t (S.base64_decode t.file_data)) t (finish_file t)

  unfoldable pub upload_head_icon :
      D.State → FileTask D.FilePath → D.State × List (Effect D.FilePath)
  upload_head_icon s t =
      close_file D (write_chunk D s t (S.base64_decode t.file_data)) t (finish_head_icon t)

  unfoldable pub img_chat_upload :
      D.State → FileTask D.FilePath → D.State × List (Effect D.FilePath)
  img_chat_upload s t =
      close_file D (write_chunk D s t (S.base64_decode t.file_data)) t (finish_img_chat t)

  unfoldable pub file_info_sync : D.State → FileTask D.FilePath → D.State × List (Effect D.FilePath)
  file_info_sync s t =
      close_file D (write_chunk D s t (S.base64_decode t.file_data)) t (finish_img_chat t)

  unfoldable pub img_chat_continue_upload :
      D.State → FileTask D.FilePath → D.State × List (Effect D.FilePath)
  img_chat_continue_upload s t =
      close_file D (write_chunk D s t (S.base64_decode t.file_data)) t (finish_continue t)

  abbrev pub handle_id : MsgId → D.State → FileTask D.FilePath → D.State × List (Effect D.FilePath)
  handle_id upload_file_req s t = upload_file s t
  handle_id upload_head_icon_req s t = upload_head_icon s t
  handle_id img_chat_upload_req s t = img_chat_upload s t
  handle_id file_info_sync_req s t = file_info_sync s t
  handle_id img_chat_continue_upload_req s t = img_chat_continue_upload s t
  handle_id other_id s t = (s, [])

  unfoldable pub task_callback : D.State → FileTask D.FilePath → D.State × List (Effect D.FilePath)
  task_callback s t = handle_id t.msg_id s t

  -- The worker: its queue, and its thread until `_b_stop` is set.
  pub record FileWorker : Type 0 where
    pub task_que : List (FileTask D.FilePath)
    pub b_stop : Bool
    pub disk : D.State
    pub effects : List (Effect D.FilePath)

  unfoldable pub post_task : FileWorker → FileTask D.FilePath → FileWorker
  post_task w t = record w { task_que = w.task_que ++ t ∷ [] }

  abbrev pub run_front : List (FileTask D.FilePath) → FileWorker → FileWorker
  run_front [] w = w
  run_front (t ∷ rest) w = record w {
    task_que = rest;
    disk = (task_callback w.disk t).0;
    effects = w.effects ++ (task_callback w.disk t).1;
  }

  -- One round of the thread; it waits while there is nothing to do.
  unfoldable pub work_round : FileWorker → FileWorker
  work_round w = if w.b_stop then w else run_front w.task_que w
