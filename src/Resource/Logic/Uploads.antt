-- ===== src/Resource/Logic/Uploads.antt =====
-- ResourceServer/LogicWorker.cpp: the five handlers that take a chunk of a file.
use distributed_instant_mess.Base.{
  ℕ, ◌+◌, ◌%◌, Bool, true, false, not, Option, none, some, List, [], ◌∷◌, ◌++◌, ◌==◌, if◌then◌else◌,
}
use distributed_instant_mess.Base.Text.{Text, text_eq}
use distributed_instant_mess.Resource.Upload.{
  MsgId, upload_file_req, upload_head_icon_req, img_chat_upload_req, file_info_sync_req,
  img_chat_continue_upload_req, FileTask,
}
use distributed_instant_mess.Resource.Download.{FileInfo}
use distributed_instant_mess.Resource.Logic.{
  RspId, id_upload_file_rsp, id_upload_head_icon_rsp, id_img_chat_upload_rsp, id_file_info_sync_rsp,
  id_img_chat_continue_upload_rsp, file_save_redis_failed, file_not_exists, uid_invalid,
  token_invalid, total_size_key, seq_key, name_key, trans_size_key, last_key, md5_key, uid_key,
  last_seq_key, sender_key, receiver_key, Field, number, text, Request, Services, Store, Callback,
  Act, posts_file, throws, file_worker_count, user_token_prefix, refuse,
}

module _ {P : Type 0} (S : Services P) (R : Store P) where
  -- The task of a chunk. Its callback is set. The head icon and the first kind of upload leave the
  -- message and the users at 0.
  abbrev pub file_task : MsgId → Request → ℕ → ℕ → FileTask P
  file_task m q chat_msg_id receiver = record {
    msg_id = m;
    uid = q.uid;
    path = S.path_of q.uid q.name;
    seq = q.seq;
    last = not (q.last == 0);
    file_data = q.file_data;
    callback = true;
    chat_msg_id = chat_msg_id;
    receiver = receiver;
  }

  -- `hash_value % FILE_WORKER_COUNT`
  abbrev pub file_index : Request → ℕ
  file_index q = S.hash q.name % file_worker_count

  abbrev pub first_info : Request → ℕ → ℕ → FileInfo P Text
  first_info q total_size trans_size = record {
    file_path = S.path_of q.uid q.name;
    name = q.name;
    seq = q.seq;
    total_size = total_size;
    trans_size = trans_size;
  }

  -- What follows `SetFileInfo`: the refusal if it fails, or else the task is posted.
  abbrev pub after_save : RspId → Bool × R.State → List (Act P) → R.State × List (Act P)
  after_save rsp (true, r) post = (r, post)
  after_save rsp (false, r) post = (r, refuse rsp file_save_redis_failed)

  -- A later chunk: what Redis keeps of the file is changed by `next`.
  abbrev pub update_info :
      RspId
      → R.State
      → Text
      → Option (FileInfo P Text)
      → (FileInfo P Text → FileInfo P Text)
      → List (Act P)
      → R.State × List (Act P)
  update_info rsp r key none next post = (r, refuse rsp file_not_exists)
  update_info rsp r key (some file_info) next post =
      after_save rsp (R.set_file_info r key (next file_info)) post

  -- `file_info->_seq = seq; file_info->_trans_size = trans_size;`
  abbrev pub set_seq : ℕ → ℕ → FileInfo P Text → FileInfo P Text
  set_seq seq trans_size info = record info { seq = seq; trans_size = trans_size }

  -- `file_info->_seq++; file_info->_trans_size = trans_size;`
  abbrev pub next_seq : ℕ → FileInfo P Text → FileInfo P Text
  next_seq trans_size info = record info { seq = info.seq + 1; trans_size = trans_size }

  -- The part that the handlers share once the fields are read: the first chunk makes the entry of
  -- the file in Redis, the others change it, and then the task is posted. `rsp_first` is the id of
  -- the refusal of a first chunk.
  unfoldable pub keep_info :
      (rsp_first rsp : RspId)
      → R.State
      → (key : Text) → FileInfo P Text
      → (FileInfo P Text → FileInfo P Text)
      → List (Act P)
      → R.State × List (Act P)
  keep_info rsp_first rsp r key first next post =
      if first.seq == 1
      then after_save rsp_first (R.set_file_info r key first) post
      else update_info rsp r key (R.get_file_info r key) next post

  -- The fields that a callback captures.
  abbrev pub file_fields : Request → List Field
  file_fields q =
      number total_size_key q.total_size
      ∷ number seq_key q.seq
      ∷ text name_key q.name
      ∷ number trans_size_key q.trans_size
      ∷ number last_key q.last
      ∷ text md5_key q.md5
      ∷ number uid_key q.uid
      ∷ []

  abbrev pub user_fields : Request → List Field
  user_fields q = number sender_key q.sender ∷ number receiver_key q.receiver ∷ []

  abbrev pub upload_callback : Request → Callback
  upload_callback q = record {
    rsp = id_upload_file_rsp;
    resets_error = true;
    captured = file_fields q;
  }

  unfoldable pub on_upload_file : R.State → Request → R.State × List (Act P)
  on_upload_file r q =
      keep_info id_upload_head_icon_rsp id_upload_file_rsp r q.md5
        (first_info q q.total_size q.trans_size) (set_seq q.seq q.trans_size)
        (posts_file (file_index q) (file_task upload_file_req q 0 0) (upload_callback q) ∷ [])

  -- The token that Redis keeps for a user.
  abbrev pub token_of : R.State → ℕ → Option Text
  token_of r uid = R.get r (user_token_prefix ++ S.to_string uid)

  abbrev pub test_token : RspId → Option Text → Text → List (Act P)
  test_token rsp none token = refuse rsp uid_invalid
  test_token rsp (some token_value) token =
      if text_eq token_value token then [] else refuse rsp token_invalid

  -- The test of the token, for the first request only: the refusal, or nothing.
  unfoldable pub check_token : RspId → R.State → Request → List (Act P)
  check_token rsp r q = if q.seq == 1 then test_token rsp (token_of r q.uid) q.token else []

  -- A refusal returns at once.
  abbrev pub unless_refused :
      List (Act P) → R.State → R.State × List (Act P) → R.State × List (Act P)
  unless_refused [] r rest = rest
  unless_refused (a ∷ refusals) r rest = (r, a ∷ refusals)

  abbrev pub icon_callback : Request → Callback
  icon_callback q = record {
    rsp = id_upload_head_icon_rsp;
    resets_error = false;
    captured = file_fields q ++ number last_seq_key q.last_seq ∷ [];
  }

  unfoldable pub on_upload_head_icon : R.State → Request → R.State × List (Act P)
  on_upload_head_icon r q = unless_refused (check_token id_upload_head_icon_rsp r q) r (
      keep_info id_upload_head_icon_rsp id_upload_head_icon_rsp r q.name
        (first_info q q.total_size q.trans_size) (set_seq q.seq q.trans_size)
        (posts_file (file_index q) (file_task upload_head_icon_req q 0 0) (icon_callback q) ∷ []))

  -- The two sizes as numbers, with what `stoll` throws.
  abbrev pub with_sizes :
      Option ℕ → Option ℕ → R.State → (ℕ → ℕ → R.State × List (Act P)) → R.State × List (Act P)
  with_sizes none trans_size r rest = (r, throws ∷ [])
  with_sizes (some total_size) none r rest = (r, throws ∷ [])
  with_sizes (some total_size) (some trans_size) r rest = rest total_size trans_size

  abbrev pub img_callback : Request → ℕ → ℕ → Callback
  img_callback q total_size trans_size = record {
    rsp = id_img_chat_upload_rsp;
    resets_error = true;
    captured =
        text total_size_key (S.to_string total_size)
        ∷ number seq_key q.seq
        ∷ text name_key q.name
        ∷ text trans_size_key (S.to_string trans_size)
        ∷ number last_key q.last
        ∷ text md5_key q.md5
        ∷ number uid_key q.uid
        ∷ user_fields q;
  }

  unfoldable pub on_img_chat_upload : R.State → Request → R.State × List (Act P)
  on_img_chat_upload r q =
      with_sizes (S.stoll q.total_size_str) (S.stoll q.trans_size_str) r λ total_size trans_size.
        keep_info id_img_chat_upload_rsp id_img_chat_upload_rsp r q.name
          (first_info q total_size trans_size) (next_seq trans_size)
          (posts_file (file_index q) (file_task img_chat_upload_req q q.message_id q.receiver)
              (img_callback q total_size trans_size)
            ∷ [])

  abbrev pub sync_callback : Request → Callback
  sync_callback q = record {
    rsp = id_file_info_sync_rsp;
    resets_error = true;
    captured =
        number seq_key q.seq
        ∷ text name_key q.name
        ∷ number last_key q.last
        ∷ text md5_key q.md5
        ∷ number uid_key q.uid
        ∷ user_fields q;
  }

  unfoldable pub on_file_info_sync : R.State → Request → R.State × List (Act P)
  on_file_info_sync r q =
      with_sizes (S.stoll q.total_size_str) (S.stoll q.trans_size_str) r λ total_size trans_size.
        keep_info id_file_info_sync_rsp id_file_info_sync_rsp r q.name
          (first_info q total_size trans_size) (set_seq q.seq trans_size)
          (posts_file (file_index q) (file_task file_info_sync_req q q.message_id q.receiver)
              (sync_callback q)
            ∷ [])

  abbrev pub continue_callback : Request → Callback
  continue_callback q = record {
    rsp = id_img_chat_continue_upload_rsp;
    resets_error = true;
    captured = file_fields q ++ user_fields q;
  }

  unfoldable pub on_img_chat_continue_upload : R.State → Request → R.State × List (Act P)
  on_img_chat_continue_upload r q =
      keep_info id_img_chat_continue_upload_rsp id_img_chat_continue_upload_rsp r q.name
        (first_info q q.total_size q.trans_size) (set_seq q.seq q.trans_size)
        (posts_file (file_index q)
            (file_task img_chat_continue_upload_req q q.message_id q.receiver) (continue_callback q)
          ∷ [])
