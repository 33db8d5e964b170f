-- ===== src/Resource/Logic/Served.antt =====
-- Who gets an answer from a logic worker, or a task that answers.
use distributed_instant_mess.Base.{
  ℕ, ◌%◌, ◌≡◌, ◌⊎◌, refl, inl, inr, true, Option, none, some, List, [], ◌∷◌,
}
use distributed_instant_mess.Resource.Download.{FileInfo}
use distributed_instant_mess.Resource.Logic.{
  ReqId, id_test_msg_req, id_upload_file_req, id_sync_file_req, id_upload_head_icon_req,
  id_down_load_file_req, id_img_chat_upload_req, id_file_info_sync_req,
  id_img_chat_continue_upload_req, id_img_chat_down_info_sync_req, id_img_chat_down_req, other_req,
  RspId, id_test_msg_rsp, id_upload_file_rsp, id_sync_file_rsp, id_upload_head_icon_rsp,
  id_down_load_file_rsp, id_img_chat_upload_rsp, id_file_info_sync_rsp,
  id_img_chat_continue_upload_rsp, id_img_chat_down_info_sync_rsp, id_img_chat_down_rsp,
  file_save_redis_failed, Request, ChatMessage, Services, Store, Act, sends, posts_file,
  posts_download, throws, file_worker_count, down_load_worker_count,
}
use distributed_instant_mess.Resource.Logic.Uploads.{
  on_upload_file, on_upload_head_icon, on_img_chat_upload, on_file_info_sync,
  on_img_chat_continue_upload,
}
use distributed_instant_mess.Resource.Logic.Handlers.{
  Md5Files, on_test_msg, sync_found, on_sync_file, find_md5_file, on_down_load_file, info_reply,
  info_found, on_img_chat_down_info_sync, on_img_chat_down, task_callback,
}
use distributed_instant_mess.Resource.Logic.Cases.{
  keep_info-elim, with_sizes-elim, check_token-elim,
}

-- The id under which a request is answered.
abbrev pub rsp_of : ReqId → Option RspId
rsp_of id_test_msg_req = some id_test_msg_rsp
rsp_of id_upload_file_req = some id_upload_file_rsp
rsp_of id_sync_file_req = some id_sync_file_rsp
rsp_of id_upload_head_icon_req = some id_upload_head_icon_rsp
rsp_of id_down_load_file_req = some id_down_load_file_rsp
rsp_of id_img_chat_upload_req = some id_img_chat_upload_rsp
rsp_of id_file_info_sync_req = some id_file_info_sync_rsp
rsp_of id_img_chat_continue_upload_req = some id_img_chat_continue_upload_rsp
rsp_of id_img_chat_down_info_sync_req = some id_img_chat_down_info_sync_rsp
rsp_of id_img_chat_down_req = some id_img_chat_down_rsp
rsp_of other_req = none

module _ {P : Type 0} (S : Services P) where
  -- A refusal of an upload whose first chunk Redis does not take has the id of the head icon.
  abbrev pub HasRsp : ReqId → Act P → Type 0
  HasRsp m (sends reply) =
      (rsp_of m ≡ some reply.rsp)
      ⊎ ((m ≡ id_upload_file_req)
          × (reply.rsp ≡ id_upload_head_icon_rsp)
          × (reply.error ≡ file_save_redis_failed))
  HasRsp m (posts_file index t c) = rsp_of m ≡ some c.rsp
  HasRsp m (posts_download index t c) = rsp_of m ≡ some c.rsp
  HasRsp m throws = Unit

  -- The worker is the one of the file's name, and the task has its callback. An exception comes from
  -- a size that is no number, or from a file that is not there.
  abbrev pub IsDue : Request → Act P → Type 0
  IsDue q (sends reply) = Unit
  IsDue q (posts_file index t c) = (index ≡ S.hash q.name % file_worker_count) × (t.callback ≡ true)
  IsDue q (posts_download index t c) =
      (index ≡ S.hash q.name % down_load_worker_count) × (t.callback ≡ true)
  IsDue q throws =
      (S.stoll q.total_size_str ≡ none)
      ⊎ ((S.stoll q.trans_size_str ≡ none)
          ⊎ ((msg : _) × (S.get_chat_msg_by_id q.message_id ≡ some msg)
              × (S.file_size (S.path_of msg.sender_id msg.content) ≡ none)))

  -- One act, or none where the id is unknown or a message is not found.
  abbrev pub Served : ReqId → Request → List (Act P) → Type 0
  Served m q [] =
      (rsp_of m ≡ none)
      ⊎ ((m ≡ id_img_chat_down_info_sync_req) × (S.get_chat_msg_by_id q.message_id ≡ none))
  Served m q (a ∷ []) = HasRsp m a × IsDue q a
  Served m q (a ∷ b ∷ acts) = ⊥

  module _ (R : Store P) where
    sync_found-Served :
        (q : Request) (o : Option (FileInfo P _)) → Served id_sync_file_req q (sync_found S R q o)
    sync_found-Served q none = (inl refl, tt)
    sync_found-Served q (some file) = (inl refl, tt)

    info_reply-Served :
        (q : Request) (msg : ChatMessage) (size : Option ℕ)
        → S.get_chat_msg_by_id q.message_id ≡ some msg
        → S.file_size (S.path_of msg.sender_id msg.content) ≡ size
        → Served id_img_chat_down_info_sync_req q (info_reply S R msg size)
    info_reply-Served q msg none found missing = (tt, inr (inr (msg, found, missing)))
    info_reply-Served q msg (some size) found there = (inl refl, tt)

    info_found-Served :
        (q : Request) (o : Option ChatMessage)
        → S.get_chat_msg_by_id q.message_id ≡ o
        → Served id_img_chat_down_info_sync_req q (info_found S R o)
    info_found-Served q none e = inr (refl, e)
    info_found-Served q (some msg) e =
        info_reply-Served q msg (S.file_size (S.path_of msg.sender_id msg.content)) e refl

    -- Every request that the worker takes leads to exactly one thing, whatever Redis, the database
    -- and the texts of the request are. It is an answer under the id of the request, or a task with
    -- its callback set, posted to the worker of the hash of the file's name, and the callback answers
    -- under the id of the request. Three cases are different: an exception leaves the handler if a
    -- size is no number or a file is not there, a message that is not found has no answer, and a
    -- first chunk that Redis does not take is refused under the id of the head icon. An unknown id
    -- does nothing.
    pub task-Served :
        (files : Md5Files P) (r : R.State) (m : ReqId) (q : Request)
        → Served m q (task_callback S R files r m q).1
    unfolding task_callback on_test_msg on_sync_file on_down_load_file on_img_chat_down_info_sync
        on_img_chat_down on_upload_file on_upload_head_icon on_img_chat_upload on_file_info_sync
        on_img_chat_continue_upload
    task-Served files r id_test_msg_req q = (inl refl, tt)
    task-Served files r id_upload_file_req q =
        keep_info-elim S R (Served id_upload_file_req q) _ _ r q.md5 _ _ _ (refl, (refl, refl))
          (inr (refl, refl, refl), tt) (inl refl, tt) (inl refl, tt)
    task-Served files r id_sync_file_req q = sync_found-Served q (find_md5_file files q.md5)
    task-Served files r id_upload_head_icon_req q =
        check_token-elim S R (λ (r', acts). Served id_upload_head_icon_req q acts) _ r q _
          (inl refl, tt) (inl refl, tt)
          λ h.
            keep_info-elim S R (Served id_upload_head_icon_req q) _ _ r q.name _ _ _
              (refl, (refl, refl)) (inl refl, tt) (inl refl, tt) (inl refl, tt)
    task-Served files r id_down_load_file_req q =
        check_token-elim S R (λ (r', acts). Served id_down_load_file_req q acts) _ r q _
          (inl refl, tt) (inl refl, tt) (λ h. (refl, (refl, refl)))
    task-Served files r id_img_chat_upload_req q =
        with_sizes-elim S R (Served id_img_chat_upload_req q) _ _ r _ (λ e. (tt, inl e))
          (λ e. (tt, inr (inl e)))
          λ a b.
            keep_info-elim S R (Served id_img_chat_upload_req q) _ _ r q.name _ _ _
              (refl, (refl, refl)) (inl refl, tt) (inl refl, tt) (inl refl, tt)
    task-Served files r id_file_info_sync_req q =
        with_sizes-elim S R (Served id_file_info_sync_req q) _ _ r _ (λ e. (tt, inl e))
          (λ e. (tt, inr (inl e)))
          λ a b.
            keep_info-elim S R (Served id_file_info_sync_req q) _ _ r q.name _ _ _
              (refl, (refl, refl)) (inl refl, tt) (inl refl, tt) (inl refl, tt)
    task-Served files r id_img_chat_continue_upload_req q =
        keep_info-elim S R (Served id_img_chat_continue_upload_req q) _ _ r q.name _ _ _
          (refl, (refl, refl)) (inl refl, tt) (inl refl, tt) (inl refl, tt)
    task-Served files r id_img_chat_down_info_sync_req q =
        info_found-Served q (S.get_chat_msg_by_id q.message_id) refl
    task-Served files r id_img_chat_down_req q =
        check_token-elim S R (λ (r', acts). Served id_img_chat_down_req q acts) _ r q _
          (inl refl, tt) (inl refl, tt) (λ h. (refl, (refl, refl)))
    task-Served files r other_req q = inl refl
