-- ===== src/Resource/Upload/Answer.antt =====
-- Who gets an answer.
use distributed_instant_mess.Base.{
  ℕ, ◌+◌, ◌≡◌, ◌⊎◌, refl, inl, inr, Bool, true, false, Option, none, some, List, [], ◌∷◌, arith,
  if◌then◌else◌,
}
use distributed_instant_mess.Resource.Disk.{Disk}
use distributed_instant_mess.Resource.Upload.{
  success, MsgId, upload_file_req, upload_head_icon_req, UserInfo, img_chat_upload_req,
  file_info_sync_req, img_chat_continue_upload_req, other_id, FileTask, Effect, answers,
  updates_icon, call_if_set, Written, failed, written, Services, write_chunk, close_file,
  cache_icon, answer_notify, notify_answer, finish_img_chat, finish_continue, upload_file,
  upload_head_icon, img_chat_upload, file_info_sync, img_chat_continue_upload, handle_id,
  task_callback,
}
use distributed_instant_mess.Resource.Upload.Content.{is_upload}

-- How many answers there are.
unfoldable pub answers_in : {P : Type 0} → List (Effect P) → ℕ
answers_in [] = 0
answers_in (answers code ∷ es) = 1 + answers_in es
answers_in (_ ∷ es) = answers_in es

abbrev pub is_head_icon : MsgId → Bool
is_head_icon upload_head_icon_req = true
is_head_icon _ = false

module _ (D : Disk) (S : Services) where
  -- One answer, or none because the chunk is the last one of a head icon whose user is not found.
  abbrev pub OneAnswer : MsgId → FileTask D.FilePath → List (Effect D.FilePath) → Type 0
  OneAnswer m t es =
      (answers_in es ≡ 1)
      ⊎ ((answers_in es ≡ 0)
          × (is_head_icon m ≡ true)
          × (t.last ≡ true)
          × (S.find_user t.uid ≡ none))

  close-OneAnswer :
      (m : MsgId) (w : Written D.State) (t : FileTask D.FilePath) (rest : List (Effect D.FilePath))
      → t.callback ≡ true
      → OneAnswer m t rest
      → OneAnswer m t (close_file D w t rest).1
  unfolding answers_in
  close-OneAnswer m (failed code s) t rest set h = inl (simp set)
  close-OneAnswer m (written s) t rest set h = h

  icon-OneAnswer :
      (b : Bool) (u : Option UserInfo) (t : FileTask D.FilePath)
      → t.callback ≡ true
      → t.last ≡ b
      → S.find_user t.uid ≡ u
      → OneAnswer upload_head_icon_req t
          (if b then updates_icon t.uid t.path ∷ cache_icon D S u t else call_if_set t success)
  unfolding answers_in
  icon-OneAnswer true none t set last found = inr (refl, refl, last, found)
  icon-OneAnswer true (some u) t set last found = inl (simp set)
  icon-OneAnswer false u t set last found = inl (simp set)

  answer_notify-one :
      (ip : Option (List ℕ)) (t : FileTask D.FilePath)
      → t.callback ≡ true
      → answers_in (answer_notify D S ip t) ≡ 1
  unfolding answers_in
  answer_notify-one none t set = simp set
  answer_notify-one (some ip) t set = simp set

  notify_answer-one :
      (ip : Option (List ℕ)) (t : FileTask D.FilePath)
      → t.callback ≡ true
      → answers_in (notify_answer D S ip t) ≡ 1
  unfolding answers_in
  notify_answer-one none t set = simp set
  notify_answer-one (some ip) t set = simp set

  img_chat-one :
      (t : FileTask D.FilePath) → t.callback ≡ true → answers_in (finish_img_chat D S t) ≡ 1
  unfolding answers_in
  img_chat-one t set = ground (arith, set, answer_notify-one (S.find_ip t.receiver) t set)

  continue-one :
      (t : FileTask D.FilePath) → t.callback ≡ true → answers_in (finish_continue D S t) ≡ 1
  unfolding answers_in
  continue-one t set = ground (arith, set, notify_answer-one (S.find_ip t.receiver) t set)

  handle_id-OneAnswer :
      (m : MsgId) (s : D.State) (t : FileTask D.FilePath)
      → t.callback ≡ true
      → is_upload m ≡ true
      → OneAnswer m t (handle_id D S m s t).1
  unfolding upload_file upload_head_icon img_chat_upload file_info_sync img_chat_continue_upload
      answers_in
  handle_id-OneAnswer upload_file_req s t set u =
      close-OneAnswer upload_file_req (write_chunk D s t (S.base64_decode t.file_data)) t _ set
        (inl (simp set))
  handle_id-OneAnswer upload_head_icon_req s t set u =
      close-OneAnswer upload_head_icon_req (write_chunk D s t (S.base64_decode t.file_data)) t _ set
        (icon-OneAnswer t.last (S.find_user t.uid) t set refl refl)
  handle_id-OneAnswer img_chat_upload_req s t set u =
      close-OneAnswer img_chat_upload_req (write_chunk D s t (S.base64_decode t.file_data)) t _ set
        (inl (img_chat-one t set))
  handle_id-OneAnswer file_info_sync_req s t set u =
      close-OneAnswer file_info_sync_req (write_chunk D s t (S.base64_decode t.file_data)) t _ set
        (inl (img_chat-one t set))
  handle_id-OneAnswer img_chat_continue_upload_req s t set u =
      close-OneAnswer img_chat_continue_upload_req (write_chunk D s t (S.base64_decode t.file_data))
        t _ set (inl (continue-one t set))
  handle_id-OneAnswer other_id s t set u = absurd (ground (arith, u))

  -- A request of any of the five kinds, with its callback set, is answered exactly once, whether the
  -- chunk is written or an error stops it. The one exception has no answer: the chunk is the last one
  -- of a head icon, and the database does not find the user.
  pub task-OneAnswer :
      (s : D.State) (t : FileTask D.FilePath)
      → t.callback ≡ true
      → is_upload t.msg_id ≡ true
      → OneAnswer t.msg_id t (task_callback D S s t).1
  unfolding task_callback
  task-OneAnswer s t set u = handle_id-OneAnswer t.msg_id s t set u
