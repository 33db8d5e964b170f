-- ===== src/Resource/Logic/Pipeline.antt =====
-- The chunks of one file, from the queue of a logic worker to the queue of a file worker.
pub mod Delivery
pub mod Content
use distributed_instant_mess.Base.{
  ℕ, zero, suc, ◌%◌, ◌≡◌, refl, sym, ap, ◌∙◌, inl, inr, Bool, true, false, Option, none, some, List,
  [], ◌∷◌, ◌++◌, append-nil, append_assoc, arith, length, ◌==◌, ==_iff, subst, if◌then◌else◌,
  Bool-cases,
}
use distributed_instant_mess.Base.Table.{assign, assign-same}
use distributed_instant_mess.Base.Text.{Text, text_eq, text_eq_refl}
use distributed_instant_mess.Resource.Upload.{
  MsgId, upload_file_req, upload_head_icon_req, img_chat_upload_req, file_info_sync_req,
  img_chat_continue_upload_req, FileTask,
}
use distributed_instant_mess.Resource.Upload.Content.{is_upload}
use distributed_instant_mess.Resource.Download.{FileInfo, DownloadTask}
use distributed_instant_mess.Resource.Logic.{
  ReqId, id_test_msg_req, id_upload_file_req, id_sync_file_req, id_upload_head_icon_req,
  id_down_load_file_req, id_img_chat_upload_req, id_file_info_sync_req,
  id_img_chat_continue_upload_req, id_img_chat_down_info_sync_req, id_img_chat_down_req, other_req,
  RspId, id_upload_head_icon_rsp, Request, Services, Store, Reply, Callback, Act, posts_file,
  file_worker_count,
}
use distributed_instant_mess.Resource.Logic.Uploads.{
  file_task, keep_info, after_save, update_info, token_of, test_token, check_token, unless_refused,
  with_sizes, on_upload_file, on_upload_head_icon, on_img_chat_upload, on_file_info_sync,
  on_img_chat_continue_upload,
}
use distributed_instant_mess.Resource.Logic.Handlers.{Md5Files, task_callback}
use distributed_instant_mess.Resource.Logic.Workers.{
  Server, post_msg_to_que, apply_act, apply_acts, serve_front, work_round, work_rounds,
}

-- Redis takes what it is given and keeps it, as long as an upload takes.
pub record IsUp {P : Type 0} (R : Store P) : Type 0 where
  pub set-success :
      (r : R.State) (key : Text) (i : FileInfo P Text) → (R.set_file_info r key i).0 ≡ true
  pub get-set :
      (r : R.State) (key : Text) (i : FileInfo P Text)
      → R.get_file_info (R.set_file_info r key i).1 key ≡ some i

-- The requests that bring a chunk.
abbrev pub is_chunk : ReqId → Bool
is_chunk id_upload_file_req = true
is_chunk id_upload_head_icon_req = true
is_chunk id_img_chat_upload_req = true
is_chunk id_file_info_sync_req = true
is_chunk id_img_chat_continue_upload_req = true
is_chunk _ = false

-- The name under which Redis keeps the file of a request.
abbrev pub key_of : ReqId → Request → Text
key_of id_upload_file_req q = q.md5
key_of _ q = q.name

module _ {P : Type 0} (S : Services P) where
  -- A chunk of the file `name` of the user `uid`, whose sizes are numbers.
  pub record IsChunk (key : Text) (uid : ℕ) (name : Text) (m : ReqId) (q : Request) : Type 0 where
    pub id_is_chunk : is_chunk m ≡ true
    pub same_key : key_of m q ≡ key
    pub same_uid : q.uid ≡ uid
    pub same_name : q.name ≡ name
    pub total_is_number : (n : ℕ) × (S.stoll q.total_size_str ≡ some n)
    pub trans_is_number : (n : ℕ) × (S.stoll q.trans_size_str ≡ some n)

  -- The task of a request.
  pub record IsTaskOf (q : Request) (t : FileTask P) : Type 0 where
    pub same_path : t.path ≡ S.path_of q.uid q.name
    pub same_seq : t.seq ≡ q.seq
    pub same_data : t.file_data ≡ q.file_data
    pub id_is_upload : is_upload t.msg_id ≡ true

  module _ (R : Store P) (U : IsUp R) where
    -- Redis knows the file, and the task of the request is posted to the worker of the file's name.
    record IsPosted (key : Text) (q : Request) (out : R.State × List (Act P)) : Type 0 where
      info : FileInfo P Text
      known : R.get_file_info out.0 key ≡ some info
      task : FileTask P
      callback : Callback
      posted : out.1 ≡ posts_file (S.hash q.name % file_worker_count) task callback ∷ []
      due : IsTaskOf q task

    abbrev post_of : Request → FileTask P → Callback → List (Act P)
    post_of q t c = posts_file (S.hash q.name % file_worker_count) t c ∷ []

    after_save-true :
        (rsp : RspId) (b : Bool) (r : R.State) (post : List (Act P))
        → b ≡ true
        → after_save S R rsp (b, r) post ≡ (r, post)
    after_save-true rsp true r post e = refl
    after_save-true rsp false r post e = absurd (ground (arith, e))

    after_save-IsPosted :
        (rsp : RspId) (r : R.State) (key : Text) (i : FileInfo P Text) (q : Request)
        (t : FileTask P) (c : Callback)
        → IsTaskOf q t
        → IsPosted key q (after_save S R rsp (R.set_file_info r key i) (post_of q t c))
    after_save-IsPosted rsp r key i q t c due =
        subst (IsPosted key q)
          (sym (
            after_save-true rsp (R.set_file_info r key i).0 (R.set_file_info r key i).1
              (post_of q t c) (U.set-success r key i)))
          (record {
            info = i;
            known = U.get-set r key i;
            task = t;
            callback = c;
            posted = refl;
            due = due;
          })

    -- A first chunk needs nothing; a later one needs the entry.
    abbrev IsReady : R.State → Text → ℕ → Type 0
    IsReady r key seq =
        ((seq == 1) ≡ false) → (i : FileInfo P Text) × (R.get_file_info r key ≡ some i)

    keep_info-IsPosted :
        (rsp_first rsp : RspId) (r : R.State) (key : Text) (first : FileInfo P Text)
        (next : FileInfo P Text → FileInfo P Text) (q : Request) (t : FileTask P) (c : Callback)
        → IsReady r key first.seq
        → IsTaskOf q t
        → IsPosted key q (keep_info S R rsp_first rsp r key first next (post_of q t c))
    unfolding keep_info
    keep_info-IsPosted rsp_first rsp r key first next q t c ready due =
        elim (Bool-cases (first.seq == 1)) [
          | inl e ↦ rw e (after_save-IsPosted rsp_first r key first q t c due)
          | inr e ↦
              let (i, known) = ready e in
              rw (e, known) (after_save-IsPosted rsp r key (next i) q t c due)
        ]

    -- The token is asked for by the first chunk of a head icon only.
    abbrev HasToken : R.State → ReqId → Request → Type 0
    HasToken r id_upload_head_icon_req q = token_of S R r q.uid ≡ some q.token
    HasToken r _ q = Unit

    check_token-passes :
        (rsp : RspId) (r : R.State) (q : Request)
        → (q.seq ≡ 1 → token_of S R r q.uid ≡ some q.token)
        → check_token S R rsp r q ≡ []
    unfolding check_token
    check_token-passes rsp r q h = elim (Bool-cases (q.seq == 1)) [
      | inl e ↦ rw (e, h ((==_iff q.seq 1).0 e), text_eq_refl q.token) refl
      | inr e ↦ rw e refl
    ]

    file_task-IsTaskOf :
        (m : MsgId) (q : Request) (chat_msg_id receiver : ℕ)
        → is_upload m ≡ true
        → IsTaskOf q (file_task S R m q chat_msg_id receiver)
    file_task-IsTaskOf m q chat_msg_id receiver h = record {
      same_path = refl;
      same_seq = refl;
      same_data = refl;
      id_is_upload = h;
    }

    abbrev IsNumber : Text → Type 0
    IsNumber s = (n : ℕ) × (S.stoll s ≡ some n)

    chunk-IsPosted :
        (files : Md5Files P) (r : R.State) (m : ReqId) (q : Request)
        → is_chunk m ≡ true
        → IsNumber q.total_size_str
        → IsNumber q.trans_size_str
        → IsReady r (key_of m q) q.seq
        → (q.seq ≡ 1 → HasToken r m q)
        → IsPosted (key_of m q) q (task_callback S R files r m q)
    unfolding task_callback on_upload_file on_upload_head_icon on_img_chat_upload on_file_info_sync
        on_img_chat_continue_upload
    chunk-IsPosted files r id_upload_file_req q k (n, total) (l, trans) ready h =
        keep_info-IsPosted _ _ r q.md5 _ _ q _ _ ready
          (file_task-IsTaskOf upload_file_req q 0 0 refl)
    chunk-IsPosted files r id_upload_head_icon_req q k (n, total) (l, trans) ready h =
        rw (check_token-passes id_upload_head_icon_rsp r q h) (
          keep_info-IsPosted _ _ r q.name _ _ q _ _ ready
            (file_task-IsTaskOf upload_head_icon_req q 0 0 refl))
    chunk-IsPosted files r id_img_chat_upload_req q k (n, total) (l, trans) ready h =
        rw (total, trans)
          (keep_info-IsPosted _ _ r q.name _ _ q _ _ ready
            (file_task-IsTaskOf img_chat_upload_req q q.message_id q.receiver refl))
    chunk-IsPosted files r id_file_info_sync_req q k (n, total) (l, trans) ready h =
        rw (total, trans)
          (keep_info-IsPosted _ _ r q.name _ _ q _ _ ready
            (file_task-IsTaskOf file_info_sync_req q q.message_id q.receiver refl))
    chunk-IsPosted files r id_img_chat_continue_upload_req q k (n, total) (l, trans) ready h =
        keep_info-IsPosted _ _ r q.name _ _ q _ _ ready
          (file_task-IsTaskOf img_chat_continue_upload_req q q.message_id q.receiver refl)
    chunk-IsPosted files r id_test_msg_req q k total trans ready h = absurd (ground (arith, k))
    chunk-IsPosted files r id_sync_file_req q k total trans ready h = absurd (ground (arith, k))
    chunk-IsPosted files r id_down_load_file_req q k total trans ready h =
        absurd (ground (arith, k))
    chunk-IsPosted files r id_img_chat_down_info_sync_req q k total trans ready h =
        absurd (ground (arith, k))
    chunk-IsPosted files r id_img_chat_down_req q k total trans ready h = absurd (ground (arith, k))
    chunk-IsPosted files r other_req q k total trans ready h = absurd (ground (arith, k))
