-- ===== src/Resource/Logic/Pipeline/Delivery.antt =====
-- The queue of the file worker once a logic worker is through with the chunks of one file.
use distributed_instant_mess.Base.{
  ℕ, suc, ◌%◌, ◌≡◌, refl, sym, ap, ◌∙◌, subst, false, some, List, [], ◌∷◌, ◌++◌, append-nil,
  append_assoc, arith, length, ◌==◌,
}
use distributed_instant_mess.Base.Table.{assign, assign-same}
use distributed_instant_mess.Base.Text.{Text}
use distributed_instant_mess.Resource.Upload.{FileTask}
use distributed_instant_mess.Resource.Download.{FileInfo, DownloadTask}
use distributed_instant_mess.Resource.Logic.{
  ReqId, Request, Services, Store, Reply, Callback, file_worker_count,
}
use distributed_instant_mess.Resource.Logic.Handlers.{Md5Files, task_callback}
use distributed_instant_mess.Resource.Logic.Workers.{
  Server, post_msg_to_que, apply_act, apply_acts, work_round, work_rounds,
}
use distributed_instant_mess.Resource.Logic.Pipeline.{
  IsUp, key_of, IsChunk, IsTaskOf, IsPosted, HasToken, IsReady, chunk-IsPosted,
}

assign-at :
    {A : Type 0} (f : ℕ → List A) (j k : ℕ) (a : A)
    → j ≡ k
    → assign f j (f j ++ a ∷ []) k ≡ f k ++ a ∷ []
assign-at f j k a e = rw e (assign-same f k (f k ++ a ∷ []))

module _ {P : Type 0} (S : Services P) (R : Store P) where
  -- A server that runs, with a queue of requests.
  abbrev pub waiting :
      List (ReqId × Request)
      → R.State
      → Md5Files P
      → (ℕ → List (FileTask P × Callback))
      → (ℕ → List (DownloadTask P Text × Callback))
      → List Reply
      → Server R
  waiting tasks r files fw dw sent = record {
    task_que = tasks;
    b_stop = false;
    redis = r;
    md5_files = files;
    file_workers = fw;
    down_load_workers = dw;
    sent = sent;
    ended = false;
  }

  -- Chunks of one file that are not its first.
  unfoldable pub AllLater : Text → ℕ → Text → List (ReqId × Request) → Type 0
  AllLater key uid name [] = Unit
  AllLater key uid name ((m, q) ∷ tasks) =
      IsChunk S key uid name m q × ((q.seq == 1) ≡ false) × AllLater key uid name tasks

  -- One task for each request, in their order.
  unfoldable pub AreTasksOf : List (ReqId × Request) → List (FileTask P × Callback) → Type 0
  AreTasksOf [] [] = Unit
  AreTasksOf [] (tc ∷ ts) = ⊥
  AreTasksOf (mq ∷ tasks) [] = ⊥
  AreTasksOf ((m, q) ∷ tasks) ((t, c) ∷ ts) = IsTaskOf S q t × AreTasksOf tasks ts

  -- The queue has grown by the tasks of the requests, and nothing was refused.
  pub record IsDelivered (index : ℕ) (tasks : List (ReqId × Request))
      (queue : List (FileTask P × Callback)) (sent : List Reply) (s : Server R) : Type 0 where
    pub tasks_posted : List (FileTask P × Callback)
    pub queue_grows : s.file_workers index ≡ queue ++ tasks_posted
    pub none_refused : s.sent ≡ sent
    pub tasks_of : AreTasksOf tasks tasks_posted

  module _ (U : IsUp R) where
    round-posts :
        (m : ReqId) (q : Request) (tasks : List (ReqId × Request)) (r : R.State)
        (files : Md5Files P) (fw : ℕ → List (FileTask P × Callback))
        (dw : ℕ → List (DownloadTask P Text × Callback)) (sent : List Reply)
        (i : IsPosted S R U (key_of m q) q (task_callback S R files r m q))
        → work_round S R (waiting ((m, q) ∷ tasks) r files fw dw sent)
          ≡ waiting tasks
              (task_callback S R files r m q).0
              files
              (assign fw
                (S.hash q.name % file_worker_count)
                (fw (S.hash q.name % file_worker_count) ++ (i.task, i.callback) ∷ []))
              dw
              sent
    unfolding work_round apply_acts apply_act post_msg_to_que
    round-posts m q tasks r files fw dw sent i = rw i.posted refl

    IsDelivered-cons :
        {index : ℕ} (m : ReqId) (q : Request) (t : FileTask P) (c : Callback)
        (tasks : List (ReqId × Request)) (queue grown : List (FileTask P × Callback))
        (sent : List Reply) (s : Server R)
        → grown ≡ queue ++ (t, c) ∷ []
        → IsTaskOf S q t
        → IsDelivered index tasks grown sent s
        → IsDelivered index ((m, q) ∷ tasks) queue sent s
    unfolding AreTasksOf
    IsDelivered-cons m q t c tasks queue grown sent s e due d = record {
      tasks_posted = (t, c) ∷ d.tasks_posted;
      queue_grows =
          d.queue_grows
          ∙ ap (λ l. l ++ d.tasks_posted) e
          ∙ append_assoc queue ((t, c) ∷ []) d.tasks_posted;
      none_refused = d.none_refused;
      tasks_of = (due, d.tasks_of);
    }

    later-IsDelivered :
        (tasks : List (ReqId × Request)) (key : Text) (uid : ℕ) (name : Text) (r : R.State)
        (files : Md5Files P) (fw : ℕ → List (FileTask P × Callback))
        (dw : ℕ → List (DownloadTask P Text × Callback)) (sent : List Reply)
        → AllLater key uid name tasks
        → (i : FileInfo P Text) × (R.get_file_info r key ≡ some i)
        → IsDelivered
            (S.hash name % file_worker_count)
            tasks
            (fw (S.hash name % file_worker_count))
            sent
            (work_rounds S R (length tasks) (waiting tasks r files fw dw sent))
    unfolding work_rounds AllLater AreTasksOf
    later-IsDelivered [] key uid name r files fw dw sent later known = record {
      tasks_posted = [];
      queue_grows = sym (append-nil _);
      none_refused = refl;
      tasks_of = tt;
    }
    later-IsDelivered ((m, q) ∷ tasks) key uid name r files fw dw sent (chunk, next, later) known =
        let ready : IsReady S R U r (key_of m q) q.seq = λ e.
          subst (λ k. (i : FileInfo P Text) × (R.get_file_info r k ≡ some i)) (sym chunk.same_key)
            known in
        let ip =
          chunk-IsPosted S R U files r m q chunk.id_is_chunk chunk.total_is_number
            chunk.trans_is_number ready (λ first. absurd (ground (arith, first, next))) in
        subst
          (λ s.
            IsDelivered (S.hash name % file_worker_count) ((m, q) ∷ tasks)
              (fw (S.hash name % file_worker_count)) sent (work_rounds S R (length tasks) s))
          (sym (round-posts m q tasks r files fw dw sent ip))
          (IsDelivered-cons m q ip.task ip.callback tasks _ _ sent _
            (assign-at fw _ (S.hash name % file_worker_count) (ip.task, ip.callback)
              (ap (λ n. S.hash n % file_worker_count) chunk.same_name))
            ip.due
            (later-IsDelivered tasks key uid name (task_callback S R files r m q).0 files _ dw sent
              later
              (
                ip.info,
                subst (λ k. R.get_file_info (task_callback S R files r m q).0 k ≡ some ip.info)
                    chunk.same_key ip.known,
              )))

    -- The first chunk of a file, and others.
    pub all-IsDelivered :
        (m : ReqId) (q : Request) (tasks : List (ReqId × Request)) (r : R.State)
        (files : Md5Files P) (fw : ℕ → List (FileTask P × Callback))
        (dw : ℕ → List (DownloadTask P Text × Callback)) (sent : List Reply)
        → IsChunk S (key_of m q) q.uid q.name m q
        → q.seq ≡ 1
        → HasToken S R U r m q
        → AllLater (key_of m q) q.uid q.name tasks
        → IsDelivered
            (S.hash q.name % file_worker_count)
            ((m, q) ∷ tasks)
            (fw (S.hash q.name % file_worker_count))
            sent
            (work_rounds S R (suc (length tasks)) (waiting ((m, q) ∷ tasks) r files fw dw sent))
    unfolding work_rounds
    all-IsDelivered m q tasks r files fw dw sent chunk first token later =
        let ip =
          chunk-IsPosted S R U files r m q chunk.id_is_chunk chunk.total_is_number
            chunk.trans_is_number (λ e. absurd (ground (arith, first, e))) (λ f. token) in
        subst
          (λ s.
            IsDelivered (S.hash q.name % file_worker_count) ((m, q) ∷ tasks)
              (fw (S.hash q.name % file_worker_count)) sent (work_rounds S R (length tasks) s))
          (sym (round-posts m q tasks r files fw dw sent ip))
          (IsDelivered-cons m q ip.task ip.callback tasks _ _ sent _
            (assign-at fw _ (S.hash q.name % file_worker_count) (ip.task, ip.callback) refl) ip.due
            (later-IsDelivered tasks (key_of m q) q.uid q.name (task_callback S R files r m q).0
              files _ dw sent later (ip.info, ip.known)))
