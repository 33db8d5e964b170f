-- ===== src/Resource/Logic/Pipeline/Content.antt =====
-- What the chunks of one file leave on the disk, once a logic worker and a file worker are through
-- with them.
use distributed_instant_mess.Base.{
  ℕ, suc, ◌%◌, ◌≡◌, refl, sym, ap, ◌∙◌, subst, true, some, List, [], ◌∷◌, ◌++◌, length,
}
use distributed_instant_mess.Base.Text.{Text}
use distributed_instant_mess.Resource.Disk.{Disk, IsLawful}
use distributed_instant_mess.Resource.Upload
use distributed_instant_mess.Resource.Upload.{FileTask}
use distributed_instant_mess.Resource.Upload.Content.{
  AreLater, run_tasks, decoded_data, all_well, content-uploads,
}
use distributed_instant_mess.Resource.Download.{DownloadTask}
use distributed_instant_mess.Resource.Logic.{
  ReqId, Request, Services, Store, Reply, Callback, file_worker_count,
}
use distributed_instant_mess.Resource.Logic.Handlers.{Md5Files}
use distributed_instant_mess.Resource.Logic.Workers.{Server, work_rounds}
use distributed_instant_mess.Resource.Logic.Pipeline.Delivery.{
  waiting, AllLater, AreTasksOf, all-IsDelivered,
}
use distributed_instant_mess.Resource.Logic.Pipeline.{IsUp, key_of, IsChunk, HasToken}

-- The data of the requests, decoded, in their order.
unfoldable pub decoded_requests : Upload.Services → List (ReqId × Request) → List ℕ
decoded_requests F [] = []
decoded_requests F ((m, q) ∷ tasks) = F.base64_decode q.file_data ++ decoded_requests F tasks

module _ (D : Disk) (F : Upload.Services) (S : Services D.FilePath) (R : Store D.FilePath) where
  abbrev pub tasks_in : List (FileTask D.FilePath × Callback) → List (FileTask D.FilePath)
  tasks_in [] = []
  tasks_in ((t, c) ∷ ts) = t ∷ tasks_in ts

  AllLater-AreLater :
      (key : Text) (uid : ℕ) (name : Text) (tasks : List (ReqId × Request))
      (ts : List (FileTask D.FilePath × Callback))
      → AllLater S R key uid name tasks
      → AreTasksOf S R tasks ts
      → AreLater (S.path_of uid name) (tasks_in ts)
        × (decoded_data D F (tasks_in ts) ≡ decoded_requests F tasks)
  unfolding AllLater AreTasksOf AreLater decoded_data decoded_requests
  AllLater-AreLater key uid name [] [] later of = (tt, refl)
  AllLater-AreLater key uid name [] (tc ∷ ts) later of = absurd of
  AllLater-AreLater key uid name (mq ∷ tasks) [] later of = absurd of
  AllLater-AreLater key uid name ((m, q) ∷ tasks) ((t, c) ∷ ts) (chunk, next, later) (due, of) =
      let (are_later, same) = AllLater-AreLater key uid name tasks ts later of in
      (
        (
          due.same_path ∙ rw (chunk.same_uid, chunk.same_name) refl,
          due.id_is_upload,
          rw due.same_seq next,
          are_later,
        ),
        rw (due.same_data, same) refl,
      )

  -- The queue of the file worker is run on the disk.
  abbrev pub upload :
      D.State → List (FileTask D.FilePath × Callback) → D.State × List (Upload.Effect D.FilePath)
  upload s ts = run_tasks D F s (tasks_in ts)

  tasks-content :
      (L : IsLawful D) (s : D.State) (m : ReqId) (q : Request) (tasks : List (ReqId × Request))
      (ts : List (FileTask D.FilePath × Callback))
      → q.seq ≡ 1
      → AllLater S R (key_of m q) q.uid q.name tasks
      → AreTasksOf S R ((m, q) ∷ tasks) ts
      → all_well (upload s ts).1 ≡ true
      → D.content (upload s ts).0 (S.path_of q.uid q.name)
        ≡ some (decoded_requests F ((m, q) ∷ tasks))
  unfolding AreTasksOf decoded_data decoded_requests
  tasks-content L s m q tasks [] first later of well = absurd of
  tasks-content L s m q tasks ((t, c) ∷ ts) first later (due, of) well =
      let (are_later, same) = AllLater-AreLater (key_of m q) q.uid q.name tasks ts later of in
      subst
        (λ p. D.content (upload s ((t, c) ∷ ts)).0 p ≡ some (decoded_requests F ((m, q) ∷ tasks)))
        due.same_path
        (content-uploads D L F s t (tasks_in ts) due.id_is_upload (due.same_seq ∙ first)
            (subst (λ p. AreLater p (tasks_in ts)) (sym due.same_path) are_later) well
          ∙ ap some (rw (due.same_data, same) refl))

  -- The server after the rounds for a first request and others.
  abbrev pub served :
      ReqId
      → Request
      → List (ReqId × Request)
      → R.State
      → Md5Files D.FilePath
      → (ℕ → List (FileTask D.FilePath × Callback))
      → (ℕ → List (DownloadTask D.FilePath Text × Callback))
      → List Reply
      → Server R
  served m q tasks r files fw dw sent =
      work_rounds S R (suc (length tasks)) (waiting S R ((m, q) ∷ tasks) r files fw dw sent)

  -- A client uploads a file of a user by a request with the number 1 and any others, each of any of
  -- the five kinds that bring a chunk, of one name and with sizes that are numbers. All have one key
  -- in Redis, which is the md5 for the kind of `UploadFile` and the name for the four others. Redis
  -- takes what it is given and keeps it, and if the first request is for a head icon, it holds its
  -- token. The file system behaves as its laws say: what a write that succeeds was given is in the
  -- file, whether it is closed or not. The queue of the file worker of the name is empty before. After one round of the logic worker for
  -- each request, none is refused, and once the file worker is through with its queue without an
  -- error, the file holds the decoded data of all requests, in their order and nothing else.
  pub requests-content :
      (L : IsLawful D) (U : IsUp R) (s : D.State) (m : ReqId) (q : Request)
      (tasks : List (ReqId × Request)) (r : R.State) (files : Md5Files D.FilePath)
      (fw : ℕ → List (FileTask D.FilePath × Callback))
      (dw : ℕ → List (DownloadTask D.FilePath Text × Callback)) (sent : List Reply)
      → IsChunk S (key_of m q) q.uid q.name m q
      → q.seq ≡ 1
      → HasToken S R U r m q
      → AllLater S R (key_of m q) q.uid q.name tasks
      → fw (S.hash q.name % file_worker_count) ≡ []
      → all_well
          (upload s (
            (served m q tasks r files fw dw sent).file_workers
              (S.hash q.name % file_worker_count))).1
        ≡ true
      → ((served m q tasks r files fw dw sent).sent ≡ sent)
        × (D.content
              (upload s (
                (served m q tasks r files fw dw sent).file_workers
                  (S.hash q.name % file_worker_count))).0
              (S.path_of q.uid q.name)
            ≡ some (decoded_requests F ((m, q) ∷ tasks)))
  requests-content L U s m q tasks r files fw dw sent chunk first token later empty well =
      let d = all-IsDelivered S R U m q tasks r files fw dw sent chunk first token later in
      let queue = d.queue_grows ∙ ap (λ l. l ++ d.tasks_posted) empty in
      (
        d.none_refused,
        subst
            (λ l.
              D.content (upload s l).0 (S.path_of q.uid q.name)
              ≡ some (decoded_requests F ((m, q) ∷ tasks)))
            (sym queue)
            (tasks-content L s m q tasks d.tasks_posted first later d.tasks_of
              (subst (λ l. all_well (upload s l).1 ≡ true) queue well)),
      )
