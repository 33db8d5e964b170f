-- ===== src/Resource/Logic/Workers.antt =====
-- ResourceServer/LogicWorker.cpp and FileSystem.cpp: the queue of a logic worker, and the queues of
-- the workers behind it.
use distributed_instant_mess.Base.{
  ℕ, zero, suc, Bool, true, ◌||◌, List, [], ◌∷◌, ◌++◌, if◌then◌else◌,
}
use distributed_instant_mess.Base.Table.{assign}
use distributed_instant_mess.Base.Text.{Text}
use distributed_instant_mess.Resource.Upload.{FileTask}
use distributed_instant_mess.Resource.Download.{DownloadTask}
use distributed_instant_mess.Resource.Logic.{
  ReqId, Request, Services, Store, Reply, Callback, Act, sends, posts_file, posts_download, throws,
}
use distributed_instant_mess.Resource.Logic.Handlers.{Md5Files, task_callback}

-- The part of the server that a session's requests reach: the worker of its hash, with its queue and
-- `_b_stop`, Redis, the queues of the workers by their indices, and what was sent, in order. `ended`:
-- an exception has left the thread, which ends the process.
pub record Server {P : Type 0} (R : Store P) : Type 0 where
  pub task_que : List (ReqId × Request)
  pub b_stop : Bool
  pub redis : R.State
  pub md5_files : Md5Files P
  pub file_workers : ℕ → List (FileTask P × Callback)
  pub down_load_workers : ℕ → List (DownloadTask P Text × Callback)
  pub sent : List Reply
  pub ended : Bool

module _ {P : Type 0} (S : Services P) (R : Store P) where
  unfoldable pub post_task : Server R → ReqId × Request → Server R
  post_task s task = record s { task_que = s.task_que ++ task ∷ [] }

  -- `PostMsgToQue` and `PostDownloadTaskToQue` of FileSystem: the worker of the index gets the task.
  unfoldable pub post_msg_to_que : Server R → ℕ → FileTask P × Callback → Server R
  post_msg_to_que s index msg = record s {
    file_workers = assign s.file_workers index (s.file_workers index ++ msg ∷ []);
  }

  unfoldable pub post_download_task_to_que :
      Server R → ℕ → DownloadTask P Text × Callback → Server R
  post_download_task_to_que s index msg = record s {
    down_load_workers = assign s.down_load_workers index (s.down_load_workers index ++ msg ∷ []);
  }

  unfoldable pub apply_act : Server R → Act P → Server R
  apply_act s (sends reply) = record s { sent = s.sent ++ reply ∷ [] }
  apply_act s (posts_file index t c) = post_msg_to_que s index (t, c)
  apply_act s (posts_download index t c) = post_download_task_to_que s index (t, c)
  apply_act s throws = record s { ended = true }

  unfoldable pub apply_acts : Server R → List (Act P) → Server R
  apply_acts s [] = s
  apply_acts s (a ∷ acts) = apply_acts (apply_act s a) acts

  -- The front task is handled, and then leaves the queue.
  abbrev pub serve_front : List (ReqId × Request) → Server R → Server R
  serve_front [] s = s
  serve_front ((m, q) ∷ rest) s =
      let (redis, acts) = task_callback S R s.md5_files s.redis m q in
      apply_acts (record s { redis = redis; task_que = rest }) acts

  -- One round of the thread; it waits while there is nothing to do.
  unfoldable pub work_round : Server R → Server R
  work_round s = if s.b_stop || s.ended then s else serve_front s.task_que s

  -- So many rounds.
  unfoldable pub work_rounds : ℕ → Server R → Server R
  work_rounds zero s = s
  work_rounds (suc n) s = work_rounds n (work_round s)
