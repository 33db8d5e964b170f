-- ===== src/Resource/Download.antt =====
-- ResourceServer/FileWorker.cpp: `DownloadWorker`, and ResourceServer/RedisMgr.cpp as far as it keeps
-- the progress of a download.
pub mod Fetch
pub mod Transfer
pub mod Refuse
use distributed_instant_mess.Base.{
  ℕ, zero, suc, ◌+◌, ◌-◌, ◌*◌, ◌≡◌, Bool, true, false, Option, none, some, List, [], ◌∷◌, ◌++◌, ltb,
  leb, ◌==◌, if◌then◌else◌, length, take, drop,
}
use distributed_instant_mess.Resource.Disk.{Disk}

unfoldable pub max_file_len : ℕ
max_file_len = 32768

-- The `ErrorCodes` that a download answers.
pub data ErrorCode : Type 0 where
  file_not_exists : ErrorCode
  file_read_permission_failed : ErrorCode
  redis_read_err : ErrorCode
  file_seq_invalid : ErrorCode
  file_offset_invalid : ErrorCode
  file_read_failed : ErrorCode

pub record FileInfo (FilePath Name : Type 0) : Type 0 where
  pub file_path : FilePath
  pub name : Name
  pub seq : ℕ
  pub total_size : ℕ
  pub trans_size : ℕ

-- `GetDownloadInfo`, `SetDownLoadInfo` and `DelDownLoadInfo` over an unknown state of Redis.
pub record Progress (FilePath : Type 0) : Type 1 where
  pub State : Type 0
  pub Name : Type 0
  pub get_info : State → Name → Option (FileInfo FilePath Name)
  pub set_info : State → Name → FileInfo FilePath Name → State
  pub del_info : State → Name → State

-- Redis keeps what it was given last, as long as a download takes.
pub record Keeps {FilePath : Type 0} (R : Progress FilePath) : Type 0 where
  pub get-set :
      (r : R.State) (n : R.Name) (i : FileInfo FilePath R.Name)
      → R.get_info (R.set_info r n i) n ≡ some i

pub record DownloadTask (FilePath Name : Type 0) : Type 0 where
  pub task_name : Name
  pub task_seq : ℕ
  pub task_path : FilePath
  pub callback : Bool

-- The answer: an error, or the fields `data`, `seq`, `total_size`, `current_size` and `is_last`.
pub data Reply : Type 0 where
  error : ErrorCode → Reply
  chunk : (encoded : List ℕ) (seq total_size current_size : ℕ) (is_last : Bool) → Reply

-- What the caller sees. `bad_call` is the exception of calling an empty function.
pub data Outcome : Type 0 where
  answered : Reply → Outcome
  bad_call : Outcome
  silent : Outcome

-- An error is answered without a test of `_callback`.
abbrev pub answer : Bool → Reply → Outcome
answer true reply = answered reply
answer false (error code) = bad_call
answer false (chunk _ _ _ _ _) = silent

module _ (D : Disk) (R : Progress D.FilePath) (base64_encode : List ℕ → List ℕ) where
  abbrev pub Task : Type 0
  Task = DownloadTask D.FilePath R.Name

  abbrev pub Info : Type 0
  Info = FileInfo D.FilePath R.Name

  -- The reply for the bytes read at `offset`, and what Redis is told.
  abbrev pub send_chunk : List ℕ → ℕ → R.State → Info → Task → R.State × Reply
  send_chunk bytes offset r info t =
      if leb info.total_size (offset + length bytes)
      then (
        R.del_info r t.task_name,
        chunk (base64_encode bytes) t.task_seq info.total_size (offset + length bytes) true,
      )
      else (
        R.set_info r t.task_name
            (record info { seq = info.seq + 1; trans_size = offset + length bytes }),
        chunk (base64_encode bytes) t.task_seq info.total_size (offset + length bytes) false,
      )

  -- From the computation of the offset on. The number is not 0 here, since the first is 1 and the
  -- progress holds later ones. `seekg` and `read` take at most `MAX_FILE_LEN` bytes.
  unfoldable pub read_chunk : List ℕ → R.State → Info → Task → R.State × Reply
  read_chunk file r info t =
      let offset = (t.task_seq - 1) * max_file_len in
      let bytes = take max_file_len (drop offset file) in
      if leb info.total_size offset
      then (r, error file_offset_invalid)
      else if length bytes == 0
      then (r, error file_read_failed)
      else send_chunk bytes offset r info t

  abbrev pub first_info : List ℕ → Task → Info
  first_info file t = record {
    file_path = t.task_path;
    name = t.task_name;
    seq = 1;
    total_size = length file;
    trans_size = 0;
  }

  abbrev pub resume : Option Info → List ℕ → R.State → Task → R.State × Reply
  resume none file r t = (r, error redis_read_err)
  resume (some info) file r t =
      if t.task_seq == info.seq then read_chunk file r info t else (r, error file_seq_invalid)

  unfoldable pub serve_file : List ℕ → R.State → Task → R.State × Reply
  serve_file file r t =
      if t.task_seq == 1
      then read_chunk file (R.set_info r t.task_name (first_info file t)) (first_info file t) t
      else resume (R.get_info r t.task_name) file r t

  abbrev pub open_read : Option (List ℕ) → Bool → R.State → Task → R.State × Reply
  open_read none good r t = (r, error file_not_exists)
  open_read (some file) good r t =
      if good then serve_file file r t else (r, error file_read_permission_failed)

  unfoldable pub handle : D.State → R.State → Task → R.State × Reply
  handle s r t = open_read (D.content s t.task_path) (D.can_read s t.task_path) r t

  unfoldable pub task_callback : D.State → R.State → Task → R.State × Outcome
  task_callback s r t = ((handle s r t).0, answer t.callback (handle s r t).1)
