-- ===== src/Resource/Tests.antt =====
-- Runs of the file transfer over a small disk, on which every operation succeeds.
mod Logic
use distributed_instant_mess.Base.{
  ℕ, ◌+◌, ◌*◌, ◌<◌, ◌≡◌, refl, ap, ◌∙◌, Bool, true, false, Option, none, some, List, [], ◌∷◌, ◌++◌,
  arith, length, replicate, take, drop, length-take, ◌-◌, leb, ◌==◌, length-replicate,
}
use distributed_instant_mess.Base.Table.{assign, assign-same}
use distributed_instant_mess.Resource.Disk.{Disk, IsLawful}
use distributed_instant_mess.Resource.Upload
use distributed_instant_mess.Resource.Upload.{
  FileTask, MsgId, upload_file_req, upload_head_icon_req, img_chat_upload_req,
  img_chat_continue_upload_req, Services, UserInfo, write_chunk, upload_file, upload_head_icon,
  img_chat_upload, img_chat_continue_upload,
}
use distributed_instant_mess.Resource.Upload.Content.{
  all_well, run_tasks, decoded_data, AreLater, content-uploads,
}
use distributed_instant_mess.Resource.Upload.Answer.{OneAnswer, task-OneAnswer}
use distributed_instant_mess.Resource.Download
use distributed_instant_mess.Resource.Download.{
  max_file_len, FileInfo, Progress, Keeps, DownloadTask, error, chunk, file_not_exists,
  file_seq_invalid, handle,
}
use distributed_instant_mess.Resource.Download.Fetch.{fetch}
use distributed_instant_mess.Resource.Download.Transfer.{joined, requests, fetch-requests}
use distributed_instant_mess.Resource.Download.Refuse.{order-refused}

-- A missing file is made empty.
abbrev made : Option (List ℕ) → List ℕ
made none = []
made (some d) = d

-- The files by the numbers of their paths.
abbrev disk : Disk
disk = record {
  State = ℕ → Option (List ℕ);
  FilePath = ℕ;
  has_dir = λ s p. false;
  create_dirs = λ s p. (true, s);
  open_trunc = λ s p. (true, assign s p (some []));
  open_app = λ s p. (true, assign s p (some (made (s p))));
  write = λ s p d. (true, assign s p (some (made (s p) ++ d)));
  content = λ s p. s p;
  can_read = λ s p. true;
}

disk-IsLawful : IsLawful disk
disk-IsLawful = record {
  content-create_dirs = λ s p q. refl;
  content-open_trunc = λ s p h. assign-same s p (some []);
  content-open_app = λ s p d e h. assign-same s p (some (made (s p))) ∙ ap (λ o. some (made o)) e;
  content-write = λ s p d new e h.
      assign-same s p (some (made (s p) ++ new)) ∙ ap (λ o. some (made o ++ new)) e;
}

-- Redis as a function.
abbrev redis : Progress ℕ
redis = record {
  State = ℕ → Option (FileInfo ℕ ℕ);
  Name = ℕ;
  get_info = λ r n. r n;
  set_info = λ r n i. assign r n (some i);
  del_info = λ r n. assign r n none;
}

redis-Keeps : Keeps redis
redis-Keeps = record { get-set = λ r n i. assign-same r n (some i) }

-- An encoding that puts a byte in front.
abbrev encode : List ℕ → List ℕ
encode bytes = 61 ∷ bytes

abbrev decode : List ℕ → List ℕ
decode [] = []
decode (c ∷ bytes) = bytes

abbrev services : Services
services = record {
  base64_decode = decode;
  find_user = λ uid. none;
  find_ip = λ uid. some (49 ∷ []);
}

abbrev empty_disk : ℕ → Option (List ℕ)
empty_disk p = none

abbrev no_info : ℕ → Option (FileInfo ℕ ℕ)
no_info n = none

abbrev task : MsgId → ℕ → Bool → List ℕ → FileTask ℕ
task id seq last bytes = record {
  msg_id = id;
  uid = 7;
  path = 3;
  seq = seq;
  last = last;
  file_data = encode bytes;
  callback = true;
  chat_msg_id = 5;
  receiver = 8;
}

abbrev later_tasks : List (FileTask ℕ)
later_tasks =
    task img_chat_continue_upload_req 2 false (3 ∷ [])
    ∷ task img_chat_continue_upload_req 3 true (4 ∷ 5 ∷ [])
    ∷ []

-- A file of two chunks.
abbrev long_file : List ℕ
long_file = replicate 40000 9

abbrev long_disk : ℕ → Option (List ℕ)
long_disk p = some long_file

abbrev sent_disk : ℕ → Option (List ℕ)
sent_disk =
    (run_tasks disk services empty_disk (requests encode 7 3 1 ((1 ∷ 2 ∷ []) ∷ (3 ∷ []) ∷ []))).0

fetch-requests_example :
    fetch disk redis encode decode 1 sent_disk 3 4 1 no_info
    ≡ some (joined ((1 ∷ 2 ∷ []) ∷ (3 ∷ []) ∷ []))
unfolding run_tasks requests Upload.task_callback write_chunk upload_file all_well joined
    max_file_len
fetch-requests_example =
    fetch-requests disk disk-IsLawful redis redis-Keeps services encode (λ bytes. refl) empty_disk
      no_info 7 3 4 (1 ∷ 2 ∷ []) ((3 ∷ []) ∷ []) 1 refl refl (omega arith) (omega arith)

abbrev ask_for : ℕ → DownloadTask ℕ ℕ
ask_for seq = record { task_name = 4; task_seq = seq; task_path = 3; callback = true }

-- The first request for a file of more than one chunk.
tests :
    (n : ℕ) (file : List ℕ)
    → 0 < n
    → n < length file
    → (leb (length file) 0 ≡ false)
      × ((length (take n file) == 0) ≡ false)
      × (leb (length file) (0 + length (take n file)) ≡ false)
tests n file pos lt =
    (ground arith, ground (arith, length-take n file), ground (arith, length-take n file))

first-IsSent :
    (file : List ℕ)
    → max_file_len < length file
    → (handle disk redis encode (λ p. some file) no_info (ask_for 1)).1
      ≡ chunk
          (encode (take max_file_len (drop ((1 - 1) * max_file_len) file)))
          1
          (length file)
          ((1 - 1) * max_file_len + length (take max_file_len (drop ((1 - 1) * max_file_len) file)))
          false
unfolding handle Download.serve_file Download.read_chunk max_file_len
first-IsSent file lt =
    let (inside, some_bytes, more) = tests max_file_len file (omega arith) lt in
    rw (inside, some_bytes, more) refl

order-refused_example :
    handle disk redis encode long_disk
      (handle disk redis encode long_disk no_info (ask_for 1)).0
      (ask_for 3)
    ≡ ((handle disk redis encode long_disk no_info (ask_for 1)).0, error file_seq_invalid)
unfolding max_file_len
order-refused_example =
    order-refused disk redis redis-Keeps encode long_disk long_disk no_info (ask_for 1) (ask_for 3)
      _ _ _ _ long_file (first-IsSent long_file (omega (arith, length-replicate {A = ℕ} 40000 9)))
      refl refl refl (λ e. absurd (omega (arith, e))) (λ e. absurd (omega (arith, e)))
