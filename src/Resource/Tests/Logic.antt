-- ===== src/Resource/Tests/Logic.antt =====
-- Runs of the logic worker over a small Redis, on which every operation succeeds.
use distributed_instant_mess.Base.{
  ℕ, ◌%◌, ◌≡◌, refl, true, Option, none, some, List, [], ◌∷◌, if◌then◌else◌,
}
use distributed_instant_mess.Base.Text.{Text, text_eq, text_eq_refl}
use distributed_instant_mess.Resource.Upload
use distributed_instant_mess.Resource.Upload.{
  write_chunk, img_chat_upload, img_chat_continue_upload,
}
use distributed_instant_mess.Resource.Upload.Content.{all_well, run_tasks}
use distributed_instant_mess.Resource.Download.{FileInfo}
use distributed_instant_mess.Resource.Logic.{
  ReqId, id_upload_file_req, id_img_chat_upload_req, id_img_chat_continue_upload_req,
  id_down_load_file_req, Request, Services, Store, file_worker_count,
}
use distributed_instant_mess.Resource.Logic.Uploads.{
  keep_info, on_img_chat_upload, on_img_chat_continue_upload,
}
use distributed_instant_mess.Resource.Logic.Handlers.{task_callback}
use distributed_instant_mess.Resource.Logic.Workers.{
  post_msg_to_que, apply_act, apply_acts, work_round, work_rounds,
}
use distributed_instant_mess.Resource.Logic.Served.{Served, task-Served}
use distributed_instant_mess.Resource.Logic.Token.{IsGuarded, task-IsGuarded}
use distributed_instant_mess.Resource.Logic.Pipeline.{IsUp, is_chunk, key_of, IsChunk}
use distributed_instant_mess.Resource.Logic.Pipeline.Delivery.{AllLater}
use distributed_instant_mess.Resource.Logic.Pipeline.Content.{
  upload, served, decoded_requests, requests-content,
}
use distributed_instant_mess.Resource.Tests.{disk, disk-IsLawful, services, empty_disk, encode}

-- Every user has the same token.
abbrev small_store : Store ℕ
small_store = record {
  State = Text → Option (FileInfo ℕ Text);
  get = λ r key. some (7 ∷ []);
  get_file_info = λ r key. r key;
  set_file_info = λ r key i. (true, λ k. if text_eq k key then some i else r k);
}

small_store-IsUp : IsUp small_store
small_store-IsUp = record {
  set-success = λ r key i. refl;
  get-set = λ r key i. rw (text_eq_refl key) refl;
}

abbrev logic_services : Services ℕ
logic_services = record {
  path_of = λ uid name. uid;
  hash = λ name. 6;
  stoll = λ s. some 9;
  to_string = λ n. n ∷ [];
  get_chat_msg_by_id = λ id. none;
  file_size = λ p. none;
}

abbrev request : ℕ → List ℕ → Request
request seq bytes = record {
  md5 = [];
  seq = seq;
  name = 97 ∷ [];
  total_size = 9;
  trans_size = 9;
  total_size_str = [];
  trans_size_str = [];
  last = 0;
  file_data = encode bytes;
  uid = 3;
  token = 8 ∷ [];
  last_seq = 0;
  client_path = [];
  req_type = [];
  message_id = 5;
  sender = 3;
  receiver = 8;
}

abbrev no_files : Text → Option (FileInfo ℕ Text)
no_files key = none

task-Served_example :
    Served logic_services id_upload_file_req
      (request 1 [])
      (task_callback logic_services small_store [] no_files id_upload_file_req (request 1 [])).1
task-Served_example =
    task-Served logic_services small_store [] no_files id_upload_file_req (request 1 [])

task-IsGuarded_example :
    IsGuarded logic_services small_store no_files
      (request 1 [])
      (task_callback logic_services small_store [] no_files id_down_load_file_req (request 1 []))
task-IsGuarded_example =
    task-IsGuarded logic_services small_store [] no_files id_down_load_file_req (request 1 []) refl
      refl

abbrev later_requests : List (ReqId × Request)
later_requests =
    (id_img_chat_continue_upload_req, request 2 (3 ∷ []))
    ∷ (id_img_chat_continue_upload_req, request 3 (4 ∷ 5 ∷ []))
    ∷ []

request-IsChunk :
    (m : ReqId) (seq : ℕ) (bytes : List ℕ)
    → is_chunk m ≡ true
    → key_of m (request seq bytes) ≡ 97 ∷ []
    → IsChunk logic_services (97 ∷ []) 3 (97 ∷ []) m (request seq bytes)
request-IsChunk m seq bytes chunk same = record {
  id_is_chunk = chunk;
  same_key = same;
  same_uid = refl;
  same_name = refl;
  total_is_number = (9, refl);
  trans_is_number = (9, refl);
}

abbrev no_tasks : {A : Type 0} → ℕ → List A
no_tasks n = []

requests-content_example :
    ((served disk services logic_services small_store id_img_chat_upload_req
        (request 1 (1 ∷ 2 ∷ []))
        later_requests
        no_files
        []
        no_tasks
        no_tasks
        []).sent
      ≡ [])
    × (disk.content
          (upload disk services logic_services small_store empty_disk (
            (served disk services logic_services small_store id_img_chat_upload_req
                (request 1 (1 ∷ 2 ∷ []))
                later_requests
                no_files
                []
                no_tasks
                no_tasks
                []).file_workers
              (6 % file_worker_count))).0
          3
        ≡ some (
            decoded_requests services
              ((id_img_chat_upload_req, request 1 (1 ∷ 2 ∷ [])) ∷ later_requests)))
unfolding AllLater run_tasks Upload.task_callback write_chunk img_chat_upload
    img_chat_continue_upload all_well work_rounds work_round apply_acts apply_act post_msg_to_que
    task_callback on_img_chat_upload on_img_chat_continue_upload keep_info text_eq
requests-content_example =
    requests-content disk services logic_services small_store disk-IsLawful small_store-IsUp
      empty_disk id_img_chat_upload_req (request 1 (1 ∷ 2 ∷ [])) later_requests no_files [] no_tasks
      no_tasks [] (request-IsChunk id_img_chat_upload_req 1 (1 ∷ 2 ∷ []) refl refl) refl tt
      (
        request-IsChunk id_img_chat_continue_upload_req 2 (3 ∷ []) refl refl,
        refl,
        (request-IsChunk id_img_chat_continue_upload_req 3 (4 ∷ 5 ∷ []) refl refl, refl, tt),
      )
      refl refl
