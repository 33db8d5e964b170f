-- ===== src/Resource/Logic/Token.antt =====
-- Which requests need the token of their user.
use distributed_instant_mess.Base.{
  ◌≡◌, ◌⊎◌, refl, inl, inr, Bool, true, false, some, List, [], ◌∷◌, arith,
}
use distributed_instant_mess.Resource.Logic.{
  ReqId, id_test_msg_req, id_upload_file_req, id_sync_file_req, id_upload_head_icon_req,
  id_down_load_file_req, id_img_chat_upload_req, id_file_info_sync_req,
  id_img_chat_continue_upload_req, id_img_chat_down_info_sync_req, id_img_chat_down_req, other_req,
  RspId, Request, Services, Store, Act, sends, posts_file, posts_download, throws,
}
use distributed_instant_mess.Resource.Logic.Uploads.{
  token_of, on_upload_head_icon, unless_refused, check_token,
}
use distributed_instant_mess.Resource.Logic.Handlers.{
  Md5Files, on_down_load_file, on_img_chat_down, task_callback,
}
use distributed_instant_mess.Resource.Logic.Cases.{check_token-elim}

-- The head icon and the two downloads.
abbrev pub needs_token : ReqId → Bool
needs_token id_upload_head_icon_req = true
needs_token id_down_load_file_req = true
needs_token id_img_chat_down_req = true
needs_token _ = false

-- Something is posted to a worker.
abbrev pub posts : {P : Type 0} → List (Act P) → Bool
posts [] = false
posts (posts_file index t c ∷ acts) = true
posts (posts_download index t c ∷ acts) = true
posts (sends reply ∷ acts) = posts acts
posts (throws ∷ acts) = posts acts

module _ {P : Type 0} (S : Services P) (R : Store P) where
  -- Redis has the token of the request for its user, or nothing is posted and Redis is unchanged.
  abbrev pub IsGuarded : R.State → Request → R.State × List (Act P) → Type 0
  IsGuarded r q (r', acts) =
      (token_of S R r q.uid ≡ some q.token) ⊎ ((posts acts ≡ false) × (r' ≡ r))

  check_token-IsGuarded :
      (rsp : RspId) (r : R.State) (q : Request) (rest : R.State × List (Act P))
      → q.seq ≡ 1
      → IsGuarded r q (unless_refused S R (check_token S R rsp r q) r rest)
  check_token-IsGuarded rsp r q rest first =
      check_token-elim S R (IsGuarded r q) rsp r q rest (inr (refl, refl)) (inr (refl, refl))
        (λ h. inl (h first))

  -- The first request for a head icon or for a download posts nothing to a worker and changes nothing
  -- in Redis, unless Redis holds the request's token for the user that the request names.
  pub task-IsGuarded :
      (files : Md5Files P) (r : R.State) (m : ReqId) (q : Request)
      → needs_token m ≡ true
      → q.seq ≡ 1
      → IsGuarded r q (task_callback S R files r m q)
  unfolding task_callback on_upload_head_icon on_down_load_file on_img_chat_down
  task-IsGuarded files r id_upload_head_icon_req q n first = check_token-IsGuarded _ r q _ first
  task-IsGuarded files r id_down_load_file_req q n first = check_token-IsGuarded _ r q _ first
  task-IsGuarded files r id_img_chat_down_req q n first = check_token-IsGuarded _ r q _ first
  task-IsGuarded files r id_test_msg_req q n first = absurd (ground (arith, n))
  task-IsGuarded files r id_upload_file_req q n first = absurd (ground (arith, n))
  task-IsGuarded files r id_sync_file_req q n first = absurd (ground (arith, n))
  task-IsGuarded files r id_img_chat_upload_req q n first = absurd (ground (arith, n))
  task-IsGuarded files r id_file_info_sync_req q n first = absurd (ground (arith, n))
  task-IsGuarded files r id_img_chat_continue_upload_req q n first = absurd (ground (arith, n))
  task-IsGuarded files r id_img_chat_down_info_sync_req q n first = absurd (ground (arith, n))
  task-IsGuarded files r other_req q n first = absurd (ground (arith, n))
