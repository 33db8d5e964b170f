-- ===== src/Chat/Handlers/Answers.antt =====
-- Who is answered, who is told, and who is logged in.
use distributed_instant_mess.Base.{
  ℕ, ◌+◌, ◌≡◌, ◌≢◌, ◌⊎◌, Bool, true, false, some, List, [], ◌∷◌, ◌++◌,
}
use distributed_instant_mess.Base.Text.{Text}
use distributed_instant_mess.Chat.Users.{Cache, Services, get_base_info}
use distributed_instant_mess.Chat.Handlers.{
  ReqId, id_auth_friend_req, other_req, Request, Server, Act, answers, notifies, calls_server,
  logs_in, raises, user_token_prefix, Place, here, elsewhere, user_ip_prefix,
}
use distributed_instant_mess.Chat.Handlers.Requests.{place}

-- How many answers there are.
unfoldable pub answers_in : List Act → ℕ
answers_in [] = 0
answers_in (answers reply ∷ acts) = 1 + answers_in acts
answers_in (_ ∷ acts) = answers_in acts

module _ (R : Cache) (S : Services) (H : Server) where
  -- Who is told is at the place. A login has the token that Redis holds for the user.
  abbrev IsDueAt : R.State → Request → Place → Act → Type 0
  IsDueAt r q p (notifies session n) = p ≡ here session
  IsDueAt r q p (calls_server ip n) = p ≡ elsewhere ip
  IsDueAt r q p (logs_in uid) =
      (uid ≡ q.uid) × (R.get r (user_token_prefix ++ S.to_string q.uid) ≡ some q.token)
  IsDueAt r q p _ = Unit

  abbrev AllDueAt : R.State → Request → Place → List Act → Type 0
  AllDueAt r q p [] = Unit
  AllDueAt r q p (a ∷ acts) = IsDueAt r q p a × AllDueAt r q p acts

  -- One answer to the sender, or an exception in place of it.
  abbrev pub IsAnswered : List Act → Type 0
  IsAnswered acts = (answers_in acts ≡ 1) ⊎ (acts ≡ raises ∷ [])

  -- Both.
  abbrev IsProperAt : R.State → Request → Place → List Act → Type 0
  IsProperAt r q p acts = IsAnswered acts × AllDueAt r q p acts

  -- The place of the other user when the request comes to it: `AuthFriendApply` looks the user up
  -- first, which can put an entry into Redis.
  abbrev pub place_for : R.State → ReqId → Request → Place
  place_for r id_auth_friend_req q = place R S H (get_base_info R S r q.touid).1 q.touid
  place_for r m q = place R S H r q.touid

  abbrev pub is_known : ReqId → Bool
  is_known other_req = false
  is_known _ = true

  -- Redis when the place of the other user is looked up: `AuthFriendApply` looks the user up first,
  -- which can put an entry into Redis.
  abbrev pub redis_for : R.State → ReqId → Request → R.State
  redis_for r id_auth_friend_req q = (get_base_info R S r q.touid).1
  redis_for r m q = r

  -- A session that is told is the one that this server has for `touid`, which Redis has at this server;
  -- a server that is called is the other one at which Redis has it. A login has the token that Redis
  -- holds for the user.
  abbrev pub IsDue : R.State → R.State → Request → Act → Type 0
  IsDue r r' q (notifies session n) =
      (R.get r' (user_ip_prefix ++ S.to_string q.touid) ≡ some H.self_name)
      × (H.get_session q.touid ≡ some session)
  IsDue r r' q (calls_server ip n) =
      (R.get r' (user_ip_prefix ++ S.to_string q.touid) ≡ some ip) × (ip ≢ H.self_name)
  IsDue r r' q (logs_in uid) =
      (uid ≡ q.uid) × (R.get r (user_token_prefix ++ S.to_string q.uid) ≡ some q.token)
  IsDue r r' q _ = Unit

  abbrev pub AllDue : R.State → R.State → Request → List Act → Type 0
  AllDue r r' q [] = Unit
  AllDue r r' q (a ∷ acts) = IsDue r r' q a × AllDue r r' q acts
