-- ===== src/Status/Login.antt =====
-- The token of the status server, at the chat server.
use mathlib.Core.Bool.{true≢false}
use mathlib.Core.Option.{none-ne-some, some-injective}
use distributed_instant_mess.Base.{
  ℕ, ◌≡◌, ◌↔◌, refl, sym, ◌∙◌, subst, inl, inr, false, Option, none, some, List, [], ◌∷◌, ◌++◌,
  arith, Bool-cases,
}
use distributed_instant_mess.Base.Text.{Text, text_eq, text_eq_refl, text_eq_sound}
use distributed_instant_mess.Chat.Users.{UserInfo, Cache, Services, Lookup, found, get_base_info}
use distributed_instant_mess.Chat.Users.Direct.{Keeps}
use distributed_instant_mess.Chat.Handlers.{
  msg_chat_login, Request, Server, Act, logs_in, user_token_prefix,
}
use distributed_instant_mess.Chat.Handlers.Requests.{login_base, login_token, login_handler, handle}
use distributed_instant_mess.Status.{
  ChatServer, Servers, Reply, insert_token, reply_with, get_chat_server,
}

-- The first thing that a handler does.
abbrev pub first_act : List Act → Option Act
first_act [] = none
first_act (a ∷ acts) = some a

module _ (R : Cache) (K : Keeps R) (S : Services) (H : Server)
    (begin : Servers → Option ChatServer) where
  found_logs_in :
      (r : R.State) (q : Request) (l : Lookup × R.State) (u : UserInfo)
      → l.0 ≡ found u
      → first_act (login_base R S H q l).1 ≡ some (logs_in q.uid)
  found_logs_in r q (l, r') u e = rw e refl

  reply_kept :
      (o : Option ChatServer) (r : R.State) (uid : ℕ) (uuid : Text) (reply : Reply) (r' : R.State)
      → reply_with R S.to_string begin o r uid uuid ≡ some (reply, r')
      → R.get r' (user_token_prefix ++ S.to_string uid) ≡ some reply.token
  unfolding insert_token
  reply_kept none r uid uuid reply r' e = absurd (none-ne-some _ e)
  reply_kept (some server) r uid uuid reply r' e =
      let same = some-injective _ _ e in
      subst (λ p. R.get p.1 (user_token_prefix ++ S.to_string uid) ≡ some p.0.token) same
        (K.get-set r (user_token_prefix ++ S.to_string uid) uuid)

  login_iff :
      (r : R.State) (q : Request) (u : UserInfo) (token : Text)
      → (get_base_info R S r q.uid).0 ≡ found u
      → (first_act (login_token R S H r q (some token)).1 ≡ some (logs_in q.uid))
        ↔ (q.token ≡ token)
  login_iff r q u token f = elim (Bool-cases (text_eq token q.token)) [
    | inl same ↦ rw same (
      λ e. sym (text_eq_sound token q.token same),
      λ e. found_logs_in r q (get_base_info R S r q.uid) u f,
    )
    | inr other ↦ rw other (
      λ e. absurd (ground (arith, e)),
      λ e.
          absurd
            (true≢false (sym (text_eq_refl token) ∙ subst (λ x. text_eq token x ≡ false) e other)),
    )
  ]

  -- The status server answers a user with a token, and the user comes to the chat server while Redis
  -- is as that has left it, and is found. The chat server then logs the user in, before anything
  -- else, if and only if the token of the login is the one of the answer. Redis keeps what it is
  -- given.
  pub token-logs_in :
      (servers : Servers) (r : R.State) (uuid : Text) (q : Request) (u : UserInfo) (reply : Reply)
      (r' : R.State)
      → get_chat_server R S.to_string begin servers r q.uid uuid ≡ some (reply, r')
      → (get_base_info R S r' q.uid).0 ≡ found u
      → (first_act (handle R S H r' msg_chat_login q).1 ≡ some (logs_in q.uid))
        ↔ (q.token ≡ reply.token)
  unfolding get_chat_server handle login_handler
  token-logs_in servers r uuid q u reply r' e f =
      rw (reply_kept (begin servers) r q.uid uuid reply r' e) (login_iff r' q u reply.token f)
