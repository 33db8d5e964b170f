-- ===== src/Redis/Files/RoundTrip.antt =====
-- What RedisMgr keeps of a file is what it was given. This fills the interfaces of the clients.
use distributed_instant_mess.Base.{
  arith, ◌<◌, ℕ, suc, ◌-◌, ◌≡◌, refl, sym, ap, ◌∙◌, subst, Bool, true, false, Option, none, some,
  List, [], ◌∷◌, ◌++◌,
}
use distributed_instant_mess.Base.Text.{Text, text_eq}
use distributed_instant_mess.Resource.Download.{Progress, Keeps}
use distributed_instant_mess.Resource.Logic.{Store}
use distributed_instant_mess.Resource.Logic.Pipeline.{IsUp}
use distributed_instant_mess.Redis.{Server, text, IsRedis, redis_setex}
use distributed_instant_mess.Redis.Manager.{
  on_get, on_set, Manager, return_connection, apply_steps, run_command, get, set_exp,
}
use distributed_instant_mess.Redis.Files.{
  Json, IsJson, file_upload, file_download, Info, root_of, parse_info, set_file_info,
  set_down_load_info, del_down_load_info, parsed, get_file_info, get_download_info, running,
}

module _ (J : Json) (V : Server) where
  -- What is set can be read: the setting succeeds, and every reading after it, by any connection,
  -- gives the file's entry.
  pub record Reads (reading : Manager V → Option (Option Info × Manager V)) (info : Info)
      (out : Option (Bool × Manager V)) : Type 0 where
    pub state : V.State
    pub pool : List ℕ
    pub replies : ℕ
    pub sets :
        out
        ≡ some
            (true, record { redis = state; connections = pool; b_stop = false; replies = replies })
    pub reads :
        (context : ℕ) (rest : List ℕ) (n : ℕ)
        → (m : Manager V) × (reading (running J V state context rest n) ≡ some (some info, m))

  module _ (H : IsJson J) (I : IsRedis V) where
    parse_info-styled :
        (info : Info) → parse_info J (some (J.to_styled_string (root_of J info))) ≡ some info
    parse_info-styled info =
        rw
          (
            H.styled_not_empty (root_of J info),
            H.parse-styled (root_of J info),
            H.stoll-to_string info.total_size,
            H.stoll-to_string info.trans_size,
          )
          refl

    -- The manager after a command.
    abbrev left : V.State → ℕ → List ℕ → ℕ → Manager V
    left s context rest n = record {
      redis = s;
      connections = rest ++ context ∷ [];
      b_stop = false;
      replies = suc n - 1;
    }

    get-value :
        (s : V.State) (key v : Text) (context : ℕ) (rest : List ℕ) (n : ℕ)
        → I.entry s key ≡ text v
        → get V (running J V s context rest n) key ≡ some (some v, left s context rest n)
    unfolding run_command apply_steps return_connection on_get
    get-value s key v context rest n e = rw (I.get_text s key v e) refl

    set_exp-value :
        (s : V.State) (key v : Text) (seconds : ℕ) (context : ℕ) (rest : List ℕ) (n : ℕ)
        → 0 < seconds
        → set_exp V (running J V s context rest n) key v seconds
          ≡ some (true, left (V.command s (redis_setex key seconds v)).1 context rest n)
    unfolding run_command apply_steps return_connection on_set text_eq
    set_exp-value s key v seconds context rest n positive =
        rw (I.setex_ok s key v seconds positive) refl

    styled-parsed :
        (s : V.State) (key : Text) (info : Info) (context : ℕ) (rest : List ℕ) (n : ℕ)
        → I.entry s key ≡ text (J.to_styled_string (root_of J info))
        → parsed J V (get V (running J V s context rest n) key)
          ≡ some (some info, left s context rest n)
    styled-parsed s key info context rest n e =
        ap (parsed J V) (get-value s key (J.to_styled_string (root_of J info)) context rest n e)
        ∙ ap (λ o. some (o, left s context rest n)) (parse_info-styled info)

    entry-Reads :
        (s : V.State) (key : Text) (info : Info) (context : ℕ) (rest : List ℕ) (n : ℕ)
        → Reads
            (λ m. parsed J V (get V m key))
            info
            (set_exp V
              (running J V s context rest n)
              key
              (J.to_styled_string (root_of J info))
              3600)
    entry-Reads s key info context rest n = record {
      state = (V.command s (redis_setex key 3600 (J.to_styled_string (root_of J info)))).1;
      pool = rest ++ context ∷ [];
      replies = suc n - 1;
      sets =
          set_exp-value s key (J.to_styled_string (root_of J info)) 3600 context rest n
            (omega arith);
      reads = λ context' rest' n'. (
        left (V.command s (redis_setex key 3600 (J.to_styled_string (root_of J info)))).1 context'
            rest' n',
        styled-parsed (V.command s (redis_setex key 3600 (J.to_styled_string (root_of J info)))).1
            key info context' rest' n'
            (I.setex_text s key (J.to_styled_string (root_of J info)) 3600 (omega arith)),
      );
    }

    -- The entry of a file that RedisMgr is given, for an upload or for a download, is read back as
    -- it is: SetFileInfo and SetDownLoadInfo succeed, and GetFileInfo and GetDownloadInfo of the
    -- name then give the same path, name, number and sizes, by whatever connection. The manager
    -- runs and has a connection. Json gives back what it has written, the text of a number can be
    -- read, and Redis does what its documentation says.
    pub set-get :
        (s : V.State) (name : Text) (info : Info) (context : ℕ) (rest : List ℕ) (n : ℕ)
        → Reads
            (λ m. get_file_info J V m name)
            info
            (set_file_info J V (running J V s context rest n) name info)
          × Reads
              (λ m. get_download_info J V m name)
              info
              (set_down_load_info J V (running J V s context rest n) name info)
    unfolding get_file_info get_download_info set_file_info set_down_load_info
    set-get s name info context rest n = (
      entry-Reads s (file_upload ++ name) info context rest n,
      entry-Reads s (file_download ++ name) info context rest n,
    )

  -- The interfaces of the clients, by a manager that has a free connection.
  abbrev result : {A : Type 0} → A → Option (A × Manager V) → A
  result a none = a
  result a (some (b, m)) = b

  abbrev state_after : {A : Type 0} → V.State → Option (A × Manager V) → V.State
  state_after s none = s
  state_after s (some (b, m)) = m.redis

  abbrev pub file_store : Store Text
  file_store = record {
    State = V.State;
    get = λ s key. result none (get V (running J V s 0 [] 0) key);
    get_file_info = λ s name. result none (get_file_info J V (running J V s 0 [] 0) name);
    set_file_info = λ s name info. (
      result false (set_file_info J V (running J V s 0 [] 0) name info),
      state_after s (set_file_info J V (running J V s 0 [] 0) name info),
    );
  }

  abbrev pub progress : Progress Text
  progress = record {
    State = V.State;
    Name = Text;
    get_info = λ s name. result none (get_download_info J V (running J V s 0 [] 0) name);
    set_info =
        λ s name info. state_after s (set_down_load_info J V (running J V s 0 [] 0) name info);
    del_info = λ s name. state_after s (del_down_load_info J V (running J V s 0 [] 0) name);
  }

  module _ (H : IsJson J) (I : IsRedis V) where
    -- The interface of the logic workers, filled.
    pub file_store-IsUp : IsUp file_store
    file_store-IsUp = record {
      set-success = λ s name info. ap (result false) (set-get H I s name info 0 [] 0).0.sets;
      get-set = λ s name info.
          let (up, down) = set-get H I s name info 0 [] 0 in
          subst (λ t. result none (get_file_info J V (running J V t 0 [] 0) name) ≡ some info)
            (sym (ap (state_after s) up.sets)) (ap (result none) (up.reads 0 [] 0).1);
    }

    -- The interface of the downloads, filled.
    pub progress-Keeps : Keeps progress
    progress-Keeps = record {
      get-set = λ s name info.
          let (up, down) = set-get H I s name info 0 [] 0 in
          subst (λ t. result none (get_download_info J V (running J V t 0 [] 0) name) ≡ some info)
            (sym (ap (state_after s) down.sets)) (ap (result none) (down.reads 0 [] 0).1);
    }
