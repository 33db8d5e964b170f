-- ===== src/Redis/Files.antt =====
-- ResourceServer/RedisMgr.cpp: what it keeps of a file that is uploaded or downloaded, as a Json text.
--
pub mod RoundTrip
use distributed_instant_mess.Base.{
  ℕ, suc, ◌-◌, ◌≡◌, refl, sym, ap, ◌∙◌, subst, Bool, true, false, Option, none, some, List, [], ◌∷◌,
  ◌++◌, arith, if◌then◌else◌,
}
use distributed_instant_mess.Base.Text.{Text, text_eq, text_eq_refl}
use distributed_instant_mess.Resource.Download.{FileInfo, Progress, Keeps}
use distributed_instant_mess.Resource.Logic.{Store}
use distributed_instant_mess.Resource.Logic.Pipeline.{IsUp}
use distributed_instant_mess.Redis.{Server, IsRedis, string, status, redis_get, redis_setex, ok}
use distributed_instant_mess.Redis.Manager.{
  on_get, on_set, Manager, return_connection, apply_steps, run_command, get, set_exp, del,
}

-- The members of the Json value.
pub record Root : Type 0 where
  pub file_path_str : Text
  pub name : Text
  pub seq : ℕ
  pub total_size : Text
  pub trans_size : Text

-- Json and the texts of numbers. `parse` is none if the text or a member is not as it should be.
pub record Json : Type 0 where
  pub to_styled_string : Root → Text
  pub parse : Text → Option Root
  pub to_string : ℕ → Text
  pub stoll : Text → Option ℕ

abbrev pub has_no_text : Text → Bool
has_no_text [] = true
has_no_text (c ∷ s) = false

pub record IsJson (J : Json) : Type 0 where
  pub parse-styled : (r : Root) → J.parse (J.to_styled_string r) ≡ some r
  pub styled_not_empty : (r : Root) → has_no_text (J.to_styled_string r) ≡ false
  pub stoll-to_string : (n : ℕ) → J.stoll (J.to_string n) ≡ some n

-- "file_upload_" and "file_download_"
abbrev pub file_upload : Text
file_upload = 102 ∷ 105 ∷ 108 ∷ 101 ∷ 95 ∷ 117 ∷ 112 ∷ 108 ∷ 111 ∷ 97 ∷ 100 ∷ 95 ∷ []

abbrev pub file_download : Text
file_download = 102 ∷ 105 ∷ 108 ∷ 101 ∷ 95 ∷ 100 ∷ 111 ∷ 119 ∷ 110 ∷ 108 ∷ 111 ∷ 97 ∷ 100 ∷ 95 ∷ []

abbrev pub Info : Type 0
Info = FileInfo Text Text

module _ (J : Json) where
  abbrev pub root_of : Info → Root
  root_of file_info = record {
    file_path_str = file_info.file_path;
    name = file_info.name;
    seq = file_info.seq;
    total_size = J.to_string file_info.total_size;
    trans_size = J.to_string file_info.trans_size;
  }

  abbrev pub with_sizes : Root → Option ℕ → Option ℕ → Option Info
  with_sizes root (some total_size) (some trans_size) = some (record {
    file_path = root.file_path_str;
    name = root.name;
    seq = root.seq;
    total_size = total_size;
    trans_size = trans_size;
  })
  with_sizes root _ _ = none

  abbrev pub info_of : Option Root → Option Info
  info_of none = none
  info_of (some root) = with_sizes root (J.stoll root.total_size) (J.stoll root.trans_size)

  abbrev pub parse_info : Option Text → Option Info
  parse_info none = none
  parse_info (some s) = if has_no_text s then none else info_of (J.parse s)

module _ (J : Json) (V : Server) where
  unfoldable pub set_file_info : Manager V → Text → Info → Option (Bool × Manager V)
  set_file_info m name file_info =
      set_exp V m (file_upload ++ name) (J.to_styled_string (root_of J file_info)) 3600

  unfoldable pub set_down_load_info : Manager V → Text → Info → Option (Bool × Manager V)
  set_down_load_info m name file_info =
      set_exp V m (file_download ++ name) (J.to_styled_string (root_of J file_info)) 3600

  unfoldable pub del_down_load_info : Manager V → Text → Option (Bool × Manager V)
  del_down_load_info m name = del V m (file_download ++ name)

  abbrev pub parsed : Option (Option Text × Manager V) → Option (Option Info × Manager V)
  parsed none = none
  parsed (some (o, m)) = some (parse_info J o, m)

  unfoldable pub get_file_info : Manager V → Text → Option (Option Info × Manager V)
  get_file_info m name = parsed (get V m (file_upload ++ name))

  unfoldable pub get_download_info : Manager V → Text → Option (Option Info × Manager V)
  get_download_info m name = parsed (get V m (file_download ++ name))

  -- A manager that runs and has a connection.
  abbrev pub running : V.State → ℕ → List ℕ → ℕ → Manager V
  running s context rest replies = record {
    redis = s;
    connections = context ∷ rest;
    b_stop = false;
    replies = replies;
  }
