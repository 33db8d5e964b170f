-- ===== src/Chat/Tests/Handlers.antt =====
-- Runs of the handlers over a small cache and database.
use mathlib.Core.Option.{none-ne-some}
use distributed_instant_mess.Base.{
  ℕ, zero, suc, ◌==◌, ◌+◌, ◌-◌, ◌≡◌, ◌≢◌, refl, ap, inl, inr, Option, none, some, List, [], ◌∷◌,
  map, length, take, drop, take-append, drop-append, ◌++◌, arith, if◌then◌else◌, Bool-cases,
}
use distributed_instant_mess.Base.Text.{Text, text_eq, text_eq_refl, text_eq_sound}
use distributed_instant_mess.Chat.Users.{UserInfo, Cache, Services}
use distributed_instant_mess.Chat.Users.Direct.{
  Keeps, IsJson, base_info, search, direct, ask_all, ask_all-eq,
}
use distributed_instant_mess.Chat.Handlers.{Request, Server}

abbrev put_text : (Text → Option Text) → Text → Text → Text → Option Text
put_text f k v j = if text_eq j k then some v else f j

put_text-other : (f : Text → Option Text) (k v j : Text) → j ≢ k → put_text f k v j ≡ f j
put_text-other f k v j ne = elim (Bool-cases (text_eq j k)) [
  | inl e ↦ absurd (ne (text_eq_sound j k e))
  | inr e ↦ rw e refl
]

abbrev cache : Cache
cache = record { State = Text → Option Text; get = λ r k. r k; set = λ r k v. put_text r k v }

cache-Keeps : Keeps cache
cache-Keeps = record {
  get-set = λ r k v. rw (text_eq_refl k) refl;
  get_other = λ r k v j ne. put_text-other r k v j ne;
}

-- A user of which only the number and the sex are not empty.
abbrev user : ℕ → ℕ → UserInfo
user uid sex = record {
  uid = uid;
  name = [];
  pwd = [];
  email = [];
  nick = [];
  desc = [];
  sex = sex;
  icon = [];
}

-- A text behind its length.
abbrev measured : Text → Text → Text
measured s rest = length s ∷ s ++ rest

abbrev cut : Text → Text × Text
cut [] = ([], [])
cut (n ∷ s) = (take n s, drop n s)

abbrev encode : List Text → Text
encode [] = []
encode (t ∷ ts) = measured t (encode ts)

abbrev cuts : ℕ → Text → List Text
cuts zero s = []
cuts (suc n) s = (cut s).0 ∷ cuts n (cut s).1

cuts-encode : (ts : List Text) → cuts (length ts) (encode ts) ≡ ts
cuts-encode [] = refl
cuts-encode (t ∷ ts) =
    rw (take-append t (encode ts), drop-append t (encode ts), cuts-encode ts) refl

abbrev user_from : ℕ → ℕ → List Text → UserInfo
user_from uid sex (name ∷ pwd ∷ email ∷ nick ∷ desc ∷ icon ∷ rest) = record {
  uid = uid;
  name = name;
  pwd = pwd;
  email = email;
  nick = nick;
  desc = desc;
  sex = sex;
  icon = icon;
}
user_from uid sex _ = user uid sex

abbrev parse_user : Text → UserInfo
parse_user (uid ∷ sex ∷ s) = user_from uid sex (cuts 6 s)
parse_user _ = user 0 0

-- One user, who has the number 7.
abbrev find : ℕ → Option UserInfo
find uid = if uid == 7 then some (user 7 1) else none

abbrev lookups : Services
lookups = record {
  get_user = find;
  get_user_named = λ name. none;
  to_styled_string =
      λ u. u.uid ∷ u.sex ∷ encode (u.name ∷ u.pwd ∷ u.email ∷ u.nick ∷ u.desc ∷ u.icon ∷ []);
  parse = parse_user;
  to_string = λ n. (48 + n) ∷ [];
  stoi = λ s. elim s [ [] ↦ none | c ∷ rest ↦ some (c - 48) ];
}

lookups-IsJson : IsJson lookups
lookups-IsJson = record {
  parse-styled = λ u.
      ap (user_from u.uid u.sex)
        (cuts-encode (u.name ∷ u.pwd ∷ u.email ∷ u.nick ∷ u.desc ∷ u.icon ∷ []));
  stoi-to_string = λ n. ap some (omega arith);
}

abbrev nothing : Text → Option Text
nothing k = none

ask_all-eq_example :
    ask_all cache lookups nothing (base_info 7 ∷ search (55 ∷ []) ∷ search (56 ∷ []) ∷ [])
    ≡ map (direct lookups) (base_info 7 ∷ search (55 ∷ []) ∷ search (56 ∷ []) ∷ [])
ask_all-eq_example =
    ask_all-eq cache lookups cache-Keeps lookups-IsJson
      (base_info 7 ∷ search (55 ∷ []) ∷ search (56 ∷ []) ∷ []) nothing
      (record {
        by_uid = λ s v e. absurd (none-ne-some v e);
        by_name = λ s v e. absurd (none-ne-some v e);
      })

-- The other users are at the server "1", and have the session 5.
abbrev chat_server : Server
chat_server = record {
  self_name = 49 ∷ [];
  get_session = λ uid. some 5;
  now = [];
  get_apply_list = λ uid. none;
  get_friend_list = λ uid. [];
  add_friend = λ uid other back. [];
  add_chat_msgs = λ msgs. msgs;
  get_user_threads = λ uid last n. none;
  create_private_chat = λ uid other. none;
  load_chat_msg = λ thread last n. none;
}

abbrev at_one : Text → Option Text
at_one k = some (49 ∷ [])

abbrev text_request : Request
text_request = record {
  uid = 0;
  token = [];
  uid_text = [];
  applyname = [];
  bakname = [];
  touid = 8;
  fromuid = 7;
  back_name = [];
  thread_id = 3;
  text_array = record { content = 104 ∷ []; unique_id = 1 ∷ [] } ∷ [];
  other_id = 0;
  message_id = 0;
  md5 = [];
  name = [];
  unique_id = [];
}
