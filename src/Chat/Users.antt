-- ===== src/Chat/Users.antt =====
-- ChatServer/LogicSystem.cpp: how a user is looked up, in Redis first and then in the database.
pub mod Direct
use distributed_instant_mess.Base.{
  ℕ, Bool, true, false, ◌&&◌, Option, none, some, List, [], ◌∷◌, ◌++◌, leb, if◌then◌else◌,
}
use distributed_instant_mess.Base.Text.{Text}

-- The field `back`, which only the users of a friend list have, is left out.
pub record UserInfo : Type 0 where
  pub uid : ℕ
  pub name : Text
  pub pwd : Text
  pub email : Text
  pub nick : Text
  pub desc : Text
  pub sex : ℕ
  pub icon : Text

-- `Get` and `Set` of RedisMgr.
pub record Cache : Type 1 where
  pub State : Type 0
  pub get : State → Text → Option Text
  pub set : State → Text → Text → State

-- The two functions `GetUser` of MysqlMgr, Json, and the texts of numbers. `stoi` is none where it
-- throws. A user that cannot be parsed has empty fields.
pub record Services : Type 0 where
  pub get_user : ℕ → Option UserInfo
  pub get_user_named : Text → Option UserInfo
  pub to_styled_string : UserInfo → Text
  pub parse : Text → UserInfo
  pub to_string : ℕ → Text
  pub stoi : Text → Option ℕ

-- USER_BASE_INFO and NAME_INFO: "ubaseinfo_" and "nameinfo_"
abbrev pub user_base_info : Text
user_base_info = 117 ∷ 98 ∷ 97 ∷ 115 ∷ 101 ∷ 105 ∷ 110 ∷ 102 ∷ 111 ∷ 95 ∷ []

abbrev pub name_info : Text
name_info = 110 ∷ 97 ∷ 109 ∷ 101 ∷ 105 ∷ 110 ∷ 102 ∷ 111 ∷ 95 ∷ []

-- How a search ends: with a user, with the error UidInvalid, or with an exception.
pub data Lookup : Type 0 where
  found : UserInfo → Lookup
  uid_invalid : Lookup
  throws : Lookup

abbrev pub is_digit_char : ℕ → Bool
is_digit_char c = leb 48 c && leb c 57

unfoldable pub is_pure_digit : Text → Bool
is_pure_digit [] = true
is_pure_digit (c ∷ s) = let rest = is_pure_digit s in if is_digit_char c then rest else false

module _ (R : Cache) (S : Services) where
  -- What follows the reading of the cache: a user that the database has is put into the cache.
  abbrev pub keep_user : R.State → Text → Option UserInfo → Lookup × R.State
  keep_user r base_key none = (uid_invalid, r)
  keep_user r base_key (some user_info) =
      (found user_info, R.set r base_key (S.to_styled_string user_info))

  abbrev pub base_info_found : R.State → Text → ℕ → Option Text → Lookup × R.State
  base_info_found r base_key uid (some info_str) = (found (S.parse info_str), r)
  base_info_found r base_key uid none = keep_user r base_key (S.get_user uid)

  -- `GetBaseInfo`. The key is the one that its callers make.
  unfoldable pub get_base_info : R.State → ℕ → Lookup × R.State
  get_base_info r uid =
      base_info_found r (user_base_info ++ S.to_string uid) uid
        (R.get r (user_base_info ++ S.to_string uid))

  abbrev pub user_of : Option ℕ → R.State → Text → Lookup × R.State
  user_of none r base_key = (throws, r)
  user_of (some uid) r base_key = keep_user r base_key (S.get_user uid)

  abbrev pub by_uid_found : R.State → Text → Text → Option Text → Lookup × R.State
  by_uid_found r base_key uid_str (some info_str) = (found (S.parse info_str), r)
  by_uid_found r base_key uid_str none = user_of (S.stoi uid_str) r base_key

  unfoldable pub get_user_by_uid : R.State → Text → Lookup × R.State
  get_user_by_uid r uid_str =
      by_uid_found r (user_base_info ++ uid_str) uid_str (R.get r (user_base_info ++ uid_str))

  abbrev pub by_name_found : R.State → Text → Text → Option Text → Lookup × R.State
  by_name_found r base_key name (some info_str) = (found (S.parse info_str), r)
  by_name_found r base_key name none = keep_user r base_key (S.get_user_named name)

  unfoldable pub get_user_by_name : R.State → Text → Lookup × R.State
  get_user_by_name r name = by_name_found r (name_info ++ name) name (R.get r (name_info ++ name))

  unfoldable pub search_info : R.State → Text → Lookup × R.State
  search_info r uid_str =
      if is_pure_digit uid_str then get_user_by_uid r uid_str else get_user_by_name r uid_str
