-- ===== src/Gate/Logic.antt =====
-- GateServer/LogicSystem.cpp: the handlers of the POST requests, with CheckEmail and UpdatePwd of
-- GateServer/MysqlDao.cpp on a connection that is there. Json, Redis, the database and the
-- other servers are parameters: a body that is parsed is the record of its fields, and the answers to
-- the handler's questions are functions.
pub mod Guard
use distributed_instant_mess.Base.{
  ℕ, Bool, true, false, ◌&&◌, ◌||◌, Option, none, some, List, [], ◌∷◌, ◌==◌, if◌then◌else◌,
}
pub use distributed_instant_mess.Base.Text.{Text, text_eq}
use distributed_instant_mess.Log.Numbers.{ℤ, pos, negsuc}
use distributed_instant_mess.Storage.Session.{Answer, throws, gives, Count}

pub data ErrorCode : Type 0 where
  error_json : ErrorCode
  rpc_failed : ErrorCode
  varify_expired : ErrorCode
  varify_code_err : ErrorCode
  user_exist : ErrorCode
  passwd_err : ErrorCode
  email_not_match : ErrorCode
  passwd_up_failed : ErrorCode
  passwd_invalid : ErrorCode

pub record Request : Type 0 where
  pub email : Text
  pub user : Text
  pub passwd : Text
  pub confirm : Text
  pub icon : Text
  pub varifycode : Text

pub record ChatReply : Type 0 where
  pub token : Text
  pub host : Text
  pub port : Text

-- `get_code`: the code that Redis holds for an address. `reg_user`: what RegUser returns.
-- `select_email`: the address in the first row of the user with a name. `execute_update`: the answer
-- to the update of a password. `find_user`: the id of the user with this address and password. `chat_server`: none if the status server answers an error.
pub record Services : Type 0 where
  pub get_code : Text → Option Text
  pub reg_user : Request → ℤ
  pub select_email : Text → Answer (Option Text)
  pub execute_update : Text → Text → Answer Count
  pub find_user : Text → Text → Option ℕ
  pub chat_server : ℕ → Option ChatReply

-- The calls that change the database.
pub data Call : Type 0 where
  calls_reg_user : (name email pwd icon : Text) → Call
  calls_update_pwd : (name pwd : Text) → Call

-- The fields of the answer besides those that repeat the request.
pub data Response : Type 0 where
  failure : ErrorCode → Response
  registered : ℤ → Response
  reset : Response
  logged_in : ℕ → ChatReply → Response

-- What comes of the code that Redis holds and the one of the request.
pub data CodeCheck : Type 0 where
  expired : CodeCheck
  wrong : CodeCheck
  right : CodeCheck

unfoldable pub check_code : Option Text → Text → CodeCheck
check_code none given = expired
check_code (some varify_code) given = if text_eq varify_code given then right else wrong

-- `uid == 0 || uid == -1`
abbrev pub is_refused : ℤ → Bool
is_refused (pos n) = n == 0
is_refused (negsuc n) = n == 0

-- The rest of `MysqlDao::CheckEmail` and `MysqlDao::UpdatePwd` behind the answer; the exception is
-- caught.
abbrev pub same_email : Text → Answer (Option Text) → Bool
same_email email (throws code) = false
same_email email (gives none) = false
same_email email (gives (some found)) = text_eq found email

abbrev pub is_executed : Answer Count → Bool
is_executed (throws code) = false
is_executed (gives update_count) = true

module _ (S : Services) where
  pub check_email : Text → Text → Bool
  check_email name email = same_email email (S.select_email name)

  pub update_pwd : Text → Text → Bool
  update_pwd name pwd = is_executed (S.execute_update name pwd)

  abbrev pub reg_call : Request → Call
  reg_call q = calls_reg_user q.user q.email q.passwd q.icon

  abbrev pub answer_reg : Request → List Call × Response
  answer_reg q =
      if is_refused (S.reg_user q)
      then (reg_call q ∷ [], failure user_exist)
      else (reg_call q ∷ [], registered (S.reg_user q))

  abbrev pub reg_checked : CodeCheck → Request → List Call × Response
  reg_checked expired q = ([], failure varify_expired)
  reg_checked wrong q = ([], failure varify_code_err)
  reg_checked right q = answer_reg q

  unfoldable pub user_register : Option Request → List Call × Response
  user_register none = ([], failure error_json)
  user_register (some q) =
      if text_eq q.passwd q.confirm
      then reg_checked (check_code (S.get_code q.email) q.varifycode) q
      else ([], failure passwd_err)

  abbrev pub answer_reset : Request → List Call × Response
  answer_reset q =
      if update_pwd q.user q.passwd
      then (calls_update_pwd q.user q.passwd ∷ [], reset)
      else (calls_update_pwd q.user q.passwd ∷ [], failure passwd_up_failed)

  abbrev pub reset_checked : CodeCheck → Request → List Call × Response
  reset_checked expired q = ([], failure varify_expired)
  reset_checked wrong q = ([], failure varify_code_err)
  reset_checked right q =
      if check_email q.user q.email then answer_reset q else ([], failure email_not_match)

  unfoldable pub reset_pwd : Option Request → List Call × Response
  reset_pwd none = ([], failure error_json)
  reset_pwd (some q) = reset_checked (check_code (S.get_code q.email) q.varifycode) q

  abbrev pub answer_login : ℕ → Option ChatReply → Response
  answer_login uid none = failure rpc_failed
  answer_login uid (some reply) = logged_in uid reply

  abbrev pub login_found : Option ℕ → Response
  login_found none = failure passwd_invalid
  login_found (some uid) = answer_login uid (S.chat_server uid)

  unfoldable pub user_login : Option Request → List Call × Response
  user_login none = ([], failure error_json)
  user_login (some q) = ([], login_found (S.find_user q.email q.passwd))
