-- ===== src/Chat/Registry.antt =====
-- ChatServer/CServer.cpp and ChatServer/UserMgr.cpp: the table of sessions, and which session a user
-- is logged in with. A session is shared by both tables; its `_user_uid` is one entry of `uid_of`.
-- Session ids and users are numbers here: only whether two are the same matters.
pub mod Consistent
pub mod Runs
use distributed_instant_mess.Base.{
  ℕ, Bool, true, false, Option, none, some, List, [], ◌∷◌, ◌==◌, if◌then◌else◌,
}
use distributed_instant_mess.Base.Table.{assign}

pub record Registry : Type 0 where
  pub sessions : ℕ → Bool
  pub uid_of : ℕ → ℕ
  pub user_session : ℕ → Option ℕ

unfoldable pub init : Registry
init = record { sessions = λ _. false; uid_of = λ _. 0; user_session = λ _. none }

-- `HandleAccept` without an error: a session with a new id, of no user yet.
unfoldable pub handle_accept : Registry → ℕ → Registry
handle_accept r id = record r {
  sessions = assign r.sessions id true;
  uid_of = assign r.uid_of id 0;
}

unfoldable pub check_valid : Registry → ℕ → Bool
check_valid r id = r.sessions id

-- `UserMgr::RmvUserSession`: a user who is logged in elsewhere by now stays so.
abbrev rmv_found : Registry → ℕ → ℕ → Option ℕ → Registry
rmv_found r uid id none = r
rmv_found r uid id (some other) =
    if other == id then record r { user_session = assign r.user_session uid none } else r

unfoldable pub rmv_user_session : Registry → ℕ → ℕ → Registry
rmv_user_session r uid id = rmv_found r uid id (r.user_session uid)

abbrev erase_session : Registry → ℕ → Registry
erase_session r id = record r { sessions = assign r.sessions id false }

unfoldable pub clear_session : Registry → ℕ → Registry
clear_session r id =
    erase_session (if r.sessions id then rmv_user_session r (r.uid_of id) id else r) id

-- `UserMgr::GetSession`, and the clearing of what it finds: in `LoginHandler` for a user who is
-- logged in at this server, and in `NotifyKickUser` for one who logs in at another.
abbrev kick_found : Registry → Option ℕ → Registry
kick_found r none = r
kick_found r (some old) = clear_session r old

unfoldable pub kick_user : Registry → ℕ → Registry
kick_user r uid = kick_found r (r.user_session uid)

-- `SetUserId` and `SetUserSession`.
unfoldable pub bind : Registry → ℕ → ℕ → Registry
bind r uid id = record r {
  uid_of = assign r.uid_of id uid;
  user_session = assign r.user_session uid (some id);
}

-- The last part of `LoginHandler`. `here`: Redis names this server as the one of the user.
unfoldable pub login : Registry → Bool → ℕ → ℕ → Registry
login r here uid id = bind (if here then kick_user r uid else r) uid id

-- What happens to the tables.
pub data Op : Type 0 where
  accepts : ℕ → Op
  clears : ℕ → Op
  kicks : ℕ → Op
  logs_in : Bool → ℕ → ℕ → Op

unfoldable pub step : Registry → Op → Registry
step r (accepts id) = handle_accept r id
step r (clears id) = clear_session r id
step r (kicks uid) = kick_user r uid
step r (logs_in here uid id) = login r here uid id

unfoldable pub run : Registry → List Op → Registry
run r [] = r
run r (op ∷ ops) = run (step r op) ops
