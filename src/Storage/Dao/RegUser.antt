-- ===== src/Storage/Dao/RegUser.antt =====
-- GateServer/MysqlDao.cpp: `RegUserTransaction`. True stands for its `return newId`, false for
-- each of its other returns, of 0 or -1.
use distributed_instant_mess.Base.{
  ℕ, ◌≡◌, refl, Bool, true, false, not, Option, none, some, List, [], ◌∷◌,
}
use distributed_instant_mess.Storage.Session.{
  Answer, gives, Count, Database, IsTransactional, Db, ◌>>=◌, ◌>>◌, return_value, query, execute,
  set_auto_commit, commit, rollback, require, Outcome, try_catch,
}
use distributed_instant_mess.Storage.Session.Atomic.{
  IsAtomic, Ends, execute-Ends, query-Ends, asked-Ends, require-Ends, commit-Ends, give_up-Ends,
  begin-IsAtomic,
}

-- The statements, with their parameters.
pub data Change : Type 0 where
  next_user_id : Change
  insert_user : (uid : ℕ) (name email pwd nick icon : List ℕ) → Change

-- What the database answers, call by call: whether there is a row with the address or the name, and
-- the id, if there is a row.
pub record Answers : Type 0 where
  pub begin : Answer Unit
  pub email_exist : Answer Bool
  pub name_exist : Answer Bool
  pub update_id : Answer Count
  pub select_id : Answer (Option ℕ)
  pub insert : Answer Count
  pub end_commit : Answer Unit
  pub undo : Answer Unit
  pub catch_undo : Answer Unit

module _ (D : Database Change) (name email pwd icon : List ℕ) (r : Answers) where
  unfoldable pub insert_new : Option ℕ → Db D.State Unit
  insert_new none = rollback D r.undo >> return_value false
  insert_new (some new_id) = do
    _ ← execute D (insert_user new_id name email pwd name icon) r.insert
    commit D r.end_commit
    return_value true

  unfoldable pub reg_user_body : Db D.State Unit
  reg_user_body = do
    set_auto_commit D false r.begin
    email_taken ← query r.email_exist
    require D (not email_taken) r.undo
    name_taken ← query r.name_exist
    require D (not name_taken) r.undo
    _ ← execute D next_user_id r.update_id
    found ← query r.select_id
    insert_new found

  unfoldable pub reg_user_transaction : D.State → Outcome D.State
  reg_user_transaction s = try_catch D r.catch_undo (reg_user_body s)

-- A new id is taken, and a user is there with the id that the database gave for it.
abbrev pub IsRegistration : Answers → List ℕ → List ℕ → List ℕ → List ℕ → List Change → Type 0
IsRegistration r name email pwd icon p =
    (new_id : ℕ) × (r.select_id ≡ gives (some new_id))
    × (p ≡ next_user_id ∷ insert_user new_id name email pwd name icon ∷ [])

insert_new-Ends :
    (D : Database Change) (L : IsTransactional D) (name email pwd icon : List ℕ) (r : Answers)
    (old : List Change) (o : Option ℕ)
    → r.select_id ≡ gives o
    → Ends D old
        (IsRegistration r name email pwd icon)
        (next_user_id ∷ [])
        (insert_new D name email pwd icon r o)
unfolding insert_new
insert_new-Ends D L name email pwd icon r old none given =
    give_up-Ends D L old (IsRegistration r name email pwd icon) (next_user_id ∷ []) r.undo
insert_new-Ends D L name email pwd icon r old (some new_id) given =
    let W = IsRegistration r name email pwd icon in
    execute-Ends D L old W (next_user_id ∷ []) _ _ _ λ _.
      commit-Ends D L old W (next_user_id ∷ insert_user new_id name email pwd name icon ∷ []) _
        (new_id, given, refl)

-- A user is registered as a whole or not at all, whichever calls the database lets fail and wherever.
-- If `RegUserTransaction` comes to `return newId`, it has committed that a new id is taken and the row
-- of the user, with the id that the database gave when it was asked for it, and nothing else. If it
-- comes to any other return, it has committed nothing. In both cases no transaction is open. If an
-- exception leaves it, nothing is committed. The database does what `IsTransactional` says, a call
-- that throws has had no effect, and no transaction is open before.
pub reg_user_transaction-IsAtomic :
    (D : Database Change) (L : IsTransactional D) (name email pwd icon : List ℕ) (r : Answers)
    (s : D.State)
    → D.pending s ≡ []
    → IsAtomic D
        (D.committed s)
        (IsRegistration r name email pwd icon)
        (reg_user_transaction D name email pwd icon r s)
unfolding reg_user_transaction reg_user_body
reg_user_transaction-IsAtomic D L name email pwd icon r s none_open =
    let W = IsRegistration r name email pwd icon in
    let old = D.committed s in
    begin-IsAtomic D L old W r.begin r.catch_undo _ s refl none_open (
      query-Ends D old W [] _ _ λ _. require-Ends D L old W [] _ _ _ λ _.
        query-Ends D old W [] _ _ λ _. require-Ends D L old W [] _ _ _ λ _.
          execute-Ends D L old W [] _ _ _ λ _.
            asked-Ends D old W (next_user_id ∷ []) _ _
              λ found given. insert_new-Ends D L name email pwd icon r old found given)
