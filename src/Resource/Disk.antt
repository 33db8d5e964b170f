-- ===== src/Resource/Disk.antt =====
-- What the server's file handlers use of the file system, over an unknown state. A text or the
-- content of a file is the list of its bytes.
use distributed_instant_mess.Base.{ℕ, ◌≡◌, Bool, true, Option, some, List, [], ◌++◌}

-- `has_dir s p`: the directory of the path exists. `create_dirs` makes it. `open_trunc` and
-- `open_app` open the file to write, `write` writes to the file opened, at its end. They say whether
-- they succeed. `can_read`: an input stream on the path is good.
pub record Disk : Type 1 where
  pub State : Type 0
  pub FilePath : Type 0
  pub has_dir : State → FilePath → Bool
  pub create_dirs : State → FilePath → Bool × State
  pub open_trunc : State → FilePath → Bool × State
  pub open_app : State → FilePath → Bool × State
  pub write : State → FilePath → List ℕ → Bool × State
  pub content : State → FilePath → Option (List ℕ)
  pub can_read : State → FilePath → Bool

-- The mode `trunc` empties the file, `app` keeps what it holds, and what is written comes behind it.
-- Making a directory changes no file.
pub record IsLawful (D : Disk) : Type 0 where
  pub content-create_dirs :
      (s : D.State) (p q : D.FilePath) → D.content (D.create_dirs s p).1 q ≡ D.content s q
  pub content-open_trunc :
      (s : D.State) (p : D.FilePath)
      → (D.open_trunc s p).0 ≡ true
      → D.content (D.open_trunc s p).1 p ≡ some []
  pub content-open_app :
      (s : D.State) (p : D.FilePath) (d : List ℕ)
      → D.content s p ≡ some d
      → (D.open_app s p).0 ≡ true
      → D.content (D.open_app s p).1 p ≡ some d
  pub content-write :
      (s : D.State) (p : D.FilePath) (d new : List ℕ)
      → D.content s p ≡ some d
      → (D.write s p new).0 ≡ true
      → D.content (D.write s p new).1 p ≡ some (d ++ new)
