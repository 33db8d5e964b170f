-- ===== src/Resource/Upload/Content.antt =====
-- What the chunks of an upload leave in the file.
use distributed_instant_mess.Base.{
  ℕ, ◌≡◌, refl, sym, ap, ◌∙◌, subst, inl, inr, Bool, true, false, not, ◌&&◌, some, List, [], ◌∷◌,
  ◌++◌, append_assoc, append-nil, arith, ◌==◌, if◌then◌else◌, Bool-cases,
}
use distributed_instant_mess.Resource.Disk.{Disk, IsLawful}
use distributed_instant_mess.Resource.Upload.{
  ErrorCode, success, file_write_permission_failed, MsgId, upload_file_req, upload_head_icon_req,
  img_chat_upload_req, file_info_sync_req, img_chat_continue_upload_req, other_id, FileTask, Effect,
  answers, bad_call, call_back, Written, failed, written, Services, write_data, after_create,
  write_chunk, close_file, finish_file, finish_head_icon, finish_img_chat, finish_continue,
  upload_file, upload_head_icon, img_chat_upload, file_info_sync, img_chat_continue_upload,
  handle_id, task_callback,
}

abbrev pub is_failure : ErrorCode → Bool
is_failure success = false
is_failure _ = true

abbrev pub is_bad : {P : Type 0} → Effect P → Bool
is_bad (answers code) = is_failure code
is_bad bad_call = true
is_bad _ = false

-- No error is answered, and no empty function called.
unfoldable pub all_well : {P : Type 0} → List (Effect P) → Bool
all_well [] = true
all_well (e ∷ es) = not (is_bad e) && all_well es

abbrev pub is_upload : MsgId → Bool
is_upload other_id = false
is_upload _ = true

and-left : (a b : Bool) → (a && b) ≡ true → a ≡ true
and-left true b e = refl
and-left false b e = e

and-right : (a b : Bool) → (a && b) ≡ true → b ≡ true
and-right true b e = e
and-right false b e = absurd (ground (arith, e))

all_well-left :
    {P : Type 0} (es fs : List (Effect P)) → all_well (es ++ fs) ≡ true → all_well es ≡ true
unfolding all_well
all_well-left [] fs h = refl
all_well-left (e ∷ es) fs h =
    rw (and-left (not (is_bad e)) _ h) (all_well-left es fs (and-right (not (is_bad e)) _ h))

all_well-right :
    {P : Type 0} (es fs : List (Effect P)) → all_well (es ++ fs) ≡ true → all_well fs ≡ true
unfolding all_well
all_well-right [] fs h = h
all_well-right (e ∷ es) fs h = all_well-right es fs (and-right (not (is_bad e)) _ h)

module _ (D : Disk) (S : Services) where
  -- The tasks, one after the other.
  unfoldable pub run_tasks :
      D.State → List (FileTask D.FilePath) → D.State × List (Effect D.FilePath)
  run_tasks s [] = (s, [])
  run_tasks s (t ∷ ts) = (
    (run_tasks (task_callback D S s t).0 ts).0,
    (task_callback D S s t).1 ++ (run_tasks (task_callback D S s t).0 ts).1,
  )

  -- The data of the tasks, decoded, in their order.
  unfoldable pub decoded_data : List (FileTask D.FilePath) → List ℕ
  decoded_data [] = []
  decoded_data (t ∷ ts) = S.base64_decode t.file_data ++ decoded_data ts

-- Later chunks of the file: any of the five requests, and not the first number.
unfoldable pub AreLater : {P : Type 0} → P → List (FileTask P) → Type 0
AreLater p [] = Unit
AreLater p (t ∷ ts) =
    (t.path ≡ p) × (is_upload t.msg_id ≡ true) × ((t.seq == 1) ≡ false) × AreLater p ts

module _ (D : Disk) (L : IsLawful D) where
  -- A chunk that is written leaves the content; one that is not, an error code.
  abbrev Leaves : Written D.State → D.FilePath → List ℕ → Type 0
  Leaves (failed code s) p d = is_failure code ≡ true
  Leaves (written s) p d = D.content s p ≡ some d

  -- What the file holds before a chunk, which counts only if it is not the first.
  abbrev Holds : Bool → D.State → D.FilePath → List ℕ → Type 0
  Holds true s p base = base ≡ []
  Holds false s p base = D.content s p ≡ some base

  if-Leaves :
      (b : Bool) (s : D.State) (p : D.FilePath) (d : List ℕ)
      → (b ≡ true → D.content s p ≡ some d)
      → Leaves (if b then written s else failed file_write_permission_failed s) p d
  if-Leaves true s p d h = h refl
  if-Leaves false s p d h = refl

  write_data-Leaves :
      (good : Bool) (s : D.State) (t : FileTask D.FilePath) (base new : List ℕ)
      → (good ≡ true → D.content s t.path ≡ some base)
      → Leaves (write_data D (good, s) t new) t.path (base ++ new)
  write_data-Leaves false s t base new h = refl
  write_data-Leaves true s t base new h =
      if-Leaves (D.write s t.path new).0 (D.write s t.path new).1 t.path (base ++ new)
        (L.content-write s t.path base new (h refl))

  open-Leaves :
      (first : Bool) (s : D.State) (t : FileTask D.FilePath) (base new : List ℕ)
      → Holds first s t.path base
      → Leaves
          (if first
            then write_data D (D.open_trunc s t.path) t new
            else write_data D (D.open_app s t.path) t new)
          t.path
          (base ++ new)
  open-Leaves true s t base new h =
      write_data-Leaves (D.open_trunc s t.path).0 (D.open_trunc s t.path).1 t base new
        λ good. rw h (L.content-open_trunc s t.path good)
  open-Leaves false s t base new h =
      write_data-Leaves (D.open_app s t.path).0 (D.open_app s t.path).1 t base new
        (L.content-open_app s t.path base h)

  Holds-create_dirs :
      (first : Bool) (s : D.State) (p : D.FilePath) (base : List ℕ)
      → Holds first s p base
      → Holds first (D.create_dirs s p).1 p base
  Holds-create_dirs true s p base h = h
  Holds-create_dirs false s p base h = L.content-create_dirs s p p ∙ h

  after_create-Leaves :
      (made : Bool) (s : D.State) (t : FileTask D.FilePath) (base new : List ℕ)
      → Holds (t.seq == 1) s t.path base
      → Leaves (after_create D (made, s) t new) t.path (base ++ new)
  after_create-Leaves false s t base new h = refl
  after_create-Leaves true s t base new h = open-Leaves (t.seq == 1) s t base new h

  write_chunk-Leaves :
      (s : D.State) (t : FileTask D.FilePath) (base new : List ℕ)
      → Holds (t.seq == 1) s t.path base
      → Leaves (write_chunk D s t new) t.path (base ++ new)
  unfolding write_chunk
  write_chunk-Leaves s t base new h = elim (Bool-cases (D.has_dir s t.path)) [
    | inl there ↦ rw there (open-Leaves (t.seq == 1) s t base new h)
    | inr missing ↦ rw missing (
        after_create-Leaves (D.create_dirs s t.path).0 (D.create_dirs s t.path).1 t base new
          (Holds-create_dirs (t.seq == 1) s t.path base h))
  ]

  call_back-bad :
      (t : FileTask D.FilePath) (code : ErrorCode)
      → is_failure code ≡ true
      → all_well (call_back t code) ≡ false
  unfolding all_well
  call_back-bad t code h = ground (arith, h)

  close-content :
      (w : Written D.State) (t : FileTask D.FilePath) (rest : List (Effect D.FilePath)) (d : List ℕ)
      → Leaves w t.path d
      → all_well (close_file D w t rest).1 ≡ true
      → D.content (close_file D w t rest).0 t.path ≡ some d
  close-content (failed code s) t rest d h well =
      absurd (ground (arith, well, call_back-bad t code h))
  close-content (written s) t rest d h well = h

  module _ (S : Services) where
    handle_id-content :
        (m : MsgId) (s : D.State) (t : FileTask D.FilePath) (base : List ℕ)
        → is_upload m ≡ true
        → Holds (t.seq == 1) s t.path base
        → all_well (handle_id D S m s t).1 ≡ true
        → D.content (handle_id D S m s t).0 t.path ≡ some (base ++ S.base64_decode t.file_data)
    unfolding upload_file upload_head_icon img_chat_upload file_info_sync img_chat_continue_upload
    handle_id-content upload_file_req s t base u h well =
        close-content _ t (finish_file D S t) _
          (write_chunk-Leaves s t base (S.base64_decode t.file_data) h) well
    handle_id-content upload_head_icon_req s t base u h well =
        close-content _ t (finish_head_icon D S t) _
          (write_chunk-Leaves s t base (S.base64_decode t.file_data) h) well
    handle_id-content img_chat_upload_req s t base u h well =
        close-content _ t (finish_img_chat D S t) _
          (write_chunk-Leaves s t base (S.base64_decode t.file_data) h) well
    handle_id-content file_info_sync_req s t base u h well =
        close-content _ t (finish_img_chat D S t) _
          (write_chunk-Leaves s t base (S.base64_decode t.file_data) h) well
    handle_id-content img_chat_continue_upload_req s t base u h well =
        close-content _ t (finish_continue D S t) _
          (write_chunk-Leaves s t base (S.base64_decode t.file_data) h) well
    handle_id-content other_id s t base u h well = absurd (ground (arith, u))

    later-content :
        (ts : List (FileTask D.FilePath)) (s : D.State) (p : D.FilePath) (base : List ℕ)
        → AreLater p ts
        → D.content s p ≡ some base
        → all_well (run_tasks D S s ts).1 ≡ true
        → D.content (run_tasks D S s ts).0 p ≡ some (base ++ decoded_data D S ts)
    unfolding run_tasks decoded_data AreLater task_callback
    later-content [] s p base later h well = rw append-nil h
    later-content (t ∷ ts) s p base (same, upload, next, later) h well =
        later-content ts (handle_id D S t.msg_id s t).0 p (base ++ S.base64_decode t.file_data)
          later
          (subst
            (λ q.
              D.content (handle_id D S t.msg_id s t).0 q
              ≡ some (base ++ S.base64_decode t.file_data))
            same
            (handle_id-content t.msg_id s t base upload
              (rw next (subst (λ q. D.content s q ≡ some base) (sym same) h))
              (all_well-left (handle_id D S t.msg_id s t).1 _ well)))
          (all_well-right (handle_id D S t.msg_id s t).1 _ well)
        ∙ ap some (append_assoc base (S.base64_decode t.file_data) (decoded_data D S ts))

    -- A file is uploaded by a request with the number 1 and any others for the same path, each of
    -- any of the five kinds. If no error is answered, and the file system does what `IsLawful`
    -- says, the file then holds the decoded data of all requests, in their order and nothing else,
    -- whatever it held before.
    pub content-uploads :
        (s : D.State) (t : FileTask D.FilePath) (ts : List (FileTask D.FilePath))
        → is_upload t.msg_id ≡ true
        → t.seq ≡ 1
        → AreLater t.path ts
        → all_well (run_tasks D S s (t ∷ ts)).1 ≡ true
        → D.content (run_tasks D S s (t ∷ ts)).0 t.path ≡ some (decoded_data D S (t ∷ ts))
    unfolding run_tasks decoded_data task_callback
    content-uploads s t ts upload first later well =
        later-content ts (handle_id D S t.msg_id s t).0 t.path (S.base64_decode t.file_data) later
          (handle_id-content t.msg_id s t [] upload (rw first refl)
            (all_well-left (handle_id D S t.msg_id s t).1 _ well))
          (all_well-right (handle_id D S t.msg_id s t).1 _ well)
