-- ===== src/Resource/Download/Refuse.antt =====
-- What a download request that is refused does, and which numbers are refused.
use distributed_instant_mess.Base.{
  ℕ, ◌+◌, ◌-◌, ◌*◌, ◌≡◌, ◌≢◌, ◌⊎◌, refl, sym, ap, ◌∙◌, subst, inl, inr, Bool, true, false, Option,
  none, some, List, arith, leb, ◌==◌, Bool-cases, length, take, drop,
}
use distributed_instant_mess.Resource.Disk.{Disk}
use distributed_instant_mess.Resource.Download.{
  max_file_len, ErrorCode, file_seq_invalid, file_offset_invalid, file_read_failed, FileInfo,
  Progress, Keeps, DownloadTask, Reply, error, chunk, read_chunk, first_info, resume, serve_file,
  open_read, handle,
}

not_equal : (a b : ℕ) → a ≢ b → (a == b) ≡ false
not_equal a b ne = ground (arith, ne)

module _ (D : Disk) (R : Progress D.FilePath) (encode : List ℕ → List ℕ) where
  -- A chunk that is read: an error that changes nothing, the last data, or other data.
  read-cases :
      (file : List ℕ) (r : R.State) (info : FileInfo D.FilePath R.Name)
      (t : DownloadTask D.FilePath R.Name)
      → ((code : ErrorCode) × (read_chunk D R encode file r info t ≡ (r, error code)))
        ⊎ (((e : List ℕ) × (total current : ℕ) × (read_chunk D R encode file r info t
                ≡ (R.del_info r t.task_name, chunk e t.task_seq total current true)))
            ⊎ ((i : FileInfo D.FilePath R.Name) × (e : List ℕ) × (total current : ℕ) × (i.seq
                  ≡ info.seq + 1)
                × (read_chunk D R encode file r info t
                    ≡ (R.set_info r t.task_name i, chunk e t.task_seq total current false))))
  unfolding read_chunk
  read-cases file r info t =
      let offset = (t.task_seq - 1) * max_file_len in
      let bytes = take max_file_len (drop offset file) in
      elim (Bool-cases (leb info.total_size offset)) [
        | inl beyond ↦ inl (file_offset_invalid, simp beyond)
        | inr inside ↦ elim (Bool-cases (length bytes == 0)) [
          | inl empty ↦ inl (file_read_failed, simp (inside, empty))
          | inr some_bytes ↦ elim (Bool-cases (leb info.total_size (offset + length bytes))) [
            | inl last ↦ inr (
                inl (
                  encode bytes,
                  info.total_size,
                  offset + length bytes,
                  simp (inside, some_bytes, last),
                ))
            | inr more ↦ inr (
                inr (
                  record info { seq = info.seq + 1; trans_size = offset + length bytes },
                  encode bytes,
                  info.total_size,
                  offset + length bytes,
                  refl,
                  simp (inside, some_bytes, more),
                ))
          ]
        ]
      ]

  -- An error leaves Redis as it was.
  abbrev pub Unchanged : R.State → R.State × Reply → Type 0
  Unchanged r (r', error code) = r' ≡ r
  Unchanged r (r', chunk _ _ _ _ _) = Unit

  read-Unchanged :
      (file : List ℕ) (r : R.State) (info : FileInfo D.FilePath R.Name)
      (t : DownloadTask D.FilePath R.Name)
      → Unchanged r (read_chunk D R encode file r info t)
  read-Unchanged file r info t = elim (read-cases file r info t) [
    | inl (code, e) ↦ subst (Unchanged r) (sym e) refl
    | inr (inl (x, total, current, e)) ↦ subst (Unchanged r) (sym e) tt
    | inr (inr (i, x, total, current, h, e)) ↦ subst (Unchanged r) (sym e) tt
  ]

  resume-Unchanged :
      (o : Option (FileInfo D.FilePath R.Name)) (file : List ℕ) (r : R.State)
      (t : DownloadTask D.FilePath R.Name)
      → Unchanged r (resume D R encode o file r t)
  resume-Unchanged none file r t = refl
  resume-Unchanged (some info) file r t = elim (Bool-cases (t.task_seq == info.seq)) [
    | inl same ↦ rw same (read-Unchanged file r info t)
    | inr other ↦ rw other refl
  ]

  open-Unchanged :
      (o : Option (List ℕ)) (good : Bool) (r : R.State) (t : DownloadTask D.FilePath R.Name)
      → (t.task_seq == 1) ≡ false
      → Unchanged r (open_read D R encode o good r t)
  unfolding serve_file
  open-Unchanged none good r t later = refl
  open-Unchanged (some file) false r t later = refl
  open-Unchanged (some file) true r t later =
      rw later (resume-Unchanged (R.get_info r t.task_name) file r t)

  error-Unchanged :
      (x : R.State × Reply) (r : R.State) (code : ErrorCode)
      → Unchanged r x
      → x.1 ≡ error code
      → x.0 ≡ r
  error-Unchanged (r', error c) r code h e = h
  error-Unchanged (r', chunk a b c d f) r code h e = absurd (ground (arith, e))

  -- A request that is not the first of a download and that is answered with an error, whichever it
  -- is, leaves what Redis holds as it was.
  pub handle-error :
      (s : D.State) (r : R.State) (t : DownloadTask D.FilePath R.Name) (code : ErrorCode)
      → t.task_seq ≢ 1
      → (handle D R encode s r t).1 ≡ error code
      → (handle D R encode s r t).0 ≡ r
  unfolding handle
  handle-error s r t code later e =
      error-Unchanged (handle D R encode s r t) r code
        (open-Unchanged (D.content s t.task_path) (D.can_read s t.task_path) r t
          (ground (arith, later)))
        e

module _ (D : Disk) (R : Progress D.FilePath) (K : Keeps R) (encode : List ℕ → List ℕ) where
  -- After a chunk that is not the last, Redis expects the number behind `seq`.
  abbrev Expects : R.Name → ℕ → R.State × Reply → Type 0
  Expects n seq (r, error code) = Unit
  Expects n seq (r, chunk _ _ _ _ true) = Unit
  Expects n seq (r, chunk _ _ _ _ false) =
      (info : FileInfo D.FilePath R.Name) × (R.get_info r n ≡ some info) × (info.seq ≡ seq + 1)

  read-Expects :
      (file : List ℕ) (r : R.State) (info : FileInfo D.FilePath R.Name)
      (t : DownloadTask D.FilePath R.Name)
      → info.seq ≡ t.task_seq
      → Expects t.task_name t.task_seq (read_chunk D R encode file r info t)
  read-Expects file r info t h = elim (read-cases D R encode file r info t) [
    | inl (code, e) ↦ subst (Expects t.task_name t.task_seq) (sym e) tt
    | inr (inl (x, total, current, e)) ↦ subst (Expects t.task_name t.task_seq) (sym e) tt
    | inr (inr (i, x, total, current, next, e)) ↦
        subst (Expects t.task_name t.task_seq) (sym e)
          (i, K.get-set r t.task_name i, next ∙ ap (λ q. q + 1) h)
  ]

  resume-Expects :
      (o : Option (FileInfo D.FilePath R.Name)) (file : List ℕ) (r : R.State)
      (t : DownloadTask D.FilePath R.Name)
      → Expects t.task_name t.task_seq (resume D R encode o file r t)
  resume-Expects none file r t = tt
  resume-Expects (some info) file r t = elim (Bool-cases (t.task_seq == info.seq)) [
    | inl same ↦ rw same (read-Expects file r info t (ground (arith, same)))
    | inr other ↦ rw other tt
  ]

  Expects-at :
      (n : R.Name) (seq : ℕ) (x : R.State × Reply) (e : List ℕ) (q total current : ℕ)
      → Expects n seq x
      → x.1 ≡ chunk e q total current false
      → (info : FileInfo D.FilePath R.Name) × (R.get_info x.0 n ≡ some info) × (info.seq ≡ seq + 1)
  Expects-at n seq (r, reply) e q total current h eq = subst (λ y. Expects n seq (r, y)) eq h

  open-Expects :
      (o : Option (List ℕ)) (good : Bool) (r : R.State) (t : DownloadTask D.FilePath R.Name)
      → Expects t.task_name t.task_seq (open_read D R encode o good r t)
  unfolding serve_file
  open-Expects none good r t = tt
  open-Expects (some file) false r t = tt
  open-Expects (some file) true r t = elim (Bool-cases (t.task_seq == 1)) [
    | inl first ↦
        rw first (read-Expects file _ (first_info D R encode file t) t (ground (arith, first)))
    | inr later ↦ rw later (resume-Expects (R.get_info r t.task_name) file r t)
  ]

  refuse-lem :
      (r : R.State) (file : List ℕ) (info : FileInfo D.FilePath R.Name)
      (t : DownloadTask D.FilePath R.Name)
      → R.get_info r t.task_name ≡ some info
      → t.task_seq ≢ 1
      → t.task_seq ≢ info.seq
      → serve_file D R encode file r t ≡ (r, error file_seq_invalid)
  unfolding serve_file
  refuse-lem r file info t held later other =
      rw (not_equal t.task_seq 1 later, held, not_equal t.task_seq info.seq other) refl

  -- A request is answered with a chunk that is not the last one. Then, as long as Redis keeps the
  -- progress, of the requests for this download only the first chunk and the one behind are served:
  -- for a file that is there and can be read, every other number, the one just answered too unless
  -- it is 1, gets `FileSeqInvalid` and changes nothing.
  pub order-refused :
      (s u : D.State) (r : R.State) (t again : DownloadTask D.FilePath R.Name) (e : List ℕ)
      (q total current : ℕ) (file : List ℕ)
      → (handle D R encode s r t).1 ≡ chunk e q total current false
      → again.task_name ≡ t.task_name
      → D.content u again.task_path ≡ some file
      → D.can_read u again.task_path ≡ true
      → again.task_seq ≢ 1
      → again.task_seq ≢ t.task_seq + 1
      → handle D R encode u (handle D R encode s r t).0 again
        ≡ ((handle D R encode s r t).0, error file_seq_invalid)
  unfolding handle
  order-refused s u r t again e q total current file sent same there good later other =
      let (info, held, next) =
        Expects-at t.task_name t.task_seq (handle D R encode s r t) e q total current
          (open-Expects (D.content s t.task_path) (D.can_read s t.task_path) r t) sent in
      rw (there, good)
        (refuse-lem (handle D R encode s r t).0 file info again
          (subst (λ n. R.get_info (handle D R encode s r t).0 n ≡ some info) (sym same) held) later
          (λ h. other (h ∙ next)))
