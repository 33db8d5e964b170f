-- ===== src/Resource/Download/Fetch.antt =====
-- A client that asks for one chunk after the other gets the file.
use distributed_instant_mess.Base.{
  ℕ, zero, suc, ◌+◌, ◌-◌, ◌*◌, ◌≤◌, ◌<◌, ◌≡◌, refl, sym, ap, ◌∙◌, inl, inr, true, false, Option,
  none, some, List, ◌++◌, arith, leb, ◌==◌, Bool-cases, min, length, take, drop, length-take,
  length-drop, take-append-drop, take-all, drop-drop,
}
use distributed_instant_mess.Resource.Disk.{Disk}
use distributed_instant_mess.Resource.Download.{
  max_file_len, FileInfo, Progress, Keeps, DownloadTask, chunk, Outcome, answered, send_chunk,
  read_chunk, serve_file, handle, task_callback,
}

-- The data behind an answer, and what the later requests give.
abbrev pub join : (List ℕ → List ℕ) → Outcome → Option (List ℕ) → Option (List ℕ)
join decode (answered (chunk encoded _ _ _ true)) rest = some (decode encoded)
join decode (answered (chunk encoded _ _ _ false)) (some rest) = some (decode encoded ++ rest)
join decode _ _ = none

module _ (D : Disk) (R : Progress D.FilePath) where
  abbrev pub ask : D.FilePath → R.Name → ℕ → DownloadTask D.FilePath R.Name
  ask p n seq = record { task_name = n; task_seq = seq; task_path = p; callback = true }

  -- At most `k` requests, from the number `seq` on, up to the answer that says it is the last.
  unfoldable pub fetch :
      (List ℕ → List ℕ)
      → (List ℕ → List ℕ)
      → ℕ
      → D.State
      → D.FilePath
      → R.Name
      → ℕ
      → R.State
      → Option (List ℕ)
  fetch encode decode zero s p n seq r = none
  fetch encode decode (suc k) s p n seq r =
      join decode (task_callback D R encode s r (ask p n seq)).1
        (fetch encode decode k s p n (seq + 1) (task_callback D R encode s r (ask p n seq)).0)

max_file_len-pos : 0 < max_file_len
unfolding max_file_len
max_file_len-pos = omega arith

pred_add : (k : ℕ) → k + 1 - 1 ≡ k
pred_add k = omega arith

next_seq : (k : ℕ) → suc k + 1 ≡ k + 1 + 1
next_seq k = omega arith

zero_offset : 0 * max_file_len ≡ 0
zero_offset = omega arith

next_offset : (k : ℕ) → suc k * max_file_len ≡ k * max_file_len + max_file_len
next_offset k = omega arith

not_first : (j : ℕ) → ((suc j + 1) == 1) ≡ false
not_first j = ground arith

==_same : (j : ℕ) → (j == j) ≡ true
==_same j = ground arith

module _ (D : Disk) (R : Progress D.FilePath) (K : Keeps R) where
  module _ (encode decode : List ℕ → List ℕ)
      (decode-encode : (bytes : List ℕ) → decode (encode bytes) ≡ bytes) where
    module _ (s : D.State) (p : D.FilePath) (n : R.Name) (file : List ℕ) where
      module _ (there : D.content s p ≡ some file) (good : D.can_read s p ≡ true) where
        -- What Redis holds when the chunk `k`, counted from 0, is to be asked for.
        abbrev info_at : ℕ → FileInfo D.FilePath R.Name
        info_at k = record {
          file_path = p;
          name = n;
          seq = k + 1;
          total_size = length file;
          trans_size = k * max_file_len;
        }

        abbrev Ready : ℕ → R.State → Type 0
        Ready zero r = Unit
        Ready (suc k) r = R.get_info r n ≡ some (info_at (suc k))

        -- What a request in its turn does.
        handle-read :
            (k : ℕ) (r : R.State)
            → Ready k r
            → (r' : R.State) × (handle D R encode s r (ask D R p n (k + 1))
                ≡ read_chunk D R encode file r' (info_at k) (ask D R p n (k + 1)))
        unfolding handle serve_file max_file_len
        handle-read zero r h = (R.set_info r n (info_at 0), rw (there, good) refl)
        handle-read (suc k) r h = (r, rw (there, good, not_first, h, ==_same) refl)

        abbrev bytes_at : ℕ → List ℕ
        bytes_at k = take max_file_len (drop (k * max_file_len) file)

        length-bytes_at :
            (k : ℕ) → length (bytes_at k) ≡ min max_file_len (length file - k * max_file_len)
        length-bytes_at k =
            length-take max_file_len (drop (k * max_file_len) file)
            ∙ ap (min max_file_len) (length-drop (k * max_file_len) file)

        bytes_at-pos : (k : ℕ) → k * max_file_len < length file → (length (bytes_at k) == 0) ≡ false
        bytes_at-pos k lt = ground (arith, length-bytes_at k, max_file_len-pos)

        before_end :
            (k : ℕ) → k * max_file_len < length file → leb (length file) (k * max_file_len) ≡ false
        before_end k lt = ground arith

        read-send :
            (k : ℕ) (r : R.State)
            → k * max_file_len < length file
            → read_chunk D R encode file r (info_at k) (ask D R p n (k + 1))
              ≡ send_chunk D R encode
                  (bytes_at k)
                  (k * max_file_len)
                  r
                  (info_at k)
                  (ask D R p n (k + 1))
        unfolding read_chunk
        read-send k r lt = rw (pred_add k, before_end k lt, bytes_at-pos k lt) refl

        bytes-last :
            (k : ℕ)
            → length file ≤ k * max_file_len + length (bytes_at k)
            → bytes_at k ≡ drop (k * max_file_len) file
        bytes-last k le =
            take-all max_file_len (drop (k * max_file_len) file)
              (omega (arith, length-bytes_at k, length-drop (k * max_file_len) file, le))

        length-full :
            (k : ℕ)
            → k * max_file_len + length (bytes_at k) < length file
            → length (bytes_at k) ≡ max_file_len
        length-full k lt = omega (arith, length-bytes_at k, lt)

        bytes-more :
            (k : ℕ) → bytes_at k ++ drop (suc k * max_file_len) file ≡ drop (k * max_file_len) file
        bytes-more k = rw (next_offset k) (
            rw⁻¹ (drop-drop max_file_len (k * max_file_len) file)
              (take-append-drop max_file_len (drop (k * max_file_len) file)))

        sent : ℕ → R.State → R.State
        sent k r = R.set_info r n (record (info_at k) {
          seq = suc k + 1;
          trans_size = k * max_file_len + length (bytes_at k);
        })

        sent-Ready :
            (k : ℕ) (r : R.State)
            → k * max_file_len + length (bytes_at k) < length file
            → Ready (suc k) (sent k r)
        unfolding sent
        sent-Ready k r lt = K.get-set r n _ ∙ ap some (rw (length-full k lt, next_offset k) refl)

        -- The rest is there, if a fetch of it does what it should.
        fetch-rest :
            (m k : ℕ) (r : R.State)
            → ((r' : R.State)
                → Ready (suc k) r'
                → suc k * max_file_len < length file
                → length file ≤ (suc k + m) * max_file_len
                → fetch D R encode decode m s p n (suc k + 1) r'
                  ≡ some (drop (suc k * max_file_len) file))
            → k * max_file_len + length (bytes_at k) < length file
            → length file ≤ (k + suc m) * max_file_len
            → fetch D R encode decode m s p n (suc k + 1) (sent k r)
              ≡ some (drop (suc k * max_file_len) file)
        fetch-rest m k r ih lt le =
            ih (sent k r) (sent-Ready k r lt) (omega (arith, length-full k lt, lt))
              (omega (arith, le))

        fetch-drop :
            (m k : ℕ) (r : R.State)
            → Ready k r
            → k * max_file_len < length file
            → length file ≤ (k + m) * max_file_len
            → fetch D R encode decode m s p n (k + 1) r ≡ some (drop (k * max_file_len) file)
        unfolding fetch task_callback sent
        fetch-drop zero k r ready lt le = absurd (omega (arith, lt, le))
        fetch-drop (suc m) k r ready lt le =
            let (r', e) = handle-read k r ready in
            elim (Bool-cases (leb (length file) (k * max_file_len + length (bytes_at k)))) [
              | inl last ↦
                  rw (e, read-send k r' lt, last, decode-encode)
                    (ap some (bytes-last k (ground (arith, last))))
              | inr more ↦
                  rw
                    (
                      e,
                      read-send k r' lt,
                      more,
                      sym (next_seq k),
                      fetch-rest m k r' (fetch-drop m (suc k)) (ground (arith, more)) le,
                      decode-encode,
                    )
                    (ap some (bytes-more k))
            ]

        -- A file that is not empty is downloaded whole: a client that asks for the chunks 1, 2, … and
        -- stops at the answer marked as the last gets, decoded and joined, exactly the file, in `m`
        -- requests if `m` chunks are enough for its length. This holds if the file is there, can be
        -- read and is not changed meanwhile, Redis keeps the progress, and decoding undoes encoding;
        -- nothing is asked of what Redis held before.
        pub fetch-whole :
            (m : ℕ) (r : R.State)
            → 0 < length file
            → length file ≤ m * max_file_len
            → fetch D R encode decode m s p n 1 r ≡ some file
        fetch-whole m r some_bytes le =
            fetch-drop m 0 r tt (omega (arith, zero_offset, some_bytes)) (omega (arith, le))
            ∙ ap (λ o. some (drop o file)) zero_offset
