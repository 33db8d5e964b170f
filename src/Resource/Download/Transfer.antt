-- ===== src/Resource/Download/Transfer.antt =====
-- A file goes to the server in chunks and comes back in chunks.
use distributed_instant_mess.Base.{
  ℕ, ◌+◌, ◌*◌, ◌≤◌, ◌<◌, ◌≡◌, refl, ap, ◌∙◌, subst, true, false, some, List, [], ◌∷◌, ◌++◌, arith,
  length,
}
use distributed_instant_mess.Resource.Disk.{Disk, IsLawful}
use distributed_instant_mess.Resource.Upload.{FileTask, upload_file_req, Services}
use distributed_instant_mess.Resource.Upload.Content.{
  all_well, run_tasks, decoded_data, AreLater, content-uploads,
}
use distributed_instant_mess.Resource.Download.{max_file_len, Progress, Keeps}
use distributed_instant_mess.Resource.Download.Fetch.{fetch, fetch-whole}

-- The chunks of a file, joined.
unfoldable pub joined : List (List ℕ) → List ℕ
joined [] = []
joined (c ∷ cs) = c ++ joined cs

module _ {P : Type 0} (encode : List ℕ → List ℕ) (uid : ℕ) (p : P) where
  -- The requests of a client that sends the chunks, with the numbers from `seq` on.
  unfoldable pub requests : ℕ → List (List ℕ) → List (FileTask P)
  requests seq [] = []
  requests seq (c ∷ cs) =
      record {
        msg_id = upload_file_req;
        uid = uid;
        path = p;
        seq = seq;
        last = false;
        file_data = encode c;
        callback = true;
        chat_msg_id = 0;
        receiver = 0;
      }
      ∷ requests (seq + 1) cs

  requests-AreLater : (k : ℕ) (cs : List (List ℕ)) → AreLater p (requests (k + 2) cs)
  unfolding requests AreLater
  requests-AreLater k [] = tt
  requests-AreLater k (c ∷ cs) = (
    refl,
    refl,
    ground arith,
    subst (λ q. AreLater p (requests q cs)) (omega arith) (requests-AreLater (k + 1) cs),
  )

module _ (D : Disk) (L : IsLawful D) (R : Progress D.FilePath) (K : Keeps R) (S : Services) where
  module _ (encode : List ℕ → List ℕ)
      (decode-encode : (bytes : List ℕ) → S.base64_decode (encode bytes) ≡ bytes) where
    decoded-requests :
        (uid : ℕ) (p : D.FilePath) (k : ℕ) (cs : List (List ℕ))
        → decoded_data D S (requests encode uid p k cs) ≡ joined cs
    unfolding requests decoded_data joined
    decoded-requests uid p k [] = refl
    decoded-requests uid p k (c ∷ cs) =
        rw (decode-encode c) (ap (λ x. c ++ x) (decoded-requests uid p (k + 1) cs))

    -- A client sends the chunks of a file, of any sizes, with the numbers 1, 2, … and no error is
    -- answered. Then a client that downloads the path gets the chunks joined, in as many requests as
    -- 32768 bytes each need. This holds if the file is not empty and can be read, the file system
    -- writes what it is told, Redis keeps the progress, and decoding undoes encoding.
    pub fetch-requests :
        (s : D.State) (r : R.State) (uid : ℕ) (p : D.FilePath) (n : R.Name) (c : List ℕ)
        (cs : List (List ℕ)) (m : ℕ)
        → all_well (run_tasks D S s (requests encode uid p 1 (c ∷ cs))).1 ≡ true
        → D.can_read (run_tasks D S s (requests encode uid p 1 (c ∷ cs))).0 p ≡ true
        → 0 < length (joined (c ∷ cs))
        → length (joined (c ∷ cs)) ≤ m * max_file_len
        → fetch D R encode S.base64_decode m
            (run_tasks D S s (requests encode uid p 1 (c ∷ cs))).0
            p
            n
            1
            r
          ≡ some (joined (c ∷ cs))
    unfolding requests
    fetch-requests s r uid p n c cs m well good some_bytes le =
        fetch-whole D R K encode S.base64_decode decode-encode
          (run_tasks D S s (requests encode uid p 1 (c ∷ cs))).0 p n (joined (c ∷ cs))
          (content-uploads D L S s _ (requests encode uid p 2 cs) refl refl
              (requests-AreLater encode uid p 0 cs) well
            ∙ ap some (decoded-requests uid p 1 (c ∷ cs)))
          good m r some_bytes le
