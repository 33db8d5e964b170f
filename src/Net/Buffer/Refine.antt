-- ===== src/Net/Buffer/Refine.antt =====
-- The readable bytes of a buffer, and what each operation does to them.
use distributed_instant_mess.Base.{
  ℕ, ◌+◌, ◌-◌, ◌^◌, ◌≤◌, ◌<◌, ◌≡◌, refl, inl, inr, List, ◌++◌, append_assoc, arith, ltb, leb,
  ltb→lt, length, take, drop, add_size, take-append-drop, length-take, length-drop,
  length-replicate, take-take, drop-all, drop-drop, drop-take, ap, sym, ◌∙◌, Bool-cases,
}
use distributed_instant_mess.Base.Slice.{
  slice, overwrite, length-overwrite, length-resize, length-slice, slice-overwrite, slice-resize,
}
use distributed_instant_mess.Net.Buffer.{
  Buffer, cheap_prepend, done, Incoming, bytes, init, readable_bytes, readable, writable_bytes,
  retrieve_all, retrieve, retrieve_as_string, make_space, ensure_writeable_bytes, fill, append,
  read_capacity, read_bytes, store, read_fd,
}

-- A vector has fewer than 2 ^ 63 bytes.
abbrev pub max_size : ℕ
max_size = 2 ^ 63

pub record IsValid (b : Buffer) : Type 0 where
  pub prepend_le : cheap_prepend ≤ b.reader_index
  pub reader_le : b.reader_index ≤ b.writer_index
  pub writer_le : b.writer_index ≤ length b.buffer
  pub size_lt : length b.buffer < max_size

-- The bytes that a user of the buffer sees.
abbrev pub contents : Buffer → List ℕ
contents b = slice b.buffer b.reader_index (b.writer_index - b.reader_index)

pub init-IsValid : (n : ℕ) → n + cheap_prepend < max_size → IsValid (init n)
unfolding init
init-IsValid n h = omega (arith, length-replicate {A = ℕ} (cheap_prepend + n) 0)

pub length-retrieve : (b : Buffer) (n : ℕ) → length (retrieve b n).buffer ≡ length b.buffer
unfolding retrieve retrieve_all
length-retrieve b n = ground arith

pub length-fill : (b : Buffer) (xs : List ℕ) → length (fill b xs).buffer ≡ length b.buffer
unfolding fill
length-fill b xs = length-overwrite b.buffer b.writer_index xs

module _ {b : Buffer} (v : IsValid b) where
  pub readable_bytes-eq : readable_bytes b ≡ b.writer_index - b.reader_index
  unfolding readable_bytes
  readable_bytes-eq = omega arith

  pub readable-eq : readable b ≡ contents b
  unfolding readable
  readable-eq = rw readable_bytes-eq

  pub writable_bytes-eq : writable_bytes b ≡ length b.buffer - b.writer_index
  unfolding writable_bytes
  writable_bytes-eq = omega arith

  pub length-contents : length (contents b) ≡ readable_bytes b
  length-contents = omega (
    arith,
    readable_bytes-eq,
    length-slice b.buffer b.reader_index (b.writer_index - b.reader_index),
  )

  pub retrieve-IsValid : (n : ℕ) → IsValid (retrieve b n)
  unfolding retrieve readable_bytes retrieve_all
  retrieve-IsValid n = ground (arith)

  pub contents-retrieve : (n : ℕ) → contents (retrieve b n) ≡ drop n (contents b)
  unfolding retrieve readable_bytes retrieve_all
  contents-retrieve n = ground (
    arith,
    drop-take n (b.writer_index - b.reader_index) (drop b.reader_index b.buffer),
    drop-drop n b.reader_index b.buffer,
    drop-all n (contents b),
    length-contents,
  )

  pub fill-lem :
      (xs : List ℕ)
      → b.writer_index + length xs ≤ length b.buffer
      → IsValid (fill b xs) × (contents (fill b xs) ≡ contents b ++ xs)
  unfolding fill
  fill-lem xs h = rw fits (
      ground (
        arith,
        length-overwrite b.buffer b.writer_index xs,
        slice-overwrite b.buffer b.reader_index (b.writer_index - b.reader_index) xs,
      ))
    where
      fits : add_size b.writer_index (length xs) ≡ b.writer_index + length xs
      fits = omega arith

  make_space-lem :
      (n : ℕ)
      → writable_bytes b < n
      → length b.buffer + n < max_size
      → IsValid (make_space b n)
        × (contents (make_space b n) ≡ contents b)
        × ((make_space b n).writer_index + n ≤ length (make_space b n).buffer)
        × (length (make_space b n).buffer ≤ length b.buffer + n)
  unfolding make_space
  make_space-lem n h k = ground (
    arith,
    length-resize b.buffer (b.writer_index + n),
    slice-resize b.buffer (b.writer_index + n) b.reader_index (b.writer_index - b.reader_index),
    length-overwrite b.buffer cheap_prepend (contents b),
    length-contents,
    slice-overwrite b.buffer cheap_prepend 0 (contents b),
  )

  -- After it `n` bytes fit, and the readable bytes are the same.
  ensure_writeable_bytes-lem :
      (n : ℕ)
      → length b.buffer + n < max_size
      → IsValid (ensure_writeable_bytes b n)
        × (contents (ensure_writeable_bytes b n) ≡ contents b)
        × ((ensure_writeable_bytes b n).writer_index + n
            ≤ length (ensure_writeable_bytes b n).buffer)
        × (length (ensure_writeable_bytes b n).buffer ≤ length b.buffer + n)
  unfolding ensure_writeable_bytes
  ensure_writeable_bytes-lem n k = elim (Bool-cases (ltb (writable_bytes b) n)) [
    | inl short ↦ rw (short) (make_space-lem n (ltb→lt _ _ short) k)
    | inr fits ↦ rw (fits) (v, refl, ground (arith, writable_bytes-eq), omega arith)
  ]

module _ {b : Buffer} (v : IsValid b) where
  -- `append` never drops a byte: it adds them behind the readable ones, and grows the vector by at
  -- most their number.
  pub append-lem :
      (xs : List ℕ)
      → length b.buffer + length xs < max_size
      → IsValid (append b xs)
        × (contents (append b xs) ≡ contents b ++ xs)
        × (length (append b xs).buffer ≤ length b.buffer + length xs)
  unfolding append
  append-lem xs k =
      let (w, same, fits, grows) = ensure_writeable_bytes-lem v (length xs) k in
      let (w', more) = fill-lem w xs fits in
      (
        w',
        more ∙ ap (λ ys. ys ++ xs) same,
        ground (arith, length-fill (ensure_writeable_bytes b (length xs)) xs),
      )

  pub retrieve_as_string-lem :
      (n : ℕ)
      → n ≤ readable_bytes b
      → ((retrieve_as_string b n).0 ≡ take n (contents b))
        × IsValid (retrieve_as_string b n).1
        × (contents (retrieve_as_string b n).1 ≡ drop n (contents b))
        × (length (retrieve_as_string b n).1.buffer ≡ length b.buffer)
  unfolding retrieve_as_string
  retrieve_as_string-lem n h = (
    sym (
        take-take n (b.writer_index - b.reader_index) (drop b.reader_index b.buffer)
          (omega (arith, readable_bytes-eq v))),
    retrieve-IsValid v n,
    contents-retrieve v n,
    length-retrieve b n,
  )

  -- The vector filled to its end, with what `readv` stored first.
  abbrev filled : List ℕ → Buffer
  filled xs = record b {
    buffer = overwrite b.buffer b.writer_index (take (writable_bytes b) xs);
    writer_index = length b.buffer;
  }

  filled-lem :
      (xs : List ℕ) → writable_bytes b < length xs → filled xs ≡ fill b (take (writable_bytes b) xs)
  unfolding fill
  filled-lem xs h = ground (arith, length-take (writable_bytes b) xs, writable_bytes-eq v)

module _ {b : Buffer} (v : IsValid b) where
  read_long :
      (xs : List ℕ)
      → writable_bytes b < length xs
      → length b.buffer + length xs < max_size
      → let c = append (filled v xs) (drop (writable_bytes b) xs) in
        IsValid c
        × (contents c ≡ contents b ++ xs)
        × (length c.buffer ≤ length b.buffer + length xs)
  read_long xs h k =
      let n = writable_bytes b in
      let (w, half) =
        fill-lem v (take n xs) (omega (arith, length-take n xs, writable_bytes-eq v)) in
      let (w', all, grows) =
        append-lem {b = fill b (take n xs)} w (drop n xs)
          (omega (arith, length-fill b (take n xs), length-drop n xs)) in
      rw (filled-lem v xs h) (
        w',
        all
            ∙ ap (λ ys. ys ++ drop n xs) half
            ∙ append_assoc (contents b) (take n xs) (drop n xs)
            ∙ ap (λ ys. contents b ++ ys) (take-append-drop n xs),
        omega (arith, grows, length-fill b (take n xs), length-drop n xs),
      )

  -- `readFd` takes in every byte that the kernel had, also those that did not fit in the vector.
  -- `readFd` takes in every byte that the kernel had, also those that did not fit in the vector.
  pub read_fd-lem :
      (read : ℕ → Incoming) (xs : List ℕ)
      → read (read_capacity b) ≡ bytes xs
      → length b.buffer + length xs < max_size
      → ((read_fd b read).0 ≡ done (length xs))
        × IsValid (read_fd b read).1
        × (contents (read_fd b read).1 ≡ contents b ++ xs)
        × (length (read_fd b read).1.buffer ≤ length b.buffer + length xs)
  unfolding read_fd read_bytes
  read_fd-lem read xs e k = elim (Bool-cases (leb (length xs) (writable_bytes b))) [
    | inl short ↦
        rw (e, store, short)
          (let (w, more) = fill-lem v xs (ground (arith, writable_bytes-eq v)) in
            (refl, w, more, omega (arith, length-fill b xs)))
    | inr long ↦
        rw (e, store, long)
          (let (w, more, grows) = read_long xs (ground arith) k in (refl, w, more, grows))
  ]
