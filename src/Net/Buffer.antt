-- ===== src/Net/Buffer.antt =====
-- framework/MyMuduo/src/include/Buffer.h and framework/MyMuduo/src/Buffer.cc: the byte buffer
-- between a socket and its user. The operations are here; the child modules hold the proofs.
-- `size_t` arithmetic wraps (`add_size`, `sub_size`); the heap array is a list of bytes.
pub mod Refine
pub mod Queue
pub mod Space
use distributed_instant_mess.Base.{
  ℕ, ◌+◌, ◌≡◌, List, [], Bool, true, false, ltb, leb, if◌then◌else◌, length, take, drop, replicate,
  add_size, sub_size, min,
}
use distributed_instant_mess.Base.Slice.{slice, overwrite, resize}

pub record Buffer : Type 0 where
  pub buffer : List ℕ
  pub reader_index : ℕ
  pub writer_index : ℕ

abbrev pub cheap_prepend : ℕ
cheap_prepend = 8

abbrev pub initial_size : ℕ
initial_size = 1024

-- The stack array that `readFd` puts behind the buffer.
abbrev pub extrabuf_size : ℕ
extrabuf_size = 65536

-- What a `read` or `write` comes to: a count, or an `errno`.
pub data IoResult : Type 0 where
  done : ℕ → IoResult
  failed : ℕ → IoResult

-- What the kernel has for a `readv`: the bytes it stores, or an `errno`.
pub data Incoming : Type 0 where
  bytes : List ℕ → Incoming
  error : ℕ → Incoming

unfoldable pub init : ℕ → Buffer
init size = record {
  buffer = replicate (cheap_prepend + size) 0;
  reader_index = cheap_prepend;
  writer_index = cheap_prepend;
}

unfoldable pub readable_bytes : Buffer → ℕ
readable_bytes b = sub_size b.writer_index b.reader_index

unfoldable pub writable_bytes : Buffer → ℕ
writable_bytes b = sub_size (length b.buffer) b.writer_index

unfoldable pub prependable_bytes : Buffer → ℕ
prependable_bytes b = b.reader_index

unfoldable pub retrieve_all : Buffer → Buffer
retrieve_all b = record b { reader_index = cheap_prepend; writer_index = cheap_prepend }

unfoldable pub retrieve : Buffer → ℕ → Buffer
unfolding readable_bytes retrieve_all
retrieve b len =
    if ltb len (readable_bytes b)
    then record b { reader_index = add_size b.reader_index len }
    else retrieve_all b

-- `std::string(peek(), len)`. A read past the vector is not defined in C++; it gives nothing here.
pub retrieve_as_string : Buffer → ℕ → List ℕ × Buffer
retrieve_as_string b len = (slice b.buffer b.reader_index len, retrieve b len)

pub retrieve_all_as_string : Buffer → List ℕ × Buffer
unfolding retrieve_as_string readable_bytes
retrieve_all_as_string b = retrieve_as_string b (readable_bytes b)

-- The two ways to make room: grow the vector, or move the readable bytes to the front.
unfoldable pub make_space : Buffer → ℕ → Buffer
unfolding writable_bytes prependable_bytes readable_bytes
make_space b len =
    if ltb (add_size (writable_bytes b) (prependable_bytes b)) (add_size len cheap_prepend)
    then record b { buffer = resize b.buffer (add_size b.writer_index len) }
    else record {
      buffer = overwrite b.buffer cheap_prepend (slice b.buffer b.reader_index (readable_bytes b));
      reader_index = cheap_prepend;
      writer_index = add_size cheap_prepend (readable_bytes b);
    }

pub ensure_writeable_bytes : Buffer → ℕ → Buffer
unfolding writable_bytes
ensure_writeable_bytes b len = if ltb (writable_bytes b) len then make_space b len else b

-- The copy into the writable bytes, and the move of the index.
pub fill : Buffer → List ℕ → Buffer
fill b xs = record b {
  buffer = overwrite b.buffer b.writer_index xs;
  writer_index = add_size b.writer_index (length xs);
}

pub append : Buffer → List ℕ → Buffer
append b xs = fill (ensure_writeable_bytes b (length xs)) xs

-- The room that `readFd` offers to `readv`: the second vector only if the first is short.
unfoldable pub read_capacity : Buffer → ℕ
unfolding writable_bytes
read_capacity b =
    writable_bytes b + (if ltb (writable_bytes b) extrabuf_size then extrabuf_size else 0)

-- `readv` stores the first bytes in the buffer and the rest in `extrabuf`.
read_bytes : Buffer → List ℕ → Buffer
unfolding writable_bytes
read_bytes b xs =
    if leb (length xs) (writable_bytes b)
    then fill b xs
    else append
        (record b {
          buffer = overwrite b.buffer b.writer_index (take (writable_bytes b) xs);
          writer_index = length b.buffer;
        })
        (drop (writable_bytes b) xs)

store : Buffer → Incoming → IoResult × Buffer
unfolding read_bytes
store b (bytes xs) = (done (length xs), read_bytes b xs)
store b (error errno) = (failed errno, b)

-- `read` is the kernel: given the room in the vectors, what `readv` stores.
pub read_fd : Buffer → (ℕ → Incoming) → IoResult × Buffer
unfolding store read_capacity
read_fd b read = store b (read (read_capacity b))

-- The readable bytes, from `peek()` on.
unfoldable pub readable : Buffer → List ℕ
unfolding readable_bytes
readable b = slice b.buffer b.reader_index (readable_bytes b)

-- `write(fd, peek(), readableBytes())`; the indices stay for the caller to move.
unfoldable pub write_fd : Buffer → (List ℕ → IoResult) → IoResult
unfolding readable
write_fd b write = write (readable b)
