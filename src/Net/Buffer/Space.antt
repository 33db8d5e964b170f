-- ===== src/Net/Buffer/Space.antt =====
-- How `makeSpace` finds room: when it moves bytes, and when it grows the vector.
use distributed_instant_mess.Base.{ℕ, ◌+◌, ◌≤◌, ◌<◌, ◌≡◌, List, arith, length}
use distributed_instant_mess.Base.Slice.{length-overwrite, length-resize, slice}
use distributed_instant_mess.Net.Buffer.{
  Buffer, cheap_prepend, readable_bytes, writable_bytes, prependable_bytes, make_space,
  ensure_writeable_bytes, append,
}
use distributed_instant_mess.Net.Buffer.Refine.{max_size, IsValid, writable_bytes-eq, length-fill}

-- Where `makeSpace` leaves the size of the vector, and so moves bytes instead, it moves them
-- towards the front, which is what `std::copy` needs of ranges that overlap.
pub make_space_moves_down :
    {b : Buffer} (n : ℕ)
    → IsValid b
    → writable_bytes b < n
    → length b.buffer + n < max_size
    → length (make_space b n).buffer ≡ length b.buffer
    → cheap_prepend < b.reader_index
unfolding make_space
make_space_moves_down {b} n v h k e = ground (arith, length-resize b.buffer (b.writer_index + n))

-- As long as the free bytes on both sides suffice, `append` does not grow the vector.
pub append_reuses :
    {b : Buffer} (xs : List ℕ)
    → IsValid b
    → length xs + cheap_prepend ≤ writable_bytes b + prependable_bytes b
    → length (append b xs).buffer ≡ length b.buffer
unfolding append ensure_writeable_bytes make_space prependable_bytes
append_reuses {b} xs v h = ground (
  arith,
  writable_bytes-eq v,
  length-fill (ensure_writeable_bytes b (length xs)) xs,
  length-overwrite b.buffer cheap_prepend (slice b.buffer b.reader_index (readable_bytes b)),
)
