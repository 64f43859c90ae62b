-- ===== src/Clib/Writer.antt =====
-- A buffer that a function fills from its start: `strncpy(p, …, n); p += n;` and
-- `*(uint64_t *)p = v; p += sizeof(v);`.
use le_forum.Common.{
  List, [], ◌∷◌, append-nil, append_assoc, length-append, ℕ, ◌+◌, ◌-◌, ◌≤◌, ◌≡◌, [], ◌++◌, arith,
  length, leb, if◌then◌else◌, replicate, Outcome, ok, fault,
}
use le_forum.Clib.Strings.{Bytes}
use mathlib.Core.List.{flatten}
use le_forum.Common.Result.{◌>>=◌}

-- What is written so far, and the size of the allocation.
pub record Buffer : Type 0 where
  pub written : Bytes
  pub capacity : ℕ

abbrev pub buffer : Bytes → ℕ → Buffer
buffer w n = record { written = w; capacity = n }

-- A fresh allocation of `n` bytes.
abbrev pub malloc : ℕ → Buffer
malloc n = buffer [] n

-- Bytes are written behind those that are there; a write past the allocation is a fault.
unfoldable pub write : Bytes → Buffer → Outcome Buffer
write bs b =
    if leb (length b.written + length bs) b.capacity
    then ok (buffer (b.written ++ bs) b.capacity)
    else fault

-- A row of such writes.
unfoldable pub write_all : List Bytes → Buffer → Outcome Buffer
unfolding write
write_all [] b = ok b
write_all (bs ∷ rest) b = do b ← write bs b; write_all rest b

-- The bytes of the first `n` of a zeroed allocation.
unfoldable pub contents : Buffer → Bytes
contents b = b.written ++ replicate (b.capacity - length b.written) 0

pub write-ok :
    (bs w : Bytes) (n : ℕ)
    → length w + length bs ≤ n
    → write bs (buffer w n) ≡ ok (buffer (w ++ bs) n)
unfolding write
write-ok bs w n h = ground arith

-- A row of writes that fits leaves the bytes one behind the other.
pub write_all-ok :
    (parts : List Bytes) (w : Bytes) (n : ℕ)
    → length w + length (flatten parts) ≤ n
    → write_all parts (buffer w n) ≡ ok (buffer (w ++ flatten parts) n)
unfolding write_all flatten
write_all-ok [] w n h = rw append-nil
write_all-ok (bs ∷ rest) w n h =
    let l = length-append bs (flatten rest) in
    let l' = length-append w bs in
    rw (write-ok bs w n (omega arith), write_all-ok rest (w ++ bs) n (omega arith), append_assoc)
