-- ===== src/Net/Ring.antt =====
-- kernel/net/net_buf.c: a ring buffer of packets, each behind its length. The buffer's bytes stand in
-- `bytes` at their distance from `ring->base`; a copy that leaves the buffer, the packet or the
-- caller's buffer is a fault. An `uintptr_t` has four bytes.
pub mod Bytes
pub mod Packet
pub mod Limits
mod Tests
use brackos.Base.{
  ℕ, zero, suc, ◌+◌, ◌-◌, ◌*◌, ◌/◌, ◌%◌, ◌^◌, Bool, true, false, not, ◌&&◌, List, [], ◌∷◌, ltb, leb,
  ◌==◌, if◌then◌else◌, length, take, drop, ◌++◌,
}
use brackos.Base.Outcome.{Outcome, ok, fault, ◌>>=◌}
use brackos.Base.Word.{add32, sub32}

-- `ring_t`; `len` bytes of `bytes` are the buffer.
pub record Ring : Type 0 where
  pub bytes : ℕ → ℕ
  pub len : ℕ
  pub read_index : ℕ
  pub write_index : ℕ

-- `memcpy` into the bytes from `at` on
pub put : (ℕ → ℕ) → (at : ℕ) → List ℕ → (ℕ → ℕ)
put bytes at [] = bytes
put bytes at (b ∷ bs) = put (λ q. if q == at then b else bytes q) (at + 1) bs

-- the `count` bytes from `at` on
pub get : (ℕ → ℕ) → (at count : ℕ) → List ℕ
get bytes at zero = []
get bytes at (suc count) = bytes at ∷ get bytes (at + 1) count

-- `memcpy` of `count` bytes from the start of a buffer into the ring
unfoldable pub copy_in : (at : ℕ) → (from : List ℕ) → (count : ℕ) → Ring → Outcome Ring
copy_in at from count r =
    if leb (at + count) r.len && leb count (length from)
    then ok (record r { bytes = put r.bytes at (take count from) })
    else fault

-- `memcpy` of `count` bytes from the ring to the start of a buffer
unfoldable pub copy_out : (at : ℕ) → (to : List ℕ) → (count : ℕ) → Ring → Outcome (List ℕ)
copy_out at to count r =
    if leb (at + count) r.len && leb count (length to)
    then ok (get r.bytes at count ++ drop count to)
    else fault

abbrev pub word_size : ℕ
word_size = 4

-- the bytes of a word, the least first
unfoldable pub word_bytes : ℕ → List ℕ
word_bytes n = n % 256 ∷ (n / 256 % 256 ∷ (n / 65536 % 256 ∷ (n / 16777216 % 256 ∷ [])))

unfoldable pub word_at : (ℕ → ℕ) → (at : ℕ) → ℕ
word_at bytes at =
    bytes at + 256 * bytes (at + 1) + 65536 * bytes (at + 1 + 1) + 16777216 * bytes (at + 1 + 1 + 1)

-- `ring_init`, when `kmalloc` gives the memory
unfoldable pub ring_init : (size : ℕ) → Ring
ring_init size = record { bytes = λ q. 0; len = size; read_index = 0; write_index = 0 }

unfoldable pub ring_writable_size : Ring → ℕ
ring_writable_size r =
    if ltb r.read_index r.write_index
    then add32 (sub32 r.len r.write_index) (sub32 r.read_index 1)
    else if ltb r.write_index r.read_index
    then sub32 (sub32 r.read_index r.write_index) 1
    else r.len

-- `ring_write` from the write of the length on
unfoldable pub write_packet : (packet : List ℕ) → (len : ℕ) → Ring → Outcome (ℕ × Ring)
unfolding copy_in word_bytes
write_packet packet len r =
    let behind = r.write_index + word_size in
    let index = add32 r.write_index word_size % r.len in
    let end_len = sub32 r.len index in
    let start_len = sub32 len end_len in
    copy_in r.write_index (word_bytes len) word_size r >>= λ t.
    if ltb index r.read_index
    then (copy_in behind packet end_len t >>= λ u.
        copy_in 0 (drop end_len packet) start_len u >>= λ v.
        ok (1, record v { write_index = start_len }))
    else (copy_in behind packet len t >>= λ u.
        ok (1, record u { write_index = add32 index len % r.len }))

-- `ring_write`
unfoldable pub ring_write : (packet : List ℕ) → (len : ℕ) → Ring → Outcome (ℕ × Ring)
unfolding ring_writable_size write_packet
ring_write packet len r =
    let write_size = add32 len word_size in
    if len == 0
    then ok (0, r)
    else if not (len % word_size == 0)
    then ok (0, r)
    else if ltb r.len write_size
    then ok (0, r)
    else if ltb (ring_writable_size r) write_size
    then ok (0, r)
    else write_packet packet len r

unfoldable pub ring_next_size : Ring → Outcome ℕ
unfolding word_at
ring_next_size r =
    if r.read_index == r.write_index
    then ok 0
    else if leb (r.read_index + word_size) r.len
    then ok (word_at r.bytes r.read_index)
    else fault

-- `ring_read` from the move past the length on
unfoldable pub read_packet :
    (next_size : ℕ) → (buff : List ℕ) → (len : ℕ) → Ring → Outcome (ℕ × List ℕ × Ring)
unfolding copy_out
read_packet next_size buff len r =
    let index = add32 r.read_index word_size % r.len in
    let end_len = sub32 r.len next_size in
    let start_len = sub32 len end_len in
    if ltb r.len (add32 index next_size)
    then (copy_out index buff end_len r >>= λ buff1. copy_out 0 buff1 start_len r >>= λ buff2.
        ok (next_size, buff2, record r { read_index = start_len }))
    else (copy_out index buff len r >>= λ buff1.
        ok (next_size, buff1, record r { read_index = add32 index len % r.len }))

-- `ring_read`: what it returns, the caller's buffer and the ring
unfoldable pub ring_read : (buff : List ℕ) → (len : ℕ) → Ring → Outcome (ℕ × List ℕ × Ring)
unfolding ring_next_size read_packet
ring_read buff len r = ring_next_size r >>= λ next_size.
    if next_size == 0
    then ok (0, buff, r)
    else if ltb len next_size
    then ok (0, buff, r)
    else read_packet next_size buff len r
