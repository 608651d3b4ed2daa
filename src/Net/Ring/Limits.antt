-- ===== src/Net/Ring/Limits.antt =====
-- kernel/net/net_buf.c at the end of the buffer, when the buffer is full, and for a reader that offers
-- more than a packet.
use brackos.Base.{
  ℕ, ◌+◌, ◌-◌, ◌%◌, ◌^◌, ◌≤◌, ◌<◌, ◌≡◌, refl, true, false, List, [], ◌∷◌, ◌++◌, ltb, leb, ◌==◌,
  length, take, drop, arith,
}
use native.Mathlib.Nat.{mod-eq_of_lt, mod_self}
use brackos.Base.Outcome.{ok, fault}
use brackos.Base.Word.{add32}
use brackos.Net.Ring.{
  Ring, put, get, copy_in, copy_out, word_bytes, ring_init, ring_writable_size, write_packet,
  ring_write, ring_next_size, read_packet, ring_read,
}
use brackos.Net.Ring.Packet.{Holds}

-- `ring_write` of a packet that passes every guard of it, but that reaches past the end of the buffer from
-- the write index on, is a write outside the buffer: a write index that is not below the read index
-- never leads to the two-part copy.
pub ring_write-overrun :
    (p : List ℕ) (r : Ring)
    → 0 < length p
    → length p % 4 ≡ 0
    → r.read_index ≤ r.write_index
    → r.write_index + 4 < r.len
    → r.len < 2 ^ 31
    → length p + 4 ≤ r.len
    → length p + 4 ≤ ring_writable_size r
    → r.len < r.write_index + 4 + length p
    → ring_write p (length p) r ≡ fault
unfolding ring_write write_packet copy_in
ring_write-overrun p r some whole ordered inside small fits room past =
    let t0 : (length p == 0) ≡ false = ground arith in
    let t1 : (length p % 4 == 0) ≡ true = ground arith in
    let size : add32 (length p) 4 ≡ length p + 4 = ground arith in
    let t2 : ltb r.len (length p + 4) ≡ false = ground arith in
    let t3 : ltb (ring_writable_size r) (length p + 4) ≡ false = ground arith in
    let no_wrap : add32 r.write_index 4 ≡ r.write_index + 4 = ground arith in
    let index : (r.write_index + 4) % r.len ≡ r.write_index + 4 = mod-eq_of_lt inside in
    let head : leb (r.write_index + 4) r.len ≡ true = ground arith in
    let ahead : ltb (r.write_index + 4) r.read_index ≡ false = ground arith in
    let out : leb (r.write_index + 4 + length p) r.len ≡ false = ground arith in
    simp (t0, t1, size, t2, t3, no_wrap, index, head, ahead, out)

-- `ring_write` of a packet that fills a new ring returns 1, and `ring_read` then finds no packet: the two
-- indices are equal, as they are when the ring is empty.
pub ring_write-full :
    (p buff : List ℕ) (len : ℕ)
    → 0 < length p
    → length p % 4 ≡ 0
    → length p + 4 < 2 ^ 31
    → (t : Ring) × (ring_write p (length p) (ring_init (4 + length p)) ≡ ok (1, t))
      × (ring_read buff len t ≡ ok (0, buff, t))
unfolding ring_write ring_writable_size write_packet copy_in ring_init ring_read ring_next_size
ring_write-full p buff len some whole small =
    let t0 : (length p == 0) ≡ false = ground arith in
    let t1 : (length p % 4 == 0) ≡ true = ground arith in
    let t2 : ltb (4 + length p) (add32 (length p) 4) ≡ false = ground arith in
    let index : 4 % (4 + length p) ≡ 4 = mod-eq_of_lt (omega arith) in
    let head : leb 4 (4 + length p) ≡ true = ground arith in
    let whole' : leb (length p) (length p) ≡ true = ground arith in
    let same : leb (4 + length p) (4 + length p) ≡ true = ground arith in
    let no_wrap : add32 4 (length p) ≡ 4 + length p = ground arith in
    let wraps : add32 4 (length p) % (4 + length p) ≡ 0 = rw no_wrap (mod_self (4 + length p)) in
    (
      record (ring_init (4 + length p)) {
        bytes = put (put (λ q. 0) 0 (word_bytes (length p))) 4 (take (length p) p);
      },
      simp (t0, t1, t2, index, head, whole', same, wraps),
      refl,
    )

-- `ring_read` of the only packet with a larger `len` moves the read index past the write index, so the
-- ring is not empty after its last packet was read.
pub ring_read-passes :
    (p buff : List ℕ) (cap : ℕ) (r : Ring)
    → Holds r (p ∷ [])
    → length p < cap
    → cap ≤ length buff
    → r.read_index + 4 + cap < r.len
    → (out : List ℕ) × (t : Ring) × (ring_read buff cap r ≡ ok (length p, out, t))
      × (t.read_index ≡ t.write_index + (cap - length p))
unfolding ring_read ring_next_size read_packet copy_out
ring_read-passes p buff cap r h more room inside =
    let some = h.stored.0 in
    let end = h.stored.3 in
    let small = h.small in
    let no_wrap : add32 r.read_index 4 ≡ r.read_index + 4 = ground arith in
    let index : add32 r.read_index 4 % r.len ≡ r.read_index + 4 =
      rw no_wrap (mod-eq_of_lt (omega arith)) in
    let no_wrap' : add32 (r.read_index + 4) (length p) ≡ r.read_index + 4 + length p =
      ground arith in
    let no_wrap'' : add32 (r.read_index + 4) cap ≡ r.read_index + 4 + cap = ground arith in
    let index' : (r.read_index + 4 + cap) % r.len ≡ r.read_index + 4 + cap = mod-eq_of_lt inside in
    let there : (r.read_index == r.write_index) ≡ false = ground arith in
    let fits : leb (r.read_index + 4) r.len ≡ true = ground arith in
    let full : (length p == 0) ≡ false = ground arith in
    let enough : ltb cap (length p) ≡ false = ground arith in
    let straight : ltb r.len (r.read_index + 4 + length p) ≡ false = ground arith in
    let fits' : leb (r.read_index + 4 + cap) r.len ≡ true = ground arith in
    let room' : leb cap (length buff) ≡ true = ground arith in
    (
      get r.bytes (r.read_index + 4) cap ++ drop cap buff,
      record r { read_index = r.read_index + 4 + cap },
      simp (
        there, fits, h.stored.1, full, enough, index, no_wrap', straight, fits', room', no_wrap'',
        index',
      ),
      omega arith,
    )
