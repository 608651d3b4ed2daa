-- ===== src/Net/Ring/Packet.antt =====
-- kernel/net/net_buf.c as a queue of packets, as long as no packet reaches the end of the buffer.
use brackos.Base.{
  ℕ, ◌+◌, ◌%◌, ◌^◌, ◌≤◌, ◌<◌, ◌≡◌, refl, ◌∙◌, true, false, List, [], ◌∷◌, ◌++◌, ltb, leb, ◌==◌,
  length, take, drop, arith,
}
use native.Mathlib.Nat.{mod-eq_of_lt}
use brackos.Base.Outcome.{ok}
use brackos.Base.Word.{add32}
use brackos.Net.Ring.{
  Ring, put, get, copy_in, copy_out, word_bytes, word_at, ring_init, ring_writable_size,
  write_packet, ring_write, ring_next_size, read_packet, ring_read,
}
use brackos.Net.Ring.Bytes.{put-before, get-put, word_at-put, get-same, word_at-same, take_all}

-- The bytes from `i` to `j` are these packets, each behind its length.
abbrev pub Stored : (m : ℕ → ℕ) → (i j : ℕ) → List (List ℕ) → Type 0
Stored m i j [] = i ≡ j
Stored m i j (p ∷ ps) =
    (0 < length p)
    × (word_at m i ≡ length p)
    × (get m (i + 4) (length p) ≡ p)
    × Stored m (i + 4 + length p) j ps

-- The packets that were written and not read yet, the oldest first.
pub record Holds (r : Ring) (packets : List (List ℕ)) : Type 0 where
  pub stored : Stored r.bytes r.read_index r.write_index packets
  pub inside : r.write_index < r.len
  pub small : r.len < 2 ^ 31

pub Stored-le : (m : ℕ → ℕ) (i j : ℕ) (ps : List (List ℕ)) → Stored m i j ps → i ≤ j
Stored-le m i j [] h = omega arith
Stored-le m i j (p ∷ ps) h = let rest = Stored-le m (i + 4 + length p) j ps h.3 in omega arith

Stored-snoc :
    (m m' : ℕ → ℕ) (i j k : ℕ) (ps : List (List ℕ)) (p : List ℕ)
    → ((q : ℕ) → q < j → m' q ≡ m q)
    → Stored m i j ps
    → 0 < length p
    → word_at m' j ≡ length p
    → get m' (j + 4) (length p) ≡ p
    → j + 4 + length p ≡ k
    → Stored m' i k (ps ++ (p ∷ []))
Stored-snoc m m' i j k [] p f h some len same e = rw h (some, len, same, e)
Stored-snoc m m' i j k (x ∷ xs) p f h some len same e =
    let le = Stored-le m (i + 4 + length x) j xs h.3 in
    (
      h.0,
      word_at-same m m' i j f (omega arith) ∙ h.1,
      get-same m m' (i + 4) (length x) j f (omega arith) ∙ h.2,
      Stored-snoc m m' (i + 4 + length x) j k xs p f h.3 some len same e,
    )

-- A new ring holds no packet.
pub ring_init-Holds : (size : ℕ) → 0 < size → size < 2 ^ 31 → Holds (ring_init size) []
unfolding ring_init
ring_init-Holds size some small = record { stored = refl; inside = some; small = small }

-- the ring with a packet behind its length
written : (p : List ℕ) → Ring → Ring
written p r = record r {
  bytes =
      put (put r.bytes r.write_index (word_bytes (length p))) (r.write_index + 4)
        (take (length p) p);
  write_index = r.write_index + 4 + length p;
}

write_packet-Holds :
    (p : List ℕ) (ps : List (List ℕ)) (r : Ring)
    → Holds r ps
    → 0 < length p
    → r.write_index + 4 + length p < r.len
    → (t : Ring) × (write_packet p (length p) r ≡ ok (1, t)) × Holds t (ps ++ (p ∷ []))
unfolding write_packet copy_in written
write_packet-Holds p ps r h some room =
    let le = Stored-le r.bytes r.read_index r.write_index ps h.stored in
    let small = h.small in
    let no_wrap : add32 r.write_index 4 ≡ r.write_index + 4 = ground arith in
    let index : add32 r.write_index 4 % r.len ≡ r.write_index + 4 =
      rw no_wrap (mod-eq_of_lt (omega arith)) in
    let no_wrap' : add32 (r.write_index + 4) (length p) ≡ r.write_index + 4 + length p =
      ground arith in
    let index' : add32 (r.write_index + 4) (length p) % r.len ≡ r.write_index + 4 + length p =
      rw no_wrap' (mod-eq_of_lt room) in
    let fits : leb (r.write_index + 4) r.len ≡ true = ground arith in
    let ahead : ltb (r.write_index + 4) r.read_index ≡ false = ground arith in
    let fits' : leb (r.write_index + 4 + length p) r.len ≡ true = ground arith in
    let whole : leb (length p) (length p) ≡ true = ground arith in
    (
      written p r,
      simp (index, index', fits, ahead, fits', whole),
      record {
        stored =
            Stored-snoc r.bytes (written p r).bytes r.read_index r.write_index _ ps p same h.stored
              some (word_at-put r.bytes r.write_index (length p) (take (length p) p) (omega arith))
              (rw (take_all p)
                (get-put (put r.bytes r.write_index (word_bytes (length p))) (r.write_index + 4) p))
              refl;
        inside = room;
        small = h.small;
      },
    )
  where
    same : (q : ℕ) → q < r.write_index → (written p r).bytes q ≡ r.bytes q
    same q a =
        put-before (put r.bytes r.write_index (word_bytes (length p))) (r.write_index + 4)
          (take (length p) p) q (omega arith)
        ∙ put-before r.bytes r.write_index (word_bytes (length p)) q a

-- `ring_write` of a packet that a caller may write, in front of the end of the buffer, returns 1, and the
-- packet is then the newest of those that the ring holds.
pub ring_write-Holds :
    (p : List ℕ) (ps : List (List ℕ)) (r : Ring)
    → Holds r ps
    → 0 < length p
    → length p % 4 ≡ 0
    → r.write_index + 4 + length p < r.len
    → (t : Ring) × (ring_write p (length p) r ≡ ok (1, t)) × Holds t (ps ++ (p ∷ []))
unfolding ring_write ring_writable_size
ring_write-Holds p ps r h some whole room =
    let le = Stored-le r.bytes r.read_index r.write_index ps h.stored in
    let small = h.small in
    let t0 : (length p == 0) ≡ false = ground arith in
    let t1 : (length p % 4 == 0) ≡ true = ground arith in
    let t2 : ltb r.len (add32 (length p) 4) ≡ false = ground arith in
    let t3 : ltb (ring_writable_size r) (add32 (length p) 4) ≡ false = ground arith in
    rw (t0, t1, t2, t3) (write_packet-Holds p ps r h some room)

-- `ring_read` into a buffer, with the length of the oldest packet, returns that length, puts the packet at
-- the start of the buffer, and the ring then holds the packets behind it.
pub ring_read-Holds :
    (p buff : List ℕ) (ps : List (List ℕ)) (r : Ring)
    → Holds r (p ∷ ps)
    → length p ≤ length buff
    → (t : Ring) × (ring_read buff (length p) r ≡ ok (length p, p ++ drop (length p) buff, t))
      × Holds t ps
unfolding ring_read ring_next_size read_packet copy_out
ring_read-Holds p buff ps r h room =
    let some = h.stored.0 in
    let le = Stored-le r.bytes (r.read_index + 4 + length p) r.write_index ps h.stored.3 in
    let small = h.small in
    let inside = h.inside in
    let no_wrap : add32 r.read_index 4 ≡ r.read_index + 4 = ground arith in
    let index : add32 r.read_index 4 % r.len ≡ r.read_index + 4 =
      rw no_wrap (mod-eq_of_lt (omega arith)) in
    let no_wrap' : add32 (r.read_index + 4) (length p) ≡ r.read_index + 4 + length p =
      ground arith in
    let index' : (r.read_index + 4 + length p) % r.len ≡ r.read_index + 4 + length p =
      mod-eq_of_lt (omega arith) in
    let more : (r.read_index == r.write_index) ≡ false = ground arith in
    let fits : leb (r.read_index + 4) r.len ≡ true = ground arith in
    let full : (length p == 0) ≡ false = ground arith in
    let enough : ltb (length p) (length p) ≡ false = ground arith in
    let straight : ltb r.len (r.read_index + 4 + length p) ≡ false = ground arith in
    let fits' : leb (r.read_index + 4 + length p) r.len ≡ true = ground arith in
    let room' : leb (length p) (length buff) ≡ true = ground arith in
    (
      record r { read_index = r.read_index + 4 + length p },
      simp (
        more, fits, h.stored.1, full, enough, index, no_wrap', straight, fits', room', h.stored.2,
        index',
      ),
      record { stored = h.stored.3; inside = h.inside; small = h.small },
    )
