-- ===== src/Net/Ring/Tests.antt =====
-- Runs of kernel/net/net_buf.c, and the theorems at those rings.
use brackos.Base.{ℕ, ◌+◌, ◌≡◌, refl, List, [], ◌∷◌, ◌++◌, arith}
use brackos.Base.Outcome.{ok, fault}
use brackos.Net.Ring.{
  Ring, put, get, word_bytes, word_at, ring_init, ring_writable_size, ring_write, ring_read,
}
use brackos.Net.Ring.Packet.{Holds, ring_init-Holds, ring_write-Holds, ring_read-Holds}
use brackos.Net.Ring.Limits.{ring_write-overrun, ring_write-full, ring_read-passes}

abbrev packet : List ℕ
packet = 11 ∷ (12 ∷ (13 ∷ (14 ∷ [])))

abbrev blank : List ℕ
blank = 0 ∷ (0 ∷ (0 ∷ (0 ∷ (0 ∷ (0 ∷ [])))))

-- a ring of 32 bytes that holds the packet
abbrev one : Ring
one = record {
  bytes = put (put (λ q. 0) 0 (word_bytes 4)) 4 packet;
  len = 32;
  read_index = 0;
  write_index = 8;
}

one-Holds : Holds one (packet ∷ [])
unfolding word_bytes word_at put get
one-Holds = record {
  stored = (ground arith, refl, refl, refl);
  inside = ground arith;
  small = ground arith;
}

new_ring-Holds : Holds (ring_init 32) []
new_ring-Holds = ring_init-Holds 32 (ground arith) (ground arith)

ring_write-Holds_example :
    (t : Ring) × (ring_write packet 4 one ≡ ok (1, t)) × Holds t (packet ∷ (packet ∷ []))
ring_write-Holds_example =
    ring_write-Holds packet (packet ∷ []) one one-Holds (ground arith) refl (ground arith)

ring_read-Holds_example :
    (t : Ring) × (ring_read blank 4 one ≡ ok (4, packet ++ (0 ∷ (0 ∷ [])), t)) × Holds t []
ring_read-Holds_example = ring_read-Holds packet blank [] one one-Holds (ground arith)

-- an empty ring, 8 bytes from the end
abbrev late : Ring
late = record { bytes = λ q. 0; len = 32; read_index = 24; write_index = 24 }

ring_write-overrun_instance : ring_write (packet ++ packet) 8 late ≡ fault
unfolding ring_writable_size
ring_write-overrun_instance =
    ring_write-overrun (packet ++ packet) late (ground arith) refl (ground arith) (ground arith)
      (ground arith) (ground arith) (ground arith) (ground arith)

ring_write-full_instance :
    (t : Ring) × (ring_write packet 4 (ring_init 8) ≡ ok (1, t))
    × (ring_read blank 6 t ≡ ok (0, blank, t))
ring_write-full_instance = ring_write-full packet blank 6 (ground arith) refl (ground arith)

ring_read-passes_instance :
    (out : List ℕ) × (t : Ring) × (ring_read blank 6 one ≡ ok (4, out, t))
    × (t.read_index ≡ t.write_index + 2)
ring_read-passes_instance =
    ring_read-passes packet blank 6 one one-Holds (ground arith) (ground arith) (ground arith)
