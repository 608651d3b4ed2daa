-- ===== src/Mem/Vasa/Flaws.antt =====
-- `vasa_dealloc` of kernel/mem/vasa.c when the free list is empty.
use brackos.Base.{ℕ, suc, ◌≡◌, ◌≢◌, refl, true, false, List, ◌∷◌, ◌==◌, if◌then◌else◌, arith}
use brackos.Base.Outcome.{ok}
use brackos.Mem.Vasa.{Vasa, null, acquire, add_loop, vasa_add_node, dealloc_loop, vasa_dealloc}
use brackos.Mem.Vasa.Chain.{Chain, NotIn, Agree, Agree-of, Chain-Agree}
use brackos.Mem.Vasa.Dealloc.{is_at}

-- the state that `vasa_dealloc` leaves when the first used node goes into an empty free list
given_back : (x : ℕ) → Vasa → Vasa
given_back x s = record s {
  free_head = x;
  used_head = (s.mem x).next;
  lock = false;
  mem = λ q. if q == x then record (s.mem x) { flags = 0 } else s.mem q;
}

dealloc-given_back :
    (k ptr x : ℕ) (s : Vasa)
    → s.lock ≡ false
    → s.free_head ≡ null
    → s.used_head ≡ x
    → x ≢ null
    → is_at ptr (s.mem x) ≡ true
    → vasa_dealloc (suc k) ptr s ≡ ok (given_back x s)
unfolding vasa_dealloc acquire dealloc_loop vasa_add_node add_loop given_back
dealloc-given_back k ptr x s lock free used some held =
    let some_x : (x == null) ≡ false = ground arith in simp (lock, free, used, some_x, held)

-- `vasa_dealloc` of the first used node, when no node is free: the node keeps its `next`, so all nodes
-- that are still in use are in the free list as well.
pub vasa_dealloc-frees_all :
    (k ptr x : ℕ) (ys : List ℕ) (s : Vasa)
    → s.lock ≡ false
    → s.free_head ≡ null
    → Chain s.mem s.used_head (x ∷ ys)
    → NotIn x ys
    → is_at ptr (s.mem x) ≡ true
    → (t : Vasa) × (vasa_dealloc (suc k) ptr s ≡ ok t)
      × Chain t.mem t.used_head ys
      × Chain t.mem t.free_head (x ∷ ys)
unfolding given_back
vasa_dealloc-frees_all k ptr x ys s lock free c d held = (
  given_back x s,
  dealloc-given_back k ptr x s lock free c.0 c.1 held,
  kept,
  (refl, c.1, rw self kept),
)
  where
    self : (x == x) ≡ true
    self = ground arith

    agree : Agree s.mem (given_back x s).mem ys
    agree = Agree-of s.mem (given_back x s).mem x x ys (λ q a b. ground arith) d d

    kept : Chain (given_back x s).mem (s.mem x).next ys
    kept = Chain-Agree s.mem (given_back x s).mem (s.mem x).next ys agree c.2
