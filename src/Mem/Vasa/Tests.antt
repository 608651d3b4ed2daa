-- ===== src/Mem/Vasa/Tests.antt =====
-- Runs of kernel/mem/vasa.c on small heaps, and the theorems at those states.
use brackos.Base.{
  ℕ, ◌+◌, ◌≤◌, ◌≡◌, refl, true, false, List, [], ◌∷◌, ◌==◌, if◌then◌else◌, inr, arith,
}
use brackos.Base.Outcome.{Outcome, ok, ◌>>=◌, Returns}
use brackos.Mem.Vasa.{
  VasaNode, Vasa, null, write, set_next, set_head, acquire, padding, apply_pad, cut_waste,
  take_node, vasa_congruent, add_loop, vasa_add_node, alloc_found, alloc_loop, vasa_alloc,
  vasa_dealloc, vasa_mark, vasa_node_alloc, vasa_get_flags, vasa_init,
}
use brackos.Mem.Vasa.Chain.{Mem, Chain, covers, cover, IsValid}
use brackos.Mem.Vasa.Insert.{Inserted, vasa_add_node-Inserted}
use brackos.Mem.Vasa.Taken.{chunk}
use brackos.Mem.Vasa.Alloc.{CanAlloc, Allocated, vasa_alloc-Allocated, vasa_alloc-fresh}
use brackos.Mem.Vasa.Dealloc.{CanDealloc, Deallocated, vasa_dealloc-Deallocated}
use brackos.Mem.Vasa.Flaws.{vasa_dealloc-frees_all}
use brackos.Mem.Vasa.Mark.{vasa_mark-swaps}
use brackos.Mem.Vasa.Start.{vasa_init-IsValid, vasa_get_flags-flags_at}

abbrev blank : VasaNode
blank = record { next = 0; type = 0; base = 0; length = 0; flags = 0 }

-- The node 1 has [4096, 20480), and the node 2 [20480, 24576).
abbrev heap : Mem
heap q =
    if q == 1
    then record blank { base = 4096; length = 16384 }
    else if q == 2
    then record { next = 0; type = 0; base = 20480; length = 4096; flags = 9 }
    else blank

-- The node 1 is free, and 2 is used.
abbrev two : Vasa
two = record {
  free_head = 1;
  used_head = 2;
  lock = false;
  mem = heap;
  supply = 3 ∷ (4 ∷ (5 ∷ []));
  released = [];
}

two-IsValid : IsValid two (1 ∷ []) (2 ∷ [])
two-IsValid = record {
  free_chain = (refl, ground arith, refl);
  used_chain = (refl, ground arith, refl);
  free_distinct = (tt, tt);
  used_distinct = (tt, tt);
  apart = ((ground arith, tt), tt);
  free_chunks = ((ground arith, ground arith), tt);
  used_chunks = ((ground arith, ground arith), tt);
}

two-CanAlloc : CanAlloc 4 3 (4 ∷ (5 ∷ [])) (1 ∷ []) (2 ∷ []) two
two-CanAlloc = record {
  valid = two-IsValid;
  unlocked = refl;
  stock = refl;
  n_some = ground arith;
  n_free = (ground arith, tt);
  n_used = (ground arith, tt);
  free_fuel = ground arith;
  used_fuel = ground arith;
}

two-CanDealloc : CanDealloc 4 (1 ∷ []) (2 ∷ []) two
two-CanDealloc = record {
  valid = two-IsValid;
  unlocked = refl;
  some_free = cc;
  free_fuel = ground arith;
  used_fuel = ground arith;
}

vasa_alloc-Allocated_example :
    (r : ℕ × Vasa) × (vasa_alloc 4 1 100 2 two ≡ ok r) × Allocated 100 4100 (1 ∷ []) (2 ∷ []) two r
unfolding padding
vasa_alloc-Allocated_example =
    vasa_alloc-Allocated 4 1 100 2 3 4100 (4 ∷ (5 ∷ [])) (1 ∷ []) (2 ∷ []) two two-CanAlloc refl
      (ground arith) (ground arith)

-- what `vasa_alloc` of 100 bytes leaves
abbrev taken : Vasa
taken =
    record (set_head true 3 (
      set_next 3 2 (
        write 3 (record { next = 0; type = 1; base = 4096; length = 100; flags = 2 })
          (record (write 1 (record (heap 1) { base = 4196; length = 16284 }) two) {
            supply = 4 ∷ (5 ∷ []);
          })))) { lock = false }

allocates : vasa_alloc 4 1 100 2 two ≡ ok (4096, taken)
unfolding vasa_alloc acquire alloc_loop alloc_found padding cut_waste take_node vasa_node_alloc
    vasa_add_node add_loop vasa_congruent
allocates = refl

vasa_alloc-fresh_example :
    (free : List ℕ) × (used : List ℕ) × IsValid taken free used
    × (covers (chunk 4096 100) 4100 + cover two.mem (2 ∷ []) 4100 ≤ 1)
    × (cover taken.mem free 4100 + cover taken.mem used 4100 ≤ 1)
unfolding padding covers
vasa_alloc-fresh_example =
    vasa_alloc-fresh 4 1 100 2 3 4100 4096 (4 ∷ (5 ∷ [])) (1 ∷ []) (2 ∷ []) two taken two-CanAlloc
      refl (ground arith) (ground arith) allocates (ground arith) (ground arith)

vasa_dealloc-Deallocated_example :
    (t : Vasa) × (vasa_dealloc 4 20500 two ≡ ok t) × Deallocated 20500 20500 (1 ∷ []) (2 ∷ []) two t
vasa_dealloc-Deallocated_example =
    vasa_dealloc-Deallocated 4 20500 20500 (1 ∷ []) (2 ∷ []) two two-CanDealloc

-- The free list is empty, and the nodes 1 and 2 are used.
abbrev full : Vasa
full = record two {
  free_head = 0;
  used_head = 1;
  mem = λ q. if q == 1 then record (heap 1) { next = 2 } else heap q;
}

vasa_dealloc-frees_all_instance :
    (t : Vasa) × (vasa_dealloc 4 5000 full ≡ ok t)
    × Chain t.mem t.used_head (2 ∷ [])
    × Chain t.mem t.free_head (1 ∷ (2 ∷ []))
vasa_dealloc-frees_all_instance =
    vasa_dealloc-frees_all 3 5000 1 (2 ∷ []) full refl refl
      (refl, ground arith, (refl, ground arith, refl)) (ground arith, tt) refl

vasa_mark-swaps_instance :
    (t : Vasa) × (vasa_mark 4 4096 16384 true 7 two ≡ ok (true, t))
    × (t.free_head ≡ 1)
    × (used : List ℕ) × Chain t.mem t.used_head used
    × (cover t.mem used 5000 ≡ cover two.mem (1 ∷ []) 5000)
vasa_mark-swaps_instance =
    vasa_mark-swaps 3 7 5000 1 [] two (ground arith) (refl, ground arith, refl) (tt, tt)
      ((ground arith, ground arith), tt)

vasa_add_node-Inserted_example :
    Returns (Inserted true 1 null (2 ∷ []) 5000 two) (vasa_add_node 4 1 true two)
vasa_add_node-Inserted_example =
    vasa_add_node-Inserted 4 1 true 5000 (2 ∷ []) two (ground arith) (ground arith)
      (ground arith, tt) (refl, ground arith, refl) (tt, tt) ((ground arith, ground arith), tt)
      (ground arith, ground arith) (inr refl)

vasa_init-IsValid_example :
    (t : Vasa) × (vasa_init 4096 8192 two ≡ ok t)
    × IsValid t (3 ∷ []) []
    × (t.supply ≡ 4 ∷ (5 ∷ []))
    × (t.lock ≡ false)
    × (cover t.mem (3 ∷ []) 5000 ≡ covers (chunk 4096 8192) 5000)
vasa_init-IsValid_example =
    vasa_init-IsValid 4096 8192 3 5000 (4 ∷ (5 ∷ [])) two refl (ground arith) (ground arith)
      (ground arith)

vasa_get_flags-flags_at_instance : vasa_get_flags 4 20480 two ≡ ok 9
vasa_get_flags-flags_at_instance =
    vasa_get_flags-flags_at 4 20480 (2 ∷ []) two (ground arith) (refl, ground arith, refl)

-- The node 1 has [4196, 20580), and all nodes are free.
abbrev unaligned : Vasa
unaligned = record two {
  used_head = 0;
  mem = λ q. if q == 1 then record blank { base = 4196; length = 16384 } else blank;
}

-- The answer, the two heads, and how often each list covers the address 8200. A page-aligned chunk that wastes bytes is still in the free list: the base of the node that it is cut
-- from grows by the size only.
seen : Outcome (ℕ × Vasa) → Outcome (List ℕ)
seen r = r >>= λ (ptr, t). ok (
    ptr
    ∷ (t.free_head
        ∷ (t.used_head ∷ (cover t.mem (3 ∷ (1 ∷ [])) 8200 ∷ (cover t.mem (4 ∷ []) 8200 ∷ [])))))

aligned_chunk_stays_free :
    seen (vasa_alloc 4 1 100 32 unaligned) ≡ ok (8192 ∷ (3 ∷ (4 ∷ (1 ∷ (1 ∷ [])))))
unfolding vasa_alloc acquire alloc_loop alloc_found padding apply_pad cut_waste take_node
    vasa_node_alloc vasa_add_node add_loop vasa_congruent covers seen
aligned_chunk_stays_free = refl
