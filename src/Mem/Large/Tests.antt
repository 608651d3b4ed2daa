-- ===== src/Mem/Large/Tests.antt =====
-- Runs of kernel/mem/large.c, and the theorem behind an allocation.
use brackos.Base.{ℕ, ◌≡◌, refl, [], ◌∷◌, arith}
use brackos.Base.Outcome.{ok}
use brackos.Mem.Large.{
  Lmem, cas, large_mem_init, large_mem_alloc, large_mem_add_block, large_mem_dealloc,
}
use brackos.Mem.Large.Remove.{Reached, inits, allocs, Allocated, large_mem_dealloc-keeps}

abbrev nothing : Lmem
nothing = record { blocks = []; mapped = [] }

abbrev one_block : Lmem
one_block = record { blocks = []; mapped = (0x8000, 5000) ∷ [] }

-- The product of the size wraps: a block of 1 MiB and 5000 bytes maps 5000. The block is in no list.
maps_too_little : large_mem_alloc 64 0x8000 10 0x101388 nothing ≡ ok (0x8000, one_block)
unfolding large_mem_alloc large_mem_add_block cas
maps_too_little = refl

one_block-Reached : Reached 64 one_block
unfolding large_mem_init
one_block-Reached =
    allocs nothing one_block 0x8000 10 0x101388 0x8000 (inits nothing) maps_too_little

large_mem_dealloc-keeps_example :
    (large_mem_dealloc 64 0x8000 one_block ≡ (0, one_block))
    × (r : ℕ × Lmem) × (large_mem_alloc 64 0xa000 20 6000 one_block ≡ ok r)
    × Allocated 0xa000 6000 one_block r
large_mem_dealloc-keeps_example =
    large_mem_dealloc-keeps 64 one_block 0x8000 0xa000 20 6000 (omega arith) one_block-Reached
