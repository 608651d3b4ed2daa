-- ===== src/Mem/Kmalloc/Tests.antt =====
-- Runs of kernel/mem/kmalloc.c and kernel/mem/early.c, and the theorems at those heaps.
use brackos.Base.{ℕ, ◌+◌, ◌≤◌, ◌<◌, ◌≡◌, refl, true, false, if◌then◌else◌, [], ◌∷◌, arith, ◌⊎◌}
use brackos.Base.Outcome.{ok, hang, ◌>>=◌}
use brackos.Mem.Kmalloc.{
  Heap, start, early_kmalloc_init, early_kmalloc, Allocators, kfree, started, initialised,
}
use brackos.Mem.Kmalloc.Guard.{early_kmalloc-starts, early_blocks, kfree-unguarded}

-- The state counts the objects that are out.
abbrev counting : Allocators ℕ
counting = record {
  small_alloc = λ count s. ok (0x5000, s + 1);
  small_free = λ addr s. ok (true, s);
  small_realloc = λ addr size s. ok (0, s);
  large_alloc = λ count s. ok (0x9000, s + 1);
  large_free = λ addr s. ok (false, s);
}

abbrev active : Heap
active = record {
  early_memory_base = 0x1000;
  early_memory_end = 0x2000;
  kernel_mem_end = 0;
  kern_mem_early = true;
}

early_kmalloc-starts_instance :
    ((0x1018 ≤ 0x2000)
      × (early_blocks (16 ∷ (8 ∷ [])) active
          ≡ ok (0x1000 ∷ (0x1010 ∷ []), record active { early_memory_base = 0x1018 })))
    ⊎ ((0x2000 < 0x1018) × (early_blocks (16 ∷ (8 ∷ [])) active ≡ hang))
early_kmalloc-starts_instance =
    early_kmalloc-starts (16 ∷ (8 ∷ [])) active (ground arith) (ground arith) (ground arith)

-- The size wraps the address, and the block runs past the end of the early heap.
wraps : early_kmalloc 0xfffff000 active ≡ ok (0x1000, record active { early_memory_base = 0 })
unfolding early_kmalloc
wraps = refl

kfree-unguarded_example : kfree counting 0x1000 (early_kmalloc_init 0x1000 0x1000 start) 3 ≡ (
    counting.small_free 0x1000 3 >>= λ (known, t).
    if known then ok t else counting.large_free 0x1000 t >>= λ (_, u). ok u)
kfree-unguarded_example =
    kfree-unguarded counting 0x1000 (early_kmalloc_init 0x1000 0x1000 start) 3
      (initialised 0x1000 0x1000 started)
