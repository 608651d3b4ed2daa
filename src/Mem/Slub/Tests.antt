-- ===== src/Mem/Slub/Tests.antt =====
-- Runs of kernel/mem/slub.c on a small heap, and the theorems at those states.
use brackos.Base.{
  ℕ, ◌+◌, ◌≤◌, ◌<◌, ◌≡◌, refl, List, [], ◌∷◌, ◌++◌, ◌==◌, if◌then◌else◌, inl, arith, ◌⊎◌,
}
use brackos.Base.Outcome.{ok, fault}
use brackos.Mem.Slub.{
  CpuCache, MemCache, Slub, null, slab_create_next, slab_from_obj, object_count, mem_slab_new,
  kmalloc_sizes, kmalloc_block_for_size, kmalloc_get_block,
}
use brackos.Mem.Slub.Cache.{find_cache, mem_cache_dealloc, take_object, kmalloc_small}
use brackos.Mem.Slub.Slab.{Free, mem_slab_new-Free, mem_slab_new-overruns}
use brackos.Mem.Slub.Free.{
  mem_cache_dealloc-insert, mem_cache_dealloc-fault, Took, take_object-Took,
}
use brackos.Mem.Slub.Classes.{IsLeast, kmalloc_block_for_size-IsLeast, kmalloc_get_block-size}

abbrev name : List ℕ
name = 107 ∷ []

-- no memory yet, and room for one slab at 8192
abbrev fresh : Slub
fresh = record { caches = []; mem = λ q. 0; supply = 8192 ∷ [] }

mem_slab_new-Free_example :
    (t : Slub) × (mem_slab_new 4096 fresh ≡ ok (8192, t))
    × Free t.mem (t.mem 8196) (8200 ∷ (12296 ∷ []))
    × (t.mem 8192 ≡ slab_create_next null 1)
unfolding object_count
mem_slab_new-Free_example = mem_slab_new-Free 4096 8192 [] fresh refl (ground arith) (ground arith)

mem_slab_new-overruns_instance :
    (t : Slub) × (front : List ℕ) × (object : ℕ) × (mem_slab_new 4096 fresh ≡ ok (8192, t))
    × Free t.mem (t.mem 8196) (front ++ (object ∷ []))
    × (16384 < object + 4096)
unfolding object_count
mem_slab_new-overruns_instance =
    mem_slab_new-overruns 4096 8192 [] fresh refl (ground arith) (ground arith) (ground arith)

abbrev lists : CpuCache
lists = record { full = 0; semi = 8192; empty = 0 }

abbrev cache : MemCache
cache = record { name = name; object_size = 64; min = 0; cpu_caches = λ i. lists }

-- a slab at 8192 of which the objects 8264 and 8328 are free
abbrev partly_used : Slub
partly_used = record {
  caches = cache ∷ [];
  mem = λ q. if q == 8196 then 8264 else if q == 8264 then 8328 else 0;
  supply = [];
}

mem_cache_dealloc-insert_example :
    (t : Slub) × (mem_cache_dealloc 0 9 name 8200 partly_used ≡ ok t)
    × Free t.mem (t.mem 8196) (8200 ∷ (8264 ∷ (8328 ∷ [])))
unfolding slab_from_obj find_cache
mem_cache_dealloc-insert_example =
    mem_cache_dealloc-insert 0 9 8200 name cache (8264 ∷ (8328 ∷ [])) partly_used refl
      (ground arith) (ground arith) (refl, ground arith, (refl, ground arith, refl))
      (ground arith, (ground arith, tt)) (inl (ground arith)) (ground arith)

take_object-Took_instance :
    (r : ℕ × CpuCache × Slub) × (take_object 0 8192 lists partly_used ≡ ok r)
    × Took 8264 (8328 ∷ []) 8192 lists r
take_object-Took_instance =
    take_object-Took 0 8192 8264 (8328 ∷ []) lists partly_used
      (refl, ground arith, (refl, ground arith, refl)) (ground arith, (ground arith, tt))

mem_cache_dealloc-fault_instance :
    mem_cache_dealloc 0 9 name 8200 (record partly_used { mem = λ q. 0 }) ≡ fault
unfolding slab_from_obj find_cache
mem_cache_dealloc-fault_instance =
    mem_cache_dealloc-fault 0 8 8200 name cache (record partly_used { mem = λ q. 0 }) refl
      (ground arith) (ground arith) refl

kmalloc_block_for_size-IsLeast_instance :
    ((100 < 4096)
      × (100 < kmalloc_block_for_size 100)
      × IsLeast 100 (kmalloc_block_for_size 100) kmalloc_sizes)
    ⊎ ((4096 ≤ 100) × (kmalloc_small 0 (λ c. c ∷ []) 9 100 fresh ≡ ok (null, fresh)))
kmalloc_block_for_size-IsLeast_instance = kmalloc_block_for_size-IsLeast 0 (λ c. c ∷ []) 9 100 fresh

-- a slab at 8192 with the count of the 64 byte cache
kmalloc_get_block-size_instance :
    kmalloc_get_block 8264 (record partly_used { mem = λ q. if q == 8192 then 127 else 0 }) ≡ ok 64
unfolding slab_from_obj object_count
kmalloc_get_block-size_instance =
    kmalloc_get_block-size 2 8264 (record partly_used { mem = λ q. if q == 8192 then 127 else 0 })
      (ground arith) refl
