-- ===== src/Mem/Slub/Cache.antt =====
-- The caches of kernel/mem/slub.c on the CPU `cpu`: allocation and release of an object.
use brackos.Base.{
  same_name, ℕ, zero, suc, Bool, true, false, not, Option, none, some, List, [], ◌∷◌, ltb, ◌==◌,
  if◌then◌else◌,
}
use brackos.Base.Outcome.{Outcome, ok, fault, out_of_fuel, ◌>>=◌}
use brackos.Base.Word.{add32}
use brackos.Mem.Slub.{
  CpuCache, MemCache, Slub, null, write, next_slab, free_head, slab_next, slab_count,
  slab_create_next, slab_from_obj, mem_slab_new, count_free, insert_loop, kmalloc_block_for_size,
  kmalloc_get_block,
}

module _ (cpu : ℕ) where
  -- the cache of a name, and the list with the entry of this CPU replaced in that cache
  unfoldable pub find_cache : (name : List ℕ) → List MemCache → Option MemCache
  find_cache name [] = none
  find_cache name (c ∷ cs) = if same_name c.name name then some c else find_cache name cs

  pub put_cache : (name : List ℕ) → CpuCache → List MemCache → List MemCache
  put_cache name k [] = []
  put_cache name k (c ∷ cs) =
      if same_name c.name name
      then record c { cpu_caches = λ i. if i == cpu then k else c.cpu_caches i } ∷ cs
      else c ∷ put_cache name k cs

  abbrev pub set_cpu : (name : List ℕ) → CpuCache → Slub → Slub
  set_cpu name k s = record s { caches = put_cache name k s.caches }

  -- `semi` of `mem_cache_alloc` after the two tests at its start; NULL if no slab could be had
  unfoldable pub refill : MemCache → Slub → Outcome (ℕ × CpuCache × Slub)
  unfolding mem_slab_new slab_create_next
  refill c s =
      let k = c.cpu_caches cpu in
      if not (k.semi == null)
      then ok (k.semi, k, s)
      else if k.empty == null
      then (mem_slab_new c.object_size s >>= λ (slab, t). ok (slab, record k { semi = slab }, t))
      else (let word = s.mem (next_slab k.empty) in
          ok (
            k.empty,
            record k { semi = k.empty; empty = slab_next word },
            write (next_slab k.empty) (slab_create_next null (slab_count word)) s,
          ))

  -- the object that `mem_cache_alloc` takes from the slab `semi`
  unfoldable pub take_object : (slab : ℕ) → CpuCache → Slub → Outcome (ℕ × CpuCache × Slub)
  unfolding slab_create_next
  take_object slab k s =
      let object = s.mem (free_head slab) in
      let t = write (free_head slab) (s.mem object) s in
      if object == null
      then fault
      else if t.mem (free_head slab) == null
      then (let word = t.mem (next_slab slab) in
          ok (
            object,
            record k { semi = slab_next word; full = slab },
            write (next_slab slab) (slab_create_next k.full (slab_count word)) t,
          ))
      else ok (object, k, t)

  -- the two loops of `mem_cache_free_count`, on fuel; a list has at most `fuel` slabs, and a slab at most
  -- `fuel` free objects
  pub count_semi : (fuel : ℕ) → ℕ → (count head : ℕ) → Slub → Outcome ℕ
  count_semi fuel zero count head s = out_of_fuel
  count_semi fuel (suc k) count head s =
      if head == null
      then ok count
      else (count_free fuel 0 (s.mem (free_head head)) s >>= λ n.
          count_semi fuel k (add32 count n) (slab_next (s.mem (next_slab head))) s)

  pub count_empty : ℕ → (count head : ℕ) → Slub → Outcome ℕ
  count_empty zero count head s = out_of_fuel
  count_empty (suc k) count head s =
      let word = s.mem (next_slab head) in
      let rest = count_empty k (add32 count (slab_count word)) (slab_next word) s in
      if head == null then ok count else rest

  unfoldable pub mem_cache_free_count : (fuel : ℕ) → CpuCache → Slub → Outcome ℕ
  unfolding count_semi count_free count_empty
  mem_cache_free_count fuel k s =
      count_semi fuel fuel 0 k.semi s >>= λ n. count_empty fuel n k.empty s

  -- `mem_cache_alloc` from the test of `cache->min` on
  unfoldable pub keep_min : (fuel : ℕ) → MemCache → CpuCache → Slub → Outcome (CpuCache × Slub)
  unfolding mem_cache_free_count mem_slab_new slab_create_next
  keep_min fuel c k s =
      if c.min == 0
      then ok (k, s)
      else (mem_cache_free_count fuel k s >>= λ free.
          if ltb free c.min
          then (mem_slab_new c.object_size s >>= λ (slab, t).
              if slab == null
              then ok (k, t)
              else ok (
                record k { empty = slab },
                write (next_slab slab)
                    (slab_create_next k.empty (slab_count (t.mem (next_slab slab)))) t,
              ))
          else ok (k, s))

  unfoldable pub mem_cache_alloc : (fuel : ℕ) → (name : List ℕ) → Slub → Outcome (ℕ × Slub)
  unfolding find_cache put_cache refill take_object keep_min
  mem_cache_alloc fuel name s = elim (find_cache name s.caches) [
    | none ↦ ok (null, s)
    | some c ↦ refill c s >>= λ (slab, k, t).
        if slab == null
        then ok (null, t)
        else (take_object slab k t >>= λ (object, k1, u).
            keep_min fuel c k1 u >>= λ (k2, v). ok (object, set_cpu name k2 v))
  ]

  -- `mem_cache_dealloc`; the count of free objects that it takes has no use yet.
  unfoldable pub mem_cache_dealloc :
      (fuel : ℕ) → (name : List ℕ) → (object : ℕ) → Slub → Outcome Slub
  unfolding find_cache insert_loop slab_from_obj
  mem_cache_dealloc fuel name object s =
      let slab = slab_from_obj object in
      elim (find_cache name s.caches) [
        | none ↦ ok s
        | some c ↦
            if slab == null
            then ok s
            else (insert_loop fuel object null (s.mem (free_head slab)) slab s
                >>= λ (left, free_prev, t).
                    if left == null
                    then ok t
                    else if free_prev == null
                    then fault
                    else ok (write free_prev left t))
      ]

  -- the name of the cache of a size, `kmalloc16` and so on
  module _ (name_of : ℕ → List ℕ) where
    unfoldable pub kmalloc_small : (fuel size : ℕ) → Slub → Outcome (ℕ × Slub)
    unfolding kmalloc_block_for_size mem_cache_alloc
    kmalloc_small fuel size s =
        if size == 0
        then ok (null, s)
        else if kmalloc_block_for_size size == 0
        then ok (null, s)
        else mem_cache_alloc fuel (name_of (kmalloc_block_for_size size)) s

    unfoldable pub kfree_small : (fuel object : ℕ) → Slub → Outcome (Bool × Slub)
    unfolding kmalloc_get_block mem_cache_dealloc
    kfree_small fuel object s = kmalloc_get_block object s >>= λ block.
        if block == 0
        then ok (false, s)
        else (mem_cache_dealloc fuel (name_of block) object s >>= λ t. ok (true, t))
