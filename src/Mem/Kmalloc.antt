-- ===== src/Mem/Kmalloc.antt =====
-- kernel/mem/kmalloc.c and kernel/mem/early.c: the heap that only grows at start-up, and the choice of an
-- allocator after it. The allocators for small and for large requests stand behind an interface.
pub mod Guard
mod Tests
use brackos.Base.{
  ℕ, zero, suc, ◌+◌, ◌*◌, ◌%◌, ◌^◌, ◌≡◌, Bool, true, false, not, ◌&&◌, ltb, leb, ◌==◌,
  if◌then◌else◌,
}
use brackos.Base.Outcome.{Outcome, ok, hang, ◌>>=◌}
use brackos.Base.Word.{add32}

abbrev pub null : ℕ
null = 0

-- the global variables of both files
pub record Heap : Type 0 where
  pub early_memory_base : ℕ
  pub early_memory_end : ℕ
  pub kernel_mem_end : ℕ
  pub kern_mem_early : Bool

-- Before anything runs.
unfoldable pub start : Heap
start = record {
  early_memory_base = 0;
  early_memory_end = 0;
  kernel_mem_end = 0;
  kern_mem_early = true;
}

unfoldable pub early_kmalloc_init : (from size : ℕ) → Heap → Heap
early_kmalloc_init from size h = record h {
  early_memory_base = from;
  early_memory_end = add32 from size;
}

-- Out of memory the function spins for ever.
unfoldable pub early_kmalloc : (size : ℕ) → Heap → Outcome (ℕ × Heap)
early_kmalloc size h =
    if h.early_memory_base == 0
    then ok (null, h)
    else if ltb h.early_memory_end (add32 h.early_memory_base size)
    then hang
    else ok (h.early_memory_base, record h { early_memory_base = add32 h.early_memory_base size })

unfoldable pub kmem_swap : Heap → Heap
kmem_swap h = record h {
  early_memory_base = 0;
  early_memory_end = 0;
  kernel_mem_end = h.early_memory_base;
  kern_mem_early = false;
}

-- The allocators behind `kmalloc`, on a state of theirs: `_kmalloc`, `_kfree`, `_krealloc` for small
-- requests, `large_mem_alloc` and `large_mem_dealloc` for large ones.
pub record Allocators (S : Type 0) : Type 0 where
  pub small_alloc : ℕ → S → Outcome (ℕ × S)
  pub small_free : ℕ → S → Outcome (Bool × S)
  pub small_realloc : (addr size : ℕ) → S → Outcome (ℕ × S)
  pub large_alloc : ℕ → S → Outcome (ℕ × S)
  pub large_free : ℕ → S → Outcome (Bool × S)

module _ {S : Type 0} (a : Allocators S) where
  unfoldable pub kmalloc : (count : ℕ) → Heap → S → Outcome (ℕ × Heap × S)
  unfolding early_kmalloc
  kmalloc count h s =
      if h.kern_mem_early
      then (early_kmalloc count h >>= λ (p, k). ok (p, k, s))
      else if leb count 4096
      then (a.small_alloc count s >>= λ (p, t). ok (p, h, t))
      else (a.large_alloc count s >>= λ (p, t). ok (p, h, t))

  unfoldable pub krealloc : (addr size : ℕ) → Heap → S → Outcome (ℕ × Heap × S)
  unfolding kmalloc
  krealloc addr size h s =
      if addr == null
      then kmalloc size h s
      else if h.kern_mem_early && ltb addr h.kernel_mem_end
      then ok (null, h, s)
      else (a.small_realloc addr size s >>= λ (p, t). ok (p, h, t))

  unfoldable pub kfree : (addr : ℕ) → Heap → S → Outcome S
  kfree addr h s =
      if h.kern_mem_early && ltb addr h.kernel_mem_end
      then ok s
      else (a.small_free addr s >>= λ (known, t).
          if known then ok t else a.large_free addr t >>= λ (_, u). ok u)

  -- The heap as the kernel's calls change it, from its start on.
  pub data Reached : Heap → Type 0 where
    started : Reached start
    initialised : {h : Heap} (from size : ℕ) → Reached h → Reached (early_kmalloc_init from size h)
    allocated :
        {h k : Heap} (s t : S) (count p : ℕ)
        → Reached h
        → kmalloc count h s ≡ ok (p, k, t)
        → Reached k
    swapped : {h : Heap} → Reached h → Reached (kmem_swap h)
