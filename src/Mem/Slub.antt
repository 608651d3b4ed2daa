-- ===== src/Mem/Slub.antt =====
-- kernel/mem/slub.c: caches of objects of one size, in slabs of two pages. `mem` has the words of the
-- heap at their addresses: the header of a slab (`next_slab`, then `free_head`) and the first word of
-- an object, which leads to the next free one; they do not overlap where objects have 4 bytes or
-- more. `supply` holds the addresses that `memmap` will give to `mem_slab_new`, in order; once it is
-- empty `memmap` returns NULL. No cache has a constructor: all callers pass NULL.
pub mod Cache
pub mod Slab
pub mod Free
pub mod Classes
mod Tests
use brackos.Base.{
  ℕ, zero, suc, ◌+◌, ◌-◌, ◌*◌, ◌/◌, ◌%◌, ◌^◌, Bool, true, false, not, ◌&&◌, Option, none, some,
  List, [], ◌∷◌, ltb, leb, ◌==◌, if◌then◌else◌,
}
use Prim.Native.Nat.{bit_or}
use brackos.Base.Outcome.{Outcome, ok, fault, out_of_fuel, ◌>>=◌}
use brackos.Base.Word.{add32, sub32}

-- `mem_cpu_cache_t`
pub record CpuCache : Type 0 where
  pub full : ℕ
  pub semi : ℕ
  pub empty : ℕ

-- `mem_cache_t`; `cpu_caches` has the entry of each CPU.
pub record MemCache : Type 0 where
  pub name : List ℕ
  pub object_size : ℕ
  pub min : ℕ
  pub cpu_caches : ℕ → CpuCache

-- The list that starts at `cache_cache`, and the heap.
pub record Slub : Type 0 where
  pub caches : List MemCache
  pub mem : ℕ → ℕ
  pub supply : List ℕ

abbrev pub null : ℕ
null = 0

abbrev pub slab_size : ℕ
slab_size = 0x2000

-- `sizeof(mem_slab_t)`
abbrev pub header_size : ℕ
header_size = 8

abbrev pub write : (at value : ℕ) → Slub → Slub
write at value s = record s { mem = λ q. if q == at then value else s.mem q }

abbrev pub next_slab : ℕ → ℕ
next_slab slab = slab

abbrev pub free_head : ℕ → ℕ
free_head slab = slab + 4

-- `SLAB_NEXT`, `SLAB_COUNT` and `SLAB_CREATE_NEXT` of the word `next_slab`
abbrev pub slab_next : ℕ → ℕ
slab_next word = word / 4096 * 4096

abbrev pub slab_count : ℕ → ℕ
slab_count word = word % 4096

unfoldable pub slab_create_next : (next count : ℕ) → ℕ
slab_create_next next count = bit_or count next

unfoldable pub slab_from_obj : ℕ → ℕ
slab_from_obj object = object / slab_size * slab_size

unfoldable pub object_count : (object_size : ℕ) → ℕ
object_count object_size = (slab_size - header_size - 1) / object_size

-- the `for` of `mem_slab_new`, and the last write
pub init_free : (count end object_size : ℕ) → Slub → Slub
init_free zero end object_size s = write end 0 s
init_free (suc count) end object_size s =
    let next = add32 end object_size in init_free count next object_size (write end next s)

unfoldable pub mem_slab_new : (object_size : ℕ) → Slub → Outcome (ℕ × Slub)
unfolding init_free object_count
mem_slab_new object_size s = elim s.supply [
  | [] ↦ ok (null, s)
  | slab ∷ rest ↦
      if object_size == 0
      then fault
      else (let count = object_count object_size in
          let t =
            write (next_slab slab) (slab_create_next null count)
              (write (free_head slab) (slab + header_size) (record s { supply = rest })) in
          ok (slab, init_free count (slab + header_size) object_size t))
]

-- the `while` of `mem_slab_free_count`, on fuel
pub count_free : ℕ → (count object : ℕ) → Slub → Outcome ℕ
count_free zero count object s = out_of_fuel
count_free (suc fuel) count object s =
    let rest = count_free fuel (add32 count 1) (s.mem object) s in
    if object == null then ok count else rest

-- the `while` of `mem_cache_dealloc`, on fuel; `object` is NULL once it is in the list
pub insert_loop : ℕ → (object free_prev free_obj slab : ℕ) → Slub → Outcome (ℕ × ℕ × Slub)
insert_loop zero object free_prev free_obj slab s = out_of_fuel
insert_loop (suc fuel) object free_prev free_obj slab s =
    let placed =
      write object free_obj
        (if free_prev == null then write (free_head slab) object s else write free_prev object s) in
    let rest_placed = insert_loop fuel null free_obj (placed.mem free_obj) slab placed in
    let rest = insert_loop fuel object free_obj (s.mem free_obj) slab s in
    if free_obj == null
    then ok (object, free_prev, s)
    else if not (object == null) && ltb object free_obj
    then rest_placed
    else rest

-- `kmalloc_sizes`
abbrev pub kmalloc_sizes : List ℕ
kmalloc_sizes =
    16
    ∷ (32
        ∷ (64
            ∷ (92
                ∷ (128
                    ∷ (196
                        ∷ (256
                            ∷ (384 ∷ (512 ∷ (768 ∷ (1024 ∷ (1363 ∷ (2048 ∷ (4096 ∷ [])))))))))))))

-- `_kmalloc_block_for_size`, as the size of the block; 0 is the NULL block
unfoldable pub block_for : (size : ℕ) → List ℕ → ℕ
block_for size [] = 0
block_for size (c ∷ cs) = if ltb size c then c else block_for size cs

unfoldable pub kmalloc_block_for_size : (size : ℕ) → ℕ
unfolding block_for
kmalloc_block_for_size size = block_for size kmalloc_sizes

-- the `for` of `_kmalloc_get_block`, with the size in front of those that are left
pub block_above : (estimate before : ℕ) → List ℕ → ℕ
block_above estimate before [] = 0
block_above estimate before (c ∷ cs) = if ltb estimate c then before else block_above estimate c cs

-- `_kmalloc_get_block`
unfoldable pub kmalloc_get_block : (object : ℕ) → Slub → Outcome ℕ
unfolding block_above slab_from_obj
kmalloc_get_block object s =
    let count = slab_count (s.mem (next_slab (slab_from_obj object))) in
    if count == 0
    then fault
    else ok (block_above ((slab_size - header_size) / count) 16 kmalloc_sizes)
