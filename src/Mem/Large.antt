-- ===== src/Mem/Large.antt =====
-- kernel/mem/large.c: the list of the blocks that are too large for the slub allocator, and `cas` of
-- arch/i386/interrupts/cas.asm. `slot` is the address of `g_lmem`.
pub mod Remove
mod Tests
use brackos.Base.Outcome.{Outcome, ok, hang, ◌>>=◌}
use brackos.Base.{
  ℕ, zero, suc, ◌+◌, ◌*◌, ◌/◌, ◌%◌, ◌^◌, Bool, true, false, not, ◌&&◌, Option, none, some, List, [],
  ◌∷◌, ltb, ◌==◌, if◌then◌else◌,
}

abbrev pub null : ℕ
null = 0

-- `large_mem_t`; `node` is its address, and what follows it in a list stands behind it.
pub record LargeMem : Type 0 where
  pub node : ℕ
  pub base : ℕ
  pub length : ℕ

-- `g_lmem`, and the ranges that `memmap` has mapped for it: address and bytes
pub record Lmem : Type 0 where
  pub blocks : List LargeMem
  pub mapped : List (ℕ × ℕ)

-- the address that a `next` pointer, or `g_lmem`, holds
abbrev pub first : List LargeMem → ℕ
first [] = null
first (b ∷ bs) = b.node

-- The answer of `cas`. `cmpxchg` works on the slot of the argument `dst` itself, not on the word that it
-- points to, which stays as it is; and the answer is 1 where the comparison failed.
unfoldable pub cas : (dst old : ℕ) → ℕ
cas dst old = if dst == old then 0 else 1

-- While `cas` answers 0 the loop goes on, with the same `g_lmem`. The new node is not in the list.
unfoldable pub large_mem_add_block : (slot : ℕ) → Lmem → Outcome Lmem
large_mem_add_block slot s = if cas slot (first s.blocks) == 0 then hang else ok s

-- the list behind the node `prev`
pub behind : (prev : ℕ) → List LargeMem → List LargeMem
behind prev [] = []
behind prev (b ∷ bs) = if b.node == prev then bs else behind prev bs

-- The answer is the C function's `int`; `next` is at the start of a node.
unfoldable pub large_mem_rem_block :
    (slot : ℕ) → (lmem : LargeMem) → (prev : Option ℕ) → Lmem → ℕ × Lmem
unfolding behind
large_mem_rem_block slot lmem none s = if cas slot lmem.node == 0 then (1, s) else (0, s)
large_mem_rem_block slot lmem (some prev) s =
    if not (first (behind prev s.blocks) == lmem.node)
    then (0, s)
    else if cas prev lmem.node == 0
    then (1, s)
    else (0, s)

-- the loop of `large_mem_dealloc` and what follows it: `prev` is NULL in every round
pub dealloc_from : (slot ptr : ℕ) → (curr : List LargeMem) → Lmem → ℕ × Lmem
dealloc_from slot ptr [] s = (0, s)
dealloc_from slot ptr (b ∷ bs) s =
    let rest = dealloc_from slot ptr bs s in
    let (answer, t) = large_mem_rem_block slot b none s in
    if b.base == ptr then (if answer == 0 then (0, t) else (1, t)) else rest

unfoldable pub large_mem_dealloc : (slot ptr : ℕ) → Lmem → ℕ × Lmem
unfolding dealloc_from
large_mem_dealloc slot ptr s = dealloc_from slot ptr s.blocks s

-- `large_mem_alloc`; `addr` is what `memmap` answers and `node` what `kmalloc` does, each NULL without
-- memory
unfoldable pub large_mem_alloc : (slot addr node amount : ℕ) → Lmem → Outcome (ℕ × Lmem)
large_mem_alloc slot addr node amount s =
    let pages = amount * 0x1000 % 2 ^ 32 / 0x1000 in
    if ltb pages 1
    then ok (null, s)
    else if addr == null
    then ok (null, s)
    else if node == null
    then ok (null, s)
    else (large_mem_add_block slot (record s { mapped = (addr, pages) ∷ s.mapped }) >>= λ t.
        ok (addr, t))

unfoldable pub large_mem_init : Lmem → Lmem
large_mem_init s = record s { blocks = [] }
