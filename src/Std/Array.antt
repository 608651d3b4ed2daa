-- ===== src/Std/Array.antt =====
-- std/list.c: a growing array of pointers. `fresh` are the words that new memory holds; `memory` tells
-- whether `krealloc` gives a block, which then keeps the old words. The block has the size of the
-- slub allocator's cache for the bytes that were asked for.
pub mod Add
pub mod Rem
mod Tests
use brackos.Base.{
  ℕ, zero, suc, ◌+◌, ◌-◌, ◌*◌, ◌/◌, ◌%◌, ◌^◌, Bool, true, false, ◌||◌, Option, none, some, List, [],
  ◌∷◌, ltb, leb, ◌==◌, if◌then◌else◌, length, get_or, set, take, drop, ◌++◌, not,
}
use brackos.Base.Outcome.{Outcome, ok, fault, ◌>>=◌}
use brackos.Base.Word.{add32, sub32}
use brackos.Mem.Slub.{kmalloc_block_for_size}

-- `list_t`; `block` has the words at `data`, and is `none` for NULL.
pub record Array : Type 0 where
  pub block : Option (List ℕ)
  pub index : ℕ
  pub count : ℕ

unfoldable pub list_init : Array
list_init = record { block = none; index = 0; count = 0 }

abbrev pub words_of : Option (List ℕ) → List ℕ
words_of none = []
words_of (some ws) = ws

-- `n` words from the index `i` on: what there is of the old ones, and fresh ones
pub resize : (fresh : ℕ → ℕ) → (n i : ℕ) → List ℕ → List ℕ
resize fresh zero i ws = []
resize fresh (suc n) i [] = fresh i ∷ resize fresh n (i + 1) []
resize fresh (suc n) i (w ∷ ws) = w ∷ resize fresh n (i + 1) ws

-- `list->data[list->index++] = data`
unfoldable pub store : (value : ℕ) → Array → Outcome Array
store value l =
    if ltb l.index (length (words_of l.block))
    then ok
        (record l { block = some (set (words_of l.block) l.index value); index = add32 l.index 1 })
    else fault

unfoldable pub list_add : (fresh : ℕ → ℕ) → (memory : Bool) → (value : ℕ) → Array → Outcome Array
unfolding resize store
list_add fresh memory value l =
    if ltb l.count (add32 l.index 1)
    then (if memory
        then store value (record l {
          block =
              some
                (resize fresh (kmalloc_block_for_size (add32 l.count 32) / 4) 0 (words_of l.block));
        })
        else ok l)
    else store value l

-- NULL, or what stands at the index
unfoldable pub list_get : (index : ℕ) → Array → Outcome ℕ
list_get index l = elim l.block [
  | none ↦ ok 0
  | some ws ↦
      if ltb l.index index
      then ok 0
      else if ltb index (length ws)
      then ok (get_or ws index 0)
      else fault
]

-- the `for` of `list_find`; `none` for -1
pub find_from : (rounds i value : ℕ) → List ℕ → Outcome (Option ℕ)
find_from zero i value ws = ok none
find_from (suc rounds) i value [] = fault
find_from (suc rounds) i value (w ∷ ws) =
    let rest = find_from rounds (i + 1) value ws in if w == value then ok (some i) else rest

unfoldable pub list_find : (value : ℕ) → Array → Outcome (Option ℕ)
unfolding find_from
list_find value l = elim l.block [ none ↦ ok none | some ws ↦ find_from l.index 0 value ws ]

-- the low `r` bytes of `v` in place of those of `w`
abbrev pub low_bytes : (r w v : ℕ) → ℕ
low_bytes r w v = w / 256 ^ r * 256 ^ r + v % 256 ^ r

-- `memcpy` of `n` bytes to the start of the words from the second one on
unfoldable pub shift : (n : ℕ) → List ℕ → List ℕ
shift n [] = []
shift n (w ∷ ws) =
    let rest = shift (n - 4) ws in
    if leb 4 n then get_or ws 0 0 ∷ rest else low_bytes n w (get_or ws 0 0) ∷ ws

unfoldable pub list_rem : (index : ℕ) → Array → Outcome Array
list_rem index l = elim l.block [
  | none ↦ ok l
  | some ws ↦
      let n = sub32 (sub32 l.index index) 1 in
      if ltb l.index index
      then ok l
      else if leb ((index + 1) * 4 + n) (length ws * 4)
      then ok (record l {
        block = some (take index ws ++ shift n (drop index ws));
        index = sub32 l.index 1;
      })
      else fault
]

-- what `free_fn` is called with; without a function nothing is
unfoldable pub list_free : (has_fn : Bool) → Array → Outcome (List ℕ)
list_free has_fn l = elim l.block [
  | none ↦ ok []
  | some ws ↦
      if not has_fn then ok [] else if leb l.index (length ws) then ok (take l.index ws) else fault
]
