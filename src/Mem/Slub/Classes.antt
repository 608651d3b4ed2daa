-- ===== src/Mem/Slub/Classes.antt =====
-- The sizes of kernel/mem/slub.c that `_kmalloc` serves.
use brackos.Base.{
  ℕ, ◌-◌, ◌/◌, ◌≤◌, ◌<◌, ◌≡◌, refl, sym, false, List, [], ◌∷◌, ltb, ◌==◌, if◌then◌else◌, Bool-cases,
  inl, inr, arith, ◌⊎◌, length, get_or, zero, suc,
}
use mathlib.Core.Path.{subst}
use brackos.Base.Outcome.{ok, fault}
use brackos.Mem.Slub.{
  Slub, null, header_size, slab_size, next_slab, slab_count, slab_from_obj, object_count,
  kmalloc_sizes, block_for, kmalloc_block_for_size, block_above, kmalloc_get_block,
}
use brackos.Mem.Slub.Cache.{kmalloc_small}

-- `P` at all elements
abbrev pub AllOf : (P : ℕ → Type 0) → List ℕ → Type 0
AllOf P [] = Unit
AllOf P (x ∷ xs) = P x × AllOf P xs

-- No size of the list that is larger than `size` is below `block`.
abbrev pub IsLeast : (size block : ℕ) → List ℕ → Type 0
IsLeast size block = AllOf (λ c. size < c → block ≤ c)

abbrev pub Grows : (low : ℕ) → List ℕ → Type 0
Grows low [] = Unit
Grows low (x ∷ xs) = (low ≤ x) × Grows x xs

IsLeast-below :
    (size low block : ℕ) (cs : List ℕ) → block ≤ low → Grows low cs → IsLeast size block cs
IsLeast-below size low block [] h g = tt
IsLeast-below size low block (c ∷ cs) h g =
    (λ _. omega (arith, g.0), IsLeast-below size c block cs (omega (arith, g.0)) g.1)

block_for-IsLeast :
    (size low : ℕ) (cs : List ℕ) → Grows low cs → IsLeast size (block_for size cs) cs
unfolding block_for
block_for-IsLeast size low [] g = tt
block_for-IsLeast size low (c ∷ cs) g = elim (Bool-cases (ltb size c)) [
  | inl e ↦
      let first : block_for size (c ∷ cs) ≡ c = rw e refl in
      subst (λ b. IsLeast size b (c ∷ cs)) (sym first)
        (λ _. omega arith, IsLeast-below size c c cs (omega arith) g.1)
  | inr ne ↦
      let later : block_for size (c ∷ cs) ≡ block_for size cs = rw ne refl in
      subst (λ b. IsLeast size b (c ∷ cs)) (sym later)
        (λ h. absurd (ground arith), block_for-IsLeast size c cs g.1)
]

above : (size : ℕ) → size < 4096 → size < kmalloc_block_for_size size
unfolding kmalloc_block_for_size block_for
above size h = ground arith

beyond : (size : ℕ) → 4096 ≤ size → kmalloc_block_for_size size ≡ 0
unfolding kmalloc_block_for_size block_for
beyond size h = ground arith

ascending : Grows 0 kmalloc_sizes
ascending = ground arith

-- `_kmalloc_block_for_size` of less than 4096 bytes is the smallest of the sizes that is larger; from
-- 4096 bytes on there is none, and `_kmalloc` answers NULL, though `kmalloc` hands it 4096 bytes.
pub kmalloc_block_for_size-IsLeast :
    (cpu : ℕ) (name_of : ℕ → List ℕ) (fuel size : ℕ) (s : Slub)
    → ((size < 4096)
        × (size < kmalloc_block_for_size size)
        × IsLeast size (kmalloc_block_for_size size) kmalloc_sizes)
      ⊎ ((4096 ≤ size) × (kmalloc_small cpu name_of fuel size s ≡ ok (null, s)))
unfolding kmalloc_block_for_size kmalloc_small
kmalloc_block_for_size-IsLeast cpu name_of fuel size s = elim (Bool-cases (ltb size 4096)) [
  | inl e ↦
      inl
        (ground arith, above size (ground arith), block_for-IsLeast size 0 kmalloc_sizes ascending)
  | inr ne ↦
      let sized : (size == 0) ≡ false = ground arith in
      inr (ground arith, rw (sized, beyond size (ground arith)) refl)
]

-- what `_kmalloc_get_block` answers for an object of a cache of objects of `size` bytes
abbrev pub Recovers : (answer size : ℕ) → Type 0
Recovers answer size =
    (object : ℕ) (s : Slub)
    → slab_count (s.mem (next_slab (slab_from_obj object))) ≡ object_count size
    → kmalloc_get_block object s ≡ ok answer

recovered :
    (answer size : ℕ)
    → (if object_count size == 0
        then fault
        else ok (block_above ((slab_size - header_size) / object_count size) 16 kmalloc_sizes))
      ≡ ok answer
    → Recovers answer size
unfolding kmalloc_get_block
recovered answer size e object s h = rw h e

all-Recovers :
    AllOf
      (λ size. Recovers size size)
      (16
        ∷ (32
            ∷ (64
                ∷ (92
                    ∷ (128
                        ∷ (196 ∷ (256 ∷ (384 ∷ (512 ∷ (768 ∷ (1024 ∷ (1363 ∷ (2048 ∷ [])))))))))))))
    × Recovers 0 4096
unfolding object_count block_above
all-Recovers = (
  (
    recovered 16 16 refl,
    (
      recovered 32 32 refl,
      (
        recovered 64 64 refl,
        (
          recovered 92 92 refl,
          (
            recovered 128 128 refl,
            (
              recovered 196 196 refl,
              (
                recovered 256 256 refl,
                (
                  recovered 384 384 refl,
                  (
                    recovered 512 512 refl,
                    (
                      recovered 768 768 refl,
                      (
                        recovered 1024 1024 refl,
                        (recovered 1363 1363 refl, (recovered 2048 2048 refl, tt)),
                      ),
                    ),
                  ),
                ),
              ),
            ),
          ),
        ),
      ),
    ),
  ),
  recovered 0 4096 refl,
)

AllOf-get_or :
    (P : ℕ → Type 0) (xs : List ℕ) (i : ℕ) → AllOf P xs → i < length xs → P (get_or xs i 0)
AllOf-get_or P [] i h l = absurd (omega arith)
AllOf-get_or P (x ∷ xs) zero h l = h.0
AllOf-get_or P (x ∷ xs) (suc i) h l = AllOf-get_or P xs i h.1 (omega arith)

-- the sizes whose slabs have more than one object, and that of which a slab has just one
abbrev pub shared_sizes : List ℕ
shared_sizes =
    16
    ∷ (32
        ∷ (64
            ∷ (92 ∷ (128 ∷ (196 ∷ (256 ∷ (384 ∷ (512 ∷ (768 ∷ (1024 ∷ (1363 ∷ (2048 ∷ []))))))))))))

-- `_kmalloc_get_block`, for an object of a slab that `mem_slab_new` made for one of the thirteen
-- smaller sizes, finds that size from the count in the slab's header.
pub kmalloc_get_block-size :
    (i object : ℕ) (s : Slub)
    → i < 13
    → slab_count (s.mem (next_slab (slab_from_obj object))) ≡ object_count (get_or shared_sizes i 0)
    → kmalloc_get_block object s ≡ ok (get_or shared_sizes i 0)
kmalloc_get_block-size i object s h =
    AllOf-get_or (λ size. Recovers size size) shared_sizes i all-Recovers.0 h object s
