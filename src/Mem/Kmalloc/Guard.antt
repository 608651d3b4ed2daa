-- ===== src/Mem/Kmalloc/Guard.antt =====
-- The early heap of kernel/mem/early.c, and the guards of kernel/mem/kmalloc.c that mean to protect it.
use brackos.Base.{
  ℕ, ◌+◌, ◌^◌, ◌≤◌, ◌<◌, ◌≡◌, ◌≢◌, inl, inr, refl, sym, ap, ◌∙◌, Bool, true, false, ltb, leb, ◌==◌,
  if◌then◌else◌, Bool-cases, List, [], ◌∷◌, arith, ◌⊎◌,
}
use mathlib.Core.Path.{subst}
use brackos.Base.Outcome.{Outcome, ok, fault, hang, out_of_fuel, ◌>>=◌}
use brackos.Base.Word.{add32}
use brackos.Mem.Kmalloc.{
  Heap, start, early_kmalloc_init, early_kmalloc, kmem_swap, Allocators, kmalloc, kfree, Reached,
  started, initialised, allocated, swapped,
}

early_kmalloc-fits :
    (size : ℕ) (h : Heap)
    → h.early_memory_base ≢ 0
    → h.early_memory_base + size < 2 ^ 32
    → (h.early_memory_base + size ≤ h.early_memory_end
        → early_kmalloc size h
          ≡ ok (h.early_memory_base, record h { early_memory_base = h.early_memory_base + size }))
      × (h.early_memory_end < h.early_memory_base + size → early_kmalloc size h ≡ hang)
unfolding early_kmalloc
early_kmalloc-fits size h active fits =
    let active' : (h.early_memory_base == 0) ≡ false = ground arith in
    let no_wrap : add32 h.early_memory_base size ≡ h.early_memory_base + size = ground arith in
    (
      λ room.
          let room' : ltb h.early_memory_end (h.early_memory_base + size) ≡ false = ground arith in
          simp (active', no_wrap, room'),
      λ full.
          let full' : ltb h.early_memory_end (h.early_memory_base + size) ≡ true = ground arith in
          simp (active', no_wrap, full'),
    )

-- one block after another
abbrev pub early_blocks : List ℕ → Heap → Outcome (List ℕ × Heap)
early_blocks [] h = ok ([], h)
early_blocks (size ∷ sizes) h =
    early_kmalloc size h >>= λ (p, k). early_blocks sizes k >>= λ (ps, l). ok (p ∷ ps, l)

abbrev pub total : List ℕ → ℕ
total [] = 0
total (size ∷ sizes) = size + total sizes

-- where blocks start that follow each other from `p` on
abbrev pub starts : (p : ℕ) → List ℕ → List ℕ
starts p [] = []
starts p (size ∷ sizes) = p ∷ starts (p + size) sizes

at_base :
    {a b : ℕ} (ps : List ℕ) (h : Heap)
    → a ≡ b
    → ◌≡◌ {A = Outcome (List ℕ × Heap)}
        (ok (ps, record h { early_memory_base = a }))
        (ok (ps, record h { early_memory_base = b }))
at_base ps h e = ap (λ k. ok (ps, record h { early_memory_base = k })) e

-- Blocks from an active early heap, of sizes that do not wrap the address: if all fit they follow
-- each other without a gap from the first free byte on, and the heap moves behind the last; if not,
-- one of the calls of `early_kmalloc` spins for ever.
pub early_kmalloc-starts :
    (sizes : List ℕ) (h : Heap)
    → h.early_memory_base ≢ 0
    → h.early_memory_base ≤ h.early_memory_end
    → h.early_memory_base + total sizes < 2 ^ 32
    → ((h.early_memory_base + total sizes ≤ h.early_memory_end)
        × (early_blocks sizes h
            ≡ ok (
              starts h.early_memory_base sizes,
              record h { early_memory_base = h.early_memory_base + total sizes },
            )))
      ⊎ ((h.early_memory_end < h.early_memory_base + total sizes) × (early_blocks sizes h ≡ hang))
early_kmalloc-starts [] h active inside fits = inl (omega arith, at_base [] h (omega arith))
early_kmalloc-starts (size ∷ sizes) h active inside fits =
    let one = early_kmalloc-fits size h active (omega arith) in
    elim (Bool-cases (ltb h.early_memory_end (h.early_memory_base + size))) [
      | inl full ↦ inr (ground arith, rw (one.1 (ground arith)) refl)
      | inr room ↦
          elim (early_kmalloc-starts sizes moved (ground arith) (ground arith) (omega arith)) [
            | inl (fit, e) ↦ inl (
              omega (arith, fit),
              rw (one.0 (ground arith))
                  (rw e (at_base (starts h.early_memory_base (size ∷ sizes)) h (omega arith))),
            )
            | inr (full, e) ↦ inr (omega (arith, full), rw (one.0 (ground arith)) (rw e refl))
          ]
    ]
  where
    moved : Heap
    moved = record h { early_memory_base = h.early_memory_base + size }

-- What a call leaves of the two variables that the guards read.
abbrev Kept : (h k : Heap) → Type 0
Kept h k = (k.kern_mem_early ≡ h.kern_mem_early) × (k.kernel_mem_end ≡ h.kernel_mem_end)

abbrev KeepsEarly : Heap → Outcome (ℕ × Heap) → Type 0
KeepsEarly h (ok (p, k)) = Kept h k
KeepsEarly h fault = Unit
KeepsEarly h hang = Unit
KeepsEarly h out_of_fuel = Unit

abbrev Keeps : {S : Type 0} → Heap → Outcome (ℕ × Heap × S) → Type 0
Keeps h (ok (p, k, s)) = Kept h k
Keeps h fault = Unit
Keeps h hang = Unit
Keeps h out_of_fuel = Unit

early_kmalloc-KeepsEarly : (size : ℕ) (h : Heap) → KeepsEarly h (early_kmalloc size h)
unfolding early_kmalloc
early_kmalloc-KeepsEarly size h = elim (Bool-cases (h.early_memory_base == 0)) [
  | inl e ↦ rw e (refl, refl)
  | inr ne ↦ elim (Bool-cases (ltb h.early_memory_end (add32 h.early_memory_base size))) [
    | inl full ↦ rw (ne, full) tt
    | inr room ↦ rw (ne, room) (refl, refl)
  ]
]

module _ {S : Type 0} (a : Allocators S) where
  same_heap : (h : Heap) (r : Outcome (ℕ × S)) → Keeps h (r >>= λ (p, t). ok (p, h, t))
  same_heap h (ok (p, t)) = (refl, refl)
  same_heap h fault = tt
  same_heap h hang = tt
  same_heap h out_of_fuel = tt

  same_state :
      (h : Heap) (s : S) (r : Outcome (ℕ × Heap))
      → KeepsEarly h r
      → Keeps h (r >>= λ (p, k). ok (p, k, s))
  same_state h s (ok (p, k)) e = e
  same_state h s fault e = tt
  same_state h s hang e = tt
  same_state h s out_of_fuel e = tt

  either :
      (h : Heap) (b : Bool) (x y : Outcome (ℕ × Heap × S))
      → Keeps h x
      → Keeps h y
      → Keeps h (if b then x else y)
  either h true x y hx hy = hx
  either h false x y hx hy = hy

  kmalloc-Keeps : (count : ℕ) (h : Heap) (s : S) → Keeps h (kmalloc a count h s)
  unfolding kmalloc
  kmalloc-Keeps count h s =
      either h h.kern_mem_early _ _
        (same_state h s (early_kmalloc count h) (early_kmalloc-KeepsEarly count h))
        (either h (leb count 4096) _ _ (same_heap h (a.small_alloc count s))
          (same_heap h (a.large_alloc count s)))

  unset : (h : Heap) → Reached a h → h.kern_mem_early ≡ true → h.kernel_mem_end ≡ 0
  unfolding start early_kmalloc_init kmem_swap
  unset h started e = refl
  unset h (initialised {h = g} from size r) e = unset g r e
  unset h (allocated {h = g} s t count p r run) e =
      let kept = subst (Keeps g) run (kmalloc-Keeps count g s) in
      kept.1 ∙ unset g r (sym kept.0 ∙ e)
  unset h (swapped r) e = absurd cc

-- In every heap that the kernel's calls lead to, the guard of `kfree` for early memory is off:
-- `kernel_mem_end` is 0 as long as the early heap is in use. So each call goes to the allocators.
pub kfree-unguarded :
    {S : Type 0} (a : Allocators S) (addr : ℕ) (h : Heap) (s : S)
    → Reached a h
    → kfree a addr h s ≡ (
        a.small_free addr s >>= λ (known, t).
        if known then ok t else a.large_free addr t >>= λ (_, u). ok u)
unfolding kfree
kfree-unguarded a addr h s r = elim (Bool-cases (h.kern_mem_early)) [
  | inl e ↦ let none : ltb addr 0 ≡ false = ground arith in rw (e, unset a h r e, none) refl
  | inr ne ↦ rw ne refl
]
