-- ===== src/Mem/Slub/Slab.antt =====
-- `mem_slab_new` of kernel/mem/slub.c: the free list of a new slab.
use brackos.Base.{
  ℕ, zero, suc, ◌+◌, ◌-◌, ◌*◌, ◌/◌, ◌%◌, ◌^◌, ◌≤◌, ◌<◌, ◌≡◌, ◌≢◌, refl, sym, ap, ◌∙◌, false, List,
  [], ◌∷◌, ◌++◌, ◌==◌, arith,
}
use mathlib.Core.Path.{subst}
use native.Mathlib.Nat.{mod-lt, mod_self, suc-mod, div-add-mod'}
use brackos.Base.Outcome.{ok}
use brackos.Base.Word.{add32}
use brackos.Mem.Slub.{
  Slub, null, slab_size, header_size, write, next_slab, free_head, slab_create_next, object_count,
  init_free, mem_slab_new,
}

-- From `p` the first words of the objects lead through `xs` to NULL.
abbrev pub Free : (ℕ → ℕ) → ℕ → List ℕ → Type 0
Free m p [] = p ≡ null
Free m p (x ∷ xs) = (p ≡ x) × (x ≢ null) × Free m (m x) xs

-- `count` objects and one more, `size` apart
abbrev pub objects : (count at size : ℕ) → List ℕ
objects zero at size = at ∷ []
objects (suc count) at size = at ∷ objects count (at + size) size

-- the last of them
abbrev pub last : (count at size : ℕ) → ℕ
last zero at size = at
last (suc count) at size = last count (at + size) size

pub last-le : (count at size : ℕ) → at ≤ last count at size
last-le zero at size = omega arith
last-le (suc count) at size = let h = last-le count (at + size) size in omega arith

init_free-step :
    (count at size : ℕ) (s : Slub)
    → last count (at + size) size < 2 ^ 32
    → init_free (suc count) at size s ≡ init_free count (at + size) size (write at (at + size) s)
unfolding init_free
init_free-step count at size s h =
    let le = last-le count (at + size) size in
    let step : add32 at size ≡ at + size = ground arith in rw step refl

init_free-below :
    (count at size q : ℕ) (s : Slub)
    → last count at size < 2 ^ 32
    → q < at
    → (init_free count at size s).mem q ≡ s.mem q
unfolding init_free
init_free-below zero at size q s h b = ground arith
init_free-below (suc count) at size q s h b = rw (init_free-step count at size s h) (
    init_free-below count (at + size) size q (write at (at + size) s) h (omega arith)
    ∙ ground arith)

init_free-Free :
    (count at size : ℕ) (s : Slub)
    → 0 < at
    → 0 < size
    → last count at size < 2 ^ 32
    → Free (init_free count at size s).mem at (objects count at size)
unfolding init_free
init_free-Free zero at size s a b h = (refl, ground arith, ground arith)
init_free-Free (suc count) at size s a b h =
    let here : (init_free count (at + size) size (write at (at + size) s)).mem at ≡ at + size =
      init_free-below count (at + size) size at (write at (at + size) s) h (omega arith)
      ∙ ground arith in
    subst (λ t. Free t.mem at (objects (suc count) at size))
      (sym (init_free-step count at size s h))
      (
        refl,
        ground arith,
        rw here (init_free-Free count (at + size) size (write at (at + size) s) (omega arith) b h),
      )

-- `mem_slab_new` of objects of `size` bytes, which is 4 or more, so that the first words of two objects do not
-- overlap, when `memmap` gives a slab that does not wrap, returns the slab with one object more in
-- its free list than the count in its header: they follow each other, `size` apart, from the end of
-- the header on.
pub mem_slab_new-Free :
    (size slab : ℕ) (rest : List ℕ) (s : Slub)
    → s.supply ≡ slab ∷ rest
    → 4 ≤ size
    → last (object_count size) (slab + header_size) size < 2 ^ 32
    → (t : Slub) × (mem_slab_new size s ≡ ok (slab, t))
      × Free t.mem (t.mem (free_head slab)) (objects (object_count size) (slab + header_size) size)
      × (t.mem (next_slab slab) ≡ slab_create_next null (object_count size))
unfolding mem_slab_new
mem_slab_new-Free size slab rest s stock some h =
    let sized : (size == 0) ≡ false = ground arith in
    let head : (init_free (object_count size) (slab + 8) size u).mem (slab + 4) ≡ slab + 8 =
      init_free-below (object_count size) (slab + 8) size (slab + 4) u h (omega arith)
      ∙ ground arith in
    let next : (init_free (object_count size) (slab + 8) size u).mem slab
        ≡ slab_create_next null (object_count size) =
      init_free-below (object_count size) (slab + 8) size slab u h (omega arith) ∙ ground arith in
    (
      init_free (object_count size) (slab + 8) size u,
      rw stock (rw sized refl),
      rw head (init_free-Free (object_count size) (slab + 8) size u (omega arith) (omega arith) h),
      next,
    )
  where
    u : Slub
    u =
        write (next_slab slab) (slab_create_next null (object_count size))
          (write (free_head slab) (slab + header_size) (record s { supply = rest }))

last-eq : (count at size : ℕ) → last count at size ≡ at + count * size
last-eq zero at size = grind arith
last-eq (suc count) at size = last-eq count (at + size) size ∙ grind arith

last-overruns :
    (size slab : ℕ)
    → 0 < size
    → (slab_size - header_size) % size ≢ 0
    → slab + slab_size < last (object_count size) (slab + header_size) size + size
unfolding object_count
last-overruns size slab some h =
    let div = div-add-mod' 8183 size in
    let small = mod-lt 8183 some in
    let short : suc (8183 % size) ≢ size =
      λ e. h (suc-mod 8183 size ∙ ap (λ k. k % size) e ∙ mod_self size) in
    rw (last-eq (8183 / size) (slab + 8) size) (omega (arith, div, small, short))

objects-last :
    (count at size : ℕ)
    → (front : List ℕ) × (objects count at size ≡ front ++ (last count at size ∷ []))
objects-last zero at size = ([], refl)
objects-last (suc count) at size =
    let (front, e) = objects-last count (at + size) size in (at ∷ front, ap (λ xs. at ∷ xs) e)

-- Unless a slab without its header is a whole number of objects, `mem_slab_new` leaves a free list
-- whose last object runs past the end of the slab.
pub mem_slab_new-overruns :
    (size slab : ℕ) (rest : List ℕ) (s : Slub)
    → s.supply ≡ slab ∷ rest
    → 4 ≤ size
    → last (object_count size) (slab + header_size) size < 2 ^ 32
    → (slab_size - header_size) % size ≢ 0
    → (t : Slub) × (front : List ℕ) × (object : ℕ) × (mem_slab_new size s ≡ ok (slab, t))
      × Free t.mem (t.mem (free_head slab)) (front ++ (object ∷ []))
      × (slab + slab_size < object + size)
mem_slab_new-overruns size slab rest s stock some h odd =
    let (t, e, free, _) = mem_slab_new-Free size slab rest s stock some h in
    let (front, same) = objects-last (object_count size) (slab + header_size) size in
    (
      t,
      front,
      last (object_count size) (slab + header_size) size,
      e,
      subst (Free t.mem (t.mem (free_head slab))) same free,
      last-overruns size slab (omega arith) odd,
    )
