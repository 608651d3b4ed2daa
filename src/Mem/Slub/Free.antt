-- ===== src/Mem/Slub/Free.antt =====
-- Objects given back to, and taken from, a slab of kernel/mem/slub.c.
use brackos.Base.{
  ℕ, zero, suc, ◌+◌, ◌<◌, ◌≡◌, ◌≢◌, ◌⊎◌, refl, ◌∙◌, true, false, some, List, [], ◌∷◌, ltb, ◌==◌,
  if◌then◌else◌, Bool-cases, inl, inr, length, arith,
}
use brackos.Base.Outcome.{ok, fault}
use brackos.Mem.Slub.{
  CpuCache, MemCache, Slub, null, write, free_head, slab_from_obj, insert_loop, slab_create_next,
  slab_next, slab_count,
}
use brackos.Mem.Slub.Cache.{find_cache, mem_cache_dealloc, take_object}
use brackos.Mem.Slub.Slab.{Free}

-- All addresses of the list are above `low`, and they grow.
abbrev pub Ascending : (low : ℕ) → List ℕ → Type 0
Ascending low [] = Unit
Ascending low (x ∷ xs) = (low < x) × Ascending x xs

-- the list with `object` in its place, when it is below some element
abbrev pub insert : (object : ℕ) → List ℕ → List ℕ
insert object [] = object ∷ []
insert object (x ∷ xs) = if ltb object x then object ∷ (x ∷ xs) else x ∷ insert object xs

-- `object` is below the last of the list.
abbrev pub Below : (object : ℕ) → List ℕ → Type 0
Below object [] = ⊥
Below object (x ∷ xs) = (object < x) ⊎ ((x < object) × Below object xs)

Free-same :
    (m m' : ℕ → ℕ) (low p : ℕ) (xs : List ℕ)
    → ((q : ℕ) → low < q → m' q ≡ m q)
    → Ascending low xs
    → Free m p xs
    → Free m' p xs
Free-same m m' low p [] f a h = h
Free-same m m' low p (x ∷ xs) f a h =
    (h.0, h.1, rw (f x a.0) (Free-same m m' x (m x) xs (λ q b. f q (omega (arith, a.0))) a.1 h.2))

-- Once the object is placed, the rest of the walk changes nothing.
rest_unchanged :
    (fuel prev p slab : ℕ) (xs : List ℕ) (s : Slub)
    → length xs < fuel
    → Free s.mem p xs
    → (last : ℕ) × (insert_loop fuel null prev p slab s ≡ ok (null, last, s))
unfolding insert_loop
rest_unchanged zero prev p slab xs s h f = absurd (omega arith)
rest_unchanged (suc fuel) prev p slab [] s h f =
    let end : (p == null) ≡ true = ground arith in (prev, rw end refl)
rest_unchanged (suc fuel) prev p slab (x ∷ xs) s h f =
    let more : (p == null) ≡ false = ground (arith, f.1) in
    let (last, e) = rest_unchanged fuel p (s.mem p) slab xs s (omega arith) (rw (f.0) (f.2)) in
    (last, rw more e)

-- the word that leads to the object where the walk stands
abbrev cell : (prev slab : ℕ) → ℕ
cell prev slab = if prev == null then free_head slab else prev

write-cell :
    (prev slab value : ℕ) (s : Slub)
    → (if prev == null then write (free_head slab) value s else write prev value s)
      ≡ write (cell prev slab) value s
write-cell prev slab value s = elim (Bool-cases (prev == null)) [
  | inl e ↦ rw e refl
  | inr ne ↦ rw ne refl
]

placed_here :
    (fuel object prev x slab : ℕ) (s : Slub)
    → x ≢ null
    → 0 < object
    → object < x
    → insert_loop (suc fuel) object prev x slab s ≡ (
        let t = write object x (write (cell prev slab) object s) in
        insert_loop fuel null x (t.mem x) slab t)
unfolding insert_loop
placed_here fuel object prev x slab s f positive below =
    let more : (x == null) ≡ false = ground arith in
    let some' : (object == null) ≡ false = ground arith in
    let here : ltb object x ≡ true = ground arith in
    rw (more, some', here, write-cell prev slab object s) refl

placed_behind :
    (fuel object prev x slab : ℕ) (s : Slub)
    → x ≢ null
    → x < object
    → insert_loop (suc fuel) object prev x slab s ≡ insert_loop fuel object x (s.mem x) slab s
unfolding insert_loop
placed_behind fuel object prev x slab s f above =
    let more : (x == null) ≡ false = ground arith in
    let some' : (object == null) ≡ false = ground arith in
    let here : ltb object x ≡ false = ground arith in rw (more, some', here) refl

insert_loop-insert :
    (fuel object prev p slab : ℕ) (xs : List ℕ) (s : Slub)
    → length xs < fuel
    → cell prev slab < object
    → s.mem (cell prev slab) ≡ p
    → Free s.mem p xs
    → Ascending (cell prev slab) xs
    → Below object xs
    → (last : ℕ) × (t : Slub) × (insert_loop fuel object prev p slab s ≡ ok (null, last, t))
      × Free t.mem (t.mem (cell prev slab)) (insert object xs)
      × ((q : ℕ) → q < cell prev slab → t.mem q ≡ s.mem q)
insert_loop-insert zero object prev p slab xs s h b e f a low = absurd (omega arith)
insert_loop-insert (suc fuel) object prev p slab [] s h b e f a low = absurd low
insert_loop-insert (suc fuel) object prev p slab (x ∷ xs) s h b e f a (inl below) =
    let here : ltb object x ≡ true = ground arith in
    let (last, run) = rest_unchanged fuel x (t.mem x) slab xs t (omega arith) rest in
    (
      last,
      t,
      rw (f.0) (placed_here fuel object prev x slab s f.1 (omega arith) below ∙ run),
      rw (at_cell, here) (refl, ground arith, rw at_object (refl, f.1, rest)),
      λ q c. ground arith,
    )
  where
    t : Slub
    t = write object x (write (cell prev slab) object s)

    at_cell : t.mem (cell prev slab) ≡ object
    at_cell = ground arith

    at_object : t.mem object ≡ x
    at_object = ground arith

    others : (q : ℕ) → object < q → t.mem q ≡ s.mem q
    others q c = ground arith

    rest : Free t.mem (t.mem x) xs
    rest =
        rw (others x below)
          (Free-same s.mem t.mem x (s.mem x) xs (λ q c. others q (omega (arith, below))) a.1 f.2)
insert_loop-insert (suc fuel) object prev p slab (x ∷ xs) s h b e f a (inr above) =
    let behind : ltb object x ≡ false = ground (arith, above.0) in
    let own : cell x slab ≡ x =
      let some : (x == null) ≡ false = ground (arith, f.1) in rw some refl in
    let (last, t, run, free, same) =
      insert_loop-insert fuel object x (s.mem x) slab xs s (omega arith) (rw own above.0)
        (rw own refl) f.2 (rw own a.1) above.1 in
    (
      last,
      t,
      rw (f.0) (placed_behind fuel object prev x slab s f.1 above.0 ∙ run),
      rw (same (cell prev slab) (rw own a.0) ∙ e ∙ f.0, behind) (refl, f.1, rw own at free),
      λ q c. same q (rw own (omega (arith, c, a.0))),
    )

-- `mem_cache_dealloc` of an object of a slab whose free list ascends, below the last free object,
-- returns; the free list then has the object in its place.
pub mem_cache_dealloc-insert :
    (cpu fuel object : ℕ) (name : List ℕ) (c : MemCache) (xs : List ℕ) (s : Slub)
    → find_cache cpu name s.caches ≡ some c
    → slab_from_obj object ≢ null
    → free_head (slab_from_obj object) < object
    → Free s.mem (s.mem (free_head (slab_from_obj object))) xs
    → Ascending (free_head (slab_from_obj object)) xs
    → Below object xs
    → length xs < fuel
    → (t : Slub) × (mem_cache_dealloc cpu fuel name object s ≡ ok t)
      × Free t.mem (t.mem (free_head (slab_from_obj object))) (insert object xs)
unfolding mem_cache_dealloc
mem_cache_dealloc-insert cpu fuel object name c xs s known there inside f a below h =
    let slab = slab_from_obj object in
    let there' : (slab == null) ≡ false = ground arith in
    let (last, t, run, free, _) =
      insert_loop-insert fuel object null (s.mem (free_head slab)) slab xs s h inside refl f a
        below in
    (t, rw (known, mem_cache_dealloc) (rw there' (rw run refl)), free)

-- `mem_cache_dealloc` of an object of a slab that has no free object writes through NULL.
pub mem_cache_dealloc-fault :
    (cpu k object : ℕ) (name : List ℕ) (c : MemCache) (s : Slub)
    → find_cache cpu name s.caches ≡ some c
    → slab_from_obj object ≢ null
    → object ≢ null
    → s.mem (free_head (slab_from_obj object)) ≡ null
    → mem_cache_dealloc cpu (suc k) name object s ≡ fault
unfolding mem_cache_dealloc insert_loop
mem_cache_dealloc-fault cpu k object name c s known there positive full =
    let there' : (slab_from_obj object == null) ≡ false = ground arith in
    let positive' : (object == null) ≡ false = ground arith in
    rw (known, mem_cache_dealloc) (rw (there', full) (rw positive' refl))

-- What `take_object` does to a slab with the free objects `x ∷ xs`: the slab keeps `xs`; without
-- any it goes from the head of `semi` to the head of `full`.
pub record Took (x : ℕ) (xs : List ℕ) (slab : ℕ) (k : CpuCache) (r : ℕ × CpuCache × Slub)
    : Type 0 where
  pub object : r.0 ≡ x
  pub free : Free r.2.mem (r.2.mem (free_head slab)) xs
  pub empty : r.1.empty ≡ k.empty
  pub lists : ((xs ≢ []) × (r.1 ≡ k)) ⊎ ((xs ≡ []) × (r.1.full ≡ slab))

-- `take_object`, the part of `mem_cache_alloc` that takes an object, returns the first object of the
-- slab's free list, when no free object lies in the slab's header.
pub take_object-Took :
    (cpu slab x : ℕ) (xs : List ℕ) (k : CpuCache) (s : Slub)
    → Free s.mem (s.mem (free_head slab)) (x ∷ xs)
    → Ascending (free_head slab) (x ∷ xs)
    → (r : ℕ × CpuCache × Slub) × (take_object cpu slab k s ≡ ok r) × Took x xs slab k r
unfolding take_object
take_object-Took cpu slab x [] k s f a =
    let positive : (x == null) ≡ false = ground (arith, f.1) in
    let self : (slab + 4 == slab + 4) ≡ true = ground arith in
    let other : (slab + 4 == slab) ≡ false = ground arith in
    let other' : (slab == slab + 4) ≡ false = ground arith in
    let none_left : (s.mem x == null) ≡ true = ground (arith, f.2) in
    let t =
      write slab (slab_create_next k.full (slab_count (s.mem slab)))
        (write (slab + 4) (s.mem x) s) in
    (
      (x, record k { semi = slab_next (s.mem slab); full = slab }, t),
      rw (f.0) (rw (positive, self, other') (rw none_left refl)),
      record {
        object = refl;
        free = rw (other, self) (f.2);
        empty = refl;
        lists = inr (refl, refl);
      },
    )
take_object-Took cpu slab x (y ∷ ys) k s f a =
    let positive : (x == null) ≡ false = ground (arith, f.1) in
    let self : (slab + 4 == slab + 4) ≡ true = ground arith in
    let some_left : (s.mem x == null) ≡ false = ground (arith, f.2.0, f.2.1) in
    let t = write (slab + 4) (s.mem x) s in
    let at_y : (y == slab + 4) ≡ false = ground (arith, a.0, a.1.0) in
    (
      (x, k, t),
      rw (f.0) (rw (positive, self) (rw some_left refl)),
      record {
        object = refl;
        free = rw self (
          f.2.0,
          f.2.1,
          rw at_y (
              Free-same s.mem t.mem y (s.mem y) ys (λ q b. ground (arith, b, a.0, a.1.0)) a.1.1
                f.2.2),
        );
        empty = refl;
        lists = inl (cc, refl);
      },
    )
