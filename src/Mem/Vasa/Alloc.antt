-- ===== src/Mem/Vasa/Alloc.antt =====
-- `vasa_alloc` of kernel/mem/vasa.c without an alignment flag.
use brackos.Base.{
  ℕ, zero, suc, ◌+◌, ◌^◌, ◌≤◌, ◌<◌, ◌≡◌, ◌≢◌, refl, sym, ap, ◌∙◌, ◌⊎◌, true, false, List, [], ◌∷◌,
  leb, ◌==◌, Bool-cases, inl, inr, length, arith,
}
use brackos.Base.Outcome.{ok, Returns, returns, Returns-ok, Returns-mono, ok-injective}
use brackos.Base.Word.{add32}
use brackos.Mem.Vasa.{Vasa, null, release, acquire, padding, alloc_loop, vasa_alloc}
use mathlib.Core.Path.{subst}
use brackos.Mem.Vasa.Chain.{NotIn, covers, cover, NotIn-null, IsValid}
use brackos.Mem.Vasa.Insert.{link-same, link, covers-same}
use brackos.Mem.Vasa.Taken.{chunk, Taken, NoneFits, Ready}
use brackos.Mem.Vasa.Cut.{alloc_found-Taken}

module _ (fuel type size flags n p : ℕ) (rest used : List ℕ) where
  walk-Taken :
      (prev x : ℕ) (ys : List ℕ) (s : Vasa) (r : ℕ × Vasa)
      → Ready fuel type size flags n p rest used prev (x ∷ ys) s
      → Taken n x ys used size p s r
      → Taken n prev (x ∷ ys) used size p s r
  walk-Taken prev x ys s r h t = record {
    free_items = x ∷ t.free_items;
    used_items = t.used_items;
    free_chain = (at_prev, some_x, rw some_x' at t.free_chain);
    used_chain = t.used_chain;
    free_distinct = (t.free_within x h.free_distinct.0, t.free_distinct);
    used_distinct = t.used_distinct;
    apart = (t.used_within x (λ e. h.n_free.0 (sym e)) h.free_distinct.0 h.apart.0, t.apart);
    free_chunks = (rw (t.prev_base some_x, t.prev_length some_x) (h.free_chunks.0), t.free_chunks);
    used_chunks = t.used_chunks;
    free_within = λ q a. (a.0, t.free_within q a.1);
    used_within = λ q a b d. t.used_within q a b.1 d;
    free_covered = omega (
      arith,
      t.free_covered,
      covers-same (r.1.mem x) (s.mem x) p (t.prev_base some_x) (t.prev_length some_x),
    );
    used_covered = t.used_covered;
    prev_base = λ a. ap (λ k. k.base) (same_prev a);
    prev_length = λ a. ap (λ k. k.length) (same_prev a);
    outside = λ q z a b d e. t.outside q z d.0 b d.1 e;
    same_head = λ a. t.same_head some_x;
    unlocked = t.unlocked;
  }
    where
      some_x : x ≢ null
      some_x = h.free_chain.1

      some_x' : (x == null) ≡ false
      some_x' = ground arith

      same_prev : prev ≢ null → r.1.mem prev ≡ s.mem prev
      same_prev a = t.outside prev a h.prev_free.0 (λ e. h.n_prev (sym e)) h.prev_free.1 h.prev_used

      at_prev : link false prev r.1 ≡ x
      at_prev = link-same false prev s r.1 (t.same_head some_x) same_prev ∙ h.free_chain.0

  -- the walk at `x`, when `x` is too short
  walk-Ready :
      (prev x : ℕ) (ys : List ℕ) (s : Vasa)
      → Ready fuel type size flags n p rest used prev (x ∷ ys) s
      → Ready fuel type size flags n p rest used x ys s
  walk-Ready prev x ys s h = record {
    no_pad = h.no_pad;
    some_size = h.some_size;
    small = h.small;
    enough = h.enough;
    stock = h.stock;
    n_some = h.n_some;
    n_free = h.n_free.1;
    n_used = h.n_used;
    n_prev = h.n_free.0;
    prev_free = h.free_distinct.0;
    prev_used = h.apart.0;
    free_chain = rw some_x h.free_chain.2;
    used_chain = h.used_chain;
    free_distinct = h.free_distinct.1;
    used_distinct = h.used_distinct;
    apart = h.apart.1;
    free_chunks = h.free_chunks.1;
    used_chunks = h.used_chunks;
  }
    where
      some_x : (x == null) ≡ false
      some_x = ground (arith, h.free_chain.1)

  -- What the walk ends with: NULL when no node is long enough, or a chunk.
  Answered : (prev : ℕ) → List ℕ → Vasa → ℕ × Vasa → Type 0
  Answered prev xs s r =
      (NoneFits s.mem size xs × (r ≡ (null, release s))) ⊎ Taken n prev xs used size p s r

  walk-Answered :
      (prev x : ℕ) (ys : List ℕ) (s : Vasa) (r : ℕ × Vasa)
      → Ready fuel type size flags n p rest used prev (x ∷ ys) s
      → leb size (s.mem x).length ≡ false
      → Answered x ys s r
      → Answered prev (x ∷ ys) s r
  unfolding Answered
  walk-Answered prev x ys s r h short (inl a) = inl ((ground arith, a.0), a.1)
  walk-Answered prev x ys s r h short (inr t) = inr (walk-Taken prev x ys s r h t)

  alloc_loop-Answered :
      (k prev head : ℕ) (xs : List ℕ) (s : Vasa)
      → length xs < k
      → head ≡ link false prev s
      → Ready fuel type size flags n p rest used prev xs s
      → Returns (Answered prev xs s) (alloc_loop fuel k type size flags prev head s)
  unfolding alloc_loop Answered
  alloc_loop-Answered zero prev head xs s hk e h = absurd (omega arith)
  alloc_loop-Answered (suc k) prev head [] s hk e h =
      let none_left : (head == null) ≡ true = ground (arith, e ∙ h.free_chain) in
      rw none_left (returns (inl (tt, refl)))
  alloc_loop-Answered (suc k) prev head (x ∷ ys) s hk e h =
      let here : head ≡ x = e ∙ h.free_chain.0 in
      let some_left : (head == null) ≡ false = ground (arith, h.free_chain.1) in
      let some_x : (x == null) ≡ false = ground (arith, h.free_chain.1) in
      let same : add32 size 0 ≡ size = ground (arith, h.small) in
      rw (some_left, h.no_pad, here, same)
        (elim (Bool-cases (leb size (s.mem x).length)) [
          | inl fits ↦ rw fits (
              Returns-mono (λ r t. inr t)
                (alloc_found-Taken fuel type size flags n p rest used x prev ys s h fits))
          | inr short ↦ rw short (
              Returns-mono (λ r. walk-Answered prev x ys s r h short)
                (alloc_loop-Answered k x (s.mem x).next ys s (omega arith) (rw some_x refl)
                  (walk-Ready prev x ys s h)))
        ])

-- What `vasa_alloc` needs besides valid lists: the lock is free, the heap has a node `n` to give,
-- and the walks have fuel.
pub record CanAlloc (fuel n : ℕ) (rest free used : List ℕ) (s : Vasa) : Type 0 where
  pub valid : IsValid s free used
  pub unlocked : s.lock ≡ false
  pub stock : s.supply ≡ n ∷ rest
  pub n_some : n ≢ null
  pub n_free : NotIn n free
  pub n_used : NotIn n used
  pub free_fuel : length free < fuel
  pub used_fuel : length used < fuel

-- What `vasa_alloc` answers, seen at the address `p`.
abbrev pub Allocated : (size p : ℕ) → (free used : List ℕ) → (s : Vasa) → ℕ × Vasa → Type 0
Allocated size p free used s (ptr, t) =
    (NoneFits s.mem size free × (ptr ≡ null) × (t ≡ s))
    ⊎ ((free' : List ℕ) × (used' : List ℕ) × IsValid t free' used'
        × (t.lock ≡ false)
        × (cover t.mem free' p + covers (chunk ptr size) p ≡ cover s.mem free p)
        × (cover t.mem used' p ≡ cover s.mem used p + covers (chunk ptr size) p))

locked_first :
    (fuel type size flags : ℕ) (s : Vasa)
    → 0 < size
    → s.lock ≡ false
    → vasa_alloc fuel type size flags s
      ≡ alloc_loop fuel fuel type size flags null s.free_head (record s { lock = true })
unfolding vasa_alloc acquire
locked_first fuel type size flags s some_size free =
    let sized : (size == 0) ≡ false = ground arith in rw sized (simp free)

-- `vasa_alloc` of a size above 0, without an alignment flag, on valid lists: it returns. Either no
-- free node is that long, and it answers NULL and leaves the state as it was; or the lists are
-- valid again and the lock is free, and at every address the free list has lost, and the used list
-- has gained, exactly the chunk of `size` bytes at the answer.
pub vasa_alloc-Allocated :
    (fuel type size flags n p : ℕ) (rest free used : List ℕ) (s : Vasa)
    → CanAlloc fuel n rest free used s
    → padding flags ≡ 0
    → 0 < size
    → size < 2 ^ 32
    → (r : ℕ × Vasa) × (vasa_alloc fuel type size flags s ≡ ok r) × Allocated size p free used s r
unfolding Answered
vasa_alloc-Allocated fuel type size flags n p rest free used s h no_pad some_size small =
    rw (locked_first fuel type size flags s some_size h.unlocked) (
      Returns-ok (
        Returns-mono answer (
          alloc_loop-Answered fuel type size flags n p rest used fuel null s.free_head free locked
            h.free_fuel refl ready)))
  where
    locked : Vasa
    locked = record s { lock = true }

    v : IsValid s free used
    v = h.valid

    ready : Ready fuel type size flags n p rest used null free locked
    ready = record {
      no_pad = no_pad;
      some_size = some_size;
      small = small;
      enough = h.used_fuel;
      stock = h.stock;
      n_some = h.n_some;
      n_free = h.n_free;
      n_used = h.n_used;
      n_prev = h.n_some;
      prev_free = NotIn-null s.mem s.free_head free v.free_chain;
      prev_used = NotIn-null s.mem s.used_head used v.used_chain;
      free_chain = v.free_chain;
      used_chain = v.used_chain;
      free_distinct = v.free_distinct;
      used_distinct = v.used_distinct;
      apart = v.apart;
      free_chunks = v.free_chunks;
      used_chunks = v.used_chunks;
    }

    restored : record s { lock = false } ≡ s
    restored = rw⁻¹ h.unlocked refl

    answer :
        (r : ℕ × Vasa)
        → Answered fuel type size flags n p rest used null free locked r
        → Allocated size p free used s r
    answer r (inl (a, e)) = inl (a, ap (λ k. k.0) e, ap (λ k. k.1) e ∙ restored)
    answer r (inr t) = inr (
      t.free_items,
      t.used_items,
      record {
        free_chain = t.free_chain;
        used_chain = t.used_chain;
        free_distinct = t.free_distinct;
        used_distinct = t.used_distinct;
        apart = t.apart;
        free_chunks = t.free_chunks;
        used_chunks = t.used_chunks;
      },
      t.unlocked,
      t.free_covered,
      t.used_covered,
    )

-- If `vasa_alloc` of a size above 0, without an alignment flag, answers a chunk, on valid lists of which no
-- two chunks share an address, with the lock free and a node at hand, then the chunk shares none with a
-- chunk that was in use, and still no two chunks share one.
pub vasa_alloc-fresh :
    (fuel type size flags n p ptr : ℕ) (rest free used : List ℕ) (s t : Vasa)
    → CanAlloc fuel n rest free used s
    → padding flags ≡ 0
    → 0 < size
    → size < 2 ^ 32
    → vasa_alloc fuel type size flags s ≡ ok (ptr, t)
    → ptr ≢ null
    → cover s.mem free p + cover s.mem used p ≤ 1
    → (free' : List ℕ) × (used' : List ℕ) × IsValid t free' used'
      × (covers (chunk ptr size) p + cover s.mem used p ≤ 1)
      × (cover t.mem free' p + cover t.mem used' p ≤ 1)
vasa_alloc-fresh fuel type size flags n p ptr rest free used s t h no_pad some_size small run there
      once =
    elim answer [
      | inl a ↦ absurd (there a.1)
      | inr (free', used', v, _, e0, e1) ↦ (free', used', v, omega arith, omega arith)
    ]
  where
    answer : Allocated size p free used s (ptr, t)
    answer =
        let (r, run', a) =
          vasa_alloc-Allocated fuel type size flags n p rest free used s h no_pad some_size small in
        subst (Allocated size p free used s) (sym (ok-injective (sym run ∙ run'))) a
