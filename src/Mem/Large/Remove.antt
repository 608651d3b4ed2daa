-- ===== src/Mem/Large/Remove.antt =====
-- What the calls of kernel/mem/large.c do to the list of large blocks.
use brackos.Base.{
  ℕ, ◌*◌, ◌/◌, ◌%◌, ◌^◌, ◌≡◌, ◌≢◌, refl, sym, ap, ◌∙◌, false, [], ◌∷◌, ltb, ◌==◌, Bool-cases, inl,
  inr, ◌⊎◌, arith,
}
use brackos.Base.Outcome.{ok, ok-injective}
use brackos.Mem.Large.{
  Lmem, null, cas, large_mem_add_block, dealloc_from, large_mem_dealloc, large_mem_alloc,
  large_mem_init,
}

-- a state behind `large_mem_init` and any calls of the two functions
pub data Reached (slot : ℕ) : Lmem → Type 0 where
  inits : (s : Lmem) → Reached slot (large_mem_init s)
  allocs :
      (s t : Lmem) (addr node amount answer : ℕ)
      → Reached slot s
      → large_mem_alloc slot addr node amount s ≡ ok (answer, t)
      → Reached slot t
  deallocs : (s : Lmem) (ptr : ℕ) → Reached slot s → Reached slot (large_mem_dealloc slot ptr s).1

-- What `large_mem_alloc` answers, and how it leaves the state: the block is mapped, and in no list.
abbrev pub Allocated : (addr amount : ℕ) → Lmem → ℕ × Lmem → Type 0
Allocated addr amount s (answer, t) =
    ((answer ≡ null) × (t ≡ s))
    ⊎ ((answer ≡ addr)
        × (answer ≢ null)
        × (t.blocks ≡ [])
        × (t.mapped ≡ (addr, amount * 0x1000 % 2 ^ 32 / 0x1000) ∷ s.mapped))

module _ (slot : ℕ) (there : slot ≢ null) where
  add-empty : (s : Lmem) → s.blocks ≡ [] → large_mem_add_block slot s ≡ ok s
  unfolding large_mem_add_block cas
  add-empty s e = let n : (slot == null) ≡ false = ground arith in rw (e, n) refl

  alloc-Allocated :
      (s : Lmem) (addr node amount : ℕ)
      → s.blocks ≡ []
      → (r : ℕ × Lmem) × (large_mem_alloc slot addr node amount s ≡ ok r)
        × Allocated addr amount s r
  unfolding large_mem_alloc
  alloc-Allocated s addr node amount e = elim (Bool-cases (ltb pages 1)) [
    | inl small ↦ ((null, s), rw small refl, inl (refl, refl))
    | inr large ↦ elim (Bool-cases (addr == null)) [
      | inl nowhere ↦ ((null, s), rw (large, nowhere) refl, inl (refl, refl))
      | inr somewhere ↦ elim (Bool-cases (node == null)) [
        | inl full ↦ ((null, s), rw (large, somewhere, full) refl, inl (refl, refl))
        | inr room ↦
            let t : Lmem = record s { mapped = (addr, pages) ∷ s.mapped } in
            (
              (addr, t),
              rw (large, somewhere, room, add-empty t e) refl,
              inr (refl, ground arith, e, refl),
            )
      ]
    ]
  ]
    where
      pages : ℕ
      pages = amount * 0x1000 % 2 ^ 32 / 0x1000

  empty-dealloc : (s : Lmem) (ptr : ℕ) → s.blocks ≡ [] → large_mem_dealloc slot ptr s ≡ (0, s)
  unfolding large_mem_dealloc dealloc_from
  empty-dealloc s ptr e = rw e refl

  Allocated-empty :
      (addr amount : ℕ) (s : Lmem) (r : ℕ × Lmem)
      → s.blocks ≡ []
      → Allocated addr amount s r
      → r.1.blocks ≡ []
  Allocated-empty addr amount s r e (inl a) = ap (λ (t : Lmem). t.blocks) a.1 ∙ e
  Allocated-empty addr amount s r e (inr a) = a.2

  Reached-empty : (s : Lmem) → Reached slot s → s.blocks ≡ []
  unfolding large_mem_init
  Reached-empty _ (inits s) = refl
  Reached-empty _ (allocs s t addr node amount answer h run) =
      let e = Reached-empty s h in
      let (r, run', a) = alloc-Allocated s addr node amount e in
      ap (λ (q : ℕ × Lmem). q.1.blocks) (ok-injective (sym run ∙ run'))
      ∙ Allocated-empty addr amount s r e a
  Reached-empty _ (deallocs s ptr h) =
      let e = Reached-empty s h in ap (λ (q : ℕ × Lmem). q.1.blocks) (empty-dealloc s ptr e) ∙ e

-- In every state that `large_mem_init` and calls of `large_mem_alloc` and `large_mem_dealloc` lead to, with
-- `g_lmem` not at address 0, no block is in the list: `cas` never writes `g_lmem`. So `large_mem_dealloc`
-- answers 0 for every pointer, also for a block that was handed out, and gives nothing back; and
-- `large_mem_alloc` returns, and either answers NULL and changes nothing, or answers a block that is
-- mapped and enters no list.
pub large_mem_dealloc-keeps :
    (slot : ℕ) (s : Lmem) (ptr addr node amount : ℕ)
    → slot ≢ null
    → Reached slot s
    → (large_mem_dealloc slot ptr s ≡ (0, s))
      × (r : ℕ × Lmem) × (large_mem_alloc slot addr node amount s ≡ ok r)
      × Allocated addr amount s r
large_mem_dealloc-keeps slot s ptr addr node amount there h =
    let e = Reached-empty slot there s h in
    let (r, run, a) = alloc-Allocated slot there s addr node amount e in
    (empty-dealloc slot there s ptr e, r, run, a)
