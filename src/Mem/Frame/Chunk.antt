-- ===== src/Mem/Frame/Chunk.antt =====
-- `frame_add_chunk` of kernel/mem/frame.c: a region of memory carved into chunks.
use brackos.Base.{
  ℕ, zero, suc, ◌+◌, ◌-◌, ◌*◌, ◌/◌, ◌%◌, ◌^◌, ◌≤◌, ◌<◌, ◌≡◌, refl, ◌∙◌, true, false, inl, inr, List,
  ◌∷◌, ltb, leb, ◌==◌, min, Bool-cases, arith,
}
use brackos.Base.Outcome.{ok, Returns, returns, Returns-ok, Returns-mono, Returns-bind}
use brackos.Mem.Frame.{
  FrameAlloc, max_frames, page_size, frame_node_alloc, head_of, frame_add_free_item, largest_count,
  carve, frame_add_chunk,
}
use brackos.Mem.Frame.Held.{inside, held, Fits, IsValid, Fits-get_or}
use brackos.Mem.Frame.Add.{set_head-IsValid, held-set_head}

-- What carving makes of the state, seen at `p`: the region's frames are free once more than before.
pub record Carved (s : FrameAlloc) (address count spent p : ℕ) (t : FrameAlloc) : Type 0 where
  pub valid : IsValid t
  pub covers : held t p ≡ held s p + inside address count p
  pub nodes_left : s.nodes ≤ t.nodes + spent
  pub same_lock : t.lock ≡ s.lock

largest_count-min : (c size : ℕ) → largest_count c size ≡ min c (size / page_size)
unfolding largest_count
largest_count-min zero size = omega arith
largest_count-min (suc c) size = ground (arith, largest_count-min c size)

inside-zero : (address p : ℕ) → inside address 0 p ≡ 0
unfolding inside
inside-zero address p = ground arith

module _ (freed : ℕ → ℕ) (p : ℕ) where
  -- A fresh chunk is pushed as it is, never merged.
  push-Carved :
      (address count : ℕ) (s : FrameAlloc)
      → IsValid s
      → 0 < count
      → count ≤ max_frames
      → address + count * page_size ≤ 2 ^ 32
      → 0 < s.nodes
      → Returns (Carved s address count 1 p) (frame_add_free_item freed address count true s)
  unfolding frame_add_free_item frame_node_alloc
  push-Carved address count s v hc hm ha hn =
      let small : ltb max_frames count ≡ false = ground arith in
      let some_count : (count == 0) ≡ false = ground arith in
      let some_left : (s.nodes == 0) ≡ false = ground arith in
      let l : List ℕ = address ∷ head_of s count in
      let fits : Fits count l =
        (ha, Fits-get_or 1 (count - 1) count s.free_lists (omega arith) v.fits) in
      let v' = set_head-IsValid s count l v hc fits in
      rw (small, some_count, some_left)
        (returns (record {
          valid = record { lists = v'.lists; base_small = v'.base_small; fits = v'.fits };
          covers = omega (arith, held-set_head s count l p v hc hm);
          nodes_left = omega arith;
          same_lock = refl;
        }))

  inside-carve :
      (address size count : ℕ)
      → address + size ≤ 2 ^ 32
      → count * page_size ≤ size
      → inside address (size / page_size) p
        ≡ inside address count p
          + inside
              ((address + count * page_size) % 2 ^ 32)
              ((size - count * page_size) / page_size)
              p
  unfolding inside
  inside-carve address size count ha hc = ground arith

  carve-Carved :
      (fuel address size : ℕ) (s : FrameAlloc)
      → IsValid s
      → size < fuel
      → address + size ≤ 2 ^ 32
      → size / page_size ≤ s.nodes
      → Returns
          (Carved s address (size / page_size) (size / page_size) p)
          (carve freed fuel address size s)
  unfolding carve
  carve-Carved zero address size s v hf ha hn = absurd (omega arith)
  carve-Carved (suc fuel) address size s v hf ha hn = elim (Bool-cases (ltb size page_size)) [
    | inl small ↦ rw small (
        returns (record {
          valid = v;
          covers = ground (arith, nothing);
          nodes_left = omega arith;
          same_lock = refl;
        }))
    | inr big ↦
        let fits : count * page_size ≤ size = ground (arith, size_of_count) in
        let some_count : 0 < count = ground (arith, size_of_count) in
        rw big (
          Returns-bind
            (push-Carved address count s v some_count (omega (arith, size_of_count)) (omega arith)
              (ground arith))
            λ t h. Returns-mono (join t fits some_count h) (
              carve-Carved fuel ((address + count * page_size) % 2 ^ 32) (size - count * page_size)
                t h.valid (omega arith) (omega arith) (omega (arith, h.nodes_left))))
  ]
    where
      count : ℕ
      count = largest_count max_frames size

      size_of_count : count ≡ min max_frames (size / page_size)
      size_of_count = largest_count-min max_frames size

      nothing : ltb size page_size ≡ true → inside address (size / page_size) p ≡ 0
      nothing small = let e : size / page_size ≡ 0 = ground arith in rw e (inside-zero address p)

      join :
          (t : FrameAlloc)
          → count * page_size ≤ size
          → 0 < count
          → Carved s address count 1 p t
          → (u : FrameAlloc)
          → Carved t
              ((address + count * page_size) % 2 ^ 32)
              ((size - count * page_size) / page_size)
              ((size - count * page_size) / page_size)
              p
              u
          → Carved s address (size / page_size) (size / page_size) p u
      join t fits some_count h u k = record {
        valid = k.valid;
        covers = omega (arith, k.covers, h.covers, inside-carve address size count ha fits);
        nodes_left = omega (arith, h.nodes_left, k.nodes_left);
        same_lock = k.same_lock ∙ h.same_lock;
      }

  -- A region of more than one page, inside the address space, is carved up exactly: with a node for
  -- each page of it, `frame_add_chunk` returns a valid state in which each address of the region's
  -- whole pages is covered by one free chunk more than before, and every other by as many.
  pub frame_add_chunk-Carved :
      (address size : ℕ) (s : FrameAlloc)
      → IsValid s
      → page_size < size
      → address + size ≤ 2 ^ 32
      → size / page_size ≤ s.nodes
      → (t : FrameAlloc) × (frame_add_chunk freed address size s ≡ ok t)
        × Carved s address (size / page_size) (size / page_size) p t
  unfolding frame_add_chunk
  frame_add_chunk-Carved address size s v hs ha hn =
      let large : leb size page_size ≡ false = ground arith in
      let based : FrameAlloc = record s { base = address } in
      let (t, e, h) = Returns-ok (
        carve-Carved (size + 1) address size based
          (record { lists = v.lists; base_small = omega arith; fits = v.fits }) (omega arith) ha
          hn) in
      (
        t,
        rw large e,
        record {
          valid = h.valid;
          covers = h.covers;
          nodes_left = h.nodes_left;
          same_lock = h.same_lock;
        },
      )
