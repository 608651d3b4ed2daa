-- ===== src/Mem/Frame/Loss.antt =====
-- What kernel/mem/frame.c loses: the frames of a merge of longer chunks, and calls for no frames.
use mathlib.Core.Path.{subst}
use brackos.Base.{
  ℕ, ◌+◌, ◌-◌, ◌*◌, ◌^◌, ◌≤◌, ◌<◌, ◌≡◌, ◌∙◌, true, false, List, [], ◌∷◌, ltb, ◌==◌, min, get_or,
  set, get_or-set_ne, arith,
}
use brackos.Base.Outcome.{ok, fault}
use brackos.Mem.Frame.{
  FrameAlloc, max_frames, page_size, frame_node_alloc, frame_node_free, frame_buddy_check,
  find_buddy, head_of, set_head, frame_add_free_item, frame_alloc, alloc_from, frame_dealloc,
}
use brackos.Mem.Frame.Held.{inside, held_list, held, Fits, IsValid, Fits-get_or}
use brackos.Mem.Frame.Add.{set_head-IsValid, held-set_head}

module _ (freed : ℕ → ℕ) (intact : (a : ℕ) → freed a ≡ a) where
  adjacent_are_buddies :
      (base a b size : ℕ)
      → base < 2 ^ 32
      → b < 2 ^ 32
      → a + size ≡ b
      → frame_buddy_check base a b size ≡ true
  unfolding frame_buddy_check
  adjacent_are_buddies base a b size h0 h1 h2 = ground arith

  -- The state after the merge of `b` at the head of its list with the chunk behind it.
  abbrev after_merge : FrameAlloc → (count b : ℕ) → List ℕ → FrameAlloc
  after_merge s count b rest = record (set_head (set_head s count rest) (count + 1) (b ∷ [])) {
    nodes = s.nodes + 1 - 1;
  }

  merge_head :
      (s : FrameAlloc) (address count b : ℕ) (rest : List ℕ)
      → IsValid s
      → 0 < count
      → count < max_frames
      → head_of s count ≡ b ∷ rest
      → head_of s (count + 1) ≡ []
      → b + count * page_size ≡ address
      → address < 2 ^ 32
      → frame_add_free_item freed address count false s ≡ ok (after_merge s count b rest)
  unfolding frame_add_free_item frame_node_alloc frame_node_free find_buddy
  merge_head s address count b rest v hc hm e e' ea ha =
      let t0 : ltb max_frames count ≡ false = ground arith in
      let t1 : (count == 0) ≡ false = ground arith in
      let t2 : ltb count max_frames ≡ true = ground arith in
      let t3 = adjacent_are_buddies s.base b address (count * page_size) v.base_small ha ea in
      let t4 : ltb max_frames (count + 1) ≡ false = ground arith in
      let t5 : (count + 1 == 0) ≡ false = ground arith in
      let t6 : get_or (set s.free_lists (count - 1) rest) (count + 1 - 1) [] ≡ [] =
        get_or-set_ne s.free_lists rest [] (omega arith) ∙ e' in
      let t7 : (s.nodes + 1 == 0) ≡ false = ground arith in
      let t8 : min (freed b) address ≡ b = ground (arith, intact b) in
      rw (t0, t1, e, t2, t3, t4, t5, t6, t7, t8)

  held-after_merge :
      (s : FrameAlloc) (count b p : ℕ) (rest : List ℕ)
      → IsValid s
      → 0 < count
      → count < max_frames
      → head_of s count ≡ b ∷ rest
      → head_of s (count + 1) ≡ []
      → b + count * page_size ≤ 2 ^ 32
      → b + (count + 1) * page_size ≤ 2 ^ 32
      → inside b count p ≡ 0
      → inside b (count + 1) p ≡ 0
      → held (after_merge s count b rest) p ≡ held s p
  held-after_merge s count b p rest v hc hm e e' h0 h1 out out' =
      let both : Fits count (b ∷ rest) =
        subst (Fits count) e (Fits-get_or 1 (count - 1) count s.free_lists (omega arith) v.fits) in
      let cut = set_head-IsValid s count rest v hc both.1 in
      let next : head_of (set_head s count rest) (count + 1) ≡ [] =
        get_or-set_ne s.free_lists rest [] (omega arith) ∙ e' in
      let first : held (set_head s count rest) p + (inside b count p + held_list count rest p)
          ≡ held s p + held_list count rest p =
        subst
          (λ l.
            held (set_head s count rest) p + held_list count l p
            ≡ held s p + held_list count rest p)
          e (held-set_head s count rest p v hc (omega arith)) in
      let second : held (after_merge s count b rest) p + 0
          ≡ held (set_head s count rest) p + (inside b (count + 1) p + 0) =
        subst
          (λ l.
            held (after_merge s count b rest) p + held_list (count + 1) l p
            ≡ held (set_head s count rest) p + (inside b (count + 1) p + 0))
          next
          (held-set_head (set_head s count rest) (count + 1) (b ∷ []) p cut (omega arith)
            (omega arith)) in
      omega (arith, first, second)

  -- A chunk of 2 to 19 frames is given back, its buddy stands at the head of their list and the
  -- next list is empty: the two become one chunk of `count + 1` frames, and no frame of the
  -- returned chunk beyond that is free afterwards, unless it was before.
  pub frame_add_free_item-loses :
      (s : FrameAlloc) (address count b p : ℕ) (rest : List ℕ)
      → IsValid s
      → 2 ≤ count
      → count < max_frames
      → head_of s count ≡ b ∷ rest
      → head_of s (count + 1) ≡ []
      → b + count * page_size ≡ address
      → address + count * page_size ≤ 2 ^ 32
      → b + (count + 1) * page_size ≤ p
      → p < address + count * page_size
      → (t : FrameAlloc) × (frame_add_free_item freed address count false s ≡ ok t)
        × (inside address count p ≡ 1)
        × (held t p ≡ held s p)
  unfolding inside
  frame_add_free_item-loses s address count b p rest v hc hm e e' ea ha hp hq = (
    after_merge s count b rest,
    merge_head s address count b rest v (omega arith) hm e e' ea (omega arith),
    ground arith,
    held-after_merge s count b p rest v (omega arith) hm e e' (omega arith) (omega arith)
        (ground arith) (ground arith),
  )

  -- For no frames at all, `frame_alloc` and `frame_dealloc` on an unlocked state reach for the list
  -- before the first: the test at the head of `frame_alloc` lets every count through.
  pub no_frames-fault :
      (s : FrameAlloc) (address : ℕ)
      → s.lock ≡ false
      → (frame_alloc freed 0 s ≡ fault) × (frame_dealloc freed address 0 s ≡ fault)
  unfolding frame_alloc alloc_from frame_dealloc frame_add_free_item
  no_frames-fault s address e = (rw e, rw e)
