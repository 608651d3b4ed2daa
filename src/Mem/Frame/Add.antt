-- ===== src/Mem/Frame/Add.antt =====
-- `frame_add_free_item` of kernel/mem/frame.c: a chunk put back, merged or not.
use brackos.Base.{
  ℕ, zero, suc, ◌+◌, ◌-◌, ◌*◌, ◌^◌, ◌≤◌, ◌<◌, ◌≡◌, refl, ◌∙◌, Bool, true, false, ◌&&◌, ◌||◌, ◌⊎◌,
  inl, inr, List, [], ◌∷◌, ltb, ◌==◌, min, Bool-cases, length-set, arith,
}
use brackos.Base.Outcome.{ok, ◌>>=◌, Returns, returns, Returns-ok, Returns-mono}
use brackos.Mem.Frame.{
  FrameAlloc, max_frames, page_size, frame_node_alloc, frame_node_free, frame_buddy_check, Search,
  merged, appended, keep_node, find_buddy, is_nil, head_of, set_head, add_free_item_fuel,
  frame_add_free_item,
}
use brackos.Mem.Frame.Held.{
  inside, held_list, held, Fits, IsValid, held_lists-set, Fits-get_or, AllFit-set, inside-merge,
  Clear, inside-end,
}

-- What a search of the list of `count` frames finds, seen at the address `p`.
abbrev Found : (address count : ℕ) → List ℕ → (p : ℕ) → Search → Type 0
Found address count xs p (merged b rest) =
    (held_list count xs p ≡ held_list count rest p + inside b count p)
    × Fits count rest
    × (b + count * page_size ≤ 2 ^ 32)
    × (count < max_frames)
    × ((b + count * page_size ≡ address) ⊎ (address + count * page_size ≡ b))
Found address count xs p (appended l) =
    (held_list count l p ≡ held_list count xs p + inside address count p) × Fits count l

buddies_are_adjacent :
    (base a b size : ℕ)
    → base < 2 ^ 32
    → a < 2 ^ 32
    → b < 2 ^ 32
    → size < 2 ^ 31
    → frame_buddy_check base a b size ≡ true
    → (a + size ≡ b) ⊎ (b + size ≡ a)
unfolding frame_buddy_check
buddies_are_adjacent base a b size hb ha hc hs h = ground arith

Found-keep_node :
    (address count x : ℕ) (xs : List ℕ) (p : ℕ) (r : Search)
    → x + count * page_size ≤ 2 ^ 32
    → Found address count xs p r
    → Found address count (x ∷ xs) p (keep_node x r)
Found-keep_node address count x xs p (merged b rest) hx h = (omega arith, (hx, h.1), h.2, h.3, h.4)
Found-keep_node address count x xs p (appended l) hx h = (omega arith, (hx, h.1))

find_buddy-Found :
    (base address count : ℕ) (xs : List ℕ) (p : ℕ)
    → base < 2 ^ 32
    → 0 < count
    → address + count * page_size ≤ 2 ^ 32
    → Fits count xs
    → Found address count xs p (find_buddy base address count xs)
unfolding find_buddy
find_buddy-Found base address count [] p hb hc ha h = (omega arith, (ha, tt))
find_buddy-Found base address count (x ∷ xs) p hb hc ha h = elim (Bool-cases test) [
  | inl e ↦ rw e (omega arith, h.1, h.0, ground arith, adjacent e)
  | inr e ↦ rw e (
      Found-keep_node address count x xs p _ h.0
        (find_buddy-Found base address count xs p hb hc ha h.1))
]
  where
    test : Bool
    test = ltb count max_frames && frame_buddy_check base x address (count * page_size)

    adjacent : test ≡ true → (x + count * page_size ≡ address) ⊎ (address + count * page_size ≡ x)
    adjacent e =
        buddies_are_adjacent base x address (count * page_size) hb (omega arith) (omega arith)
          (ground arith) (ground arith)

-- What a call of `frame_add_free_item` does to the state, seen at the address `p`.
pub record Added (s : FrameAlloc) (address count p : ℕ) (t : FrameAlloc) : Type 0 where
  pub valid : IsValid t
  pub covers : held t p ≤ held s p + inside address count p
  pub nodes_left : s.nodes ≤ t.nodes + 1
  pub same_lock : t.lock ≡ s.lock

abbrev stored : FrameAlloc → (count : ℕ) → List ℕ → FrameAlloc
stored s count l = record (set_head s count l) { nodes = s.nodes - 1 }

pub set_head-IsValid :
    (s : FrameAlloc) (count : ℕ) (l : List ℕ)
    → IsValid s
    → 0 < count
    → Fits count l
    → IsValid (set_head s count l)
set_head-IsValid s count l v hc f = record {
  lists = length-set s.free_lists (count - 1) l ∙ v.lists;
  base_small = v.base_small;
  fits = AllFit-set 1 (count - 1) count s.free_lists l (omega arith) v.fits f;
}

pub held-set_head :
    (s : FrameAlloc) (count : ℕ) (l : List ℕ) (p : ℕ)
    → IsValid s
    → 0 < count
    → count ≤ max_frames
    → held (set_head s count l) p + held_list count (head_of s count) p
      ≡ held s p + held_list count l p
held-set_head s count l p v hc hm =
    held_lists-set 1 (count - 1) count s.free_lists l p (omega arith) (omega (arith, v.lists))

-- A list whose nodes grow by the chunk that is put back.
stored-Added :
    (s : FrameAlloc) (address count p : ℕ) (l : List ℕ)
    → IsValid s
    → 0 < count
    → count ≤ max_frames
    → 0 < s.nodes
    → Fits count l
    → held_list count l p ≡ held_list count (head_of s count) p + inside address count p
    → Returns (Added s address count p) (frame_node_alloc s >>= λ t. ok (set_head t count l))
unfolding frame_node_alloc
stored-Added s address count p l v hc hm hn f e =
    let some_left : (s.nodes == 0) ≡ false = ground arith in
    rw some_left (
      returns (record {
        valid = record {
          lists = (set_head-IsValid s count l v hc f).lists;
          base_small = v.base_small;
          fits = (set_head-IsValid s count l v hc f).fits;
        };
        covers = omega (arith, held-set_head s count l p v hc hm);
        nodes_left = omega arith;
        same_lock = refl;
      }))

-- A buddy in the list of `count` frames stands behind the chunk, where nothing free ends at the chunk.
merged-behind :
    (s : FrameAlloc) (address count b : ℕ) (rest : List ℕ)
    → IsValid s
    → 0 < count
    → count ≤ max_frames
    → Clear s address
    → Found address count (head_of s count) (address - 1) (merged b rest)
    → address + count * page_size ≡ b
merged-behind s address count b rest v hc hm clear found = elim found.4 [
  | inl e ↦ absurd (
      omega (
        arith,
        clear (omega arith),
        found.0,
        inside-end b count address hc e,
        held-set_head s count [] (address - 1) v hc hm,
      ))
  | inr e ↦ e
]

module _ (freed : ℕ → ℕ) (kept : (a : ℕ) → a ≤ freed a) (p : ℕ) where
  same_address : (address b count : ℕ) → address + count ≡ b → min (freed b) address ≡ address
  same_address address b count e = ground (arith, kept b)

  merge-Added :
      (s : FrameAlloc) (address count b : ℕ) (rest : List ℕ) (t : FrameAlloc)
      → IsValid s
      → 0 < count
      → address + count * page_size ≡ b
      → Found address count (head_of s count) p (merged b rest)
      → Added (frame_node_free (set_head s count rest)) (min (freed b) address) (count + 1) p t
      → Added s address count p t
  unfolding frame_node_free
  merge-Added s address count b rest t v hc up found h = record {
    valid = h.valid;
    covers = ground (
      arith,
      held-set_head s count rest p v hc (omega arith),
      h.covers,
      same_address address b (count * page_size) up,
      inside-merge address b count p hc,
      up,
      found,
    );
    nodes_left = omega (arith, h.nodes_left);
    same_lock = h.same_lock;
  }

  -- what the recursive call of a merge starts from
  merge-IsValid :
      (s : FrameAlloc) (address count b : ℕ) (rest : List ℕ)
      → IsValid s
      → 0 < count
      → count ≤ max_frames
      → Clear s address
      → address + count * page_size ≡ b
      → Found address count (head_of s count) (address - 1) (merged b rest)
      → IsValid (frame_node_free (set_head s count rest))
        × (min (freed b) address + (count + 1) * page_size ≤ 2 ^ 32)
        × (0 < (frame_node_free (set_head s count rest)).nodes)
        × Clear (frame_node_free (set_head s count rest)) (min (freed b) address)
  unfolding frame_node_free
  merge-IsValid s address count b rest v hc hm clear up found =
      let same = same_address address b (count * page_size) up in
      let ok_lists = set_head-IsValid s count rest v hc found.1 in
      (
        record { lists = ok_lists.lists; base_small = v.base_small; fits = ok_lists.fits },
        omega (arith, same, up, found.2),
        omega arith,
        rw same (λ z.
            omega (arith, clear z, found.0, held-set_head s count rest (address - 1) v hc hm)),
      )

  add-Added :
      (fuel address count : ℕ) (new_item : Bool) (s : FrameAlloc)
      → IsValid s
      → 0 < count
      → count ≤ max_frames
      → address + count * page_size ≤ 2 ^ 32
      → 0 < s.nodes
      → Clear s address
      → max_frames < count + fuel
      → Returns (Added s address count p) (add_free_item_fuel freed fuel address count new_item s)
  unfolding add_free_item_fuel
  add-Added zero address count new_item s v hc hm ha hn clear hf = absurd (omega arith)
  add-Added (suc fuel) address count new_item s v hc hm ha hn clear hf =
      let fits : Fits count (head_of s count) =
        Fits-get_or 1 (count - 1) count s.free_lists (omega arith) v.fits in
      let small : ltb max_frames count ≡ false = ground arith in
      let some_count : (count == 0) ≡ false = ground arith in
      rw (small, some_count)
        (elim (Bool-cases (new_item || is_nil (head_of s count))) [
          | inl e ↦ rw e (
              stored-Added s address count p (address ∷ head_of s count) v hc hm hn (ha, fits)
                (omega arith))
          | inr e ↦ rw e (
              found
                (λ b rest h up.
                  let (vt, fit, some_left, clear') =
                    merge-IsValid s address count b rest v hc hm clear up h in
                  add-Added fuel (min (freed b) address) (count + 1) false
                    (frame_node_free (set_head s count rest)) vt (omega arith) (omega (arith, h.3))
                    fit some_left clear' (omega arith))
                (find_buddy s.base address count (head_of s count))
                (find_buddy-Found s.base address count (head_of s count) p v.base_small hc ha fits)
                (find_buddy-Found s.base address count (head_of s count) (address - 1) v.base_small
                  hc ha fits))
        ])
    where
      found :
          ((b : ℕ) (rest : List ℕ)
            → Found address count (head_of s count) (address - 1) (merged b rest)
            → address + count * page_size ≡ b
            → Returns
                (Added
                  (frame_node_free (set_head s count rest))
                  (min (freed b) address)
                  (count + 1)
                  p)
                (add_free_item_fuel freed fuel
                  (min (freed b) address)
                  (count + 1)
                  false
                  (frame_node_free (set_head s count rest))))
          → (r : Search) → Found address count (head_of s count) p r
          → Found address count (head_of s count) (address - 1) r
          → Returns (Added s address count p) (elim r [
            | merged b rest ↦
                add_free_item_fuel freed fuel
                  (min (freed b) address)
                  (count + 1)
                  false
                  (frame_node_free (set_head s count rest))
            | appended l ↦ frame_node_alloc s >>= λ t. ok (set_head t count l)
          ])
      found again (merged b rest) h g =
          let up = merged-behind s address count b rest v hc hm clear g in
          Returns-mono (λ t. merge-Added s address count b rest t v hc up h) (again b rest g up)
      found again (appended l) h g = stored-Added s address count p l v hc hm hn h.1 h.0

  -- On a valid state with a node to spare, `frame_add_free_item` of a chunk of 1 to `max_frames` frames
  -- that ends within the address space, and just below which nothing is free, returns, keeps the state
  -- valid and the lock as it was, and makes no frame free that was neither free before nor in the chunk.
  -- A merge reads the address of the node that it has just given back: it is assumed to be no lower than
  -- what the node held, which is so if the node keeps it, and if a pointer above all frames is written
  -- over it.
  pub frame_add_free_item-Added :
      (address count : ℕ) (new_item : Bool) (s : FrameAlloc)
      → IsValid s
      → 0 < count
      → count ≤ max_frames
      → address + count * page_size ≤ 2 ^ 32
      → 0 < s.nodes
      → Clear s address
      → (t : FrameAlloc) × (frame_add_free_item freed address count new_item s ≡ ok t)
        × Added s address count p t
  unfolding frame_add_free_item
  frame_add_free_item-Added address count new_item s v hc hm ha hn clear =
      Returns-ok
        (add-Added (max_frames + 1) address count new_item s v hc hm ha hn clear (omega arith))
