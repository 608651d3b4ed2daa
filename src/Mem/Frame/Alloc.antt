-- ===== src/Mem/Frame/Alloc.antt =====
-- `frame_alloc` and `frame_dealloc` of kernel/mem/frame.c.
use brackos.Base.{
  ℕ, zero, suc, ◌+◌, ◌-◌, ◌*◌, ◌%◌, ◌^◌, ◌≤◌, ◌<◌, ◌≡◌, refl, sym, ap, ◌∙◌, true, false, ◌&&◌,
  Option, none, some, inl, inr, List, [], ◌∷◌, ltb, leb, ◌==◌, if◌then◌else◌, Bool-cases, get_or,
  drop, length, arith,
}
use mathlib.Core.Path.{subst}
use brackos.Base.Outcome.{ok, ◌>>=◌, Returns, returns, Returns-ok, Returns-mono, ok-injective}
use brackos.Mem.Frame.{
  FrameAlloc, max_frames, page_size, acquire, release, head_of, set_head, frame_add_free_item,
  alloc_from, frame_alloc, frame_dealloc,
}
use brackos.Mem.Frame.Held.{
  inside, held_list, held, Fits, IsValid, Fits-get_or, inside-add, Separate, Clear, inside-within,
}
use brackos.Mem.Frame.Add.{Added, set_head-IsValid, held-set_head, frame_add_free_item-Added}

abbrev pub AllNil : List (List ℕ) → Type 0
AllNil [] = Unit
AllNil (l ∷ ls) = (l ≡ []) × AllNil ls

AllNil-drop :
    (i j : ℕ) (ls : List (List ℕ))
    → suc i ≡ j
    → get_or ls i [] ≡ []
    → AllNil (drop j ls)
    → AllNil (drop i ls)
AllNil-drop i zero ls e h n = absurd (omega arith)
AllNil-drop zero (suc j) [] e h n = tt
AllNil-drop (suc i) (suc j) [] e h n = tt
AllNil-drop zero (suc zero) (l ∷ ls) e h n = (h, n)
AllNil-drop zero (suc (suc j)) (l ∷ ls) e h n = absurd (omega arith)
AllNil-drop (suc i) (suc j) (l ∷ ls) e h n = AllNil-drop i j ls (omega arith) h n

-- A list of more frames than there are lists is not there.
AllNil-drop_all : (i : ℕ) (ls : List (List ℕ)) → length ls ≤ i → AllNil (drop i ls)
AllNil-drop_all zero [] h = tt
AllNil-drop_all zero (l ∷ ls) h = absurd (omega arith)
AllNil-drop_all (suc i) [] h = tt
AllNil-drop_all (suc i) (l ∷ ls) h = AllNil-drop_all i ls (omega arith)

-- What `frame_alloc want` makes of the state, seen at `p`. Either no list of `want` frames or more
-- has a chunk, or the chunk returned was free and now is not.
abbrev pub Allocated : FrameAlloc → (from want p : ℕ) → Option ℕ × FrameAlloc → Type 0
Allocated s from want p (none, t) = (t ≡ release s) × AllNil (drop (from - 1) s.free_lists)
Allocated s from want p (some address, t) =
    IsValid t
    × (t.lock ≡ false)
    × (address + want * page_size ≤ 2 ^ 32)
    × (held t p + inside address want p ≤ held s p)

module _ (freed : ℕ → ℕ) (kept : (a : ℕ) → a ≤ freed a) (p want : ℕ) (some_want : 0 < want) where
  take_head :
      (s : FrameAlloc) (count address : ℕ) (rest : List ℕ)
      → IsValid s
      → 0 < s.nodes
      → Separate s
      → want ≤ count
      → count ≤ max_frames
      → head_of s count ≡ address ∷ rest
      → Returns (Allocated s count want p) (
          if count == want
          then ok (some address, release (set_head s count rest))
          else (frame_add_free_item freed
                ((address + want * page_size) % 2 ^ 32)
                (count - want)
                false
                (set_head s count rest)
              >>= λ t. ok (some address, release t)))
  take_head s count address rest v hn apart hw hm e = elim (Bool-cases (count == want)) [
    | inl same ↦
        let e' : count ≡ want = ground arith in
        rw same (returns (released, refl, rw e' at both.0, ground (arith, taken p)))
    | inr more ↦ split more
  ]
    where
      both : Fits count (address ∷ rest)
      both = rw e at (Fits-get_or 1 (count - 1) count s.free_lists (omega arith) v.fits)

      shorter : IsValid (set_head s count rest)
      shorter = set_head-IsValid s count rest v (omega arith) both.1

      released : IsValid (release (set_head s count rest))
      released = record { lists = shorter.lists; base_small = v.base_small; fits = shorter.fits }

      taken :
          (q : ℕ)
          → held (set_head s count rest) q + (inside address count q + held_list count rest q)
            ≡ held s q + held_list count rest q
      taken q = rw e at (held-set_head s count rest q v (omega arith) hm)

      -- what is just below the rest was in the chunk that is taken
      cleared : (a : ℕ) → a ≡ address + want * page_size → Clear (set_head s count rest) a
      cleared a same z = omega (
        arith,
        taken (a - 1),
        apart (a - 1),
        inside-within address count want (a - 1) some_want hw (omega arith),
      )

      split :
          (count == want) ≡ false
          → Returns (Allocated s count want p) (
              if count == want
              then ok (some address, release (set_head s count rest))
              else (frame_add_free_item freed
                    ((address + want * page_size) % 2 ^ 32)
                    (count - want)
                    false
                    (set_head s count rest)
                  >>= λ t. ok (some address, release t)))
      split more =
          let left : want < count = ground arith in
          let back : (address + want * page_size) % 2 ^ 32 ≡ address + want * page_size =
            omega (arith, both.0, hm) in
          let whole : want + (count - want) ≡ count = omega arith in
          let (t, e', h) =
            frame_add_free_item-Added freed kept p ((address + want * page_size) % 2 ^ 32)
              (count - want) false (set_head s count rest) shorter (omega arith) (omega arith)
              (omega (arith, both.0, back)) hn
              (cleared ((address + want * page_size) % 2 ^ 32) back) in
          rw (more, e')
            (returns (
              record {
                lists = h.valid.lists;
                base_small = h.valid.base_small;
                fits = h.valid.fits;
              },
              refl,
              omega (arith, both.0),
              omega (
                arith,
                taken p,
                ap (λ n. inside address n p) whole,
                h.covers,
                ap (λ a. inside a (count - want) p) back,
                inside-add address want (count - want) p,
              ),
            ))

  alloc_from-Allocated :
      (rounds count : ℕ) (s : FrameAlloc)
      → IsValid s
      → 0 < s.nodes
      → Separate s
      → want ≤ count
      → rounds ≡ max_frames + 1 - count
      → Returns (Allocated s count want p) (alloc_from freed rounds count want s)
  unfolding alloc_from
  alloc_from-Allocated zero count s v hn apart hw hr =
      returns (refl, AllNil-drop_all (count - 1) s.free_lists (omega (arith, v.lists)))
  alloc_from-Allocated (suc rounds) count s v hn apart hw hr =
      let some_count : (count == 0) ≡ false = ground arith in
      rw some_count (
        look (head_of s count) refl
          (alloc_from-Allocated rounds (count + 1) s v hn apart (omega arith) (omega arith)))
    where
      skip :
          head_of s count ≡ []
          → (r : Option ℕ × FrameAlloc) → Allocated s (count + 1) want p r
          → Allocated s count want p r
      skip e (none, t) h =
          (h.0, AllNil-drop (count - 1) (count + 1 - 1) s.free_lists (omega arith) e h.1)
      skip e (some address, t) h = h

      look :
          (l : List ℕ)
          → head_of s count ≡ l
          → Returns (Allocated s (count + 1) want p) (alloc_from freed rounds (count + 1) want s)
          → Returns (Allocated s count want p) (elim l [
            | [] ↦ alloc_from freed rounds (count + 1) want s
            | address ∷ rest ↦
                if count == want
                then ok (some address, release (set_head s count rest))
                else (frame_add_free_item freed
                      ((address + want * page_size) % 2 ^ 32)
                      (count - want)
                      false
                      (set_head s count rest)
                    >>= λ t. ok (some address, release t))
          ])
      look [] e next = Returns-mono (skip e) next
      look (address ∷ rest) e next = take_head s count address rest v hn apart hw (omega arith) e

  -- On a valid, unlocked state with a node to spare, in which no two free chunks share an address,
  -- `frame_alloc` of 1 to 2 ^ 31 - 1 frames returns with the lock free. It returns NULL only if no list
  -- of `want` frames or more has a chunk, and then changes nothing. Otherwise the state is valid, the
  -- chunk ends within the address space, and every address in it is covered by one free chunk fewer than
  -- before; no other is covered by more. What a merge reads of the node that it has given back is
  -- assumed to be no lower than the address that the node held.
  pub frame_alloc-Allocated :
      (s : FrameAlloc)
      → IsValid s
      → 0 < s.nodes
      → Separate s
      → s.lock ≡ false
      → want < 2 ^ 31
      → (r : Option ℕ × FrameAlloc) × (frame_alloc freed want s ≡ ok r) × Allocated s want want p r
  unfolding frame_alloc acquire
  frame_alloc-Allocated s v hn apart e hw =
      let pass : (ltb want 1 && leb max_frames want) ≡ false = ground arith in
      let signed : leb (2 ^ 31) want ≡ false = ground arith in
      let locked : FrameAlloc = record s { lock = true } in
      let v' : IsValid locked = record {
        lists = v.lists;
        base_small = v.base_small;
        fits = v.fits;
      } in
      rw (pass, e, signed)
        (Returns-ok
          (alloc_from-Allocated (max_frames + 1 - want) want locked v' hn apart (omega arith) refl))

  -- `frame_dealloc` of 1 to `max_frames` frames that end within the address space, and just below which
  -- nothing is free, on a valid, unlocked state with a node to spare, returns with the lock free and the
  -- state valid, and frees no frame outside the chunk. What a merge reads of the node that it has given
  -- back is assumed to be no lower than the address that the node held.
  pub frame_dealloc-Added :
      (address : ℕ) (s : FrameAlloc)
      → IsValid s
      → 0 < s.nodes
      → s.lock ≡ false
      → want ≤ max_frames
      → address + want * page_size ≤ 2 ^ 32
      → Clear s address
      → (t : FrameAlloc) × (frame_dealloc freed address want s ≡ ok t) × Added s address want p t
  unfolding frame_dealloc
  frame_dealloc-Added address s v hn e hw ha clear =
      let locked : FrameAlloc = record s { lock = true } in
      let v' : IsValid locked = record {
        lists = v.lists;
        base_small = v.base_small;
        fits = v.fits;
      } in
      let (t, e', h) =
        frame_add_free_item-Added freed kept p address want false locked v' some_want hw ha hn
          clear in
      (
        release t,
        rw (e, e'),
        record {
          valid = record {
            lists = h.valid.lists;
            base_small = h.valid.base_small;
            fits = h.valid.fits;
          };
          covers = h.covers;
          nodes_left = h.nodes_left;
          same_lock = sym e;
        },
      )

module _ (freed : ℕ → ℕ) (kept : (a : ℕ) → a ≤ freed a) (p : ℕ) where
  -- On a valid, unlocked state in which no two free chunks share an address, two successful calls of
  -- `frame_alloc` in a row, each of 1 to 2 ^ 31 - 1 frames and with a node to spare, never return chunks
  -- that share an address. What a merge reads of the node that it has given back is assumed to be no
  -- lower than the address that the node held.
  pub frame_alloc-disjoint :
      (s t u : FrameAlloc) (want want' a b : ℕ)
      → IsValid s
      → 0 < want
      → want < 2 ^ 31
      → 0 < want'
      → want' < 2 ^ 31
      → s.lock ≡ false
      → 0 < s.nodes
      → 0 < t.nodes
      → Separate s
      → frame_alloc freed want s ≡ ok (some a, t)
      → frame_alloc freed want' t ≡ ok (some b, u)
      → inside a want p + inside b want' p ≤ 1
  frame_alloc-disjoint s t u want want' a b v h0 h1 h2 h3 e hs h ht ea eb =
      omega (arith, (first p).3, second.3, ht p)
    where
      first : (q : ℕ) → Allocated s want want q (some a, t)
      first q =
          let (r, er, hr) = frame_alloc-Allocated freed kept q want h0 s v hs ht e h1 in
          subst (Allocated s want want q) (ok-injective (sym er ∙ ea)) hr

      apart : Separate t
      apart q = omega (arith, (first q).3, ht q)

      second : Allocated t want' want' p (some b, u)
      second =
          let (q, eq, hq) =
            frame_alloc-Allocated freed kept p want' h2 t (first p).0 h apart (first p).1 h3 in
          subst (Allocated t want' want' p) (ok-injective (sym eq ∙ eb)) hq
