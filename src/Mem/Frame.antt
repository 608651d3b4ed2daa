-- ===== src/Mem/Frame.antt =====
-- kernel/mem/frame.c: the physical frame allocator. A free list is the list of the addresses of its
-- nodes, head first; no function shares a node between two lists. `nodes` is how many more nodes
-- `frame_node_alloc` can supply before it returns NULL, which its callers dereference: a fault.
pub mod Held
pub mod Add
pub mod Alloc
pub mod Chunk
pub mod Count
pub mod Loss
mod Tests
use brackos.Base.{
  ℕ, zero, suc, ◌+◌, ◌-◌, ◌*◌, ◌%◌, ◌^◌, Bool, true, false, not, ◌&&◌, ◌||◌, Option, none, some,
  List, [], ◌∷◌, ltb, leb, ◌==◌, if◌then◌else◌, get_or, set, min, max,
}
use brackos.Base.Outcome.{Outcome, ok, fault, hang, out_of_fuel, ◌>>=◌}
use brackos.Base.Word.{sub32}

abbrev pub max_frames : ℕ
max_frames = 20

abbrev pub page_size : ℕ
page_size = 0x1000

-- `frame_alloc_t`, with the lock word of `spinlock_t`
pub record FrameAlloc : Type 0 where
  pub lock : Bool
  pub base : ℕ
  pub free_lists : List (List ℕ)
  pub nodes : ℕ

-- `spinlock_lock` on a held lock spins for ever: nothing else runs here that could release it.
unfoldable pub acquire : FrameAlloc → Outcome FrameAlloc
acquire s = if s.lock then hang else ok (record s { lock = true })

abbrev pub release : FrameAlloc → FrameAlloc
release s = record s { lock = false }

-- `frame_node_alloc`, and the write through the pointer that it returns
pub frame_node_alloc : FrameAlloc → Outcome FrameAlloc
frame_node_alloc s = if s.nodes == 0 then fault else ok (record s { nodes = s.nodes - 1 })

pub frame_node_free : FrameAlloc → FrameAlloc
frame_node_free s = record s { nodes = s.nodes + 1 }

pub frame_buddy_check : (base a b size : ℕ) → Bool
frame_buddy_check base a b size = (sub32 (min a b) base + size) % 2 ^ 32 == sub32 (max a b) base

-- How the `while ( true )` of `frame_add_free_item` leaves a list: with the first buddy taken out,
-- or with the address added behind the last node.
pub data Search : Type 0 where
  merged : ℕ → List ℕ → Search
  appended : List ℕ → Search

abbrev pub keep_node : ℕ → Search → Search
keep_node x (merged b rest) = merged b (x ∷ rest)
keep_node x (appended rest) = appended (x ∷ rest)

pub find_buddy : (base address count : ℕ) → List ℕ → Search
find_buddy base address count [] = appended (address ∷ [])
find_buddy base address count (x ∷ xs) =
    if ltb count max_frames && frame_buddy_check base x address (count * page_size)
    then merged x xs
    else keep_node x (find_buddy base address count xs)

abbrev pub is_nil : List ℕ → Bool
is_nil [] = true
is_nil (x ∷ xs) = false

abbrev pub head_of : FrameAlloc → ℕ → List ℕ
head_of s count = get_or s.free_lists (count - 1) []

abbrev pub set_head : FrameAlloc → ℕ → List ℕ → FrameAlloc
set_head s count l = record s { free_lists = set s.free_lists (count - 1) l }

-- the inner `for` of `frame_add_chunk`: the largest count from `count` down that fits
pub largest_count : ℕ → ℕ → ℕ
largest_count zero size = 0
largest_count (suc count) size =
    if leb (suc count * page_size) size then suc count else largest_count count size

-- `freed a` is what the `address` field of a node that held `a` reads after `frame_node_free`: the
-- merge reads `head->address` once more from the node that it has just given back.
module _ (freed : ℕ → ℕ) where
  -- the recursion of `frame_add_free_item`, on fuel
  pub add_free_item_fuel : ℕ → (address count : ℕ) → Bool → FrameAlloc → Outcome FrameAlloc
  add_free_item_fuel zero address count new_item s = out_of_fuel
  add_free_item_fuel (suc fuel) address count new_item s =
      if ltb max_frames count
      then ok s
      else if count == 0
      then fault
      else if new_item || is_nil (head_of s count)
      then (frame_node_alloc s >>= λ t. ok (set_head t count (address ∷ head_of s count)))
      else elim (find_buddy s.base address count (head_of s count)) [
        | merged b rest ↦
            add_free_item_fuel fuel (min (freed b) address) (count + 1) false
              (frame_node_free (set_head s count rest))
        | appended l ↦ frame_node_alloc s >>= λ t. ok (set_head t count l)
      ]

  -- The count grows by one at each merge and stops at `max_frames`.
  unfoldable pub frame_add_free_item : (address count : ℕ) → Bool → FrameAlloc → Outcome FrameAlloc
  unfolding add_free_item_fuel
  frame_add_free_item = add_free_item_fuel (max_frames + 1)

  -- the `for` of `frame_alloc` from `count` on, with `rounds` left; an index below 0 is a fault
  pub alloc_from : (rounds count want : ℕ) → FrameAlloc → Outcome (Option ℕ × FrameAlloc)
  alloc_from zero count want s = ok (none, release s)
  alloc_from (suc rounds) count want s = if count == 0 then fault else elim (head_of s count) [
    | [] ↦ alloc_from rounds (count + 1) want s
    | address ∷ rest ↦
        if count == want
        then ok (some address, release (set_head s count rest))
        else (frame_add_free_item ((address + want * page_size) % 2 ^ 32) (count - want) false
              (set_head s count rest)
            >>= λ t. ok (some address, release t))
  ]

  -- The first test needs `want_count < 1` and `want_count >= MAX_FRAMES` at once. `count` is an
  -- `int`: a `want_count` of 2 ^ 31 or more starts it below 0.
  unfoldable pub frame_alloc : ℕ → FrameAlloc → Outcome (Option ℕ × FrameAlloc)
  frame_alloc want s =
      if ltb want 1 && leb max_frames want
      then ok (none, s)
      else (acquire s >>= λ t.
          if leb (2 ^ 31) want then fault else alloc_from (max_frames + 1 - want) want want t)

  unfoldable pub frame_dealloc : (address count : ℕ) → FrameAlloc → Outcome FrameAlloc
  unfolding acquire
  frame_dealloc address count s =
      acquire s >>= λ t. frame_add_free_item address count false t >>= λ u. ok (release u)

  -- the `while` of `frame_add_chunk`, on fuel
  pub carve : ℕ → (address size : ℕ) → FrameAlloc → Outcome FrameAlloc
  carve zero address size s = out_of_fuel
  carve (suc fuel) address size s =
      if ltb size page_size
      then ok s
      else let count = largest_count max_frames size in
        (frame_add_free_item address count true s >>= λ t.
        carve fuel ((address + count * page_size) % 2 ^ 32) (size - count * page_size) t)

  unfoldable pub frame_add_chunk : (address size : ℕ) → FrameAlloc → Outcome FrameAlloc
  unfolding carve largest_count
  frame_add_chunk address size s =
      if leb size page_size
      then ok s
      else carve (size + 1) address size (record s { base = address })

-- `frame_free_count`: the index of a list stands for its count of pages.
pub count_list : ℕ → List ℕ → ℕ → ℕ
count_list index [] total = total
count_list index (x ∷ xs) total = count_list index xs ((total + page_size * index) % 2 ^ 32)

pub count_lists : ℕ → List (List ℕ) → ℕ → ℕ
count_lists index [] total = total
count_lists index (l ∷ ls) total = count_lists (index + 1) ls (count_list index l total)

unfoldable pub frame_free_count : FrameAlloc → ℕ
unfolding count_lists count_list
frame_free_count s = count_lists 0 s.free_lists 0
