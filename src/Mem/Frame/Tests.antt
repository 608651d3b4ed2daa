-- ===== src/Mem/Frame/Tests.antt =====
-- Runs of kernel/mem/frame.c on a region of 22 pages, and the theorems at that state.
use brackos.Base.{
  ℕ, ◌+◌, ◌*◌, ◌/◌, ◌%◌, ◌^◌, ◌≤◌, ◌≡◌, refl, false, Option, some, [], ◌∷◌, replicate, ◌++◌, max,
  arith,
}
use brackos.Base.Outcome.{ok, fault}
use brackos.Mem.Frame.{
  FrameAlloc, page_size, frame_add_free_item, frame_alloc, frame_dealloc, frame_add_chunk,
  frame_free_count, acquire, alloc_from, frame_node_alloc,
}
use brackos.Mem.Frame.Held.{inside, held, IsValid, Separate}
use brackos.Mem.Frame.Add.{Added, frame_add_free_item-Added}
use brackos.Mem.Frame.Alloc.{
  Allocated, frame_alloc-Allocated, frame_dealloc-Added, frame_alloc-disjoint,
}
use brackos.Mem.Frame.Chunk.{Carved, frame_add_chunk-Carved}
use brackos.Mem.Frame.Count.{chunk_count, free_bytes, frame_free_count-chunk_count}
use brackos.Mem.Frame.Loss.{frame_add_free_item-loses, no_frames-fault}

-- The node keeps the address.
abbrev intact : ℕ → ℕ
intact a = a

abbrev empty : FrameAlloc
empty = record { lock = false; base = 0; free_lists = replicate 20 []; nodes = 30 }

-- 22 pages from 1 MiB on: a chunk of 20 frames and one of 2
abbrev booted : FrameAlloc
booted = record {
  lock = false;
  base = 0x100000;
  free_lists = [] ∷ ((0x114000 ∷ []) ∷ (replicate 17 [] ++ ((0x100000 ∷ []) ∷ [])));
  nodes = 28;
}

boots : frame_add_chunk intact 0x100000 0x16800 empty ≡ ok booted
unfolding frame_add_chunk frame_add_free_item frame_node_alloc
boots = refl

takes_the_smallest :
    frame_alloc intact 1 booted
    ≡ ok (
      some 0x114000,
      record booted {
        free_lists = (0x115000 ∷ []) ∷ (replicate 18 [] ++ ((0x100000 ∷ []) ∷ []));
        nodes = 27;
      },
    )
unfolding frame_alloc acquire alloc_from frame_add_free_item frame_node_alloc
takes_the_smallest = refl

-- The node of the popped chunk is never given back.
leaks_a_node :
    frame_alloc intact 20 booted
    ≡ ok (some 0x100000, record booted { free_lists = [] ∷ ((0x114000 ∷ []) ∷ replicate 18 []) })
unfolding frame_alloc acquire alloc_from
leaks_a_node = refl

one_page_region : frame_add_chunk intact 0x100000 0x1000 empty ≡ ok empty
unfolding frame_add_chunk
one_page_region = refl

free_count_of_booted : frame_free_count booted ≡ 0x14000
unfolding frame_free_count
free_count_of_booted = refl

-- A pointer of the kernel's half stands in the node instead.
abbrev pointer_over : ℕ → ℕ
pointer_over a = max a 0xc0200000

pointer_over-le : (a : ℕ) → a ≤ pointer_over a
pointer_over-le a = omega arith

-- The chunk of two frames is behind the two that are in use.
abbrev high_free : FrameAlloc
high_free = record booted {
  free_lists = [] ∷ ((0x118000 ∷ []) ∷ (replicate 17 [] ++ ((0x100000 ∷ []) ∷ [])));
}

high_free-IsValid : IsValid high_free
high_free-IsValid = omega arith

booted-Separate : Separate booted
unfolding inside
booted-Separate q = ground arith

merges_behind :
    frame_dealloc pointer_over 0x116000 2 high_free
    ≡ ok (record high_free {
      free_lists = [] ∷ ([] ∷ ((0x116000 ∷ []) ∷ (replicate 16 [] ++ ((0x100000 ∷ []) ∷ []))));
    })
unfolding frame_dealloc acquire frame_add_free_item brackos.Mem.Frame.find_buddy
    brackos.Mem.Frame.frame_buddy_check brackos.Mem.Frame.frame_node_free frame_node_alloc
merges_behind = refl

-- The chunk of two frames in front is free, and the pointer over its address is read in the merge: the
-- three frames of the new chunk begin with the two that are put back, and the last is in use.
covers_too_much :
    frame_dealloc pointer_over 0x116000 2 booted
    ≡ ok (record booted {
      free_lists = [] ∷ ([] ∷ ((0x116000 ∷ []) ∷ (replicate 16 [] ++ ((0x100000 ∷ []) ∷ []))));
    })
unfolding frame_dealloc acquire frame_add_free_item brackos.Mem.Frame.find_buddy
    brackos.Mem.Frame.frame_buddy_check brackos.Mem.Frame.frame_node_free frame_node_alloc
covers_too_much = refl

booted-IsValid : IsValid booted
booted-IsValid = omega arith

empty-IsValid : IsValid empty
empty-IsValid = omega arith

frame_add_free_item-Added_example :
    (t : FrameAlloc) × (frame_add_free_item pointer_over 0x116000 2 false high_free ≡ ok t)
    × Added high_free 0x116000 2 0x117000 t
unfolding inside
frame_add_free_item-Added_example =
    frame_add_free_item-Added pointer_over pointer_over-le 0x117000 0x116000 2 false high_free
      high_free-IsValid (omega arith) (omega arith) (omega arith) (omega arith) (λ z. refl)

frame_alloc-Allocated_example :
    (r : Option ℕ × FrameAlloc) × (frame_alloc pointer_over 1 booted ≡ ok r)
    × Allocated booted 1 1 0x114010 r
frame_alloc-Allocated_example =
    frame_alloc-Allocated pointer_over pointer_over-le 0x114010 1 (omega arith) booted
      booted-IsValid (omega arith) booted-Separate refl (omega arith)

frame_dealloc-Added_example :
    (t : FrameAlloc) × (frame_dealloc pointer_over 0x116000 2 high_free ≡ ok t)
    × Added high_free 0x116000 2 0x117000 t
unfolding inside
frame_dealloc-Added_example =
    frame_dealloc-Added pointer_over pointer_over-le 0x117000 2 (omega arith) 0x116000 high_free
      high_free-IsValid (omega arith) refl (omega arith) (omega arith) (λ z. refl)

abbrev after_one : FrameAlloc
after_one = record booted {
  free_lists = (0x115000 ∷ []) ∷ (replicate 18 [] ++ ((0x100000 ∷ []) ∷ []));
  nodes = 27;
}

second_run :
    frame_alloc intact 1 after_one
    ≡ ok
        (some 0x115000, record after_one { free_lists = replicate 19 [] ++ ((0x100000 ∷ []) ∷ []) })
unfolding frame_alloc acquire alloc_from
second_run = refl

frame_alloc-disjoint_example : inside 0x114000 1 0x114fff + inside 0x115000 1 0x114fff ≤ 1
unfolding inside
frame_alloc-disjoint_example =
    frame_alloc-disjoint intact (λ a. omega arith) 0x114fff booted after_one
      (record after_one { free_lists = replicate 19 [] ++ ((0x100000 ∷ []) ∷ []) }) 1 1 0x114000
      0x115000 booted-IsValid (omega arith) (omega arith) (omega arith) (omega arith) refl
      (omega arith) (omega arith) booted-Separate takes_the_smallest second_run

frame_add_chunk-Carved_example :
    (t : FrameAlloc) × (frame_add_chunk intact 0x100000 0x16800 empty ≡ ok t)
    × Carved empty 0x100000 (0x16800 / page_size) (0x16800 / page_size) 0x115fff t
frame_add_chunk-Carved_example =
    frame_add_chunk-Carved intact 0x115fff 0x100000 0x16800 empty empty-IsValid (omega arith)
      (omega arith) (omega arith)

frame_free_count-chunk_count_instance :
    (frame_free_count booted + page_size * chunk_count booted.free_lists) % 2 ^ 32
    ≡ free_bytes 1 booted.free_lists % 2 ^ 32
frame_free_count-chunk_count_instance = frame_free_count-chunk_count booted

frame_add_free_item-loses_instance :
    (t : FrameAlloc) × (frame_add_free_item intact 0x116000 2 false booted ≡ ok t)
    × (inside 0x116000 2 0x117000 ≡ 1)
    × (held t 0x117000 ≡ held booted 0x117000)
frame_add_free_item-loses_instance =
    frame_add_free_item-loses intact (λ a. refl) booted 0x116000 2 0x114000 0x117000 []
      booted-IsValid (omega arith) (omega arith) refl refl refl (omega arith) (omega arith)
      (omega arith)

no_frames-fault_instance :
    (frame_alloc intact 0 booted ≡ fault) × (frame_dealloc intact 0x100000 0 booted ≡ fault)
no_frames-fault_instance = no_frames-fault intact (λ a. refl) booted 0x100000 refl
