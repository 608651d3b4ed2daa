-- ===== src/Mem/Frame/Count.antt =====
-- `frame_free_count` of kernel/mem/frame.c against the bytes that the free lists hold.
use brackos.Base.{ℕ, ◌+◌, ◌*◌, ◌%◌, ◌^◌, ◌≡◌, List, [], ◌∷◌, length, arith}
use brackos.Mem.Frame.{FrameAlloc, page_size, count_list, count_lists, frame_free_count}

-- the bytes of the chunks in the lists, the first of which holds chunks of `count` frames
abbrev pub free_bytes : (count : ℕ) → List (List ℕ) → ℕ
free_bytes count [] = 0
free_bytes count (l ∷ ls) = count * page_size * length l + free_bytes (count + 1) ls

abbrev pub chunk_count : List (List ℕ) → ℕ
chunk_count [] = 0
chunk_count (l ∷ ls) = length l + chunk_count ls

count_list_lem :
    (index total : ℕ) (l : List ℕ)
    → count_list index l total % 2 ^ 32 ≡ (total + page_size * index * length l) % 2 ^ 32
unfolding count_list
count_list_lem index total [] = omega arith
count_list_lem index total (x ∷ xs) =
    omega (arith, count_list_lem index ((total + page_size * index) % 2 ^ 32) xs)

count_lists_lem :
    (index total : ℕ) (ls : List (List ℕ))
    → (count_lists index ls total + page_size * chunk_count ls) % 2 ^ 32
      ≡ (total + free_bytes (index + 1) ls) % 2 ^ 32
unfolding count_lists
count_lists_lem index total [] = omega arith
count_lists_lem index total (l ∷ ls) =
    omega (
      arith,
      count_lists_lem (index + 1) (count_list index l total) ls,
      count_list_lem index total l,
    )

-- Modulo 2 ^ 32, `frame_free_count` falls short of the free bytes by one page for each free chunk.
pub frame_free_count-chunk_count :
    (s : FrameAlloc)
    → (frame_free_count s + page_size * chunk_count s.free_lists) % 2 ^ 32
      ≡ free_bytes 1 s.free_lists % 2 ^ 32
unfolding frame_free_count
frame_free_count-chunk_count s = omega (arith, count_lists_lem 0 0 s.free_lists)
