-- ===== src/Mem/Frame/Held.antt =====
-- What the free lists of kernel/mem/frame.c hold: how many free chunks cover an address.
use brackos.Base.{
  ℕ, zero, suc, ◌+◌, ◌-◌, ◌*◌, ◌^◌, ◌≤◌, ◌<◌, ◌≡◌, ◌&&◌, List, [], ◌∷◌, leb, ltb, if◌then◌else◌,
  length, get_or, set, arith,
}
use brackos.Mem.Frame.{FrameAlloc, max_frames, page_size}

-- 1 if the address `p` lies in the `count` frames from `address` on
unfoldable pub inside : (address count p : ℕ) → ℕ
inside address count p = if leb address p && ltb p (address + count * page_size) then 1 else 0

abbrev pub held_list : (count : ℕ) → List ℕ → (p : ℕ) → ℕ
held_list count [] p = 0
held_list count (x ∷ xs) p = inside x count p + held_list count xs p

abbrev pub held_lists : (count : ℕ) → List (List ℕ) → (p : ℕ) → ℕ
held_lists count [] p = 0
held_lists count (l ∷ ls) p = held_list count l p + held_lists (count + 1) ls p

-- the number of free chunks that cover `p`
abbrev pub held : FrameAlloc → ℕ → ℕ
held s p = held_lists 1 s.free_lists p

-- No chunk of a list runs past the end of the address space.
abbrev pub Fits : (count : ℕ) → List ℕ → Type 0
Fits count [] = Unit
Fits count (x ∷ xs) = (x + count * page_size ≤ 2 ^ 32) × Fits count xs

abbrev pub AllFit : (count : ℕ) → List (List ℕ) → Type 0
AllFit count [] = Unit
AllFit count (l ∷ ls) = Fits count l × AllFit (count + 1) ls

pub record IsValid (s : FrameAlloc) : Type 0 where
  pub lists : length s.free_lists ≡ max_frames
  pub base_small : s.base < 2 ^ 32
  pub fits : AllFit 1 s.free_lists

pub held_lists-set :
    (n i m : ℕ) (ls : List (List ℕ)) (l : List ℕ) (p : ℕ)
    → n + i ≡ m
    → i < length ls
    → held_lists n (set ls i l) p + held_list m (get_or ls i []) p
      ≡ held_lists n ls p + held_list m l p
held_lists-set n i m [] l p e h = absurd (omega arith)
held_lists-set n zero m (k ∷ ls) l p e h = ground (arith)
held_lists-set n (suc i) m (k ∷ ls) l p e h =
    omega (arith, held_lists-set (n + 1) i m ls l p (omega arith) (omega arith))

pub Fits-get_or :
    (n i m : ℕ) (ls : List (List ℕ)) → n + i ≡ m → AllFit n ls → Fits m (get_or ls i [])
Fits-get_or n i m [] e h = tt
Fits-get_or n zero m (k ∷ ls) e h = let e' : n ≡ m = omega arith in rw (← e') (h.0)
Fits-get_or n (suc i) m (k ∷ ls) e h = Fits-get_or (n + 1) i m ls (omega arith) h.1

pub AllFit-set :
    (n i m : ℕ) (ls : List (List ℕ)) (l : List ℕ)
    → n + i ≡ m
    → AllFit n ls
    → Fits m l
    → AllFit n (set ls i l)
AllFit-set n i m [] l e h f = tt
AllFit-set n zero m (k ∷ ls) l e h f = let e' : n ≡ m = omega arith in (rw e' f, h.1)
AllFit-set n (suc i) m (k ∷ ls) l e h f = (h.0, AllFit-set (n + 1) i m ls l (omega arith) h.1 f)

-- A chunk splits into its first frames and the rest.
pub inside-add : (a k n p : ℕ) → inside a (k + n) p ≡ inside a k p + inside (a + k * page_size) n p
unfolding inside
inside-add a k n p = ground arith

-- Of two chunks side by side, no address of the longer start lies outside both.
pub inside-merge :
    (a b n p : ℕ) → 0 < n → a + n * page_size ≡ b → inside a (n + 1) p ≤ inside a n p + inside b n p
unfolding inside
inside-merge a b n p h e = ground arith

-- No two free chunks share an address.
abbrev pub Separate : FrameAlloc → Type 0
Separate s = (q : ℕ) → held s q ≤ 1

-- No address just below `address` is free, so no free chunk ends there.
abbrev pub Clear : FrameAlloc → (address : ℕ) → Type 0
Clear s address = 0 < address → held s (address - 1) ≡ 0

pub inside-end :
    (a count b : ℕ) → 0 < count → a + count * page_size ≡ b → inside a count (b - 1) ≡ 1
unfolding inside
inside-end a count b h e = ground arith

pub inside-within :
    (a count want q : ℕ)
    → 0 < want
    → want ≤ count
    → q ≡ a + want * page_size - 1
    → inside a count q ≡ 1
unfolding inside
inside-within a count want q h l e = ground arith
