-- ===== src/Std/Array/Rem.antt =====
-- `list_rem` of std/list.c.
use brackos.Base.{
  ℕ, zero, suc, ◌+◌, ◌*◌, ◌-◌, ◌^◌, ◌≤◌, ◌<◌, ◌≡◌, refl, ap, true, false, some, List, [], ◌∷◌, ◌++◌,
  ltb, leb, length, take, drop, set, get_or, arith,
}
use brackos.Base.Outcome.{ok}
use brackos.Base.Word.{sub32}
use brackos.Std.Array.{Array, low_bytes, shift, list_rem}

-- What moving at most three bytes leaves, in the list and in front of `i`.
shift-few :
    (n i : ℕ) (ws : List ℕ)
    → n < 4
    → i < length ws
    → take i ws ++ shift n (drop i ws)
      ≡ set ws i (low_bytes n (get_or ws i 0) (get_or ws (suc i) 0))
unfolding shift
shift-few n zero [] l b = absurd (omega arith)
shift-few n zero (w ∷ []) l b = let a : leb 4 n ≡ false = ground arith in rw a refl
shift-few n zero (w ∷ (v ∷ ws)) l b = let a : leb 4 n ≡ false = ground arith in rw a refl
shift-few n (suc i) [] l b = absurd (omega arith)
shift-few n (suc i) (w ∷ ws) l b = ap (λ t. w ∷ t) (shift-few n i ws l (omega arith))

-- `list_rem` of a pointer with at most three behind it moves as many bytes as there are pointers: the
-- low bytes of the next pointer, one for each, go into the pointer to remove, all others stay, and the
-- list loses its last pointer. So it removes the last one, and no other.
pub list_rem-mixes :
    (i : ℕ) (ws : List ℕ) (l : Array)
    → l.block ≡ some ws
    → i < l.index
    → l.index ≤ i + 4
    → l.index ≤ length ws
    → l.index < 2 ^ 29
    → list_rem i l
      ≡ ok (record l {
        block = some (set ws i (low_bytes (l.index - i - 1) (get_or ws i 0) (get_or ws (suc i) 0)));
        index = l.index - 1;
      })
unfolding list_rem
list_rem-mixes i ws l e a b c d =
    let n : sub32 (sub32 l.index i) 1 ≡ l.index - i - 1 = omega arith in
    let x : ltb l.index i ≡ false = ground arith in
    let y : leb ((i + 1) * 4 + (l.index - i - 1)) (length ws * 4) ≡ true = ground arith in
    let z : sub32 l.index 1 ≡ l.index - 1 = omega arith in
    rw (e, n, x, y, z, shift-few (l.index - i - 1) i ws (omega arith) (omega arith)) refl
