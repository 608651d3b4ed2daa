-- ===== src/Base/Names.antt =====
-- C strings as the lists of their characters, without the 0 at the end.
use Prim.Native.Nat.{ℕ}
use mathlib.Core.Path.{◌≡◌, refl}
use mathlib.Core.Bool.{Bool, true, false, ◌&&◌}
use mathlib.Core.List.{List, [], ◌∷◌}
use native.Mathlib.Omega.{arith}
use brackos.Base.Tests.{◌==◌}

-- whether `strcmp` answers 0
abbrev pub same_name : List ℕ → List ℕ → Bool
same_name [] [] = true
same_name [] (y ∷ ys) = false
same_name (x ∷ xs) [] = false
same_name (x ∷ xs) (y ∷ ys) = x == y && same_name xs ys

pub same_name_refl : (xs : List ℕ) → same_name xs xs ≡ true
same_name_refl [] = refl
same_name_refl (x ∷ xs) = let h = same_name_refl xs in ground arith

pub same_name-eq : (xs ys : List ℕ) → same_name xs ys ≡ true → xs ≡ ys
same_name-eq [] [] e = refl
same_name-eq [] (y ∷ ys) e = absurd cc
same_name-eq (x ∷ xs) [] e = absurd cc
same_name-eq (x ∷ xs) (y ∷ ys) e =
    let h : same_name xs ys ≡ true = ground arith in
    let g : x ≡ y = ground arith in let t = same_name-eq xs ys h in cc
