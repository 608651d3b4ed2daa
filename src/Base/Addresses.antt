-- ===== src/Base/Addresses.antt =====
-- Lists of addresses of which no two are equal.
use Prim.Native.Nat.{ℕ, zero, suc, ◌<◌}
use mathlib.Core.Path.{sym}
use mathlib.Core.Logic.{◌≢◌}
use mathlib.Core.List.{List, [], ◌∷◌, ◌++◌}
use native.Mathlib.Omega.{arith}
use brackos.Base.Lists.{length, get_or}

abbrev pub NotIn : ℕ → List ℕ → Type 0
NotIn a [] = Unit
NotIn a (x ∷ xs) = (a ≢ x) × NotIn a xs

abbrev pub Distinct : List ℕ → Type 0
Distinct [] = Unit
Distinct (x ∷ xs) = NotIn x xs × Distinct xs

pub NotIn-snoc : (a : ℕ) (xs : List ℕ) (y : ℕ) → NotIn a xs → a ≢ y → NotIn a (xs ++ (y ∷ []))
NotIn-snoc a [] y h e = (e, tt)
NotIn-snoc a (x ∷ xs) y h e = (h.0, NotIn-snoc a xs y h.1 e)

pub Distinct-snoc : (xs : List ℕ) (y : ℕ) → NotIn y xs → Distinct xs → Distinct (xs ++ (y ∷ []))
Distinct-snoc [] y h d = (tt, tt)
Distinct-snoc (x ∷ xs) y h d =
    (NotIn-snoc x xs y d.0 (λ e. h.0 (sym e)), Distinct-snoc xs y h.1 d.1)

pub NotIn-get_or : (a : ℕ) (xs : List ℕ) (i : ℕ) → NotIn a xs → i < length xs → a ≢ get_or xs i 0
NotIn-get_or a [] i h l = absurd (omega arith)
NotIn-get_or a (x ∷ xs) zero h l = h.0
NotIn-get_or a (x ∷ xs) (suc i) h l = NotIn-get_or a xs i h.1 (omega arith)
