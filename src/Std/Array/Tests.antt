-- ===== src/Std/Array/Tests.antt =====
-- Runs of std/list.c, and the theorem at a list.
use brackos.Base.{◌-◌, set, get_or, ◌<◌, ◌≤◌, ◌≡◌, refl, true, some, [], ◌∷◌, arith, ◌⊎◌}
use brackos.Base.Outcome.{ok, fault}
use brackos.Std.Array.{
  Array, list_add, list_rem, list_free, low_bytes, list_find, list_get, find_from,
}
use brackos.Std.Array.Rem.{list_rem-mixes}
use brackos.Std.Array.Add.{Holds, list_add-Holds}

abbrev two : Array
two = record {
  block = some (5 ∷ (6 ∷ (0 ∷ (0 ∷ (0 ∷ (0 ∷ (0 ∷ (0 ∷ []))))))));
  index = 2;
  count = 0;
}

finds : list_find 6 two ≡ ok (some 1)
unfolding list_find find_from
finds = refl

-- The index behind the last pointer is let through.
gets_one_too_many : list_get 2 two ≡ ok 0
unfolding list_get
gets_one_too_many = refl

two-Holds : Holds two (5 ∷ (6 ∷ []))
two-Holds = record { start = refl; filled = refl; uncounted = refl }

list_add-Holds_instance :
    ((2 < 16) × (t : Array) × (list_add (λ i. 0) true 7 two ≡ ok t) × Holds t (5 ∷ (6 ∷ (7 ∷ []))))
    ⊎ ((16 ≤ 2) × (list_add (λ i. 0) true 7 two ≡ fault))
list_add-Holds_instance = list_add-Holds (λ i. 0) 7 (5 ∷ (6 ∷ [])) two two-Holds (ground arith)

list_rem-mixes_instance :
    list_rem 0 two
    ≡ ok (record two {
      block = some (
          set (5 ∷ (6 ∷ (0 ∷ (0 ∷ (0 ∷ (0 ∷ (0 ∷ (0 ∷ [])))))))) 0 (
            low_bytes
              (2 - 0 - 1)
              (get_or (5 ∷ (6 ∷ (0 ∷ (0 ∷ (0 ∷ (0 ∷ (0 ∷ (0 ∷ [])))))))) 0 0)
              (get_or (5 ∷ (6 ∷ (0 ∷ (0 ∷ (0 ∷ (0 ∷ (0 ∷ (0 ∷ [])))))))) 1 0)));
      index = 2 - 1;
    })
list_rem-mixes_instance =
    list_rem-mixes 0 (5 ∷ (6 ∷ (0 ∷ (0 ∷ (0 ∷ (0 ∷ (0 ∷ (0 ∷ [])))))))) two refl (omega arith)
      (omega arith) (omega arith) (omega arith)

frees : list_free true two ≡ ok (5 ∷ (6 ∷ []))
unfolding list_free
frees = refl
