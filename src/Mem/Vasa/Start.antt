-- ===== src/Mem/Vasa/Start.antt =====
-- `vasa_init` and `vasa_get_flags` of kernel/mem/vasa.c.
use brackos.Base.{
  ℕ, zero, suc, ◌+◌, ◌^◌, ◌<◌, ◌≡◌, ◌≢◌, refl, true, false, List, [], ◌∷◌, ◌==◌, if◌then◌else◌,
  Bool-cases, inl, inr, length, arith,
}
use brackos.Base.Outcome.{ok}
use brackos.Mem.Vasa.{Vasa, null, vasa_node_alloc, vasa_init, flags_loop, vasa_get_flags}
use brackos.Mem.Vasa.Chain.{Mem, Chain, covers, cover, IsValid}
use brackos.Mem.Vasa.Taken.{chunk}

-- `vasa_init` of a range that does not wrap, whatever the state was, leaves valid lists: one free node
-- with the whole range, and nothing in use.
pub vasa_init-IsValid :
    (start size n p : ℕ) (rest : List ℕ) (s : Vasa)
    → s.supply ≡ n ∷ rest
    → n ≢ null
    → 0 < size
    → start + size < 2 ^ 32
    → (t : Vasa) × (vasa_init start size s ≡ ok t)
      × IsValid t (n ∷ []) []
      × (t.supply ≡ rest)
      × (t.lock ≡ s.lock)
      × (cover t.mem (n ∷ []) p ≡ covers (chunk start size) p)
unfolding vasa_init vasa_node_alloc covers
vasa_init-IsValid start size n p rest s stock some sized fits = rw stock (
  _,
  refl,
  record {
    free_chain = (refl, some, rw self refl);
    used_chain = refl;
    free_distinct = (tt, tt);
    used_distinct = tt;
    apart = (tt, tt);
    free_chunks = (rw self (fits, sized), tt);
    used_chunks = tt;
  },
  refl,
  refl,
  rw self (omega arith),
)
  where
    self : (n == n) ≡ true
    self = ground arith

-- the flags of the first node that starts at `base`, and 0 if none does
abbrev pub flags_at : Mem → (base : ℕ) → List ℕ → ℕ
flags_at m base [] = 0
flags_at m base (x ∷ xs) = if (m x).base == base then (m x).flags else flags_at m base xs

flags_loop-flags_at :
    (fuel k base head : ℕ) (xs : List ℕ) (s : Vasa)
    → length xs < k
    → Chain s.mem head xs
    → flags_loop fuel k base head s ≡ ok (flags_at s.mem base xs)
unfolding flags_loop
flags_loop-flags_at fuel zero base head xs s h c = absurd (omega arith)
flags_loop-flags_at fuel (suc k) base head [] s h c =
    let none_left : (head == null) ≡ true = ground arith in rw none_left refl
flags_loop-flags_at fuel (suc k) base head (x ∷ xs) s h c =
    let some_left : (head == null) ≡ false = ground (arith, c.1) in
    rw (some_left, c.0)
      (elim (Bool-cases ((s.mem x).base == base)) [
        | inl e ↦ rw e refl
        | inr ne ↦ rw ne (flags_loop-flags_at fuel k base (s.mem x).next xs s (omega arith) c.2)
      ])

-- `vasa_get_flags` returns: the flags of the first used node that starts at the address, and 0 if none
-- does.
pub vasa_get_flags-flags_at :
    (fuel base : ℕ) (used : List ℕ) (s : Vasa)
    → length used < fuel
    → Chain s.mem s.used_head used
    → vasa_get_flags fuel base s ≡ ok (flags_at s.mem base used)
unfolding vasa_get_flags
vasa_get_flags-flags_at fuel base used s h c =
    flags_loop-flags_at fuel fuel base s.used_head used s h c
