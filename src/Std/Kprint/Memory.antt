-- ===== src/Std/Kprint/Memory.antt =====
-- `kprint_memory` of std/kprint.c prints a size scaled by powers of 1024.
use brackos.Base.{
  ℕ, zero, suc, ◌/◌, ◌^◌, ◌≤◌, ◌<◌, ◌≡◌, refl, ◌∙◌, ◌⊎◌, inl, inr, true, false, List, [], ◌∷◌, ◌++◌,
  ltb, leb, ◌==◌, Bool-cases, length, arith,
}
use native.Mathlib.Nat.{pow-le-pow_right}
use brackos.Base.Outcome.{ok}
use brackos.Std.Kprint.{log2_from, log2, scale, kprint_memory}
use brackos.Std.Kprint.Decimal.{IsDecimal, kprint_uint-IsDecimal}

-- the unit of a size scaled `k` times
abbrev pub units : ℕ → List ℕ
units zero = b'B' ∷ []
units (suc zero) = b'K' ∷ (b'B' ∷ [])
units (suc (suc zero)) = b'M' ∷ (b'B' ∷ [])
units (suc (suc (suc k))) = b'G' ∷ (b'B' ∷ [])

-- `k` is the number of times that 1024 goes into `n`, at most 3 for a 32-bit number.
abbrev pub Scaled : (n k : ℕ) → Type 0
Scaled n k = (k ≤ 3) × (n / 1024 ^ k < 1024) × ((0 < n / 1024 ^ k) ⊎ (k ≡ 0))

log2_from-ge : (j k n : ℕ) → 2 ^ j ≤ n → j ≤ k → j ≤ log2_from k n
unfolding log2_from
log2_from-ge j zero n h hk = hk
log2_from-ge j (suc k) n h hk = elim (Bool-cases (leb (2 ^ suc k) n)) [
  | inl here ↦ rw here hk
  | inr below ↦ elim (Bool-cases (j == suc k)) [
    | inl same ↦ let e : j ≡ suc k = ground arith in absurd (bad (rw e at h) below)
    | inr less ↦ rw below (log2_from-ge j k n h (ground arith))
  ]
]
  where
    bad : 2 ^ suc k ≤ n → leb (2 ^ suc k) n ≡ false → ⊥
    bad a b = ground arith

log2_from-lt : (j k n : ℕ) → n < 2 ^ j → 0 < j → log2_from k n < j
unfolding log2_from
log2_from-lt j zero n h hj = hj
log2_from-lt j (suc k) n h hj = elim (Bool-cases (leb (2 ^ suc k) n)) [
  | inl here ↦ rw here (elim (Bool-cases (leb j (suc k))) [
    | inl over ↦
        absurd
          (bad here (pow-le-pow_right {n = 2} (omega arith) {i = j} {j = suc k} (ground arith)))
    | inr under ↦ ground arith
  ])
  | inr below ↦ rw below (log2_from-lt j k n h hj)
]
  where
    bad : leb (2 ^ suc k) n ≡ true → 2 ^ j ≤ 2 ^ suc k → ⊥
    bad a b = ground arith

-- the exponent of 1024 that the code derives from the highest bit
exponent-Scaled : (n : ℕ) → n < 2 ^ 32 → Scaled n (log2 n / 10)
unfolding log2
exponent-Scaled n h = elim (Bool-cases (ltb n (2 ^ 10))) [
  | inl b ↦
      at 0 (omega (arith, log2_from-lt 10 31 n (ground arith) (omega arith)))
        (omega arith, ground arith, inr refl)
  | inr c ↦ elim (Bool-cases (ltb n (2 ^ 20))) [
    | inl b ↦
        at 1
          (omega (
            arith,
            log2_from-lt 20 31 n (ground arith) (omega arith),
            log2_from-ge 10 31 n (ground arith) (omega arith),
          ))
          (omega arith, ground arith, inl (ground arith))
    | inr d ↦ elim (Bool-cases (ltb n (2 ^ 30))) [
      | inl b ↦
          at 2
            (omega (
              arith,
              log2_from-lt 30 31 n (ground arith) (omega arith),
              log2_from-ge 20 31 n (ground arith) (omega arith),
            ))
            (omega arith, ground arith, inl (ground arith))
      | inr e ↦
          at 3
            (omega (
              arith,
              log2_from-lt 32 31 n h (omega arith),
              log2_from-ge 30 31 n (ground arith) (omega arith),
            ))
            (omega arith, ground arith, inl (ground arith))
    ]
  ]
]
  where
    at : (k : ℕ) → log2_from 31 n / 10 ≡ k → Scaled n k → Scaled n (log2_from 31 n / 10)
    at k e s = rw e s

scale_once : (fuel n : ℕ) → 1024 ≤ n → scale (suc fuel) n ≡ scale fuel (n / 1024)
unfolding scale
scale_once fuel n h = ground arith

scale-done : (fuel n : ℕ) → n < 1024 → scale fuel n ≡ n
unfolding scale
scale-done zero n h = refl
scale-done (suc fuel) n h = ground arith

-- Four rounds are enough for a 32-bit number.
scale-div : (k n : ℕ) → n < 2 ^ 32 → Scaled n k → scale 4 n ≡ n / 1024 ^ k
scale-div zero n hn s = scale-done 4 n (omega (arith, s.1)) ∙ omega arith
scale-div (suc zero) n hn s =
    scale_once 3 n (ground (arith, s.2)) ∙ scale-done 3 (n / 1024) (omega (arith, s.1))
scale-div (suc (suc zero)) n hn s =
    scale_once 3 n (ground (arith, s.2))
    ∙ scale_once 2 (n / 1024) (ground (arith, s.2))
    ∙ scale-done 2 (n / 1024 / 1024) (omega (arith, s.1))
    ∙ omega arith
scale-div (suc (suc (suc zero))) n hn s =
    scale_once 3 n (ground (arith, s.2))
    ∙ scale_once 2 (n / 1024) (ground (arith, s.2))
    ∙ scale_once 1 (n / 1024 / 1024) (ground (arith, s.2))
    ∙ scale-done 1 (n / 1024 / 1024 / 1024) (omega (arith, s.1))
    ∙ omega arith
scale-div (suc (suc (suc (suc k)))) n hn s = absurd (omega (arith, s.0))

-- Of a 32-bit number `kprint_memory` prints the decimal numeral of the number divided by the largest
-- power of 1024 that goes into it, cut down to a whole number below 1024, and the unit of that power.
pub kprint_memory-Scaled :
    (tmp : List ℕ) (n : ℕ)
    → 12 ≤ length tmp
    → n < 2 ^ 32
    → (k : ℕ) × (t : List ℕ) × (kprint_memory tmp n ≡ ok (t ++ units k))
      × Scaled n k
      × IsDecimal (n / 1024 ^ k) t
unfolding kprint_memory
kprint_memory-Scaled tmp n ht hn = by_exponent (log2 n / 10) refl (exponent-Scaled n hn)
  where
    by_exponent :
        (k : ℕ)
        → log2 n / 10 ≡ k
        → Scaled n k
        → (k : ℕ) × (t : List ℕ) × (kprint_memory tmp n ≡ ok (t ++ units k))
          × Scaled n k
          × IsDecimal (n / 1024 ^ k) t
    by_exponent zero e s =
        let (t, p, d) = kprint_uint-IsDecimal tmp n ht hn in
        let whole : n ≡ n / 1024 ^ 0 = omega arith in (0, t, rw (e, p), s, rw (← whole) d)
    by_exponent (suc zero) e s =
        let (t, p, d) = kprint_uint-IsDecimal tmp (n / 1024 ^ 1) ht (omega arith) in
        (1, t, rw (e, scale-div 1 n hn s, p), s, d)
    by_exponent (suc (suc zero)) e s =
        let (t, p, d) = kprint_uint-IsDecimal tmp (n / 1024 ^ 2) ht (omega arith) in
        (2, t, rw (e, scale-div 2 n hn s, p), s, d)
    by_exponent (suc (suc (suc zero))) e s =
        let (t, p, d) = kprint_uint-IsDecimal tmp (n / 1024 ^ 3) ht (omega arith) in
        (3, t, rw (e, scale-div 3 n hn s, p), s, d)
    by_exponent (suc (suc (suc (suc k)))) e s = absurd (omega (arith, s.0))
