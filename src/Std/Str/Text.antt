-- ===== src/Std/Str/Text.antt =====
-- std/string.c: what the functions on strings answer.
use brackos.Base.{
  ℕ, zero, suc, ◌+◌, ◌≤◌, ◌<◌, ◌≡◌, ◌≢◌, refl, ap, ◌∙◌, ◌⊎◌, true, false, not, ◌&&◌, leb, ◌==◌,
  Bool-cases, inl, inr, List, [], ◌∷◌, length, min, arith,
}
use brackos.Base.Outcome.{ok, Returns, returns, Returns-mono}
use brackos.Base.Word.{sub32}
use brackos.Std.Str.{Bytes, len_from, strlen, nlen_from, strnlen, memcpy, widen, strcmp, strcpy}
use brackos.Std.Str.Copy.{memcpy-outside, memcpy-moves}

-- At `p` stand the characters of the list and then a 0.
abbrev pub IsString : Bytes → (p : ℕ) → List ℕ → Type 0
IsString m p [] = m p ≡ 0
IsString m p (c ∷ cs) = (m p ≡ c) × (c ≢ 0) × (c < 256) × IsString m (p + 1) cs

len_from_lem :
    (fuel i p : ℕ) (m : Bytes) (s : List ℕ)
    → IsString m p s
    → length s < fuel
    → len_from fuel i p m ≡ ok (i + length s)
unfolding len_from
len_from_lem zero i p m s h l = absurd (omega arith)
len_from_lem (suc fuel) i p m [] h l = ground arith
len_from_lem (suc fuel) i p m (c ∷ cs) h l =
    let a : (m p == 0) ≡ false = ground (arith, h.0, h.1) in
    rw a (len_from_lem fuel (i + 1) (p + 1) m cs h.3 (omega arith) ∙ ap ok (omega arith))

-- `strlen` of a string answers its length.
pub strlen_lem :
    (fuel p : ℕ) (m : Bytes) (s : List ℕ)
    → IsString m p s
    → length s < fuel
    → strlen fuel p m ≡ ok (length s)
unfolding strlen
strlen_lem fuel p m s h l = len_from_lem fuel 0 p m s h l ∙ ap ok (omega arith)

nlen_from_lem :
    (n fuel i p : ℕ) (m : Bytes) (s : List ℕ)
    → IsString m p s
    → i ≤ n
    → length s < fuel
    → nlen_from n fuel i p m ≡ ok (min n (i + length s))
unfolding nlen_from
nlen_from_lem n zero i p m s h b l = absurd (omega arith)
nlen_from_lem n (suc fuel) i p m [] h b l =
    let a : (m p == 0) ≡ true = ground arith in rw a (ap ok (omega arith))
nlen_from_lem n (suc fuel) i p m (c ∷ cs) h b l =
    let a : (m p == 0) ≡ false = ground (arith, h.0, h.1) in
    rw a (elim (Bool-cases (leb n (i + 1))) [
      | inl e ↦ rw e (ap ok (full (ground arith)))
      | inr e ↦ rw e (
          nlen_from_lem n fuel (i + 1) (p + 1) m cs h.3 (ground arith) (omega arith)
          ∙ ap ok (ap (min n) (omega arith)))
    ])
  where
    full : n ≤ i + 1 → n ≡ min n (i + suc (length cs))
    full e = omega arith

-- `strnlen` of a string answers its length, or the limit where that is less.
pub strnlen_lem :
    (fuel p n : ℕ) (m : Bytes) (s : List ℕ)
    → IsString m p s
    → length s < fuel
    → strnlen fuel p n m ≡ ok (min n (length s))
unfolding strnlen
strnlen_lem fuel p n m s h l =
    nlen_from_lem n fuel 0 p m s h (omega arith) l ∙ ap ok (ap (min n) (omega arith))

differ : (x y : ℕ) → x < 256 → y < 256 → x ≢ y → sub32 (widen x) (widen y) ≢ 0
differ x y a b n = ground arith

-- Two strings are the same for `strcmp`, which then answers 0, just when they are equal.
pub strcmp_lem :
    (fuel a b : ℕ) (m : Bytes) (s t : List ℕ)
    → IsString m a s
    → IsString m b t
    → length s < fuel
    → Returns (λ r. ((s ≡ t) × (r ≡ 0)) ⊎ ((s ≢ t) × (r ≢ 0))) (strcmp fuel a b m)
unfolding strcmp
strcmp_lem zero a b m s t h g l = absurd (omega arith)
strcmp_lem (suc fuel) a b m [] [] h g l =
    let x : (m a == 0) ≡ true = ground arith in rw (x, h, g) (returns (inl (refl, refl)))
strcmp_lem (suc fuel) a b m [] (d ∷ ds) h g l =
    let x : (m a == 0) ≡ true = ground arith in
    rw x (
      returns (
        inr (
          λ e. absurd (let f = ap length e in omega (arith, f)),
          differ (m a) (m b) (omega (arith, h)) (ground (arith, g.0, g.2))
              (ground (arith, h, g.0, g.1)),
        )))
strcmp_lem (suc fuel) a b m (c ∷ cs) [] h g l =
    let x : (m a == m b) ≡ false = ground (arith, h.0, h.1, g) in
    let y : (not (m a == 0) && (m a == m b)) ≡ false = ground arith in
    rw y (
      returns (
        inr (
          λ e. absurd (let f = ap length e in omega (arith, f)),
          differ (m a) (m b) (ground (arith, h.0, h.2)) (omega (arith, g))
              (ground (arith, g, h.0, h.1)),
        )))
strcmp_lem (suc fuel) a b m (c ∷ cs) (d ∷ ds) h g l = elim (Bool-cases (c == d)) [
  | inl e ↦
      let y : (not (m a == 0) && (m a == m b)) ≡ true = ground (arith, h.0, h.1, g.0) in
      rw y (
        Returns-mono (λ r. more (ground arith) r)
          (strcmp_lem fuel (a + 1) (b + 1) m cs ds h.3 g.3 (omega arith)))
  | inr e ↦
      let y : (not (m a == 0) && (m a == m b)) ≡ false = ground (arith, h.0, h.1, g.0) in
      rw y (
        returns (
          inr (
            λ f. absurd (let k = first f in ground arith),
            differ (m a) (m b) (ground (arith, h.0, h.2)) (ground (arith, g.0, g.2))
                (ground (arith, h.0, g.0)),
          )))
]
  where
    first : (c ∷ cs) ≡ (d ∷ ds) → c ≡ d
    first f = cc

    more :
        c ≡ d
        → (r : ℕ) → ((cs ≡ ds) × (r ≡ 0)) ⊎ ((cs ≢ ds) × (r ≢ 0))
        → (((c ∷ cs) ≡ (d ∷ ds)) × (r ≡ 0)) ⊎ (((c ∷ cs) ≢ (d ∷ ds)) × (r ≢ 0))
    more e r (inl (f, z)) = inl (cc, z)
    more e r (inr (n, z)) = inr (λ f. n (let g = f in cc), z)

copied-IsString :
    (m n : Bytes) (a b : ℕ) (s : List ℕ)
    → ((i : ℕ) → i ≤ length s → n (a + i) ≡ m (b + i))
    → IsString m b s
    → IsString n a s
copied-IsString m n a b [] f h = ap n (omega arith) ∙ f 0 (omega arith) ∙ ap m (omega arith) ∙ h
copied-IsString m n a b (c ∷ cs) f h = (
  ap n (omega arith) ∙ f 0 (omega arith) ∙ ap m (omega arith) ∙ h.0,
  h.1,
  h.2,
  copied-IsString m n (a + 1) (b + 1) cs
      (λ i l. ap n (omega arith) ∙ f (suc i) (omega arith) ∙ ap m (omega arith)) h.3,
)

-- `strcpy` of a string to a place that does not overlap it makes the same string there, and changes
-- nothing outside the place.
pub strcpy_lem :
    (fuel a b : ℕ) (m : Bytes) (s : List ℕ)
    → IsString m b s
    → length s < fuel
    → (a ≤ b) ⊎ (b + length s + 1 ≤ a)
    → Returns
        (λ n. IsString n a s × ((q : ℕ) → (q < a) ⊎ (a + length s + 1 ≤ q) → n q ≡ m q))
        (strcpy fuel a b m)
unfolding strcpy
strcpy_lem fuel a b m s h l o = rw (strlen_lem fuel b m s h l) (
    returns (
      copied-IsString m (memcpy a b (length s + 1) m).1 a b s
          (λ i k. memcpy-moves a b (length s + 1) m i (omega arith) (off o)) h,
      λ q r. memcpy-outside a b (length s + 1) m q (out q r),
    ))
  where
    off : (a ≤ b) ⊎ (b + length s + 1 ≤ a) → (a ≤ b) ⊎ (b + (length s + 1) ≤ a)
    off (inl e) = inl e
    off (inr e) = inr (omega arith)

    out : (q : ℕ) → (q < a) ⊎ (a + length s + 1 ≤ q) → (q < a) ⊎ (a + (length s + 1) ≤ q)
    out q (inl e) = inl e
    out q (inr e) = inr (omega arith)
