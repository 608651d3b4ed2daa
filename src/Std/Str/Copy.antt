-- ===== src/Std/Str/Copy.antt =====
-- std/string.c: what memcpy, memset and memsetw leave in memory.
use native.Mathlib.Nat.{zero-mod, suc-mod, mod-lt, mod_self, mod-eq_of_lt}
use brackos.Base.{
  ℕ, zero, suc, ◌+◌, ◌-◌, ◌%◌, ◌≤◌, ◌<◌, ◌≡◌, ◌≢◌, refl, sym, ap, ◌∙◌, ◌⊎◌, ltb, leb, ◌==◌,
  Bool-cases, inl, inr, arith,
}
use brackos.Std.Str.{Bytes, put, memcpy}

-- Bytes that are not written stay.
pub memcpy-outside :
    (dest src count : ℕ) (m : Bytes) (q : ℕ)
    → (q < dest) ⊎ (dest + count ≤ q)
    → (memcpy dest src count m).1 q ≡ m q
unfolding memcpy
memcpy-outside dest src zero m q o = refl
memcpy-outside dest src (suc count) m q o =
    memcpy-outside (dest + 1) (src + 1) count (put dest (m src) m) q (further o) ∙ stays o
  where
    further : (q < dest) ⊎ (dest + suc count ≤ q) → (q < dest + 1) ⊎ (dest + 1 + count ≤ q)
    further (inl h) = inl (omega arith)
    further (inr h) = inr (omega arith)

    stays : (q < dest) ⊎ (dest + suc count ≤ q) → put dest (m src) m q ≡ m q
    stays (inl h) = ground arith
    stays (inr h) = ground arith

put-at : (at v : ℕ) (m : Bytes) (q : ℕ) → q ≡ at → put at v m q ≡ v
put-at at v m q e = ground arith

put-off : (at v : ℕ) (m : Bytes) (q : ℕ) → q ≢ at → put at v m q ≡ m q
put-off at v m q e = ground arith

-- `memcpy` to a place that does not begin inside the bytes to copy moves them all, also where the two
-- ranges overlap.
pub memcpy-moves :
    (dest src count : ℕ) (m : Bytes) (i : ℕ)
    → i < count
    → (dest ≤ src) ⊎ (src + count ≤ dest)
    → (memcpy dest src count m).1 (dest + i) ≡ m (src + i)
unfolding memcpy
memcpy-moves dest src zero m i l o = absurd (omega arith)
memcpy-moves dest src (suc count) m zero l o =
    memcpy-outside (dest + 1) (src + 1) count (put dest (m src) m) (dest + 0) (inl (omega arith))
    ∙ put-at dest (m src) m (dest + 0) (omega arith)
    ∙ ap m (omega arith)
memcpy-moves dest src (suc count) m (suc i) l o =
    ap (memcpy (dest + 1) (src + 1) count (put dest (m src) m)).1 (omega arith)
    ∙ memcpy-moves (dest + 1) (src + 1) count (put dest (m src) m) i (omega arith) (further o)
    ∙ put-off dest (m src) m (src + 1 + i) (apart o)
    ∙ ap m (omega arith)
  where
    further :
        (dest ≤ src) ⊎ (src + suc count ≤ dest)
        → (dest + 1 ≤ src + 1) ⊎ (src + 1 + count ≤ dest + 1)
    further (inl h) = inl (omega arith)
    further (inr h) = inr (omega arith)

    apart : (dest ≤ src) ⊎ (src + suc count ≤ dest) → src + 1 + i ≢ dest
    apart (inl h) = omega arith
    apart (inr h) = omega arith

ahead :
    (d src : ℕ) (m : Bytes) (r : ℕ)
    → r < d
    → put (src + d) (m src) m (src + 1 + r) ≡ m (src + suc r % d)
ahead d src m r l = elim (Bool-cases (r + 1 == d)) [
  | inl e ↦
      let f : suc r ≡ d = ground arith in
      put-at (src + d) (m src) m (src + 1 + r) (omega arith)
      ∙ ap m (omega (arith, ap (λ (t : ℕ). t % d) f, mod_self d))
  | inr e ↦
      let f : suc r ≢ d = ground arith in
      put-off (src + d) (m src) m (src + 1 + r) (omega arith)
      ∙ ap m (omega (arith, mod-eq_of_lt {n = suc r} {m = d} (omega arith)))
]

-- To a place `d` bytes further inside the bytes to copy, it repeats the first `d` of them.
pub memcpy-repeats :
    (d src count : ℕ) (m : Bytes) (i : ℕ)
    → 0 < d
    → i < count
    → (memcpy (src + d) src count m).1 (src + d + i) ≡ m (src + i % d)
unfolding memcpy
memcpy-repeats d src zero m i p l = absurd (omega arith)
memcpy-repeats d src (suc count) m zero p l =
    memcpy-outside (src + d + 1) (src + 1) count (put (src + d) (m src) m) (src + d + 0)
      (inl (omega arith))
    ∙ put-at (src + d) (m src) m (src + d + 0) (omega arith)
    ∙ ap m (omega (arith, zero-mod d))
memcpy-repeats d src (suc count) m (suc i) p l =
    let m1 = put (src + d) (m src) m in
    ap (λ (a : ℕ). (memcpy a (src + 1) count m1).1 (src + d + suc i)) (omega arith)
    ∙ ap (memcpy (src + 1 + d) (src + 1) count m1).1 (omega arith)
    ∙ memcpy-repeats d (src + 1) count m1 i p (omega arith)
    ∙ ahead d src m (i % d) (mod-lt i p)
    ∙ ap (λ (r : ℕ). m (src + r)) (sym (suc-mod i d))

memcpy-end : (dest src count : ℕ) (m : Bytes) → (memcpy dest src count m).0 ≡ dest + count
unfolding memcpy
memcpy-end dest src zero m = omega arith
memcpy-end dest src (suc count) m =
    memcpy-end (dest + 1) (src + 1) count (put dest (m src) m) ∙ omega arith

-- What stands at `q` behind `memcpy`, and what it answers: outside the `count` bytes from `dest` on
-- nothing has changed. Where `dest` is not inside the bytes to copy, all of these have arrived, also
-- where the two ranges overlap. Where `dest` is inside them, the bytes in front of `dest` stand there
-- again and again. The answer is the end of the copy, not `dest`.
pub memcpy-Copied :
    (dest src count : ℕ) (m : Bytes) (q : ℕ)
    → ((memcpy dest src count m).0 ≡ dest + count)
      × ((((q < dest) ⊎ (dest + count ≤ q)) × ((memcpy dest src count m).1 q ≡ m q))
          ⊎ ((dest ≤ q)
              × (q < dest + count)
              × ((dest ≤ src) ⊎ (src + count ≤ dest))
              × ((memcpy dest src count m).1 q ≡ m (src + (q - dest))))
          ⊎ ((dest ≤ q)
              × (q < dest + count)
              × (src < dest)
              × (dest < src + count)
              × ((memcpy dest src count m).1 q ≡ m (src + (q - dest) % (dest - src)))))
memcpy-Copied dest src count m q = (
  memcpy-end dest src count m,
  elim (Bool-cases (ltb q dest)) [
    | inl a ↦ let o = inl (ground arith) in inl (o, memcpy-outside dest src count m q o)
    | inr a ↦ elim (Bool-cases (leb (dest + count) q)) [
      | inl b ↦ let o = inr (ground arith) in inl (o, memcpy-outside dest src count m q o)
      | inr b ↦ inr (within (ground arith) (ground arith))
    ]
  ],
)
  where
    at_q :
        dest ≤ q → (memcpy dest src count m).1 q ≡ (memcpy dest src count m).1 (dest + (q - dest))
    at_q a = ap (memcpy dest src count m).1 (omega arith)

    within :
        dest ≤ q
        → q < dest + count
        → ((dest ≤ q)
            × (q < dest + count)
            × ((dest ≤ src) ⊎ (src + count ≤ dest))
            × ((memcpy dest src count m).1 q ≡ m (src + (q - dest))))
          ⊎ ((dest ≤ q)
              × (q < dest + count)
              × (src < dest)
              × (dest < src + count)
              × ((memcpy dest src count m).1 q ≡ m (src + (q - dest) % (dest - src))))
    within a b = elim (Bool-cases (leb dest src)) [
      | inl c ↦
          let l : q - dest < count = omega arith in
          let o = inl (ground arith) in
          inl (a, b, o, at_q a ∙ memcpy-moves dest src count m (q - dest) l o)
      | inr c ↦ elim (Bool-cases (leb (src + count) dest)) [
        | inl d ↦
            let l : q - dest < count = omega arith in
            let o = inr (ground arith) in
            inl (a, b, o, at_q a ∙ memcpy-moves dest src count m (q - dest) l o)
        | inr d ↦
            let e : src < dest = ground arith in inr (a, b, e, ground arith, at_q a ∙ repeats e)
      ]
    ]
      where
        repeats :
            src < dest
            → (memcpy dest src count m).1 (dest + (q - dest)) ≡ m (src + (q - dest) % (dest - src))
        repeats e =
            let f : dest ≡ src + (dest - src) = omega arith in
            ap (λ (x : ℕ). (memcpy x src count m).1 (x + (q - dest))) f
            ∙ memcpy-repeats (dest - src) src count m (q - dest) (omega arith) (omega arith)
