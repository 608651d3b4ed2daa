-- ===== src/Std/Kprint/Signed.antt =====
-- `kprint_int` of std/kprint.c prints a sign and the magnitude in decimal.
use brackos.Base.{
  ℕ, suc, ◌-◌, ◌^◌, ◌≤◌, ◌<◌, ◌≡◌, ◌≢◌, refl, inl, inr, false, List, [], ◌∷◌, ◌==◌, if◌then◌else◌,
  Bool-cases, length, set, drop, length-set, arith,
}
use brackos.Base.Outcome.{ok, fault, Returns, returns, Returns-ok, Returns-bind}
use brackos.Std.Kprint.{kputs, digit_fuel, signed_digits, kprint_int, is_negative, negate}
use brackos.Std.Kprint.Decimal.{IsDecimal, Put, put_digits-Put, kputs-cons, kputs-end}

-- The text is `-` and the numeral of the magnitude, or the numeral alone.
abbrev pub IsSigned : ℕ → List ℕ → Type 0
IsSigned n out =
    (t : List ℕ) × (out ≡ (if is_negative n then b'-' ∷ t else t))
    × IsDecimal (if is_negative n then 2 ^ 32 - n else n) t

digits :
    (tmp : List ℕ) (n : ℕ)
    → 13 ≤ length tmp
    → 0 < n
    → n < 2 ^ 31
    → Returns (Put n 12 10 (set tmp 12 0) []) (signed_digits n 12 (set tmp 12 0))
unfolding signed_digits
digits tmp n ht h0 hn =
    let positive : is_negative n ≡ false = ground arith in
    rw positive (
      put_digits-Put digit_fuel 10 n 12 (set tmp 12 0) [] (omega arith) (omega arith)
        (omega (arith, length-set tmp 12 0)) (omega arith) (kputs-end tmp 12 ht) tt
        (inr (ground arith)))

Put-IsDecimal :
    (n : ℕ) (buf : List ℕ) (r : ℕ × List ℕ) (p : Put n 12 10 buf [] r) → IsDecimal n p.text
Put-IsDecimal n buf r p = record {
  value_is = p.value_is;
  all_digits = p.all_digits;
  no_zero_first = inl p.no_zero_first;
  short = omega (arith, p.room, p.longer);
}

-- Of every 32-bit pattern but that of the least number, `kprint_int` stays inside its buffer and
-- prints a minus sign for a negative number, and the decimal numeral of the magnitude.
pub kprint_int-IsSigned :
    (tmp : List ℕ) (n : ℕ)
    → 13 ≤ length tmp
    → n < 2 ^ 32
    → n ≢ 2 ^ 31
    → (out : List ℕ) × (kprint_int tmp n ≡ ok out) × IsSigned n out
unfolding kprint_int
kprint_int-IsSigned tmp n ht hn hm = elim (Bool-cases (n == 0)) [
  | inl z ↦ let e : n ≡ 0 = ground arith in rw e (b'0' ∷ [], refl, (b'0' ∷ [], refl, zero_text))
  | inr nz ↦ elim (Bool-cases (is_negative n)) [
    | inl neg ↦
        rw (nz, neg)
          (Returns-ok (
            Returns-bind (digits tmp (negate n) ht (ground arith) (ground arith))
              λ r p. sign r p (ground arith)))
    | inr pos ↦
        rw (nz, pos)
          (Returns-ok (
            Returns-bind (digits tmp n ht (ground arith) (ground arith))
              λ r p. rw p.printed (returns (p.text, refl, Put-IsDecimal n (set tmp 12 0) r p))))
  ]
]
  where
    zero_text : IsDecimal 0 (b'0' ∷ [])
    zero_text = record {
      value_is = refl;
      all_digits = omega arith;
      no_zero_first = inr refl;
      short = omega arith;
    }

    sign :
        (r : ℕ × List ℕ) (p : Put (negate n) 12 10 (set tmp 12 0) [] r)
        → 2 ^ 31 < n
        → Returns
            (λ out. (t : List ℕ) × (out ≡ b'-' ∷ t) × IsDecimal (2 ^ 32 - n) t)
            (if r.0 == 0 then fault else kputs (drop (r.0 - 1) (set r.1 (r.0 - 1) b'-')))
    sign r p h =
        let inside : (r.0 == 0) ≡ false = ground (arith, p.room) in
        let back : suc (r.0 - 1) ≡ r.0 = omega (arith, p.room) in
        let magnitude : negate n ≡ 2 ^ 32 - n = omega arith in
        let same : kputs (drop (suc (r.0 - 1)) r.1) ≡ ok p.text = rw back p.printed in
        rw
          (
            inside,
            kputs-cons r.1 (r.0 - 1) b'-' p.text
                (omega (arith, p.longer, p.size, length-set tmp 12 0)) (omega arith) same,
          )
          (returns (p.text, refl, rw magnitude at (Put-IsDecimal (negate n) (set tmp 12 0) r p)))

-- Of the least number, `kprint_int` prints the sign and no digit.
pub kprint_int-least : (tmp : List ℕ) → 13 ≤ length tmp → kprint_int tmp (2 ^ 31) ≡ ok (b'-' ∷ [])
unfolding kprint_int
kprint_int-least tmp ht =
    kputs-cons (set tmp 12 0) 11 b'-' [] (omega (arith, length-set tmp 12 0)) (omega arith)
      (kputs-end tmp 12 ht)
