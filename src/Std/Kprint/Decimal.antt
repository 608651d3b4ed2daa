-- ===== src/Std/Kprint/Decimal.antt =====
-- `kprint_uint` of std/kprint.c prints the number in decimal.
use brackos.Base.{
  ℕ, zero, suc, ◌+◌, ◌-◌, ◌*◌, ◌/◌, ◌%◌, ◌^◌, ◌≤◌, ◌<◌, ◌≡◌, ◌≢◌, refl, ◌∙◌, ◌⊎◌, inl, inr, true,
  false, List, [], ◌∷◌, ◌==◌, Bool-cases, length, set, drop, length-set, arith,
}
use brackos.Base.Outcome.{ok, Returns, returns, Returns-ok, Returns-mono, Returns-bind}
use brackos.Std.Kprint.{kputs, put_digits, digit_fuel, kprint_uint}

-- the number that the characters stand for, read after `acc`
abbrev pub value : ℕ → List ℕ → ℕ
value acc [] = acc
value acc (c ∷ cs) = value (acc * 10 + (c - b'0')) cs

abbrev pub AllDigits : List ℕ → Type 0
AllDigits [] = Unit
AllDigits (c ∷ cs) = (b'0' ≤ c) × (c ≤ b'9') × AllDigits cs

abbrev pub first : List ℕ → ℕ
first [] = 0
first (c ∷ cs) = c

-- The text is the decimal numeral of `n`: digits only, no zero in front, at most ten of them.
pub record IsDecimal (n : ℕ) (out : List ℕ) : Type 0 where
  pub value_is : value 0 out ≡ n
  pub all_digits : AllDigits out
  pub no_zero_first : (first out ≢ b'0') ⊎ (n ≡ 0)
  pub short : length out ≤ 10

abbrev pub pow10 : ℕ → ℕ
pow10 zero = 1
pow10 (suc k) = 10 * pow10 k

drop-set : (buf : List ℕ) (i c : ℕ) → i < length buf → drop i (set buf i c) ≡ c ∷ drop (suc i) buf
drop-set [] i c h = absurd (omega arith)
drop-set (x ∷ xs) zero c h = refl
drop-set (x ∷ xs) (suc i) c h = drop-set xs i c (omega arith)

pub kputs-cons :
    (buf : List ℕ) (i c : ℕ) (s : List ℕ)
    → i < length buf
    → c ≢ 0
    → kputs (drop (suc i) buf) ≡ ok s
    → kputs (drop i (set buf i c)) ≡ ok (c ∷ s)
unfolding kputs
kputs-cons buf i c s h hc e =
    let some_char : (c == 0) ≡ false = ground arith in rw (drop-set buf i c h, some_char, e)

pub kputs-end : (buf : List ℕ) (i : ℕ) → i < length buf → kputs (drop i (set buf i 0)) ≡ ok []
unfolding kputs
kputs-end buf i h = rw (drop-set buf i 0 h)

-- Where the digit loop stops: the text from `next` on is what was there, with the digits in front.
pub record Put (n next k : ℕ) (buf s : List ℕ) (r : ℕ × List ℕ) : Type 0 where
  pub text : List ℕ
  pub printed : kputs (drop r.0 r.1) ≡ ok text
  pub value_is : value 0 text ≡ value n s
  pub all_digits : AllDigits text
  pub no_zero_first : first text ≢ b'0'
  pub room : next ≤ r.0 + k
  pub size : length r.1 ≡ length buf
  pub longer : length text + r.0 ≡ length s + next

pub put_digits-Put :
    (fuel k n next : ℕ) (buf s : List ℕ)
    → k < fuel
    → k ≤ next
    → next < length buf
    → n < pow10 k
    → kputs (drop next buf) ≡ ok s
    → AllDigits s
    → (first s ≢ b'0') ⊎ (n ≢ 0)
    → Returns (Put n next k buf s) (put_digits fuel n next buf)
unfolding put_digits
put_digits-Put zero k n next buf s hf hk hl hn e d l = absurd (omega arith)
put_digits-Put (suc fuel) zero n next buf s hf hk hl hn e d l =
    let none_left : (n == 0) ≡ true = ground arith in rw none_left (returns (done (omega arith)))
  where
    done : n ≡ 0 → Put n next 0 buf s (next, buf)
    done z = record {
      text = s;
      printed = e;
      value_is = rw z;
      all_digits = d;
      no_zero_first = ground arith;
      room = omega arith;
      size = refl;
      longer = refl;
    }
put_digits-Put (suc fuel) (suc k) n zero buf s hf hk hl hn e d l = absurd (omega arith)
put_digits-Put (suc fuel) (suc k) n (suc i) buf s hf hk hl hn e d l = elim (Bool-cases (n == 0)) [
  | inl z ↦ rw z (returns (done (ground arith)))
  | inr nz ↦
      let place : suc i - 1 ≡ i = omega arith in
      let some_place : (suc i == 0) ≡ false = ground arith in
      rw (nz, some_place, place)
        (Returns-mono (step (ground arith)) (
          put_digits-Put fuel k (n / 10) i (set buf i (b'0' + n % 10)) ((b'0' + n % 10) ∷ s)
            (omega arith) (omega arith) (omega (arith, length-set buf i (b'0' + n % 10)))
            (omega arith) (kputs-cons buf i (b'0' + n % 10) s (omega arith) (omega arith) e)
            (omega arith, omega arith, d) (leading (ground arith))))
]
  where
    done : n ≡ 0 → Put n (suc i) (suc k) buf s (suc i, buf)
    done z = record {
      text = s;
      printed = e;
      value_is = rw z;
      all_digits = d;
      no_zero_first = ground arith;
      room = omega arith;
      size = refl;
      longer = refl;
    }

    leading : n ≢ 0 → (b'0' + n % 10 ≢ b'0') ⊎ (n / 10 ≢ 0)
    leading h = elim (Bool-cases (n / 10 == 0)) [
      | inl z ↦ inl (ground arith)
      | inr more ↦ inr (ground arith)
    ]

    same : n / 10 * 10 + (b'0' + n % 10 - b'0') ≡ n
    same = omega arith

    step :
        n ≢ 0
        → (r : ℕ × List ℕ) → Put (n / 10) i k (set buf i (b'0' + n % 10)) ((b'0' + n % 10) ∷ s) r
        → Put n (suc i) (suc k) buf s r
    step h r p = record {
      text = p.text;
      printed = p.printed;
      value_is = rw same at p.value_is;
      all_digits = p.all_digits;
      no_zero_first = p.no_zero_first;
      room = omega (arith, p.room);
      size = p.size ∙ length-set buf i (b'0' + n % 10);
      longer = omega (arith, p.longer);
    }

-- `kprint_uint` of a 32-bit number stays inside its buffer and prints the number's decimal numeral.
pub kprint_uint-IsDecimal :
    (tmp : List ℕ) (n : ℕ)
    → 12 ≤ length tmp
    → n < 2 ^ 32
    → (out : List ℕ) × (kprint_uint tmp n ≡ ok out) × IsDecimal n out
unfolding kprint_uint
kprint_uint-IsDecimal tmp n ht hn = elim (Bool-cases (n == 0)) [
  | inl z ↦ (
    b'0' ∷ [],
    rw z,
    record {
      value_is = ground arith;
      all_digits = omega arith;
      no_zero_first = ground arith;
      short = omega arith;
    },
  )
  | inr nz ↦
      let (text, e, p) = Returns-ok (
        Returns-bind
          (put_digits-Put digit_fuel 10 n 11 (set tmp 11 0) [] (omega arith) (omega arith)
            (omega (arith, length-set tmp 11 0)) (omega arith) (kputs-end tmp 11 ht) tt
            (inr (ground arith)))
          λ r p. to_text r p) in
      (text, rw nz e, p)
]
  where
    to_text :
        (r : ℕ × List ℕ)
        → Put n 11 10 (set tmp 11 0) [] r
        → Returns (IsDecimal n) (kputs (drop r.0 r.1))
    to_text r p = rw p.printed (
        returns (record {
          value_is = p.value_is;
          all_digits = p.all_digits;
          no_zero_first = inl p.no_zero_first;
          short = omega (arith, p.room, p.longer);
        }))
