-- ===== src/Std/Kprint/Format.antt =====
-- `kprintf` of std/kprint.c: what stands between the conversions, and the conversions.
use brackos.Base.{
  ℕ, ◌^◌, ◌≤◌, ◌<◌, ◌≡◌, ◌≢◌, refl, ap, ◌∙◌, false, List, [], ◌∷◌, ◌++◌, ◌==◌, length, arith,
}
use mathlib.Core.List.{append_assoc, append-nil}
use brackos.Base.Outcome.{Outcome, ok, fault, hang, out_of_fuel, ◌>>=◌}
use brackos.Std.Kprint.{Arg, word, kprintf, convert, kprint_uint}
use brackos.Std.Kprint.Decimal.{IsDecimal, kprint_uint-IsDecimal}

-- Characters that `kprintf` copies: neither a 0 nor a `%`.
abbrev pub IsLiteral : List ℕ → Type 0
IsLiteral [] = Unit
IsLiteral (c ∷ cs) = (c ≢ 0) × (c ≢ b'%') × IsLiteral cs

-- output in front of what a later part prints
abbrev pub prepend : List ℕ → Outcome (List ℕ) → Outcome (List ℕ)
prepend s r = r >>= λ out. ok (s ++ out)

prepend-nil : (r : Outcome (List ℕ)) → r ≡ prepend [] r
prepend-nil (ok out) = refl
prepend-nil fault = refl
prepend-nil hang = refl
prepend-nil out_of_fuel = refl

prepend-prepend :
    (s t : List ℕ) (r : Outcome (List ℕ)) → prepend s (prepend t r) ≡ prepend (s ++ t) r
prepend-prepend s t (ok out) = rw append_assoc
prepend-prepend s t fault = refl
prepend-prepend s t hang = refl
prepend-prepend s t out_of_fuel = refl

copy_one :
    (tmp format : List ℕ) (args : List Arg) (c d : ℕ)
    → c ≢ 0
    → c ≢ b'%'
    → kprintf tmp (c ∷ (d ∷ format)) args ≡ prepend (c ∷ []) (kprintf tmp (d ∷ format) args)
unfolding kprintf
copy_one tmp format args c d h0 h1 =
    let t0 : (c == 0) ≡ false = ground arith in
    let t1 : (c == b'%') ≡ false = ground arith in rw (t0, t1)

convert_one :
    (tmp format : List ℕ) (args : List Arg) (d : ℕ)
    → d ≢ 0
    → kprintf tmp (b'%' ∷ (d ∷ format)) args
      ≡ (convert tmp d args >>= λ (out, rest). prepend out (kprintf tmp format rest))
unfolding kprintf
convert_one tmp format args d h = let t0 : (d == 0) ≡ false = ground arith in rw t0

-- Literal characters in front of a format are printed in front of what the format prints.
kprintf-literal :
    (tmp s format : List ℕ) (args : List Arg) (d : ℕ)
    → IsLiteral s
    → kprintf tmp (s ++ (d ∷ format)) args ≡ prepend s (kprintf tmp (d ∷ format) args)
kprintf-literal tmp [] format args d h = prepend-nil (kprintf tmp (d ∷ format) args)
kprintf-literal tmp (c ∷ []) format args d h = copy_one tmp format args c d h.0 h.1
kprintf-literal tmp (c ∷ (c' ∷ s)) format args d h =
    copy_one tmp (s ++ (d ∷ format)) args c c' h.0 h.1
    ∙ ap (prepend (c ∷ [])) (kprintf-literal tmp (c' ∷ s) format args d h.2)
    ∙ prepend-prepend (c ∷ []) (c' ∷ s) (kprintf tmp (d ∷ format) args)

kprintf-nothing : (tmp : List ℕ) (args : List Arg) → kprintf tmp (0 ∷ []) args ≡ ok []
unfolding kprintf
kprintf-nothing tmp args = refl

-- A format of literal characters is printed as it is. A lone `%` at its end makes `kprintf` read
-- beyond the string, whatever stands there; and `%%` prints nothing.
pub kprintf_percent :
    (tmp s : List ℕ) (args : List Arg)
    → IsLiteral s
    → (kprintf tmp (s ++ (0 ∷ [])) args ≡ ok s)
      × (kprintf tmp (s ++ (b'%' ∷ (0 ∷ []))) args ≡ fault)
      × (kprintf tmp (s ++ (b'%' ∷ (b'%' ∷ (0 ∷ [])))) args ≡ ok s)
unfolding kprintf convert
kprintf_percent tmp s args h = (
  kprintf-literal tmp s [] args 0 h ∙ ap ok (append-nil s),
  kprintf-literal tmp s (0 ∷ []) args b'%' h,
  kprintf-literal tmp s (b'%' ∷ (0 ∷ [])) args b'%' h ∙ ap ok (append-nil s),
)

take_unsigned :
    (tmp : List ℕ) (n : ℕ) (t : List ℕ)
    → kprint_uint tmp n ≡ ok t
    → convert tmp b'u' (word n ∷ []) ≡ ok (t, [])
unfolding convert
take_unsigned tmp n t e = rw e

unsigned_then :
    (tmp s : List ℕ) (n : ℕ) (t : List ℕ)
    → kprint_uint tmp n ≡ ok t
    → IsLiteral s
    → kprintf tmp (b'%' ∷ (b'u' ∷ (s ++ (0 ∷ [])))) (word n ∷ []) ≡ ok (t ++ s)
unsigned_then tmp s n t e h =
    let tail : kprintf tmp (s ++ (0 ∷ [])) [] ≡ ok s =
      kprintf-literal tmp s [] [] 0 h ∙ rw kprintf-nothing (ap ok (append-nil s)) in
    convert_one tmp (s ++ (0 ∷ [])) (word n ∷ []) b'u' (omega arith)
    ∙ rw (take_unsigned tmp n t e, tail)

-- `%u` between literal characters prints the decimal numeral of a 32-bit word there.
pub kprintf_unsigned :
    (tmp s s' : List ℕ) (n : ℕ)
    → 12 ≤ length tmp
    → n < 2 ^ 32
    → IsLiteral s
    → IsLiteral s'
    → (t : List ℕ) × (kprintf tmp (s ++ (b'%' ∷ (b'u' ∷ (s' ++ (0 ∷ []))))) (word n ∷ [])
        ≡ ok (s ++ (t ++ s')))
      × IsDecimal n t
kprintf_unsigned tmp s s' n ht hn h h' =
    let (t, e, d) = kprint_uint-IsDecimal tmp n ht hn in
    (
      t,
      kprintf-literal tmp s (b'u' ∷ (s' ++ (0 ∷ []))) (word n ∷ []) b'%' h
          ∙ ap (prepend s) (unsigned_then tmp s' n t e h'),
      d,
    )
