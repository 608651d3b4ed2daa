-- ===== src/Std/Kprint.antt =====
-- std/kprint.c: a function returns the characters that it passes to `kputch`, in order. An
-- `unsigned long` has 32 bits here; a signed number is its bit pattern.
pub mod Decimal
pub mod Signed
pub mod Hex
pub mod Memory
pub mod Format
mod Tests
use brackos.Base.{
  ℕ, zero, suc, ◌+◌, ◌-◌, ◌*◌, ◌/◌, ◌%◌, ◌^◌, Bool, true, false, not, ◌&&◌, ◌||◌, List, [], ◌∷◌,
  ◌++◌, ltb, leb, ◌==◌, if◌then◌else◌, get_or, set, drop,
}
use brackos.Base.Outcome.{Outcome, ok, fault, out_of_fuel, ◌>>=◌}

abbrev digits_upper : List ℕ
digits_upper =
    b'0' ∷ b'1' ∷ b'2' ∷ b'3' ∷ b'4' ∷ b'5' ∷ b'6' ∷ b'7' ∷ b'8' ∷ b'9' ∷ b'A' ∷ b'B' ∷ b'C' ∷ b'D'
    ∷ b'E' ∷ b'F' ∷ []

abbrev digits_lower : List ℕ
digits_lower =
    b'0' ∷ b'1' ∷ b'2' ∷ b'3' ∷ b'4' ∷ b'5' ∷ b'6' ∷ b'7' ∷ b'8' ∷ b'9' ∷ b'a' ∷ b'b' ∷ b'c' ∷ b'd'
    ∷ b'e' ∷ b'f' ∷ []

unfoldable pub hex_char : Bool → ℕ → ℕ
hex_char capital d = get_or (if capital then digits_upper else digits_lower) d 0

-- `c` is the byte, 0 to 255.
unfoldable pub kputch_hex : ℕ → (capital pad : Bool) → List ℕ
kputch_hex c capital pad =
    let high = c / 16 in
    let low = c % 16 in
    if not (high == 0) || pad
    then hex_char capital high ∷ hex_char capital low ∷ []
    else hex_char capital low ∷ []

-- `kputs`: the bytes up to the first 0; the end of the array before one is a fault.
unfoldable pub kputs : List ℕ → Outcome (List ℕ)
kputs [] = fault
kputs (c ∷ cs) = let rest = kputs cs in if c == 0 then ok [] else (rest >>= λ out. ok (c ∷ out))

-- `tmp[index--] = '0' + (n % 10); n /= 10`, while `n > 0`. `next` is `index + 1`, so that a write
-- at `index` -1 is the fault at `next` 0.
pub put_digits : ℕ → (n next : ℕ) → List ℕ → Outcome (ℕ × List ℕ)
put_digits zero n next tmp = out_of_fuel
put_digits (suc fuel) n next tmp =
    let rest = put_digits fuel (n / 10) (next - 1) (set tmp (next - 1) (b'0' + n % 10)) in
    if n == 0 then ok (next, tmp) else if next == 0 then fault else rest

-- The loop runs once for each digit; a 32-bit number has ten at most.
abbrev pub digit_fuel : ℕ
digit_fuel = 11

-- `tmp` is what stands on the stack: the code writes its last byte and those that it prints.
unfoldable pub kprint_uint : List ℕ → ℕ → Outcome (List ℕ)
kprint_uint tmp n =
    if n == 0
    then ok (b'0' ∷ [])
    else (put_digits digit_fuel n 11 (set tmp 11 0) >>= λ (next, buf). kputs (drop next buf))

-- `-n` of the least number is that number again (the wrap of two's complement).
abbrev pub negate : ℕ → ℕ
negate n = (2 ^ 32 - n) % 2 ^ 32

abbrev pub is_negative : ℕ → Bool
is_negative n = leb (2 ^ 31) n

-- The digits of a signed number: the loop does not start on a negative one.
pub signed_digits : ℕ → (next : ℕ) → List ℕ → Outcome (ℕ × List ℕ)
signed_digits n next tmp =
    if is_negative n then ok (next, tmp) else put_digits digit_fuel n next tmp

unfoldable pub kprint_int : List ℕ → ℕ → Outcome (List ℕ)
unfolding signed_digits
kprint_int tmp n =
    if n == 0
    then ok (b'0' ∷ [])
    else (signed_digits (if is_negative n then negate n else n) 12 (set tmp 12 0) >>= λ (next, buf).
        if is_negative n
        then (if next == 0 then fault else kputs (drop (next - 1) (set buf (next - 1) b'-')))
        else kputs (drop next buf))

-- the `for` of `kprint_hex_uint`; `i` is one more than the loop's
pub hex_bytes : (i n : ℕ) → (capital pad first : Bool) → List ℕ
hex_bytes zero n capital pad first = []
hex_bytes (suc i) n capital pad first =
    let byte = n / 2 ^ (8 * i) % 256 in
    let skipped = hex_bytes i n capital pad first in
    let rest = hex_bytes i n capital pad false in
    if first && byte == 0
    then skipped
    else kputch_hex byte capital (if not first then true else pad) ++ rest

unfoldable pub kprint_hex_uint : ℕ → (capital pad : Bool) → List ℕ
kprint_hex_uint n capital pad = if n == 0 then b'0' ∷ [] else hex_bytes 4 n capital pad true

-- `log2(X)`, that is `31 - __builtin_clz((X) | 1)`: the place of the highest bit, 0 for 0
pub log2_from : ℕ → ℕ → ℕ
log2_from zero n = 0
log2_from (suc k) n = if leb (2 ^ suc k) n then suc k else log2_from k n

unfoldable pub log2 : ℕ → ℕ
log2 = log2_from 31

abbrev bases : List ℕ
bases = b'K' ∷ b'M' ∷ b'G' ∷ b'T' ∷ b'P' ∷ b'E' ∷ b'Z' ∷ b'Y' ∷ []

-- `while ( value >= 1024 ) value /= 1024`, on fuel
pub scale : ℕ → ℕ → ℕ
scale zero value = value
scale (suc fuel) value =
    let rest = scale fuel (value / 1024) in if leb 1024 value then rest else value

unfoldable pub kprint_memory : List ℕ → ℕ → Outcome (List ℕ)
kprint_memory tmp value =
    let base = log2 value / 10 in
    let prefix = if not (base == 0) && ltb base 8 then get_or bases (base - 1) 0 else 0 in
    let scaled = if ltb 0 base then scale 4 value else value in
    (kprint_uint tmp scaled >>= λ out.
    ok (out ++ ((if prefix == 0 then [] else prefix ∷ []) ++ (b'B' ∷ []))))

-- What `va_arg` takes: a word, or a pointer to the bytes of a string.
pub data Arg : Type 0 where
  word : ℕ → Arg
  text : List ℕ → Arg

-- One conversion: the characters printed and the arguments left. `va_arg` at another type, or past
-- the last argument, is a fault.
unfoldable pub convert : List ℕ → ℕ → List Arg → Outcome (List ℕ × List Arg)
convert tmp c args =
    if c == b'%'
    then ok ([], args)
    else if c == b'i' || c == b'd'
    then take_word (λ n. kprint_int tmp n) args
    else if c == b'm'
    then take_word (λ n. kprint_memory tmp n) args
    else if c == b'u'
    then take_word (λ n. kprint_uint tmp n) args
    else if c == b's'
    then take_text args
    else if c == b'c'
    then take_word (λ n. ok (n % 256 ∷ [])) args
    else if c == b'p' || c == b'x'
    then take_word (λ n. ok (kprint_hex_uint n false false)) args
    else if c == b'X'
    then take_word (λ n. ok (kprint_hex_uint n true false)) args
    else ok ([], args)
  where
    take_word : (ℕ → Outcome (List ℕ)) → List Arg → Outcome (List ℕ × List Arg)
    take_word print (word n ∷ rest) = print n >>= λ out. ok (out, rest)
    take_word print (text s ∷ rest) = fault
    take_word print [] = fault

    take_text : List Arg → Outcome (List ℕ × List Arg)
    take_text (text s ∷ rest) = kputs s >>= λ out. ok (out, rest)
    take_text (word n ∷ rest) = fault
    take_text [] = fault

-- `kprintf`, over the bytes of the format with the 0 that ends it. After a `%` at the very end the
-- 0 is passed over, and the next read is beyond the string.
unfoldable pub kprintf : List ℕ → List ℕ → List Arg → Outcome (List ℕ)
kprintf tmp [] args = fault
kprintf tmp (c ∷ []) args = if c == 0 then ok [] else fault
kprintf tmp (c ∷ (d ∷ format)) args =
    let passed = kprintf tmp format args in
    let plain = kprintf tmp (d ∷ format) args in
    if c == 0
    then ok []
    else if c == b'%'
    then (if d == 0
        then passed
        else (convert tmp d args >>= λ (out, rest).
            kprintf tmp format rest >>= λ more. ok (out ++ more)))
    else (plain >>= λ more. ok (c ∷ more))
