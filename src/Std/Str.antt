-- ===== src/Std/Str.antt =====
-- std/string.c: strings and copies, on memory as a function from addresses to bytes. A walk over a string
-- takes fuel. Counts stay below 2 ^ 31, where the `int` of a loop does.
pub mod Copy
pub mod Text
mod Tests
use brackos.Base.{
  ℕ, zero, suc, ◌+◌, ◌-◌, ◌*◌, ◌%◌, ◌/◌, ◌^◌, Bool, true, false, not, ◌&&◌, ◌||◌, List, [], ◌∷◌,
  ltb, leb, ◌==◌, if◌then◌else◌,
}
use brackos.Base.Outcome.{Outcome, ok, fault, out_of_fuel, ◌>>=◌}
use brackos.Base.Word.{sub32}

abbrev pub Bytes : Type 0
Bytes = ℕ → ℕ

abbrev pub put : (at value : ℕ) → Bytes → Bytes
put at value m = λ q. if q == at then value else m q

-- the loop of `strlen`
unfoldable pub len_from : (fuel i str : ℕ) → Bytes → Outcome ℕ
len_from zero i str m = out_of_fuel
len_from (suc fuel) i str m =
    let rest = len_from fuel (i + 1) (str + 1) m in if m str == 0 then ok i else rest

unfoldable pub strlen : (fuel str : ℕ) → Bytes → Outcome ℕ
strlen fuel str m = len_from fuel 0 str m

-- the loop of `strnlen`
unfoldable pub nlen_from : (n fuel i str : ℕ) → Bytes → Outcome ℕ
nlen_from n zero i str m = out_of_fuel
nlen_from n (suc fuel) i str m =
    let rest = nlen_from n fuel (i + 1) (str + 1) m in
    if m str == 0 then ok i else if leb n (i + 1) then ok n else rest

unfoldable pub strnlen : (fuel str n : ℕ) → Bytes → Outcome ℕ
strnlen fuel str n m = nlen_from n fuel 0 str m

-- The answer is where `dest` stands at the end.
unfoldable pub memcpy : (dest src count : ℕ) → Bytes → ℕ × Bytes
memcpy dest src zero m = (dest, m)
memcpy dest src (suc count) m = memcpy (dest + 1) (src + 1) count (put dest (m src) m)

-- the loop of `memset`, and of `memsetw`, which writes two bytes for each
unfoldable pub set_from : (dest c count : ℕ) → Bytes → Bytes
set_from dest c zero m = m
set_from dest c (suc count) m = set_from (dest + 1) c count (put dest c m)

unfoldable pub memset : (dest c count : ℕ) → Bytes → ℕ × Bytes
memset dest c count m = (dest, set_from dest (c % 256) count m)

unfoldable pub setw_from : (dest c count : ℕ) → Bytes → Bytes
setw_from dest c zero m = m
setw_from dest c (suc count) m =
    setw_from (dest + 2) c count (put (dest + 1) (c / 256 % 256) (put dest (c % 256) m))

unfoldable pub memsetw : (dest c count : ℕ) → Bytes → ℕ × Bytes
memsetw dest c count m = (dest, setw_from dest c count m)

-- `block` is what `kmalloc` answers.
unfoldable pub strdup : (fuel block str : ℕ) → Bytes → Outcome (ℕ × Bytes)
strdup fuel block str m = strlen fuel str m >>= λ len.
    if block == 0 then ok (0, m) else ok (block, (memcpy block str (len + 1) m).1)

-- a `char`, which has a sign, as a 32-bit pattern
abbrev pub widen : ℕ → ℕ
widen c = if ltb c 128 then c else c + 4294967040

unfoldable pub strcmp : (fuel a b : ℕ) → Bytes → Outcome ℕ
strcmp zero a b m = out_of_fuel
strcmp (suc fuel) a b m =
    let rest = strcmp fuel (a + 1) (b + 1) m in
    if not (m a == 0) && (m a == m b) then rest else ok (sub32 (widen (m a)) (widen (m b)))

unfoldable pub strcpy : (fuel a b : ℕ) → Bytes → Outcome Bytes
strcpy fuel a b m = strlen fuel b m >>= λ len. ok (memcpy a b (len + 1) m).1
