-- ===== src/Std/Math.antt =====
-- std/math.c: `ipow`, the power of two `unsigned int`.
pub mod Power
mod Tests
use brackos.Base.{ℕ, zero, suc, ◌+◌, ◌*◌, ◌/◌, ◌%◌, ◌^◌, Bool, true, false, ◌==◌, if◌then◌else◌}
use brackos.Base.Outcome.{Outcome, ok, out_of_fuel}

-- the `while` of `ipow`, on fuel: `& 1` is the remainder by 2 and `>> 1` the quotient
pub ipow_loop : ℕ → (result base exponent : ℕ) → Outcome ℕ
ipow_loop zero result base exponent = out_of_fuel
ipow_loop (suc fuel) result base exponent =
    let result1 = if exponent % 2 == 1 then result * base % 2 ^ 32 else result in
    let rest = ipow_loop fuel result1 (base * base % 2 ^ 32) (exponent / 2) in
    if exponent == 0 then ok result else rest

-- Each round drops a digit of the exponent: it has 32, and one round more ends the loop.
unfoldable pub ipow : (base exponent : ℕ) → Outcome ℕ
unfolding ipow_loop
ipow base exponent = ipow_loop 33 1 base exponent
