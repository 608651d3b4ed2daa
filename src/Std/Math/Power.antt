-- ===== src/Std/Math/Power.antt =====
-- `ipow` of std/math.c is the power, modulo 2 ^ 32.
use brackos.Base.{
  ℕ, zero, suc, ◌+◌, ◌*◌, ◌/◌, ◌%◌, ◌^◌, ◌<◌, ◌≡◌, sym, ap, ◌∙◌, false, ◌==◌, Bool-cases, inl, inr,
  arith,
}
use native.Mathlib.Nat.{
  pow-succ', pow-zero, two-pow-succ, add-mul-mod_self_right, div-add-mod', mul_comm, mul_assoc,
}
use brackos.Base.Outcome.{ok}
use brackos.Std.Math.{ipow_loop, ipow}

mod-mul : (a b m : ℕ) → (a % m) * b % m ≡ a * b % m
mod-mul a b m = sym (
    ap (λ k. k * b % m) (sym (div-add-mod' a m))
    ∙ ap (λ k. k % m) ring
    ∙ add-mul-mod_self_right (a % m * b) (a / m * b) m)
  where
    ring : (a / m * m + a % m) * b ≡ a % m * b + a / m * b * m
    ring = grind arith

mul-mod : (a b m : ℕ) → a * (b % m) % m ≡ a * b % m
mul-mod a b m =
    ap (λ k. k % m) (mul_comm a (b % m)) ∙ mod-mul b a m ∙ ap (λ k. k % m) (mul_comm b a)

pow-mod : (b e m : ℕ) → (b % m) ^ e % m ≡ b ^ e % m
pow-mod b zero m = ap (λ k. k % m) (pow-zero (b % m) ∙ sym (pow-zero b))
pow-mod b (suc e) m =
    ap (λ k. k % m) (pow-succ' (b % m) e)
    ∙ mod-mul b ((b % m) ^ e) m
    ∙ sym (mul-mod b ((b % m) ^ e) m)
    ∙ ap (λ k. b * k % m) (pow-mod b e m)
    ∙ mul-mod b (b ^ e) m
    ∙ ap (λ k. k % m) (sym (pow-succ' b e))

square-pow : (b k : ℕ) → (b * b) ^ k ≡ b ^ (k + k)
square-pow b zero = pow-zero (b * b) ∙ sym (pow-zero b)
square-pow b (suc k) =
    pow-succ' (b * b) k
    ∙ ap (λ x. b * b * x) (square-pow b k)
    ∙ mul_assoc b b (b ^ (k + k))
    ∙ ap (λ x. b * x) (sym (pow-succ' b (k + k)))
    ∙ sym (pow-succ' b (suc (k + k)))
    ∙ ap (λ e. b ^ e) (omega arith)

square-mod : (r b h m : ℕ) → r * (b * b % m) ^ h % m ≡ r * b ^ (h + h) % m
square-mod r b h m =
    sym (mul-mod r ((b * b % m) ^ h) m)
    ∙ ap (λ k. r * k % m) (pow-mod (b * b) h m)
    ∙ mul-mod r ((b * b) ^ h) m
    ∙ ap (λ k. r * k % m) (square-pow b h)

no_factor : (r b : ℕ) → r < 2 ^ 32 → r ≡ r * b ^ 0 % 2 ^ 32
no_factor r b small = sym (ap (λ k. r * k % 2 ^ 32) (pow-zero b) ∙ omega arith)

odd_step :
    (r b e : ℕ)
    → e % 2 ≡ 1
    → (r * b % 2 ^ 32) * (b * b % 2 ^ 32) ^ (e / 2) % 2 ^ 32 ≡ r * b ^ e % 2 ^ 32
odd_step r b e odd =
    let h = e / 2 in
    mod-mul (r * b) ((b * b % 2 ^ 32) ^ h) (2 ^ 32)
    ∙ square-mod (r * b) b h (2 ^ 32)
    ∙ ap (λ k. k % 2 ^ 32)
        (mul_assoc r b (b ^ (h + h)) ∙ ap (λ k. r * k) (sym (pow-succ' b (h + h))))
    ∙ ap (λ k. r * b ^ k % 2 ^ 32) (omega (arith, odd))

even_step : (r b e : ℕ) → e % 2 ≡ 0 → r * (b * b % 2 ^ 32) ^ (e / 2) % 2 ^ 32 ≡ r * b ^ e % 2 ^ 32
even_step r b e even =
    square-mod r b (e / 2) (2 ^ 32) ∙ ap (λ k. r * b ^ k % 2 ^ 32) (omega (arith, even))

ipow_loop-power :
    (fuel r b e : ℕ)
    → e < 2 ^ fuel
    → r < 2 ^ 32
    → ipow_loop (suc fuel) r b e ≡ ok (r * b ^ e % 2 ^ 32)
unfolding ipow_loop
ipow_loop-power zero r b zero h small = ap ok (no_factor r b small)
ipow_loop-power zero r b (suc k) h small = absurd (omega arith)
ipow_loop-power (suc fuel) r b zero h small = ap ok (no_factor r b small)
ipow_loop-power (suc fuel) r b (suc k) h small = elim (Bool-cases (suc k % 2 == 1)) [
  | inl e ↦
      let more : (suc k == 0) ≡ false = ground arith in
      rw more (
        rw e (
          ipow_loop-power fuel (r * b % 2 ^ 32) (b * b % 2 ^ 32) (suc k / 2)
            (omega (arith, h, two-pow-succ fuel)) (omega arith)
          ∙ ap ok (odd_step r b (suc k) (ground arith))))
  | inr ne ↦
      let more : (suc k == 0) ≡ false = ground arith in
      rw more (
        rw ne (
          ipow_loop-power fuel r (b * b % 2 ^ 32) (suc k / 2) (omega (arith, h, two-pow-succ fuel))
            small
          ∙ ap ok (even_step r b (suc k) (ground arith))))
]

-- `ipow` of any two 32-bit numbers returns the power, modulo 2 ^ 32.
pub ipow-power :
    (base exponent : ℕ) → exponent < 2 ^ 32 → ipow base exponent ≡ ok (base ^ exponent % 2 ^ 32)
unfolding ipow
ipow-power base exponent h =
    ipow_loop-power 32 1 base exponent h (omega arith) ∙ ap (λ k. ok (k % 2 ^ 32)) (omega arith)
