-- ===== src/Std/Math/Tests.antt =====
-- A run of std/math.c, and the theorem at it.
use brackos.Base.{◌%◌, ◌^◌, ◌≡◌, refl, arith}
use brackos.Base.Outcome.{ok}
use brackos.Std.Math.{ipow, ipow_loop}
use brackos.Std.Math.Power.{ipow-power}

three_to_five : ipow 3 5 ≡ ok 243
unfolding ipow ipow_loop
three_to_five = refl

ipow-power_example : ipow 3 5 ≡ ok (3 ^ 5 % 2 ^ 32)
ipow-power_example = ipow-power 3 5 (ground arith)
