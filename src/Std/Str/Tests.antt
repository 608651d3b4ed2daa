-- ===== src/Std/Str/Tests.antt =====
-- Runs of std/string.c, and the theorems at small strings.
use brackos.Base.{
  ℕ, ◌+◌, ◌-◌, ◌%◌, ◌≤◌, ◌<◌, ◌≡◌, ◌≢◌, refl, ◌⊎◌, inr, List, [], ◌∷◌, ◌==◌, if◌then◌else◌, arith,
}
use brackos.Base.Outcome.{ok, ◌>>=◌, Returns}
use brackos.Std.Str.{
  Bytes, memcpy, strlen, len_from, strnlen, nlen_from, strcmp, strcpy, strdup, memset, memsetw,
  set_from, setw_from,
}
use brackos.Std.Str.Copy.{memcpy-Copied}
use brackos.Std.Str.Text.{IsString, strcmp_lem, strcpy_lem}

-- "ab" at 10 and "ac" at 20
abbrev two : Bytes
two q =
    if q == 10
    then 97
    else if q == 11
    then 98
    else if q == 20
    then 97
    else if q == 21
    then 99
    else 0

measures : strlen 5 10 two ≡ ok 2
unfolding strlen len_from
measures = refl

limits : strnlen 5 10 1 two ≡ ok 1
unfolding strnlen nlen_from
limits = refl

differs : strcmp 5 10 20 two ≡ ok 4294967295
unfolding strcmp
differs = refl

doubles : (strdup 5 40 20 two >>= λ r. ok (r.1 41)) ≡ ok 99
unfolding strdup strlen len_from memcpy
doubles = refl

fills : (memsetw 30 513 2 (memset 30 7 4 two).1).1 33 ≡ 2
unfolding memset memsetw set_from setw_from
fills = refl

-- Copying by one byte upwards smears the first byte.
smears : (memcpy 11 10 3 two).1 13 ≡ 97
unfolding memcpy
smears = refl

memcpy-Copied_example :
    ((memcpy 11 10 3 two).0 ≡ 11 + 3)
    × ((((13 < 11) ⊎ (11 + 3 ≤ 13)) × ((memcpy 11 10 3 two).1 13 ≡ two 13))
        ⊎ ((11 ≤ 13)
            × (13 < 11 + 3)
            × ((11 ≤ 10) ⊎ (10 + 3 ≤ 11))
            × ((memcpy 11 10 3 two).1 13 ≡ two (10 + (13 - 11))))
        ⊎ ((11 ≤ 13)
            × (13 < 11 + 3)
            × (10 < 11)
            × (11 < 10 + 3)
            × ((memcpy 11 10 3 two).1 13 ≡ two (10 + (13 - 11) % (11 - 10)))))
memcpy-Copied_example = memcpy-Copied 11 10 3 two 13

abbrev ab : List ℕ
ab = 97 ∷ (98 ∷ [])

abbrev ac : List ℕ
ac = 97 ∷ (99 ∷ [])

strcmp_lem_example :
    Returns (λ r. ((ab ≡ ac) × (r ≡ 0)) ⊎ ((ab ≢ ac) × (r ≢ 0))) (strcmp 5 10 20 two)
strcmp_lem_example =
    strcmp_lem 5 10 20 two ab ac
      (refl, omega arith, omega arith, (refl, omega arith, omega arith, refl))
      (refl, omega arith, omega arith, (refl, omega arith, omega arith, refl)) (omega arith)

strcpy_lem_instance :
    Returns
      (λ n. IsString n 60 ab × ((q : ℕ) → (q < 60) ⊎ (60 + 2 + 1 ≤ q) → n q ≡ two q))
      (strcpy 5 60 10 two)
strcpy_lem_instance =
    strcpy_lem 5 60 10 two ab
      (refl, omega arith, omega arith, (refl, omega arith, omega arith, refl)) (omega arith)
      (inr (omega arith))
