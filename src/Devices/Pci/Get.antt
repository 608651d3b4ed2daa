-- ===== src/Devices/Pci/Get.antt =====
-- kernel/devices/pci/pci.c: what `pci_get` finds in the list of `pci_init`.
use mathlib.Core.Path.{subst}
use brackos.Base.{
  ℕ, zero, suc, ◌+◌, ◌*◌, ◌≤◌, ◌<◌, ◌≡◌, refl, sym, ap, ◌∙◌, ◌⊎◌, Bool, true, false, ◌&&◌, Option,
  none, some, List, [], ◌∷◌, ◌==◌, Bool-cases, Option-cases, inl, inr, arith, length, take,
}
use brackos.Devices.Pci.{Config, PciDevice, pci_device_new, find_from, pci_get, pci_init}
use brackos.Devices.Pci.Probe.{
  function_at, function_at_lem, found, found-suc, with_found, number_from, pci_init-devices,
  pci_init-size,
}

-- the test of `pci_get`
abbrev pub matches : (vendor device : ℕ) → PciDevice → Bool
matches vendor device x = x.vendor == vendor && (x.device == device)

abbrev NoMatch : (vendor device : ℕ) → List PciDevice → Type 0
NoMatch v d [] = Unit
NoMatch v d (x ∷ xs) = (matches v d x ≡ false) × NoMatch v d xs

matches-same : (v d : ℕ) (x : PciDevice) → matches v d x ≡ true → (x.vendor ≡ v) × (x.device ≡ d)
matches-same v d x h = (ground arith, ground arith)

find-hit :
    (n v d : ℕ) (y : PciDevice) (ds : List PciDevice)
    → matches v d y ≡ true
    → find_from (suc n) v d (y ∷ ds) ≡ some y
find-hit n v d y ds k = rw k refl

find-miss :
    (n v d : ℕ) (y : PciDevice) (ds : List PciDevice)
    → matches v d y ≡ false
    → find_from (suc n) v d (y ∷ ds) ≡ find_from n v d ds
find-miss n v d y ds k = rw k refl

some-same : {x y : PciDevice} → some x ≡ some y → x ≡ y
some-same h = cc

some-absurd {ℓ} : {x : PciDevice} {A : Type ℓ} → some x ≡ none → A
some-absurd h = cc

find_from-same :
    (n v d : ℕ) (ds : List PciDevice) (x : PciDevice)
    → find_from n v d ds ≡ some x
    → (x.vendor ≡ v) × (x.device ≡ d)
find_from-same zero v d ds x h = cc
find_from-same (suc n) v d [] x h = cc
find_from-same (suc n) v d (y ∷ ds) x h = elim (Bool-cases (matches v d y)) [
  | inl k ↦ matches-same v d x (ap (matches v d) (some-same (sym h ∙ find-hit n v d y ds k)) ∙ k)
  | inr k ↦ find_from-same n v d ds x (sym (find-miss n v d y ds k) ∙ h)
]

find_from-NoMatch :
    (v d : ℕ) (ds : List PciDevice) → find_from (length ds) v d ds ≡ none → NoMatch v d ds
find_from-NoMatch v d [] h = tt
find_from-NoMatch v d (y ∷ ds) h = elim (Bool-cases (matches v d y)) [
  | inl k ↦ some-absurd (sym (find-hit (length ds) v d y ds k) ∙ h)
  | inr k ↦ (k, find_from-NoMatch v d ds (sym (find-miss (length ds) v d y ds k) ∙ h))
]

NoMatch-number_from :
    (v d i : ℕ) (ds : List PciDevice) → NoMatch v d (number_from i ds) → NoMatch v d ds
NoMatch-number_from v d i [] h = tt
NoMatch-number_from v d i (y ∷ ds) h = (h.0, NoMatch-number_from v d (i + 1) ds h.1)

take-all : (n : ℕ) (ds : List PciDevice) → length ds ≤ n → take n ds ≡ ds
take-all zero [] h = refl
take-all zero (d ∷ ds) h = ground arith
take-all (suc n) [] h = refl
take-all (suc n) (d ∷ ds) h = ap (λ xs. d ∷ xs) (take-all n ds (omega arith))

NoMatch-with_found :
    (v d : ℕ) (o : Option PciDevice) (ds : List PciDevice)
    → NoMatch v d (with_found o ds)
    → NoMatch v d ds
NoMatch-with_found v d none ds h = h
NoMatch-with_found v d (some x) ds h = h.1

plus_zero : (k : ℕ) → k ≡ k + 0
plus_zero k = omega arith

plus_suc : (k i : ℕ) → k + 1 + i ≡ k + suc i
plus_suc k i = omega arith

found-NoMatch :
    (config : Config) (v d n k i : ℕ) (x : PciDevice)
    → NoMatch v d (found config n k)
    → i < n
    → function_at config (k + i) ≡ some x
    → matches v d x ≡ false
found-NoMatch config v d zero k i x h l e = ground arith
found-NoMatch config v d (suc n) k zero x h l e =
    (subst (λ o. NoMatch v d (with_found o (found config n (k + 1))))
      (ap (function_at config) (plus_zero k) ∙ e) (subst (NoMatch v d) (found-suc config n k) h)).0
found-NoMatch config v d (suc n) k (suc i) x h l e =
    found-NoMatch config v d n (k + 1) i x
      (NoMatch-with_found v d (function_at config k) (found config n (k + 1))
        (subst (NoMatch v d) (found-suc config n k) h))
      (omega arith) (ap (function_at config) (plus_suc k i) ∙ e)

init-NoMatch :
    (config : Config) (v d : ℕ)
    → length (found config 65536 0) ≤ 63
    → pci_get v d (pci_init config) ≡ none
    → NoMatch v d (found config 65536 0)
init-NoMatch config v d l h =
    let list = pci_init config in
    NoMatch-number_from v d 0 (found config 65536 0) (
      subst (NoMatch v d)
        (pci_init-devices config ∙ ap (number_from 0) (take-all 63 (found config 65536 0) l))
        (find_from-NoMatch v d list.devices
          (ap (λ n. find_from n v d list.devices) (sym (pci_init-size config)) ∙ h)))

-- `pci_get` on the list of `pci_init`, for at most 63 functions on the busses: it answers a device with
-- the vendor and the device that are asked for; or it answers NULL, and no function of any bus and slot
-- has them both.
pub pci_get-finds :
    (config : Config) (vendor device : ℕ)
    → length (found config 65536 0) ≤ 63
    → ((x : PciDevice) × (pci_get vendor device (pci_init config) ≡ some x)
        × (x.vendor ≡ vendor)
        × (x.device ≡ device))
      ⊎ ((pci_get vendor device (pci_init config) ≡ none)
          × ((bus slot function : ℕ) (x : PciDevice)
              → bus < 256
              → slot < 32
              → function < 8
              → pci_device_new config bus slot function ≡ some x
              → matches vendor device x ≡ false))
pci_get-finds config v d l = elim (Option-cases (pci_get v d (pci_init config))) [
  | inr (x, h) ↦
      let same = find_from-same (pci_init config).size v d (pci_init config).devices x h in
      inl (x, h, same.0, same.1)
  | inl h ↦ inr (
    h,
    λ b s f x lb ls lf e.
        found-NoMatch config v d 65536 0 (b * 256 + s * 8 + f) x (init-NoMatch config v d l h)
          (omega arith)
          (ap (function_at config) (omega arith) ∙ sym (function_at_lem config b s f ls lf) ∙ e),
  )
]
