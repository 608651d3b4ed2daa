-- ===== src/Devices/Pci/Probe.antt =====
-- kernel/devices/pci/pci.c: which functions the list of `pci_init` has.
use brackos.Base.{
  ℕ, zero, suc, ◌+◌, ◌-◌, ◌*◌, ◌/◌, ◌%◌, ◌≤◌, ◌<◌, ◌≡◌, refl, sym, ap, ◌∙◌, true, false, Option,
  none, some, List, [], ◌∷◌, ◌++◌, leb, Bool-cases, inl, inr, arith, length, take, length-append,
}
use mathlib.Core.List.{append-nil, append_assoc}
use brackos.Devices.Pci.{
  Config, PciDevice, PciDevlist, pci_device_new, pci_devlist_new, pci_devlist_add, add_found,
  probe_functions, probe_slots, probe_busses, pci_probe, pci_init,
}

-- the function with number `k`, by bus, slot and function
abbrev pub function_at : Config → (k : ℕ) → Option PciDevice
function_at config k = pci_device_new config (k / 256) (k / 8 % 32) (k % 8)

abbrev pub with_found : Option PciDevice → List PciDevice → List PciDevice
with_found none ds = ds
with_found (some d) ds = d ∷ ds

-- the functions that are there, of the `n` numbers from `k` on
unfoldable pub found : Config → (n k : ℕ) → List PciDevice
found config zero k = []
found config (suc n) k = with_found (function_at config k) (found config n (k + 1))

pub found-suc :
    (config : Config) (n k : ℕ)
    → found config (suc n) k ≡ with_found (function_at config k) (found config n (k + 1))
unfolding found
found-suc config n k = refl

abbrev pub number_from : ℕ → List PciDevice → List PciDevice
number_from i [] = []
number_from i (d ∷ ds) = record d { dev_id = i } ∷ number_from (i + 1) ds

add_all : List PciDevice → PciDevlist → PciDevlist
add_all [] l = l
add_all (d ∷ ds) l = add_all ds (pci_devlist_add d l)

scan : Config → (n k : ℕ) → PciDevlist → PciDevlist
scan config zero k l = l
scan config (suc n) k l = scan config n (k + 1) (add_found (function_at config k) l)

scan-at :
    (config : Config) (m n j k : ℕ) (l : PciDevlist)
    → m ≡ n
    → j ≡ k
    → scan config m j l ≡ scan config n k l
scan-at config m n j k l h g = rw (h, g) refl

scan-append :
    (config : Config) (m n k : ℕ) (l : PciDevlist)
    → scan config (m + n) k l ≡ scan config n (k + m) (scan config m k l)
unfolding scan
scan-append config zero n k l = scan-at config (0 + n) n k (k + 0) l (omega arith) (omega arith)
scan-append config (suc m) n k l =
    scan-at config (suc m + n) (suc (m + n)) k k l (omega arith) refl
    ∙ scan-append config m n (k + 1) (add_found (function_at config k) l)
    ∙ scan-at config n n (k + 1 + m) (k + suc m)
        (scan config m (k + 1) (add_found (function_at config k) l)) refl (omega arith)

new-at :
    (config : Config) (b c s t f g : ℕ)
    → b ≡ c
    → s ≡ t
    → f ≡ g
    → pci_device_new config b s f ≡ pci_device_new config c t g
new-at config b c s t f g h i j = rw (h, i, j) refl

pub function_at_lem :
    (config : Config) (bus slot function : ℕ)
    → slot < 32
    → function < 8
    → pci_device_new config bus slot function ≡ function_at config (bus * 256 + slot * 8 + function)
function_at_lem config bus slot function s f =
    new-at config bus ((bus * 256 + slot * 8 + function) / 256) slot
      ((bus * 256 + slot * 8 + function) / 8 % 32) function ((bus * 256 + slot * 8 + function) % 8)
      (omega arith) (omega arith) (omega arith)

functions-scan :
    (config : Config) (n bus slot function : ℕ) (l : PciDevlist)
    → slot < 32
    → function + n ≤ 8
    → probe_functions config n bus slot function l
      ≡ scan config n (bus * 256 + slot * 8 + function) l
unfolding probe_functions scan
functions-scan config zero bus slot function l s f = refl
functions-scan config (suc n) bus slot function l s f =
    functions-scan config n bus slot (function + 1)
      (add_found (pci_device_new config bus slot function) l) s (omega arith)
    ∙ ap (λ o. scan config n (bus * 256 + slot * 8 + (function + 1)) (add_found o l))
        (function_at_lem config bus slot function s (omega arith))
    ∙ scan-at config n n (bus * 256 + slot * 8 + (function + 1))
        (bus * 256 + slot * 8 + function + 1)
        (add_found (function_at config (bus * 256 + slot * 8 + function)) l) refl (omega arith)

scan-zero : (config : Config) (k : ℕ) (l : PciDevlist) → scan config 0 k l ≡ l
unfolding scan
scan-zero config k l = refl

slots-scan :
    (config : Config) (n bus slot : ℕ) (l : PciDevlist)
    → slot + n ≤ 32
    → probe_slots config n bus slot l ≡ scan config (n * 8) (bus * 256 + slot * 8) l
unfolding probe_slots
slots-scan config zero bus slot l s = sym (scan-zero config (bus * 256 + slot * 8) l)
slots-scan config (suc n) bus slot l s =
    slots-scan config n bus (slot + 1) (probe_functions config 8 bus slot 0 l) (omega arith)
    ∙ ap (scan config (n * 8) (bus * 256 + (slot + 1) * 8))
        (functions-scan config 8 bus slot 0 l (omega arith) (omega arith))
    ∙ scan-at config (n * 8) (n * 8) (bus * 256 + (slot + 1) * 8) (bus * 256 + slot * 8 + 0 + 8)
        (scan config 8 (bus * 256 + slot * 8 + 0) l) refl (omega arith)
    ∙ sym (scan-append config 8 (n * 8) (bus * 256 + slot * 8 + 0) l)
    ∙ scan-at config (8 + n * 8) (suc n * 8) (bus * 256 + slot * 8 + 0) (bus * 256 + slot * 8) l
        (omega arith) (omega arith)

busses-scan :
    (config : Config) (n bus : ℕ) (l : PciDevlist)
    → probe_busses config n bus l ≡ scan config (n * 256) (bus * 256) l
unfolding probe_busses
busses-scan config zero bus l = sym (scan-zero config (bus * 256) l)
busses-scan config (suc n) bus l =
    busses-scan config n (bus + 1) (probe_slots config 32 bus 0 l)
    ∙ ap (scan config (n * 256) ((bus + 1) * 256)) (
        slots-scan config 32 bus 0 l (omega arith)
        ∙ scan-at config 256 256 (bus * 256 + 0) (bus * 256) l refl (omega arith))
    ∙ scan-at config (n * 256) (n * 256) ((bus + 1) * 256) (bus * 256 + 256)
        (scan config 256 (bus * 256) l) refl (omega arith)
    ∙ sym (scan-append config 256 (n * 256) (bus * 256) l)
    ∙ scan-at config (256 + n * 256) (suc n * 256) (bus * 256) (bus * 256) l (omega arith) refl

scan-add_all :
    (config : Config) (n k : ℕ) (l : PciDevlist) → scan config n k l ≡ add_all (found config n k) l
unfolding scan add_all found
scan-add_all config zero k l = refl
scan-add_all config (suc n) k l =
    elim (function_at config k)
      as (λ o.
        scan config n (k + 1) (add_found o l) ≡ add_all (with_found o (found config n (k + 1))) l) [
          | none ↦ scan-add_all config n (k + 1) l
          | some d ↦ scan-add_all config n (k + 1) (pci_devlist_add d l)
        ]

take-none : (n : ℕ) → take {A = PciDevice} n [] ≡ []
take-none zero = refl
take-none (suc n) = refl

room-full : (max size : ℕ) → leb max (size + 1) ≡ true → max - 1 - size ≡ 0
room-full max size h = ground arith

room-left :
    (max size : ℕ) → leb max (size + 1) ≡ false → max - 1 - size ≡ suc (max - 1 - (size + 1))
room-left max size h = ground arith

add-full :
    (d : PciDevice) (l : PciDevlist) → leb l.max (l.size + 1) ≡ true → pci_devlist_add d l ≡ l
add-full d l h = rw h refl

add-room :
    (d : PciDevice) (l : PciDevlist)
    → leb l.max (l.size + 1) ≡ false
    → pci_devlist_add d l
      ≡ record l { devices = l.devices ++ (record d { dev_id = l.size } ∷ []); size = l.size + 1 }
add-room d l h = rw h refl

add_all-devices :
    (ds : List PciDevice) (l : PciDevlist)
    → (add_all ds l).devices ≡ l.devices ++ number_from l.size (take (l.max - 1 - l.size) ds)
unfolding add_all
add_all-devices [] l = sym (
    ap (λ t. l.devices ++ number_from l.size t) (take-none (l.max - 1 - l.size))
    ∙ append-nil l.devices)
add_all-devices (d ∷ ds) l = elim (Bool-cases (leb l.max (l.size + 1))) [
  | inl h ↦
      ap (λ m. (add_all ds m).devices) (add-full d l h)
      ∙ add_all-devices ds l
      ∙ rw (room-full l.max l.size h) refl
  | inr h ↦
      ap (λ m. (add_all ds m).devices) (add-room d l h)
      ∙ add_all-devices ds (record l {
        devices = l.devices ++ (record d { dev_id = l.size } ∷ []);
        size = l.size + 1;
      })
      ∙ append_assoc l.devices (record d { dev_id = l.size } ∷ [])
          (number_from (l.size + 1) (take (l.max - 1 - (l.size + 1)) ds))
      ∙ ap (λ n. l.devices ++ number_from l.size (take n (d ∷ ds))) (sym (room-left l.max l.size h))
]

abbrev Sized : PciDevlist → Type 0
Sized l = l.size ≡ length l.devices

add-Sized : (d : PciDevice) (l : PciDevlist) → Sized l → Sized (pci_devlist_add d l)
add-Sized d l h = elim (Bool-cases (leb l.max (l.size + 1))) [
  | inl k ↦ rw k h
  | inr k ↦ rw (k, length-append l.devices (record d { dev_id = l.size } ∷ []), h) refl
]

add_all-Sized : (ds : List PciDevice) (l : PciDevlist) → Sized l → Sized (add_all ds l)
unfolding add_all
add_all-Sized [] l h = h
add_all-Sized (d ∷ ds) l h = add_all-Sized ds (pci_devlist_add d l) (add-Sized d l h)

init-add_all :
    (config : Config) → pci_init config ≡ add_all (found config 65536 0) (pci_devlist_new 64)
unfolding pci_init pci_probe
init-add_all config =
    busses-scan config 256 0 (pci_devlist_new 64) ∙ scan-add_all config 65536 0 (pci_devlist_new 64)

pub pci_init-size : (config : Config) → (pci_init config).size ≡ length (pci_init config).devices
pci_init-size config =
    rw (init-add_all config) (add_all-Sized (found config 65536 0) (pci_devlist_new 64) refl)

-- The list of `pci_init` has the functions that are there, by bus, slot and function in this order, with
-- their places in it as `dev_id`: all of them, if there are at most 63, and else the first 63, though the
-- list is made for 64.
pub pci_init-devices :
    (config : Config) → (pci_init config).devices ≡ number_from 0 (take 63 (found config 65536 0))
pci_init-devices config =
    ap (λ (l : PciDevlist). l.devices) (init-add_all config)
    ∙ add_all-devices (found config 65536 0) (pci_devlist_new 64)
