-- ===== src/Devices/Pci/Tests.antt =====
-- kernel/devices/pci/pci.c: runs on a machine with one PCI function.
use mathlib.Core.Path.{subst}
use brackos.Base.{
  ℕ, zero, suc, ◌+◌, ◌-◌, ◌/◌, ◌%◌, ◌^◌, ◌≤◌, ◌<◌, ◌≡◌, refl, sym, ap, ◌∙◌, ◌⊎◌, false, none, some,
  [], leb, ◌==◌, if◌then◌else◌, arith, length, take,
}
use brackos.Devices.Pci.{
  Config, PciDevice, PciDeviceNormal, normal, normal_of, fields_of, pci_address, pci_device_new,
  pci_init, pci_get,
}
use brackos.Devices.Pci.Extra.{pci_device_new-doubles}
use brackos.Devices.Pci.Probe.{
  function_at, found, found-suc, with_found, number_from, pci_init-devices,
}
use brackos.Devices.Pci.Get.{matches, pci_get-finds}

-- bus 0, slot 0 and function 0 has the device 8139 of the vendor 10EC, and nothing else is there
abbrev one_device : Config
one_device a = if a == 2 ^ 31 then 2167999724 else if leb (2 ^ 31 + 256) a then 2 ^ 32 - 1 else 0

abbrev the_normal : PciDeviceNormal
the_normal = normal_of one_device 0 0 0

abbrev the_device : PciDevice
the_device = fields_of one_device 0 0 0 (normal the_normal)

the_device_there : pci_device_new one_device 0 0 0 ≡ some the_device
unfolding pci_device_new
the_device_there = refl

pci_device_new-doubles_example :
    the_normal.interrupt_pin ≡ the_normal.interrupt_line
    × the_normal.max_latency ≡ the_normal.min_grant
    × the_normal.baseaddr_2 / 2 ^ 16 ≡ the_normal.baseaddr_2 % 2 ^ 16
pci_device_new-doubles_example =
    pci_device_new-doubles one_device 0 0 0 the_device the_normal the_device_there refl

far : (a : ℕ) → 2 ^ 31 + 256 ≤ a → one_device a ≡ 2 ^ 32 - 1
far a h = ground arith

absent :
    (bus slot function : ℕ)
    → one_device (pci_address bus slot function 0) ≡ 2 ^ 32 - 1
    → pci_device_new one_device bus slot function ≡ none
unfolding pci_device_new
absent bus slot function h = rw h refl

far_address : (k : ℕ) → 2 ^ 31 + 256 ≤ pci_address (suc k / 256) (suc k / 8 % 32) (suc k % 8) 0
far_address k = omega arith

found-zero : (k : ℕ) → found one_device 0 k ≡ []
unfolding found
found-zero k = refl

found-rest : (n k : ℕ) → found one_device n (suc k) ≡ []
found-rest zero k = found-zero (suc k)
found-rest (suc n) k =
    found-suc one_device n (suc k)
    ∙ ap (λ o. with_found o (found one_device n (suc k + 1)))
        (absent (suc k / 256) (suc k / 8 % 32) (suc k % 8)
          (far (pci_address (suc k / 256) (suc k / 8 % 32) (suc k % 8) 0) (far_address k)))
    ∙ ap (found one_device n) (omega arith)
    ∙ found-rest n (suc k)

pci_init-devices_example :
    (pci_init one_device).devices ≡ number_from 0 (take 63 (found one_device 65536 0))
pci_init-devices_example = pci_init-devices one_device

found-few : length (found one_device 65536 0) ≤ 63
found-few =
    subst (λ ds. length ds ≤ 63)
      (sym (
        found-suc one_device 65535 0
        ∙ ap (with_found (function_at one_device 0)) (found-rest 65535 0)
        ∙ ap (λ o. with_found o []) the_device_there))
      (omega arith)

pci_get-finds_example :
    ((x : PciDevice) × (pci_get 4332 33081 (pci_init one_device) ≡ some x)
      × (x.vendor ≡ 4332)
      × (x.device ≡ 33081))
    ⊎ ((pci_get 4332 33081 (pci_init one_device) ≡ none)
        × ((bus slot function : ℕ) (x : PciDevice)
            → bus < 256
            → slot < 32
            → function < 8
            → pci_device_new one_device bus slot function ≡ some x
            → matches 4332 33081 x ≡ false))
pci_get-finds_example = pci_get-finds one_device 4332 33081 found-few
