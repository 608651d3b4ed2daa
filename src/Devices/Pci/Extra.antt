-- ===== src/Devices/Pci/Extra.antt =====
-- kernel/devices/pci/pci.c: what `pci_device_new` reads at the odd offsets.
use brackos.Base.{
  ℕ, ◌+◌, ◌*◌, ◌/◌, ◌%◌, ◌^◌, ◌<◌, ◌≡◌, refl, sym, ap, ◌∙◌, Bool, true, false, Option, none, some,
  ◌==◌, if◌then◌else◌, arith,
}
use brackos.Devices.Pci.{
  Config, PciDevice, PciDeviceNormal, PciExtra, normal, pcipci, unset, normal_of, pcipci_of,
  extra_of, device_with, pci_config_read, pci_device_new,
}

abbrev extra_in : Option PciDevice → Option PciExtra
extra_in none = none
extra_in (some d) = some d.extra

abbrev normal_in : PciDeviceNormal → Option PciExtra → PciDeviceNormal
normal_in e none = e
normal_in e (some (normal d)) = d
normal_in e (some (pcipci d)) = e
normal_in e (some unset) = e

normal_in-if :
    (e : PciDeviceNormal) (b : Bool) (x y : Option PciExtra)
    → normal_in e x ≡ e
    → normal_in e y ≡ e
    → normal_in e (if b then x else y) ≡ e
normal_in-if e true x y h k = h
normal_in-if e false x y h k = k

normal_in-unless :
    (e : PciDeviceNormal) (b : Bool) (x : Option PciDevice)
    → normal_in e (extra_in x) ≡ e
    → normal_in e (extra_in (if b then none else x)) ≡ e
normal_in-unless e true x h = refl
normal_in-unless e false x h = h

module _ (config : Config) (bus slot function : ℕ) where
  normal_in-extra_of :
      (h : ℕ)
      → normal_in (normal_of config bus slot function) (extra_of config bus slot function h)
        ≡ normal_of config bus slot function
  normal_in-extra_of h =
      let e = normal_of config bus slot function in
      let bridge = some (pcipci (pcipci_of config bus slot function)) in
      let last = if h == 2 then some unset else none in
      normal_in-if e (h == 0) (some (normal e)) (if h == 1 then bridge else last) refl (
        normal_in-if e (h == 1) bridge last refl
          (normal_in-if e (h == 2) (some unset) none refl refl))

  normal_in-device_with :
      (o : Option PciExtra)
      → normal_in (normal_of config bus slot function) o ≡ normal_of config bus slot function
      → normal_in
          (normal_of config bus slot function)
          (extra_in (device_with config bus slot function o))
        ≡ normal_of config bus slot function
  normal_in-device_with none h = refl
  normal_in-device_with (some e) h = h

  normal_in-new :
      normal_in
        (normal_of config bus slot function)
        (extra_in (pci_device_new config bus slot function))
      ≡ normal_of config bus slot function
  unfolding pci_device_new
  normal_in-new =
      let header = pci_config_read config bus slot function 14 % 2 ^ 7 in
      normal_in-unless (normal_of config bus slot function)
        (pci_config_read config bus slot function 0 == 65535)
        (device_with config bus slot function (extra_of config bus slot function header))
        (normal_in-device_with (extra_of config bus slot function header)
          (normal_in-extra_of header))

  extra-normal_of :
      (d : PciDevice) (e : PciDeviceNormal)
      → pci_device_new config bus slot function ≡ some d
      → d.extra ≡ normal e
      → e ≡ normal_of config bus slot function
  extra-normal_of d e h k =
      let base = normal_of config bus slot function in
      ap (λ (x : PciExtra). normal_in base (some x)) (sym k)
      ∙ ap (λ (o : Option PciDevice). normal_in base (extra_in o)) (sym h)
      ∙ normal_in-new

halves : (w : ℕ) → w < 2 ^ 16 → (w + w * 2 ^ 16) / 2 ^ 16 ≡ (w + w * 2 ^ 16) % 2 ^ 16
halves w h = omega arith

-- For every normal device that `pci_device_new` makes, `interrupt_pin` is the interrupt line, and
-- `max_latency` the minimal grant, since `pci_config_read` at an odd offset gives the lower byte of the
-- pair; and `baseaddr_2` has the same two halves.
pub pci_device_new-doubles :
    (config : Config) (bus slot function : ℕ) (d : PciDevice) (e : PciDeviceNormal)
    → pci_device_new config bus slot function ≡ some d
    → d.extra ≡ normal e
    → e.interrupt_pin ≡ e.interrupt_line
      × e.max_latency ≡ e.min_grant
      × e.baseaddr_2 / 2 ^ 16 ≡ e.baseaddr_2 % 2 ^ 16
pci_device_new-doubles config bus slot function d e h k =
    let n = extra-normal_of config bus slot function d e h k in
    (
      ap (λ (x : PciDeviceNormal). x.interrupt_pin) n
          ∙ sym (ap (λ (x : PciDeviceNormal). x.interrupt_line) n),
      ap (λ (x : PciDeviceNormal). x.max_latency) n
          ∙ sym (ap (λ (x : PciDeviceNormal). x.min_grant) n),
      ap (λ (x : PciDeviceNormal). x.baseaddr_2 / 2 ^ 16) n
          ∙ halves (pci_config_read config bus slot function 24) (omega arith)
          ∙ sym (ap (λ (x : PciDeviceNormal). x.baseaddr_2 % 2 ^ 16) n),
    )
