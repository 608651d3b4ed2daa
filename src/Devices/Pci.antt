-- ===== src/Devices/Pci.antt =====
-- kernel/devices/pci/pci.c: the PCI functions and their list. The configuration space is an argument:
-- what PCI_CONFIG_DATA gives for each address in PCI_CONFIG_ADDRESS, which reading does not change. What
-- `pci_config_write` sends is a list of pairs of a port and a word. `kmalloc` gives memory. The busses are
-- below 256, the slots below 32 and the functions below 8, as in `pci_probe`.
pub mod Extra
pub mod Probe
pub mod Get
mod Tests
use brackos.Base.{
  ℕ, zero, suc, ◌+◌, ◌*◌, ◌/◌, ◌%◌, ◌^◌, Bool, true, false, ◌&&◌, Option, none, some, List, [], ◌∷◌,
  ◌++◌, leb, ◌==◌, if◌then◌else◌,
}

abbrev pub Config : Type 0
Config = ℕ → ℕ

abbrev pub address_port : ℕ
address_port = 3320

abbrev pub data_port : ℕ
data_port = 3324

abbrev pub pci_address : (bus slot func offset : ℕ) → ℕ
pci_address bus slot func offset =
    bus * 2 ^ 16 + slot * 2 ^ 11 + func * 2 ^ 8 + offset / 4 * 4 % 256 + 2 ^ 31

abbrev pub pci_config_read : (config : Config) → (bus slot func offset : ℕ) → ℕ
pci_config_read config bus slot func offset =
    config (pci_address bus slot func offset) / 2 ^ (offset / 2 % 2 * 16) % 2 ^ 16

abbrev pub pci_config_write : (bus slot func offset word : ℕ) → List (ℕ × ℕ)
pci_config_write bus slot func offset word =
    (address_port, pci_address bus slot func offset) ∷ (data_port, word) ∷ []

-- `pci_device_normal_t`
pub record PciDeviceNormal : Type 0 where
  pub baseaddr_0 : ℕ
  pub baseaddr_1 : ℕ
  pub baseaddr_2 : ℕ
  pub baseaddr_3 : ℕ
  pub baseaddr_4 : ℕ
  pub baseaddr_5 : ℕ
  pub cardbus_cis : ℕ
  pub subsystem : ℕ
  pub subsystem_vendor : ℕ
  pub expansion_rom : ℕ
  pub capability : ℕ
  pub interrupt_line : ℕ
  pub interrupt_pin : ℕ
  pub min_grant : ℕ
  pub max_latency : ℕ

-- `pci_device_pcipci_t`, without memory_base and memory_limit, which are never set
pub record PciDevicePcipci : Type 0 where
  pub baseaddr_0 : ℕ
  pub baseaddr_1 : ℕ
  pub primary_bus : ℕ
  pub secondary_bus : ℕ
  pub subordinate_bus : ℕ
  pub secondary_latency : ℕ
  pub io_base : ℕ
  pub io_limit : ℕ
  pub secondary_status : ℕ
  pub prefetch_mem_base : ℕ
  pub prefetch_mem_limit : ℕ
  pub prefetch_base : ℕ
  pub prefetch_limit : ℕ
  pub io_upperbase : ℕ
  pub io_upperlimit : ℕ
  pub capability : ℕ
  pub expansion_rom : ℕ
  pub interrupt_line : ℕ
  pub interrupt_pin : ℕ
  pub bridge_control : ℕ

-- what `extra` points to, by `header_type`; `unset` is what `kmalloc` left there
pub data PciExtra : Type 0 where
  normal : PciDeviceNormal → PciExtra
  pcipci : PciDevicePcipci → PciExtra
  unset : PciExtra

-- `pci_device_t`
pub record PciDevice : Type 0 where
  pub bus : ℕ
  pub slot : ℕ
  pub function : ℕ
  pub vendor : ℕ
  pub device : ℕ
  pub status : ℕ
  pub command : ℕ
  pub class : ℕ
  pub subclass : ℕ
  pub prog_if : ℕ
  pub revision : ℕ
  pub bist : ℕ
  pub header_type : ℕ
  pub multi_fn : ℕ
  pub latency_timer : ℕ
  pub cacheline_size : ℕ
  pub extra : PciExtra
  pub dev_id : ℕ

module _ (config : Config) (bus slot function : ℕ) where
  abbrev word : ℕ → ℕ
  word offset = pci_config_read config bus slot function offset

  -- two halves of a register of 32 bits
  abbrev long : (low high : ℕ) → ℕ
  long low high = word low + word high * 2 ^ 16

  abbrev pub normal_of : PciDeviceNormal
  normal_of = record {
    baseaddr_0 = long 16 18;
    baseaddr_1 = long 20 22;
    baseaddr_2 = long 24 24;
    baseaddr_3 = long 28 30;
    baseaddr_4 = long 32 34;
    baseaddr_5 = long 36 38;
    cardbus_cis = long 40 42;
    subsystem_vendor = word 44;
    subsystem = word 46;
    expansion_rom = long 50 48;
    capability = word 52 % 2 ^ 8;
    interrupt_line = word 60 % 2 ^ 8;
    interrupt_pin = word 61 % 2 ^ 8;
    min_grant = word 62 % 2 ^ 8;
    max_latency = word 63 % 2 ^ 8;
  }

  abbrev pub pcipci_of : PciDevicePcipci
  pcipci_of = record {
    baseaddr_0 = long 16 18;
    baseaddr_1 = long 20 22;
    primary_bus = word 24 % 2 ^ 8;
    secondary_bus = word 24 / 2 ^ 8 % 2 ^ 8;
    subordinate_bus = word 26 % 2 ^ 8;
    secondary_latency = word 26 / 2 ^ 8 % 2 ^ 8;
    io_base = word 28 % 2 ^ 8;
    io_limit = word 28 / 2 ^ 8 % 2 ^ 8;
    secondary_status = word 30;
    prefetch_mem_base = word 36;
    prefetch_mem_limit = word 38;
    prefetch_base = long 40 42 % 2 ^ 16;
    prefetch_limit = long 44 46 % 2 ^ 16;
    io_upperbase = word 48;
    io_upperlimit = word 50;
    capability = word 52 % 2 ^ 8;
    expansion_rom = long 56 58 % 2 ^ 16;
    interrupt_line = word 60 % 2 ^ 8;
    interrupt_pin = word 60 / 2 ^ 8 % 2 ^ 8;
    bridge_control = word 62;
  }

  -- the `switch` of `pci_device_new`
  abbrev pub extra_of : (header : ℕ) → Option PciExtra
  extra_of header =
      if header == 0
      then some (normal normal_of)
      else if header == 1
      then some (pcipci pcipci_of)
      else if header == 2
      then some unset
      else none

  abbrev pub fields_of : PciExtra → PciDevice
  fields_of e = record {
    bus = bus;
    slot = slot;
    function = function;
    vendor = word 0;
    device = word 2;
    status = word 6;
    command = word 4;
    class = word 10 / 2 ^ 8 % 2 ^ 8;
    subclass = word 10 % 2 ^ 8;
    prog_if = word 8 / 2 ^ 8 % 2 ^ 8;
    revision = word 8 % 2 ^ 8;
    bist = word 14 / 2 ^ 8 % 2 ^ 8;
    header_type = word 14 % 2 ^ 7;
    multi_fn = word 14 / 2 ^ 7 % 2;
    latency_timer = word 12 / 2 ^ 8 % 2 ^ 8;
    cacheline_size = word 12 % 2 ^ 8;
    extra = e;
    dev_id = 0;
  }

  abbrev pub device_with : Option PciExtra → Option PciDevice
  device_with none = none
  device_with (some e) = some (fields_of e)

  -- `dev_id` is set later, by `pci_devlist_add`.
  unfoldable pub pci_device_new : Option PciDevice
  pci_device_new = if word 0 == 65535 then none else device_with (extra_of (word 14 % 2 ^ 7))

-- `pci_devlist_t`; the array has the devices in order, and what is behind `size` is left out.
pub record PciDevlist : Type 0 where
  pub devices : List PciDevice
  pub size : ℕ
  pub max : ℕ

abbrev pub pci_devlist_new : (max : ℕ) → PciDevlist
pci_devlist_new max = record { devices = []; size = 0; max = max }

abbrev pub pci_devlist_add : (device : PciDevice) → PciDevlist → PciDevlist
pci_devlist_add device list = if leb list.max (list.size + 1) then list else record list {
  devices = list.devices ++ (record device { dev_id = list.size } ∷ []);
  size = list.size + 1;
}

abbrev pub add_found : Option PciDevice → PciDevlist → PciDevlist
add_found none list = list
add_found (some device) list = pci_devlist_add device list

-- the three loops of `pci_probe`, each of `n` rounds
unfoldable pub probe_functions : Config → (n bus slot function : ℕ) → PciDevlist → PciDevlist
probe_functions config zero bus slot function list = list
probe_functions config (suc n) bus slot function list =
    probe_functions config n bus slot (function + 1)
      (add_found (pci_device_new config bus slot function) list)

unfoldable pub probe_slots : Config → (n bus slot : ℕ) → PciDevlist → PciDevlist
probe_slots config zero bus slot list = list
probe_slots config (suc n) bus slot list =
    probe_slots config n bus (slot + 1) (probe_functions config 8 bus slot 0 list)

unfoldable pub probe_busses : Config → (n bus : ℕ) → PciDevlist → PciDevlist
probe_busses config zero bus list = list
probe_busses config (suc n) bus list =
    probe_busses config n (bus + 1) (probe_slots config 32 bus 0 list)

unfoldable pub pci_probe : Config → PciDevlist → PciDevlist
pci_probe config list = probe_busses config 256 0 list

-- `devlist`, of PCI_MAXDEVS
unfoldable pub pci_init : Config → PciDevlist
pci_init config = pci_probe config (pci_devlist_new 64)

abbrev pub find_from : (n vendor device : ℕ) → List PciDevice → Option PciDevice
find_from zero vendor device ds = none
find_from (suc n) vendor device [] = none
find_from (suc n) vendor device (d ∷ ds) =
    if d.vendor == vendor && (d.device == device) then some d else find_from n vendor device ds

abbrev pub pci_get : (vendor device : ℕ) → PciDevlist → Option PciDevice
pci_get vendor device list = find_from list.size vendor device list.devices

abbrev pub baseaddr : (n : ℕ) → PciDeviceNormal → ℕ
baseaddr n d =
    if n == 0
    then d.baseaddr_0
    else if n == 1
    then d.baseaddr_1
    else if n == 2
    then d.baseaddr_2
    else if n == 3
    then d.baseaddr_3
    else if n == 4
    then d.baseaddr_4
    else if n == 5
    then d.baseaddr_5
    else 0

-- by `header_type`, which says what `extra` is
abbrev pub pci_device_base_addr : PciExtra → (n : ℕ) → ℕ
pci_device_base_addr (normal d) n = baseaddr n d
pci_device_base_addr (pcipci d) n =
    if n == 0 then d.baseaddr_0 else if n == 1 then d.baseaddr_1 else 0
pci_device_base_addr unset n = 0

abbrev pub pci_device_read_cmd : Config → PciDevice → ℕ
pci_device_read_cmd config d = pci_config_read config d.bus d.slot d.function 4

abbrev pub pci_device_write_cmd : (word : ℕ) → PciDevice → List (ℕ × ℕ)
pci_device_write_cmd word d = pci_config_write d.bus d.slot d.function 4 word
