-- ===== src/Devices.antt =====
-- kernel/devices: the busses and what is on them.
pub mod Pci
