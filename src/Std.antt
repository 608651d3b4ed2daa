-- ===== src/Std.antt =====
-- std: printing, strings, lists and arithmetic of the kernel.
pub mod Kprint
pub mod Math
pub mod Array
pub mod Str
