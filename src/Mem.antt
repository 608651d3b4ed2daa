-- ===== src/Mem.antt =====
-- kernel/mem: the allocators.
pub mod Frame
pub mod Vasa
pub mod Slub
pub mod Kmalloc
pub mod Large
pub mod Paging
