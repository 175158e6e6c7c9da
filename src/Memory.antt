-- ===== src/Memory.antt =====
-- src/kernel/memory: the regions of an address space, and the page allocator.
pub mod Vma
pub mod Buddy
pub mod Pmm
