-- ===== src/Vfs.antt =====
-- src/kernel/vfs: the terminal's line discipline.
pub mod Tty
