-- ===== src/Process.antt =====
-- src/kernel/process: credentials, signals and the checks of program files.
pub mod Credentials
pub mod Signal
pub mod Elf
