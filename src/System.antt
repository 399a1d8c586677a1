-- ===== src/System.antt =====
-- Everything that changes the processes: arch/src/x86_64/process, arch/src/x86_64/scheduler.rs and
-- arch/src/x86_64/syscall/memory.rs together.
mod Heaps
pub mod Running
mod Tests
