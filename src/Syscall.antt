-- ===== src/Syscall.antt =====
-- System calls: arch/src/x86_64/syscall, src/syscall and the table of core/src/syscall.rs. A call
-- returns a signed word and the new state.
pub mod Memory
pub mod Table
pub mod Process
pub mod Reaching
pub mod Power
mod Tests
use proka_kernel.Base.{ℕ}

-- `i64`, from zero up and from -1 down.
pub data ℤ : Type 0 where
  pos negsuc : ℕ → ℤ
