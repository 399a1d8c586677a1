-- ===== src/Process/Types.antt =====
-- The types of core/src/process.rs and arch/src/x86_64/process/{mod,normal,driver}.rs.
use proka_kernel.Base.{Bool, List, [], false, ℕ, ◌+◌, ◌^◌}

-- `MAX_PS`.
abbrev pub max_ps : ℕ
max_ps = 16384

pub data Status : Type 0 where
  ready running : Status

pub data Error : Type 0 where
  memory_not_enough address_not_aligned process_not_exist invalid_index : Error
  invalid_format page_error : Error

pub data ProcType : Type 0 where
  normal driver : ProcType

-- `Context`, the saved registers.
pub record Context : Type 0 where
  pub rax : ℕ
  pub rbx : ℕ
  pub rcx : ℕ
  pub rdx : ℕ
  pub rsi : ℕ
  pub rdi : ℕ
  pub rsp : ℕ
  pub rbp : ℕ
  pub r8 : ℕ
  pub r9 : ℕ
  pub r10 : ℕ
  pub r11 : ℕ
  pub r12 : ℕ
  pub r13 : ℕ
  pub r14 : ℕ
  pub r15 : ℕ
  pub rflags : ℕ
  pub rip : ℕ
  pub cs : ℕ
  pub ss : ℕ

-- `Context::default()`.
abbrev pub zero_context : Context
zero_context = record {
  rax = 0;
  rbx = 0;
  rcx = 0;
  rdx = 0;
  rsi = 0;
  rdi = 0;
  rsp = 0;
  rbp = 0;
  r8 = 0;
  r9 = 0;
  r10 = 0;
  r11 = 0;
  r12 = 0;
  r13 = 0;
  r14 = 0;
  r15 = 0;
  rflags = 0;
  rip = 0;
  cs = 0;
  ss = 0;
}

-- `RFlags::INTERRUPT_FLAG | RFlags::ID`, bits 9 and 21.
abbrev pub initial_rflags : ℕ
initial_rflags = 2 ^ 9 + 2 ^ 21

-- The selectors of the GDT, `arch/src/x86_64/tables/gdt.rs`.
pub record Selectors : Type 0 where
  pub kernel_code : ℕ
  pub kernel_data : ℕ
  pub user_code : ℕ
  pub user_data : ℕ
  pub tss : ℕ

-- `core::range::Range<u64>`.
pub record Range : Type 0 where
  pub start : ℕ
  pub end : ℕ

pub record NormalProcess : Type 0 where
  pub present : Bool
  pub status : Status
  pub priority : ℕ
  pub context : Context
  pub current_table : ℕ
  pub stack_bottom : ℕ
  pub heap_range : List Range
  pub heap_bottom : ℕ
  pub table_addr : ℕ

pub record DriverProcess : Type 0 where
  pub present : Bool
  pub status : Status
  pub context : Context
  pub stack_bottom : ℕ
  pub heap_bottom : ℕ
  pub heap_range : List Range
  pub table_addr : ℕ

-- The derived defaults, with which the tables are filled.
abbrev pub default_normal : NormalProcess
default_normal = record {
  present = false;
  status = ready;
  priority = 0;
  context = zero_context;
  current_table = 0;
  stack_bottom = 0;
  heap_range = [];
  heap_bottom = 0;
  table_addr = 0;
}

abbrev pub default_driver : DriverProcess
default_driver = record {
  present = false;
  status = ready;
  context = zero_context;
  stack_bottom = 0;
  heap_bottom = 0;
  heap_range = [];
  table_addr = 0;
}
