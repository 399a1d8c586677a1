-- ===== src/Scheduler.antt =====
-- arch/src/x86_64/scheduler.rs, the task switcher behind the timer interrupt. The interrupted
-- code's registers are where the compiled prologue of `switch_task` has pushed them.
pub mod Saving
pub mod Switching
pub mod Lifecycle
pub mod Reachable
pub mod Resume
pub mod Fairness
mod Tests
use proka_kernel.Base.{
  Bool, List, Option, [], false, get_elem?, if◌then◌else◌, none, set, some, true, ℕ, ◌&&◌, ◌++◌,
  ◌==◌, ◌>>=◌, ◌∷◌,
}
use proka_kernel.Process.{Context, Kernel}

-- The page table that `switch_task` loads first.
abbrev pub kernel_table : ℕ
kernel_table = 0x100000

-- The x86_64 crate's `InterruptStackFrame`.
pub record Frame : Type 0 where
  pub instruction_pointer : ℕ
  pub stack_pointer : ℕ
  pub code_segment : ℕ
  pub stack_segment : ℕ
  pub cpu_flags : ℕ

-- What `switch_task` finds: the page table register, the stack words at `rbp`, `rbp - 8`, ... by
-- their number, and the interrupt's frame.
pub record Interrupted : Type 0 where
  pub cr3 : ℕ
  pub pushed : ℕ → ℕ
  pub stack : Frame

-- How it ends: it returns to the interrupted code under a page table, or it loads a context and a
-- page table.
pub data Exit : Type 0 where
  return_under : ℕ → Exit
  load : Context → ℕ → Exit

-- The assignments to `proc.context`.
unfoldable pub saved_context : Interrupted → Context
saved_context i = record {
  rbp = i.pushed 0;
  r15 = i.pushed 1;
  r14 = i.pushed 2;
  r13 = i.pushed 3;
  r12 = i.pushed 4;
  r11 = i.pushed 5;
  r10 = i.pushed 6;
  r9 = i.pushed 7;
  r8 = i.pushed 8;
  rdi = i.pushed 9;
  rsi = i.pushed 10;
  rdx = i.pushed 11;
  rcx = i.pushed 12;
  rbx = i.pushed 13;
  rax = i.pushed 14;
  rip = i.stack.instruction_pointer;
  rsp = i.stack.stack_pointer;
  rflags = i.stack.cpu_flags;
  cs = i.stack.code_segment;
  ss = i.stack.stack_segment;
}

abbrev pub is_empty : List ℕ → Bool
is_empty [] = true
is_empty (_ ∷ _) = false

-- `to_driver` and `to_normal`; the outer `none` is the panic of `queue[0]`, the inner `Err(())`.
unfoldable pub to_driver : Kernel → Option (Kernel × Option (Context × ℕ))
to_driver k = elim k.driver_queue [
  | [] ↦ none
  | did ∷ rest ↦ elim (get_elem? k.drivers did) [
    | none ↦ some (k, none)
    | some proc ↦
        if proc.present
        then some (
          record k { current_id = did; driver_queue = rest ++ did ∷ [] },
          some (proc.context, proc.table_addr),
        )
        else some (k, none)
  ]
]

unfoldable pub to_normal : Kernel → Option (Kernel × Option (Context × ℕ))
to_normal k = elim k.normal_queue [
  | [] ↦ none
  | pid ∷ rest ↦ elim (get_elem? k.normals pid) [
    | none ↦ some (k, none)
    | some proc ↦
        if proc.present
        then some (
          record k { current_id = pid; normal_queue = rest ++ pid ∷ [] },
          some (proc.context, proc.current_table),
        )
        else some (k, none)
  ]
]

-- The end of `switch_task`, after `to_driver` or `to_normal`.
pub finish : Option (Context × ℕ) → Exit
finish none = return_under kernel_table
finish (some (context, table)) = load context table

-- The early return under a process's page table.
abbrev pub back_under : ℕ → Exit
back_under table = if table == 0 then return_under kernel_table else return_under table

-- The branch of a set `IS_DRIVER`; `none` is the panic of `process[current_id]`.
unfoldable pub from_normal : Kernel → Interrupted → Option (Kernel × Exit)
unfolding saved_context to_driver finish
from_normal k i =
    let m = if is_empty k.normal_queue then k else record k { is_driver = false } in
    elim (get_elem? k.normals k.current_id) [
      | none ↦ none
      | some proc ↦
          if is_empty k.driver_queue
          then some (m, back_under proc.table_addr)
          else let saved = record proc { context = saved_context i; current_table = i.cr3 } in
            to_driver (record m { normals = set k.normals k.current_id saved })
            >>= λ (r : Kernel × Option (Context × ℕ)). some (r.0, finish r.1)
    ]

-- The other branch.
unfoldable pub from_driver : Kernel → Interrupted → Option (Kernel × Exit)
unfolding saved_context to_normal finish
from_driver k i =
    let m = if is_empty k.driver_queue then k else record k { is_driver = true } in
    elim (get_elem? k.drivers k.current_id) [
      | none ↦ none
      | some proc ↦
          if is_empty k.normal_queue
          then some (m, back_under proc.table_addr)
          else let saved = record proc { context = saved_context i } in
            to_normal (record m { drivers = set k.drivers k.current_id saved })
            >>= λ (r : Kernel × Option (Context × ℕ)). some (r.0, finish r.1)
    ]

unfoldable pub switch_task : Kernel → Interrupted → Option (Kernel × Exit)
unfolding from_normal from_driver
switch_task k i =
    if is_empty k.normal_queue && is_empty k.driver_queue
    then some (k, return_under kernel_table)
    else if k.is_driver
    then from_normal k i
    else from_driver k i
