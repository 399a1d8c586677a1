-- ===== src/Exceptions.antt =====
-- The exception handlers: arch/src/x86_64/handler/exception.rs. The mapper is a parameter. A lock
-- that a handler waits for while it holds it itself never becomes free.
use proka_kernel.Base.{Bool, Option, false, if◌then◌else◌, none, refl, some, true, ℕ, ◌↔◌, ◌≡◌}
use proka_kernel.Process.{Kernel}
pub mod Locks
pub mod PageFault
mod Tests

-- The exceptions but the page fault.
pub data Exception : Type 0 where
  divide_error debug nmi overflow bound_range invalid_opcode : Exception
  device_not_available x87_floating_point : Exception
  invalid_tss segment_not_present stack_segment general_protection : Exception
  alignment_check control_protection : Exception
  double_fault machine_check breakpoint : Exception

-- Whether the processor pushes an error code, the second parameter of the handler.
abbrev pub has_error_code : Exception → Bool
has_error_code invalid_tss = true
has_error_code segment_not_present = true
has_error_code stack_segment = true
has_error_code general_protection = true
has_error_code alignment_check = true
has_error_code control_protection = true
has_error_code double_fault = true
has_error_code _ = false

-- What a handler prints of the process: its id and whether it is a driver.
pub record Report : Type 0 where
  pub exception : Exception
  pub error_code : Option ℕ
  pub process : Option (ℕ × Bool)

-- How a handler ends, with the page table that is loaded then.
pub data Ending : Type 0 where
  returns : ℕ → Ending
  halts : ℕ → Ending
  panics : ℕ → Ending

-- `mov cr3, rax` with 0x100000.
abbrev pub kernel_table : ℕ
kernel_table = 0x100000

abbrev pub code_of : Exception → ℕ → Option ℕ
code_of exception error_code = if has_error_code exception then some error_code else none

-- The two macros: the report names `CURRENT_ID` and `IS_DRIVER`, and the handler halts.
abbrev pub report_and_halt : Exception → ℕ → Kernel → Report × Ending
report_and_halt exception error_code k = (
  record {
    exception = exception;
    error_code = code_of exception error_code;
    process = some (k.current_id, k.is_driver);
  },
  halts kernel_table,
)

-- Every handler but `pagefault`, from the kernel's state, the code and the table that was loaded.
unfoldable pub handle : Exception → ℕ → Kernel → ℕ → Report × Ending
handle double_fault error_code k cr3 = (
  record { exception = double_fault; error_code = some error_code; process = none },
  panics kernel_table,
)
handle machine_check error_code k cr3 =
    (record { exception = machine_check; error_code = none; process = none }, panics kernel_table)
handle breakpoint error_code k cr3 =
    (record { exception = breakpoint; error_code = none; process = none }, returns kernel_table)
handle exception error_code k cr3 = report_and_halt exception error_code k

-- Only the handler of breakpoints goes back to the interrupted code, with the kernel's page table
-- loaded; the error code of each report is the one of its exception; and the handlers that halt are
-- those that name the current process.
handle-returns :
    (exception : Exception) (error_code : ℕ) (k : Kernel) (cr3 : ℕ)
    → (((t : ℕ) × ((handle exception error_code k cr3).1 ≡ returns t)) ↔ (exception ≡ breakpoint))
      × ((handle breakpoint error_code k cr3).1 ≡ returns kernel_table)
      × ((handle exception error_code k cr3).0.error_code ≡ code_of exception error_code)
      × (((handle exception error_code k cr3).1 ≡ halts kernel_table)
          ↔ ((handle exception error_code k cr3).0.process ≡ some (k.current_id, k.is_driver)))
unfolding handle
handle-returns divide_error c k cr3 = ((λ w. cc (w.1), λ e. cc), refl, refl, (λ _. refl, λ _. refl))
handle-returns breakpoint c k cr3 =
    ((λ w. refl, λ e. (kernel_table, refl)), refl, refl, (λ e. cc, λ e. cc))
handle-returns double_fault c k cr3 = ((λ w. cc (w.1), λ e. cc), refl, refl, (λ e. cc, λ e. cc))
handle-returns machine_check c k cr3 = ((λ w. cc (w.1), λ e. cc), refl, refl, (λ e. cc, λ e. cc))
handle-returns _ c k cr3 = ((λ w. cc (w.1), λ e. cc), refl, refl, (λ _. refl, λ _. refl))
