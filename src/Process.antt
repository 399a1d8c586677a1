-- ===== src/Process.antt =====
-- The process tables: core/src/process.rs, core/src/scheduler.rs and
-- arch/src/x86_64/process/{normal,driver}.rs with the parts of process/mod.rs that create and
-- remove table entries. The global tables, queues and atomics are one record.
mod Types
pub mod Slots
pub mod Tables
pub mod Removal
pub mod Undo
pub mod Loading
mod Tests
pub use Types.*
use proka_kernel.Base.{
  Bool, List, Option, [], false, get_elem?, if◌then◌else◌, leb, none, replicate, set, some,
  sub_word, suc, true, ℕ, ◌++◌, ◌==◌, ◌∷◌,
}

-- `Context::normal` and `Context::driver`.
unfoldable pub normal_context : Selectors → Context
normal_context sel = record zero_context {
  rsp = 0x7FFFFFFFF000;
  rbp = 0x7FFFFFFFF000;
  rip = 0x200000;
  rflags = initial_rflags;
  cs = sel.user_code;
  ss = sel.user_data;
}

unfoldable pub driver_context : Selectors → Context
driver_context sel = record zero_context {
  rsp = 0x7FFFFFFFF000;
  rbp = 0x7FFFFFFFF000;
  rip = 0x200000;
  rflags = initial_rflags;
  cs = sel.kernel_code;
  ss = sel.kernel_data;
}

-- `NormalProcess::create` and `DriverProcess::create`, which never fail.
unfoldable pub create_normal_process : Selectors → ℕ → ℕ → ℕ → NormalProcess
unfolding normal_context
create_normal_process sel frame priority stack_size = record {
  present = true;
  status = ready;
  priority = priority;
  context = normal_context sel;
  current_table = frame;
  stack_bottom = sub_word (normal_context sel).rsp stack_size;
  heap_range = [];
  heap_bottom = 0x180000000;
  table_addr = frame;
}

unfoldable pub create_driver_process : Selectors → ℕ → ℕ → DriverProcess
unfolding driver_context
create_driver_process sel frame stack_size = record {
  present = true;
  status = ready;
  context = driver_context sel;
  stack_bottom = sub_word (driver_context sel).rsp stack_size;
  heap_range = [];
  heap_bottom = 0x180000000;
  table_addr = frame;
}

-- `NORMAL_PROCESS`, `DRIVER_PROCESS`, `NORMAL_QUEUE`, `DRIVER_QUEUE`, `IS_DRIVER` and `CURRENT_ID`.
-- The tables' field `count` is never read or changed.
pub record Kernel : Type 0 where
  pub normals : List NormalProcess
  pub drivers : List DriverProcess
  pub normal_queue : List ℕ
  pub driver_queue : List ℕ
  pub is_driver : Bool
  pub current_id : ℕ

unfoldable pub boot : Kernel
boot = record {
  normals = replicate max_ps default_normal;
  drivers = replicate max_ps default_driver;
  normal_queue = [];
  driver_queue = [];
  is_driver = false;
  current_id = 16383;
}

-- The field that the search loops read.
abbrev pub used_normal : NormalProcess → Bool
used_normal p = p.present

abbrev pub used_driver : DriverProcess → Bool
used_driver p = p.present

-- The search loop of `create_normal` and `create_driver`: the first entry that is not present.
module _ {P : Type 0} (present : P → Bool) where
  unfoldable pub first_free : List P → Option ℕ
  first_free [] = none
  first_free (p ∷ ps) =
      if present p then elim (first_free ps) [ none ↦ none | some i ↦ some (suc i) ] else some 0

-- `queue.retain(|item| *item != index)`.
pub retain_ne : ℕ → List ℕ → List ℕ
retain_ne index [] = []
retain_ne index (i ∷ q) = let rest = retain_ne index q in if i == index then rest else i ∷ rest

-- The rest of `create`, after the page table at `frame` has been built. `none` is the panic of
-- `pid.unwrap()` on a full table.
unfoldable pub create_normal : Selectors → Kernel → ℕ → ℕ → Option Kernel
create_normal sel k frame priority =
    let process = create_normal_process sel frame priority 0x100000 in
    elim (first_free used_normal k.normals) [
      | none ↦ none
      | some pid ↦ some (record k {
        normals = set k.normals pid process;
        normal_queue = k.normal_queue ++ pid ∷ [];
      })
    ]

unfoldable pub create_driver : Selectors → Kernel → ℕ → Option Kernel
create_driver sel k frame =
    let process = create_driver_process sel frame 0x100000 in
    elim (first_free used_driver k.drivers) [
      | none ↦ none
      | some did ↦ some (record k {
        drivers = set k.drivers did process;
        driver_queue = k.driver_queue ++ did ∷ [];
      })
    ]

-- `core::result::Result` with the errors of this module, and the panic of an index out of range.
pub data Result {ℓ} (A : Type ℓ) : Type ℓ where
  ok : A → Result A
  err : Error → Result A
  panics : Result A

-- `remove_normal` and `remove_driver`. The frees of `clean_up` on the process's own page table are
-- not part of this state.
unfoldable pub remove_normal : Kernel → ℕ → Result Kernel
remove_normal k index =
    if leb max_ps index then err invalid_index else elim (get_elem? k.normals index) [
      | none ↦ panics
      | some proc ↦
          if proc.present
          then ok (record k {
            normals = set k.normals index (record proc { present = false });
            normal_queue = retain_ne index k.normal_queue;
          })
          else err process_not_exist
    ]

unfoldable pub remove_driver : Kernel → ℕ → Result Kernel
remove_driver k index =
    if leb max_ps index then err invalid_index else elim (get_elem? k.drivers index) [
      | none ↦ panics
      | some proc ↦
          if proc.present
          then ok (record k {
            drivers = set k.drivers index (record proc { present = false });
            driver_queue = retain_ne index k.driver_queue;
          })
          else err process_not_exist
    ]

unfoldable pub remove : Kernel → ProcType → ℕ → Result Kernel
unfolding remove_normal remove_driver
remove k normal index = remove_normal k index
remove k driver index = remove_driver k index
