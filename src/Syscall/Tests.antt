-- ===== src/Syscall/Tests.antt =====
-- System calls 0 and 1 and the lookup at concrete inputs.
use proka_kernel.Base.{
  Bool, List, Option, [], false, if◌then◌else◌, none, refl, some, suc, true, zero, ℕ, ◌==◌, ◌∷◌,
  ◌≡◌,
}
use proka_kernel.Syscall.{negsuc, pos, ℤ}
use proka_kernel.Syscall.Table.{
  Args, CallContext, find_syscall, init, syscall_handler, syscall_handler-init,
}
use proka_kernel.Syscall.Reaching.{Answers, attempt, kernel_of, process-Answers, with_kernel}
use proka_kernel.Syscall.Process.{Kills, process, process-Kills, spawn}
use proka_kernel.Syscall.Power.{
  Access, Rebooted, ResetRegister, no_values, other_space, power, power-reboot, stops,
}
use proka_kernel.Process.{Kernel, boot, create_driver, create_normal, first_free}
use proka_kernel.Process.Tables.{boot-IsConsistent}
use proka_kernel.Process.Loading.{load_requests}
use proka_kernel.Creation.Fixtures.{machine, map_nothing, numbers, program_of, selectors}
use proka_kernel.Creation.{
  Machine, create, enter, launch, load_sections, map_page, map_requests, map_stack, take_frames,
  ◌then◌,
}
use proka_kernel.ArchFrames.{allocate_contiguous}
use proka_kernel.FrameAlloc.{
  FrameAlloc, find_run, get_bit, read_bit, run_is_free, scan, set_bit, set_run, write_bit,
}

-- Entry points as numbers; a call adds its entry point to the state.
call_number : ℕ → CallContext → Args → List ℕ → ℤ × List ℕ
call_number entry context args s = (pos args.arg1, entry ∷ s)

abbrev some_args : Args
some_args = record { arg1 = 5; arg2 = 0; arg3 = 0; arg4 = 0; arg5 = 0 }

syscall_handler-init_example :
    syscall_handler call_number (init 10 11 12 []) 2 0x9000 some_args [] ≡ (pos 5, 12 ∷ [])
unfolding call_number find_syscall
syscall_handler-init_example =
    syscall_handler-init call_number 10 11 12 [] 2 0x9000 some_args [] refl

abbrev same_kernel : Kernel → Kernel
same_kernel k = k

abbrev replace_kernel : Kernel → Kernel → Kernel
replace_kernel _ k = k

copy_nothing : Kernel → ℕ → ℕ → ℕ → Option (List ℕ)
copy_nothing k table buf len = if len == 0 then some [] else none

create_nothing : List ℕ → ℕ → Kernel → Option (Bool × Kernel)
create_nothing bytes priority k = some (false, k)

process-Kills_example :
    (r : ℤ × Kernel) × (process same_kernel replace_kernel copy_nothing create_nothing 0x9000 0 7
        0x1000 0 1 boot
      ≡ some r)
    × Kills same_kernel replace_kernel copy_nothing create_nothing boot 7 1 r
unfolding copy_nothing
process-Kills_example =
    process-Kills same_kernel replace_kernel copy_nothing create_nothing 0x9000 7 0x1000 0 1 [] boot
      boot-IsConsistent refl

-- The usual reset register, in the port space at 0xcf9.
abbrev port_register : ResetRegister
port_register = record { address = 0xcf9; bit_width = 8; address_space = other_space }

power-reboot_example :
    (accesses : List Access) × (power (some port_register) 6 no_values true true 1 boot
      ≡ stops accesses (record boot { driver_queue = []; normal_queue = [] }))
    × Rebooted (some port_register) 6 accesses
power-reboot_example = power-reboot (some port_register) 6 no_values true true boot

-- A buffer that can be copied and holds a user program.
abbrev copy_program : Machine → ℕ → ℕ → ℕ → Option (List ℕ)
copy_program m table buf len = some (0 ∷ [])

abbrev spawned : Option (ℤ × Machine)
spawned =
    process kernel_of with_kernel copy_program (attempt numbers selectors program_of map_nothing)
      0x9000 1 7 0x400000 1 0 machine

abbrev spawning : Machine
spawning = elim spawned [ none ↦ machine | some (code, m) ↦ m ]

is_zero : Option (ℤ × Machine) → Bool
is_zero (some (pos zero, m)) = true
is_zero _ = false

returned_zero :
    (o : Option (ℤ × Machine))
    → is_zero o ≡ true
    → o ≡ some (pos 0, elim o [ none ↦ machine | some (code, m) ↦ m ])
unfolding is_zero
returned_zero none h = cc
returned_zero (some (pos zero, m)) h = refl
returned_zero (some (pos (suc n), m)) h = cc
returned_zero (some (negsuc n, m)) h = cc

spawns : is_zero spawned ≡ true
unfolding is_zero process spawn create launch load_sections take_frames map_stack map_page
    map_requests load_requests enter boot create_normal create_driver
    proka_kernel.ArchFrames.allocate_contiguous proka_kernel.FrameAlloc.allocate_contiguous find_run
    scan run_is_free get_bit read_bit set_run set_bit write_bit first_free
spawns = refl

process-Answers_example :
    Answers numbers selectors program_of map_nothing copy_program 0x9000 1 7 0x400000 1 0 machine
      (pos 0, spawning)
process-Answers_example =
    process-Answers numbers selectors program_of map_nothing copy_program 0x9000 1 7 0x400000 1 0
      machine (pos 0, spawning) boot-IsConsistent (returned_zero spawned spawns)
