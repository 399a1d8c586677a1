-- ===== src/Scheduler/Tests.antt =====
-- The switcher of arch/src/x86_64/scheduler.rs on a kernel with one normal process and one driver.
use proka_kernel.Base.{[], arith, false, get_elem?, refl, set, some, true, ◌∷◌, ◌≡◌}
use proka_kernel.Process.{
  DriverProcess, Kernel, Selectors, boot, create_driver, create_driver_process, create_normal,
  create_normal_process, default_driver, first_free,
}
use proka_kernel.Scheduler.{
  Exit, Interrupted, finish, from_driver, load, saved_context, switch_task, to_normal,
}
use proka_kernel.Scheduler.Lifecycle.{IsRunnable, Ticks, switch_task-Ticks}
use proka_kernel.Scheduler.Reachable.{
  Reachable, after, booted, created_driver, created_normal, reachable-IsRunnable,
}
use proka_kernel.Scheduler.Resume.{switch_all, switch_all-unsaved}
use proka_kernel.Scheduler.Fairness.{switch_all-turn, ticks}

abbrev selectors : Selectors
selectors = record { kernel_code = 8; kernel_data = 16; user_code = 43; user_data = 35; tss = 48 }

abbrev one_normal : Kernel
one_normal = record boot {
  normals = set boot.normals 0 (create_normal_process selectors 0x5000 1 0x100000);
  normal_queue = 0 ∷ [];
}

abbrev two : Kernel
two = record one_normal {
  drivers = set boot.drivers 0 (create_driver_process selectors 0x6000 0x100000);
  driver_queue = 0 ∷ [];
}

one_normal-run : create_normal selectors boot 0x5000 1 ≡ some one_normal
unfolding create_normal boot first_free
one_normal-run = refl

two-run : create_driver selectors one_normal 0x6000 ≡ some two
unfolding create_driver boot first_free
two-run = refl

two-Reachable : Reachable two
two-Reachable =
    after (after booted (created_normal selectors 0x5000 1 one_normal-run))
      (created_driver selectors 0x6000 two-run)

abbrev timer : Interrupted
timer = record {
  cr3 = 0x5000;
  pushed = λ n. n;
  stack = record {
    instruction_pointer = 0x200123;
    stack_pointer = 0x7FFFFFFFE000;
    code_segment = 43;
    stack_segment = 35;
    cpu_flags = 0x202;
  };
}

two-IsRunnable : IsRunnable two
two-IsRunnable = reachable-IsRunnable two-Reachable

switch_task-Ticks_example : (r : Kernel × Exit) × (switch_task two timer ≡ some r) × Ticks two r
switch_task-Ticks_example = switch_task-Ticks two timer two-IsRunnable

-- The normal process is running, and the driver is next.
abbrev running : Kernel
running = record two { is_driver = true; current_id = 0 }

-- The driver is running, and the normal process is next.
abbrev driving : Kernel
driving = record two { is_driver = false; current_id = 0 }

abbrev normal_running : Kernel
normal_running = record one_normal {
  drivers = set one_normal.drivers 0 (record default_driver { context = saved_context timer });
  current_id = 0;
}

normal_running-run :
    switch_all (record one_normal { current_id = 0 }) (timer ∷ []) ≡ some normal_running
unfolding switch_all switch_task from_driver to_normal finish boot create_normal_process
normal_running-run = refl

switch_all-unsaved_example : normal_running.normals ≡ one_normal.normals
unfolding boot
switch_all-unsaved_example =
    switch_all-unsaved (record one_normal { current_id = 0 }) normal_running (timer ∷ []) refl refl
      normal_running-run

-- A second driver behind the first, and nothing running yet.
abbrev three : Kernel
three = record two {
  drivers = set two.drivers 1 (create_driver_process selectors 0x7000 0x100000);
  driver_queue = 0 ∷ 1 ∷ [];
}

three-run : create_driver selectors two 0x7000 ≡ some three
unfolding create_driver boot first_free create_driver_process
three-run = refl

three-IsRunnable : IsRunnable three
three-IsRunnable =
    reachable-IsRunnable (after two-Reachable (created_driver selectors 0x7000 three-run))

switch_all-turn_example :
    (m : Kernel) × (r : Kernel × Exit) × (end : Kernel) × (c : DriverProcess) × (switch_all three
        (ticks ((timer, timer) ∷ []))
      ≡ some m)
    × (switch_task m timer ≡ some r)
    × (get_elem? r.0.drivers 1 ≡ some c)
    × (switch_task r.0 timer ≡ some (end, load c.context c.table_addr))
unfolding boot
switch_all-turn_example =
    switch_all-turn three ((timer, timer) ∷ []) timer timer 1 (0 ∷ []) [] three-IsRunnable refl
      (omega arith) refl refl
