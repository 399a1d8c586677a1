-- ===== src/Scheduler/Switching.antt =====
-- `switch_task` of arch/src/x86_64/scheduler.rs, branch by branch.
use proka_kernel.Base.{List, [], false, get_elem?, not, refl, set, some, true, ℕ, ◌++◌, ◌∷◌, ◌≡◌}
use proka_kernel.Process.{DriverProcess, Kernel, NormalProcess, used_driver, used_normal}
use proka_kernel.Process.Slots.{IsTable}
use proka_kernel.Scheduler.{
  Interrupted, finish, from_driver, from_normal, is_empty, kernel_table, load, return_under,
  saved_context, switch_task,
}
use proka_kernel.Scheduler.Saving.{to_driver-loads, to_normal-loads}

-- The tables after saving.
abbrev pub save_normal : Kernel → Interrupted → NormalProcess → List NormalProcess
save_normal k i p =
    set k.normals k.current_id (record p { context = saved_context i; current_table = i.cr3 })

abbrev pub save_driver : Kernel → Interrupted → DriverProcess → List DriverProcess
save_driver k i p = set k.drivers k.current_id (record p { context = saved_context i })

-- With `IS_DRIVER` set and a driver waiting, the interrupted code's context and page table are
-- stored in the current normal process, and the driver at the front of the queue is loaded and
-- goes to its end; `IS_DRIVER` stays set only if no normal process is waiting.
pub switch_task-to_driver :
    (k : Kernel) (i : Interrupted) (p : NormalProcess) (did : ℕ) (rest : List ℕ)
    → IsTable used_driver k.drivers (did ∷ rest)
    → get_elem? k.normals k.current_id ≡ some p
    → (d : DriverProcess) × (get_elem? k.drivers did ≡ some d)
      × (switch_task (record k { is_driver = true; driver_queue = did ∷ rest }) i
          ≡ some (
            record k {
              is_driver = is_empty k.normal_queue;
              normals = save_normal k i p;
              current_id = did;
              driver_queue = rest ++ did ∷ [];
            },
            load d.context d.table_addr,
          ))
unfolding switch_task from_normal finish
switch_task-to_driver k i p did rest v there = go k.normal_queue
  where
    go :
        (nq : List ℕ)
        → (d : DriverProcess) × (get_elem? k.drivers did ≡ some d)
          × (switch_task
                (record k { is_driver = true; driver_queue = did ∷ rest; normal_queue = nq })
                i
              ≡ some (
                record k {
                  is_driver = is_empty nq;
                  normals = save_normal k i p;
                  current_id = did;
                  driver_queue = rest ++ did ∷ [];
                  normal_queue = nq;
                },
                load d.context d.table_addr,
              ))
    go [] =
        let (d, found, e) =
          to_driver-loads
            (record k {
              normals = save_normal k i p;
              is_driver = true;
              driver_queue = did ∷ rest;
              normal_queue = [];
            })
            did rest v refl in
        (d, found, rw (there, e, switch_task, from_normal) refl)
    go (pid ∷ more) =
        let (d, found, e) =
          to_driver-loads
            (record k {
              normals = save_normal k i p;
              is_driver = false;
              driver_queue = did ∷ rest;
              normal_queue = pid ∷ more;
            })
            did rest v refl in
        (d, found, rw (there, e, switch_task, from_normal) refl)

-- With `IS_DRIVER` clear and a normal process waiting, the interrupted code's context is stored in
-- the driver with the current id, and the normal process at the front of the queue is loaded under
-- its current page table and goes to the end; `IS_DRIVER` is set if a driver is waiting.
pub switch_task-to_normal :
    (k : Kernel) (i : Interrupted) (p : DriverProcess) (pid : ℕ) (rest : List ℕ)
    → IsTable used_normal k.normals (pid ∷ rest)
    → get_elem? k.drivers k.current_id ≡ some p
    → (n : NormalProcess) × (get_elem? k.normals pid ≡ some n)
      × (switch_task (record k { is_driver = false; normal_queue = pid ∷ rest }) i
          ≡ some (
            record k {
              is_driver = not (is_empty k.driver_queue);
              drivers = save_driver k i p;
              current_id = pid;
              normal_queue = rest ++ pid ∷ [];
            },
            load n.context n.current_table,
          ))
unfolding switch_task from_driver finish
switch_task-to_normal k i p pid rest v there = go k.driver_queue
  where
    go :
        (dq : List ℕ)
        → (n : NormalProcess) × (get_elem? k.normals pid ≡ some n)
          × (switch_task
                (record k { is_driver = false; normal_queue = pid ∷ rest; driver_queue = dq })
                i
              ≡ some (
                record k {
                  is_driver = not (is_empty dq);
                  drivers = save_driver k i p;
                  current_id = pid;
                  normal_queue = rest ++ pid ∷ [];
                  driver_queue = dq;
                },
                load n.context n.current_table,
              ))
    go [] =
        let (n, found, e) =
          to_normal-loads
            (record k {
              drivers = save_driver k i p;
              is_driver = false;
              normal_queue = pid ∷ rest;
              driver_queue = [];
            })
            pid rest v refl in
        (n, found, rw (there, e, switch_task, from_driver) refl)
    go (did ∷ more) =
        let (n, found, e) =
          to_normal-loads
            (record k {
              drivers = save_driver k i p;
              is_driver = true;
              normal_queue = pid ∷ rest;
              driver_queue = did ∷ more;
            })
            pid rest v refl in
        (n, found, rw (there, e, switch_task, from_driver) refl)

-- With nothing to run the interrupted code goes on, but under the kernel's page table.
switch_task-idle :
    (k : Kernel) (i : Interrupted)
    → switch_task (record k { normal_queue = []; driver_queue = [] }) i
      ≡ some (record k { normal_queue = []; driver_queue = [] }, return_under kernel_table)
unfolding switch_task
switch_task-idle k i = refl
