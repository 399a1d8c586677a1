-- ===== src/Scheduler/Lifecycle.antt =====
-- `switch_task` of arch/src/x86_64/scheduler.rs against the tables and queues as a whole.
use proka_kernel.Base.{
  Bool, List, [], arith, false, get_elem?, get_elem?-length, get_elem?-some, refl, some, true, ℕ,
  ◌++◌, ◌<◌, ◌∷◌, ◌≡◌,
}
use proka_kernel.Process.{
  DriverProcess, Kernel, NormalProcess, ProcType, driver, max_ps, normal, used_driver, used_normal,
}
use proka_kernel.Process.Slots.{IsTable}
use proka_kernel.Process.Tables.{IsConsistent, in_use}
use proka_kernel.Scheduler.{Exit, Interrupted, back_under, from_driver, from_normal, switch_task}
use proka_kernel.Scheduler.Saving.{IsTable-rotate, IsTable-save, front-exists, is_present-save}
use proka_kernel.Scheduler.Switching.{
  save_driver, save_normal, switch_task-to_driver, switch_task-to_normal,
}

-- Consistent tables, and a current id that both tables have.
pub record IsRunnable (k : Kernel) : Type 0 where
  pub consistent : IsConsistent k
  pub current_fits : k.current_id < max_ps

-- What a timer interrupt does to the processes as a whole.
pub record Ticks (k : Kernel) (r : Kernel × Exit) : Type 0 where
  pub runnable : IsRunnable r.0
  pub users : (t : ProcType) (id : ℕ) → in_use r.0 t id ≡ in_use k t id

queued_fits :
    {P : Type 0} (present : P → Bool) (ps : List P) (id : ℕ) (rest : List ℕ)
    → IsTable present ps (id ∷ rest)
    → id < max_ps
queued_fits present ps id rest v =
    let (p, there, _) = front-exists present ps id rest v in
    omega (arith, get_elem?-length ps id there, v.sized)

-- An early return.
stays-Ticks :
    (k : Kernel) (m : Bool) (e : Exit) → IsRunnable k → Ticks k (record k { is_driver = m }, e)
unfolding in_use
stays-Ticks k m e v = record {
  runnable = record {
    consistent = record {
      normal_table = v.consistent.normal_table;
      driver_table = v.consistent.driver_table;
    };
    current_fits = v.current_fits;
  };
  users = λ t id. same t id;
}
  where
    same : (t : ProcType) (id : ℕ) → in_use (record k { is_driver = m }) t id ≡ in_use k t id
    same normal id = refl
    same driver id = refl

to_driver-Ticks :
    (k : Kernel) (i : Interrupted) (p : NormalProcess) (did : ℕ) (rest : List ℕ) (m : Bool)
    (e : Exit)
    → IsRunnable (record k { driver_queue = did ∷ rest })
    → get_elem? k.normals k.current_id ≡ some p
    → Ticks
        (record k { driver_queue = did ∷ rest })
        (
          record k {
            is_driver = m;
            normals = save_normal k i p;
            current_id = did;
            driver_queue = rest ++ did ∷ [];
          },
          e,
        )
unfolding in_use
to_driver-Ticks k i p did rest m e v there = record {
  runnable = record {
    consistent = record {
      normal_table =
          IsTable-save used_normal k.normals k.normal_queue k.current_id p _
            v.consistent.normal_table there refl;
      driver_table = IsTable-rotate used_driver k.drivers did rest v.consistent.driver_table;
    };
    current_fits = queued_fits used_driver k.drivers did rest v.consistent.driver_table;
  };
  users = λ t id. same t id;
}
  where
    same :
        (t : ProcType) (id : ℕ)
        → in_use
            (record k {
              is_driver = m;
              normals = save_normal k i p;
              current_id = did;
              driver_queue = rest ++ did ∷ [];
            })
            t
            id
          ≡ in_use (record k { driver_queue = did ∷ rest }) t id
    same normal id = is_present-save used_normal k.normals k.current_id p _ id there refl
    same driver id = refl

to_normal-Ticks :
    (k : Kernel) (i : Interrupted) (p : DriverProcess) (pid : ℕ) (rest : List ℕ) (m : Bool)
    (e : Exit)
    → IsRunnable (record k { normal_queue = pid ∷ rest })
    → get_elem? k.drivers k.current_id ≡ some p
    → Ticks
        (record k { normal_queue = pid ∷ rest })
        (
          record k {
            is_driver = m;
            drivers = save_driver k i p;
            current_id = pid;
            normal_queue = rest ++ pid ∷ [];
          },
          e,
        )
unfolding in_use
to_normal-Ticks k i p pid rest m e v there = record {
  runnable = record {
    consistent = record {
      normal_table = IsTable-rotate used_normal k.normals pid rest v.consistent.normal_table;
      driver_table =
          IsTable-save used_driver k.drivers k.driver_queue k.current_id p _
            v.consistent.driver_table there refl;
    };
    current_fits = queued_fits used_normal k.normals pid rest v.consistent.normal_table;
  };
  users = λ t id. same t id;
}
  where
    same :
        (t : ProcType) (id : ℕ)
        → in_use
            (record k {
              is_driver = m;
              drivers = save_driver k i p;
              current_id = pid;
              normal_queue = rest ++ pid ∷ [];
            })
            t
            id
          ≡ in_use (record k { normal_queue = pid ∷ rest }) t id
    same normal id = refl
    same driver id = is_present-save used_driver k.drivers k.current_id p _ id there refl

abbrev with_queues : Kernel → List ℕ → List ℕ → Bool → Kernel
with_queues k nq dq m = record k { normal_queue = nq; driver_queue = dq; is_driver = m }

-- On a runnable kernel the switcher never panics, whatever it interrupts and whichever queues are
-- empty, and leaves a runnable kernel with the same processes.
pub switch_task-Ticks :
    (k : Kernel) (i : Interrupted)
    → IsRunnable k
    → (r : Kernel × Exit) × (switch_task k i ≡ some r) × Ticks k r
unfolding switch_task from_normal from_driver
switch_task-Ticks k i v =
    let (n, has_n) =
      get_elem?-some k.normals k.current_id
        (omega (arith, v.consistent.normal_table.sized, v.current_fits)) in
    let (d, has_d) =
      get_elem?-some k.drivers k.current_id
        (omega (arith, v.consistent.driver_table.sized, v.current_fits)) in
    go n d has_n has_d k.normal_queue k.driver_queue k.is_driver v
  where
    go :
        (n : NormalProcess) (d : DriverProcess)
        → get_elem? k.normals k.current_id ≡ some n
        → get_elem? k.drivers k.current_id ≡ some d
        → (nq dq : List ℕ) (m : Bool) → IsRunnable (with_queues k nq dq m)
        → (r : Kernel × Exit) × (switch_task (with_queues k nq dq m) i ≡ some r)
          × Ticks (with_queues k nq dq m) r
    go n d has_n has_d [] [] m v = (_, refl, stays-Ticks (with_queues k [] [] m) m _ v)
    go n d has_n has_d (p ∷ ps) [] true v = (
      _,
      rw (has_n, from_normal) refl,
      stays-Ticks (with_queues k (p ∷ ps) [] true) false (back_under n.table_addr) v,
    )
    go n d has_n has_d nq (q ∷ qs) true v =
        let (e, _, f) =
          switch_task-to_driver (with_queues k nq (q ∷ qs) true) i n q qs v.consistent.driver_table
            has_n in
        (_, f, to_driver-Ticks (with_queues k nq (q ∷ qs) true) i n q qs _ _ v has_n)
    go n d has_n has_d [] (q ∷ qs) false v = (
      _,
      rw (has_d, from_driver) refl,
      stays-Ticks (with_queues k [] (q ∷ qs) false) true (back_under d.table_addr) v,
    )
    go n d has_n has_d (p ∷ ps) dq false v =
        let (e, _, f) =
          switch_task-to_normal (with_queues k (p ∷ ps) dq false) i d p ps v.consistent.normal_table
            has_d in
        (_, f, to_normal-Ticks (with_queues k (p ∷ ps) dq false) i d p ps _ _ v has_d)
