-- ===== src/Scheduler/Reachable.antt =====
-- Every state that creating, removing and switching processes reaches from boot
-- (arch/src/x86_64/process and arch/src/x86_64/scheduler.rs).
use proka_kernel.Base.{arith, some, some_inj, subst, sym, ℕ, ◌∙◌, ◌≡◌}
use proka_kernel.Process.{
  Kernel, ProcType, Selectors, boot, create_driver, create_normal, ok, remove,
}
use proka_kernel.Process.Tables.{boot-IsConsistent, create_driver-Creates, create_normal-Creates}
use proka_kernel.Process.Removal.{remove-Removes}
use proka_kernel.Scheduler.{Exit, Interrupted, switch_task}
use proka_kernel.Scheduler.Lifecycle.{IsRunnable, switch_task-Ticks}

pub data Step : Kernel → Kernel → Type 0 where
  created_normal :
      {k j : Kernel} (sel : Selectors) (frame priority : ℕ)
      → create_normal sel k frame priority ≡ some j
      → Step k j
  created_driver :
      {k j : Kernel} (sel : Selectors) (frame : ℕ) → create_driver sel k frame ≡ some j → Step k j
  ended : {k j : Kernel} (t : ProcType) (id : ℕ) → remove k t id ≡ ok j → Step k j
  switched : {k j : Kernel} (i : Interrupted) (e : Exit) → switch_task k i ≡ some (j, e) → Step k j

pub data Reachable : Kernel → Type 0 where
  booted : Reachable boot
  after : {k j : Kernel} → Reachable k → Step k j → Reachable j

pub Step-IsRunnable : {k j : Kernel} → IsRunnable k → Step k j → IsRunnable j
Step-IsRunnable {k} {j} v (created_normal sel frame priority h) =
    let (id, c, _) = create_normal-Creates sel k j frame priority v.consistent h in
    record {
      consistent = c.consistent;
      current_fits = omega (arith, v.current_fits, c.current_kept);
    }
Step-IsRunnable {k} {j} v (created_driver sel frame h) =
    let (id, c, _) = create_driver-Creates sel k j frame v.consistent h in
    record {
      consistent = c.consistent;
      current_fits = omega (arith, v.current_fits, c.current_kept);
    }
Step-IsRunnable {k} {j} v (ended t id h) =
    let r = remove-Removes k j t id v.consistent h in
    record {
      consistent = r.consistent;
      current_fits = omega (arith, v.current_fits, r.current_kept);
    }
Step-IsRunnable {k} {j} v (switched i e h) =
    let (r, f, ticks) = switch_task-Ticks k i v in
    subst (λ (s : Kernel × Exit). IsRunnable s.0) (some_inj (sym f ∙ h)) ticks.runnable

-- In every state reached from boot the tables and queues agree: each queue holds exactly the ids of
-- its processes, each once, so that no interrupt panics or finds a queued process missing.
pub reachable-IsRunnable : {k : Kernel} → Reachable k → IsRunnable k
unfolding boot
reachable-IsRunnable booted = record { consistent = boot-IsConsistent; current_fits = omega arith }
reachable-IsRunnable (after r s) = Step-IsRunnable (reachable-IsRunnable r) s
