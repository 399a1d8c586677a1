-- ===== src/System/Running.antt =====
-- The states that processes, interrupts and heap memory calls reach from boot: arch/src/x86_64/process,
-- arch/src/x86_64/scheduler.rs and arch/src/x86_64/syscall/memory.rs.
use proka_kernel.Base.{some, subst, sym, ℕ, ◌≡◌}
use proka_kernel.System.Heaps.{Step-IsHeaps, boot-IsHeaps}
use proka_kernel.Syscall.{ℤ}
use proka_kernel.Syscall.Memory.{Mapper, Memory, memory}
use proka_kernel.Syscall.Memory.Ranges.{IsHeaps}
use proka_kernel.Syscall.Memory.Runnable.{memory-IsRunnable}
use proka_kernel.Process.{Kernel, boot}
use proka_kernel.ArchFrames.{PhysFrames}
use proka_kernel.Scheduler.Lifecycle.{IsRunnable}
use proka_kernel.Scheduler.Reachable.{Step, Step-IsRunnable, booted, reachable-IsRunnable}

module _ {S : Type 0} (x : PhysFrames) (m : Mapper x S) where
  -- A creation, a removal, an interrupt, or a call on heap memory that returns.
  pub data Moves (k k' : Kernel) : Type 0 where
    scheduled : Step k k' → Moves k k'
    requested :
        (table typ size a : ℕ) (s : Memory x m) (r : ℤ × Memory x m)
        → s.kernel ≡ k
        → memory x m table typ size a s ≡ some r
        → r.1.kernel ≡ k'
        → Moves k k'

  pub data Running : Kernel → Type 0 where
    started : Running boot
    moved : {k k' : Kernel} → Running k → Moves k k' → Running k'

  Moves-IsRunnable :
      {k k' : Kernel}
      → IsRunnable k
      → IsHeaps k.normals
      → Moves k k'
      → IsRunnable k' × IsHeaps k'.normals
  Moves-IsRunnable v heaps (scheduled step) = (Step-IsRunnable v step, Step-IsHeaps step heaps)
  Moves-IsRunnable v heaps (requested table typ size a s r same called ends) =
      subst (λ (l : Kernel). IsRunnable l × IsHeaps l.normals) ends
        (memory-IsRunnable x m table typ size a s r (subst IsRunnable (sym same) v)
          (subst (λ (l : Kernel). IsHeaps l.normals) (sym same) heaps) called)

  -- In every state that is reached from boot by creating and removing processes, interrupts and
  -- calls on heap memory, in any order, tables and queues agree and the heap ranges of every normal
  -- process are in order and so disjoint.
  pub running-IsRunnable : {k : Kernel} → Running k → IsRunnable k × IsHeaps k.normals
  running-IsRunnable started = (reachable-IsRunnable booted, boot-IsHeaps)
  running-IsRunnable (moved r move) =
      let (v, heaps) = running-IsRunnable r in Moves-IsRunnable v heaps move
