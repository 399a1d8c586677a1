-- ===== src/Syscall/Memory/Runnable.antt =====
-- What system call 2 leaves of the process tables and queues: arch/src/x86_64/syscall/memory.rs.
use proka_kernel.Base.{
  Bool-cases, get_elem?, inl, inr, refl, some, some_inj, subst, sym, ℕ, ◌==◌, ◌≡◌,
}
use proka_kernel.Syscall.{ℤ}
use proka_kernel.Syscall.Memory.{Mapper, Memory, memory}
use proka_kernel.Syscall.Memory.Ranges.{IsHeaps, find_process-some}
use proka_kernel.Syscall.Memory.Calls.{
  Allocates, Frees, allocate-Allocates, deallocate-Frees, freed, granted, grown, memory-IsHeaps,
  no_memory, no_process, shrunk, unknown_process, unknown_range, with_process, zero_size,
}
use proka_kernel.Process.{Kernel, NormalProcess, used_normal}
use proka_kernel.ArchFrames.{PhysFrames}
use proka_kernel.Scheduler.Lifecycle.{IsRunnable}
use proka_kernel.Scheduler.Saving.{IsTable-save}

-- A change of a process that stays in use or stays free.
with_process-IsRunnable :
    (k : Kernel) (i : ℕ) (p n : NormalProcess)
    → IsRunnable k
    → get_elem? k.normals i ≡ some p
    → used_normal n ≡ used_normal p
    → IsRunnable (with_process k i n)
with_process-IsRunnable k i p n v there same = record {
  consistent = record {
    normal_table =
        IsTable-save used_normal k.normals k.normal_queue i p n v.consistent.normal_table there
          same;
    driver_table = v.consistent.driver_table;
  };
  current_fits = v.current_fits;
}

module _ {S : Type 0} (x : PhysFrames) (m : Mapper x S) where
  allocate-IsRunnable :
      (table size : ℕ) (s : Memory x m) {r : ℤ × Memory x m}
      → IsRunnable s.kernel
      → Allocates x m table size s r
      → IsRunnable r.1.kernel
  allocate-IsRunnable table size s v (zero_size z) = v
  allocate-IsRunnable table size s v (no_process h e) = v
  allocate-IsRunnable table size s v (no_memory i p after h found short same) =
      subst IsRunnable (sym same) v
  allocate-IsRunnable table size s v (granted i p after h found same canonical enough) =
      subst IsRunnable (sym same) (
        with_process-IsRunnable s.kernel i p (grown size p) v
          (find_process-some s.kernel.normals table i p found) refl)

  deallocate-IsRunnable :
      (table a : ℕ) (s : Memory x m) {r : ℤ × Memory x m}
      → IsRunnable s.kernel
      → Frees x m table a s r
      → IsRunnable r.1.kernel
  deallocate-IsRunnable table a s v (unknown_process e) = v
  deallocate-IsRunnable table a s v (unknown_range i p found e) = v
  deallocate-IsRunnable table a s v (freed i n p range after found ranged same) =
      subst IsRunnable (sym same) (
        with_process-IsRunnable s.kernel i p (shrunk n p) v
          (find_process-some s.kernel.normals table i p found) refl)

  -- Whatever the request, a system call on heap memory that returns leaves the process tables and
  -- queues in agreement, and the heap ranges of every process in order and so disjoint, if they
  -- were before.
  pub memory-IsRunnable :
      (table typ size a : ℕ) (s : Memory x m) (r : ℤ × Memory x m)
      → IsRunnable s.kernel
      → IsHeaps s.kernel.normals
      → memory x m table typ size a s ≡ some r
      → IsRunnable r.1.kernel × IsHeaps r.1.kernel.normals
  unfolding memory
  memory-IsRunnable table typ size a s r v heaps h = (
    elim (Bool-cases (typ == 0)) [
      | inl z ↦
          allocate-IsRunnable table size s v
            (allocate-Allocates x m table size s r (rw (z, memory) at h))
      | inr z ↦ elim (Bool-cases (typ == 1)) [
        | inl o ↦
            deallocate-IsRunnable table a s v
              (deallocate-Frees x m table a s r (rw (z, o, memory) at h))
        | inr o ↦
            subst (λ (q : ℤ × Memory x m). IsRunnable q.1.kernel)
              (some_inj (rw (z, o, memory) at h)) v
      ]
    ],
    memory-IsHeaps x m table typ size a s r heaps h,
  )
