-- ===== src/Syscall/Reaching.antt =====
-- The process call of arch/src/x86_64/syscall/process.rs, by its arguments, over `create`
-- of arch/src/x86_64/process/mod.rs.
use proka_kernel.Base.{
  >>=-some, Bool, List, Option, Option-cases, arith, false, if◌then◌else◌, inl, inr, none, refl,
  some, some_inj, subst, suc, sym, true, zero, ℕ, ◌%◌, ◌>>=◌, ◌∙◌, ◌≡◌, ◌≢◌, ◌≤◌,
}
use proka_kernel.Syscall.{pos, ℤ}
use proka_kernel.Syscall.Process.{
  Kills, create_tasks, kill, kill_tasks, minus, process, process-Kills, proctype_of, request_of,
  spawn,
}
use proka_kernel.Creation.{Machine, Program, Step, create, done, fails, kind_of, panicked, ◌then◌}
use proka_kernel.Creation.Additions.{Added, create-Added}
use proka_kernel.Creation.Outcomes.{Created, IsEntry, create-Created}
use proka_kernel.Paging.{Flags, Tables}
use proka_kernel.ArchFrames.{PhysFrames}
use proka_kernel.FrameAlloc.{FrameAlloc}
use proka_kernel.Process.{
  Error, Kernel, ProcType, Result, Selectors, driver, err, invalid_format, normal, ok, panics,
  remove,
}
use proka_kernel.Process.Tables.{Creates, IsConsistent}
use proka_kernel.Scheduler.Reachable.{
  Reachable, after, created_driver, created_normal, ended, reachable-IsRunnable,
}

-- The processes of the machine.
abbrev pub kernel_of : Machine → Kernel
kernel_of m = m.kernel

abbrev pub with_kernel : Machine → Kernel → Machine
with_kernel m k = record m { kernel = k }

-- Whether `create` was `Ok`, and the state that it leaves.
abbrev attempted : Step ℕ → Option (Bool × Machine)
attempted (done pml4 m) = some (true, m)
attempted (fails error m) = some (false, m)
attempted (panicked m) = none

not_done :
    {pml4 : ℕ} {error : Error} {m n : Machine} → ◌≢◌ {A = Step ℕ} (fails error m) (done pml4 n)
not_done e = cc

module _ (x : PhysFrames) (sel : Selectors) (parse : List ℕ → Option Program)
    (map_to : Tables → ℕ → ℕ → ℕ → Flags → FrameAlloc → Bool × Tables × FrameAlloc) where
  -- `create(..).is_err()`, with the new state; a panic is `none`.
  abbrev pub attempt : List ℕ → ℕ → Machine → Option (Bool × Machine)
  attempt bytes priority m = attempted (create x sel parse map_to bytes priority m)

  added-Reachable :
      (k k' : Kernel) (t : ProcType) (pml4 priority : ℕ)
      → Reachable k
      → Added x sel parse map_to k t pml4 priority k'
      → Reachable k'
  added-Reachable k k' normal pml4 priority r e = after r (created_normal sel pml4 priority e)
  added-Reachable k k' driver pml4 priority r e = after r (created_driver sel pml4 e)

  failed-kernel :
      (bytes : List ℕ) (priority : ℕ) (error : Error) (m n : Machine)
      → IsConsistent m.kernel
      → create x sel parse map_to bytes priority m ≡ fails error n
      → n.kernel ≡ m.kernel
  unfolding Created
  failed-kernel bytes priority error m n v e =
      elim (create-Created x sel parse map_to m.kernel bytes priority m v refl) [
        | inl (program, parsed, good, h) ↦
            subst
              (Created x sel parse map_to m.kernel (kind_of x sel parse map_to program) priority) e
              h
        | inr malformed ↦ failed_machine (sym malformed ∙ e)
      ]
    where
      failed_machine :
          ◌≡◌ {A = Step ℕ} (fails invalid_format m) (fails error n) → n.kernel ≡ m.kernel
      failed_machine same = cc

  attempt-Reachable :
      (bytes : List ℕ) (priority : ℕ) (m m' : Machine) (fine : Bool)
      → Reachable m.kernel
      → attempt bytes priority m ≡ some (fine, m')
      → Reachable m'.kernel
  attempt-Reachable bytes priority m m' fine r e =
      by_step (create x sel parse map_to bytes priority m) refl e
    where
      by_step :
          (s : Step ℕ)
          → create x sel parse map_to bytes priority m ≡ s
          → attempted s ≡ some (fine, m')
          → Reachable m'.kernel
      by_step (done pml4 n) made e =
          let (program, parsed, added) =
            create-Added x sel parse map_to m.kernel bytes priority pml4 m n refl made in
          subst (λ (o : Bool × Machine). Reachable o.1.kernel) (some_inj e)
            (added-Reachable m.kernel n.kernel (kind_of x sel parse map_to program) pml4 priority r
              added)
      by_step (fails error n) made e =
          subst (λ (o : Bool × Machine). Reachable o.1.kernel) (some_inj e)
            (subst Reachable
              (sym
                (failed-kernel bytes priority error m n (reachable-IsRunnable r).consistent made))
              r)
      by_step (panicked n) made e = cc

  module _ (copy_buffer : Machine → ℕ → ℕ → ℕ → Option (List ℕ)) where
    unchanged :
        (c code : ℤ) (m m' : Machine)
        → Reachable m.kernel
        → ◌≡◌ {A = Option (ℤ × Machine)} (some (c, m)) (some (code, m'))
        → Reachable m'.kernel
    unchanged c code m m' r e = subst (λ (o : ℤ × Machine). Reachable o.1.kernel) (some_inj e) r

    kill-Reachable :
        (id proctyp : ℕ) (m m' : Machine) (code : ℤ)
        → Reachable m.kernel
        → kill kernel_of with_kernel copy_buffer attempt id proctyp m ≡ some (code, m')
        → Reachable m'.kernel
    unfolding kill
    kill-Reachable id proctyp m m' code r e = elim (Option-cases (proctype_of proctyp)) [
      | inl unknown ↦ unchanged (minus 4) code m m' r (rw (unknown, kill) at e)
      | inr (typ, known) ↦ by_result typ (remove m.kernel typ id) refl (rw (known, kill) at e)
    ]
      where
        by_result :
            (typ : ProcType) (result : Result Kernel)
            → remove m.kernel typ id ≡ result
            → ◌≡◌ {A = Option (ℤ × Machine)}
                (elim result [
                  | ok k ↦ some (pos 0, with_kernel m k)
                  | err error ↦ some (minus 5, m)
                  | panics ↦ none
                ])
                (some (code, m'))
            → Reachable m'.kernel
        by_result typ (ok k) result e =
            unchanged (pos 0) code (with_kernel m k) m' (after r (ended typ id result)) e
        by_result typ (err error) result e = unchanged (minus 5) code m m' r e
        by_result typ panics result e = cc

    spawn-Reachable :
        (kernel_buf : List ℕ) (priority : ℕ) (m m' : Machine) (code : ℤ)
        → Reachable m.kernel
        → spawn kernel_of with_kernel copy_buffer attempt kernel_buf priority m ≡ some (code, m')
        → Reachable m'.kernel
    unfolding spawn
    spawn-Reachable kernel_buf priority m m' code r e =
        let ((fine, n), made, e1) = >>=-some (attempt kernel_buf (priority % 256) m) _ e in
        unchanged (if fine then pos 0 else minus 6) code n m'
          (attempt-Reachable kernel_buf (priority % 256) m n fine r made) e1

    -- Whatever its arguments, a process call that returns leaves tables and queues that are reached
    -- from boot, where they were before.
    process-Reachable :
        (user_table request id_or_priority buf len proctyp : ℕ) (m m' : Machine) (code : ℤ)
        → Reachable m.kernel
        → process kernel_of with_kernel copy_buffer attempt user_table request id_or_priority buf
            len proctyp m
          ≡ some (code, m')
        → Reachable m'.kernel
    unfolding process kill spawn
    process-Reachable user_table request id_or_priority buf len proctyp m m' code r e =
        elim (Option-cases (copy_buffer m user_table buf len)) [
          | inl unmapped ↦ unchanged (minus 2) code m m' r (rw (unmapped, process) at e)
          | inr (kernel_buf, copied) ↦ by_request request kernel_buf (rw (copied, process) at e)
        ]
      where
        by_request :
            (request : ℕ) (kernel_buf : List ℕ)
            → ◌≡◌ {A = Option (ℤ × Machine)}
                (elim (request_of request) [
                  | none ↦ some (minus 3, m)
                  | some kill_tasks ↦
                      kill kernel_of with_kernel copy_buffer attempt id_or_priority proctyp m
                  | some create_tasks ↦
                      spawn kernel_of with_kernel copy_buffer attempt kernel_buf id_or_priority m
                ])
                (some (code, m'))
            → Reachable m'.kernel
        by_request zero kernel_buf e = kill-Reachable id_or_priority proctyp m m' code r e
        by_request (suc zero) kernel_buf e = spawn-Reachable kernel_buf id_or_priority m m' code r e
        by_request (suc (suc n)) kernel_buf e = unchanged (minus 3) code m m' r e

    -- What a process call that returns has done, by its arguments and its code.
    pub data Answers (user_table request id_or_priority buf len proctyp : ℕ) (m : Machine)
        : ℤ × Machine → Type 0 where
      not_copied :
          copy_buffer m user_table buf len ≡ none
          → Answers user_table request id_or_priority buf len proctyp m (minus 2, m)
      no_request :
          (kernel_buf : List ℕ)
          → copy_buffer m user_table buf len ≡ some kernel_buf
          → 2 ≤ request
          → Answers user_table request id_or_priority buf len proctyp m (minus 3, m)
      kill_answered :
          (kernel_buf : List ℕ) (r : ℤ × Machine)
          → copy_buffer m user_table buf len ≡ some kernel_buf
          → request ≡ 0
          → Kills kernel_of with_kernel copy_buffer attempt m id_or_priority proctyp r
          → Answers user_table request id_or_priority buf len proctyp m r
      not_created :
          (kernel_buf : List ℕ) (error : Error) (m' : Machine)
          → copy_buffer m user_table buf len ≡ some kernel_buf
          → request ≡ 1
          → create x sel parse map_to kernel_buf (id_or_priority % 256) m ≡ fails error m'
          → m'.kernel ≡ m.kernel
          → Answers user_table request id_or_priority buf len proctyp m (minus 6, m')
      created :
          (kernel_buf : List ℕ) (program : Program) (pml4 id : ℕ) (m' : Machine)
          → copy_buffer m user_table buf len ≡ some kernel_buf
          → request ≡ 1
          → create x sel parse map_to kernel_buf (id_or_priority % 256) m ≡ done pml4 m'
          → parse kernel_buf ≡ some program
          → program.valid ≡ true
          → Creates m.kernel (kind_of x sel parse map_to program) id m'.kernel
          → IsEntry x sel parse map_to m.kernel
              (kind_of x sel parse map_to program)
              id
              pml4
              (id_or_priority % 256)
              m'.kernel
          → Answers user_table request id_or_priority buf len proctyp m (pos 0, m')

    spawn-Answers :
        (user_table priority buf len proctyp : ℕ) (kernel_buf : List ℕ) (m : Machine)
        (r : ℤ × Machine)
        → IsConsistent m.kernel
        → copy_buffer m user_table buf len ≡ some kernel_buf
        → spawn kernel_of with_kernel copy_buffer attempt kernel_buf priority m ≡ some r
        → Answers user_table 1 priority buf len proctyp m r
    unfolding spawn Created
    spawn-Answers user_table priority buf len proctyp kernel_buf m r v copied e =
        by_step (create x sel parse map_to kernel_buf (priority % 256) m) refl e
      where
        by_step :
            (s : Step ℕ)
            → create x sel parse map_to kernel_buf (priority % 256) m ≡ s
            → (attempted s >>= λ (fine, n). some (if fine then pos 0 else minus 6, n)) ≡ some r
            → Answers user_table 1 priority buf len proctyp m r
        by_step (done pml4 n) made e =
            elim (create-Created x sel parse map_to m.kernel kernel_buf (priority % 256) m v refl) [
              | inl (program, parsed, good, h) ↦
                  let kind = kind_of x sel parse map_to program in
                  let (id, creates, entry) =
                    subst (Created x sel parse map_to m.kernel kind (priority % 256)) made h in
                  subst (Answers user_table 1 priority buf len proctyp m) (some_inj e) (
                    created kernel_buf program pml4 id n copied refl made parsed good creates entry)
              | inr malformed ↦ absurd (not_done (sym malformed ∙ made))
            ]
        by_step (fails error n) made e =
            subst (Answers user_table 1 priority buf len proctyp m) (some_inj e) (
              not_created kernel_buf error n copied refl made
                (failed-kernel kernel_buf (priority % 256) error m n v made))
        by_step (panicked n) made e = cc

    -- On consistent tables, a process call that returns gives -2, with nothing changed, for a buffer
    -- that cannot be copied, and then -3, with nothing changed, for a request that is not known. For
    -- request 0 it has killed, or refused to, as a kill request does for the id and type of its
    -- arguments. For request 1 it gives -6, with no process changed, when `create` fails on the
    -- buffer, or 0 when `create` succeeds: the buffer is then a valid program, and one process of
    -- the program's kind has been entered, with the page table that `create` made and, for a
    -- normal one, the priority modulo 256.
    pub process-Answers :
        (user_table request id_or_priority buf len proctyp : ℕ) (m : Machine) (r : ℤ × Machine)
        → IsConsistent m.kernel
        → process kernel_of with_kernel copy_buffer attempt user_table request id_or_priority buf
            len proctyp m
          ≡ some r
        → Answers user_table request id_or_priority buf len proctyp m r
    unfolding process
    process-Answers user_table request id_or_priority buf len proctyp m r v e =
        elim (Option-cases (copy_buffer m user_table buf len)) [
          | inl unmapped ↦
              subst (Answers user_table request id_or_priority buf len proctyp m)
                (some_inj (rw (unmapped, process) at e)) (not_copied unmapped)
          | inr (kernel_buf, copied) ↦ by_request request kernel_buf copied e
        ]
      where
        by_request :
            (request : ℕ) (kernel_buf : List ℕ)
            → copy_buffer m user_table buf len ≡ some kernel_buf
            → process kernel_of with_kernel copy_buffer attempt user_table request id_or_priority
                buf len proctyp m
              ≡ some r
            → Answers user_table request id_or_priority buf len proctyp m r
        by_request zero kernel_buf copied e =
            let (q, same, kills) =
              process-Kills kernel_of with_kernel copy_buffer attempt user_table id_or_priority buf
                len proctyp kernel_buf m v copied in
            subst (Answers user_table 0 id_or_priority buf len proctyp m) (some_inj (sym same ∙ e))
              (kill_answered kernel_buf q copied refl kills)
        by_request (suc zero) kernel_buf copied e =
            spawn-Answers user_table id_or_priority buf len proctyp kernel_buf m r v copied
              (rw (copied, process) at e)
        by_request (suc (suc n)) kernel_buf copied e =
            subst (Answers user_table (suc (suc n)) id_or_priority buf len proctyp m)
              (some_inj (rw (copied, process) at e)) (no_request kernel_buf copied (omega arith))
