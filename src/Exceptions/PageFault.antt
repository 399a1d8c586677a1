-- ===== src/Exceptions/PageFault.antt =====
-- The page fault handler: `pagefault` of arch/src/x86_64/handler/exception.rs, with the locks of the
-- process tables.
use proka_kernel.Base.{
  Bool, Bool-cases, Option, Option-cases, arith, false, if◌then◌else◌, inl, inr, is_some, leb, ltb,
  none, refl, some, true, ℕ, ◌&&◌, ◌*◌, ◌/◌, ◌<◌, ◌==◌, ◌||◌, ◌≡◌, ◌⊎◌,
}
use proka_kernel.Paging.{Flags, table_flags}
use proka_kernel.Process.{
  DriverProcess, Kernel, NormalProcess, ProcType, driver, err, max_ps, normal, ok, panics,
}
use proka_kernel.Process.Tables.{IsConsistent}
use proka_kernel.Exceptions.Locks.{
  Guards, find_enumerated, find_enumerated-below, finishes, is_read, remove_under, waits_forever,
}

-- How the handler ends.
pub data Fault (S A : Type 0) : Type 0 where
  panicked : Fault S A
  -- The wait for the write lock, with the page tables and the frames as they are then.
  stuck : Kernel → S → A → Fault S A
  halted : Kernel → S → A → Fault S A

module _ {S A F : Type 0} (allocate_frame : A → Option (F × A))
    (map_to : S → ℕ → ℕ → F → Flags → A → Bool × S × A) where
  -- `remove(..).unwrap()` and `hlt_loop`.
  unfoldable pub remove_and_halt : Guards → Kernel → ProcType → ℕ → S → A → Fault S A
  remove_and_halt guards k typ index tables frames = elim (remove_under guards k typ index) [
    | waits_forever ↦ stuck k tables frames
    | finishes result ↦ elim result [
      | ok after ↦ halted after tables frames
      | err e ↦ panicked
      | panics ↦ panicked
    ]
  ]

  abbrev pub stack_flags : Flags
  stack_flags = record table_flags { no_execute = true }

  -- The part that both branches share: a page for an address in the stack's range, then the removal.
  unfoldable pub fault_in : Guards → Kernel → ProcType → ℕ → ℕ → ℕ → ℕ → S → A → Fault S A
  fault_in guards k typ index stack_bottom pml4 fault_address tables frames =
      if leb stack_bottom fault_address && ltb fault_address 0x7ffffffff000
      then elim (allocate_frame frames) [
        | none ↦ remove_and_halt guards k typ index tables frames
        | some (frame, left) ↦
            let (fine, tables', frames') =
              map_to tables pml4 (fault_address / 0x1000 * 0x1000) frame stack_flags left in
            if fine then remove_and_halt guards k typ index tables' frames' else panicked
      ]
      else remove_and_halt guards k typ index tables frames

  -- The branch for drivers, from the table that was loaded and the address in CR2.
  unfoldable pub driver_fault : Kernel → ℕ → ℕ → S → A → Fault S A
  driver_fault k pml4 fault_address tables frames =
      elim (find_enumerated (λ (p : DriverProcess). pml4 == p.table_addr) 0 k.drivers) [
        | none ↦ panicked
        | some (index, process) ↦
            fault_in (record { normal_read = false; driver_read = true }) k driver index
              process.stack_bottom pml4 fault_address tables frames
      ]

  -- The branch for normal processes.
  unfoldable pub normal_fault : Kernel → ℕ → ℕ → S → A → Fault S A
  normal_fault k pml4 fault_address tables frames =
      elim (find_enumerated
        (λ (p : NormalProcess). (pml4 == p.table_addr) || (pml4 == p.current_table)) 0 k.normals) [
          | none ↦ panicked
          | some (index, process) ↦
              fault_in (record { normal_read = true; driver_read = false }) k normal index
                process.stack_bottom pml4 fault_address tables frames
        ]

  unfoldable pub pagefault : Kernel → ℕ → ℕ → S → A → Fault S A
  unfolding driver_fault normal_fault
  pagefault k pml4 fault_address tables frames =
      if k.is_driver
      then driver_fault k pml4 fault_address tables frames
      else normal_fault k pml4 fault_address tables frames

  -- The mapper maps whatever it is asked for.
  abbrev pub AlwaysMaps : Type 0
  AlwaysMaps =
      (tables : S) (pml4 page : ℕ) (frame : F) (flags : Flags) (frames : A)
      → (map_to tables pml4 page frame flags frames).0 ≡ true

  -- Whether a process of the kind that `IS_DRIVER` names has the page table.
  abbrev pub is_known : Kernel → ℕ → Bool
  is_known k pml4 =
      if k.is_driver
      then is_some (find_enumerated (λ (p : DriverProcess). pml4 == p.table_addr) 0 k.drivers)
      else is_some (
          find_enumerated
            (λ (p : NormalProcess). (pml4 == p.table_addr) || (pml4 == p.current_table)) 0
            k.normals)

  -- The handler waits for ever, with the processes as they were.
  abbrev pub IsStuck : Kernel → Fault S A → Type 0
  IsStuck k fault = (tables : S) × (frames : A) × (fault ≡ stuck k tables frames)

  remove_and_halt-IsStuck :
      (guards : Guards) (k : Kernel) (typ : ProcType) (index : ℕ) (tables : S) (frames : A)
      → is_read guards typ ≡ true
      → index < max_ps
      → IsStuck k (remove_and_halt guards k typ index tables frames)
  unfolding remove_and_halt remove_under
  remove_and_halt-IsStuck guards k typ index tables frames read small =
      (tables, frames, ground (arith, read))

  fault_in-IsStuck :
      (guards : Guards) (k : Kernel) (typ : ProcType) (index stack_bottom pml4 fault_address : ℕ)
      (tables : S) (frames : A)
      → is_read guards typ ≡ true
      → index < max_ps
      → ((fault_in guards k typ index stack_bottom pml4 fault_address tables frames ≡ panicked)
          × ¬ AlwaysMaps)
        ⊎ IsStuck k (fault_in guards k typ index stack_bottom pml4 fault_address tables frames)
  unfolding fault_in
  fault_in-IsStuck guards k typ index stack_bottom pml4 fault_address tables frames read small =
      elim (Bool-cases (leb stack_bottom fault_address && ltb fault_address 0x7ffffffff000)) [
        | inr out ↦
            rw (out, fault_in)
              (inr (remove_and_halt-IsStuck guards k typ index tables frames read small))
        | inl inside ↦ elim (Option-cases (allocate_frame frames)) [
          | inl full ↦
              rw (inside, fault_in)
                (rw full
                  (inr (remove_and_halt-IsStuck guards k typ index tables frames read small)))
          | inr ((frame, left), taken) ↦
              rw (inside, fault_in)
                (rw taken (
                  let mapping =
                    map_to tables pml4 (fault_address / 0x1000 * 0x1000) frame stack_flags left in
                  elim (Bool-cases mapping.0) [
                    | inl fine ↦ rw fine (
                        inr (
                          remove_and_halt-IsStuck guards k typ index mapping.1 mapping.2 read
                            small))
                    | inr failed ↦ rw failed (
                        inl (
                          refl,
                          λ all. cc (
                            all tables pml4 (fault_address / 0x1000 * 0x1000) frame stack_flags
                                left,
                            failed,
                          ),
                        ))
                  ]))
        ]
      ]

  -- The wait, or a panic for its reason.
  abbrev pub Fails : Kernel → Bool → Fault S A → Type 0
  Fails k known fault = ((fault ≡ panicked) × ((known ≡ false) ⊎ ¬ AlwaysMaps)) ⊎ IsStuck k fault

  with_reason :
      (k : Kernel) (known : Bool) (fault : Fault S A)
      → ((fault ≡ panicked) × ¬ AlwaysMaps) ⊎ IsStuck k fault
      → Fails k known fault
  with_reason k known fault (inl (p, r)) = inl (p, inr r)
  with_reason k known fault (inr s) = inr s

  driver_fault-Fails :
      (k : Kernel) (pml4 fault_address : ℕ) (tables : S) (frames : A)
      → IsConsistent k
      → Fails k
          (is_some (find_enumerated (λ (p : DriverProcess). pml4 == p.table_addr) 0 k.drivers))
          (driver_fault k pml4 fault_address tables frames)
  unfolding driver_fault
  driver_fault-Fails k pml4 fault_address tables frames v =
      let test = λ (p : DriverProcess). pml4 == p.table_addr in
      elim (Option-cases (find_enumerated test 0 k.drivers)) [
        | inl unknown ↦ inl (ground (arith, unknown), inl (rw unknown (refl)))
        | inr ((index, p), found) ↦
            (let (below, _) = find_enumerated-below test 0 k.drivers index p found in
              rw (found, driver_fault)
                (with_reason k true _ (
                  fault_in-IsStuck (record { normal_read = false; driver_read = true }) k driver
                    index p.stack_bottom pml4 fault_address tables frames refl
                    (omega (arith, below, v.driver_table.sized)))))
      ]

  normal_fault-Fails :
      (k : Kernel) (pml4 fault_address : ℕ) (tables : S) (frames : A)
      → IsConsistent k
      → Fails k
          (is_some (
            find_enumerated
              (λ (p : NormalProcess). (pml4 == p.table_addr) || (pml4 == p.current_table))
              0
              k.normals))
          (normal_fault k pml4 fault_address tables frames)
  unfolding normal_fault
  normal_fault-Fails k pml4 fault_address tables frames v =
      let test = λ (p : NormalProcess). (pml4 == p.table_addr) || (pml4 == p.current_table) in
      elim (Option-cases (find_enumerated test 0 k.normals)) [
        | inl unknown ↦ inl (ground (arith, unknown), inl (rw unknown (refl)))
        | inr ((index, p), found) ↦
            (let (below, _) = find_enumerated-below test 0 k.normals index p found in
              rw (found, normal_fault)
                (with_reason k true _ (
                  fault_in-IsStuck (record { normal_read = true; driver_read = false }) k normal
                    index p.stack_bottom pml4 fault_address tables frames refl
                    (omega (arith, below, v.normal_table.sized)))))
      ]

  Fails-if :
      (k : Kernel) (b known known' : Bool) (left right : Fault S A)
      → Fails k known left
      → Fails k known' right
      → Fails k (if b then known else known') (if b then left else right)
  Fails-if k true known known' left right l r = l
  Fails-if k false known known' left right l r = r

  -- On consistent process tables the page fault handler never removes the process and never halts:
  -- it waits for ever for the lock of the process table that it reads, with the tables and queues
  -- as they were, or it panics. It panics only where no process of the kind that `IS_DRIVER` names
  -- has the loaded page table, or where the mapper may fail.
  pub pagefault-stuck :
      (k : Kernel) (pml4 fault_address : ℕ) (tables : S) (frames : A)
      → IsConsistent k
      → Fails k (is_known k pml4) (pagefault k pml4 fault_address tables frames)
  unfolding pagefault
  pagefault-stuck k pml4 fault_address tables frames v =
      Fails-if k k.is_driver _ _ (driver_fault k pml4 fault_address tables frames)
        (normal_fault k pml4 fault_address tables frames)
        (driver_fault-Fails k pml4 fault_address tables frames v)
        (normal_fault-Fails k pml4 fault_address tables frames v)
