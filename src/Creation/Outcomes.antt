-- ===== src/Creation/Outcomes.antt =====
-- How `create` of arch/src/x86_64/process/mod.rs ends, and what it then has done to the processes.
use proka_kernel.Base.{
  Bool, Bool-cases, List, Option, Option-cases, [], get_elem?, inl, inr, leb, length, some, subst,
  suc, sym, true, zero, ℕ, ◌*◌, ◌+◌, ◌/◌, ◌∷◌, ◌≡◌, ◌⊎◌,
}
use proka_kernel.Paging.{Flags, Tables}
use proka_kernel.Paging.Process.{start_table}
use proka_kernel.ArchFrames.{PhysFrames, allocate_contiguous}
use proka_kernel.FrameAlloc.{FrameAlloc}
use proka_kernel.Process.{
  Kernel, ProcType, Selectors, create_driver, create_driver_process, create_normal,
  create_normal_process, driver, invalid_format, normal,
}
use proka_kernel.Process.Loading.{Request, load_requests}
use proka_kernel.Process.Tables.{
  Creates, IsConsistent, create_driver-Creates, create_normal-Creates,
}
use proka_kernel.Creation.{
  Machine, Program, Section, Step, copy_section, create, done, enter, fails, kind_of, launch,
  load_sections, map_page, map_requests, map_stack, panicked, request_flags, stack_page_flags,
  stack_pages, take_frames, ◌then◌,
}

-- A part that changes no process, however it ends.
unfoldable pub Keeps : {A : Type 0} → Kernel → Step A → Type 0
Keeps k (done a m) = m.kernel ≡ k
Keeps k (fails e m) = m.kernel ≡ k
Keeps k (panicked m) = m.kernel ≡ k

Keeps-then :
    {A B : Type 0} (k : Kernel) (s : Step A) (f : A → Machine → Step B)
    → Keeps k s
    → ((a : A) (m : Machine) → m.kernel ≡ k → Keeps k (f a m))
    → Keeps k (s then f)
unfolding Keeps
Keeps-then k (done a m) f h g = g a m h
Keeps-then k (fails e m) f h g = h
Keeps-then k (panicked m) f h g = h

module _ (x : PhysFrames) (sel : Selectors) (parse : List ℕ → Option Program)
    (map_to : Tables → ℕ → ℕ → ℕ → Flags → FrameAlloc → Bool × Tables × FrameAlloc)
    (k : Kernel) where
  pub take_frames-Keeps :
      (n : ℕ) (m : Machine) → m.kernel ≡ k → Keeps k (take_frames x sel parse map_to n m)
  unfolding Keeps take_frames
  take_frames-Keeps n m h = elim (Option-cases (allocate_contiguous x m.frames n)) [
    | inl full ↦ rw (full, Keeps) h
    | inr (taken, found) ↦ rw (found, Keeps) h
  ]

  copy_section-Keeps :
      (bytes : List ℕ) (section : Section) (addr : ℕ) (m : Machine)
      → m.kernel ≡ k
      → Keeps k (copy_section x sel parse map_to bytes section addr m)
  unfolding Keeps copy_section
  copy_section-Keeps bytes section addr m h =
      elim (Bool-cases (leb (section.base + section.size) (length bytes))) [
        | inl fits ↦ rw fits h
        | inr short ↦ rw short h
      ]

  pub load_sections-Keeps :
      (bytes : List ℕ) (sections : List Section) (m : Machine)
      → m.kernel ≡ k
      → Keeps k (load_sections x sel parse map_to bytes sections m)
  unfolding Keeps load_sections copy_section
  load_sections-Keeps bytes [] m h = h
  load_sections-Keeps bytes (section ∷ sections) m h = elim (Bool-cases section.loadable) [
    | inr passed ↦ rw passed (load_sections-Keeps bytes sections m h)
    | inl loaded ↦ rw loaded (
        Keeps-then k _ _ (take_frames-Keeps ((section.size + 0xfff) / 0x1000) m h) (λ addr m1 h1.
          Keeps-then k _ _ (copy_section-Keeps bytes section addr m1 h1) (λ _ m2 h2.
            Keeps-then k _ _ (load_sections-Keeps bytes sections m2 h2) (λ infos m3 h3. h3))))
  ]

  map_page-Keeps :
      (pml4 virt_addr phys_addr : ℕ) (flags : Flags) (m : Machine)
      → m.kernel ≡ k
      → Keeps k (map_page x sel parse map_to pml4 virt_addr phys_addr flags m)
  unfolding Keeps map_page
  map_page-Keeps pml4 virt_addr phys_addr flags m h =
      elim (Bool-cases (map_to m.tables pml4 virt_addr phys_addr flags m.frames).0) [
        | inl fine ↦ rw fine h
        | inr failed ↦ rw failed h
      ]

  pub map_stack-Keeps :
      (proctype : ProcType) (pml4 stack_base first n : ℕ) (m : Machine)
      → m.kernel ≡ k
      → Keeps k (map_stack x sel parse map_to proctype pml4 stack_base first n m)
  unfolding Keeps map_stack
  map_stack-Keeps proctype pml4 stack_base first zero m h = h
  map_stack-Keeps proctype pml4 stack_base first (suc n) m h =
      Keeps-then k _ _
        (map_page-Keeps pml4 (first * 0x1000 + 0x7fffffffe000) (first * 0x1000 + stack_base)
          (stack_page_flags x sel parse map_to proctype) m h)
        (λ _ m1 h1. map_stack-Keeps proctype pml4 stack_base (first + 1) n m1 h1)

  pub map_requests-Keeps :
      (pml4 : ℕ) (requests : List Request) (m : Machine)
      → m.kernel ≡ k
      → Keeps k (map_requests x sel parse map_to pml4 requests m)
  unfolding Keeps map_requests
  map_requests-Keeps pml4 [] m h = h
  map_requests-Keeps pml4 (r ∷ rs) m h =
      Keeps-then k _ _
        (map_page-Keeps pml4 r.virt_addr r.phys_addr (request_flags x sel parse map_to r) m h)
        (λ _ m1 h1. map_requests-Keeps pml4 rs m1 h1)

  -- The new entry of the process table, for a page table and a priority.
  abbrev pub IsEntry : ProcType → ℕ → ℕ → ℕ → Kernel → Type 0
  IsEntry normal id pml4 priority j =
      get_elem? j.normals id ≡ some (create_normal_process sel pml4 priority 0x100000)
  IsEntry driver id pml4 priority j =
      get_elem? j.drivers id ≡ some (create_driver_process sel pml4 0x100000)

  -- No process changes unless the result is `Ok`; then there is one more, of the program's kind.
  unfoldable pub Created : ProcType → ℕ → Step ℕ → Type 0
  Created t priority (done pml4 m) =
      (id : ℕ) × Creates k t id m.kernel × IsEntry t id pml4 priority m.kernel
  Created t priority (fails e m) = m.kernel ≡ k
  Created t priority (panicked m) = m.kernel ≡ k

  Created-then :
      {A : Type 0} (t : ProcType) (priority : ℕ) (s : Step A) (f : A → Machine → Step ℕ)
      → Keeps k s
      → ((a : A) (m : Machine) → m.kernel ≡ k → Created t priority (f a m))
      → Created t priority (s then f)
  unfolding Keeps Created
  Created-then t priority (done a m) f h g = g a m h
  Created-then t priority (fails e m) f h g = h
  Created-then t priority (panicked m) f h g = h

  enter-Created :
      (t : ProcType) (pml4 priority : ℕ) (m : Machine)
      → IsConsistent k
      → m.kernel ≡ k
      → Created t priority (enter x sel parse map_to t pml4 priority m then (λ _ m1. done pml4 m1))
  unfolding Created enter
  enter-Created normal pml4 priority m v h =
      elim (Option-cases (create_normal sel m.kernel pml4 priority)) [
        | inl full ↦ rw (full, Created) h
        | inr (j, made) ↦
            rw (made, Created) (create_normal-Creates sel k j pml4 priority v (rw h at made))
      ]
  enter-Created driver pml4 priority m v h = elim (Option-cases (create_driver sel m.kernel pml4)) [
    | inl full ↦ rw (full, Created) h
    | inr (j, made) ↦ rw (made, Created) (create_driver-Creates sel k j pml4 v (rw h at made))
  ]

  launch-Created :
      (bytes : List ℕ) (program : Program) (priority : ℕ) (m : Machine)
      → IsConsistent k
      → m.kernel ≡ k
      → Created
          (kind_of x sel parse map_to program)
          priority
          (launch x sel parse map_to bytes program priority m)
  unfolding launch
  launch-Created bytes program priority m v h =
      let t = kind_of x sel parse map_to program in
      Created-then t priority _ _ (load_sections-Keeps bytes program.sections m h) (λ infos m1 h1.
        Created-then t priority _ _ (take_frames-Keeps 1 m1 h1) (λ pml4 m2 h2.
          Created-then t priority _ _
            (take_frames-Keeps stack_pages (record m2 { tables = start_table t pml4 m2.tables }) h2)
            (λ stack_base m3 h3.
              Created-then t priority _ _ (map_stack-Keeps t pml4 stack_base 0 stack_pages m3 h3)
                (λ _ m4 h4.
                  Created-then t priority _ _
                    (map_requests-Keeps pml4 (load_requests t 0 infos) m4 h4)
                    (λ _ m5 h5. enter-Created t pml4 priority m5 v h5)))))

  pub create-launch :
      (bytes : List ℕ) (program : Program) (priority : ℕ) (m : Machine)
      → parse bytes ≡ some program
      → program.valid ≡ true
      → create x sel parse map_to bytes priority m
        ≡ launch x sel parse map_to bytes program priority m
  unfolding create
  create-launch bytes program priority m parsed good = rw (parsed, create) (rw good)

  -- On consistent tables, `create` changes no process and no queue when it fails or panics. When
  -- it succeeds, the program was parsed and valid, and exactly one process of its kind has been
  -- created as `create_normal` and `create_driver` do, with the new page table.
  pub create-Created :
      (bytes : List ℕ) (priority : ℕ) (m : Machine)
      → IsConsistent k
      → m.kernel ≡ k
      → ((program : Program) × (parse bytes ≡ some program)
          × (program.valid ≡ true)
          × Created
              (kind_of x sel parse map_to program)
              priority
              (create x sel parse map_to bytes priority m))
        ⊎ (create x sel parse map_to bytes priority m ≡ fails invalid_format m)
  unfolding create
  create-Created bytes priority m v h = elim (Option-cases (parse bytes)) [
    | inl malformed ↦ inr (rw (malformed, create))
    | inr (program, parsed) ↦ elim (Bool-cases program.valid) [
      | inl good ↦ inl (
        program,
        parsed,
        good,
        subst (Created (kind_of x sel parse map_to program) priority)
            (sym (create-launch bytes program priority m parsed good))
            (launch-Created bytes program priority m v h),
      )
      | inr bad ↦ inr (rw (parsed, create) (rw bad))
    ]
  ]
