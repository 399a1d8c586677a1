-- ===== src/Launch.antt =====
-- The programs of the initial partition as processes: `init` of src/initprt.rs over `create` of
-- arch/src/x86_64/process/mod.rs.
use mathlib.Core.List.{append-nil, append_assoc}
use proka_kernel.Base.{
  >>=-some, Bool, List, Option, Option-cases, [], ap, arith, inl, inr, length, length-append, none,
  refl, some, some_inj, subst, sym, ℕ, ◌++◌, ◌+◌, ◌∙◌, ◌∷◌, ◌≡◌,
}
use proka_kernel.Creation.{Machine, Program, Step, create, done, fails, panicked}
use proka_kernel.Creation.Additions.{create-Added}
use proka_kernel.InitPrt.Startup.{
  Crates, ExecMode, Names, Programs, Started, cons, core_drv, create_all, init, init-Started,
  is_mode, nil, user_app,
}
use proka_kernel.Paging.{Flags, Tables}
use proka_kernel.ArchFrames.{PhysFrames}
use proka_kernel.FrameAlloc.{FrameAlloc}
use proka_kernel.Process.{
  Kernel, Selectors, create_driver, create_normal, first_free, used_driver, used_normal,
}
use proka_kernel.Scheduler.Reachable.{Reachable, after, created_driver, created_normal}
mod Tests

module _ (x : PhysFrames) (sel : Selectors) (parse : List ℕ → Option Program)
    (map_to : Tables → ℕ → ℕ → ℕ → Flags → FrameAlloc → Bool × Tables × FrameAlloc) where
  -- `create(buf, priority).unwrap()`.
  abbrev pub unwrapped : Machine → List ℕ → ℕ → Option Machine
  unwrapped m bytes priority = elim (create x sel parse map_to bytes priority m) [
    | done pml4 m' ↦ some m'
    | fails error m' ↦ none
    | panicked m' ↦ none
  ]

  -- The mode that the header names is the mode by which the parser of programs tells drivers.
  abbrev pub SameModes : (List ℕ → Option ExecMode) → Type 0
  SameModes header_mode =
      (bytes : List ℕ) (mode : ExecMode) (program : Program)
      → header_mode bytes ≡ some mode
      → parse bytes ≡ some program
      → program.core_drv ≡ is_mode mode core_drv

  -- The processes after some have been added at the ends of the queues.
  pub record Launched (k k' : Kernel) (normals drivers : ℕ) : Type 0 where
    pub normal_ids : List ℕ
    pub driver_ids : List ℕ
    pub normals_counted : length normal_ids ≡ normals
    pub drivers_counted : length driver_ids ≡ drivers
    pub normals_queued : k'.normal_queue ≡ k.normal_queue ++ normal_ids
    pub drivers_queued : k'.driver_queue ≡ k.driver_queue ++ driver_ids
    pub reachable : Reachable k'

  create_normal-Launched :
      (k k' : Kernel) (frame priority : ℕ)
      → Reachable k
      → create_normal sel k frame priority ≡ some k'
      → Launched k k' 1 0
  unfolding create_normal
  create_normal-Launched k k' frame priority r e =
      elim (Option-cases (first_free used_normal k.normals)) [
        | inl full ↦ cc (rw (full, create_normal) at e)
        | inr (id, found) ↦
            let made = some_inj (rw (found, create_normal) at e) in
            record {
              normal_ids = id ∷ [];
              driver_ids = [];
              normals_counted = refl;
              drivers_counted = refl;
              normals_queued = sym (ap (λ (s : Kernel). s.normal_queue) made);
              drivers_queued =
                  ap (λ (s : Kernel). s.driver_queue) (sym made) ∙ sym (append-nil k.driver_queue);
              reachable = after r (created_normal sel frame priority e);
            }
      ]

  create_driver-Launched :
      (k k' : Kernel) (frame : ℕ)
      → Reachable k
      → create_driver sel k frame ≡ some k'
      → Launched k k' 0 1
  unfolding create_driver
  create_driver-Launched k k' frame r e = elim (Option-cases (first_free used_driver k.drivers)) [
    | inl full ↦ cc (rw (full, create_driver) at e)
    | inr (id, found) ↦
        let made = some_inj (rw (found, create_driver) at e) in
        record {
          normal_ids = [];
          driver_ids = id ∷ [];
          normals_counted = refl;
          drivers_counted = refl;
          normals_queued =
              ap (λ (s : Kernel). s.normal_queue) (sym made) ∙ sym (append-nil k.normal_queue);
          drivers_queued = sym (ap (λ (s : Kernel). s.driver_queue) made);
          reachable = after r (created_driver sel frame e);
        }
  ]

  Launched-refl : (k : Kernel) → Reachable k → Launched k k 0 0
  Launched-refl k r = record {
    normal_ids = [];
    driver_ids = [];
    normals_counted = refl;
    drivers_counted = refl;
    normals_queued = sym (append-nil k.normal_queue);
    drivers_queued = sym (append-nil k.driver_queue);
    reachable = r;
  }

  Launched-trans :
      {k between k' : Kernel} {a b c d n l : ℕ}
      → Launched k between a b
      → Launched between k' c d
      → a + c ≡ n
      → b + d ≡ l
      → Launched k k' n l
  Launched-trans {k} f g normals drivers = record {
    normal_ids = f.normal_ids ++ g.normal_ids;
    driver_ids = f.driver_ids ++ g.driver_ids;
    normals_counted =
        rw (length-append f.normal_ids g.normal_ids)
          (omega (arith, f.normals_counted, g.normals_counted, normals));
    drivers_counted =
        rw (length-append f.driver_ids g.driver_ids)
          (omega (arith, f.drivers_counted, g.drivers_counted, drivers));
    normals_queued =
        g.normals_queued
        ∙ ap (λ q. q ++ g.normal_ids) f.normals_queued
        ∙ append_assoc k.normal_queue f.normal_ids g.normal_ids;
    drivers_queued =
        g.drivers_queued
        ∙ ap (λ q. q ++ g.driver_ids) f.drivers_queued
        ∙ append_assoc k.driver_queue f.driver_ids g.driver_ids;
    reachable = g.reachable;
  }

  -- How many processes of each kind a program of a mode becomes.
  abbrev pub normals_of : ExecMode → ℕ
  normals_of user_app = 1
  normals_of core_drv = 0

  abbrev pub drivers_of : ExecMode → ℕ
  drivers_of user_app = 0
  drivers_of core_drv = 1

  unwrapped-done :
      (m m' : Machine) (bytes : List ℕ) (priority : ℕ)
      → unwrapped m bytes priority ≡ some m'
      → (pml4 : ℕ) × (create x sel parse map_to bytes priority m ≡ done pml4 m')
  unwrapped-done m m' bytes priority e = by_step (create x sel parse map_to bytes priority m) e
    where
      by_step :
          (s : Step ℕ)
          → (elim s [ done pml4 m' ↦ some m' | fails error m' ↦ none | panicked m' ↦ none ])
            ≡ some m'
          → (pml4 : ℕ) × (s ≡ done pml4 m')
      by_step (done pml4 n) e = (pml4, cc)
      by_step (fails error n) e = cc
      by_step (panicked n) e = cc

  unwrapped-Launched :
      (header_mode : List ℕ → Option ExecMode) (mode : ExecMode) (image : List ℕ) (m m' : Machine)
      → SameModes header_mode
      → header_mode image ≡ some mode
      → Reachable m.kernel
      → unwrapped m image 0 ≡ some m'
      → Launched m.kernel m'.kernel (normals_of mode) (drivers_of mode)
  unwrapped-Launched header_mode user_app image m m' same header r e =
      let (pml4, made) = unwrapped-done m m' image 0 e in
      let (program, parsed, added) =
        create-Added x sel parse map_to m.kernel image 0 pml4 m m' refl made in
      create_normal-Launched m.kernel m'.kernel pml4 0 r
        (rw (same image user_app program header parsed) at added)
  unwrapped-Launched header_mode core_drv image m m' same header r e =
      let (pml4, made) = unwrapped-done m m' image 0 e in
      let (program, parsed, added) =
        create-Added x sel parse map_to m.kernel image 0 pml4 m m' refl made in
      create_driver-Launched m.kernel m'.kernel pml4 r
        (rw (same image core_drv program header parsed) at added)

  module _ {Dir File Name : Type 0} (crates : Crates Dir File Name) (names : Names Name) where
    drivers-Launched :
        (dir : Dir) {files : List Name} {images : List (List ℕ)} (m m' : Machine)
        → SameModes crates.header_mode
        → Programs crates names unwrapped dir core_drv files images
        → Reachable m.kernel
        → create_all crates names unwrapped images m ≡ some m'
        → Launched m.kernel m'.kernel 0 (length files)
    unfolding create_all
    drivers-Launched dir m m' same nil r e =
        subst (λ (n : Machine). Launched m.kernel n.kernel 0 0) (some_inj e)
          (Launched-refl m.kernel r)
    drivers-Launched dir m m' same (cons {file} {image} {files} {images} program programs) r e =
        let (between, one, others) = >>=-some (unwrapped m image 0) _ e in
        let first =
          unwrapped-Launched crates.header_mode core_drv image m between same program.1 r one in
        Launched-trans first (drivers-Launched dir between m' same programs first.reachable others)
          refl (omega arith)

    -- When the startup over `create` returns, `init` waits at the end of the queue of the normal
    -- processes and a process for each listed driver at the end of the drivers' queue, and the
    -- tables and queues are in a state that is reached from boot, where they were in one before.
    -- The mode that is tested is the mode by which the program's kind is chosen.
    pub init-Launched :
        (memory : List ℕ) (m m' : Machine)
        → SameModes crates.header_mode
        → Reachable m.kernel
        → init crates names unwrapped memory m ≡ some m'
        → (started : Started crates names unwrapped memory m m') × Launched m.kernel m'.kernel 1
            (length started.listed)
    unfolding create_all
    init-Launched memory m m' same r e =
        let started = (init-Started crates names unwrapped memory m m').0 e in
        let (between, one, others) = >>=-some (unwrapped m started.image 0) _ started.created in
        let first =
          unwrapped-Launched crates.header_mode user_app started.image m between same
            started.init_program.1 r one in
        (
          started,
          Launched-trans first
              (drivers-Launched started.drivers between m' same started.driver_programs
                first.reachable others)
              refl (omega arith),
        )
