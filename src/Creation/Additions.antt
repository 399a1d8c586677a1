-- ===== src/Creation/Additions.antt =====
-- Which call of the process tables a success of `create` stands for:
-- arch/src/x86_64/process/mod.rs.
use proka_kernel.Base.{
  Bool, Bool-cases, List, Option, Option-cases, inl, inr, refl, some, subst, sym, ℕ, ◌∙◌, ◌≡◌,
}
use proka_kernel.Creation.{
  Machine, Program, Step, create, done, enter, fails, kind_of, launch, panicked, stack_pages,
  ◌then◌,
}
use proka_kernel.Creation.Outcomes.{
  Keeps, create-launch, load_sections-Keeps, map_requests-Keeps, map_stack-Keeps, take_frames-Keeps,
}
use proka_kernel.Paging.{Flags, Tables}
use proka_kernel.Paging.Process.{start_table}
use proka_kernel.ArchFrames.{PhysFrames}
use proka_kernel.FrameAlloc.{FrameAlloc}
use proka_kernel.Process.{Kernel, ProcType, Selectors, create_driver, create_normal, driver, normal}
use proka_kernel.Process.Loading.{load_requests}

-- A sequence that ends well has a first part that does.
then-done :
    {A B : Type 0} (s : Step A) (f : A → Machine → Step B) (b : B) (m : Machine)
    → (s then f) ≡ done b m
    → (a : A) × (m1 : Machine) × (s ≡ done a m1) × (f a m1 ≡ done b m)
then-done (done a m1) f b m e = (a, m1, refl, e)
then-done (fails error m1) f b m e = cc
then-done (panicked m1) f b m e = cc

-- A part that changes no process and ends well.
done-kernel :
    {A : Type 0} (k : Kernel) (s : Step A) (a : A) (m : Machine)
    → Keeps k s
    → s ≡ done a m
    → m.kernel ≡ k
unfolding Keeps
done-kernel k s a m h e = subst (Keeps k) e h

-- The machine that a part leaves, read off its result.
done-machine :
    {A : Type 0} (a b : A) (m n : Machine) → ◌≡◌ {A = Step A} (done a m) (done b n) → m ≡ n
done-machine a b m n e = cc

done-value : {A : Type 0} (a b : A) (m n : Machine) → ◌≡◌ {A = Step A} (done a m) (done b n) → a ≡ b
done-value a b m n e = cc

module _ (x : PhysFrames) (sel : Selectors) (parse : List ℕ → Option Program)
    (map_to : Tables → ℕ → ℕ → ℕ → Flags → FrameAlloc → Bool × Tables × FrameAlloc)
    (k : Kernel) where
  -- The kernel after the entry of one process of a kind.
  abbrev pub Added : ProcType → ℕ → ℕ → Kernel → Type 0
  Added normal pml4 priority j = create_normal sel k pml4 priority ≡ some j
  Added driver pml4 priority j = create_driver sel k pml4 ≡ some j

  enter-Added :
      (t : ProcType) (pml4 priority : ℕ) (m m' : Machine) (u : Unit {0})
      → m.kernel ≡ k
      → enter x sel parse map_to t pml4 priority m ≡ done u m'
      → Added t pml4 priority m'.kernel
  unfolding enter
  enter-Added normal pml4 priority m m' u h e =
      elim (Option-cases (create_normal sel m.kernel pml4 priority)) [
        | inl full ↦ cc (rw (full, enter) at e)
        | inr (j, made) ↦
            subst (λ (n : Machine). create_normal sel k pml4 priority ≡ some n.kernel)
              (done-machine _ _ _ _ (rw (made, enter) at e)) (rw h at made)
      ]
  enter-Added driver pml4 priority m m' u h e =
      elim (Option-cases (create_driver sel m.kernel pml4)) [
        | inl full ↦ cc (rw (full, enter) at e)
        | inr (j, made) ↦
            subst (λ (n : Machine). create_driver sel k pml4 ≡ some n.kernel)
              (done-machine _ _ _ _ (rw (made, enter) at e)) (rw h at made)
      ]

  launch-Added :
      (bytes : List ℕ) (program : Program) (priority pml4 : ℕ) (m m' : Machine)
      → m.kernel ≡ k
      → launch x sel parse map_to bytes program priority m ≡ done pml4 m'
      → Added (kind_of x sel parse map_to program) pml4 priority m'.kernel
  unfolding launch
  launch-Added bytes program priority pml4 m m' h e =
      let t = kind_of x sel parse map_to program in
      let (infos, m1, e1, f1) = then-done _ _ pml4 m' e in
      let h1 =
        done-kernel k _ infos m1
          (load_sections-Keeps x sel parse map_to k bytes program.sections m h) e1 in
      let (table, m2, e2, f2) = then-done _ _ pml4 m' f1 in
      let h2 = done-kernel k _ table m2 (take_frames-Keeps x sel parse map_to k 1 m1 h1) e2 in
      let (stack_base, m3, e3, f3) = then-done _ _ pml4 m' f2 in
      let h3 =
        done-kernel k _ stack_base m3
          (take_frames-Keeps x sel parse map_to k stack_pages
            (record m2 { tables = start_table t table m2.tables }) h2)
          e3 in
      let (u4, m4, e4, f4) = then-done _ _ pml4 m' f3 in
      let h4 =
        done-kernel k _ u4 m4
          (map_stack-Keeps x sel parse map_to k t table stack_base 0 stack_pages m3 h3) e4 in
      let (u5, m5, e5, f5) = then-done _ _ pml4 m' f4 in
      let h5 =
        done-kernel k _ u5 m5
          (map_requests-Keeps x sel parse map_to k table (load_requests t 0 infos) m4 h4) e5 in
      let (u6, m6, e6, f6) = then-done _ _ pml4 m' f5 in
      let same : ◌≡◌ {A = ℕ × Machine} (table, m6) (pml4, m') =
        cc (done-value table pml4 m6 m' f6, done-machine table pml4 m6 m' f6) in
      subst (λ (r : ℕ × Machine). Added t r.0 priority r.1.kernel) same
        (enter-Added t table priority m5 m6 u6 h5 e6)

  -- A success of `create` stands for one call of `create_normal` or `create_driver`, by the kind of
  -- the parsed program, with the page table that it returns.
  pub create-Added :
      (bytes : List ℕ) (priority pml4 : ℕ) (m m' : Machine)
      → m.kernel ≡ k
      → create x sel parse map_to bytes priority m ≡ done pml4 m'
      → (program : Program) × (parse bytes ≡ some program)
        × Added (kind_of x sel parse map_to program) pml4 priority m'.kernel
  unfolding create
  create-Added bytes priority pml4 m m' h e = elim (Option-cases (parse bytes)) [
    | inl malformed ↦ cc (rw (malformed, create) at e)
    | inr (program, parsed) ↦ elim (Bool-cases program.valid) [
      | inr bad ↦ cc (rw bad at (rw (parsed, create) at e))
      | inl good ↦ (
        program,
        parsed,
        launch-Added bytes program priority pml4 m m' h
            (sym (create-launch x sel parse map_to k bytes program priority m parsed good) ∙ e),
      )
    ]
  ]
