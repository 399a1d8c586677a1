-- ===== src/Process/Undo.antt =====
-- Creation against removal, and the full table (arch/src/x86_64/process).
use proka_kernel.Base.{
  Bool, List, Option-cases, [], ap, arith, false, if◌then◌else◌, inl, inr, none, refl, subst, true,
  ℕ, ℕ_discrete, ◌&&◌, ◌++◌, ◌<◌, ◌==◌, ◌↔◌, ◌∙◌, ◌∷◌, ◌≡◌,
}
use proka_kernel.Process.{
  Kernel, ProcType, Result, Selectors, create_normal, driver, first_free, max_ps, normal, ok,
  remove, retain_ne, used_normal,
}
use proka_kernel.Process.Slots.{count, first_free-none, first_free-some}
use proka_kernel.Process.Tables.{Creates, IsConsistent, in_use, queue_of, same_type}
use proka_kernel.Process.Removal.{Outcome, Removes, missing, remove-Outcome, removed, too_large}

retain_ne-append : (id : ℕ) (q : List ℕ) → count id q ≡ 0 → retain_ne id (q ++ id ∷ []) ≡ q
unfolding count retain_ne
retain_ne-append id [] h = ground arith
retain_ne-append id (i ∷ q) h =
    let apart : (i == id) ≡ false = ground arith in
    rw (apart, retain_ne-append id q (ground arith)) refl

-- The ids of a type that are in use are the queue's.
queue-absent :
    (k : Kernel) (t : ProcType) (id : ℕ)
    → IsConsistent k
    → in_use k t id ≡ false
    → count id (queue_of k t) ≡ 0
unfolding in_use
queue-absent k normal id v h = ground (arith, v.normal_table.queued id)
queue-absent k driver id v h = ground (arith, v.driver_table.queued id)

present-removed :
    (k : Kernel) (t : ProcType) (id : ℕ) {r : Result Kernel}
    → Outcome k t id r
    → id < max_ps
    → in_use k t id ≡ true
    → (l : Kernel) × (r ≡ ok l) × Removes k t id l
present-removed k t id (too_large h) lo n = absurd (omega arith)
present-removed k t id (missing h m) lo n = cc
present-removed k t id (removed l h) lo n = (l, refl, h)

undone :
    (t u : ProcType) (id i : ℕ) (before now later : Bool)
    → (id ≡ i → t ≡ u → before ≡ false)
    → now ≡ (if same_type t u && (id == i) then true else before)
    → later ≡ (if same_type t u && (id == i) then false else now)
    → later ≡ before
unfolding same_type
undone normal driver id i before now later free e f = ground (arith, e, f)
undone driver normal id i before now later free e f = ground (arith, e, f)
undone normal normal id i before now later free e f = elim (ℕ_discrete id i) [
  | yes same ↦ ground (arith, e, f, free same refl)
  | no _ ↦ ground (arith, e, f)
]
undone driver driver id i before now later free e f = elim (ℕ_discrete id i) [
  | yes same ↦ ground (arith, e, f, free same refl)
  | no _ ↦ ground (arith, e, f)
]

created :
    (t : ProcType) (id : ℕ) (x b : Bool)
    → x ≡ (if same_type t t && (id == id) then true else b)
    → x ≡ true
unfolding same_type
created normal id x b e = ground (arith, e)
created driver id x b e = ground (arith, e)

-- Removing the process that was just created succeeds, and leaves the same processes in use and the
-- same queue as before its creation.
remove-create :
    (k j : Kernel) (t : ProcType) (id : ℕ)
    → IsConsistent k
    → Creates k t id j
    → (l : Kernel) × (remove j t id ≡ ok l)
      × ((u : ProcType) (i : ℕ) → in_use l u i ≡ in_use k u i)
      × (queue_of l t ≡ queue_of k t)
remove-create k j t id v c =
    let new : in_use j t id ≡ true = created t id _ _ (c.users t id) in
    let (l, e, r) = present-removed j t id (remove-Outcome j t id c.consistent) c.id_fits new in
    (
      l,
      e,
      λ u i.
          undone t u id i _ _ _
            (λ same ty.
              subst (λ (x : ProcType). in_use k x i ≡ false) ty
                (subst (λ x. in_use k t x ≡ false) same c.was_free))
            (c.users u i) (r.users u i),
      r.queue
          ∙ ap (retain_ne id) c.queue
          ∙ retain_ne-append id (queue_of k t) (queue-absent k t id v c.was_free),
    )

-- `create` panics exactly when every slot of the table is in use.
create_normal-none_iff :
    (sel : Selectors) (k : Kernel) (frame priority : ℕ)
    → IsConsistent k
    → (create_normal sel k frame priority ≡ none)
      ↔ ((id : ℕ) → id < max_ps → in_use k normal id ≡ true)
unfolding create_normal in_use
create_normal-none_iff sel k frame priority v = (
  λ h id lo. elim (Option-cases (first_free used_normal k.normals)) [
    | inl e ↦ first_free-none used_normal k.normals id e (omega (arith, v.normal_table.sized))
    | inr (i, e) ↦ cc (rw (e, create_normal) at h)
  ],
  λ full. elim (Option-cases (first_free used_normal k.normals)) [
    | inl e ↦ rw (e, create_normal) refl
    | inr (i, e) ↦
        let (inside, free, _) = first_free-some used_normal k.normals i e in
        let used = full i (omega (arith, v.normal_table.sized)) in cc (used, free)
  ],
)
