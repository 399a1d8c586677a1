-- ===== src/Scheduler/Resume.antt =====
-- Whether a process goes on where `switch_task` of arch/src/x86_64/scheduler.rs has interrupted it.
use proka_kernel.Base.{
  Bool, Bool-cases, List, Option, Option-cases, [], ap, false, get_elem?, get_elem?-length,
  get_elem?-set_self, inl, inr, refl, some, some_inj, subst, sym, true, ℕ, ◌++◌, ◌>>=◌, ◌∙◌, ◌∷◌,
  ◌≡◌,
}
use proka_kernel.Process.{Context, Kernel, NormalProcess, used_driver, used_normal}
use proka_kernel.Process.Slots.{IsTable}
use proka_kernel.Scheduler.{
  Exit, Interrupted, from_driver, load, saved_context, switch_task, to_normal,
}
use proka_kernel.Scheduler.Saving.{IsTable-save, front-exists}
use proka_kernel.Scheduler.Switching.{
  save_driver, save_normal, switch_task-to_driver, switch_task-to_normal,
}

-- While a driver is waiting too, the only normal process goes on after two interrupts with exactly
-- the registers and the page table with which it was interrupted.
switch_task-resumes :
    (k : Kernel) (i j : Interrupted) (pid did : ℕ) (rest : List ℕ)
    → IsTable used_normal k.normals (pid ∷ [])
    → IsTable used_driver k.drivers (did ∷ rest)
    → (r : Kernel × Exit) × (s : Kernel × Exit) × (switch_task
          (record k {
            is_driver = true;
            current_id = pid;
            normal_queue = pid ∷ [];
            driver_queue = did ∷ rest;
          })
          i
        ≡ some r)
      × (switch_task r.0 j ≡ some s)
      × (s.1 ≡ load (saved_context i) i.cr3)
switch_task-resumes k i j pid did rest vn vd =
    let (p, has_p, present) = front-exists used_normal k.normals pid [] vn in
    let start : Kernel = record k {
      is_driver = true;
      current_id = pid;
      normal_queue = pid ∷ [];
      driver_queue = did ∷ rest;
    } in
    let (d, has_d, first) = switch_task-to_driver start i p did rest vd has_p in
    let middle : Kernel = record start {
      is_driver = false;
      normals = save_normal start i p;
      current_id = did;
      driver_queue = rest ++ did ∷ [];
    } in
    let kept =
      IsTable-save used_normal k.normals (pid ∷ []) pid p
        (record p { context = saved_context i; current_table = i.cr3 }) vn has_p refl in
    let (n, has_n, second) = switch_task-to_normal middle j d pid [] kept has_d in
    let same : record p { context = saved_context i; current_table = i.cr3 } ≡ n =
      some_inj
        (sym (get_elem?-set_self k.normals pid _ (get_elem?-length k.normals pid has_p)) ∙ has_n) in
    (_, _, first, second, ap (λ (m : NormalProcess). load m.context m.current_table) (sym same))

-- Several interrupts in a row.
unfoldable pub switch_all : Kernel → List Interrupted → Option Kernel
switch_all k [] = some k
switch_all k (i ∷ is) = switch_task k i >>= λ (r : Kernel × Exit). switch_all r.0 is

-- What an interrupt leaves alone while there are no drivers.
record Unsaved (k j : Kernel) : Type 0 where
  normals_kept : j.normals ≡ k.normals
  mode : j.is_driver ≡ false
  no_driver : j.driver_queue ≡ []

to_normal-Unsaved :
    (k : Kernel) (r : Kernel × Option (Context × ℕ))
    → k.is_driver ≡ false
    → k.driver_queue ≡ []
    → to_normal k ≡ some r
    → Unsaved k r.0
unfolding to_normal
to_normal-Unsaved k r mode none_waiting h = go k.normal_queue h
  where
    here : Unsaved k k
    here = record { normals_kept = refl; mode = mode; no_driver = none_waiting }

    go : (q : List ℕ) → to_normal (record k { normal_queue = q }) ≡ some r → Unsaved k r.0
    go [] e = cc
    go (pid ∷ rest) e = elim (Option-cases (get_elem? k.normals pid)) [
      | inl f ↦
          subst (λ (s : Kernel × Option (Context × ℕ)). Unsaved k s.0)
            (some_inj (rw (f, to_normal) at e))
            (record { normals_kept = refl; mode = mode; no_driver = none_waiting })
      | inr (p, f) ↦ elim (Bool-cases p.present) [
        | inl b ↦
            subst (λ (s : Kernel × Option (Context × ℕ)). Unsaved k s.0)
              (some_inj (rw (f, b, to_normal) at e))
              (record { normals_kept = refl; mode = mode; no_driver = none_waiting })
        | inr b ↦
            subst (λ (s : Kernel × Option (Context × ℕ)). Unsaved k s.0)
              (some_inj (rw (f, b, to_normal) at e))
              (record { normals_kept = refl; mode = mode; no_driver = none_waiting })
      ]
    ]

switch_task-Unsaved :
    (k : Kernel) (i : Interrupted) (r : Kernel × Exit)
    → k.is_driver ≡ false
    → k.driver_queue ≡ []
    → switch_task k i ≡ some r
    → Unsaved k r.0
unfolding switch_task from_driver
switch_task-Unsaved k i r mode none_waiting h =
    go k.normal_queue k.driver_queue k.is_driver mode none_waiting h
  where
    go :
        (nq dq : List ℕ) (m : Bool)
        → m ≡ false
        → dq ≡ []
        → switch_task (record k { normal_queue = nq; driver_queue = dq; is_driver = m }) i ≡ some r
        → Unsaved k r.0
    go nq dq true e f h = cc
    go nq (d ∷ ds) false e f h = cc
    go [] [] false e f h =
        subst (λ (s : Kernel × Exit). Unsaved k s.0) (some_inj h)
          (record { normals_kept = refl; mode = refl; no_driver = refl })
    go (p ∷ ps) [] false e f h = elim (Option-cases (get_elem? k.drivers k.current_id)) [
      | inl g ↦ cc (rw (g, from_driver) at h)
      | inr (d, g) ↦
          let m : Kernel = record k {
            normal_queue = p ∷ ps;
            driver_queue = [];
            is_driver = false;
            drivers = save_driver k i d;
          } in
          elim (Option-cases (to_normal m)) [
            | inl u ↦ cc (rw (g, u, from_driver) at h)
            | inr (s, u) ↦
                let w = to_normal-Unsaved m s refl refl u in
                subst (λ (s : Kernel × Exit). Unsaved k s.0)
                  (some_inj (rw (g, u, from_driver) at h))
                  (record { normals_kept = w.normals_kept; mode = w.mode; no_driver = w.no_driver })
          ]
    ]

-- Without drivers no interrupt ever stores the context of a normal process: after any number of
-- them each normal process still has the context that it had at first, and starts from it again.
pub switch_all-unsaved :
    (k j : Kernel) (is : List Interrupted)
    → k.is_driver ≡ false
    → k.driver_queue ≡ []
    → switch_all k is ≡ some j
    → j.normals ≡ k.normals
unfolding switch_all
switch_all-unsaved k j [] mode none_waiting h = ap (λ (m : Kernel). m.normals) (sym (some_inj h))
switch_all-unsaved k j (i ∷ is) mode none_waiting h = elim (Option-cases (switch_task k i)) [
  | inl e ↦ cc (rw e at h)
  | inr (r, e) ↦
      let w = switch_task-Unsaved k i r mode none_waiting e in
      switch_all-unsaved r.0 j is w.mode w.no_driver (rw e at h) ∙ w.normals_kept
]
