-- ===== src/System/Heaps.antt =====
-- The processes under everything that changes them: arch/src/x86_64/process,
-- arch/src/x86_64/scheduler.rs and arch/src/x86_64/syscall/memory.rs together.
use proka_kernel.Base.{
  >>=-some, Bool, Bool-cases, Option, Option-cases, ap, arith, false, get_elem?, if◌then◌else◌, inl,
  inr, leb, refl, replicate, set, some, some_inj, subst, suc, sym, true, zero, ℕ, ◌&&◌, ◌>>=◌, ◌∙◌,
  ◌≡◌,
}
use proka_kernel.Syscall.Memory.Ranges.{InOrder, IsHeaps, IsHeaps-set}
use proka_kernel.Process.{
  Context, Kernel, NormalProcess, ProcType, Result, Selectors, boot, create_driver, create_normal,
  create_normal_process, default_normal, first_free, max_ps, ok, remove, remove_driver,
  remove_normal, used_driver, used_normal,
}
use proka_kernel.Scheduler.{
  Exit, Interrupted, finish, from_driver, from_normal, is_empty, saved_context, switch_task,
  to_driver, to_normal,
}
use proka_kernel.Scheduler.Reachable.{Step, created_driver, created_normal, ended, switched}

ok_inj : (k k' : Kernel) → ◌≡◌ {A = Result Kernel} (ok k) (ok k') → k ≡ k'
ok_inj k k' e = cc

to_driver-normals :
    (k : Kernel) (r : Kernel × Option (Context × ℕ))
    → to_driver k ≡ some r
    → r.0.normals ≡ k.normals
unfolding to_driver
to_driver-normals k r e = ground (arith, e)

to_normal-normals :
    (k : Kernel) (r : Kernel × Option (Context × ℕ))
    → to_normal k ≡ some r
    → r.0.normals ≡ k.normals
unfolding to_normal
to_normal-normals k r e = ground (arith, e)

driver_turn-normals :
    (m : Kernel) (r : Kernel × Exit)
    → (to_driver m >>= λ (q : Kernel × Option (Context × ℕ)). some (q.0, finish q.1)) ≡ some r
    → r.0.normals ≡ m.normals
driver_turn-normals m r e =
    let (q, turned, last) =
      >>=-some (to_driver m) (λ (q : Kernel × Option (Context × ℕ)). some (q.0, finish q.1)) e in
    sym (ap (λ (o : Kernel × Exit). o.0.normals) (some_inj last)) ∙ to_driver-normals m q turned

normal_turn-normals :
    (m : Kernel) (r : Kernel × Exit)
    → (to_normal m >>= λ (q : Kernel × Option (Context × ℕ)). some (q.0, finish q.1)) ≡ some r
    → r.0.normals ≡ m.normals
normal_turn-normals m r e =
    let (q, turned, last) =
      >>=-some (to_normal m) (λ (q : Kernel × Option (Context × ℕ)). some (q.0, finish q.1)) e in
    sym (ap (λ (o : Kernel × Exit). o.0.normals) (some_inj last)) ∙ to_normal-normals m q turned

created_normal-IsHeaps :
    (sel : Selectors) (k k' : Kernel) (frame priority : ℕ)
    → create_normal sel k frame priority ≡ some k'
    → IsHeaps k.normals
    → IsHeaps k'.normals
unfolding create_normal create_normal_process
created_normal-IsHeaps sel k k' frame priority e v =
    elim (Option-cases (first_free used_normal k.normals)) [
      | inl full ↦ cc (rw (full, create_normal) at e)
      | inr (id, found) ↦
          subst (λ (l : Kernel). IsHeaps l.normals) (some_inj (rw (found, create_normal) at e))
            (IsHeaps-set k.normals id (create_normal_process sel frame priority 0x100000) v tt)
    ]

created_driver-normals :
    (sel : Selectors) (k k' : Kernel) (frame : ℕ)
    → create_driver sel k frame ≡ some k'
    → k'.normals ≡ k.normals
unfolding create_driver
created_driver-normals sel k k' frame e = elim (Option-cases (first_free used_driver k.drivers)) [
  | inl full ↦ cc (rw (full, create_driver) at e)
  | inr (id, found) ↦
      ap (λ (l : Kernel). l.normals) (sym (some_inj (rw (found, create_driver) at e)))
]

removed_normal-IsHeaps :
    (k k' : Kernel) (id : ℕ) → remove_normal k id ≡ ok k' → IsHeaps k.normals → IsHeaps k'.normals
unfolding remove_normal
removed_normal-IsHeaps k k' id e v = elim (Bool-cases (leb max_ps id)) [
  | inl large ↦ cc (rw (large, remove_normal) at e)
  | inr small ↦ elim (Option-cases (get_elem? k.normals id)) [
    | inl none_there ↦ cc (rw (small, none_there, remove_normal) at e)
    | inr (p, there) ↦ elim (Bool-cases p.present) [
      | inr absent ↦ cc (rw absent at (rw (small, there, remove_normal) at e))
      | inl here ↦
          subst (λ (l : Kernel). IsHeaps l.normals)
            (ok_inj _ k' (rw here at (rw (small, there, remove_normal) at e)))
            (IsHeaps-set k.normals id (record p { present = false }) v (v id p there))
    ]
  ]
]

removed_driver-normals :
    (k k' : Kernel) (id : ℕ) → remove_driver k id ≡ ok k' → k'.normals ≡ k.normals
unfolding remove_driver
removed_driver-normals k k' id e = ground (arith, e)

saved-IsHeaps :
    (k k' : Kernel) (p : NormalProcess) (context : Context) (table : ℕ)
    → get_elem? k.normals k.current_id ≡ some p
    → k'.normals
      ≡ set k.normals k.current_id (record p { context = context; current_table = table })
    → IsHeaps k.normals
    → IsHeaps k'.normals
saved-IsHeaps k k' p context table there same v = subst IsHeaps (sym same) (
    IsHeaps-set k.normals k.current_id (record p { context = context; current_table = table }) v
      (v k.current_id p there))

marked-normals :
    (b mode : Bool) (k : Kernel)
    → (if b then k else record k { is_driver = mode }).normals ≡ k.normals
marked-normals false mode k = refl
marked-normals true mode k = refl

from_driver-normals :
    (k : Kernel) (i : Interrupted) (r : Kernel × Exit)
    → from_driver k i ≡ some r
    → r.0.normals ≡ k.normals
unfolding from_driver
from_driver-normals k i r e = elim (Option-cases (get_elem? k.drivers k.current_id)) [
  | inl none_there ↦ cc (rw (none_there, from_driver) at e)
  | inr (p, there) ↦ elim (Bool-cases (is_empty k.normal_queue)) [
    | inl alone ↦
        sym (
          ap (λ (q : Kernel × Exit). q.0.normals)
            (some_inj (rw alone at (rw (there, from_driver) at e))))
        ∙ marked-normals (is_empty k.driver_queue) true k
    | inr others ↦
        let m = if is_empty k.driver_queue then k else record k { is_driver = true } in
        let saved = record p { context = saved_context i } in
        normal_turn-normals (record m { drivers = set k.drivers k.current_id saved }) r
          (rw others at (rw (there, from_driver) at e))
        ∙ marked-normals (is_empty k.driver_queue) true k
  ]
]

from_normal-IsHeaps :
    (k : Kernel) (i : Interrupted) (r : Kernel × Exit)
    → from_normal k i ≡ some r
    → IsHeaps k.normals
    → IsHeaps r.0.normals
unfolding from_normal
from_normal-IsHeaps k i r e v = elim (Option-cases (get_elem? k.normals k.current_id)) [
  | inl none_there ↦ cc (rw (none_there, from_normal) at e)
  | inr (p, there) ↦ elim (Bool-cases (is_empty k.driver_queue)) [
    | inl alone ↦
        subst IsHeaps
          (sym (marked-normals (is_empty k.normal_queue) false k)
            ∙ ap (λ (q : Kernel × Exit). q.0.normals)
                (some_inj (rw alone at (rw (there, from_normal) at e))))
          v
    | inr others ↦
        let m = if is_empty k.normal_queue then k else record k { is_driver = false } in
        let saved = record p { context = saved_context i; current_table = i.cr3 } in
        saved-IsHeaps k r.0 p (saved_context i) i.cr3 there
          (driver_turn-normals (record m { normals = set k.normals k.current_id saved }) r
            (rw others at (rw (there, from_normal) at e)))
          v
  ]
]

switched-IsHeaps :
    (k : Kernel) (i : Interrupted) (r : Kernel × Exit) (mode : Bool)
    → (if mode then from_normal k i else from_driver k i) ≡ some r
    → IsHeaps k.normals
    → IsHeaps r.0.normals
switched-IsHeaps k i r true e v = from_normal-IsHeaps k i r e v
switched-IsHeaps k i r false e v = subst IsHeaps (sym (from_driver-normals k i r e)) v

replicate-IsHeaps : (n : ℕ) (p : NormalProcess) → InOrder p.heap_range → IsHeaps (replicate n p)
replicate-IsHeaps zero p h i q there = cc
replicate-IsHeaps (suc n) p h zero q there =
    subst (λ (r : NormalProcess). InOrder r.heap_range) (some_inj there) h
replicate-IsHeaps (suc n) p h (suc i) q there = replicate-IsHeaps n p h i q there

pub boot-IsHeaps : IsHeaps boot.normals
unfolding boot
boot-IsHeaps = replicate-IsHeaps max_ps default_normal tt

-- The heap ranges of every process stay in order under creation, removal and interrupts.
pub Step-IsHeaps : {k k' : Kernel} → Step k k' → IsHeaps k.normals → IsHeaps k'.normals
unfolding remove switch_task
Step-IsHeaps {k} {k'} (created_normal sel frame priority e) v =
    created_normal-IsHeaps sel k k' frame priority e v
Step-IsHeaps {k} {k'} (created_driver sel frame e) v =
    subst IsHeaps (sym (created_driver-normals sel k k' frame e)) v
Step-IsHeaps {k} {k'} (ended ProcType.normal id e) v = removed_normal-IsHeaps k k' id e v
Step-IsHeaps {k} {k'} (ended ProcType.driver id e) v =
    subst IsHeaps (sym (removed_driver-normals k k' id e)) v
Step-IsHeaps {k} {k'} (switched i exit e) v =
    elim (Bool-cases (is_empty k.normal_queue && is_empty k.driver_queue)) [
      | inl idle ↦
          subst (λ (o : Kernel × Exit). IsHeaps o.0.normals)
            (some_inj (rw (idle, switch_task) at e)) v
      | inr busy ↦ switched-IsHeaps k i (k', exit) k.is_driver (rw (busy, switch_task) at e) v
    ]
