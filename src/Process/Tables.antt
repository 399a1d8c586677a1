-- ===== src/Process/Tables.antt =====
-- Creating and removing processes: the part of arch/src/x86_64/process/{mod,normal,driver}.rs that
-- works on the tables and queues.
use proka_kernel.Base.{
  Bool, List, Option-cases, [], arith, false, get_elem?, get_elem?-set_self, if◌then◌else◌, inl,
  inr, length, length-replicate, refl, replicate, set, some, some_inj, subst, suc, true, zero, ℕ,
  ◌&&◌, ◌++◌, ◌<◌, ◌==◌, ◌∷◌, ◌≡◌,
}
use proka_kernel.Process.{
  DriverProcess, Kernel, NormalProcess, ProcType, Selectors, boot, create_driver,
  create_driver_process, create_normal, create_normal_process, default_driver, default_normal,
  driver, first_free, max_ps, normal, used_driver, used_normal,
}
use proka_kernel.Process.Slots.{
  IsTable, IsTable-add, count, first_free-some, is_present, is_present-set,
}

-- Both tables and their queues agree.
pub record IsConsistent (k : Kernel) : Type 0 where
  pub normal_table : IsTable used_normal k.normals k.normal_queue
  pub driver_table : IsTable used_driver k.drivers k.driver_queue

is_present-replicate :
    {P : Type 0} (present : P → Bool) (n i : ℕ) (p : P)
    → present p ≡ false
    → is_present present (replicate n p) i ≡ false
is_present-replicate present zero i p h = refl
is_present-replicate present (suc n) zero p h = h
is_present-replicate present (suc n) (suc i) p h = is_present-replicate present n i p h

IsTable-replicate :
    {P : Type 0} (present : P → Bool) (p : P)
    → present p ≡ false
    → IsTable present (replicate max_ps p) []
unfolding count
IsTable-replicate present p h = record {
  sized = length-replicate max_ps p;
  queued = λ i. rw (is_present-replicate present max_ps i p h) refl;
}

-- The tables at boot are empty.
pub boot-IsConsistent : IsConsistent boot
unfolding boot
boot-IsConsistent = record {
  normal_table = IsTable-replicate used_normal default_normal refl;
  driver_table = IsTable-replicate used_driver default_driver refl;
}

-- Whether a process with this id exists.
unfoldable pub in_use : Kernel → ProcType → ℕ → Bool
in_use k normal i = is_present used_normal k.normals i
in_use k driver i = is_present used_driver k.drivers i

abbrev pub queue_of : Kernel → ProcType → List ℕ
queue_of k normal = k.normal_queue
queue_of k driver = k.driver_queue

unfoldable pub same_type : ProcType → ProcType → Bool
same_type normal normal = true
same_type driver driver = true
same_type _ _ = false

-- The processes after the entry of one id has been written.
pub users_normal :
    (k : Kernel) (id : ℕ) (p : NormalProcess) (q : List ℕ)
    → id < length k.normals
    → (u : ProcType) (i : ℕ)
    → in_use (record k { normals = set k.normals id p; normal_queue = q }) u i
      ≡ (if same_type normal u && (id == i) then p.present else in_use k u i)
unfolding in_use same_type
users_normal k id p q h normal i = is_present-set used_normal k.normals id i p h
users_normal k id p q h driver i = refl

pub users_driver :
    (k : Kernel) (id : ℕ) (p : DriverProcess) (q : List ℕ)
    → id < length k.drivers
    → (u : ProcType) (i : ℕ)
    → in_use (record k { drivers = set k.drivers id p; driver_queue = q }) u i
      ≡ (if same_type driver u && (id == i) then p.present else in_use k u i)
unfolding in_use same_type
users_driver k id p q h normal i = refl
users_driver k id p q h driver i = is_present-set used_driver k.drivers id i p h

-- What creating a process of a type does.
pub record Creates (k : Kernel) (t : ProcType) (id : ℕ) (j : Kernel) : Type 0 where
  pub id_fits : id < max_ps
  pub was_free : in_use k t id ≡ false
  pub is_first : (i : ℕ) → i < id → in_use k t i ≡ true
  pub consistent : IsConsistent j
  pub users :
      (u : ProcType) (i : ℕ)
      → in_use j u i ≡ (if same_type t u && (id == i) then true else in_use k u i)
  pub queue : queue_of j t ≡ queue_of k t ++ id ∷ []
  pub driver_kept : j.is_driver ≡ k.is_driver
  pub current_kept : j.current_id ≡ k.current_id

-- A normal process takes the first free slot and the end of its queue; its entry has the entry
-- point, the stack and the user selectors of a new process; nothing else changes.
pub create_normal-Creates :
    (sel : Selectors) (k j : Kernel) (frame priority : ℕ)
    → IsConsistent k
    → create_normal sel k frame priority ≡ some j
    → (id : ℕ) × Creates k normal id j
      × (get_elem? j.normals id ≡ some (create_normal_process sel frame priority 0x100000))
unfolding create_normal in_use same_type create_normal_process
create_normal-Creates sel k j frame priority v h =
    elim (Option-cases (first_free used_normal k.normals)) [
      | inl e ↦ cc (rw (e, create_normal) at h)
      | inr (id, e) ↦
          let p = create_normal_process sel frame priority 0x100000 in
          let (inside, free, before) = first_free-some used_normal k.normals id e in
          let m : Kernel = record k {
            normals = set k.normals id p;
            normal_queue = k.normal_queue ++ id ∷ [];
          } in
          let new : used_normal p ≡ true = unfold create_normal_process in refl in
          let made : Creates k normal id m = record {
            id_fits = omega (arith, v.normal_table.sized);
            was_free = free;
            is_first = before;
            consistent = record {
              normal_table =
                  IsTable-add used_normal k.normals k.normal_queue id p v.normal_table e new;
              driver_table = v.driver_table;
            };
            users = users_normal k id p (k.normal_queue ++ id ∷ []) inside;
            queue = refl;
            driver_kept = refl;
            current_kept = refl;
          } in
          subst (λ (s : Kernel). (i : ℕ) × Creates k normal i s × (get_elem? s.normals i ≡ some p))
            (some_inj (rw (e, create_normal) at h))
            (id, made, get_elem?-set_self k.normals id p inside)
    ]

-- The same for a driver process, with the kernel's selectors.
pub create_driver-Creates :
    (sel : Selectors) (k j : Kernel) (frame : ℕ)
    → IsConsistent k
    → create_driver sel k frame ≡ some j
    → (id : ℕ) × Creates k driver id j
      × (get_elem? j.drivers id ≡ some (create_driver_process sel frame 0x100000))
unfolding create_driver in_use create_driver_process
create_driver-Creates sel k j frame v h = elim (Option-cases (first_free used_driver k.drivers)) [
  | inl e ↦ cc (rw (e, create_driver) at h)
  | inr (id, e) ↦
      let p = create_driver_process sel frame 0x100000 in
      let (inside, free, before) = first_free-some used_driver k.drivers id e in
      let m : Kernel = record k {
        drivers = set k.drivers id p;
        driver_queue = k.driver_queue ++ id ∷ [];
      } in
      let new : used_driver p ≡ true = unfold create_driver_process in refl in
      let made : Creates k driver id m = record {
        id_fits = omega (arith, v.driver_table.sized);
        was_free = free;
        is_first = before;
        consistent = record {
          normal_table = v.normal_table;
          driver_table = IsTable-add used_driver k.drivers k.driver_queue id p v.driver_table e new;
        };
        users = users_driver k id p (k.driver_queue ++ id ∷ []) inside;
        queue = refl;
        driver_kept = refl;
        current_kept = refl;
      } in
      subst (λ (s : Kernel). (i : ℕ) × Creates k driver i s × (get_elem? s.drivers i ≡ some p))
        (some_inj (rw (e, create_driver) at h)) (id, made, get_elem?-set_self k.drivers id p inside)
]
