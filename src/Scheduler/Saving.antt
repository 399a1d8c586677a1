-- ===== src/Scheduler/Saving.antt =====
-- The table and queue steps of arch/src/x86_64/scheduler.rs: saving a context, and taking the next
-- process from the front of its queue to the end.
use proka_kernel.Base.{
  Bool, Bool-cases, List, Option-cases, [], arith, false, get_elem?, get_elem?-length, inl, inr,
  length-set, refl, set, some, subst, sym, true, ℕ, ℕ_discrete, ◌++◌, ◌==◌, ◌∙◌, ◌∷◌, ◌≡◌,
}
use proka_kernel.Process.{DriverProcess, Kernel, NormalProcess, used_driver, used_normal}
use proka_kernel.Process.Slots.{IsTable, count, count-append, is_present, is_present-set}
use proka_kernel.Scheduler.{to_driver, to_normal}

module _ {P : Type 0} (present : P → Bool) where
  -- An entry may change as long as it stays in use or free.
  pub is_present-save :
      (ps : List P) (c : ℕ) (p n : P) (i : ℕ)
      → get_elem? ps c ≡ some p
      → present n ≡ present p
      → is_present present (set ps c n) i ≡ is_present present ps i
  is_present-save ps c p n i there same =
      rw (is_present-set present ps c i n (get_elem?-length ps c there), same)
        (elim (ℕ_discrete c i) [
          | yes e ↦
              let here : (c == i) ≡ true = ground arith in
              rw here (
                sym (
                  subst (λ x. is_present present ps x ≡ present p) e (rw (there, is_present) refl)))
          | no d ↦ let other : (c == i) ≡ false = ground arith in rw other refl
        ])

  pub IsTable-save :
      (ps : List P) (q : List ℕ) (c : ℕ) (p n : P)
      → IsTable present ps q
      → get_elem? ps c ≡ some p
      → present n ≡ present p
      → IsTable present (set ps c n) q
  IsTable-save ps q c p n v there same = record {
    sized = length-set ps c n ∙ v.sized;
    queued = λ i. rw (is_present-save ps c p n i there same) (v.queued i);
  }

  pub IsTable-rotate :
      (ps : List P) (i : ℕ) (rest : List ℕ)
      → IsTable present ps (i ∷ rest)
      → IsTable present ps (rest ++ i ∷ [])
  unfolding count
  IsTable-rotate ps i rest v = record {
    sized = v.sized;
    queued = λ j. ground (arith, v.queued j, count-append j rest (i ∷ []));
  }

  -- The process at the front of the queue exists.
  pub front-exists :
      (ps : List P) (i : ℕ) (rest : List ℕ)
      → IsTable present ps (i ∷ rest)
      → (p : P) × (get_elem? ps i ≡ some p) × (present p ≡ true)
  unfolding count
  front-exists ps i rest v = elim (Option-cases (get_elem? ps i)) [
    | inl e ↦ absurd (ground (arith, rw (e, is_present) at (v.queued i)))
    | inr (p, e) ↦ elim (Bool-cases (present p)) [
      | inl yes_present ↦ (p, e, yes_present)
      | inr absent ↦ absurd (ground (arith, rw (e, absent, is_present) at (v.queued i)))
    ]
  ]

pub to_driver-loads :
    (k : Kernel) (did : ℕ) (rest : List ℕ)
    → IsTable used_driver k.drivers k.driver_queue
    → k.driver_queue ≡ did ∷ rest
    → (p : DriverProcess) × (get_elem? k.drivers did ≡ some p)
      × (to_driver k
          ≡ some (
            record k { current_id = did; driver_queue = rest ++ did ∷ [] },
            some (p.context, p.table_addr),
          ))
unfolding to_driver
to_driver-loads k did rest v e =
    let (p, there, present) = front-exists used_driver k.drivers did rest (rw e at v) in
    (p, there, rw (e, there, present, to_driver) refl)

pub to_normal-loads :
    (k : Kernel) (pid : ℕ) (rest : List ℕ)
    → IsTable used_normal k.normals k.normal_queue
    → k.normal_queue ≡ pid ∷ rest
    → (p : NormalProcess) × (get_elem? k.normals pid ≡ some p)
      × (to_normal k
          ≡ some (
            record k { current_id = pid; normal_queue = rest ++ pid ∷ [] },
            some (p.context, p.current_table),
          ))
unfolding to_normal
to_normal-loads k pid rest v e =
    let (p, there, present) = front-exists used_normal k.normals pid rest (rw e at v) in
    (p, there, rw (e, there, present, to_normal) refl)
