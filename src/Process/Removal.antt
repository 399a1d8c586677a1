-- ===== src/Process/Removal.antt =====
-- `remove_normal`, `remove_driver` and `remove` of arch/src/x86_64/process.
use proka_kernel.Base.{
  Bool-cases, List, Option-cases, [], arith, false, get_elem?, if◌then◌else◌, inl, inr, leb, length,
  none, refl, subst, suc, true, zero, ℕ, ◌&&◌, ◌<◌, ◌==◌, ◌∷◌, ◌≡◌, ◌≢◌, ◌≤◌,
}
use proka_kernel.Process.{
  DriverProcess, Kernel, NormalProcess, ProcType, Result, driver, err, invalid_index, max_ps,
  normal, ok, process_not_exist, remove, remove_driver, remove_normal, retain_ne, used_driver,
  used_normal,
}
use proka_kernel.Process.Slots.{IsTable-remove, is_present}
use proka_kernel.Process.Tables.{
  IsConsistent, in_use, queue_of, same_type, users_driver, users_normal,
}

-- What removing a process does: its slot is free, its id has left the queue, nothing else changed.
pub record Removes (k : Kernel) (t : ProcType) (id : ℕ) (j : Kernel) : Type 0 where
  pub id_fits : id < max_ps
  pub existed : in_use k t id ≡ true
  pub consistent : IsConsistent j
  pub users :
      (u : ProcType) (i : ℕ)
      → in_use j u i ≡ (if same_type t u && (id == i) then false else in_use k u i)
  pub queue : queue_of j t ≡ retain_ne id (queue_of k t)
  pub driver_kept : j.is_driver ≡ k.is_driver
  pub current_kept : j.current_id ≡ k.current_id

-- How a removal ends.
pub data Outcome (k : Kernel) (t : ProcType) (id : ℕ) : Result Kernel → Type 0 where
  too_large : max_ps ≤ id → Outcome k t id (err invalid_index)
  missing : id < max_ps → in_use k t id ≡ false → Outcome k t id (err process_not_exist)
  removed : (j : Kernel) → Removes k t id j → Outcome k t id (ok j)

small_index : (id : ℕ) → leb max_ps id ≡ false → id < max_ps
small_index id h = ground arith

large_index : (id : ℕ) → leb max_ps id ≡ true → max_ps ≤ id
large_index id h = ground arith

in_range {ℓ} : {A : Type ℓ} (xs : List A) (i : ℕ) → i < length xs → get_elem? xs i ≢ none
in_range [] i h e = omega arith
in_range (x ∷ xs) zero h e = cc
in_range (x ∷ xs) (suc i) h e = in_range xs i (omega arith) e

remove_normal-Outcome :
    (k : Kernel) (id : ℕ) → IsConsistent k → Outcome k normal id (remove_normal k id)
unfolding remove_normal in_use
remove_normal-Outcome k id v = elim (Bool-cases (leb max_ps id)) [
  | inl e ↦ rw (e, remove_normal) (too_large (large_index id e))
  | inr e ↦ elim (Option-cases (get_elem? k.normals id)) [
    | inl none_there ↦
        absurd
          (in_range k.normals id (omega (arith, v.normal_table.sized, small_index id e)) none_there)
    | inr (p, there) ↦ elim (Bool-cases p.present) [
      | inr absent ↦
          rw (e, there, absent, remove_normal)
            (missing (small_index id e) (rw (there, is_present) absent))
      | inl present ↦
          let gone : NormalProcess = record p { present = false } in
          let inside : id < length k.normals =
            omega (arith, v.normal_table.sized, small_index id e) in
          rw (e, there, present, remove_normal)
            (removed _ (record {
              id_fits = small_index id e;
              existed = rw (there, is_present) present;
              consistent = record {
                normal_table =
                    IsTable-remove used_normal k.normals k.normal_queue id gone v.normal_table
                      (small_index id e) refl;
                driver_table = v.driver_table;
              };
              users = users_normal k id gone (retain_ne id k.normal_queue) inside;
              queue = refl;
              driver_kept = refl;
              current_kept = refl;
            }))
    ]
  ]
]

remove_driver-Outcome :
    (k : Kernel) (id : ℕ) → IsConsistent k → Outcome k driver id (remove_driver k id)
unfolding remove_driver in_use
remove_driver-Outcome k id v = elim (Bool-cases (leb max_ps id)) [
  | inl e ↦ rw (e, remove_driver) (too_large (large_index id e))
  | inr e ↦ elim (Option-cases (get_elem? k.drivers id)) [
    | inl none_there ↦
        absurd
          (in_range k.drivers id (omega (arith, v.driver_table.sized, small_index id e)) none_there)
    | inr (p, there) ↦ elim (Bool-cases p.present) [
      | inr absent ↦
          rw (e, there, absent, remove_driver)
            (missing (small_index id e) (rw (there, is_present) absent))
      | inl present ↦
          let gone : DriverProcess = record p { present = false } in
          let inside : id < length k.drivers =
            omega (arith, v.driver_table.sized, small_index id e) in
          rw (e, there, present, remove_driver)
            (removed _ (record {
              id_fits = small_index id e;
              existed = rw (there, is_present) present;
              consistent = record {
                normal_table = v.normal_table;
                driver_table =
                    IsTable-remove used_driver k.drivers k.driver_queue id gone v.driver_table
                      (small_index id e) refl;
              };
              users = users_driver k id gone (retain_ne id k.driver_queue) inside;
              queue = refl;
              driver_kept = refl;
              current_kept = refl;
            }))
    ]
  ]
]

-- On consistent tables a removal fails with `InvalidIndex` exactly past the table, with
-- `ProcessNotExist` exactly on a slot that is not in use, and otherwise frees the slot, takes the id
-- out of the queue, and leaves the other processes and consistent tables.
pub remove-Outcome :
    (k : Kernel) (t : ProcType) (id : ℕ) → IsConsistent k → Outcome k t id (remove k t id)
unfolding remove
remove-Outcome k normal id v = remove_normal-Outcome k id v
remove-Outcome k driver id v = remove_driver-Outcome k id v

ok_inj : {j l : Kernel} → ok j ≡ ok l → j ≡ l
ok_inj h = cc

removed-Removes :
    (k j : Kernel) (t : ProcType) (id : ℕ) {r : Result Kernel}
    → Outcome k t id r
    → r ≡ ok j
    → Removes k t id j
removed-Removes k j t id (too_large h) e = cc
removed-Removes k j t id (missing h n) e = cc
removed-Removes k j t id (removed l h) e = subst (Removes k t id) (ok_inj e) h

pub remove-Removes :
    (k j : Kernel) (t : ProcType) (id : ℕ)
    → IsConsistent k
    → remove k t id ≡ ok j
    → Removes k t id j
remove-Removes k j t id v h = removed-Removes k j t id (remove-Outcome k t id v) h

absent-missing :
    (k : Kernel) (t : ProcType) (id : ℕ) {r : Result Kernel}
    → Outcome k t id r
    → id < max_ps
    → in_use k t id ≡ false
    → r ≡ err process_not_exist
absent-missing k t id (too_large h) lo n = absurd (omega arith)
absent-missing k t id (missing h m) lo n = refl
absent-missing k t id (removed l h) lo n = cc (h.existed)

-- A process cannot be removed twice.
remove-remove :
    (k j : Kernel) (t : ProcType) (id : ℕ)
    → IsConsistent k
    → remove k t id ≡ ok j
    → remove j t id ≡ err process_not_exist
unfolding same_type
remove-remove k j t id v h =
    let r = remove-Removes k j t id v h in
    absent-missing j t id (remove-Outcome j t id r.consistent) r.id_fits (gone t (r.users t id))
  where
    gone :
        (t : ProcType)
        → in_use j t id ≡ (if same_type t t && (id == id) then false else in_use k t id)
        → in_use j t id ≡ false
    gone normal e = ground (arith, e)
    gone driver e = ground (arith, e)
