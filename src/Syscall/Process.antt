-- ===== src/Syscall/Process.antt =====
-- System call 0: arch/src/x86_64/syscall/process.rs, with the creation of a process as a parameter.
use proka_kernel.Base.{
  Bool, List, Option, Option-cases, false, if◌then◌else◌, inl, inr, none, refl, some, suc, zero, ℕ,
  ◌%◌, ◌-◌, ◌>>=◌, ◌≡◌, ◌≤◌, ◌⊎◌,
}
use proka_kernel.Syscall.{negsuc, pos, ℤ}
use proka_kernel.Process.{Kernel, ProcType, Result, driver, err, max_ps, normal, ok, panics, remove}
use proka_kernel.Process.Tables.{IsConsistent, in_use}
use proka_kernel.Process.Removal.{Outcome, Removes, missing, remove-Outcome, removed, too_large}

-- `ProcessSyscallRequest::try_from`.
pub data ProcessRequest : Type 0 where
  kill_tasks create_tasks : ProcessRequest

abbrev pub request_of : ℕ → Option ProcessRequest
request_of zero = some kill_tasks
request_of (suc zero) = some create_tasks
request_of (suc (suc _)) = none

-- The match on `proctyp`.
abbrev pub proctype_of : ℕ → Option ProcType
proctype_of zero = some normal
proctype_of (suc zero) = some driver
proctype_of (suc (suc _)) = none

abbrev pub minus : ℕ → ℤ
minus n = negsuc (n - 1)

-- How `process::create` ends: `none` is a panic, else whether it was `Ok`, with the new state.
module _ {S : Type 0} (kernel_of : S → Kernel) (with_kernel : S → Kernel → S)
    (copy_buffer : S → ℕ → ℕ → ℕ → Option (List ℕ))
    (create : List ℕ → ℕ → S → Option (Bool × S)) where
  -- The request to kill.
  unfoldable pub kill : ℕ → ℕ → S → Option (ℤ × S)
  kill id proctyp s = elim (proctype_of proctyp) [
    | none ↦ some (minus 4, s)
    | some typ ↦ elim (remove (kernel_of s) typ id) [
      | ok k ↦ some (pos 0, with_kernel s k)
      | err e ↦ some (minus 5, s)
      | panics ↦ none
    ]
  ]

  -- The request to create, with `id_or_priority as u8`.
  unfoldable pub spawn : List ℕ → ℕ → S → Option (ℤ × S)
  spawn kernel_buf priority s = create kernel_buf (priority % 256) s >>= λ (fine, s').
      some (if fine then pos 0 else minus 6, s')

  -- `process`, with the user's table; `none` is a panic.
  unfoldable pub process : ℕ → ℕ → ℕ → ℕ → ℕ → ℕ → S → Option (ℤ × S)
  process user_table request id_or_priority buf len proctyp s =
      elim (copy_buffer s user_table buf len) [
        | none ↦ some (minus 2, s)
        | some kernel_buf ↦ elim (request_of request) [
          | none ↦ some (minus 3, s)
          | some kill_tasks ↦ kill id_or_priority proctyp s
          | some create_tasks ↦ spawn kernel_buf id_or_priority s
        ]
      ]

  -- What a kill request has done, by its code.
  pub data Kills (s : S) (id proctyp : ℕ) : ℤ × S → Type 0 where
    no_type : proctype_of proctyp ≡ none → Kills s id proctyp (minus 4, s)
    refused :
        (typ : ProcType)
        → proctype_of proctyp ≡ some typ
        → (max_ps ≤ id) ⊎ (in_use (kernel_of s) typ id ≡ false)
        → Kills s id proctyp (minus 5, s)
    killed :
        (typ : ProcType) (k : Kernel)
        → proctype_of proctyp ≡ some typ
        → Removes (kernel_of s) typ id k
        → Kills s id proctyp (pos 0, with_kernel s k)

  kill-Kills :
      (s : S) (typ : ProcType) (id proctyp : ℕ) (result : Result Kernel)
      → proctype_of proctyp ≡ some typ
      → Outcome (kernel_of s) typ id result
      → (r : ℤ × S) × (◌≡◌ {A = Option (ℤ × S)}
          (elim result [
            | ok k ↦ some (pos 0, with_kernel s k)
            | err e ↦ some (minus 5, s)
            | panics ↦ none
          ])
          (some r))
        × Kills s id proctyp r
  kill-Kills s typ id proctyp _ known (too_large h) =
      ((minus 5, s), refl, refused typ known (inl h))
  kill-Kills s typ id proctyp _ known (missing _ h) =
      ((minus 5, s), refl, refused typ known (inr h))
  kill-Kills s typ id proctyp _ known (removed k h) =
      ((pos 0, with_kernel s k), refl, killed typ k known h)

  -- On consistent tables a request to kill whose buffer can be copied does not panic: it returns
  -- -4 for a type of process that is not known, -5 for an id that is too large or not in use, both
  -- with nothing changed, or 0 when the process was there and is removed.
  pub process-Kills :
      (user_table id buf len proctyp : ℕ) (kernel_buf : List ℕ) (s : S)
      → IsConsistent (kernel_of s)
      → copy_buffer s user_table buf len ≡ some kernel_buf
      → (r : ℤ × S) × (process user_table 0 id buf len proctyp s ≡ some r) × Kills s id proctyp r
  unfolding process kill
  process-Kills user_table id buf len proctyp kernel_buf s v copied =
      elim (Option-cases (proctype_of proctyp)) [
        | inl unknown ↦
            ((minus 4, s), rw (copied, process) (rw (unknown, kill) (refl)), no_type unknown)
        | inr (typ, known) ↦
            (let (r, same, kills) =
                kill-Kills s typ id proctyp (remove (kernel_of s) typ id) known
                  (remove-Outcome (kernel_of s) typ id v) in
              (r, rw (copied, process) (rw (known, kill) same), kills))
      ]
