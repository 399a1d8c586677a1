-- ===== src/Syscall/Table.antt =====
-- The table of system calls and its lookup: core/src/syscall.rs, `init` of src/syscall/mod.rs and
-- `syscall_handler` of arch/src/x86_64/handler/syscall.rs. The entry points are values of a type.
use proka_kernel.Base.{
  Bool-cases, List, Option, [], arith, if◌then◌else◌, inl, inr, none, refl, some, ℕ, ◌++◌, ◌==◌,
  ◌∷◌, ◌≡◌,
}
use proka_kernel.Syscall.{negsuc, ℤ}

pub record SyscallEntry (E : Type 0) : Type 0 where
  pub sysnum : ℕ
  pub page_table : ℕ
  pub stack : ℕ
  pub entry : E

-- `SYSCALL`, in the order of the pushes.
abbrev pub Syscalls : Type 0 → Type 0
Syscalls E = List (SyscallEntry E)

-- The five arguments of a call.
pub record Args : Type 0 where
  pub arg1 : ℕ
  pub arg2 : ℕ
  pub arg3 : ℕ
  pub arg4 : ℕ
  pub arg5 : ℕ

-- What the handler passes on to an entry point: the page table and the stack that it switches to,
-- and the user's table.
pub record CallContext : Type 0 where
  pub page_table : ℕ
  pub stack : ℕ
  pub user_table : ℕ

-- The context that every call of the kernel gets.
abbrev pub kernel_context : ℕ → CallContext
kernel_context user_table = record {
  page_table = 0x100000;
  stack = 0xffff8000005ffff0;
  user_table = user_table;
}

module _ {E : Type 0} where
  -- `iter().find(|s| s.sysnum == call_num)`.
  unfoldable pub find_syscall : ℕ → Syscalls E → Option (SyscallEntry E)
  find_syscall call_num [] = none
  find_syscall call_num (e ∷ es) = if e.sysnum == call_num then some e else find_syscall call_num es

  abbrev pub kernel_entry : ℕ → E → SyscallEntry E
  kernel_entry sysnum entry = record {
    sysnum = sysnum;
    page_table = 0x100000;
    stack = 0xffff8000005ffff0;
    entry = entry;
  }

  -- The pushes of `init`, of the entry points of the calls 0, 1 and 2.
  unfoldable pub init : E → E → E → Syscalls E → Syscalls E
  init process power memory table =
      ((table ++ kernel_entry 0 process ∷ []) ++ kernel_entry 1 power ∷ [])
      ++ kernel_entry 2 memory ∷ []

  find_syscall-append :
      (call_num : ℕ) (xs ys : Syscalls E)
      → find_syscall call_num (xs ++ ys)
        ≡ elim (find_syscall call_num xs) [ none ↦ find_syscall call_num ys | some e ↦ some e ]
  unfolding find_syscall
  find_syscall-append call_num [] ys = refl
  find_syscall-append call_num (x ∷ xs) ys = elim (Bool-cases (x.sysnum == call_num)) [
    | inl here ↦ rw here (refl)
    | inr there ↦ rw there (find_syscall-append call_num xs ys)
  ]

  find_syscall-init :
      (process power memory : E) (table : Syscalls E) (call_num : ℕ)
      → find_syscall call_num table ≡ none
      → find_syscall call_num (init process power memory table) ≡ (
          if call_num == 0
          then some (kernel_entry 0 process)
          else if call_num == 1
          then some (kernel_entry 1 power)
          else if call_num == 2
          then some (kernel_entry 2 memory)
          else none)
  unfolding init find_syscall
  find_syscall-init process power memory table call_num new =
      let one = table ++ kernel_entry 0 process ∷ [] in
      let two = one ++ kernel_entry 1 power ∷ [] in
      ground (
        arith,
        new,
        find_syscall-append call_num two (kernel_entry 2 memory ∷ []),
        find_syscall-append call_num one (kernel_entry 1 power ∷ []),
        find_syscall-append call_num table (kernel_entry 0 process ∷ []),
      )

module _ {E : Type 0} {S : Type 0} (call : E → CallContext → Args → S → ℤ × S) where
  -- `syscall_handler`, over what a call of an entry point does.
  unfoldable pub syscall_handler : Syscalls E → ℕ → ℕ → Args → S → ℤ × S
  syscall_handler table call_num user_table args s = elim (find_syscall call_num table) [
    | none ↦ (negsuc 0, s)
    | some e ↦
        call e.entry
          (record { page_table = e.page_table; stack = e.stack; user_table = user_table }) args s
  ]

  -- After `init`, the calls 0, 1 and 2 reach the entry points of the process, power and memory
  -- calls on the kernel's page table and stack, where the table did not have the number before;
  -- any other number that was not in the table returns -1 and changes nothing.
  pub syscall_handler-init :
      (process power memory : E) (table : Syscalls E) (call_num user_table : ℕ) (args : Args)
      (s : S)
      → find_syscall call_num table ≡ none
      → syscall_handler (init process power memory table) call_num user_table args s ≡ (
          if call_num == 0
          then call process (kernel_context user_table) args s
          else if call_num == 1
          then call power (kernel_context user_table) args s
          else if call_num == 2
          then call memory (kernel_context user_table) args s
          else (negsuc 0, s))
  unfolding syscall_handler
  syscall_handler-init process power memory table call_num user_table args s new =
      ground (arith, find_syscall-init process power memory table call_num new)
