-- ===== src/Syscall/Power.antt =====
-- System call 1 and what it ends in: src/syscall/power.rs, src/acpi/power.rs and
-- arch/src/x86_64/power.rs. What the ACPI crate reads is an argument; the accesses to the machine
-- are listed in their order.
use proka_kernel.Base.{
  Bool, Bool-cases, List, Option, [], arith, if◌then◌else◌, inl, inr, ltb, none, not, refl, some,
  some_inj, subst, suc, sym, zero, ℕ, ◌==◌, ◌||◌, ◌∷◌, ◌≡◌, ◌≢◌, ◌⊎◌,
}
use proka_kernel.Syscall.{negsuc, ℤ}
use proka_kernel.Process.{Kernel}

-- `PowerActions`.
pub data PowerAction : Type 0 where
  power_off reboot_machine : PowerAction

abbrev pub action_of : ℕ → Option PowerAction
action_of zero = some power_off
action_of (suc zero) = some reboot_machine
action_of (suc (suc _)) = none

-- An access to the machine.
pub data Access : Type 0 where
  port_byte : ℕ → ℕ → Access
  port_word : ℕ → ℕ → Access
  memory_byte : ℕ → ℕ → Access
  load_empty_idt : Access
  trap : Access
  set_sleep_type : ℕ → Access
  set_sleep_enable : Access

-- The functions that do not return: what they do until they stop.
abbrev pub hard_reboot : List Access
hard_reboot = port_byte 0x64 0xfe ∷ load_empty_idt ∷ trap ∷ []

abbrev pub hard_poweroff : List Access
hard_poweroff = port_word 0x604 0x2000 ∷ []

-- `AddressSpace`, as far as the code reads it.
pub data AddressSpace : Type 0 where
  system_memory : AddressSpace
  other_space : AddressSpace

-- The reset register of FADT.
pub record ResetRegister : Type 0 where
  pub address : ℕ
  pub bit_width : ℕ
  pub address_space : AddressSpace

-- `reboot`, over the register, if it can be read, and `reset_value`.
pub reboot : Option ResetRegister → ℕ → List Access
reboot none val = hard_reboot
reboot (some reg) val =
    if (reg.address == 0) || not (reg.bit_width == 8) then hard_reboot else elim reg.address_space [
      | system_memory ↦ memory_byte reg.address val ∷ []
      | other_space ↦ []
    ]

-- The value of `\_S5`: a package of values, of which some are integers.
pub data AmlObject : Type 0 where
  integer : ℕ → AmlObject
  no_integer : AmlObject

pub data S5 : Type 0 where
  values : List AmlObject → S5
  no_values : S5

-- The sleep type, or none where the code gives up; `u8::try_from(..).unwrap_or(0)`.
pub sleep_type : S5 → Option ℕ
sleep_type no_values = none
sleep_type (values []) = none
sleep_type (values (_ ∷ [])) = none
sleep_type (values (integer i ∷ _ ∷ _)) = some (if ltb i 256 then i else 0)
sleep_type (values (no_integer ∷ _ ∷ _)) = none

-- `poweroff`, with whether the two accesses to the control registers succeed.
pub poweroff : S5 → Bool → Bool → List Access
unfolding sleep_type
poweroff s5 type_set enable_set = elim (sleep_type s5) [
  | none ↦ hard_poweroff
  | some slp_type ↦
      if type_set
      then set_sleep_type slp_type ∷ (if enable_set then set_sleep_enable ∷ [] else hard_poweroff)
      else hard_poweroff
]

-- How the call ends.
pub data Powered : Type 0 where
  returns : ℤ → Kernel → Powered
  stops : List Access → Kernel → Powered

-- `power`.
pub power : Option ResetRegister → ℕ → S5 → Bool → Bool → ℕ → Kernel → Powered
unfolding reboot poweroff
power reg val s5 type_set enable_set power_action k = elim (action_of power_action) [
  | none ↦ returns (negsuc 1) k
  | some action ↦
      let idle = record k { driver_queue = []; normal_queue = [] } in
      elim action [
        | power_off ↦ stops (poweroff s5 type_set enable_set) idle
        | reboot_machine ↦ stops (reboot reg val) idle
      ]
]

-- What a request to reboot does: one write of the value at the address of a one-byte register in
-- memory; nothing, for a one-byte register elsewhere; else the keyboard controller's reset line and
-- a trap without an interrupt table.
pub data Rebooted (reg : Option ResetRegister) (val : ℕ) : List Access → Type 0 where
  by_register :
      (r : ResetRegister)
      → reg ≡ some r
      → r.address ≢ 0
      → r.bit_width ≡ 8
      → r.address_space ≡ system_memory
      → Rebooted reg val (memory_byte r.address val ∷ [])
  stuck :
      (r : ResetRegister)
      → reg ≡ some r
      → r.address ≢ 0
      → r.bit_width ≡ 8
      → r.address_space ≡ other_space
      → Rebooted reg val []
  by_keyboard :
      ((r : ResetRegister) → reg ≡ some r → (r.address ≡ 0) ⊎ (r.bit_width ≢ 8))
      → Rebooted reg val (port_byte 0x64 0xfe ∷ load_empty_idt ∷ trap ∷ [])

space-Rebooted :
    (r : ResetRegister) (val : ℕ) (space : AddressSpace)
    → r.address_space ≡ space
    → r.address ≢ 0
    → r.bit_width ≡ 8
    → Rebooted
        (some r)
        val
        (elim space [ system_memory ↦ memory_byte r.address val ∷ [] | other_space ↦ [] ])
space-Rebooted r val system_memory e there wide = by_register r refl there wide e
space-Rebooted r val other_space e there wide = stuck r refl there wide e

reboot-Rebooted : (reg : Option ResetRegister) (val : ℕ) → Rebooted reg val (reboot reg val)
unfolding reboot
reboot-Rebooted none val = by_keyboard (λ r e. absurd cc)
reboot-Rebooted (some r) val = elim (Bool-cases ((r.address == 0) || not (r.bit_width == 8))) [
  | inl bad ↦
      let unusable : (r.address ≡ 0) ⊎ (r.bit_width ≢ 8) = ground (arith, bad) in
      subst (Rebooted (some r) val) (sym (rw (bad, reboot))) (
        by_keyboard (λ q e.
          subst (λ (p : ResetRegister). (p.address ≡ 0) ⊎ (p.bit_width ≢ 8)) (some_inj e) unusable))
  | inr good ↦
      subst (Rebooted (some r) val) (sym (rw (good, reboot)))
        (space-Rebooted r val r.address_space refl (ground (arith, good)) (ground (arith, good)))
]

-- A request to reboot leaves both queues empty, makes exactly these accesses and never comes back:
-- one write of the reset value to the register's address, when the register can be read, its
-- address is not 0, it is 8 bits wide and it lies in memory; none at all when such a register
-- lies outside the memory; else those that reset by the keyboard controller and then by a trap.
pub power-reboot :
    (reg : Option ResetRegister) (val : ℕ) (s5 : S5) (type_set enable_set : Bool) (k : Kernel)
    → (accesses : List Access) × (power reg val s5 type_set enable_set 1 k
        ≡ stops accesses (record k { driver_queue = []; normal_queue = [] }))
      × Rebooted reg val accesses
unfolding power
power-reboot reg val s5 type_set enable_set k = (reboot reg val, refl, reboot-Rebooted reg val)
