-- ===== src/Paging/Walk.antt =====
-- The processor's walk through four levels of tables, as the manuals describe it: the reading of
-- the tables by which the kernel's mapping is stated.
use proka_kernel.Base.{
  Bool, Option, false, if◌then◌else◌, none, some, true, ℕ, ◌%◌, ◌&&◌, ◌+◌, ◌/◌, ◌||◌,
}
use proka_kernel.Paging.{Flags, Tables}

-- What the entries on the way allow: a write needs every writable bit, a user access every user
-- bit, and one no-execute bit forbids execution.
pub record Rights : Type 0 where
  pub writable : Bool
  pub user_accessible : Bool
  pub no_execute : Bool

abbrev pub all_rights : Rights
all_rights = record { writable = true; user_accessible = true; no_execute = false }

abbrev pub narrow : Rights → Flags → Rights
narrow rights flags = record {
  writable = rights.writable && flags.writable;
  user_accessible = rights.user_accessible && flags.user_accessible;
  no_execute = rights.no_execute || flags.no_execute;
}

-- A physical address and the rights to it.
abbrev pub Target : Type 0
Target = ℕ × Rights

unfoldable pub walk_page : Tables → ℕ → ℕ → Rights → Option Target
walk_page tables table va rights =
    let entry = tables table (va / 0x1000 % 512) in
    if entry.flags.present then some (entry.addr + va % 0x1000, narrow rights entry.flags) else none

unfoldable pub walk_directory : Tables → ℕ → ℕ → Rights → Option Target
walk_directory tables table va rights =
    let entry = tables table (va / 0x200000 % 512) in
    if entry.flags.present
    then if entry.flags.huge_page
      then some (entry.addr + va % 0x200000, narrow rights entry.flags)
      else walk_page tables entry.addr va (narrow rights entry.flags)
    else none

unfoldable pub walk_pointers : Tables → ℕ → ℕ → Rights → Option Target
walk_pointers tables table va rights =
    let entry = tables table (va / 0x40000000 % 512) in
    if entry.flags.present
    then if entry.flags.huge_page
      then some (entry.addr + va % 0x40000000, narrow rights entry.flags)
      else walk_directory tables entry.addr va (narrow rights entry.flags)
    else none

-- The walk from the table that CR3 names.
unfoldable pub translate : Tables → ℕ → ℕ → Option Target
translate tables pml4 va =
    let entry = tables pml4 (va / 0x8000000000 % 512) in
    if entry.flags.present
    then walk_pointers tables entry.addr va (narrow all_rights entry.flags)
    else none
