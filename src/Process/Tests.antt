-- ===== src/Process/Tests.antt =====
-- The process tables of arch/src/x86_64/process after boot.
use proka_kernel.Base.{[], arith, false, get_elem?, refl, set, some, true, ℕ, ◌*◌, ◌+◌, ◌∷◌, ◌≡◌}
use proka_kernel.Process.{
  Kernel, Selectors, boot, create_driver, create_driver_process, create_normal,
  create_normal_process, first_free, normal, ok, remove, remove_normal, retain_ne,
}
use proka_kernel.Process.Tables.{Creates, IsConsistent, boot-IsConsistent, create_normal-Creates}
use proka_kernel.Process.Removal.{Outcome, remove-Outcome}
use proka_kernel.Process.Loading.{Request, SectionData, load_requests, load_requests-overlap}

abbrev selectors : Selectors
selectors = record { kernel_code = 8; kernel_data = 16; user_code = 43; user_data = 35; tss = 48 }

-- One normal process with its page table at 0x5000.
abbrev one_normal : Kernel
one_normal = record boot {
  normals = set boot.normals 0 (create_normal_process selectors 0x5000 1 0x100000);
  normal_queue = 0 ∷ [];
}

abbrev one_driver : Kernel
one_driver = record boot {
  drivers = set boot.drivers 0 (create_driver_process selectors 0x6000 0x100000);
  driver_queue = 0 ∷ [];
}

one_normal-run : create_normal selectors boot 0x5000 1 ≡ some one_normal
unfolding create_normal boot first_free
one_normal-run = refl

one_driver-run : create_driver selectors boot 0x6000 ≡ some one_driver
unfolding create_driver boot first_free
one_driver-run = refl

one_normal-made :
    (id : ℕ) × Creates boot normal id one_normal
    × (get_elem? one_normal.normals id ≡ some (create_normal_process selectors 0x5000 1 0x100000))
one_normal-made =
    create_normal-Creates selectors boot one_normal 0x5000 1 boot-IsConsistent one_normal-run

one_normal-IsConsistent : IsConsistent one_normal
one_normal-IsConsistent = one_normal-made.1.consistent

-- The same after its process has been removed.
abbrev none_left : Kernel
none_left = record one_normal {
  normals =
      set one_normal.normals 0
        (record (create_normal_process selectors 0x5000 1 0x100000) { present = false });
  normal_queue = [];
}

none_left-run : remove one_normal normal 0 ≡ ok none_left
unfolding remove remove_normal boot retain_ne create_normal_process
none_left-run = refl

remove-Outcome_example : Outcome one_normal normal 0 (remove one_normal normal 0)
remove-Outcome_example = remove-Outcome one_normal normal 0 one_normal-IsConsistent

-- Two sections of two pages each.
abbrev code : SectionData
code = record { addr = 0x3000000; pages = 2; executable = true }

abbrev data_section : SectionData
data_section = record { addr = 0x3002000; pages = 2; executable = false }

load_requests-overlap_example :
    (a : Request) × (b : Request) × (get_elem? (load_requests normal 0 (code ∷ data_section ∷ [])) 1
      ≡ some a)
    × (get_elem? (load_requests normal 0 (code ∷ data_section ∷ [])) 2 ≡ some b)
    × (a.virt_addr ≡ 0x200000 + (1 + 1) * 0x1000)
    × (b.virt_addr ≡ a.virt_addr)
load_requests-overlap_example =
    load_requests-overlap normal code data_section 1 [] (omega arith) (omega arith) (omega arith)
      (omega arith)
