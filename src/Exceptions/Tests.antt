-- ===== src/Exceptions/Tests.antt =====
-- The page fault of a driver, and the laws of the handlers at concrete inputs.
use proka_kernel.Base.{Bool, Option, none, refl, true, ℕ, ◌≡◌}
use proka_kernel.Exceptions.Locks.{find_enumerated}
use proka_kernel.Exceptions.PageFault.{
  Fails, driver_fault, is_known, pagefault, pagefault-stuck, panicked,
}
use proka_kernel.Paging.{Flags}
use proka_kernel.Process.{boot}
use proka_kernel.Process.Tables.{boot-IsConsistent}

abbrev no_frames : ℕ → Option (ℕ × ℕ)
no_frames frames = none

abbrev map_nothing : ℕ → ℕ → ℕ → ℕ → Flags → ℕ → Bool × ℕ × ℕ
map_nothing tables pml4 page frame flags frames = (true, tables, frames)

-- No process has the page table at 0x7000.
unknown_table :
    pagefault no_frames map_nothing (record boot { is_driver = true }) 0x7000 0x1000 0 0 ≡ panicked
unfolding pagefault driver_fault boot find_enumerated
unknown_table = refl

pagefault-stuck_example :
    Fails no_frames map_nothing boot
      (is_known no_frames map_nothing boot 0)
      (pagefault no_frames map_nothing boot 0 0x1000 0 0)
pagefault-stuck_example = pagefault-stuck no_frames map_nothing boot 0 0x1000 0 0 boot-IsConsistent
