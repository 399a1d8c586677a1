-- ===== src/Syscall/Memory.antt =====
-- arch/src/x86_64/syscall/memory.rs, system call 2: the heap memory of normal processes. Interrupts
-- are off in both calls.
pub mod Ranges
pub mod Mapping
pub mod Calls
pub mod Runnable
pub mod Undo
mod Tests
use proka_kernel.Base.{
  Bool, List, Option, [], add_word, div_ceil, false, if◌then◌else◌, leb, ltb, mul_word, none, set,
  some, sub_word, suc, true, unwrap_or, zero, ℕ, ◌%◌, ◌&&◌, ◌++◌, ◌+◌, ◌-◌, ◌==◌, ◌^◌, ◌||◌, ◌∷◌,
}
use proka_kernel.FrameAlloc.{FrameAlloc, max_of}
use proka_kernel.ArchFrames.{PhysFrames, allocate_frame, deallocate_frame}
use proka_kernel.Process.{Kernel, NormalProcess, Range}
use proka_kernel.Syscall.{negsuc, pos, ℤ}

-- The x86_64 crate's mapper over the tables at a root, with a page given by its address. A failed
-- `map_to` may have taken frames for tables.
pub record Mapper (x : PhysFrames) (S : Type 0) : Type 0 where
  pub map_to : S → ℕ → ℕ → x.PhysFrame → FrameAlloc → Bool × S × FrameAlloc
  pub unmap : S → ℕ → ℕ → Option (x.PhysFrame × S)

abbrev pub page_bytes : ℕ
page_bytes = 4096

-- `VirtAddr::new` panics on an address that is not canonical.
abbrev pub is_canonical : ℕ → Bool
is_canonical a = ltb a (2 ^ 47) || leb (2 ^ 64 - 2 ^ 47) a

-- `Page::containing_address`.
abbrev pub page_of : ℕ → ℕ
page_of a = a - a % page_bytes

-- `addr as i64`.
unfoldable pub as_i64 : ℕ → ℤ
as_i64 a = if ltb a (2 ^ 63) then pos a else negsuc (2 ^ 64 - 1 - a)

abbrev minus : ℕ → ℤ
minus n = negsuc (n - 1)

-- `find(|item| item.table_addr == user_table)`, with the index.
unfoldable pub find_process : List NormalProcess → ℕ → Option (ℕ × NormalProcess)
find_process [] table = none
find_process (p ∷ ps) table =
    if p.table_addr == table
    then some (0, p)
    else elim (find_process ps table) [ none ↦ none | some (i, q) ↦ some (suc i, q) ]

abbrev pub range_ends : List Range → List ℕ
range_ends [] = []
range_ends (r ∷ rs) = r.end ∷ range_ends rs

-- The heap top of a process.
unfoldable pub heap_top : NormalProcess → ℕ
heap_top p = unwrap_or (max_of (range_ends p.heap_range)) 0x180000000

abbrev pub contains : Range → ℕ → Bool
contains r a = leb r.start a && ltb a r.end

-- `enumerate().find(|item| item.1.contains(&addr))`.
pub find_range : List Range → ℕ → Option (ℕ × Range)
find_range [] a = none
find_range (r ∷ rs) a =
    if contains r a
    then some (0, r)
    else elim (find_range rs a) [ none ↦ none | some (i, s) ↦ some (suc i, s) ]

-- `Vec::remove`.
pub remove_at : List Range → ℕ → List Range
remove_at [] i = []
remove_at (r ∷ rs) zero = rs
remove_at (r ∷ rs) (suc i) = r ∷ remove_at rs i

module _ {S : Type 0} (x : PhysFrames) (m : Mapper x S) where
  -- The process tables, the frame allocator and the page tables.
  pub record Memory : Type 0 where
    pub kernel : Kernel
    pub frames : FrameAlloc
    pub tables : S

  -- How the mapping loop ends.
  pub data Mapped : Type 0 where
    mapped failed : Memory → Mapped
    panicked : Mapped

  -- Giving back one page, or nothing where `unmap` fails.
  pub unmap_page : ℕ → ℕ → Memory → Memory
  unmap_page table page s = elim (m.unmap s.tables table page) [
    | none ↦ s
    | some (frame, t) ↦ record s { frames = deallocate_frame x s.frames frame; tables = t }
  ]

  -- The fallback over the pages mapped so far.
  pub unmap_all : ℕ → List ℕ → Memory → Memory
  unfolding unmap_page
  unmap_all table [] s = s
  unmap_all table (page ∷ pages) s = unmap_all table pages (unmap_page table page s)

  -- `for i in i..i + n`.
  unfoldable pub map_pages : ℕ → ℕ → ℕ → ℕ → List ℕ → Memory → Mapped
  unfolding unmap_all
  map_pages table top i zero done s = mapped s
  map_pages table top i (suc n) done s = elim (allocate_frame x s.frames) [
    | none ↦ failed (unmap_all table done s)
    | some (phys, frames) ↦
        let virt = add_word top (mul_word i page_bytes) in
        elim (is_canonical virt) [
          | false ↦ panicked
          | true ↦
              let (fine, t, left) = m.map_to s.tables table (page_of virt) phys frames in
              let after = record s { frames = left; tables = t } in
              elim fine [
                | false ↦ failed (unmap_all table done after)
                | true ↦ map_pages table top (i + 1) n (done ++ page_of virt ∷ []) after
              ]
        ]
  ]

  -- `allocate`; `none` is a panic.
  unfoldable pub allocate : ℕ → ℕ → Memory → Option (ℤ × Memory)
  unfolding as_i64 find_process heap_top map_pages
  allocate table size s =
      if size == 0 then some (minus 16, s) else elim (find_process s.kernel.normals table) [
        | none ↦ some (minus 17, s)
        | some (i, p) ↦
            let top = heap_top p in
            let pages = div_ceil size page_bytes in
            elim (map_pages table top 0 pages [] s) [
              | panicked ↦ none
              | failed t ↦ some (minus 18, t)
              | mapped t ↦
                  let range : Range = record {
                    start = top;
                    end = add_word top (mul_word page_bytes pages);
                  } in
                  some (
                    as_i64 top,
                    record t {
                      kernel = record t.kernel {
                        normals =
                            set t.kernel.normals i
                              (record p { heap_range = p.heap_range ++ range ∷ [] });
                      };
                    },
                  )
            ]
      ]

  -- The loop of `deallocate`; `none` is a panic.
  pub unmap_range : ℕ → ℕ → ℕ → ℕ → Memory → Option Memory
  unfolding unmap_page
  unmap_range table start i zero s = some s
  unmap_range table start i (suc n) s =
      let va = add_word start (mul_word i page_bytes) in
      elim (is_canonical va) [
        | false ↦ none
        | true ↦ unmap_range table start (i + 1) n (unmap_page table (page_of va) s)
      ]

  pub deallocate : ℕ → ℕ → Memory → Option (ℤ × Memory)
  unfolding find_process find_range remove_at unmap_range
  deallocate table a s = elim (find_process s.kernel.normals table) [
    | none ↦ some (minus 16, s)
    | some (i, p) ↦ elim (find_range p.heap_range a) [
      | none ↦ some (minus 17, s)
      | some (idx, r) ↦
          let pages = div_ceil (sub_word r.end r.start) page_bytes in
          elim (unmap_range table r.start 0 pages s) [
            | none ↦ none
            | some t ↦ some (
              pos 0,
              record t {
                kernel = record t.kernel {
                  normals =
                      set t.kernel.normals i (record p { heap_range = remove_at p.heap_range idx });
                };
              },
            )
          ]
    ]
  ]

  -- System call 2, by the type of the request.
  unfoldable pub memory : ℕ → ℕ → ℕ → ℕ → Memory → Option (ℤ × Memory)
  unfolding allocate deallocate
  memory table typ size a s =
      if typ == 0
      then allocate table size s
      else if typ == 1
      then deallocate table a s
      else some (minus 2, s)
