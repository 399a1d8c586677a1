-- ===== src/FrameAlloc.antt =====
-- core/src/memory/framealloc.rs, the bitmap allocator of physical frames. A method that takes
-- `&mut self` returns the new record. `usize` wraps at 2 ^ 64, as in the release profile.
pub mod Bits
pub mod Marks
pub mod Scan
pub mod Allocation
pub mod Release
pub mod BootMarks
pub mod Boot
mod Tests
use proka_kernel.Base.{
  Bool, List, Option, [], add_word, bit_and, bit_or, div_ceil, false, get_elem?, if◌then◌else◌, leb,
  ltb, none, replicate, set, some, suc, true, zero, ℕ, ◌%◌, ◌+◌, ◌-◌, ◌/◌, ◌==◌, ◌^◌, ◌∷◌,
}

abbrev pub page_size : ℕ
page_size = 4096

pub record FrameAlloc : Type 0 where
  pub bitmap : List ℕ
  pub max_page : ℕ
  pub reserved : ℕ
  pub self_used_page : ℕ
  pub pos : ℕ

-- `(byte >> k) & 1`.
unfoldable pub read_bit : ℕ → ℕ → ℕ
read_bit b k = b / 2 ^ k % 2

-- The three arms of the `match value` on a `u8`, where `!(1 << k)` is `255 - 2 ^ k`.
unfoldable pub write_bit : ℕ → ℕ → ℕ → ℕ
write_bit b k zero = bit_and b (255 - 2 ^ k)
write_bit b k (suc zero) = bit_or b (2 ^ k)
write_bit b k (suc (suc v)) = b

-- `bitmap[byte_idx]` is out of range exactly where `byte_idx >= bitmap.len()`.
unfoldable pub set_bit : FrameAlloc → ℕ → ℕ → FrameAlloc
set_bit a pfn value = elim (get_elem? a.bitmap (pfn / 8)) [
  | none ↦ a
  | some b ↦ record a { bitmap = set a.bitmap (pfn / 8) (write_bit b (pfn % 8) value) }
]

unfoldable pub get_bit : FrameAlloc → ℕ → ℕ
get_bit a pfn = elim (get_elem? a.bitmap (pfn / 8)) [ none ↦ 1 | some b ↦ read_bit b (pfn % 8) ]

-- `for i in i..i + n { self.set_bit(start + i, value) }`.
unfoldable pub set_run : FrameAlloc → ℕ → ℕ → ℕ → ℕ → FrameAlloc
set_run a start i zero value = a
set_run a start i (suc n) value = set_run (set_bit a (add_word start i) value) start (i + 1) n value

-- The inner loop of the scanner, from index `i` on with `n` rounds left: whether it keeps `ok`.
unfoldable pub run_is_free : FrameAlloc → ℕ → ℕ → ℕ → Bool
run_is_free a cur i zero = true
run_is_free a cur i (suc n) =
    let rest = run_is_free a cur (i + 1) n in
    if get_bit a (add_word cur i) == 1 then false else rest

-- The closure `scan`, on fuel. `(cur + n) % 2 ^ 64` grows by one in each round and the loop ends
-- once it is over `max_page`, so the rounds up to `max_page + 1` are enough.
unfoldable pub scan : ℕ → FrameAlloc → ℕ → ℕ → Option ℕ
scan zero a n cur = none
scan (suc fuel) a n cur =
    let rest = scan fuel a n (add_word cur 1) in
    if leb (add_word cur n) a.max_page
    then (if run_is_free a cur 0 n then some cur else rest)
    else none

-- `scan(self.pos).or_else(|| scan(self.reserved))`.
unfoldable pub find_run : FrameAlloc → ℕ → Option ℕ
find_run a n = elim (scan (a.max_page + 2) a n a.pos) [
  | some s ↦ some s
  | none ↦ scan (a.max_page + 2) a n a.reserved
]

unfoldable pub allocate_contiguous : FrameAlloc → ℕ → Option (ℕ × FrameAlloc)
allocate_contiguous a n = elim (find_run a n) [
  | none ↦ none
  | some start ↦ let b = set_run a start 0 n 1 in some (start, record b { pos = add_word b.pos n })
]

pub deallocate_contiguous : FrameAlloc → ℕ → ℕ → FrameAlloc
deallocate_contiguous a pfn n =
    if leb pfn (add_word a.reserved a.self_used_page) then a else set_run a pfn 0 n 0

-- An entry of the boot memory map. What kinds of memory there are is the boot loader's.
pub record MemoryDesc (T : Type 0) : Type 0 where
  pub base_addr : ℕ
  pub length : ℕ
  pub mem_type : T

-- `Iterator::max`, whose `unwrap` panics on no entry.
unfoldable pub max_of : List ℕ → Option ℕ
max_of [] = none
max_of (x ∷ xs) = elim (max_of xs) [ none ↦ some x | some m ↦ some (if ltb x m then m else x) ]

-- `is_free` is the test `mem_type == MemoryType::FreeRAM`.
module _ {T : Type 0} (is_free : T → Bool) where
  unfoldable pub free_ends : List (MemoryDesc T) → List ℕ
  free_ends [] = []
  free_ends (d ∷ ds) =
      if is_free d.mem_type then add_word d.base_addr d.length ∷ free_ends ds else free_ends ds

  -- `for pfn in start_pfn..start_pfn + count { self.set_bit(pfn, 1) }` for each other entry.
  unfoldable pub mark_unavailable : FrameAlloc → List (MemoryDesc T) → FrameAlloc
  mark_unavailable a [] = a
  mark_unavailable a (d ∷ ds) =
      let start = div_ceil d.base_addr page_size in
      let count = div_ceil d.length page_size in
      mark_unavailable
        (if is_free d.mem_type then a else set_run a start 0 (add_word start count - start) 1) ds

  -- `none` is the panic of a map with no free memory. The bitmap is the slice at `bitmap_base`,
  -- which nothing else of the model touches, filled with zeros.
  unfoldable pub init : List (MemoryDesc T) → ℕ → Option FrameAlloc
  unfolding free_ends mark_unavailable
  init entries reserved_pages = elim (max_of (free_ends entries)) [
    | none ↦ none
    | some max_phys_addr ↦
        let max_page = div_ceil max_phys_addr page_size in
        let bitmap_bytes = div_ceil max_page 8 in
        let self_used = div_ceil bitmap_bytes page_size in
        let blank : FrameAlloc = record {
          bitmap = replicate bitmap_bytes 0;
          max_page = max_page;
          reserved = reserved_pages;
          self_used_page = self_used;
          pos = 0;
        } in
        let a = mark_unavailable blank entries in
        let b = set_run a 0 0 reserved_pages 1 in
        let c = set_run b reserved_pages 0 (add_word reserved_pages self_used - reserved_pages) 1 in
        some (record c { pos = add_word reserved_pages self_used })
  ]
