-- ===== src/Memory/Ranges.antt =====
-- What `init` of arch/src/x86_64/memory/mod.rs maps onto itself.
use proka_kernel.Base.{
  >>=-some, Bool, Bool-cases, List, ap, arith, if◌then◌else◌, inl, inr, leb, ltb, some, some_inj,
  suc, sym, zero, ℕ, ◌&&◌, ◌*◌, ◌+◌, ◌-◌, ◌/◌, ◌==◌, ◌||◌, ◌∙◌, ◌≡◌, ◌≢◌,
}
use proka_kernel.Paging.{Flags, huge_flags, present_flags}
use proka_kernel.Memory.{
  HugeMapper, MapEntry, device_flags, failed, huge_frame, init_maps, map_frame, map_frames,
  protect_pages, total_ram,
}

-- The documented effect of the mapper on the 2 MiB pages that are mapped: a call that does not
-- fail leaves its own page mapped, and no other changes; a change of flags maps nothing.
pub record MapsFrames {S : Type 0} (mapper : HugeMapper S) (holds : S → ℕ → Bool) : Type 0 where
  pub after_map :
      (s : S) (frame : ℕ) (flags : Flags) (other : ℕ)
      → (mapper.identity_map s frame flags).1 ≢ failed
      → holds (mapper.identity_map s frame flags).0 other ≡ holds s other || (other == frame)
  pub after_update :
      (s s' : S) (page : ℕ) (flags : Flags) (other : ℕ)
      → mapper.update_flags s page flags ≡ some s'
      → holds s' other ≡ holds s other

-- The free memory that the boot information names, in bytes.
abbrev pub free_ram : List MapEntry → ℕ
free_ram entries = (total_ram entries).1

-- The frames that `init` is to map: the devices' 16 MiB, and what of the free memory's amount
-- lies above the first GiB.
abbrev pub is_init_range : List MapEntry → ℕ → Bool
is_init_range entries frame =
    (leb 0xfe000000 frame && ltb frame 0xff000000)
    || (leb 0x40000000 frame && leb (frame + 0x200000) (free_ram entries))

module _ {S : Type 0} (mapper : HugeMapper S) (holds : S → ℕ → Bool)
    (maps : MapsFrames mapper holds) where
  pub map_frame_lem :
      (s s' : S) (addr : ℕ) (flags : Flags) (other : ℕ)
      → map_frame mapper s addr flags ≡ some s'
      → holds s' other ≡ holds s other || (other == huge_frame addr)
  map_frame_lem s s' addr flags other e =
      ground (arith, maps.after_map s (huge_frame addr) flags other, e)

  map_frames_lem :
      (n first : ℕ) (flags : Flags) (s s' : S) (k : ℕ)
      → map_frames mapper n (first * 0x200000) flags s ≡ some s'
      → holds s' (k * 0x200000) ≡ holds s (k * 0x200000) || (leb first k && ltb k (first + n))
  unfolding map_frames
  map_frames_lem zero first flags s s' k e = ground (arith, e)
  map_frames_lem (suc n) first flags s s' k e =
      let (between, one, others) = >>=-some (map_frame mapper s (first * 0x200000) flags) _ e in
      let next : first * 0x200000 + 0x200000 ≡ suc first * 0x200000 = omega arith in
      let rest = map_frames_lem n (suc first) flags between s' k (rw (sym next) others) in
      let here = map_frame_lem s between (first * 0x200000) flags (k * 0x200000) one in
      ground (arith, rest, here)

  protect_pages_lem :
      (n addr : ℕ) (flags : Flags) (s s' : S) (other : ℕ)
      → protect_pages mapper n addr flags s ≡ some s'
      → holds s' other ≡ holds s other
  unfolding protect_pages
  protect_pages_lem zero addr flags s s' other e = ap (λ (t : S). holds t other) (sym (some_inj e))
  protect_pages_lem (suc n) addr flags s s' other e =
      let (between, one, others) = >>=-some (mapper.update_flags s addr flags) _ e in
      protect_pages_lem n (addr + 0x1000) flags between s' other others
      ∙ maps.after_update s between addr flags other one

  remaining_lem :
      (total : ℕ) (s s' : S) (k : ℕ)
      → (if leb total 0x40000000
          then some s
          else map_frames mapper ((total - 0x40000000) / 0x200000) 0x40000000 huge_flags s)
        ≡ some s'
      → holds s' (k * 0x200000)
        ≡ holds s (k * 0x200000)
          || (leb 0x40000000 (k * 0x200000) && leb (k * 0x200000 + 0x200000) total)
  remaining_lem total s s' k e = elim (Bool-cases (leb total 0x40000000)) [
    | inl small ↦ ground (arith, e, small)
    | inr large ↦
        (let frames =
            map_frames_lem ((total - 0x40000000) / 0x200000) 0x200 huge_flags s s' k
              (rw large at e) in
          ground (arith, frames, large))
  ]

  -- When `init` returns, a 2 MiB frame is mapped exactly if it was before, belongs to the devices'
  -- range, or lies above the first GiB and ends below the amount of free memory: where the memory
  -- has holes, free memory above that amount stays unmapped.
  pub init_maps_lem :
      (entries : List MapEntry) (s s' : S) (k : ℕ)
      → init_maps mapper entries s ≡ some s'
      → holds s' (k * 0x200000) ≡ holds s (k * 0x200000) || is_init_range entries (k * 0x200000)
  unfolding init_maps
  init_maps_lem entries s s' k e =
      let (protected, first, e1) = >>=-some (protect_pages mapper 16 0x10000 present_flags s) _ e in
      let (devices, second, e2) =
        >>=-some (map_frames mapper 8 0xfe000000 device_flags protected) _ e1 in
      let kept = protect_pages_lem 16 0x10000 present_flags s protected (k * 0x200000) first in
      let added = map_frames_lem 8 0x7f0 device_flags protected devices k second in
      let above = remaining_lem (free_ram entries) devices s' k e2 in
      ground (arith, kept, added, above)
