-- ===== src/Paging/Entries.antt =====
-- What the loops of paging.rs leave in each entry.
use proka_kernel.Base.{
  arith, if◌then◌else◌, inl, leb, ltb, refl, suc, zero, ℕ, ◌&&◌, ◌*◌, ◌+◌, ◌-◌, ◌<◌, ◌==◌, ◌≡◌, ◌≢◌,
  ◌≤◌, ◌⊎◌,
}
use proka_kernel.Paging.{Flags, Tables, fill, fill_tables, kernel_phys, set_addr}

pub set_addr_lem :
    (table index addr : ℕ) (flags : Flags) (tables : Tables) (other i : ℕ)
    → set_addr table index addr flags tables other i ≡ (
        if other == table && i == index
        then record { addr = addr; flags = flags }
        else tables other i)
unfolding set_addr
set_addr_lem table index addr flags tables other i = refl

-- `fill` writes the entries of its range and no other.
pub fill_lem :
    (n first table : ℕ) (phys : ℕ → ℕ) (flags : Flags) (tables : Tables) (other i : ℕ)
    → fill n first table phys flags tables other i ≡ (
        if other == table && (leb first i && ltb i (first + n))
        then record { addr = phys i; flags = flags }
        else tables other i)
unfolding set_addr fill
fill_lem zero first table phys flags tables other i = ground arith
fill_lem (suc n) first table phys flags tables other i = ground (
  arith,
  fill_lem n (suc first) table phys flags (set_addr table first (phys first) flags tables) other i,
)

-- A table that the round writes to neither keeps its entries.
fill_outside :
    (n first table : ℕ) (phys : ℕ → ℕ) (flags : Flags) (tables : Tables) (other i : ℕ)
    → other ≢ table
    → fill n first table phys flags tables other i ≡ tables other i
fill_outside n first table phys flags tables other i h =
    ground (arith, fill_lem n first table phys flags tables other i)

module _ (directory : ℕ) (flags : Flags) where
  pub fill_tables_next :
      (n i_pdt current : ℕ) (tables : Tables)
      → (fill_tables n i_pdt directory current flags tables).1 ≡ current + n * 0x1000
  unfolding fill_tables
  fill_tables_next zero i_pdt current tables = omega arith
  fill_tables_next (suc n) i_pdt current tables = omega (
    arith,
    fill_tables_next n (suc i_pdt) (current + 0x1000) (
        set_addr directory i_pdt current flags
          (fill 512 0 current (kernel_phys i_pdt) flags tables)),
  )

  pub fill_tables_other :
      (n i_pdt current : ℕ) (tables : Tables) (other i : ℕ)
      → other ≢ directory
      → (other < current) ⊎ (current + n * 0x1000 ≤ other)
      → (fill_tables n i_pdt directory current flags tables).0 other i ≡ tables other i
  unfolding set_addr fill_tables
  fill_tables_other zero i_pdt current tables other i h out = refl
  fill_tables_other (suc n) i_pdt current tables other i h out =
      let filled = fill 512 0 current (kernel_phys i_pdt) flags tables in
      ground (
        arith,
        fill_outside 512 0 current (kernel_phys i_pdt) flags tables other i,
        fill_tables_other n (suc i_pdt) (current + 0x1000)
            (set_addr directory i_pdt current flags filled) other i,
      )

  -- The directory names the new tables in order.
  pub fill_tables_directory :
      (n i_pdt current : ℕ) (tables : Tables) (i : ℕ)
      → directory < current
      → (fill_tables n i_pdt directory current flags tables).0 directory i ≡ (
          if leb i_pdt i && ltb i (i_pdt + n)
          then record { addr = current + (i - i_pdt) * 0x1000; flags = flags }
          else tables directory i)
  unfolding set_addr fill_tables
  fill_tables_directory zero i_pdt current tables i h = ground arith
  fill_tables_directory (suc n) i_pdt current tables i h =
      let filled = fill 512 0 current (kernel_phys i_pdt) flags tables in
      ground (
        arith,
        fill_outside 512 0 current (kernel_phys i_pdt) flags tables directory i,
        fill_tables_directory n (suc i_pdt) (current + 0x1000)
            (set_addr directory i_pdt current flags filled) i,
      )

  -- New table number `at` holds the frames of its 2 MiB of the image.
  pub fill_tables_page :
      (n i_pdt current : ℕ) (tables : Tables) (at i : ℕ)
      → directory < current
      → at < n
      → i < 512
      → (fill_tables n i_pdt directory current flags tables).0 (current + at * 0x1000) i
        ≡ record { addr = kernel_phys (i_pdt + at) i; flags = flags }
  unfolding set_addr fill_tables
  fill_tables_page zero i_pdt current tables at i h a b = absurd (omega arith)
  fill_tables_page (suc n) i_pdt current tables zero i h a b =
      let filled = fill 512 0 current (kernel_phys i_pdt) flags tables in
      let kept =
        fill_tables_other n (suc i_pdt) (current + 0x1000)
          (set_addr directory i_pdt current flags filled) current i (omega arith)
          (inl (omega arith)) in
      ground (arith, kept, fill_lem 512 0 current (kernel_phys i_pdt) flags tables current i)
  fill_tables_page (suc n) i_pdt current tables (suc at) i h a b =
      let filled = fill 512 0 current (kernel_phys i_pdt) flags tables in
      let rest =
        fill_tables_page n (suc i_pdt) (current + 0x1000)
          (set_addr directory i_pdt current flags filled) at i (omega arith) (omega arith) b in
      ground (arith, rest)
