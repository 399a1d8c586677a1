-- ===== src/Memory/Copy.antt =====
-- What `copy_buffer_to_kernel` of arch/src/x86_64/memory/mod.rs returns.
use proka_kernel.Base.{
  >>=-some, Bool, Bool-cases, List, Option, Option-cases, [], add_word, ap, arith, get_elem?,
  get_elem?-append_left, get_elem?-append_right, inl, inr, length, length-append, ltb, none, refl,
  some, some_inj, suc, sym, true, word, zero, ℕ, ◌%◌, ◌*◌, ◌++◌, ◌+◌, ◌-◌, ◌/◌, ◌<◌, ◌>>=◌, ◌∙◌,
  ◌≡◌, ◌≢◌, ◌≤◌,
}
use proka_kernel.Memory.{copy_buffer_to_kernel, copy_pages, slice}

module _ {A : Type 0} (translate_page : ℕ → Option ℕ) (is_canonical : ℕ → Bool)
    (read_value : ℕ → A) where
  -- One byte of the user's memory.
  abbrev pub user_byte : ℕ → Option A
  user_byte va =
      translate_page (va / 0x1000 * 0x1000) >>= λ frame. some (read_value (frame + va % 0x1000))

  length-slice : (n addr : ℕ) → length (slice 1 read_value n addr) ≡ n
  unfolding slice
  length-slice zero addr = refl
  length-slice (suc n) addr = ap suc (length-slice n (addr + 1))

  get_elem?-slice :
      (n addr i : ℕ)
      → i < n
      → get_elem? (slice 1 read_value n addr) i ≡ some (read_value (addr + i))
  unfolding slice
  get_elem?-slice zero addr i h = absurd (omega arith)
  get_elem?-slice (suc n) addr zero h = ap (λ (a : ℕ). some (read_value a)) (omega arith)
  get_elem?-slice (suc n) addr (suc i) h =
      get_elem?-slice n (addr + 1) i (omega arith)
      ∙ ap (λ (a : ℕ). some (read_value a)) (omega arith)

  abbrev copied : ℕ → ℕ → Option (List A)
  copied = copy_pages translate_page is_canonical 1 read_value

  -- One round of a copy that succeeds.
  copied_round :
      (n addr : ℕ) (buf : List A)
      → copied (suc n) addr ≡ some buf
      → (frame : ℕ) × (rest : List A) × (translate_page (addr / 0x1000 * 0x1000) ≡ some frame)
        × (copied n (add_word addr 0x1000) ≡ some rest)
        × (slice 1 read_value 4096 frame ++ rest ≡ buf)
  unfolding copy_pages
  copied_round n addr buf e = elim (Bool-cases (is_canonical addr)) [
    | inr bad ↦ absurd (ground (arith, bad, e))
    | inl good ↦
        (let (frame, found, e1) =
            >>=-some (translate_page (addr / 0x1000 * 0x1000)) _ (rw good at e) in
          let (rest, copied_rest, e2) = >>=-some (copied n (add_word addr 0x1000)) _ e1 in
          (frame, rest, found, copied_rest, some_inj e2))
  ]

  length-copy_pages : (n addr : ℕ) (buf : List A) → copied n addr ≡ some buf → length buf ≡ n * 4096
  unfolding copy_pages
  length-copy_pages zero addr buf e = ap length (sym (some_inj e))
  length-copy_pages (suc n) addr buf e =
      let (frame, rest, found, copied_rest, whole) = copied_round n addr buf e in
      let parts = length-append (slice 1 read_value 4096 frame) rest in
      let front = length-slice 4096 frame in
      let back = length-copy_pages n (add_word addr 0x1000) rest copied_rest in
      omega (arith, ap length whole, parts, front, back)

  user_byte_lem :
      (page frame i : ℕ)
      → translate_page (page * 0x1000) ≡ some frame
      → i < 0x1000
      → user_byte (page * 0x1000 + i) ≡ some (read_value (frame + i))
  user_byte_lem page frame i found h =
      let at : (page * 0x1000 + i) / 0x1000 ≡ page = omega arith in
      let offset : (page * 0x1000 + i) % 0x1000 ≡ i = omega arith in rw at (rw offset (rw found))

  get_elem?-copy_pages :
      (n addr : ℕ) (buf : List A)
      → copied n addr ≡ some buf
      → addr + n * 0x1000 ≤ word
      → (i : ℕ) → i < n * 4096
      → get_elem? buf i ≡ user_byte (addr / 0x1000 * 0x1000 + i)
  get_elem?-copy_pages zero addr buf e fits i h = absurd (omega arith)
  get_elem?-copy_pages (suc n) addr buf e fits i h =
      let (frame, rest, found, copied_rest, whole) = copied_round n addr buf e in
      let front = slice 1 read_value 4096 frame in
      let known = length-slice 4096 frame in
      let base = addr / 0x1000 * 0x1000 in
      elim (Bool-cases (ltb i 4096)) [
        | inl near ↦
            (let at = get_elem?-append_left front rest i (ground (arith, known, near)) in
              let byte = get_elem?-slice 4096 frame i (ground (arith, near)) in
              let user = user_byte_lem (addr / 0x1000) frame i found (ground (arith, near)) in
              ap (λ (l : List A). get_elem? l i) (sym whole) ∙ at ∙ byte ∙ sym user)
        | inr far ↦
            (let beyond : 4096 ≤ i = ground (arith, far) in
              let at = get_elem?-append_right front rest (i - 4096) in
              let index : length front + (i - 4096) ≡ i = omega (arith, known, beyond) in
              let next : add_word addr 0x1000 ≡ addr + 0x1000 = omega (arith, beyond) in
              let later =
                get_elem?-copy_pages n (addr + 0x1000) rest (ap (copied n) (sym next) ∙ copied_rest)
                  (omega arith) (i - 4096) (omega (arith, beyond)) in
              let place : (addr + 0x1000) / 0x1000 * 0x1000 + (i - 4096) ≡ base + i =
                omega (arith, beyond) in
              ap (λ (l : List A). get_elem? l i) (sym whole)
              ∙ ap (get_elem? (front ++ rest)) (sym index)
              ∙ at
              ∙ later
              ∙ ap user_byte place)
      ]

  -- A copy that succeeds, of `size` bytes from `user_buf_base` on, has 4096 values for each started
  -- page; value number `i` is the byte of the user's memory `i` bytes after the start of the page
  -- of `user_buf_base`.
  pub copy_buffer_to_kernel-user_byte :
      (user_buf_base size : ℕ) (buf : List A)
      → copy_buffer_to_kernel translate_page is_canonical 1 read_value user_buf_base size ≡ some buf
      → user_buf_base + size + 0xfff < word
      → (length buf ≡ (size + 0xfff) / 0x1000 * 4096)
        × ((i : ℕ)
            → i < length buf
            → get_elem? buf i ≡ user_byte (user_buf_base / 0x1000 * 0x1000 + i))
  unfolding copy_buffer_to_kernel
  copy_buffer_to_kernel-user_byte user_buf_base size buf e fits =
      let pages : add_word size 0xfff / 0x1000 ≡ (size + 0xfff) / 0x1000 = omega arith in
      let count = length-copy_pages (add_word size 0xfff / 0x1000) user_buf_base buf e in
      (
        omega (arith, pages, count),
        λ i h.
            get_elem?-copy_pages (add_word size 0xfff / 0x1000) user_buf_base buf e
              (omega (arith, pages)) i (omega (arith, count)),
      )

  -- Every page of the range translates.
  pub Translates : ℕ → ℕ → Type 0
  Translates zero addr = Unit {0}
  Translates (suc n) addr =
      (is_canonical addr ≡ true)
      × (translate_page (addr / 0x1000 * 0x1000) ≢ none)
      × Translates n (add_word addr 0x1000)

  -- A copy succeeds if every page that it takes is canonical and mapped.
  copy_pages-total : (n addr : ℕ) → Translates n addr → (buf : List A) × (copied n addr ≡ some buf)
  unfolding copy_pages Translates
  copy_pages-total zero addr t = ([], refl)
  copy_pages-total (suc n) addr (good, found, others) =
      let (rest, copied_rest) = copy_pages-total n (add_word addr 0x1000) others in
      elim (Option-cases (translate_page (addr / 0x1000 * 0x1000))) [
        | inl missing ↦ absurd (found missing)
        | inr (frame, at) ↦
            (slice 1 read_value 4096 frame ++ rest, rw good (rw at (rw copied_rest)))
      ]
