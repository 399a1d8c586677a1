-- ===== src/Process/Loading.antt =====
-- The loop of `create` in arch/src/x86_64/process/mod.rs that puts a program's sections into its
-- page table: what it asks the mapper for, in order, as long as no request fails.
use proka_kernel.Base.{
  Bool, List, [], add_word, ap, arith, false, get_elem?, length, mul_word, not, refl, some, suc,
  sym, true, word, zero, ℕ, ◌*◌, ◌++◌, ◌+◌, ◌<◌, ◌^◌, ◌∙◌, ◌∷◌, ◌≡◌,
}
use proka_kernel.Process.{ProcType, driver, normal}

-- `SectionData`.
pub record SectionData : Type 0 where
  pub addr : ℕ
  pub pages : ℕ
  pub executable : Bool

-- A call of `map_to`: the addresses of the page and of the frame, and the flags besides `PRESENT`.
pub record Request : Type 0 where
  pub virt_addr : ℕ
  pub phys_addr : ℕ
  pub writable : Bool
  pub no_execute : Bool
  pub user_accessible : Bool

abbrev pub is_normal : ProcType → Bool
is_normal normal = true
is_normal driver = false

-- The request of page `i` of a section, with the page counter at `current_page`.
pub request : ProcType → SectionData → ℕ → ℕ → Request
request proctype info current_page i = record {
  virt_addr = add_word 0x200000 (mul_word (add_word current_page i) 0x1000);
  phys_addr = add_word info.addr (mul_word i 0x1000);
  writable = not info.executable;
  no_execute = not info.executable;
  user_accessible = is_normal proctype;
}

-- `for i in i..i + n`, with the counter, which each round increases.
pub section_requests : ProcType → SectionData → ℕ → ℕ → ℕ → List Request
unfolding request
section_requests proctype info current_page i zero = []
section_requests proctype info current_page i (suc n) =
    request proctype info current_page i
    ∷ section_requests proctype info (add_word current_page 1) (i + 1) n

-- `for info in section_info`.
unfoldable pub load_requests : ProcType → ℕ → List SectionData → List Request
unfolding section_requests
load_requests proctype current_page [] = []
load_requests proctype current_page (info ∷ rest) =
    section_requests proctype info current_page 0 info.pages
    ++ load_requests proctype (add_word current_page info.pages) rest

section_request-at :
    (t : ProcType) (s : SectionData) (c i n k : ℕ)
    → k < n
    → c + n < word
    → get_elem? (section_requests t s c i n) k ≡ some (request t s (c + k) (i + k))
unfolding section_requests
section_request-at t s c i zero k h fits = absurd (omega arith)
section_request-at t s c i (suc n) zero h fits =
    let e : c ≡ c + 0 = omega arith in
    let f : i ≡ i + 0 = omega arith in
    ap (λ (r : Request). some r) (ap (λ (a : ℕ). request t s a i) e ∙ ap (request t s (c + 0)) f)
section_request-at t s c i (suc n) (suc k) h fits =
    let next : add_word c 1 ≡ c + 1 = omega arith in
    let e : c + 1 + k ≡ c + suc k = omega arith in
    let f : i + 1 + k ≡ i + suc k = omega arith in
    rw next (
      section_request-at t s (c + 1) (i + 1) n k (omega arith) (omega arith)
      ∙ ap (λ (r : Request). some r)
          (ap (λ (a : ℕ). request t s a (i + 1 + k)) e ∙ ap (request t s (c + suc k)) f))

length-section_requests :
    (t : ProcType) (s : SectionData) (c i n : ℕ) → length (section_requests t s c i n) ≡ n
unfolding section_requests
length-section_requests t s c i zero = refl
length-section_requests t s c i (suc n) =
    ap suc (length-section_requests t s (add_word c 1) (i + 1) n)

get_elem?-append_left {ℓ} :
    {A : Type ℓ} (xs ys : List A) (k : ℕ) → k < length xs → get_elem? (xs ++ ys) k ≡ get_elem? xs k
get_elem?-append_left [] ys k h = absurd (omega arith)
get_elem?-append_left (x ∷ xs) ys zero h = refl
get_elem?-append_left (x ∷ xs) ys (suc k) h = get_elem?-append_left xs ys k (omega arith)

get_elem?-append_right {ℓ} :
    {A : Type ℓ} (xs ys : List A) → get_elem? (xs ++ ys) (length xs) ≡ get_elem? ys 0
get_elem?-append_right [] ys = refl
get_elem?-append_right (x ∷ xs) ys = get_elem?-append_right xs ys

-- Where the first section of a program has an even number of pages, not zero, and another section
-- follows that is not empty, with fewer than 2 ^ 40 pages in both together, two requests are for the same page: that of the first section's middle page, and that of
-- the second section's first page.
pub load_requests-overlap :
    (t : ProcType) (first second : SectionData) (half : ℕ) (rest : List SectionData)
    → first.pages ≡ half + half
    → 0 < half
    → 0 < second.pages
    → first.pages + second.pages < 2 ^ 40
    → (a : Request) × (b : Request) × (get_elem? (load_requests t 0 (first ∷ second ∷ rest)) half
        ≡ some a)
      × (get_elem? (load_requests t 0 (first ∷ second ∷ rest)) first.pages ≡ some b)
      × (a.virt_addr ≡ 0x200000 + (half + half) * 0x1000)
      × (b.virt_addr ≡ a.virt_addr)
unfolding load_requests request
load_requests-overlap t first second half rest even some_pages more small =
    let one = section_requests t first 0 0 first.pages in
    let two = load_requests t (add_word 0 first.pages) (second ∷ rest) in
    let len = length-section_requests t first 0 0 first.pages in
    let start = add_word 0 first.pages in
    let head = section_request-at t second start 0 second.pages 0 more (omega arith) in
    (
      request t first (0 + half) (0 + half),
      request t second (start + 0) (0 + 0),
      get_elem?-append_left one two half (omega (arith, len))
          ∙ section_request-at t first 0 0 first.pages half (omega arith) (omega arith),
      ap (get_elem? (one ++ two)) (sym len)
          ∙ get_elem?-append_right one two
          ∙ get_elem?-append_left (section_requests t second start 0 second.pages)
              (load_requests t (add_word start second.pages) rest) 0
              (omega (arith, length-section_requests t second start 0 second.pages))
          ∙ head,
      omega arith,
      omega arith,
    )
