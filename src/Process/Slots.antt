-- ===== src/Process/Slots.antt =====
-- A process table with its run queue, for the normal and the driver processes alike
-- (arch/src/x86_64/process/normal.rs and driver.rs).
use proka_kernel.Base.{
  Bool, Bool-cases, List, Option-cases, [], arith, false, get_elem?, get_elem?-length,
  get_elem?-set_ne, get_elem?-set_self, if◌then◌else◌, inl, inr, length, length-set, none, refl,
  set, some, some_inj, subst, suc, true, zero, ℕ, ℕ_discrete, ◌++◌, ◌+◌, ◌<◌, ◌==◌, ◌∙◌, ◌∷◌, ◌≡◌,
}
use proka_kernel.Process.{first_free, max_ps, retain_ne}

module _ {P : Type 0} (present : P → Bool) where
  -- Whether the entry at an index is in use.
  abbrev pub is_present : List P → ℕ → Bool
  is_present ps i = elim (get_elem? ps i) [ none ↦ false | some p ↦ present p ]

  is_present_out : (ps : List P) (i : ℕ) → ¬ (i < length ps) → is_present ps i ≡ false
  is_present_out ps i h = elim (Option-cases (get_elem? ps i)) [
    | inl e ↦ rw (e, is_present) refl
    | inr (p, e) ↦ absurd (h (get_elem?-length ps i e))
  ]

  pub is_present-set :
      (ps : List P) (i j : ℕ) (p : P)
      → i < length ps
      → is_present (set ps i p) j ≡ (if i == j then present p else is_present ps j)
  is_present-set ps i j p h = elim (ℕ_discrete i j) [
    | yes e ↦
        let same : (i == j) ≡ true = ground arith in
        rw same (
          subst (λ k. is_present (set ps i p) k ≡ present p) e
            (rw (get_elem?-set_self ps i p h, is_present) refl))
    | no d ↦
        let other : (i == j) ≡ false = ground arith in
        rw (other, get_elem?-set_ne ps p d, is_present) refl
  ]

  later :
      (p : P) (ps : List P) {k : ℕ}
      → ((j : ℕ) → j < k → is_present ps j ≡ true)
      → present p ≡ true
      → (j : ℕ) → j < suc k
      → is_present (p ∷ ps) j ≡ true
  later p ps before used zero lo = used
  later p ps before used (suc j) lo = before j (omega arith)

  -- The slot that `first_free` finds is free, in range, and the first such.
  pub first_free-some :
      (ps : List P) (i : ℕ)
      → first_free present ps ≡ some i
      → (i < length ps) × (is_present ps i ≡ false) × ((j : ℕ) → j < i → is_present ps j ≡ true)
  unfolding first_free
  first_free-some [] i h = cc
  first_free-some (p ∷ ps) i h = elim (Bool-cases (present p)) [
    | inr free ↦
        let e : 0 ≡ i = some_inj (rw free at h) in
        subst
          (λ k.
            (k < length (p ∷ ps))
            × (is_present (p ∷ ps) k ≡ false)
            × ((j : ℕ) → j < k → is_present (p ∷ ps) j ≡ true))
          e (omega arith, free, λ j lo. absurd (omega arith))
    | inl used ↦ elim (Option-cases (first_free present ps)) [
      | inl e ↦ cc (rw (used, e, first_free) at h)
      | inr (k, e) ↦
          let f : suc k ≡ i = some_inj (rw (used, e, first_free) at h) in
          let (inside, free, before) = first_free-some ps k e in
          subst
            (λ m.
              (m < length (p ∷ ps))
              × (is_present (p ∷ ps) m ≡ false)
              × ((j : ℕ) → j < m → is_present (p ∷ ps) j ≡ true))
            f (omega arith, free, later p ps before used)
    ]
  ]

  -- None is found only in a full table.
  pub first_free-none :
      (ps : List P) (i : ℕ) → first_free present ps ≡ none → i < length ps → is_present ps i ≡ true
  unfolding first_free
  first_free-none [] i h lo = absurd (omega arith)
  first_free-none (p ∷ ps) i h lo = elim (Bool-cases (present p)) [
    | inr free ↦ cc (rw free at h)
    | inl used ↦ elim (Option-cases (first_free present ps)) [
      | inr (k, e) ↦ cc (rw (used, e, first_free) at h)
      | inl e ↦ later p ps {k = length ps} (λ j below. first_free-none ps j e below) used i lo
    ]
  ]

-- How often an index is queued.
unfoldable pub count : ℕ → List ℕ → ℕ
count i [] = 0
count i (j ∷ q) = (if i == j then 1 else 0) + count i q

pub count-append : (i : ℕ) (q r : List ℕ) → count i (q ++ r) ≡ count i q + count i r
unfolding count
count-append i [] r = omega arith
count-append i (j ∷ q) r = omega (arith, count-append i q r)

count-retain_ne :
    (i j : ℕ) (q : List ℕ) → count i (retain_ne j q) ≡ (if i == j then 0 else count i q)
unfolding count retain_ne
count-retain_ne i j [] = ground arith
count-retain_ne i j (k ∷ q) = ground (arith, count-retain_ne i j q)

-- The table has its fixed size, and the queue holds each process in use once and nothing else.
pub record IsTable {P : Type 0} (present : P → Bool) (ps : List P) (q : List ℕ) : Type 0 where
  pub sized : length ps ≡ max_ps
  pub queued : (i : ℕ) → count i q ≡ (if is_present present ps i then 1 else 0)

module _ {P : Type 0} (present : P → Bool) where
  pub IsTable-add :
      (ps : List P) (q : List ℕ) (i : ℕ) (p : P)
      → IsTable present ps q
      → first_free present ps ≡ some i
      → present p ≡ true
      → IsTable present (set ps i p) (q ++ i ∷ [])
  unfolding count
  IsTable-add ps q i p v h new =
      let (inside, free, _) = first_free-some present ps i h in
      record {
        sized = length-set ps i p ∙ v.sized;
        queued = λ j.
            rw (count-append j q (i ∷ []), is_present-set present ps i j p inside, new)
              (elim (ℕ_discrete i j) [
                | yes e ↦ ground (arith, v.queued i, free)
                | no d ↦ ground (arith, v.queued j)
              ]);
      }

  pub IsTable-remove :
      (ps : List P) (q : List ℕ) (i : ℕ) (p : P)
      → IsTable present ps q
      → i < max_ps
      → present p ≡ false
      → IsTable present (set ps i p) (retain_ne i q)
  IsTable-remove ps q i p v h gone = record {
    sized = length-set ps i p ∙ v.sized;
    queued = λ j.
        rw (count-retain_ne j i q, is_present-set present ps i j p (omega (arith, v.sized)), gone)
          (ground (arith, v.queued j));
  }
