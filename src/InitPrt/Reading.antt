-- ===== src/InitPrt/Reading.antt =====
-- The laws of `read` of src/initprt.rs.
use proka_kernel.Base.{
  Bool-cases, List, [], ap, arith, drop, inl, inr, leb, length, length-append, length-drop,
  length-take, min, refl, suc, sym, take, zero, ℕ, ◌++◌, ◌+◌, ◌-◌, ◌∙◌, ◌∷◌, ◌≡◌, ◌≤◌,
}
use proka_kernel.InitPrt.{InitprtReader, init_reader, initprt_length, is_eof, read}

-- What `init` and every operation keep: the partition's length, and a position inside it.
pub record IsReader (reader : InitprtReader) : Type 0 where
  pub whole : length reader.bytes ≡ initprt_length
  pub inside : reader.pos ≤ initprt_length

pub init_reader-IsReader :
    (memory : List ℕ) → initprt_length ≤ length memory → IsReader (init_reader memory)
unfolding init_reader
init_reader-IsReader memory h = record {
  whole = omega (arith, length-take initprt_length memory);
  inside = omega arith;
}

pub read-IsReader :
    (reader : InitprtReader) (buf : List ℕ) → IsReader reader → IsReader (read reader buf).2
unfolding read is_eof
read-IsReader reader buf r = ground arith

-- The bytes from the position on.
abbrev pub rest : InitprtReader → List ℕ
rest reader = drop reader.pos reader.bytes

length-rest : (reader : InitprtReader) → length (rest reader) ≡ length reader.bytes - reader.pos
length-rest reader = length-drop reader.pos reader.bytes

-- A buffer over a list of bytes: what of it the bytes fill.
abbrev pub overlay : List ℕ → List ℕ → List ℕ
overlay buf [] = buf
overlay [] bytes = []
overlay (old ∷ buf) (byte ∷ bytes) = byte ∷ overlay buf bytes

take-drop-overlay :
    (buf bytes : List ℕ)
    → take (min (length buf) (length bytes)) bytes ++ drop (min (length buf) (length bytes)) buf
      ≡ overlay buf bytes
take-drop-overlay [] [] = refl
take-drop-overlay [] (byte ∷ bytes) =
    let e : min 0 (suc (length bytes)) ≡ 0 = omega arith in rw e (refl)
take-drop-overlay (old ∷ buf) [] = let e : min (suc (length buf)) 0 ≡ 0 = omega arith in rw e (refl)
take-drop-overlay (old ∷ buf) (byte ∷ bytes) =
    let e : min (suc (length buf)) (suc (length bytes)) ≡ suc (min (length buf) (length bytes)) =
      omega arith in
    rw e (ap (◌∷◌ byte) (take-drop-overlay buf bytes))

drop-all : (xs : List ℕ) (n : ℕ) → length xs ≤ n → drop n xs ≡ []
drop-all [] zero h = refl
drop-all [] (suc n) h = refl
drop-all (x ∷ xs) zero h = absurd (omega arith)
drop-all (x ∷ xs) (suc n) h = drop-all xs n (omega arith)

drop-nil : (n : ℕ) → drop {A = ℕ} n [] ≡ []
drop-nil zero = refl
drop-nil (suc n) = refl

drop-drop : (n m : ℕ) (xs : List ℕ) → drop m (drop n xs) ≡ drop (n + m) xs
drop-drop zero m xs = ap (λ (k : ℕ). drop k xs) (omega arith)
drop-drop (suc n) m [] = drop-nil m ∙ sym (drop-nil (suc n + m))
drop-drop (suc n) m (x ∷ xs) =
    let e : suc (n + m) ≡ suc n + m = omega arith in
    drop-drop n m xs ∙ ap (λ (k : ℕ). drop k (x ∷ xs)) e

-- Where the reader stands after a read.
abbrev pub after : InitprtReader → ℕ → InitprtReader
after reader n = record reader { pos = reader.pos + min n (length reader.bytes - reader.pos) }

-- A read in one equation, at the end of the partition too.
pub read_lem :
    (reader : InitprtReader) (buf : List ℕ)
    → read reader buf ≡ (
      min (length buf) (length reader.bytes - reader.pos),
      overlay buf (rest reader),
      after reader (length buf),
    )
unfolding read is_eof
read_lem reader buf = elim (Bool-cases (is_eof reader)) [
  | inl done ↦ rw done (ground (arith, drop-all reader.bytes reader.pos))
  | inr more ↦ rw more (
      let filled = take-drop-overlay buf (rest reader) in
      ground (
        arith,
        ap (λ (n : ℕ). take (min (length buf) n) (rest reader) ++ drop (min (length buf) n) buf)
            (length-rest reader),
        filled,
      ))
]

overlay-append :
    (a b bytes : List ℕ)
    → overlay (a ++ b) bytes ≡ overlay a bytes ++ overlay b (drop (length a) bytes)
overlay-append [] b [] = refl
overlay-append [] b (byte ∷ bytes) = refl
overlay-append (old ∷ a) b [] = refl
overlay-append (old ∷ a) b (byte ∷ bytes) = ap (◌∷◌ byte) (overlay-append a b bytes)

rest-after : (reader : InitprtReader) (n : ℕ) → rest (after reader n) ≡ drop n (rest reader)
rest-after reader n = elim (Bool-cases (leb (length reader.bytes) (reader.pos + n))) [
  | inl past ↦
      (drop-all reader.bytes (reader.pos + min n (length reader.bytes - reader.pos)) (ground arith)
        ∙ sym (
            drop-drop reader.pos n reader.bytes
            ∙ drop-all reader.bytes (reader.pos + n) (ground arith)))
  | inr more ↦
      (let e : min n (length reader.bytes - reader.pos) ≡ n = ground arith in
        rw e (sym (drop-drop reader.pos n reader.bytes)))
]

-- Two reads in a row are one: with the buffers' lengths together, the bytes of one read of both
-- buffers, the same final reader, and the sum of the counts.
pub read-append :
    (reader : InitprtReader) (a b : List ℕ)
    → let (n, a', between) = read reader a in
      let (m, b', final) = read between b in read reader (a ++ b) ≡ (n + m, a' ++ b', final)
read-append reader a b =
    let between = after reader (length a) in
    ground (
      arith,
      read_lem reader (a ++ b),
      read_lem reader a,
      read_lem between b,
      rest-after reader (length a),
      overlay-append a b (rest reader),
      length-append a b,
    )
