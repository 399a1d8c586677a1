-- ===== src/InitPrt/Seeking.antt =====
-- The laws of `seek` of src/initprt.rs, alone and together with `read`.
use proka_kernel.Base.{
  List, Option, [], add_word, arith, if◌then◌else◌, leb, length, none, refl, some, sub_word, ℕ, ◌+◌,
  ◌-◌, ◌<◌, ◌==◌, ◌^◌, ◌∷◌, ◌≡◌, ◌≤◌,
}
use proka_kernel.InitPrt.{
  InitprtReader, SeekFrom, current, end, init_reader, initprt_length, place, read, seek, start,
}
use proka_kernel.InitPrt.Reading.{IsReader, init_reader-IsReader, read-IsReader, read_lem}

-- The operations of the reader, in any order: a failed seek leaves it as it was.
pub data Operation : Type 0 where
  reading : List ℕ → Operation
  seeking : SeekFrom → Operation

pub perform : Operation → InitprtReader → InitprtReader
perform (reading buf) reader = (read reader buf).2
perform (seeking from) reader = elim (seek reader from) [ none ↦ reader | some (_, moved) ↦ moved ]

pub perform_all : List Operation → InitprtReader → InitprtReader
perform_all [] reader = reader
perform_all (op ∷ ops) reader = perform_all ops (perform op reader)

place-IsReader :
    (reader : InitprtReader) (off pos : ℕ) {moved : InitprtReader}
    → IsReader reader
    → place reader off ≡ some (pos, moved)
    → IsReader moved × (moved.pos ≡ pos) × (pos ≤ initprt_length) × (moved.bytes ≡ reader.bytes)
place-IsReader reader off pos r e = ground arith

seek-IsReader :
    (reader : InitprtReader) (from : SeekFrom) (pos : ℕ) {moved : InitprtReader}
    → IsReader reader
    → seek reader from ≡ some (pos, moved)
    → IsReader moved × (moved.pos ≡ pos) × (pos ≤ initprt_length) × (moved.bytes ≡ reader.bytes)
unfolding seek
seek-IsReader reader (start offset) pos r e = place-IsReader reader offset pos r e
seek-IsReader reader (end offset) pos r e =
    place-IsReader reader (add_word initprt_length offset) pos r e
seek-IsReader reader (current offset) pos r e =
    place-IsReader reader (add_word reader.pos offset) pos r e

perform-IsReader :
    (op : Operation) (reader : InitprtReader) → IsReader reader → IsReader (perform op reader)
unfolding perform
perform-IsReader (reading buf) reader r = read-IsReader reader buf r
perform-IsReader (seeking from) reader r = by_result (seek reader from) refl
  where
    by_result :
        (result : Option (ℕ × InitprtReader))
        → seek reader from ≡ result
        → IsReader (elim result [ none ↦ reader | some (_, moved) ↦ moved ])
    by_result none e = r
    by_result (some (pos, moved)) e = (seek-IsReader reader from pos r e).0

-- From `init` on a partition of full length, every sequence of reads and seeks keeps the position
-- inside the partition and the partition's length.
pub perform_all-IsReader :
    (ops : List Operation) (memory : List ℕ)
    → initprt_length ≤ length memory
    → IsReader (perform_all ops (init_reader memory))
unfolding perform_all
perform_all-IsReader ops memory h = onward ops (init_reader memory) (init_reader-IsReader memory h)
  where
    onward :
        (ops : List Operation) (reader : InitprtReader)
        → IsReader reader
        → IsReader (perform_all ops reader)
    onward [] reader r = r
    onward (op ∷ ops) reader r = onward ops (perform op reader) (perform-IsReader op reader r)

-- The pattern of a negative offset.
abbrev pub negated : ℕ → ℕ
negated n = sub_word 0 n

-- After a read, a seek back by the number of bytes that it returned gives the reader from before,
-- and a seek from the start to where it stood does too.
pub seek-read :
    (reader : InitprtReader) (buf : List ℕ)
    → IsReader reader
    → let (n, _, read_on) = read reader buf in
      (seek read_on (current (negated n)) ≡ some (reader.pos, reader))
      × (seek read_on (start reader.pos) ≡ some (reader.pos, reader))
unfolding seek
seek-read reader buf r = ground (arith, read_lem reader buf)

-- Each of the three kinds of seek succeeds exactly when the exact place lies in the partition, and
-- then that is the position. The offset of a seek from the start is an unsigned 64-bit number; that
-- of a seek from the current position or from the end is a signed one, here its distance above or
-- below zero. From the end, only the distance 0 can go above.
pub seek_iff :
    (reader : InitprtReader) (offset above below : ℕ)
    → IsReader reader
    → offset < 2 ^ 64
    → above < 2 ^ 63
    → below ≤ 2 ^ 63
    → (seek reader (start offset) ≡ (
        if leb offset initprt_length then some (offset, record reader { pos = offset }) else none))
      × (seek reader (current above) ≡ (
          if leb (reader.pos + above) initprt_length
          then some (reader.pos + above, record reader { pos = reader.pos + above })
          else none))
      × (seek reader (current (negated below)) ≡ (
          if leb below reader.pos
          then some (reader.pos - below, record reader { pos = reader.pos - below })
          else none))
      × (seek reader (end above) ≡ (
          if above == 0
          then some (initprt_length, record reader { pos = initprt_length })
          else none))
      × (seek reader (end (negated below)) ≡ (
          if leb below initprt_length
          then some (initprt_length - below, record reader { pos = initprt_length - below })
          else none))
unfolding seek
seek_iff reader offset above below r h1 h2 h3 =
    (ground arith, ground arith, ground arith, ground arith, ground arith)
