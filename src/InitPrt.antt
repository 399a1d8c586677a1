-- ===== src/InitPrt.antt =====
-- The reader of the initial partition, the first half of src/initprt.rs. A signed offset is its
-- 64-bit pattern.
use proka_kernel.Base.{
  Bool, List, Option, add_word, drop, if◌then◌else◌, leb, length, ltb, min, none, some, take, ℕ,
  ◌++◌, ◌+◌, ◌-◌, ◌^◌, ◌||◌,
}
pub mod Reading
pub mod Seeking
pub mod Startup
mod Tests

-- `INITPRT_LENGTH`.
abbrev pub initprt_length : ℕ
initprt_length = 0x1000000

-- `InitprtReader`: the bytes of the partition and the position.
pub record InitprtReader : Type 0 where
  pub bytes : List ℕ
  pub pos : ℕ

-- `InitprtReader::init` on the memory that stands at `INITPRT_BASE`.
unfoldable pub init_reader : List ℕ → InitprtReader
init_reader memory = record { bytes = take initprt_length memory; pos = 0 }

unfoldable pub is_eof : InitprtReader → Bool
is_eof reader = leb (length reader.bytes) reader.pos

-- `read`: the number of bytes, the buffer and the reader after it.
unfoldable pub read : InitprtReader → List ℕ → ℕ × List ℕ × InitprtReader
unfolding is_eof
read reader buf =
    if is_eof reader
    then (0, buf, reader)
    else let remain = length reader.bytes - reader.pos in
      let copy_len = min (length buf) remain in
      (
        copy_len,
        take copy_len (drop reader.pos reader.bytes) ++ drop copy_len buf,
        record reader { pos = reader.pos + copy_len },
      )

-- `SeekFrom`.
pub data SeekFrom : Type 0 where
  start : ℕ → SeekFrom
  end : ℕ → SeekFrom
  current : ℕ → SeekFrom

-- The sign of a pattern of `i64`.
abbrev pub is_negative : ℕ → Bool
is_negative off = leb (2 ^ 63) off

-- `off < 0 || off > len`, else the new position; `none` is the error.
abbrev pub place : InitprtReader → ℕ → Option (ℕ × InitprtReader)
place reader off =
    if is_negative off || ltb initprt_length off
    then none
    else some (off, record reader { pos = off })

unfoldable pub seek : InitprtReader → SeekFrom → Option (ℕ × InitprtReader)
seek reader (start offset) = place reader offset
seek reader (end offset) = place reader (add_word initprt_length offset)
seek reader (current offset) = place reader (add_word reader.pos offset)
