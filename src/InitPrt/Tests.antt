-- ===== src/InitPrt/Tests.antt =====
-- Runs of the partition's reader and of the startup, and the laws at concrete inputs.
use proka_kernel.Base.{
  List, Option, [], arith, if◌then◌else◌, length, length-replicate, none, refl, replicate, some,
  suc, take, zero, ℕ, ◌++◌, ◌+◌, ◌-◌, ◌==◌, ◌^◌, ◌↔◌, ◌∷◌, ◌≡◌, ◌≤◌,
}
use proka_kernel.InitPrt.{
  InitprtReader, current, end, init_reader, initprt_length, is_eof, read, seek, start,
}
use proka_kernel.InitPrt.Reading.{IsReader, read-append}
use proka_kernel.InitPrt.Seeking.{
  negated, perform_all, perform_all-IsReader, reading, seek_iff, seeking,
}
use proka_kernel.InitPrt.Startup.{
  Crates, ExecMode, Names, Started, core_drv, init, init-Started, load, run, run_drivers, user_app,
}

abbrev three_bytes : InitprtReader
three_bytes = record { bytes = 10 ∷ 20 ∷ 30 ∷ []; pos = 1 }

read_past_end :
    read three_bytes (0 ∷ 0 ∷ 0 ∷ []) ≡ (2, 20 ∷ 30 ∷ 0 ∷ [], record three_bytes { pos = 3 })
unfolding read is_eof
read_past_end = refl

read_at_end :
    read (record three_bytes { pos = 3 }) (7 ∷ []) ≡ (0, 7 ∷ [], record three_bytes { pos = 3 })
unfolding read is_eof
read_at_end = refl

seek_out : seek three_bytes (current (2 ^ 64 - 2)) ≡ none
unfolding seek
seek_out = refl

read-append_example : read three_bytes (0 ∷ 0 ∷ 9 ∷ []) ≡ (
  (read three_bytes (0 ∷ [])).0 + (read (read three_bytes (0 ∷ [])).2 (0 ∷ 9 ∷ [])).0,
  (read three_bytes (0 ∷ [])).1 ++ (read (read three_bytes (0 ∷ [])).2 (0 ∷ 9 ∷ [])).1,
  (read (read three_bytes (0 ∷ [])).2 (0 ∷ 9 ∷ [])).2,
)
read-append_example = read-append three_bytes (0 ∷ []) (0 ∷ 9 ∷ [])

-- A blank partition, kept shut: it is 16 MiB long.
blank : ℕ → List ℕ
blank n = replicate n 0

length-blank : (n : ℕ) → length (blank n) ≡ n
unfolding blank
length-blank n = length-replicate n 0

blank_reader : ℕ → InitprtReader
blank_reader pos = record { bytes = blank initprt_length; pos = pos }

blank_reader-IsReader : (pos : ℕ) → pos ≤ initprt_length → IsReader (blank_reader pos)
unfolding blank_reader
blank_reader-IsReader pos h = record { whole = length-blank initprt_length; inside = h }

perform_all-IsReader_example : IsReader (
    perform_all
      (reading (1 ∷ 2 ∷ []) ∷ seeking (current (2 ^ 64 - 1)) ∷ [])
      (init_reader (blank initprt_length)))
perform_all-IsReader_example =
    perform_all-IsReader (reading (1 ∷ 2 ∷ []) ∷ seeking (current (2 ^ 64 - 1)) ∷ [])
      (blank initprt_length) (omega (arith, length-blank initprt_length))

seek_iff_example :
    (seek (blank_reader 5) (start 7) ≡ some (7, blank_reader 7))
    × (seek (blank_reader 5) (current 3) ≡ some (8, blank_reader 8))
    × (seek (blank_reader 5) (current (negated 4)) ≡ some (1, blank_reader 1))
    × (seek (blank_reader 5) (end 3) ≡ none)
    × (seek (blank_reader 5) (end (negated 4)) ≡ some (0xfffffc, blank_reader 0xfffffc))
unfolding blank_reader
seek_iff_example =
    seek_iff (blank_reader 5) 7 3 4 (blank_reader-IsReader 5 (omega arith)) (omega arith)
      (omega arith) (omega arith)

-- A partition whose file names are numbers and whose files are their own images: an image's first
-- byte is its mode, and the list names one driver.
image_mode : List ℕ → Option ExecMode
image_mode [] = none
image_mode (zero ∷ _) = some user_app
image_mode (suc _ ∷ _) = some core_drv

abbrev small_crates : Crates ℕ (List ℕ) ℕ
small_crates = record {
  root_dir = λ _. some 0;
  open_dir_path = λ _ name. some name;
  open_file = λ dir name. if dir == 0 then some (0 ∷ 7 ∷ []) else some (name ∷ 9 ∷ []);
  size = length;
  read_file = λ opened _. some opened;
  header_mode = image_mode;
  parse_list = λ content. some (take 1 content);
}

abbrev small_names : Names ℕ
small_names = record { init_name = 1; drivers_name = 2; list_name = 3 }

-- The state is the list of images, the last one first.
collect : List (List ℕ) → List ℕ → ℕ → Option (List (List ℕ))
collect images image priority = some (image ∷ images)

init-Started_example :
    (init small_crates small_names collect [] [] ≡ some ((3 ∷ 9 ∷ []) ∷ (0 ∷ 7 ∷ []) ∷ []))
    ↔ Started small_crates small_names collect [] [] ((3 ∷ 9 ∷ []) ∷ (0 ∷ 7 ∷ []) ∷ [])
init-Started_example =
    init-Started small_crates small_names collect [] [] ((3 ∷ 9 ∷ []) ∷ (0 ∷ 7 ∷ []) ∷ [])

starts_both : init small_crates small_names collect [] [] ≡ some ((3 ∷ 9 ∷ []) ∷ (0 ∷ 7 ∷ []) ∷ [])
unfolding init run run_drivers load collect image_mode init_reader
starts_both = refl
