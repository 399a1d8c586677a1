-- ===== src/Launch/Tests.antt =====
-- A startup with one driver, and the law at that input.
use proka_kernel.Base.{
  List, Option, [], if◌then◌else◌, is_some, length, none, refl, some, some-value_or, some_inj, suc,
  take, true, value_or, zero, ℕ, ◌==◌, ◌∷◌, ◌≡◌,
}
use proka_kernel.Launch.{Launched, SameModes, init-Launched, unwrapped}
use proka_kernel.Creation.Fixtures.{machine, map_nothing, numbers, program_of, selectors}
use proka_kernel.Creation.{
  Machine, create, enter, launch, load_sections, map_page, map_requests, map_stack, take_frames,
  ◌then◌,
}
use proka_kernel.InitPrt.{init_reader}
use proka_kernel.InitPrt.Startup.{
  Crates, ExecMode, Names, Started, core_drv, init, load, run, run_drivers, user_app,
}
use proka_kernel.ArchFrames.{allocate_contiguous}
use proka_kernel.FrameAlloc.{
  FrameAlloc, find_run, get_bit, read_bit, run_is_free, scan, set_bit, set_run, write_bit,
}
use proka_kernel.Process.{boot, create_driver, create_normal, first_free}
use proka_kernel.Process.Loading.{load_requests}
use proka_kernel.Scheduler.Reachable.{booted}

-- The first byte of an image is its mode; no image has a section.
mode_of : List ℕ → Option ExecMode
mode_of [] = none
mode_of (zero ∷ _) = some user_app
mode_of (suc _ ∷ _) = some core_drv

-- File names are numbers; the list names one driver.
abbrev one_driver : Crates ℕ (List ℕ) ℕ
one_driver = record {
  root_dir = λ _. some 0;
  open_dir_path = λ _ name. some name;
  open_file = λ dir name. if dir == 0 then some (0 ∷ 7 ∷ []) else some (name ∷ 9 ∷ []);
  size = length;
  read_file = λ opened _. some opened;
  header_mode = mode_of;
  parse_list = λ content. some (take 1 content);
}

abbrev file_names : Names ℕ
file_names = record { init_name = 1; drivers_name = 2; list_name = 3 }

same_modes : SameModes numbers selectors program_of map_nothing mode_of
unfolding mode_of
same_modes [] mode program e f = cc
same_modes (zero ∷ _) mode program e f = cc (some_inj e, some_inj f)
same_modes (suc _ ∷ _) mode program e f = cc (some_inj e, some_inj f)

abbrev launch_all : Option Machine
launch_all =
    init one_driver file_names (unwrapped numbers selectors program_of map_nothing) [] machine

abbrev launched : Machine
launched = value_or machine launch_all

launches : is_some launch_all ≡ true
unfolding init run run_drivers load init_reader mode_of create launch load_sections take_frames
    map_stack map_page map_requests load_requests enter boot create_normal create_driver
    proka_kernel.ArchFrames.allocate_contiguous proka_kernel.FrameAlloc.allocate_contiguous find_run
    scan run_is_free get_bit read_bit set_run set_bit write_bit first_free
launches = refl

init-Launched_example :
    (started : Started one_driver file_names
      (unwrapped numbers selectors program_of map_nothing)
      []
      machine
      launched)
    × Launched numbers selectors program_of map_nothing boot launched.kernel 1
        (length started.listed)
init-Launched_example =
    init-Launched numbers selectors program_of map_nothing one_driver file_names [] machine launched
      same_modes booted (some-value_or machine launch_all launches)
