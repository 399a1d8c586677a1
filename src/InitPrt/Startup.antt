-- ===== src/InitPrt/Startup.antt =====
-- The start of the essential programs, the second half of src/initprt.rs: `init`, `load` and `run`.
-- The FAT file system, the parsers of programs and of the driver list, and the creation of a
-- process stand as parameters; `none` is a panic, which stops the kernel.
use proka_kernel.Base.{
  >>=-some, Bool, List, Option, [], ap, false, if◌then◌else◌, none, refl, replicate, some, true, ℕ,
  ◌>>=◌, ◌↔◌, ◌∙◌, ◌∷◌, ◌≡◌,
}
use proka_kernel.InitPrt.{init_reader}

-- `ExecMode`, of the program format.
pub data ExecMode : Type 0 where
  user_app core_drv : ExecMode

abbrev pub is_mode : ExecMode → ExecMode → Bool
is_mode user_app user_app = true
is_mode core_drv core_drv = true
is_mode _ _ = false

-- The crates that the startup calls: directories and files of a partition by their names, the
-- bytes that one read of a file puts into a buffer, the header's mode, and the list of drivers.
pub record Crates (Dir File Name : Type 0) : Type 0 where
  pub root_dir : List ℕ → Option Dir
  pub open_dir_path : Dir → Name → Option Dir
  pub open_file : Dir → Name → Option File
  pub size : File → ℕ
  pub read_file : File → List ℕ → Option (List ℕ)
  pub header_mode : List ℕ → Option ExecMode
  pub parse_list : List ℕ → Option (List Name)

-- The file names that the code spells out.
pub record Names (Name : Type 0) : Type 0 where
  pub init_name : Name
  pub drivers_name : Name
  pub list_name : Name

module _ {Dir File Name S : Type 0} (crates : Crates Dir File Name) (names : Names Name)
    (create : S → List ℕ → ℕ → Option S) where
  -- `load`: the whole file in a buffer of its size.
  unfoldable pub load : Dir → Name → Option (List ℕ)
  load dir file = crates.open_file dir file >>= λ opened.
      crates.read_file opened (replicate (crates.size opened) 0)

  -- `run`: only a program of the expected mode becomes a process, with priority 0.
  unfoldable pub run : Dir → Name → ExecMode → S → Option S
  run dir file mode s = load dir file >>= λ buf.
      (crates.header_mode buf >>= λ filemode.
      if is_mode filemode mode then create s buf 0 else none)

  -- `for driver in lists.drivers`.
  unfoldable pub run_drivers : Dir → List Name → S → Option S
  run_drivers dir [] s = some s
  run_drivers dir (driver ∷ drivers) s = run dir driver core_drv s >>= run_drivers dir drivers

  -- `init`.
  unfoldable pub init : List ℕ → S → Option S
  init memory s = crates.root_dir (init_reader memory).bytes >>= λ root.
      (run root names.init_name user_app s >>= λ started.
      (crates.open_dir_path root names.drivers_name >>= λ drivers.
      (load drivers names.list_name >>= λ content.
      (crates.parse_list content >>= λ listed. run_drivers drivers listed started))))

  -- A file that is a program of a mode.
  abbrev pub Program : Dir → ExecMode → Name → List ℕ → Type 0
  Program dir mode file image =
      (load dir file ≡ some image) × (crates.header_mode image ≡ some mode)

  -- The programs of a list of files, in its order.
  pub data Programs (dir : Dir) (mode : ExecMode) : List Name → List (List ℕ) → Type 0 where
    nil : Programs dir mode [] []
    cons :
        {file : Name} {image : List ℕ} {files : List Name} {images : List (List ℕ)}
        → Program dir mode file image
        → Programs dir mode files images
        → Programs dir mode (file ∷ files) (image ∷ images)

  -- Processes made of images one after the other.
  unfoldable pub create_all : List (List ℕ) → S → Option S
  create_all [] s = some s
  create_all (image ∷ images) s = create s image 0 >>= create_all images

  -- What a startup without a panic has done.
  pub record Started (memory : List ℕ) (s s' : S) : Type 0 where
    pub root : Dir
    pub drivers : Dir
    pub content : List ℕ
    pub listed : List Name
    pub image : List ℕ
    pub images : List (List ℕ)
    pub root_opened : crates.root_dir (init_reader memory).bytes ≡ some root
    pub drivers_opened : crates.open_dir_path root names.drivers_name ≡ some drivers
    pub list_loaded : load drivers names.list_name ≡ some content
    pub list_parsed : crates.parse_list content ≡ some listed
    pub init_program : Program root user_app names.init_name image
    pub driver_programs : Programs drivers core_drv listed images
    pub created : create_all (image ∷ images) s ≡ some s'

  by_mode :
      (found mode : ExecMode) (image : List ℕ) (s s' : S)
      → (if is_mode found mode then create s image 0 else none) ≡ some s'
      → (found ≡ mode) × (create s image 0 ≡ some s')
  by_mode user_app user_app image s s' e = (refl, e)
  by_mode core_drv core_drv image s s' e = (refl, e)
  by_mode user_app core_drv image s s' e = cc
  by_mode core_drv user_app image s s' e = cc

  run-create :
      (dir : Dir) (file : Name) (mode : ExecMode) (s s' : S)
      → run dir file mode s ≡ some s'
      → (image : List ℕ) × (Program dir mode file image) × (create s image 0 ≡ some s')
  unfolding run
  run-create dir file mode s s' e =
      let (image, loaded, e1) = >>=-some (load dir file) _ e in
      let (found, parsed, e2) = >>=-some (crates.header_mode image) _ e1 in
      let (right, made) = by_mode found mode image s s' e2 in
      (image, (loaded, parsed ∙ ap some right), made)

  run_drivers-create :
      (dir : Dir) (files : List Name) (s s' : S)
      → run_drivers dir files s ≡ some s'
      → (images : List (List ℕ)) × (Programs dir core_drv files images)
        × (create_all images s ≡ some s')
  unfolding run_drivers create_all
  run_drivers-create dir [] s s' e = ([], nil, e)
  run_drivers-create dir (file ∷ files) s s' e =
      let (between, first, e1) = >>=-some (run dir file core_drv s) _ e in
      let (image, program, made) = run-create dir file core_drv s between first in
      let (images, programs, all_made) = run_drivers-create dir files between s' e1 in
      (image ∷ images, cons program programs, rw made all_made)

  same_mode : (mode : ExecMode) → is_mode mode mode ≡ true
  same_mode user_app = refl
  same_mode core_drv = refl

  create-run :
      (dir : Dir) (file : Name) (mode : ExecMode) (image : List ℕ) (s s' : S)
      → Program dir mode file image
      → create s image 0 ≡ some s'
      → run dir file mode s ≡ some s'
  unfolding run
  create-run dir file mode image s s' (loaded, parsed) made =
      rw loaded (rw parsed (rw (same_mode mode) made))

  create-run_drivers :
      (dir : Dir) {files : List Name} {images : List (List ℕ)} (s s' : S)
      → Programs dir core_drv files images
      → create_all images s ≡ some s'
      → run_drivers dir files s ≡ some s'
  unfolding run_drivers create_all
  create-run_drivers dir s s' nil made = made
  create-run_drivers dir s s' (cons {file} {image} {files} {images} program programs) made =
      let (between, first, rest) = >>=-some (create s image 0) _ made in
      rw (create-run dir file core_drv image s between program first)
        (create-run_drivers dir between s' programs rest)

  -- The startup returns exactly when the partition opens, `init` is a user program, every file of
  -- the driver list is a driver program, and the processes for them, `init` first and the drivers
  -- in the list's order, can all be created; the state is then that after creating them.
  pub init-Started : (memory : List ℕ) (s s' : S) → (init memory s ≡ some s') ↔ Started memory s s'
  unfolding init create_all
  init-Started memory s s' = (forward, backward)
    where
      forward : init memory s ≡ some s' → Started memory s s'
      forward e =
          let (root, root_opened, e1) = >>=-some (crates.root_dir (init_reader memory).bytes) _ e in
          let (between, first, e2) = >>=-some (run root names.init_name user_app s) _ e1 in
          let (drivers, drivers_opened, e3) =
            >>=-some (crates.open_dir_path root names.drivers_name) _ e2 in
          let (content, list_loaded, e4) = >>=-some (load drivers names.list_name) _ e3 in
          let (listed, list_parsed, e5) = >>=-some (crates.parse_list content) _ e4 in
          let (image, init_program, made) =
            run-create root names.init_name user_app s between first in
          let (images, driver_programs, all_made) =
            run_drivers-create drivers listed between s' e5 in
          record {
            root = root;
            drivers = drivers;
            content = content;
            listed = listed;
            image = image;
            images = images;
            root_opened = root_opened;
            drivers_opened = drivers_opened;
            list_loaded = list_loaded;
            list_parsed = list_parsed;
            init_program = init_program;
            driver_programs = driver_programs;
            created = rw made all_made;
          }

      backward : Started memory s s' → init memory s ≡ some s'
      backward w =
          let (between, first, rest) = >>=-some (create s w.image 0) _ w.created in
          rw w.root_opened (
            rw (create-run w.root names.init_name user_app w.image s between w.init_program first) (
              rw w.drivers_opened (
                rw w.list_loaded (
                  rw w.list_parsed
                    (create-run_drivers w.drivers between s' w.driver_programs rest)))))
