-- ===== src/Lib.antt =====
-- Verification of the proka kernel: physical memory, page tables, the kernel heap, processes and
-- their scheduling, system calls, exceptions, devices, the initial partition and the console.
--
-- How the parts interact. At boot arch/src/x86_64/memory/framealloc.rs sets up the bitmap allocator
-- of core/src/memory/framealloc.rs from the boot loader's memory map, and registers a provider with
-- which the heap of core/src/memory/heap.rs asks for frames. arch/src/x86_64/memory builds the
-- kernel's page tables, which src/devices then extends by the windows of PCIe. src/initprt.rs reads
-- the initial partition and has arch/src/x86_64/process/mod.rs create a process for `init` and for
-- each driver: the new process gets a page table of its own and a slot in one of two tables, each
-- with a run queue. The timer interrupt runs arch/src/x86_64/scheduler.rs, which stores the
-- interrupted registers in one table and loads the next process of the other. Programs come back
-- by system calls, drivers by the interrupt of arch/src/x86_64/coredrv, and both by exceptions. The
-- console of core/src/output/console.rs draws text with its font and the colours of
-- core/src/output/color.rs.
--
-- Which file models which part:
--   Base, Base/*       words, lists, tests and bits that the parts share;
--   FrameAlloc         `FrameAlloc` of core/src/memory/framealloc.rs: `init`, `allocate_contiguous`,
--                      `deallocate_contiguous`, `set_bit`, `get_bit`; FrameAlloc/* has its proofs;
--   Heap               `FrameProvider`, `set_frame_provider` and `HeapAlloc` of
--                      core/src/memory/heap.rs, over any provider with the laws `FrameLaws`;
--   ArchFrames         the adapter of arch/src/x86_64/memory/framealloc.rs; ArchFrames/Provider
--                      fills `FrameLaws`, ArchFrames/KernelHeap puts heap and allocator together;
--   Paging             `init` of arch/src/x86_64/memory/paging.rs on the cleared area: a function
--                      for each part of the layout. Paging/Walk has the processor's walk through
--                      four levels of tables, Paging/Layout the layout as a map of addresses, and
--                      Paging/Process the table that a new process starts with;
--   Memory             `TOTAL_RAM`, the mappings of `init` and `copy_buffer_to_kernel` of
--                      arch/src/x86_64/memory/mod.rs;
--   Pci                configuration accesses through ports (arch/src/x86_64/devices/pci.rs) and
--                      memory (core/src/devices/pcie.rs); Pci/Scan has the scans, Pci/Mapping the
--                      windows, Pci/Startup both files of src/devices, and Pci/Acpi the
--                      accesses of the ACPI handler of arch/src/x86_64/acpi.rs;
--   InitPrt            `InitprtReader` of src/initprt.rs; InitPrt/Startup has `init`, `load`, `run`;
--   Process            the tables, queues, `create_normal`, `create_driver` and `remove` of
--                      arch/src/x86_64/process and core/src/{process,scheduler}.rs; Process/Loading
--                      has the loop of `create` that maps the sections, as requests;
--   Creation           `create` of arch/src/x86_64/process/mod.rs, from the bytes of a program to
--                      the entry in a process table, with its errors and panics;
--   Launch             the startup of InitPrt/Startup over the `create` of Creation;
--   Scheduler          `switch_task`, `to_driver`, `to_normal` of arch/src/x86_64/scheduler.rs;
--                      Scheduler/Reachable has the step relation over processes and interrupts;
--   Syscall            Syscall/Table has the table and `syscall_handler`, Syscall/Process call 0,
--                      which Syscall/Reaching puts over `create`, Syscall/Power call 1 with
--                      src/acpi/power.rs, and Syscall/Memory call 2, `allocate` and `deallocate`
--                      on the heap ranges of a process;
--   Exceptions         the handlers of arch/src/x86_64/handler/exception.rs; Exceptions/Locks has
--                      the guards on the process tables, Exceptions/PageFault the page fault;
--   CoreDrv            the calls of drivers: arch/src/x86_64/coredrv and core/src/coredrv;
--   System             everything together that changes the processes: System/Running has the
--                      step relation over processes, interrupts and calls on heap memory;
--   Color              `Color` of core/src/output/color.rs;
--   Console            `Console` of core/src/output/console.rs, with the table `FONT8X16` of
--                      core/src/output/font8x16.rs in Console/Font.
--
-- Conventions. A method that changes `self` or a static returns the new record; a panic is `none`,
-- or a constructor of its own where errors are told apart. `usize` and `u64` are natural numbers
-- with the wrap-around of the release profile written out, also `u8`, `u16` and `u32` where they
-- can overflow. Raw memory is a list of bytes (the bitmap, the initial partition) or a function of
-- the address (the framebuffer, the page tables, the bytes of a new program). Loops are structural
-- recursions over their range, only the scanner of `allocate_contiguous` runs on fuel:
-- `max_page + 2` rounds, more than the starts of a run below `max_page` and the one round that ends
-- the loop.
--
-- Parameters. The kinds of memory of the boot loader's map, the frames of the x86_64 crate with the
-- round trip of a frame number below 2 ^ 40, the selectors of the GDT, and the stack words that the
-- compiled prologue of `switch_task` has pushed; the x86_64 crate's page table mapper, where the
-- laws say which pages are mapped with hypotheses on what one call maps, else with none; ports and
-- configuration registers, the ids and headers of devices, the tables of ACPI and the values of its
-- registers; the file system, the executable format and the parser of the driver list.
--
-- Not modelled: the frees of a removed process's page table, descriptor tables and model-specific
-- registers, the local APIC, the plain port and memory accesses of the ACPI handler and its
-- interpreter, the assembly that enters a system call, logging, locks outside the page fault
-- handler, and the vendored x2apic crate.
mod Base
pub mod FrameAlloc
pub mod Heap
pub mod Paging
pub mod Memory
pub mod Pci
pub mod InitPrt
pub mod ArchFrames
pub mod Color
pub mod Console
pub mod Process
pub mod Scheduler
pub mod Creation
pub mod Launch
pub mod Exceptions
pub mod CoreDrv
pub mod Syscall
pub mod System
