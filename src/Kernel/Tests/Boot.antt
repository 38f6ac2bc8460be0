-- ===== src/Kernel/Tests/Boot.antt =====
-- Runs of devices, memory, tasks and spawns at concrete inputs, on a machine whose address spaces
-- take every mapping and whose allocations are a list.
use mene_os.Base.{
  ℕ, ◌+◌, ◌-◌, ◌*◌, ◌/◌, ◌%◌, ◌^◌, ◌≡◌, ◌≤◌, ◌⊎◌, refl, sym, ◌∙◌, ap, true, false, List, [], ◌∷◌,
  Option, none, some, arith, length, ◌==◌, if◌then◌else◌, bytes_eq,
}
use mathlib.Core.Option.{some-ne-none}
use mene_os.Base.BTreeMap.{get}
use mene_os.Ipc.Endpoint.{new_endpoint}
use mene_os.Ipc.Manager.{find_endpoint}
use mene_os.Kernel.Lifecycle.{initial, get_state, ready, created}
use mene_os.Kernel.Process.{ProcessInfo}
use mene_os.Kernel.Device.{DeviceInfo, platform, boot_serial, boot_fs, virtio_mmio}
use mene_os.Kernel.Memory.{Machine, do_dma_alloc, do_dma_dealloc}
use mene_os.Kernel.Memory.Dma.{
  Allocations, IsMachine, Counts, do_dma_alloc-Counts, do_dma_dealloc-do_dma_alloc,
}
use mene_os.Kernel.Task.{
  Assets, argv0_bytes, argv0_addr, user_sp, stack_words, words_bytes, boot_init, boot_toml,
  bootstrap_paths, preload_boot_assets, contains_key, get_preloaded_elf, find_elf,
  spawn_task_from_elf, load_segments, init_linux_user_stack, and_then,
}
use mene_os.Kernel.Task.Stack.{init_stack-layout}
use mene_os.Kernel.Task.Preload.{utf8_file, file_if, is_listed, preload_boot_assets_lem}
use mene_os.Kernel.Syscall.System.{System, Loader, spawn_app}
use mene_os.Kernel.Syscall.System.Spawn.{new_process, spawn_app_lem, spawn_app_leaks}

-- An allocation is given back if it is the latest, whose address is always the same.
abbrev drop_first : Allocations → Allocations
drop_first [] = []
drop_first (x ∷ xs) = xs

abbrev pub machine : Machine
machine = record {
  AddrSpace = ℕ;
  Pages = Allocations;
  align_up_4k = λ n. (n + 4095) / 4096 * 4096;
  align_down_4k = λ n. n / 4096 * 4096;
  align_offset_4k = λ n. n % 4096;
  new_user_aspace = λ base size. some 0;
  find_free_area = λ hint size lo hi a. some hint;
  map_alloc = λ v size flags a. (true, a + 1);
  map_linear = λ v p size flags a. (true, a + 1);
  unmap = λ v size a. (true, a);
  write = λ v bytes a. (true, a);
  query = λ v a. some v;
  alloc_pages = λ n s. (some 0xffff_8000, (0xffff_8000, n) ∷ s);
  dealloc_pages = λ v n s. drop_first s;
  virt_to_phys = λ v. v - 0xffff_0000;
  phys_to_virt = λ p. p + 0xffff_0000;
}

abbrev or_zero : Option ℕ → ℕ
or_zero none = 0
or_zero (some v) = v

machine-IsMachine : IsMachine machine (λ s. s)
machine-IsMachine = record {
  allocated = λ n v s t e.
      let address : 0xffff_8000 ≡ v = ap (λ r. or_zero r.0) e in
      (
        sym (ap (λ r. r.1) e) ∙ ap (λ w. (w, n) ∷ s) address,
        ap (λ w. machine.phys_to_virt (machine.virt_to_phys w)) (sym address) ∙ address,
      );
  refused = λ n s t e. absurd (some-ne-none 0xffff_8000 (ap (λ r. r.0) e));
  released = λ v n rest s e. ap drop_first e;
  aligned = λ n lo hi. (omega arith, omega arith, omega arith);
  unmaps = λ v p size flags a b e. refl;
}

do_dma_alloc-Counts_example :
    Counts machine
      (λ s. s)
      machine-IsMachine
      ((7, 1) ∷ [])
      (machine.align_up_4k 5000 / 4096)
      (do_dma_alloc machine 5000 (0, (7, 1) ∷ []))
do_dma_alloc-Counts_example =
    do_dma_alloc-Counts machine (λ s. s) machine-IsMachine 5000 0 ((7, 1) ∷ [])

do_dma_dealloc-do_dma_alloc_example :
    let d =
      do_dma_dealloc machine 0x4000_0000 0x8000
        (machine.align_up_4k 5000 / 4096)
        (1, (0xffff_8000, 2) ∷ []) in
    (d.0 ≡ true) × (d.1.1 ≡ [])
unfolding do_dma_alloc
do_dma_dealloc-do_dma_alloc_example =
    do_dma_dealloc-do_dma_alloc machine (λ s. s) machine-IsMachine 5000 0x4000_0000 0x8000 0 []
      (1, (0xffff_8000, 2) ∷ []) (omega arith) refl

init_stack-layout_example :
    let sp = user_sp 0x7fff_0000_0000 boot_init in
    let ptr = argv0_addr 0x7fff_0000_0000 boot_init in
    (sp % 16 ≡ 0)
    × (sp + length (words_bytes (stack_words ptr 4096)) ≤ ptr)
    × (ptr + length (argv0_bytes boot_init) ≡ 0x7fff_0000_0000)
    × (0x7fff_0000_0000 ≤ sp + 256)
init_stack-layout_example =
    init_stack-layout 0x7fff_0000_0000 4096 boot_init (omega arith) (omega arith)

-- The first program is there, and the configuration.
abbrev files : List ℕ → Option (List ℕ)
files path =
    if bytes_eq path boot_toml
    then some (b'#' ∷ [])
    else if bytes_eq path boot_init
    then some (1 ∷ [])
    else none

abbrev assets : Assets
assets = record { elfs = (boot_init, 1 ∷ []) ∷ []; boot_cfg = b'#' ∷ [] }

preload_boot_assets_lem_example :
    let (done, b) = preload_boot_assets files assets in
    ((utf8_file (files boot_toml) ≡ true)
      × (get_preloaded_elf boot_fs b ≡ file_if (is_listed boot_fs bootstrap_paths) (files boot_fs))
      × (done ≡ contains_key (files boot_init))
      × (some b.boot_cfg ≡ files boot_toml))
    ⊎ ((utf8_file (files boot_toml) ≡ false) × (done ≡ false) × (b ≡ assets))
preload_boot_assets_lem_example = preload_boot_assets_lem files assets boot_fs

abbrev pub loader : Loader
loader = record {
  parse = λ file. some (record { entry_point = 4096; segments = [] });
  files = files;
}

abbrev serial : ProcessInfo
serial = record { app_path = boot_serial; aspace = 0; cspace = []; local_endpoint = 1 }

abbrev disk : DeviceInfo
disk = record {
  node_name = [];
  bus = platform;
  compatibles = virtio_mmio ∷ [];
  mmio_regions = [];
  interrupts = [];
}

abbrev pub system : System machine
system = record {
  kernel = record { supervisor = initial; endpoints = none; process_table = (2, serial) ∷ [] };
  spaces = [];
  pages = [];
  next_arc = 2;
  assets = assets;
  devices = disk ∷ [];
  tasks = [];
}

spawn_app_lem_example :
    (t : System machine) × (spawn_app machine loader boot_init system ≡ some (1, t))
    × (get_state 1 t.kernel.supervisor
        ≡ (if 1 == 1 then some ready else get_state 1 system.kernel.supervisor))
    × (find_endpoint 1 t.kernel.endpoints
        ≡ (if 1 == 1 then some new_endpoint else find_endpoint 1 system.kernel.endpoints))
    × (get 1 t.kernel.process_table ≡ (
        if 1 == 1 then some (new_process boot_init system) else get 1 system.kernel.process_table))
unfolding find_elf bytes_eq spawn_task_from_elf load_segments init_linux_user_stack and_then
spawn_app_lem_example =
    spawn_app_lem machine loader boot_init system 1 (1 ∷ [])
      (4096, user_sp 0x7fff_0000_0000 boot_init, 1) refl refl

spawn_app_leaks_example :
    (t : System machine) × (spawn_app machine loader boot_fs system ≡ some (0, t))
    × (t.kernel.process_table ≡ system.kernel.process_table)
    × (t.kernel.supervisor.next_pid ≡ (1 + 1) % 2 ^ 64)
    × (get_state 1 t.kernel.supervisor
        ≡ (if 1 == 1 then some created else get_state 1 system.kernel.supervisor))
    × (find_endpoint 1 t.kernel.endpoints
        ≡ (if 1 == 1 then some new_endpoint else find_endpoint 1 system.kernel.endpoints))
unfolding find_elf bytes_eq
spawn_app_leaks_example = spawn_app_leaks machine loader boot_fs system 1 refl
