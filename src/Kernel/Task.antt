-- ===== src/Kernel/Task.antt =====
-- kernel/mene-task/src/task.rs: the files that are read at boot, and the memory of a new task. The
-- file system `axfs` is a function from paths to bytes, and an ELF file is what `xmas_elf` reads of
-- it. A call that panics returns `none`; the loop that runs the task is not here.
pub mod Stack
pub mod Preload
use mene_os.Base.{
  ℕ, zero, ◌+◌, ◌-◌, ◌*◌, ◌%◌, ◌^◌, min, Bool, true, false, not, ◌||◌, List, [], ◌∷◌, ◌++◌, Option,
  none, some, length, take, slice, copy_front, ltb, ◌==◌, if◌then◌else◌, bytes_eq, to_le,
}
use mene_os.Base.Utf8.{is_utf8}
use mene_os.Kernel.Device.{boot_serial, boot_fs, boot_virtio_blk}
use mene_os.Kernel.Memory.{
  Machine, MappingFlag, user, read, write, execute, user_space_base, user_space_size,
  user_stack_top, user_stack_size,
}

-- PRELOADED_ELFS and PRELOADED_BOOT_CFG
pub record Assets : Type 0 where
  pub elfs : List (List ℕ × List ℕ)
  pub boot_cfg : List ℕ

abbrev pub boot_toml : List ℕ
boot_toml =
    b'/' ∷ b'b' ∷ b'o' ∷ b'o' ∷ b't' ∷ b'/' ∷ b'b' ∷ b'o' ∷ b'o' ∷ b't' ∷ b'.' ∷ b't' ∷ b'o' ∷ b'm'
    ∷ b'l' ∷ []

abbrev pub boot_init : List ℕ
boot_init = b'/' ∷ b'b' ∷ b'o' ∷ b'o' ∷ b't' ∷ b'/' ∷ b'i' ∷ b'n' ∷ b'i' ∷ b't' ∷ []

-- `get` on the cache
unfoldable pub find_elf : List ℕ → List (List ℕ × List ℕ) → Option (List ℕ)
find_elf path [] = none
find_elf path ((p, elf) ∷ cache) =
    let rest = find_elf path cache in if bytes_eq p path then some elf else rest

abbrev pub contains_key : Option (List ℕ) → Bool
contains_key none = false
contains_key (some elf) = true

abbrev pub cached : List ℕ → Option (List ℕ) → List (List ℕ × List ℕ) → List (List ℕ × List ℕ)
cached path none cache = cache
cached path (some elf) cache = (path, elf) ∷ cache

-- The loop over the paths.
unfoldable pub preload_paths :
    (List ℕ → Option (List ℕ)) → List (List ℕ) → List (List ℕ × List ℕ) → List (List ℕ × List ℕ)
preload_paths files [] cache = cache
preload_paths files (path ∷ paths) cache =
    preload_paths files paths
      (if contains_key (find_elf path cache) then cache else cached path (files path) cache)

abbrev pub bootstrap_paths : List (List ℕ)
bootstrap_paths = boot_init ∷ boot_serial ∷ boot_virtio_blk ∷ boot_fs ∷ []

abbrev pub preload_elfs : (List ℕ → Option (List ℕ)) → List ℕ → Bool × Assets
preload_elfs files boot_cfg =
    let elfs = preload_paths files bootstrap_paths [] in
    (contains_key (find_elf boot_init elfs), record { elfs = elfs; boot_cfg = boot_cfg })

abbrev pub preload_cfg : (List ℕ → Option (List ℕ)) → Option (List ℕ) → Assets → Bool × Assets
preload_cfg files none a = (false, a)
preload_cfg files (some cfg) a = if is_utf8 cfg then preload_elfs files cfg else (false, a)

unfoldable pub preload_boot_assets : (List ℕ → Option (List ℕ)) → Assets → Bool × Assets
preload_boot_assets files a = preload_cfg files (files boot_toml) a

-- The number of bytes, and the buffer.
unfoldable pub copy_boot_cfg_to : List ℕ → Assets → ℕ × List ℕ
copy_boot_cfg_to buf a =
    let n = min (length a.boot_cfg) (length buf) in (n, copy_front (take n a.boot_cfg) buf)

abbrev pub get_preloaded_elf : List ℕ → Assets → Option (List ℕ)
get_preloaded_elf path a = find_elf path a.elfs

-- `-` on a `usize`, which wraps around.
abbrev pub sub : ℕ → ℕ → ℕ
sub n k = (n + 2 ^ 64 - k) % 2 ^ 64

-- What is written for the arguments: at most 63 bytes of the name and a zero.
abbrev pub argv0_bytes : List ℕ → List ℕ
argv0_bytes argv0 = take 63 argv0 ++ 0 ∷ []

-- argc, argv[0], the end of argv, the end of envp, the page size, the entry point and AT_NULL
abbrev pub stack_words : ℕ → ℕ → List ℕ
stack_words argv0_ptr entry_point = 1 ∷ argv0_ptr ∷ 0 ∷ 0 ∷ 6 ∷ 4096 ∷ 9 ∷ entry_point ∷ 0 ∷ 0 ∷ []

-- The bytes of the words, eight for each; `to_ne_bytes` is little-endian on these platforms.
unfoldable pub words_bytes : List ℕ → List ℕ
words_bytes [] = []
words_bytes (w ∷ ws) = to_le 8 w ++ words_bytes ws

abbrev pub argv0_addr : ℕ → List ℕ → ℕ
argv0_addr stack_top argv0 = sub stack_top (length (argv0_bytes argv0))

-- `sp & !0x0f`
abbrev pub align_down_16 : ℕ → ℕ
align_down_16 n = n - n % 16

abbrev pub user_sp : ℕ → List ℕ → ℕ
user_sp stack_top argv0 = align_down_16 (sub (argv0_addr stack_top argv0) 80)

-- One segment of the program.
pub record Segment : Type 0 where
  pub is_load : Bool
  pub virtual_addr : ℕ
  pub mem_size : ℕ
  pub offset : ℕ
  pub file_size : ℕ

pub record Elf : Type 0 where
  pub entry_point : ℕ
  pub segments : List Segment

abbrev pub segment_flags : List MappingFlag
segment_flags = user ∷ read ∷ write ∷ execute ∷ []

abbrev pub stack_flags : List MappingFlag
stack_flags = user ∷ read ∷ write ∷ []

module _ (m : Machine) where
  -- `unwrap` on the result.
  abbrev pub unwrap : Bool × m.AddrSpace → Option m.AddrSpace
  unwrap (true, a) = some a
  unwrap (false, a) = none

  unfoldable pub and_then : {B : Type 0} → Option m.AddrSpace → (m.AddrSpace → Option B) → Option B
  and_then none f = none
  and_then (some a) f = f a

  abbrev pub with_sp : ℕ → Option m.AddrSpace → Option (ℕ × m.AddrSpace)
  with_sp sp none = none
  with_sp sp (some a) = some (sp, a)

  unfoldable pub init_linux_user_stack : ℕ → List ℕ → ℕ → m.AddrSpace → Option (ℕ × m.AddrSpace)
  init_linux_user_stack stack_top argv0 entry_point a =
      let argv0_ptr = argv0_addr stack_top argv0 in
      let sp = user_sp stack_top argv0 in
      and_then (unwrap (m.write argv0_ptr (argv0_bytes argv0) a))
        λ b. with_sp sp (unwrap (m.write sp (words_bytes (stack_words argv0_ptr entry_point)) b))

  -- The body of the loop over the segments; a segment that ends behind the file panics.
  unfoldable pub load_segment : List ℕ → Segment → m.AddrSpace → Option m.AddrSpace
  load_segment file s a =
      let vaddr = m.align_down_4k s.virtual_addr in
      let vend = m.align_up_4k (s.virtual_addr + s.mem_size) in
      if not s.is_load
      then some a
      else and_then (unwrap (m.map_alloc vaddr (vend - vaddr) segment_flags a)) λ b.
        (if ltb (length file) (s.offset + s.file_size)
          then none
          else unwrap (m.write s.virtual_addr (slice s.offset s.file_size file) b))

  unfoldable pub load_segments : List ℕ → List Segment → m.AddrSpace → Option m.AddrSpace
  load_segments file [] a = some a
  load_segments file (s ∷ ss) a = and_then (load_segment file s a) (load_segments file ss)

  -- What the new task starts with: its entry point, its stack pointer and its memory.
  abbrev pub Started : Type 0
  Started = ℕ × ℕ × m.AddrSpace

  abbrev pub started : ℕ → Option (ℕ × m.AddrSpace) → Option Started
  started entry_point none = none
  started entry_point (some (sp, a)) = some (entry_point, sp, a)

  abbrev pub load_elf : List ℕ → List ℕ → Option Elf → Option Started
  load_elf path file none = none
  load_elf path file (some elf) = and_then (m.new_user_aspace user_space_base user_space_size) λ a.
      and_then (load_segments file elf.segments a) λ b.
        and_then
          (unwrap (m.map_alloc (user_stack_top - user_stack_size) user_stack_size stack_flags b))
          λ c. started elf.entry_point (init_linux_user_stack user_stack_top path elf.entry_point c)

  unfoldable pub spawn_task_from_elf : (List ℕ → Option Elf) → List ℕ → List ℕ → Option Started
  spawn_task_from_elf parse path file = load_elf path file (parse file)
