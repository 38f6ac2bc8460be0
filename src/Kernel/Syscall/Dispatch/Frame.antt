-- ===== src/Kernel/Syscall/Dispatch/Frame.antt =====
-- Where a system call writes in the memory of its caller.
use mene_os.Base.{
  ℕ, ◌+◌, ◌≡◌, ◌≤◌, ◌<◌, ◌⊎◌, inl, inr, refl, ◌∙◌, min, not, List, [], ◌∷◌, Option, none, some,
  Result, ok, err, arith, length, take, length-take, length-copy_front, copy_front, ◌==◌,
  Bool-cases,
}
use mene_os.Base.Utf8.{is_utf8}
use mene_os.Abi.Regs.{Regs}
use mene_os.Abi.Sysno
use mene_os.Abi.Sysno.{MeneSysno, try_from}
use mene_os.Ipc.Manager.{AxError}
use mene_os.Kernel.Memory.{Machine}
use mene_os.Kernel.Task.{copy_boot_cfg_to}
use mene_os.Kernel.Syscall
use mene_os.Kernel.Syscall.{Kernel, UserMemory}
use mene_os.Kernel.Syscall.System
use mene_os.Kernel.Syscall.System.{System, Loader, copy_file}
use mene_os.Kernel.Syscall.Dispatch.{
  Memory, load, word, behind, store_behind, store_word_behind, Env, Caller, Outcome, returns,
  unchanged, exits, powers_off, panics, answer_recv, answer_read, answer_cfg, answer_dma,
  answer_spawn, answer_page_to, LinuxCall, mmap, serve_mene, serve_linux, dispatch, handle_syscall,
}
use mene_os.Kernel.Syscall.Dispatch.Messages.{length-load}
use mene_os.Kernel.Syscall.Dispatch.Writes.{
  Fits, store-Fits, store_behind-Fits, store_word-outside, store_word_behind-outside, recv-length,
  timeout-Fits,
}

-- The ranges that the registers of a call give it to write: their addresses and lengths.
abbrev pub ranges : MeneSysno → Regs → List (ℕ × ℕ)
ranges Sysno.ipc_recv r = (r.arg0, r.arg1) ∷ (r.arg2, 8) ∷ (r.arg3, 8) ∷ []
ranges Sysno.ipc_recv_timeout r = (r.arg0, r.arg1) ∷ (r.arg2, 8) ∷ (r.arg2 + 8, 8) ∷ []
ranges Sysno.read_file r = (r.arg2, r.arg3) ∷ []
ranges Sysno.dma_alloc r = (r.arg1, 8) ∷ []
ranges Sysno.get_boot_cfg r = (r.arg0, r.arg1) ∷ []
ranges _ r = []

abbrev pub number_ranges : Option MeneSysno → Regs → List (ℕ × ℕ)
number_ranges none r = []
number_ranges (some call) r = ranges call r

-- The address `a` lies in none of the ranges.
abbrev pub Outside : ℕ → List (ℕ × ℕ) → Type 0
Outside a [] = Unit {0}
Outside a ((p, n) ∷ rs) = ((a < p) ⊎ (p + n ≤ a)) × Outside a rs

abbrev pub memory_after : {m : Machine} → Memory → Outcome m → Memory
memory_after mem (returns value mem' t) = mem'
memory_after mem (unchanged t) = mem
memory_after mem (exits t) = mem
memory_after mem powers_off = mem
memory_after mem panics = mem

-- What IpcRecvTimeout finds behind its pointers.
abbrev two_words : Regs → Memory → UserMemory
two_words r mem = record {
  buf = behind r.arg0 (load mem r.arg0 r.arg1);
  sender_pid = behind r.arg2 (word mem r.arg2);
  recv_cap = behind r.arg2 (word mem (r.arg2 + 8));
}

module _ (m : Machine) (l : Loader) (env : Env) (a : ℕ) where
  recv-Outside :
      (buf_ptr n sender_ptr cap_ptr : ℕ) (mem : Memory) (s : System m)
      (x : Result AxError ℕ × UserMemory × Kernel)
      → Fits n x.1.buf
      → Outside a ((buf_ptr, n) ∷ (sender_ptr, 8) ∷ (cap_ptr, 8) ∷ [])
      → memory_after mem (answer_recv m l env buf_ptr sender_ptr cap_ptr mem s x) a ≡ mem a
  recv-Outside buf_ptr n sender_ptr cap_ptr mem s (r, user, k) fits (out_buf, more) =
      let (out_sender, last) = more in
      let (out_cap, end) = last in
      store_word_behind-outside a cap_ptr user.recv_cap
        (store_word_behind sender_ptr user.sender_pid (store_behind buf_ptr user.buf mem)) out_cap
      ∙ store_word_behind-outside a sender_ptr user.sender_pid (store_behind buf_ptr user.buf mem)
          out_sender
      ∙ store_behind-Fits a buf_ptr n user.buf mem fits out_buf

  behind-Fits : (ptr len : ℕ) (mem : Memory) → Fits len (behind ptr (load mem ptr len))
  behind-Fits ptr len mem = elim (Bool-cases (ptr == 0)) [
    | inl null ↦ rw null tt
    | inr real ↦ rw real (omega (arith, length-load mem ptr len))
  ]

  read-outside :
      (ptr n : ℕ) (mem : Memory) (s : System m) (file : Option (List ℕ))
      → (a < ptr) ⊎ (ptr + n ≤ a)
      → memory_after mem (answer_read m l env ptr mem s (copy_file m file n)) a ≡ mem a
  read-outside ptr n mem s none out = refl
  read-outside ptr n mem s (some file) out =
      store-Fits a ptr n (take (min (length file) n) file) mem
        (omega (arith, length-take (min (length file) n) file)) out

  read_file-outside :
      (ptr n pid : ℕ) (path : List ℕ) (mem : Memory) (s : System m)
      → (a < ptr) ⊎ (ptr + n ≤ a)
      → memory_after mem (answer_read m l env ptr mem s (System.read_file m l pid path n)) a ≡ mem a
  unfolding System.read_file
  read_file-outside ptr n pid path mem s out = elim (Bool-cases (not (pid == 1))) [
    | inl denied ↦ rw denied refl
    | inr init ↦ elim (Bool-cases (is_utf8 path)) [
      | inl text ↦ rw (init, text) (read-outside ptr n mem s (l.files path) out)
      | inr odd ↦ rw (init, odd) refl
    ]
  ]

  cfg-outside :
      (ptr n : ℕ) (buf : Option (List ℕ)) (mem : Memory) (s : System m)
      → Fits n buf
      → (a < ptr) ⊎ (ptr + n ≤ a)
      → memory_after mem (answer_cfg m l env ptr mem s (System.get_boot_cfg m buf s)) a ≡ mem a
  unfolding System.get_boot_cfg copy_boot_cfg_to
  cfg-outside ptr n none mem s fits out = refl
  cfg-outside ptr n (some buf) mem s fits out = elim (Bool-cases (length buf == 0)) [
    | inl empty ↦ rw empty refl
    | inr full ↦
        let k = min (length s.assets.boot_cfg) (length buf) in
        let front = take k s.assets.boot_cfg in
        let small : length front ≤ length buf = omega (arith, length-take k s.assets.boot_cfg) in
        rw full (
          store-Fits a ptr n (copy_front front buf) mem
            (omega (arith, fits, length-copy_front front buf small)) out)
  ]

  dma-outside :
      (ptr : ℕ) (mem : Memory) (x : Result AxError (ℕ × ℕ) × System m)
      → (a < ptr) ⊎ (ptr + 8 ≤ a)
      → memory_after mem (answer_dma m l env ptr mem x) a ≡ mem a
  dma-outside ptr mem (err e, s) out = refl
  dma-outside ptr mem (ok (vaddr, paddr), s) out = store_word-outside a ptr paddr mem out

  spawn-outside :
      (mem : Memory) (x : Option (Result AxError ℕ × System m))
      → memory_after mem (answer_spawn m l env mem x) a ≡ mem a
  spawn-outside mem none = refl
  spawn-outside mem (some x) = refl

  page_to-outside :
      (mem : Memory) (x : Option (Result AxError ℕ) × System m)
      → memory_after mem (answer_page_to m l env mem x) a ≡ mem a
  page_to-outside mem (none, s) = refl
  page_to-outside mem (some r, s) = refl

  serve_mene-Outside :
      (call : MeneSysno) (c : Caller m) (r : Regs) (mem : Memory) (s : System m)
      → Outside a (ranges call r)
      → memory_after mem (serve_mene m l env call c r mem s) a ≡ mem a
  unfolding serve_mene
  serve_mene-Outside Sysno.spawn c r mem s out =
      spawn-outside mem (System.spawn m l (load mem r.arg0 r.arg1) s)
  serve_mene-Outside Sysno.spawn_elf c r mem s out = spawn-outside mem (
      System.spawn_elf m l c.pid (behind r.arg0 (load mem r.arg0 r.arg1))
        (behind r.arg2 (load mem r.arg2 r.arg3)) s)
  serve_mene-Outside Sysno.ipc_recv c r mem s out =
      recv-Outside r.arg0 r.arg1 r.arg2 r.arg3 mem s
        (Syscall.ipc_recv c.pid (load mem r.arg0 r.arg1)
          (record {
            buf = none;
            sender_pid = behind r.arg2 (word mem r.arg2);
            recv_cap = behind r.arg3 (word mem r.arg3);
          })
          s.kernel)
        (unfold Syscall.ipc_recv in
          omega (
            arith,
            recv-length c.pid (load mem r.arg0 r.arg1) s.kernel.endpoints,
            length-load mem r.arg0 r.arg1,
          ))
        out
  serve_mene-Outside Sysno.ipc_recv_timeout c r mem s out =
      recv-Outside r.arg0 r.arg1 r.arg2 (r.arg2 + 8) mem s
        (Syscall.ipc_recv_timeout c.pid r.arg3 (two_words r mem) s.kernel)
        (timeout-Fits c.pid r.arg3 r.arg1 (two_words r mem) s.kernel
          (behind-Fits r.arg0 r.arg1 mem))
        out
  serve_mene-Outside Sysno.read_file c r mem s out =
      read_file-outside r.arg2 r.arg3 c.pid (load mem r.arg0 r.arg1) mem s out.0
  serve_mene-Outside Sysno.vmm_map_page_to c r mem s out =
      page_to-outside mem (System.vmm_map_page_to m c.pid r.arg0 r.arg1 r.arg2 s)
  serve_mene-Outside Sysno.dma_alloc c r mem s out =
      dma-outside r.arg1 mem (System.dma_alloc m c.aspace c.space r.arg0 (r.arg1 == 0) s) out.0
  serve_mene-Outside Sysno.get_boot_cfg c r mem s out =
      cfg-outside r.arg0 r.arg1 (behind r.arg0 (load mem r.arg0 r.arg1)) mem s
        (behind-Fits r.arg0 r.arg1 mem) out.0
  serve_mene-Outside _ c r mem s out = refl

  serve_linux-outside :
      (call : LinuxCall) (c : Caller m) (r : Regs) (mem : Memory) (s : System m)
      → memory_after mem (serve_linux m l env call c r mem s) a ≡ mem a
  unfolding serve_linux
  serve_linux-outside mmap c r mem s = refl
  serve_linux-outside _ c r mem s = refl

  -- A byte of the caller's memory that lies in no range which the registers give the call to write
  -- (the buffer and the two words of a receive, the buffer of a file or of the boot configuration, the
  -- word of a DMA address) is after any system call what it was before.
  pub handle_syscall-Outside :
      (c : Caller m) (r : Regs) (mem : Memory) (s : System m)
      → Outside a (number_ranges (try_from r.sysno) r)
      → memory_after mem (handle_syscall m l env c r mem s) a ≡ mem a
  unfolding handle_syscall
  handle_syscall-Outside c r mem s out = by_number (try_from r.sysno) out
    where
      by_number :
          (x : Option MeneSysno)
          → Outside a (number_ranges x r)
          → memory_after mem (dispatch m l env x c r mem s) a ≡ mem a
      by_number (some call) h = serve_mene-Outside call c r mem s h
      by_number none h = serve_linux-outside (env.linux r.sysno) c r mem s
