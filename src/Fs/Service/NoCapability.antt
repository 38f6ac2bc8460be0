-- ===== src/Fs/Service/NoCapability.antt =====
-- What the kernel hands to the loops of apps/fs and apps/virtio_blk: `ipc_recv`, `sys_ipc_recv` and a
-- round of each.
use mene_os.Base.{ℕ, ◌≡◌, refl, List, ◌∷◌, some, Bool-cases, inl, inr, ltb}
use mene_os.Ipc.Manager.{AxError, recv}
use mene_os.Ulib.World.{RawRecv, World, next_recv}
use mene_os.Ulib.Ipc.{sys_ipc_recv}
use mene_os.Kernel.Syscall.{Kernel, ipc_recv}
use mene_os.Kernel.Syscall.Capabilities.{raw, recv-cap_zero, words_on-zero}
use mene_os.Fs.FatFs.{FatFs}
use mene_os.Fs.Service.{Server, round}
use mene_os.VirtioBlk.Backend.{Driver}
use mene_os.VirtioBlk.Service.{Service, serve}
use mene_os.VirtioBlk.Start

-- One `sys_ipc_recv` of the process `pid`, as the kernel answers it: the two words were zero.
abbrev pub handed : (AxError → ℕ) → ℕ → List ℕ → Kernel → RawRecv
handed code pid buf k =
    raw code
      (ipc_recv pid buf (record { buf = some buf; sender_pid = some 0; recv_cap = some 0 }) k)

handed-no_cap :
    (code : AxError → ℕ) (pid : ℕ) (buf : List ℕ) (k : Kernel) → (handed code pid buf k).meta1 ≡ 0
unfolding ipc_recv
handed-no_cap code pid buf k =
    words_on-zero (recv pid buf 0 0 k.endpoints).0.result _ (recv-cap_zero pid buf k.endpoints)

-- A program whose next receive the kernel answers.
abbrev pub hears : RawRecv → World → World
hears r w = record w { recvs = r ∷ w.recvs }

module _ (code : AxError → ℕ) (pid : ℕ) (buf : List ℕ) (k : Kernel) where
  fs_ignores :
      (fat : FatFs) (s : Server fat)
      → round fat (record s {
        client = record s.client { world = hears (handed code pid buf k) s.client.world };
      })
        ≡ s
  unfolding round sys_ipc_recv next_recv
  fs_ignores fat s = rw (handed-no_cap code pid buf k) refl

  blk_ignores :
      {mmio pci : Driver} (w : World) (s : Service mmio pci)
      → Start.round (hears (handed code pid buf k) w, s) ≡ (w, s)
  unfolding Start.round sys_ipc_recv next_recv serve
  blk_ignores w s = elim (Bool-cases (ltb (handed code pid buf k).ret 2)) [
    | inl short ↦ rw short refl
    | inr long ↦ rw (long, handed-no_cap code pid buf k) refl
  ]

  -- Whatever messages wait in the kernel, with whatever capabilities they were sent, and whatever
  -- numbers its errors have: the message that `sys_ipc_recv` hands to the file service or to the block
  -- service comes with no capability, so that the round of either for it takes the message, sends
  -- nothing and leaves the files, the disk and its variables as they were.
  pub services_ignore :
      {mmio pci : Driver} (fat : FatFs) (s : Server fat) (w : World) (b : Service mmio pci)
      → let heard = hears (handed code pid buf k) in
        (round fat (record s { client = record s.client { world = heard s.client.world } }) ≡ s)
        × (Start.round (heard w, b) ≡ (w, b))
  services_ignore fat s w b = (fs_ignores fat s, blk_ignores w b)
