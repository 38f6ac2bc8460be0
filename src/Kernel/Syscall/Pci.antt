-- ===== src/Kernel/Syscall/Pci.antt =====
-- The addresses of the PCI configuration space that `PciCfgRead` reads.
use mene_os.Base.{
  ℕ, ◌+◌, ◌-◌, ◌*◌, ◌/◌, ◌%◌, ◌^◌, ◌≤◌, ◌<◌, ◌≡◌, refl, sym, ◌∙◌, false, not, ◌||◌, some, arith,
  ltb, leb, ◌==◌,
}
use mene_os.Kernel.Syscall.{pci_cfg_addr}

-- The arguments that are accepted, by their bounds.
pub record IsPlace (device function offset : ℕ) : Type 0 where
  pub device_lt : device < 32
  pub function_lt : function < 8
  pub offset_le : offset ≤ 0xffc
  pub aligned : offset % 4 ≡ 0

pci_cfg_addr-some :
    (ecam bus device function offset a : ℕ)
    → pci_cfg_addr ecam bus device function offset ≡ some a
    → IsPlace device function offset
      × (a ≡ (ecam + bus * 2 ^ 20 % 2 ^ 64 + device * 2 ^ 15 + function * 2 ^ 12 + offset) % 2 ^ 64)
unfolding pci_cfg_addr
pci_cfg_addr-some ecam bus device function offset a h = (
  record {
    device_lt = ground (arith, h);
    function_lt = ground (arith, h);
    offset_le = ground (arith, h);
    aligned = ground (arith, h);
  },
  ground (arith, h),
)

-- In the window nothing wraps around.
pci_cfg_addr-window :
    (ecam bus device function offset : ℕ)
    → ecam + 2 ^ 28 ≤ 2 ^ 64
    → bus < 256
    → IsPlace device function offset
    → (ecam + bus * 2 ^ 20 % 2 ^ 64 + device * 2 ^ 15 + function * 2 ^ 12 + offset) % 2 ^ 64
      ≡ ecam + (bus * 2 ^ 20 + (device * 2 ^ 15 + (function * 2 ^ 12 + offset)))
pci_cfg_addr-window ecam bus device function offset window lt place =
    omega (arith, place.device_lt, place.function_lt, place.offset_le)

same_sum : (e x y : ℕ) → e + x ≡ e + y → x ≡ y
same_sum e x y h = omega (arith, h)

same_place :
    (b d f o b' d' f' o' : ℕ)
    → IsPlace d f o
    → IsPlace d' f' o'
    → b * 2 ^ 20 + (d * 2 ^ 15 + (f * 2 ^ 12 + o))
      ≡ b' * 2 ^ 20 + (d' * 2 ^ 15 + (f' * 2 ^ 12 + o'))
    → (b ≡ b') × (d ≡ d') × (f ≡ f') × (o ≡ o')
same_place b d f o b' d' f' o' p q e =
    let (d1, f1, o1) : (d < 32) × (f < 8) × (o < 4096) =
      (p.device_lt, p.function_lt, omega (arith, p.offset_le)) in
    let (d2, f2, o2) : (d' < 32) × (f' < 8) × (o' < 4096) =
      (q.device_lt, q.function_lt, omega (arith, q.offset_le)) in
    (
      omega (arith, e, d1, f1, o1, d2, f2, o2),
      omega (arith, e, d1, f1, o1, d2, f2, o2),
      omega (arith, e, d1, f1, o1, d2, f2, o2),
      omega (arith, e, d1, f1, o1, d2, f2, o2),
    )

-- Two reads of buses below 256 that are accepted and reach the same address are the same read, if
-- the window of 2 ^ 28 bytes does not pass the end of the address space.
pub pci_cfg_addr_injective :
    (ecam bus device function offset bus' device' function' offset' a : ℕ)
    → ecam + 2 ^ 28 ≤ 2 ^ 64
    → bus < 256
    → bus' < 256
    → pci_cfg_addr ecam bus device function offset ≡ some a
    → pci_cfg_addr ecam bus' device' function' offset' ≡ some a
    → (bus ≡ bus') × (device ≡ device') × (function ≡ function') × (offset ≡ offset')
pci_cfg_addr_injective ecam bus device function offset bus' device' function' offset' a window lt
      lt' h h' =
    let (place, at) = pci_cfg_addr-some ecam bus device function offset a h in
    let (place', at') = pci_cfg_addr-some ecam bus' device' function' offset' a h' in
    let flat = pci_cfg_addr-window ecam bus device function offset window lt place in
    let flat' = pci_cfg_addr-window ecam bus' device' function' offset' window lt' place' in
    same_place bus device function offset bus' device' function' offset' place place'
      (same_sum ecam _ _ (sym flat ∙ sym at ∙ at' ∙ flat'))

-- The parts of a distance from the base.
split_distance :
    (k : ℕ)
    → k / 2 ^ 20 * 2 ^ 20 + (k / 2 ^ 15 % 32 * 2 ^ 15 + (k / 2 ^ 12 % 8 * 2 ^ 12 + k % 2 ^ 12)) ≡ k
split_distance k = omega arith

-- The bus number has no bound: for every address from the base of the window to the end of the
-- address space, a whole number of words from the base, some accepted arguments read just there.
pub pci_cfg_addr_reaches :
    (ecam a : ℕ)
    → ecam ≤ a
    → a < 2 ^ 64
    → (a - ecam) % 4 ≡ 0
    → (bus : ℕ) × (device : ℕ) × (function : ℕ) × (offset : ℕ) × (pci_cfg_addr ecam bus device
          function offset
        ≡ some a)
unfolding pci_cfg_addr
pci_cfg_addr_reaches ecam a from small aligned =
    let k = a - ecam in
    let split = split_distance k in
    let good : (leb 32 (k / 2 ^ 15 % 32)
          || leb 8 (k / 2 ^ 12 % 8)
          || ltb 0xffc (k % 2 ^ 12)
          || not (k % 2 ^ 12 % 4 == 0))
        ≡ false =
      (let device_lt : k / 2 ^ 15 % 32 < 32 = omega arith in
        let function_lt : k / 2 ^ 12 % 8 < 8 = omega arith in
        let offset_le : k % 2 ^ 12 ≤ 4092 = omega (arith, aligned) in
        let offset_aligned : k % 2 ^ 12 % 4 ≡ 0 = omega (arith, aligned) in
        ground (arith, device_lt, function_lt, offset_le, offset_aligned)) in
    let there : (ecam
            + k / 2 ^ 20 * 2 ^ 20 % 2 ^ 64
            + k / 2 ^ 15 % 32 * 2 ^ 15
            + k / 2 ^ 12 % 8 * 2 ^ 12
            + k % 2 ^ 12)
          % 2 ^ 64
        ≡ a =
      (let high : k / 2 ^ 20 * 2 ^ 20 % 2 ^ 64 ≡ k / 2 ^ 20 * 2 ^ 20 = omega (arith, small) in
        let sum : ecam
              + k / 2 ^ 20 * 2 ^ 20
              + k / 2 ^ 15 % 32 * 2 ^ 15
              + k / 2 ^ 12 % 8 * 2 ^ 12
              + k % 2 ^ 12
            ≡ a =
          omega (arith, split, from) in
        let wrap : a % 2 ^ 64 ≡ a = omega (arith, small) in rw (high, sum, wrap) refl) in
    (k / 2 ^ 20, k / 2 ^ 15 % 32, k / 2 ^ 12 % 8, k % 2 ^ 12, rw (good, there) refl)
