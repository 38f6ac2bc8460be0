-- ===== src/VirtioBlk/Hal/Window.antt =====
-- `mmio_phys_to_virt`: the pages that hold a range of device registers.
use mene_os.Base.{
  ℕ, ◌+◌, ◌*◌, ◌%◌, ◌^◌, ◌≡◌, ◌≤◌, ◌<◌, refl, ◌∙◌, ap, subst, max, some, arith, ◌==◌, false,
}
use mene_os.VirtioBlk.Hal.{
  Kernel, page_size, all_ones, in_page, window, mapped_at, mmio_phys_to_virt,
}

-- The mapped pages of a range of registers that ends at least two pages below 2 ^ 64: whole pages,
-- in which the range lies, and no page that the range does not touch.
pub window-covers :
    (paddr size : ℕ)
    → paddr + max size 1 + 2 * page_size ≤ 2 ^ 64
    → let (base, len) = window paddr size in
      (in_page base ≡ 0)
      × (in_page len ≡ 0)
      × (base ≤ paddr)
      × (paddr < base + page_size)
      × (paddr + max size 1 ≤ base + len)
      × (base + len < paddr + max size 1 + page_size)
unfolding window
window-covers paddr size room = omega (arith, room)

module _ (kernel : Kernel) where
  -- For a range of registers that ends at least two pages below 2 ^ 64: if the kernel maps the pages
  -- of the window one behind the other from an address that is not 0, below the end of the address
  -- space, the call gives an address at which, and behind which, the registers of the range stand.
  pub mmio_phys_to_virt_lem :
      (paddr size mapped : ℕ) (s t : kernel.State)
      → paddr + max size 1 + 2 * page_size ≤ 2 ^ 64
      → kernel.sys_map_device (window paddr size).0 (window paddr size).1 s ≡ (mapped, t)
      → 1 ≤ mapped
      → mapped + (window paddr size).1 < all_ones
      → ((k : ℕ)
          → k < (window paddr size).1
          → kernel.sys_virt_to_phys t (mapped + k) ≡ (window paddr size).0 + k)
      → (p : ℕ) × (mmio_phys_to_virt kernel paddr size s ≡ (some p, t))
        × ((k : ℕ) → k < max size 1 → kernel.sys_virt_to_phys t (p + k) ≡ paddr + k)
  unfolding mmio_phys_to_virt
  mmio_phys_to_virt_lem paddr size mapped s t room maps some_address inside linear =
      let (base_at, len_at, low, near, high, tight) = window-covers paddr size room in
      let off = in_page paddr in
      let start : (window paddr size).0 + off ≡ paddr = omega (arith, low, near, base_at) in
      let below : off < (window paddr size).1 = omega (arith, start, high) in
      let sum : (mapped + off) % 2 ^ 64 ≡ mapped + off = omega (arith, inside, below) in
      let is_real : (mapped == all_ones) ≡ false = ground (arith, inside) in
      let is_some : (mapped + off == 0) ≡ false = ground (arith, some_address) in
      (
        mapped + off,
        ap (mapped_at off) maps ∙ rw (is_real, sum, is_some) refl,
        λ k h.
            let inner : off + k < (window paddr size).1 = omega (arith, start, high, h) in
            let there : mapped + (off + k) ≡ mapped + off + k = omega arith in
            subst (λ v. kernel.sys_virt_to_phys t v ≡ paddr + k) there
              (linear (off + k) inner ∙ omega (arith, start)),
      )
