-- ===== src/VirtioBlk/Hal/Share.antt =====
-- `share`: a buffer gets a physical address if and only if it is contiguous.
use mene_os.Base.{
  ℕ, zero, suc, ◌+◌, ◌-◌, ◌%◌, ◌^◌, ◌≡◌, ◌≢◌, ◌≤◌, ◌<◌, ◌⊎◌, ◌↔◌, subst, inl, inr, refl, sym, ◌∙◌,
  ap, min, false, Option, some, arith, ltb, ◌==◌, Bool-cases,
}
use mathlib.Core.Bool.{true≢false}
use mene_os.Ipc.Manager.{AxError}
use mene_os.Kernel.Memory.{Machine, do_virt_to_phys}
use mene_os.Kernel.Syscall.{retval}
use mene_os.Kernel.Syscall.System
use mene_os.VirtioBlk.Hal.{
  Kernel, share, page_size, all_ones, in_page, page_of, share_loop, share_at,
}

-- Of the `len` bytes from `vaddr`, those of one page are translated with the same distance, and to the
-- same place in a page.
record IsPaged (virt_to_phys : ℕ → ℕ) (vaddr len : ℕ) : Type 0 where
  along :
      (v k : ℕ)
      → vaddr ≤ v
      → v + k < vaddr + len
      → in_page v + k < page_size
      → virt_to_phys (v + k) ≡ virt_to_phys v + k
  in_place : (v : ℕ) → vaddr ≤ v → v < vaddr + len → in_page (virt_to_phys v) ≡ in_page v
  bounded : (v : ℕ) → vaddr ≤ v → v < vaddr + len → virt_to_phys v < all_ones

module _ (virt_to_phys : ℕ → ℕ) where
  -- The first `n` bytes from `vaddr` lie one behind the other from the address of the first.
  abbrev pub Contiguous : ℕ → ℕ → Type 0
  Contiguous vaddr n = (k : ℕ) → k < n → virt_to_phys (vaddr + k) ≡ virt_to_phys vaddr + k

  -- One of the first `n` bytes lies elsewhere.
  abbrev pub Broken : ℕ → ℕ → Type 0
  Broken vaddr n = (k : ℕ) × (k < n) × (virt_to_phys (vaddr + k) ≢ virt_to_phys vaddr + k)

  abbrev pub Shared : ℕ → ℕ → Option ℕ → Type 0
  Shared vaddr len result =
      ((result ≡ some (virt_to_phys vaddr)) × Contiguous vaddr len)
      ⊎ ((result ≡ some 0) × Broken vaddr len)

module _ (virt_to_phys : ℕ → ℕ) (vaddr len : ℕ) (paged : IsPaged virt_to_phys vaddr len) where
  -- A page that starts where the bytes before it end continues them.
  extend :
      (covered step : ℕ)
      → Contiguous virt_to_phys vaddr covered
      → in_page (vaddr + covered) ≡ 0
      → step ≤ page_size
      → covered + step ≤ len
      → virt_to_phys (vaddr + covered) ≡ virt_to_phys vaddr + covered
      → Contiguous virt_to_phys vaddr (covered + step)
  extend covered step before aligned small inside next k h = elim (Bool-cases (ltb k covered)) [
    | inl near ↦ before k (ground (arith, near))
    | inr behind ↦
        let le : covered ≤ k = ground (arith, behind) in
        let there : (vaddr + covered) + (k - covered) ≡ vaddr + k = omega (arith, le) in
        subst (λ v. virt_to_phys v ≡ virt_to_phys vaddr + k) there
          (paged.along (vaddr + covered) (k - covered) (omega arith) (omega (arith, h, le, inside))
              (omega (arith, aligned, small, h, le))
            ∙ omega (arith, next, le))
  ]

  -- Of two pages with the same number, the addresses at their start are the same.
  same_page :
      (covered : ℕ)
      → covered < len
      → in_page (vaddr + covered) ≡ 0
      → (page_of (virt_to_phys (vaddr + covered)) ≡ page_of (virt_to_phys vaddr + covered))
        ↔ (virt_to_phys (vaddr + covered) ≡ virt_to_phys vaddr + covered)
  same_page covered lt aligned =
      let a = paged.in_place vaddr (omega arith) (omega (arith, lt)) in
      let b = paged.in_place (vaddr + covered) (omega arith) (omega (arith, lt)) in
      (λ same. omega (arith, same, a, b, aligned), λ e. omega (arith, e))

  share_loop-Shared :
      (fuel covered : ℕ)
      → len < covered + fuel
      → covered ≤ len
      → Contiguous virt_to_phys vaddr covered
      → (covered < len → in_page (vaddr + covered) ≡ 0)
      → Shared virt_to_phys vaddr len
          (share_loop virt_to_phys vaddr len (virt_to_phys vaddr) fuel covered)
  unfolding share_loop
  share_loop-Shared zero covered enough le before aligned =
      let no : 1 ≤ 0 = omega (arith, enough, le) in elim no [ ]
  share_loop-Shared (suc fuel) covered enough le before aligned =
      let cur = virt_to_phys (vaddr + covered) in
      let step = min (len - covered) page_size in
      elim (Bool-cases (ltb covered len)) [
        | inr done ↦
            let all : covered ≡ len = ground (arith, done, le) in
            rw done (inl (refl, subst (Contiguous virt_to_phys vaddr) all before))
        | inl more ↦
            let lt : covered < len = ground (arith, more) in
            let real = paged.bounded (vaddr + covered) (omega arith) (omega (arith, lt)) in
            let there : (cur == all_ones) ≡ false = ground (arith, real) in
            let same = same_page covered lt (aligned lt) in
            elim (Bool-cases (page_of cur == page_of (virt_to_phys vaddr + covered))) [
              | inl joins ↦
                  rw (more, there, joins)
                    (share_loop-Shared fuel (covered + step) (omega (arith, enough, lt))
                      (omega (arith, lt))
                      (extend covered step before (aligned lt) (omega arith) (omega (arith, lt))
                        (same.0 (ground (arith, joins))))
                      (λ again. omega (arith, again, aligned lt, lt)))
              | inr apart ↦
                  rw (more, there, apart)
                    (inr (
                      refl,
                      (covered, lt, λ e. true≢false (sym (ground (arith, same.1 e)) ∙ apart)),
                    ))
            ]
      ]

  share_at-Shared : 1 ≤ len → Shared virt_to_phys vaddr len (share_at virt_to_phys vaddr len)
  unfolding share_at
  share_at-Shared some_bytes =
      let front = min len (page_size - in_page vaddr) in
      let real = paged.bounded vaddr (omega arith) (omega (arith, some_bytes)) in
      let not_empty : (len == 0) ≡ false = ground (arith, some_bytes) in
      let there : (virt_to_phys vaddr == all_ones) ≡ false = ground (arith, real) in
      rw (not_empty, there)
        (share_loop-Shared (suc len) front (omega arith) (omega arith)
          (λ k h. paged.along vaddr k (omega arith) (omega (arith, h)) (omega (arith, h)))
          (λ more. omega (arith, more)))

-- What the kernel relies on to translate an address: addresses are cut at pages of 4096 bytes, and
-- a mapped page lies in a frame, below the last one of 64 bits.
pub record IsPageTable (m : Machine) (a : m.AddrSpace) : Type 0 where
  pub down : (v : ℕ) → m.align_down_4k v ≡ v - v % 4096
  pub offset : (v : ℕ) → m.align_offset_4k v ≡ v % 4096
  pub frame : (v p : ℕ) → v % 4096 ≡ 0 → m.query v a ≡ some p → (p % 4096 ≡ 0) × (p + 4096 < 2 ^ 64)

module _ (kernel : Kernel) (m : Machine) (code : AxError → ℕ) (a : m.AddrSpace) where
  -- The system call is answered by the kernel, from the address space `a`.
  abbrev pub Answers : kernel.State → Type 0
  Answers s = (v : ℕ) → kernel.sys_virt_to_phys s v ≡ retval code (System.virt_to_phys m v a)

  -- Every page with a byte of the buffer is mapped.
  abbrev pub IsMapped : ℕ → ℕ → Type 0
  IsMapped vaddr len =
      (v : ℕ) → vaddr ≤ v → v < vaddr + len → (p : ℕ) × (m.query (m.align_down_4k v) a ≡ some p)

  module _ (s : kernel.State) (answers : Answers s) (table : IsPageTable m a) where
    translated :
        (v p : ℕ)
        → m.query (m.align_down_4k v) a ≡ some p
        → kernel.sys_virt_to_phys s v ≡ p + v % 4096
    unfolding System.virt_to_phys do_virt_to_phys
    translated v p e = answers v ∙ rw (e, table.offset v) refl

    page_frame :
        (v p : ℕ) → m.query (m.align_down_4k v) a ≡ some p → (p % 4096 ≡ 0) × (p + 4096 < 2 ^ 64)
    page_frame v p e = table.frame (m.align_down_4k v) p (omega (arith, table.down v)) e

    mapped-IsPaged :
        (vaddr len : ℕ) → IsMapped vaddr len → IsPaged (kernel.sys_virt_to_phys s) vaddr len
    mapped-IsPaged vaddr len mapped = record {
      along = λ v k low high inside.
          let (p, e) = mapped v low (omega (arith, high)) in
          let same : m.align_down_4k (v + k) ≡ m.align_down_4k v =
            omega (arith, table.down v, table.down (v + k), inside) in
          let next = translated (v + k) p (ap (λ w. m.query w a) same ∙ e) in
          omega (arith, next, translated v p e, inside);
      in_place = λ v low high.
          let (p, e) = mapped v low high in omega (arith, translated v p e, page_frame v p e);
      bounded = λ v low high.
          let (p, e) = mapped v low high in omega (arith, translated v p e, page_frame v p e);
    }

    -- The kernel answers `sys_virt_to_phys`, and every page with a byte of the buffer, which is not
    -- empty, is mapped. Then `share` ends, and either the buffer is contiguous in physical memory and
    -- the result is the address of its first byte, or some byte of it lies elsewhere and the result
    -- is 0.
    pub share-Shared :
        (vaddr len : ℕ)
        → IsMapped vaddr len
        → 1 ≤ len
        → Shared (kernel.sys_virt_to_phys s) vaddr len (share kernel vaddr len s)
    unfolding share
    share-Shared vaddr len mapped some_bytes =
        share_at-Shared (kernel.sys_virt_to_phys s) vaddr len (mapped-IsPaged vaddr len mapped)
          some_bytes
