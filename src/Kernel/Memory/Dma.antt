-- ===== src/Kernel/Memory/Dma.antt =====
-- The pages that `do_dma_alloc` and `do_dma_dealloc` take and give back.
use mene_os.Base.{
  ℕ, ◌+◌, ◌-◌, ◌*◌, ◌/◌, ◌%◌, ◌^◌, min, ◌≡◌, ◌≤◌, ◌<◌, inl, inr, refl, sym, ◌∙◌, ap, subst, Bool,
  true, false, List, ◌∷◌, Option, none, some, arith, ◌==◌, Bool-cases,
}
use mathlib.Core.Bool.{false≢true}
use mathlib.Core.Option.{none-ne-some}
use mene_os.Kernel.Memory.{
  Machine, MappingFlag, Space, page_size_4k, do_dma_alloc, do_dma_dealloc, dma_allocated,
  dma_placed, dma_mapped, dma_unmapped, free_area, mmap_flags,
}

-- The allocations in use: the kernel address and the number of pages of each, the latest first.
abbrev pub Allocations : Type 0
Allocations = List (ℕ × ℕ)

-- What the kernel relies on: an allocation is in use until it is given back with its address and its
-- number of pages, of which only the latest is asked for here; an address that was allocated comes
-- back from its physical one; a size is rounded up to whole pages below the end of the address
-- space; and what was mapped can be unmapped.
pub record IsMachine (m : Machine) (in_use : m.Pages → Allocations) : Type 0 where
  pub allocated :
      (n v : ℕ) (s t : m.Pages)
      → m.alloc_pages n s ≡ (some v, t)
      → (in_use t ≡ (v, n) ∷ in_use s) × (m.phys_to_virt (m.virt_to_phys v) ≡ v)
  pub refused : (n : ℕ) (s t : m.Pages) → m.alloc_pages n s ≡ (none, t) → in_use t ≡ in_use s
  pub released :
      (v n : ℕ) (rest : Allocations) (s : m.Pages)
      → in_use s ≡ (v, n) ∷ rest
      → in_use (m.dealloc_pages v n s) ≡ rest
  pub aligned :
      (n : ℕ)
      → 0 < n
      → n ≤ 2 ^ 63
      → (m.align_up_4k n % page_size_4k ≡ 0)
        × (n ≤ m.align_up_4k n)
        × (m.align_up_4k n < n + page_size_4k)
  pub unmaps :
      (v p size : ℕ) (flags : List MappingFlag) (a b : m.AddrSpace)
      → m.map_linear v p size flags a ≡ (true, b)
      → (m.unmap v size b).0 ≡ true

module _ (m : Machine) (in_use : m.Pages → Allocations) (is : IsMachine m in_use) where
  -- What is in use after a result: on success one more allocation of `n` pages, at whose physical
  -- address the result is.
  abbrev pub Counts : Allocations → ℕ → Option (ℕ × ℕ) × Space m → Type 0
  Counts before n (none, s) = in_use s.1 ≡ before
  Counts before n (some (vaddr, paddr), s) =
      (kern : ℕ) × (in_use s.1 ≡ (kern, n) ∷ before) × (paddr ≡ m.virt_to_phys kern)

  mapped-Counts :
      (before : Allocations) (kern n vaddr : ℕ) (t : m.Pages) (r : Bool × m.AddrSpace)
      → in_use t ≡ (kern, n) ∷ before
      → Counts before n (dma_mapped m kern n vaddr t r)
  mapped-Counts before kern n vaddr t (true, a) h = (kern, h, refl)
  mapped-Counts before kern n vaddr t (false, a) h = is.released kern n before t h

  placed-Counts :
      (before : Allocations) (size kern n : ℕ) (area : Option ℕ) (a : m.AddrSpace) (t : m.Pages)
      → in_use t ≡ (kern, n) ∷ before
      → Counts before n (dma_placed m size kern n area a t)
  placed-Counts before size kern n none a t h = is.released kern n before t h
  placed-Counts before size kern n (some vaddr) a t h = mapped-Counts before kern n vaddr t _ h

  allocated-Counts :
      (size n : ℕ) (a : m.AddrSpace) (s : m.Pages) (r : Option ℕ × m.Pages)
      → m.alloc_pages n s ≡ r
      → Counts (in_use s) n (dma_allocated m size n a r)
  allocated-Counts size n a s (none, t) e = is.refused n s t e
  allocated-Counts size n a s (some kern, t) e =
      placed-Counts (in_use s) size kern n (free_area m 0x4000_0000 size a) a t
        (is.allocated n kern s t e).0

  -- With an allocator that keeps its books: if `do_dma_alloc` succeeds, exactly one allocation of the
  -- pages of the rounded length is in use that was not before, and the second result is its physical
  -- address; if it fails, whichever of its steps does, the same allocations are in use as before.
  pub do_dma_alloc-Counts :
      (length : ℕ) (a : m.AddrSpace) (s : m.Pages)
      → Counts (in_use s) (m.align_up_4k length / page_size_4k) (do_dma_alloc m length (a, s))
  unfolding do_dma_alloc
  do_dma_alloc-Counts length a s = elim (Bool-cases (length == 0)) [
    | inl empty ↦ rw empty refl
    | inr some_bytes ↦
        let n = m.align_up_4k length / page_size_4k in
        rw some_bytes (allocated-Counts (m.align_up_4k length) n a s (m.alloc_pages n s) refl)
  ]

  -- A result can be given back, which leaves the same allocations in use as before.
  abbrev Frees : Allocations → ℕ → Option (ℕ × ℕ) × Space m → Type 0
  Frees before n (none, s) = Unit
  Frees before n (some (v, p), s) =
      let d = do_dma_dealloc m v p n s in (d.0 ≡ true) × (in_use d.1.1 ≡ before)

  unmapped-Frees :
      (before : Allocations) (kern n : ℕ) (t : m.Pages) (r : Bool × m.AddrSpace)
      → r.0 ≡ true
      → (in_use t ≡ (kern, n) ∷ before) × (m.phys_to_virt (m.virt_to_phys kern) ≡ kern)
      → let d = dma_unmapped m (m.virt_to_phys kern) n t r in (d.0 ≡ true) × (in_use d.1.1 ≡ before)
  unmapped-Frees before kern n t (true, a) e (h, back) =
      (refl, ap (λ v. in_use (m.dealloc_pages v n t)) back ∙ is.released kern n before t h)
  unmapped-Frees before kern n t (false, a) e h = absurd (false≢true e)

  module _ (n : ℕ) (some_pages : 0 < n) (small : n * page_size_4k < 2 ^ 64) where
    mapped-Frees :
        (kern v : ℕ) (a : m.AddrSpace) (s t : m.Pages) (r : Bool × m.AddrSpace)
        → (in_use t ≡ (kern, n) ∷ in_use s) × (m.phys_to_virt (m.virt_to_phys kern) ≡ kern)
        → m.map_linear v (m.virt_to_phys kern) (n * page_size_4k) mmap_flags a ≡ r
        → Frees (in_use s) n (dma_mapped m kern n v t r)
    unfolding do_dma_dealloc
    mapped-Frees kern v a s t (false, b) h e = tt
    mapped-Frees kern v a s t (true, b) h e =
        let whole : min (n * page_size_4k) (2 ^ 64 - 1) ≡ n * page_size_4k = omega (arith, small) in
        let pages : (n == 0) ≡ false = ground (arith, some_pages) in
        let bytes : (n * page_size_4k == 0) ≡ false = ground (arith, some_pages) in
        rw (whole, pages, bytes)
          (unmapped-Frees (in_use s) kern n t (m.unmap v (n * page_size_4k) b)
            (is.unmaps v (m.virt_to_phys kern) (n * page_size_4k) mmap_flags a b e) h)

    placed-Frees :
        (kern : ℕ) (area : Option ℕ) (a : m.AddrSpace) (s t : m.Pages)
        → (in_use t ≡ (kern, n) ∷ in_use s) × (m.phys_to_virt (m.virt_to_phys kern) ≡ kern)
        → Frees (in_use s) n (dma_placed m (n * page_size_4k) kern n area a t)
    placed-Frees kern none a s t h = tt
    placed-Frees kern (some v) a s t h = mapped-Frees kern v a s t _ h refl

    allocated-Frees :
        (a : m.AddrSpace) (s : m.Pages) (r : Option ℕ × m.Pages)
        → m.alloc_pages n s ≡ r
        → Frees (in_use s) n (dma_allocated m (n * page_size_4k) n a r)
    allocated-Frees a s (none, t) e = tt
    allocated-Frees a s (some kern, t) e =
        placed-Frees kern (free_area m 0x4000_0000 (n * page_size_4k) a) a s t
          (is.allocated n kern s t e)

  -- With an allocator that keeps its books, and mappings that can be undone: what `do_dma_alloc`
  -- returns for at most 2 ^ 63 bytes, `do_dma_dealloc` takes back with the number of pages of the
  -- rounded length; it succeeds, and exactly the allocations from before both calls are in use.
  pub do_dma_dealloc-do_dma_alloc :
      (length v p : ℕ) (a : m.AddrSpace) (s : m.Pages) (st : Space m)
      → length ≤ 2 ^ 63
      → do_dma_alloc m length (a, s) ≡ (some (v, p), st)
      → let d = do_dma_dealloc m v p (m.align_up_4k length / page_size_4k) st in
        (d.0 ≡ true) × (in_use d.1.1 ≡ in_use s)
  unfolding do_dma_alloc
  do_dma_dealloc-do_dma_alloc length v p a s st small e = elim (Bool-cases (length == 0)) [
    | inl empty ↦
        let nothing : do_dma_alloc m length (a, s) ≡ (none, (a, s)) = rw empty refl in
        absurd (none-ne-some (v, p) (ap (λ r. r.0) (sym nothing ∙ e)))
    | inr some_bytes ↦
        let n = m.align_up_4k length / page_size_4k in
        let some_length : 0 < length = ground (arith, some_bytes) in
        let (whole, above, near) = is.aligned length some_length small in
        let size : n * page_size_4k ≡ m.align_up_4k length = omega (arith, whole) in
        let frees =
          allocated-Frees n (omega (arith, whole, above, some_length))
            (omega (arith, size, near, small)) a s (m.alloc_pages n s) refl in
        let run : do_dma_alloc m length (a, s)
            ≡ dma_allocated m (m.align_up_4k length) n a (m.alloc_pages n s) =
          rw some_bytes refl in
        subst (Frees (in_use s) n)
          (ap (λ z. dma_allocated m z n a (m.alloc_pages n s)) size ∙ (sym run ∙ e)) frees
  ]
