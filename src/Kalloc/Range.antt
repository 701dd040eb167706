-- ===== src/Kalloc/Range.antt =====
-- What freeing a range of memory adds to the free list.
use mathlib.Core.List.{append_assoc}
use systems_programming_a.Prelude.{
  ℕ, zero, suc, ◌+◌, ◌-◌, ◌*◌, ◌/◌, ◌∙◌, ◌^◌, ◌%◌, ◌≤◌, ◌<◌, ◌≡◌, refl, arith, some, List, [], ◌∷◌,
  ◌++◌, All, false, inl,
}
use systems_programming_a.Kalloc.Defs.{
  free_page, KernelMemory, page_size, kernel_base, physical_top, page_round_up, is_bad_page,
  free_pages, free_memory_range,
}
use systems_programming_a.Kalloc.Chain.{Apart, IsFree, free_page-IsFree}

-- `n` pages from `p` on, the highest first.
pub pages_from : ℕ → ℕ → List ℕ
pages_from p zero = []
pages_from p (suc n) = pages_from (p + page_size) n ++ (p ∷ [])

-- Every page of the list ends at `p` or below it.
abbrev pub EndBelow : ℕ → List ℕ → Type 0
EndBelow p qs = All (λ q. q + page_size ≤ p) qs

EndBelow-Apart : (p : ℕ) (qs : List ℕ) → EndBelow p qs → All (Apart p) qs
EndBelow-Apart p [] h = tt
EndBelow-Apart p (q ∷ qs) h = (inl h.0, EndBelow-Apart p qs h.1)

EndBelow-suc : (p : ℕ) (qs : List ℕ) → EndBelow p qs → EndBelow (p + page_size) qs
EndBelow-suc p [] h = tt
EndBelow-suc p (q ∷ qs) h = (omega (arith, h.0), EndBelow-suc p qs h.1)

is_good :
    (kernel_end p : ℕ)
    → p % page_size ≡ 0
    → kernel_end ≤ p
    → kernel_base ≤ p
    → p < kernel_base + physical_top
    → is_bad_page kernel_end p ≡ false
is_good kernel_end p a k b t =
    let e : (p + 2 ^ 32 - kernel_base) % 2 ^ 32 ≡ p - kernel_base = omega arith in
    rw e (ground arith)

free_pages-suc :
    (kernel_end n p : ℕ) (s s' : KernelMemory)
    → free_page kernel_end p s ≡ some s'
    → free_pages kernel_end (suc n) p s ≡ free_pages kernel_end n (p + page_size) s'
unfolding free_pages
free_pages-suc kernel_end n p s s' e = rw (free_pages, e) refl

free_pages-IsFree :
    (kernel_end n p : ℕ) (s : KernelMemory) (qs : List ℕ)
    → IsFree s qs
    → s.free_list < 2 ^ 32
    → EndBelow p qs
    → p % page_size ≡ 0
    → kernel_end ≤ p
    → kernel_base ≤ p
    → p + n * page_size ≤ kernel_base + physical_top
    → (s' : KernelMemory) × (free_pages kernel_end n p s ≡ some s')
      × IsFree s' (pages_from p n ++ qs)
unfolding free_pages pages_from
free_pages-IsFree kernel_end zero p s qs c f b a k l t = (s, refl, c)
free_pages-IsFree kernel_end (suc n) p s qs c f b a k l t =
    let good = is_good kernel_end p a k l (omega arith) in
    let (s1, e, c1, h) =
      free_page-IsFree kernel_end p s qs c (EndBelow-Apart p qs b) (omega arith) f good in
    let (s2, e2, c2) =
      free_pages-IsFree kernel_end n (p + page_size) s1 (p ∷ qs) c1 (omega arith)
        (omega arith, EndBelow-suc p qs b) (omega arith) (omega arith) (omega arith)
        (omega arith) in
    (
      s2,
      free_pages-suc kernel_end n p s s1 e ∙ e2,
      rw (append_assoc (pages_from (p + page_size) n) (p ∷ []) qs) c2,
    )

-- freeMemoryRange of a range that, rounded up to whole pages at its start, does not end before it
-- starts, lies above the kernel and in the physical memory, and above all pages that are free,
-- where the head of the free list is a word: it does not panic, and it puts exactly the whole pages
-- of the range in front of the free list, the highest first.
pub free_memory_range_lem :
    (kernel_end vstart vend : ℕ) (s : KernelMemory) (qs : List ℕ)
    → IsFree s qs
    → s.free_list < 2 ^ 32
    → EndBelow (page_round_up vstart) qs
    → kernel_end ≤ page_round_up vstart
    → kernel_base ≤ page_round_up vstart
    → page_round_up vstart ≤ vend
    → vend ≤ kernel_base + physical_top
    → let start = page_round_up vstart in
      (s' : KernelMemory) × (free_memory_range kernel_end vstart vend s ≡ some s')
      × IsFree s' (pages_from start ((vend - start) / page_size) ++ qs)
unfolding free_memory_range
free_memory_range_lem kernel_end vstart vend s qs c f b k l o t =
    free_pages-IsFree kernel_end ((vend - page_round_up vstart) / page_size) (page_round_up vstart)
      s qs c f b (omega arith) k l (omega arith)
