-- ===== src/Vm/Grow.antt =====
-- What allocateMemoryAndPageTables maps when there are enough free pages.
use systems_programming_a.Prelude.{
  ℕ, zero, suc, ◌+◌, ◌-◌, ◌*◌, ◌/◌, ◌%◌, ◌^◌, ◌<◌, ◌≤◌, ◌≡◌, ◌∙◌, ap, refl, arith, true, false,
  Option, none, List, [], ◌∷◌, length, ◌==◌, leb, ltb, inl, inr,
}
use systems_programming_a.Prelude.Bits.{bits_or}
use systems_programming_a.Syscall.{dword_at}
use systems_programming_a.Kalloc.{
  KernelMemory, IsFree, allocate_page, page_size, kernel_base, page_round_up,
}
use systems_programming_a.Vm.Access.{Run, allocate, returned, then_run, v2p}
use systems_programming_a.Vm.Defs.{create_entry, create_entries, create_page_table_entries}
use systems_programming_a.Vm.User.{
  allocate_user_page, place_user_page, allocate_user_pages, allocate_memory_and_page_tables,
}
use systems_programming_a.Vm.Step.{Holds, mapped}
use systems_programming_a.Vm.Range.{FitsPages, create_entry-Holds}
use systems_programming_a.Vm.Take.{taken, taken-Holds}
use systems_programming_a.Vm.Growth.{Grows, mapped-Grows, AreTaken, first_taken, KeepsSpare}
use systems_programming_a.Vm.Spare.{IsSpare, IsOneOf, taken-IsSpare, page-IsSpare}

one_page :
    (pgdir a pa perm : ℕ) (s : KernelMemory)
    → FitsPages 1 a
    → create_page_table_entries pgdir a page_size pa perm s ≡ create_entry pgdir a pa perm s
unfolding create_page_table_entries create_entries
one_page pgdir a pa perm s v =
    let e : a / 4096 * 4096 ≡ a = omega (arith, v) in
    let r : ((a + 4096 + 2 ^ 32 - 1) % 2 ^ 32 / 4096 * 4096 + 2 ^ 32 - a) % 2 ^ 32 / 4096 ≡ 0 =
      omega (arith, v) in
    rw (e, r) refl

allocate_lem :
    (q : ℕ) (qs : List ℕ) (s : KernelMemory)
    → IsFree s (q ∷ qs)
    → allocate s ≡ returned (record s { free_list = dword_at s.memory q }) q
unfolding allocate_page
allocate_lem q qs s c = let n : (q == 0) ≡ false = ground arith in rw (c.0, n) refl

-- One round, with a page for the memory and another that may become a table.
grow_page :
    (kernel_end pgdir oldsz newsz a q r : ℕ) (qs : List ℕ) (f : ℕ → Option ℕ) (s : KernelMemory)
    → Holds pgdir (q ∷ r ∷ qs) f s
    → FitsPages 1 a
    → f a ≡ none
    → (s' : KernelMemory) × (qs' : List ℕ) × (allocate_user_page kernel_end pgdir oldsz newsz a s
        ≡ returned s' true)
      × (length qs ≤ length qs')
      × Holds pgdir qs' (mapped a 1 (v2p q) 6 f) s'
      × IsSpare pgdir q qs' s'.memory
      × ((p : ℕ) → IsSpare pgdir p (q ∷ r ∷ qs) s.memory → IsSpare pgdir p qs' s'.memory)
      × ((p : ℕ) → IsOneOf p qs' → IsOneOf p (r ∷ qs))
unfolding allocate_user_page place_user_page bits_or
grow_page kernel_end pgdir oldsz newsz a q r qs f s h v n =
    let g = h.directory.pages.0 in
    let z : (q == 0) ≡ false = ground (arith, g) in
    elim (create_entry-Holds pgdir a (v2p q) 6 (r ∷ qs) f (taken pgdir q (r ∷ qs) f s h)
      (taken-Holds pgdir q (r ∷ qs) f s h) v (omega (arith, g), omega (arith, g)) (omega arith) n) [
        | inl c ↦ (
          c.0,
          c.1,
          ap (λ r. then_run r (place_user_page kernel_end pgdir oldsz newsz a))
                (allocate_lem q (r ∷ qs) s h.free)
              ∙ rw (z, one_page pgdir a (v2p q) 6 (taken pgdir q (r ∷ qs) f s h) v, c.2) refl,
          omega (arith, c.3),
          c.4,
          c.5 q (page-IsSpare pgdir q (r ∷ qs) f s h),
          λ p i. c.5 p (taken-IsSpare pgdir q p (r ∷ qs) f s h i),
          c.6,
        )
        | inr c ↦ absurd (cc c.1)
      ]

-- The run returns `newsz` with `n` pages more, which were free and are cleared.
abbrev pub GrowsTo : Run ℕ → ℕ → ℕ → ℕ → ℕ → List ℕ → (ℕ → Option ℕ) → Type 0
GrowsTo r newsz pgdir a n qs f =
    (s' : KernelMemory) × (qs' : List ℕ) × (g : ℕ → Option ℕ) × (ps : List ℕ) × (r
      ≡ returned s' newsz)
    × Holds pgdir qs' g s'
    × (length ps ≡ n)
    × AreTaken pgdir ps qs qs' s'.memory
    × Grows a ps f g

allocate_user_pages-suc :
    (n kernel_end pgdir oldsz newsz a : ℕ) (s s' : KernelMemory)
    → allocate_user_page kernel_end pgdir oldsz newsz a s ≡ returned s' true
    → allocate_user_pages (suc n) kernel_end pgdir oldsz newsz a s
      ≡ allocate_user_pages n kernel_end pgdir oldsz newsz (a + 4096) s'
unfolding allocate_user_pages
allocate_user_pages-suc n kernel_end pgdir oldsz newsz a s s' e = rw e refl

grow_pages :
    (n kernel_end pgdir oldsz newsz a : ℕ) (qs : List ℕ) (f : ℕ → Option ℕ) (s : KernelMemory)
    → Holds pgdir qs f s
    → 2 * n ≤ length qs
    → FitsPages n a
    → ((vb : ℕ) → a ≤ vb → vb < a + n * 4096 → f vb ≡ none)
    → (t : GrowsTo (allocate_user_pages n kernel_end pgdir oldsz newsz a s) newsz pgdir a n qs f)
      × KeepsSpare pgdir qs s t.1 t.0
unfolding allocate_user_pages
grow_pages zero kernel_end pgdir oldsz newsz a qs f s h l v o =
    ((s, qs, f, [], refl, h, refl, (tt, tt), (λ i p vb e. absurd (cc e), λ vb c. refl)), λ p b. b)
grow_pages (suc n) kernel_end pgdir oldsz newsz a [] f s h l v o = absurd (omega (arith, l))
grow_pages (suc n) kernel_end pgdir oldsz newsz a (q ∷ []) f s h l v o = absurd (omega (arith, l))
grow_pages (suc n) kernel_end pgdir oldsz newsz a (q ∷ r ∷ qs) f s h l v o =
    let c =
      grow_page kernel_end pgdir oldsz newsz a q r qs f s h (v.0, omega (arith, v))
        (o a (omega arith) (omega arith)) in
    let m = mapped a 1 (v2p q) 6 f in
    let (d, k) =
      grow_pages n kernel_end pgdir oldsz newsz (a + 4096) c.1 m c.0 c.4 (omega (arith, l, c.3))
        (omega (arith, v), omega (arith, v)) (λ vb b b'. ground (arith, o vb)) in
    (
      (
        d.0,
        d.1,
        d.2,
        q ∷ d.3,
        allocate_user_pages-suc n kernel_end pgdir oldsz newsz a s c.0 c.2 ∙ d.4,
        d.5,
        ap suc d.6,
        first_taken pgdir q r d.3 qs c.1 d.1 c.0.memory d.0.memory c.5 (k q c.5) c.7 d.7,
        mapped-Grows a q pgdir d.3 f d.2 h.directory.pages.0 d.8,
      ),
      λ p b. k p (c.6 p b),
    )

-- The pages from `oldsz`, rounded up, to `newsz`.
abbrev pub pages_to_grow : ℕ → ℕ → ℕ
pages_to_grow oldsz newsz = (newsz + 4095 - page_round_up oldsz) / 4096

-- Growing a process from `oldsz` to a `newsz` below KERNBASE that is no smaller, in a directory apart
-- from its tables and the free pages that maps none of the pages to add, with two free pages for each
-- of them: allocateMemoryAndPageTables returns `newsz`. For each page added there is a page of memory
-- of its own: it was free, it is no longer free, no table and not the directory, and all its words are
-- 0. The addresses of the page added are mapped to it with the flags present, writeable and user alone,
-- every other address to what it was, and the directory is again apart from its tables and the free
-- pages.
pub allocate_memory_and_page_tables_lem :
    (kernel_end pgdir oldsz newsz : ℕ) (qs : List ℕ) (f : ℕ → Option ℕ) (s : KernelMemory)
    → Holds pgdir qs f s
    → oldsz ≤ newsz
    → newsz < kernel_base
    → 2 * pages_to_grow oldsz newsz ≤ length qs
    → ((vb : ℕ)
        → page_round_up oldsz ≤ vb
        → vb < page_round_up oldsz + pages_to_grow oldsz newsz * 4096
        → f vb ≡ none)
    → GrowsTo
        (allocate_memory_and_page_tables kernel_end pgdir oldsz newsz s)
        newsz
        pgdir
        (page_round_up oldsz)
        (pages_to_grow oldsz newsz)
        qs
        f
unfolding allocate_memory_and_page_tables
allocate_memory_and_page_tables_lem kernel_end pgdir oldsz newsz qs f s h l k e o =
    let b : leb kernel_base newsz ≡ false = ground arith in
    let b' : ltb newsz oldsz ≡ false = ground arith in
    rw (b, b')
      (grow_pages (pages_to_grow oldsz newsz) kernel_end pgdir oldsz newsz (page_round_up oldsz) qs
        f s h e (omega arith, omega arith) o).0
