-- ===== src/Vm/Range.antt =====
-- What createPageTableEntries maps.
use systems_programming_a.Prelude.{
  length, ℕ, zero, suc, ◌+◌, ◌-◌, ◌*◌, ◌/◌, ◌%◌, ◌^◌, ◌<◌, ◌≤◌, ◌≡◌, ◌⊎◌, ◌∙◌, refl, arith, Bool,
  true, false, Option, none, List, [], ◌∷◌, Bool-cases, inl, inr,
}
use systems_programming_a.Syscall.{dword_at}
use systems_programming_a.Kalloc.{KernelMemory}
use systems_programming_a.Vm.Access.{Run, returned}
use systems_programming_a.Vm.Defs.{
  pdx, ptx, is_present, create_entry, create_entries, create_page_table_entries, page_round_down,
}
use systems_programming_a.Vm.Directory.{directory_entry, with_table, new-present}
use systems_programming_a.Vm.Entry.{with_entry}
use systems_programming_a.Vm.Spare.{IsSpare, IsOneOf, new-IsSpare, entry-IsSpare}
use systems_programming_a.Vm.Step.{
  entry_for, mapped, Holds, entry_word, fill_entry, new-Holds, entry-Holds, lookup-absent,
  fail_entry, create_entry-missing,
}

-- `n` pages from the page of `a` on that are below 2^32.
abbrev pub FitsPages : ℕ → ℕ → Type 0
FitsPages n a = (a % 4096 ≡ 0) × (a + n * 4096 ≤ 2 ^ 32)

-- One round with the table there.
fill-Holds :
    (pgdir va pa perm : ℕ) (qs : List ℕ) (f : ℕ → Option ℕ) (s : KernelMemory)
    → Holds pgdir qs f s
    → FitsPages 1 va
    → FitsPages 1 pa
    → perm < 4096
    → f va ≡ none
    → is_present (directory_entry s.memory pgdir (pdx va)) ≡ true
    → (s' : KernelMemory) × (create_entry pgdir va pa perm s ≡ returned s' true)
      × Holds pgdir qs (mapped va 1 pa perm f) s'
      × ((p : ℕ) → IsSpare pgdir p qs s.memory → IsSpare pgdir p qs s'.memory)
fill-Holds pgdir va pa perm qs f s h v e l n p =
    let i : pdx va < 1024 = omega arith in
    (
      record s { memory = with_entry pgdir (pdx va) (ptx va) (entry_for pa perm) s.memory },
      fill_entry pgdir va pa perm s p
          (lookup-absent s.memory pgdir va p (h.lookups va (omega (arith, v)) ∙ n))
          (h.directory.tables (pdx va) i p).2 (entry_word pa perm e.0 (omega (arith, e)) l),
      entry-Holds pgdir va pa perm qs f s h v.0 (omega (arith, v)) e.0 (omega (arith, e)) l p,
      λ r.
          entry-IsSpare pgdir (pdx va) (ptx va) (entry_for pa perm) r qs s.memory h.directory i
            (omega arith) p (omega (arith, e, l)),
    )

-- The page is mapped, with at most one page for a table, or no page is free for it.
abbrev pub CreatesOne : ℕ → ℕ → ℕ → ℕ → List ℕ → (ℕ → Option ℕ) → KernelMemory → Type 0
CreatesOne pgdir va pa perm qs f s =
    ((s' : KernelMemory) × (qs' : List ℕ) × (create_entry pgdir va pa perm s ≡ returned s' true)
      × (length qs ≤ suc (length qs'))
      × Holds pgdir qs' (mapped va 1 pa perm f) s'
      × ((p : ℕ) → IsSpare pgdir p qs s.memory → IsSpare pgdir p qs' s'.memory)
      × ((r : ℕ) → IsOneOf r qs' → IsOneOf r qs))
    ⊎ ((create_entry pgdir va pa perm s ≡ returned s false) × (qs ≡ []))

-- One round maps the page, or finds no free page for the table that is missing.
pub create_entry-Holds :
    (pgdir va pa perm : ℕ) (qs : List ℕ) (f : ℕ → Option ℕ) (s : KernelMemory)
    → Holds pgdir qs f s
    → FitsPages 1 va
    → FitsPages 1 pa
    → perm < 4096
    → f va ≡ none
    → CreatesOne pgdir va pa perm qs f s
create_entry-Holds pgdir va pa perm qs f s h v e l n =
    elim (Bool-cases (is_present (directory_entry s.memory pgdir (pdx va)))) [
      | inl p ↦
          let r = fill-Holds pgdir va pa perm qs f s h v e l n p in
          inl (r.0, qs, r.1, omega arith, r.2, r.3, λ p o. o)
      | inr a ↦ missing qs h a
    ]
  where
    missing :
        (qs : List ℕ)
        → Holds pgdir qs f s
        → is_present (directory_entry s.memory pgdir (pdx va)) ≡ false
        → CreatesOne pgdir va pa perm qs f s
    missing [] h a = inr (fail_entry pgdir va pa perm s h.free a, refl)
    missing (q ∷ qs) h a =
        let m = with_table pgdir (pdx va) q s.memory in
        let s' : KernelMemory = record s { free_list = dword_at s.memory q; memory = m } in
        let r =
          fill-Holds pgdir va pa perm qs f s' (new-Holds pgdir (pdx va) q qs f s h (omega arith) a)
            v e l n (new-present pgdir (pdx va) q qs s.memory h.directory (omega arith) a) in
        inl (
          r.0,
          qs,
          create_entry-missing pgdir va pa perm q qs f s h a ∙ r.1,
          omega arith,
          r.2,
          λ p b. r.3 p (new-IsSpare pgdir (pdx va) q p qs s.memory h.directory (omega arith) a b),
          λ p o. (suc o.0, o.1),
        )

-- The pages that a range of bytes touches, from the first on.
abbrev pub page_count : ℕ → ℕ → ℕ
page_count va size = suc ((va + size - 1) / 4096 - va / 4096)

pub Holds-ext :
    (pgdir : ℕ) (qs : List ℕ) (f g : ℕ → Option ℕ) (s : KernelMemory)
    → ((vb : ℕ) → f vb ≡ g vb)
    → Holds pgdir qs f s
    → Holds pgdir qs g s
Holds-ext pgdir qs f g s e h = record {
  directory = h.directory;
  free = h.free;
  lookups = λ vb c. h.lookups vb c ∙ e vb;
}

pub mapped_more :
    (k a pa perm : ℕ) (f : ℕ → Option ℕ) (vb : ℕ)
    → mapped (a + 4096) k (pa + 4096) perm (mapped a 1 pa perm f) vb ≡ mapped a (suc k) pa perm f vb
mapped_more k a pa perm f vb = ground arith

-- The run makes its entries for the first `k` pages of `n`: for all of them, or until no page is
-- free for a table.
abbrev pub Creates : Run Bool → ℕ → ℕ → (ℕ → ℕ → Option ℕ) → Type 0
Creates r n pgdir g =
    (s' : KernelMemory) × (qs' : List ℕ) × (k : ℕ) × (((r ≡ returned s' true) × (k ≡ n))
      ⊎ ((r ≡ returned s' false) × (k < n) × (qs' ≡ [])))
    × Holds pgdir qs' (g k) s'

Creates-ext :
    (r : Run Bool) (n pgdir : ℕ) (g g' : ℕ → ℕ → Option ℕ)
    → ((k vb : ℕ) → g k vb ≡ g' (suc k) vb)
    → Creates r n pgdir g
    → Creates r (suc n) pgdir g'
Creates-ext r n pgdir g g' e c = (
  c.0,
  c.1,
  suc c.2,
  elim c.3 [ inl t ↦ inl (t.0, omega (arith, t.1)) | inr t ↦ inr (t.0, omega (arith, t.1), t.2) ],
  Holds-ext pgdir c.1 (g c.2) (g' (suc c.2)) c.0 (e c.2) c.4,
)

create_entries-suc :
    (n pgdir a pa perm : ℕ) (s s' : KernelMemory)
    → create_entry pgdir a pa perm s ≡ returned s' true
    → a + 4096 < 2 ^ 32
    → pa + 4096 < 2 ^ 32
    → create_entries (suc n) pgdir a pa perm s
      ≡ create_entries n pgdir (a + 4096) (pa + 4096) perm s'
unfolding create_entries
create_entries-suc n pgdir a pa perm s s' e l l' =
    let w : (a + 4096) % 2 ^ 32 ≡ a + 4096 = omega arith in
    let w' : (pa + 4096) % 2 ^ 32 ≡ pa + 4096 = omega arith in rw (e, w, w') refl

create_entries-Holds :
    (n pgdir a pa perm : ℕ) (qs : List ℕ) (f : ℕ → Option ℕ) (s : KernelMemory)
    → Holds pgdir qs f s
    → FitsPages (suc n) a
    → FitsPages (suc n) pa
    → perm < 4096
    → ((vb : ℕ) → a ≤ vb → vb < a + suc n * 4096 → f vb ≡ none)
    → Creates (create_entries n pgdir a pa perm s) (suc n) pgdir (λ k. mapped a k pa perm f)
unfolding create_entries
create_entries-Holds zero pgdir a pa perm qs f s h v e l o =
    elim (create_entry-Holds pgdir a pa perm qs f s h v e l (o a (omega arith) (omega arith))) [
      | inl r ↦ (r.0, r.1, 1, inl (r.2, refl), r.4)
      | inr r ↦ (
        s,
        qs,
        0,
        inr (r.0, omega arith, r.1),
        Holds-ext pgdir qs f (mapped a 0 pa perm f) s (λ vb. ground arith) h,
      )
    ]
create_entries-Holds (suc n) pgdir a pa perm qs f s h v e l o =
    elim (create_entry-Holds pgdir a pa perm qs f s h (v.0, omega (arith, v))
      (e.0, omega (arith, e)) l (o a (omega arith) (omega arith))) [
        | inl r ↦
            let g = mapped a 1 pa perm f in
            let c =
              create_entries-Holds n pgdir (a + 4096) (pa + 4096) perm r.1 g r.0 r.4
                (omega (arith, v), omega (arith, v)) (omega (arith, e), omega (arith, e)) l
                (λ vb c c'. ground (arith, o vb)) in
            rw
              (create_entries-suc n pgdir a pa perm s r.0 r.2 (omega (arith, v)) (omega (arith, e)))
              (Creates-ext (create_entries n pgdir (a + 4096) (pa + 4096) perm r.0) (suc n) pgdir
                (λ k. mapped (a + 4096) k (pa + 4096) perm g) (λ k. mapped a k pa perm f)
                (λ k vb. mapped_more k a pa perm f vb) c)
        | inr r ↦ (
          s,
          qs,
          0,
          inr (rw r.0 refl, omega arith, r.1),
          Holds-ext pgdir qs f (mapped a 0 pa perm f) s (λ vb. ground arith) h,
        )
      ]

-- In a directory that lies apart from its tables and from the free pages, with a range of bytes
-- that ends at 2^32 or below it and none of whose pages is mapped, page-aligned physical memory for
-- as many pages, and permissions in the low 12 bits: createPageTableEntries does not panic and makes
-- an entry for the page's physical address with its permissions for the first `k` pages of the
-- range, and changes what no other address maps to. It returns 0 exactly with `k` all the pages that
-- the range touches; or it returns -1, and then no free page is left. The directory is then again
-- apart from its tables and from the free pages.
pub create_page_table_entries_lem :
    (pgdir va size pa perm : ℕ) (qs : List ℕ) (f : ℕ → Option ℕ) (s : KernelMemory)
    → Holds pgdir qs f s
    → 0 < size
    → va + size ≤ 2 ^ 32
    → FitsPages (page_count va size) pa
    → perm < 4096
    → ((vb : ℕ)
        → page_round_down va ≤ vb
        → vb < page_round_down va + page_count va size * 4096
        → f vb ≡ none)
    → Creates
        (create_page_table_entries pgdir va size pa perm s)
        (page_count va size)
        pgdir
        (λ k. mapped (page_round_down va) k pa perm f)
unfolding create_page_table_entries
create_page_table_entries_lem pgdir va size pa perm qs f s h z l e p o =
    let n = (va + size - 1) / 4096 - va / 4096 in
    let r : (page_round_down ((va + size + 2 ^ 32 - 1) % 2 ^ 32) + 2 ^ 32 - page_round_down va)
          % 2 ^ 32
          / 4096
        ≡ n =
      omega arith in
    rw r (
      create_entries-Holds n pgdir (page_round_down va) pa perm qs f s h (omega arith, omega arith)
        e p o)
