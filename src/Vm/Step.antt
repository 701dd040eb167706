-- ===== src/Vm/Step.antt =====
-- One round of createPageTableEntries, and what it maps.
use systems_programming_a.Prelude.{
  ℕ, ◌+◌, ◌-◌, ◌*◌, ◌/◌, ◌%◌, ◌^◌, ◌<◌, ◌≤◌, ◌≡◌, ◌≢◌, ◌∙◌, sym, ap, refl, arith, Memory, Bool,
  true, false, ◌&&◌, leb, ltb, Option, none, some, List, [], ◌∷◌, All, ◌==◌, if◌then◌else◌,
  Bool-cases, inl, inr,
}
use systems_programming_a.Prelude.Bits.{bits_or, bits_or-page, bits_or_one, bits_or-AreDisjoint}
use systems_programming_a.Syscall.{dword_at}
use systems_programming_a.Kalloc.{KernelMemory, IsFree, IsFree-kept, allocate_page}
use systems_programming_a.Vm.Access.{returned, then_run, v2p}
use systems_programming_a.Vm.Defs.{
  pdx, ptx, is_present, new_table, get_page_table_entry, create_entry, place_entry,
}
use systems_programming_a.Vm.Directory.{
  directory_entry, table, table_entry, present, lookup, IsDirectory, IsPage, with_table,
  new-elsewhere, new-present, new-table,
}
use systems_programming_a.Vm.Entry.{
  new-IsDirectory, new-lookup, with_entry, entry-elsewhere, entry-IsDirectory, entry-lookup,
}

-- `V2P(pgtab) | PTE_P | PTE_W | PTE_U`
table_word : (q : ℕ) → q % 4096 ≡ 0 → bits_or 32 (bits_or 32 (bits_or 32 (v2p q) 1) 2) 4 ≡ v2p q + 7
table_word q e =
    let e1 : bits_or 32 (v2p q) 1 ≡ v2p q + 1 =
      bits_or-AreDisjoint 1 32 (v2p q) 1 (grind arith) (omega arith) (omega arith) in
    let e2 : bits_or 32 (v2p q + 1) 2 ≡ v2p q + 1 + 2 =
      bits_or-AreDisjoint 2 32 (v2p q + 1) 2 (grind arith) (omega arith) (omega arith) in
    let e4 : bits_or 32 (v2p q + 1 + 2) 4 ≡ v2p q + 1 + 2 + 4 =
      bits_or-AreDisjoint 3 32 (v2p q + 1 + 2) 4 (grind arith) (omega arith) (omega arith) in
    rw (e1, e2, e4) (omega arith)

-- The entry for the page `pa` with these permissions.
abbrev pub entry_for : ℕ → ℕ → ℕ
entry_for pa perm = pa + perm - perm % 2 + 1

pub entry_word :
    (pa perm : ℕ)
    → pa % 4096 ≡ 0
    → pa < 2 ^ 32
    → perm < 4096
    → bits_or 32 (bits_or 32 pa perm) 1 ≡ entry_for pa perm
entry_word pa perm a h l =
    rw (bits_or-page pa perm a l h) (bits_or_one 31 (pa + perm) (omega arith) ∙ omega arith)

pub All-both :
    {A : Type 0} (P Q R : A → Type 0) (xs : List A)
    → ((x : A) → P x → Q x → R x)
    → All P xs
    → All Q xs
    → All R xs
All-both P Q R [] f g h = tt
All-both P Q R (x ∷ xs) f g h = (f x g.0 h.0, All-both P Q R xs f g.1 h.1)

-- A missing table is made of the first free page.
new_table_lem :
    (pgdir va q : ℕ) (qs : List ℕ) (s : KernelMemory)
    → IsFree s (q ∷ qs)
    → q % 4096 ≡ 0
    → new_table (pgdir + 4 * pdx va) va s
      ≡ returned
          (record s {
            free_list = dword_at s.memory q;
            memory = with_table pgdir (pdx va) q s.memory;
          })
          (q + 4 * ptx va)
unfolding new_table allocate_page
new_table_lem pgdir va q qs s c e =
    let n : (q == 0) ≡ false = ground arith in rw (c.0, n, n, table_word q e) refl

-- One round with the table there and the entry not present.
pub fill_entry :
    (pgdir va pa perm : ℕ) (s : KernelMemory)
    → is_present (directory_entry s.memory pgdir (pdx va)) ≡ true
    → is_present (table_entry s.memory pgdir (pdx va) (ptx va)) ≡ false
    → 0x80000000 ≤ table s.memory pgdir (pdx va)
    → bits_or 32 (bits_or 32 pa perm) 1 ≡ entry_for pa perm
    → create_entry pgdir va pa perm s
      ≡ returned
          (record s { memory = with_entry pgdir (pdx va) (ptx va) (entry_for pa perm) s.memory })
          true
unfolding create_entry get_page_table_entry place_entry
fill_entry pgdir va pa perm s p a l e =
    let n : (table s.memory pgdir (pdx va) + 4 * ptx va == 0) ≡ false = ground arith in
    rw (p, n, a, e) refl

pub get-present :
    (pgdir va : ℕ) (alloc : Bool) (s : KernelMemory)
    → is_present (directory_entry s.memory pgdir (pdx va)) ≡ true
    → get_page_table_entry pgdir va alloc s
      ≡ returned s (table s.memory pgdir (pdx va) + 4 * ptx va)
unfolding get_page_table_entry
get-present pgdir va alloc s p = rw p refl

get-missing :
    (pgdir va q : ℕ) (qs : List ℕ) (s : KernelMemory)
    → IsFree s (q ∷ qs)
    → q % 4096 ≡ 0
    → is_present (directory_entry s.memory pgdir (pdx va)) ≡ false
    → get_page_table_entry pgdir va true s
      ≡ returned
          (record s {
            free_list = dword_at s.memory q;
            memory = with_table pgdir (pdx va) q s.memory;
          })
          (q + 4 * ptx va)
unfolding get_page_table_entry
get-missing pgdir va q qs s c e a = rw (a, new_table_lem pgdir va q qs s c e) refl

-- `mapped a n pa perm f` maps the `n` pages from `a` on to those from `pa` on, and is `f` elsewhere.
abbrev pub mapped : ℕ → ℕ → ℕ → ℕ → (ℕ → Option ℕ) → ℕ → Option ℕ
mapped a n pa perm f vb =
    if leb a vb && ltb vb (a + n * 4096)
    then some (entry_for (pa + (vb - a) / 4096 * 4096) perm)
    else f vb

-- A directory with its free pages, whose lookups are `f`.
pub record Holds (pgdir : ℕ) (qs : List ℕ) (f : ℕ → Option ℕ) (s : KernelMemory) : Type 0 where
  pub directory : IsDirectory pgdir qs s.memory
  pub free : IsFree s qs
  pub lookups : (vb : ℕ) → vb < 2 ^ 32 → lookup s.memory pgdir vb ≡ f vb

-- The state with a new table holds what the state before it does.
pub new-Holds :
    (pgdir i q : ℕ) (qs : List ℕ) (f : ℕ → Option ℕ) (s : KernelMemory)
    → Holds pgdir (q ∷ qs) f s
    → i < 1024
    → is_present (directory_entry s.memory pgdir i) ≡ false
    → Holds pgdir qs f
        (record s { free_list = dword_at s.memory q; memory = with_table pgdir i q s.memory })
new-Holds pgdir i q qs f s h l a =
    let d = h.directory in
    record {
      directory = new-IsDirectory pgdir i q qs s.memory d l a;
      free =
          IsFree-kept (record s { free_list = dword_at s.memory q }) (with_table pgdir i q s.memory)
            qs h.free.2
            (All-both (λ r. r ≢ q) (IsPage pgdir)
              (λ r. dword_at (with_table pgdir i q s.memory) r ≡ dword_at s.memory r) qs
              (λ r n g.
                let z : r + 4 * 0 ≡ r = omega arith in
                rw z at (new-elsewhere pgdir i q qs s.memory d l a r g.0 n g.3 0 (omega arith)))
              d.distinct.0 d.pages.1);
      lookups = λ vb b. new-lookup pgdir i q qs s.memory d l a vb ∙ h.lookups vb b;
    }

same_page :
    (va vb : ℕ)
    → va % 4096 ≡ 0
    → va < 2 ^ 32
    → vb < 2 ^ 32
    → (pdx vb == pdx va && ptx vb == ptx va) ≡ (leb va vb && ltb vb (va + 1 * 4096))
same_page va vb e l h = ground arith

mapped_one :
    (va pa perm : ℕ) (f : ℕ → Option ℕ) (vb : ℕ)
    → va % 4096 ≡ 0
    → pa % 4096 ≡ 0
    → (if leb va vb && ltb vb (va + 1 * 4096) then present (entry_for pa perm) else f vb)
      ≡ mapped va 1 pa perm f vb
mapped_one va pa perm f vb e e' = ground arith

-- The state with a new entry maps one page more.
pub entry-Holds :
    (pgdir va pa perm : ℕ) (qs : List ℕ) (f : ℕ → Option ℕ) (s : KernelMemory)
    → Holds pgdir qs f s
    → va % 4096 ≡ 0
    → va < 2 ^ 32
    → pa % 4096 ≡ 0
    → pa < 2 ^ 32
    → perm < 4096
    → is_present (directory_entry s.memory pgdir (pdx va)) ≡ true
    → Holds pgdir qs
        (mapped va 1 pa perm f)
        (record s { memory = with_entry pgdir (pdx va) (ptx va) (entry_for pa perm) s.memory })
entry-Holds pgdir va pa perm qs f s h v v' e b l p =
    let d = h.directory in
    let i : pdx va < 1024 = omega arith in
    let k : ptx va < 1024 = omega arith in
    let m = with_entry pgdir (pdx va) (ptx va) (entry_for pa perm) s.memory in
    let w : entry_for pa perm < 2 ^ 32 = omega arith in
    record {
      directory =
          entry-IsDirectory pgdir (pdx va) (ptx va) (entry_for pa perm) qs s.memory d i k p w;
      free = IsFree-kept s m qs h.free (
          All-both (λ r. r ≢ table s.memory pgdir (pdx va)) (IsPage pgdir)
            (λ r. dword_at m r ≡ dword_at s.memory r) qs
            (λ r n g.
              let z : r + 4 * 0 ≡ r = omega arith in
              rw z at (
                entry-elsewhere pgdir (pdx va) (ptx va) (entry_for pa perm) qs s.memory d i k p w r
                  g.0 n 0 (omega arith)))
            (d.tables (pdx va) i p).1 d.pages);
      lookups = λ vb c.
          entry-lookup pgdir (pdx va) (ptx va) (entry_for pa perm) qs s.memory d i k p w vb
          ∙ rw (same_page va vb v v' c, h.lookups vb c) (mapped_one va pa perm f vb v e);
    }

pub lookup-absent :
    (m : Memory) (pgdir va : ℕ)
    → is_present (directory_entry m pgdir (pdx va)) ≡ true
    → lookup m pgdir va ≡ none
    → is_present (table_entry m pgdir (pdx va) (ptx va)) ≡ false
unfolding lookup
lookup-absent m pgdir va p h =
    elim (Bool-cases (is_present (table_entry m pgdir (pdx va) (ptx va)))) [
      | inl t ↦ absurd (ground arith)
      | inr t ↦ t
    ]

-- With no free page for a missing table, nothing changes.
pub fail_entry :
    (pgdir va pa perm : ℕ) (s : KernelMemory)
    → IsFree s []
    → is_present (directory_entry s.memory pgdir (pdx va)) ≡ false
    → create_entry pgdir va pa perm s ≡ returned s false
unfolding create_entry get_page_table_entry place_entry new_table allocate_page
fail_entry pgdir va pa perm s c a = rw (a, c) refl

-- Once the missing table is there, the round goes on as with a table that was there.
pub create_entry-missing :
    (pgdir va pa perm q : ℕ) (qs : List ℕ) (f : ℕ → Option ℕ) (s : KernelMemory)
    → Holds pgdir (q ∷ qs) f s
    → is_present (directory_entry s.memory pgdir (pdx va)) ≡ false
    → let s' : KernelMemory = record s {
      free_list = dword_at s.memory q;
      memory = with_table pgdir (pdx va) q s.memory;
    } in
      create_entry pgdir va pa perm s ≡ create_entry pgdir va pa perm s'
unfolding create_entry
create_entry-missing pgdir va pa perm q qs f s h a =
    let d = h.directory in
    let l : pdx va < 1024 = omega arith in
    let m = with_table pgdir (pdx va) q s.memory in
    let s' : KernelMemory = record s { free_list = dword_at s.memory q; memory = m } in
    let p : is_present (directory_entry m pgdir (pdx va)) ≡ true =
      new-present pgdir (pdx va) q qs s.memory d l a in
    let t : table m pgdir (pdx va) ≡ q = new-table pgdir (pdx va) q qs s.memory d l a in
    ap (λ r. then_run r (place_entry pa perm))
      (get-missing pgdir va q qs s h.free d.pages.0.0 a
        ∙ rw t at (sym (get-present pgdir va true s' p)))
