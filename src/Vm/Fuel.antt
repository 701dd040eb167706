-- ===== src/Vm/Fuel.antt =====
-- The fuel of the loops of vm.c is enough.
use systems_programming_a.Prelude.{
  ℕ, zero, suc, ◌+◌, ◌-◌, ◌*◌, ◌/◌, ◌%◌, ◌^◌, ◌<◌, ◌≤◌, ◌≡◌, ◌≢◌, arith, Bool, true, false, Option,
  none, some, leb, ltb, ◌==◌, if◌then◌else◌, Bool-cases, inl, inr,
}
use systems_programming_a.Kalloc.{KernelMemory, page_size, kernel_base, page_round_up, free_page}
use systems_programming_a.Syscall.{dword_at}
use systems_programming_a.Vm.Access.{
  Run, Kernel, returned, stopped, out_of_fuel, panicked, then_run, ◌>>=◌, ◌>>◌, free, stop, store,
  load, result, p2v,
}
use systems_programming_a.Vm.Defs.{
  pdx, release_page, release_pages, release_user_pages, free_tables, free_memory_and_page_table,
  get_page_table_entry, free_entry, release_found, pte_addr, is_present, ptx,
}

-- A run that ends, with a result that has the property where it returns.
abbrev pub Ends : {A : Type 0} → (A → Type 0) → Run A → Type 0
Ends P (stopped e) = e ≢ out_of_fuel
Ends P (returned s a) = P a

-- A run in two parts ends where both do.
pub Ends-then_run :
    {A B : Type 0} (P : A → Type 0) (Q : B → Type 0) (r : Run A) (f : A → Kernel B)
    → Ends P r
    → ((a : A) (s : KernelMemory) → P a → Ends Q (f a s))
    → Ends Q (then_run r f)
Ends-then_run P Q (stopped e) f h g = h
Ends-then_run P Q (returned s a) f h g = g a s h

pub Ends-if :
    {A : Type 0} (P : A → Type 0) (b : Bool) (x y : Kernel A) (s : KernelMemory)
    → Ends P (x s)
    → Ends P (y s)
    → Ends P ((if b then x else y) s)
Ends-if P true x y s h g = h
Ends-if P false x y s h g = g

-- Where nothing is said of the result.
abbrev pub Halts : {A : Type 0} → Run A → Type 0
Halts r = Ends (λ a. Unit {0}) r

free-Halts : (kernel_end v : ℕ) (s : KernelMemory) → Halts (free kernel_end v s)
free-Halts kernel_end v s = go (free_page kernel_end v s)
  where
    go :
        (o : Option KernelMemory)
        → Halts {A = Unit {0}} (elim o [ none ↦ stopped panicked | some s' ↦ returned s' tt ])
    go none = λ e. cc e
    go (some s') = tt

free_entry-Halts : (kernel_end pte w : ℕ) (s : KernelMemory) → Halts (free_entry kernel_end pte w s)
unfolding free_entry
free_entry-Halts kernel_end pte w s =
    Ends-if (λ u. Unit {0}) (pte_addr w == 0) (stop panicked)
      (free kernel_end (p2v (pte_addr w)) >> store pte 0) s (λ e. cc e)
      (Ends-then_run (λ u. Unit {0}) (λ u. Unit {0}) (free kernel_end (p2v (pte_addr w)) s)
        (λ u. store pte 0) (free-Halts kernel_end (p2v (pte_addr w)) s) (λ a s' t. tt))

-- The address that a round goes on from.
abbrev pub GoesOn : ℕ → ℕ → Type 0
GoesOn a a' = (a' % page_size ≡ 0) × (a ≤ a') × (a' < kernel_base)

found-Ends :
    (kernel_end a pte : ℕ) (s : KernelMemory)
    → a % page_size ≡ 0
    → a < kernel_base
    → Ends (GoesOn a) (release_found kernel_end a pte s)
unfolding release_found
found-Ends kernel_end a pte s h l =
    let w = dword_at s.memory pte in
    Ends-if (GoesOn a) (pte == 0)
      (result (((pdx a + 1) * 2 ^ 22 % 2 ^ 32 + 2 ^ 32 - page_size) % 2 ^ 32))
      (load pte >>= λ w.
        ((if is_present w then free_entry kernel_end pte w else result tt) >> result a))
      s (omega arith, omega arith, omega arith)
      (Ends-then_run (λ u. Unit {0}) (GoesOn a)
        ((if is_present w then free_entry kernel_end pte w else result tt) s) (λ u. result a)
        (Ends-if (λ u. Unit {0}) (is_present w) (free_entry kernel_end pte w) (result tt) s
          (free_entry-Halts kernel_end pte w s) tt)
        (λ u s' t. (h, omega arith, l)))

pub found_entry-Halts :
    (pgdir a : ℕ) (s : KernelMemory) → Halts (get_page_table_entry pgdir a false s)
unfolding get_page_table_entry
found_entry-Halts pgdir a s =
    let w = dword_at s.memory (pgdir + 4 * pdx a) in
    Ends-if (λ u. Unit {0}) (is_present w) (result (p2v (pte_addr w) + 4 * ptx a)) (result 0) s tt
      tt

-- No call in a round runs a loop.
release_page-Ends :
    (kernel_end pgdir a : ℕ) (s : KernelMemory)
    → a % page_size ≡ 0
    → a < kernel_base
    → Ends (GoesOn a) (release_page kernel_end pgdir a s)
unfolding release_page
release_page-Ends kernel_end pgdir a s h l =
    Ends-then_run (λ pte. Unit {0}) (GoesOn a) (get_page_table_entry pgdir a false s)
      (release_found kernel_end a) (found_entry-Halts pgdir a s)
      (λ pte s' t. found-Ends kernel_end a pte s' h l)

release_pages-Halts :
    (fuel kernel_end pgdir a oldsz : ℕ) (s : KernelMemory)
    → a % page_size ≡ 0
    → oldsz ≤ kernel_base
    → oldsz ≤ a + fuel * page_size
    → Halts (release_pages fuel kernel_end pgdir a oldsz s)
unfolding release_pages
release_pages-Halts zero kernel_end pgdir a oldsz s h l e =
    let b : ltb a oldsz ≡ false = ground arith in rw b tt
release_pages-Halts (suc fuel) kernel_end pgdir a oldsz s h l e = elim (Bool-cases (ltb a oldsz)) [
  | inl t ↦ rw t (
      Ends-then_run (GoesOn a) (λ u. Unit {0}) (release_page kernel_end pgdir a s)
        (λ a'. release_pages fuel kernel_end pgdir ((a' + page_size) % 2 ^ 32) oldsz)
        (release_page-Ends kernel_end pgdir a s h (ground arith))
        (λ a' s' g.
          release_pages-Halts fuel kernel_end pgdir ((a' + page_size) % 2 ^ 32) oldsz s'
            (omega (arith, g)) l (omega (arith, g))))
  | inr t ↦ rw t tt
]

-- Releasing the user pages of a size of at most KERNBASE ends, whatever the directory and its tables
-- hold: it returns or panics.
pub release_user_pages-Halts :
    (kernel_end pgdir oldsz newsz : ℕ) (s : KernelMemory)
    → oldsz ≤ kernel_base
    → Halts (release_user_pages kernel_end pgdir oldsz newsz s)
unfolding release_user_pages
release_user_pages-Halts kernel_end pgdir oldsz newsz s l =
    Ends-if (λ u. Unit {0}) (leb oldsz newsz) (result oldsz)
      (release_pages (oldsz / page_size + 1) kernel_end pgdir (page_round_up newsz) oldsz
        >> result newsz)
      s tt
      (Ends-then_run (λ u. Unit {0}) (λ u. Unit {0})
        (release_pages (oldsz / page_size + 1) kernel_end pgdir (page_round_up newsz) oldsz s)
        (λ u. result newsz)
        (release_pages-Halts (oldsz / page_size + 1) kernel_end pgdir (page_round_up newsz) oldsz s
          (omega arith) l (omega arith))
        (λ u s' t. tt))

free_tables-Halts :
    (n kernel_end pgdir i : ℕ) (s : KernelMemory) → Halts (free_tables n kernel_end pgdir i s)
unfolding free_tables
free_tables-Halts zero kernel_end pgdir i s = tt
free_tables-Halts (suc n) kernel_end pgdir i s =
    let w = dword_at s.memory (pgdir + 4 * i) in
    Ends-then_run (λ u. Unit {0}) (λ u. Unit {0})
      ((if is_present w then free kernel_end (p2v (pte_addr w)) else result tt) s)
      (λ u. free_tables n kernel_end pgdir (i + 1))
      (Ends-if (λ u. Unit {0}) (is_present w) (free kernel_end (p2v (pte_addr w))) (result tt) s
        (free-Halts kernel_end (p2v (pte_addr w)) s) tt)
      (λ u s' t. free_tables-Halts n kernel_end pgdir (i + 1) s')

-- Freeing a page table with the user's pages ends: it returns or panics.
pub free_memory_and_page_table-Halts :
    (kernel_end pgdir : ℕ) (s : KernelMemory)
    → Halts (free_memory_and_page_table kernel_end pgdir s)
unfolding free_memory_and_page_table
free_memory_and_page_table-Halts kernel_end pgdir s =
    Ends-if (λ u. Unit {0}) (pgdir == 0) (stop panicked)
      (release_user_pages kernel_end pgdir kernel_base 0 >>= λ old.
        (free_tables 1024 kernel_end pgdir 0 >> free kernel_end pgdir))
      s (λ e. cc e)
      (Ends-then_run (λ u. Unit {0}) (λ u. Unit {0})
        (release_user_pages kernel_end pgdir kernel_base 0 s)
        (λ old. (free_tables 1024 kernel_end pgdir 0 >> free kernel_end pgdir))
        (release_user_pages-Halts kernel_end pgdir kernel_base 0 s (omega arith))
        (λ old s' t.
          Ends-then_run (λ u. Unit {0}) (λ u. Unit {0}) (free_tables 1024 kernel_end pgdir 0 s')
            (λ u. free kernel_end pgdir) (free_tables-Halts 1024 kernel_end pgdir 0 s')
            (λ u s'' t'. free-Halts kernel_end pgdir s'')))
