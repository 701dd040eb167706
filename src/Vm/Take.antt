-- ===== src/Vm/Take.antt =====
-- A free page that is taken and cleared, as for a page of user memory.
use systems_programming_a.Prelude.{
  ℕ, ◌+◌, ◌*◌, ◌%◌, ◌<◌, ◌≡◌, ◌≢◌, ◌∙◌, sym, refl, arith, Option, List, ◌∷◌, Bool-cases, inl, inr,
}
use systems_programming_a.Str.Block.{memset}
use systems_programming_a.Syscall.{dword_at}
use systems_programming_a.Kalloc.{KernelMemory, IsFree-kept}
use systems_programming_a.Vm.Defs.{pdx, ptx, is_present}
use systems_programming_a.Vm.Words.{word_spared}
use systems_programming_a.Vm.Directory.{
  directory_entry, table, lookup, IsDirectory, IsPage, table-aligned,
}
use systems_programming_a.Vm.Step.{Holds, All-both}

module _ (pgdir q : ℕ) (qs : List ℕ) (f : ℕ → Option ℕ) (s : KernelMemory)
    (h : Holds pgdir (q ∷ qs) f s) where
  -- The state with the page taken and cleared.
  abbrev pub taken : KernelMemory
  taken = record s { free_list = dword_at s.memory q; memory = memset q 0 4096 s.memory }

  pub taken-elsewhere :
      (b : ℕ)
      → b % 4096 ≡ 0
      → b ≢ q
      → (k : ℕ) → k < 1024
      → dword_at (memset q 0 4096 s.memory) (b + 4 * k) ≡ dword_at s.memory (b + 4 * k)
  taken-elsewhere b e n k l =
      word_spared q (b + 4 * k) s.memory (omega arith) h.directory.pages.0.0
        (ground (arith, h.directory.pages.0))

  pub taken-entry :
      (i : ℕ)
      → i < 1024
      → directory_entry (memset q 0 4096 s.memory) pgdir i ≡ directory_entry s.memory pgdir i
  taken-entry i l =
      taken-elsewhere pgdir h.directory.aligned (λ e. h.directory.pages.0.3 (sym e)) i l

  taken-lookup : (vb : ℕ) → lookup (memset q 0 4096 s.memory) pgdir vb ≡ lookup s.memory pgdir vb
  unfolding lookup
  taken-lookup vb =
      let i : pdx vb < 1024 = omega arith in
      elim (Bool-cases (is_present (directory_entry s.memory pgdir (pdx vb)))) [
        | inl p ↦
            let t = h.directory.tables (pdx vb) i p in
            rw
              (
                taken-entry (pdx vb) i,
                taken-elsewhere (table s.memory pgdir (pdx vb))
                    (table-aligned (directory_entry s.memory pgdir (pdx vb))) (λ e. t.1.0 (sym e))
                    (ptx vb) (omega arith),
              )
              refl
        | inr p ↦ rw (taken-entry (pdx vb) i, p) refl
      ]

  taken-IsDirectory : IsDirectory pgdir qs (memset q 0 4096 s.memory)
  taken-IsDirectory = record {
    aligned = h.directory.aligned;
    pages = h.directory.pages.1;
    distinct = h.directory.distinct.1;
    tables = λ i l p.
        let e = taken-entry i l in
        let t = h.directory.tables i l (rw e at p) in rw e (t.0, t.1.1, t.2);
    apart = λ i j l l' n p p'.
        let e = taken-entry i l in
        let e' = taken-entry j l' in
        rw (e, e') (h.directory.apart i j l l' n (rw e at p) (rw e' at p'));
  }

  pub taken-Holds : Holds pgdir qs f taken
  taken-Holds = record {
    directory = taken-IsDirectory;
    free =
        IsFree-kept (record s { free_list = dword_at s.memory q }) (memset q 0 4096 s.memory) qs
          h.free.2
          (All-both (λ r. r ≢ q) (IsPage pgdir)
            (λ r. dword_at (memset q 0 4096 s.memory) r ≡ dword_at s.memory r) qs
            (λ r n g.
              let z : r + 4 * 0 ≡ r = omega arith in
              rw z at (taken-elsewhere r g.0 n 0 (omega arith)))
            h.directory.distinct.0 h.directory.pages.1);
    lookups = λ vb c. taken-lookup vb ∙ h.lookups vb c;
  }
