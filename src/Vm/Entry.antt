-- ===== src/Vm/Entry.antt =====
-- What a new table and a new entry change of what the directory maps.
use systems_programming_a.Prelude.{
  ℕ, ◌+◌, ◌*◌, ◌%◌, ◌^◌, ◌<◌, ◌≡◌, ◌≢◌, sym, refl, arith, Memory, true, false, ◌&&◌, List, ◌∷◌,
  ◌==◌, if◌then◌else◌, Bool-cases, inl, inr,
}
use systems_programming_a.Str.Block.{store_dword}
use systems_programming_a.Syscall.{dword_at}
use systems_programming_a.Vm.Defs.{pdx, ptx, is_present}
use systems_programming_a.Vm.Words.{word_stored, word_kept}
use systems_programming_a.Vm.Directory.{
  directory_entry, table, present, lookup, IsDirectory, with_table, new-entry, new-entry_ne,
  new-table, new-elsewhere, new-empty, table-aligned,
}

module _ (pgdir i q : ℕ) (qs : List ℕ) (m : Memory) (d : IsDirectory pgdir (q ∷ qs) m)
    (l : i < 1024) (a : is_present (directory_entry m pgdir i) ≡ false) where
  new-was_present :
      (j : ℕ)
      → j < 1024
      → j ≢ i
      → is_present (directory_entry (with_table pgdir i q m) pgdir j) ≡ true
      → is_present (directory_entry m pgdir j) ≡ true
  new-was_present j k n p = rw (new-entry_ne pgdir i q qs m d l a j k n) at p

  -- Another table is where it was.
  new-table_ne :
      (j : ℕ) → j < 1024 → j ≢ i → table (with_table pgdir i q m) pgdir j ≡ table m pgdir j
  new-table_ne j k n = rw (new-entry_ne pgdir i q qs m d l a j k n) refl

  pub new-IsDirectory : IsDirectory pgdir qs (with_table pgdir i q m)
  new-IsDirectory = record {
    aligned = d.aligned;
    pages = d.pages.1;
    distinct = d.distinct.1;
    tables = λ j k p. elim (Bool-cases (j == i)) [
      | inl e ↦
          let same : j ≡ i = ground arith in
          rw (same, new-table pgdir i q qs m d l a) (d.pages.0.3, d.distinct.0, d.pages.0.1)
      | inr e ↦
          let n : j ≢ i = ground arith in
          let t = d.tables j k (new-was_present j k n p) in
          rw (new-table_ne j k n) (t.0, t.1.1, t.2)
    ];
    apart = λ j j' k k' n p p'. elim (Bool-cases (j == i)) [
      | inl e ↦
          let same : j ≡ i = ground arith in
          let o' : j' ≢ i = ground arith in
          rw (same, new-table pgdir i q qs m d l a, new-table_ne j' k' o')
            λ c. (d.tables j' k' (new-was_present j' k' o' p')).1.0 (sym c)
      | inr e ↦ elim (Bool-cases (j' == i)) [
        | inl e' ↦
            let same : j' ≡ i = ground arith in
            let o : j ≢ i = ground arith in
            rw (same, new-table pgdir i q qs m d l a, new-table_ne j k o)
              (d.tables j k (new-was_present j k o p)).1.0
        | inr e' ↦
            let o : j ≢ i = ground arith in
            let o' : j' ≢ i = ground arith in
            rw (new-table_ne j k o, new-table_ne j' k' o')
              (d.apart j j' k k' n (new-was_present j k o p) (new-was_present j' k' o' p'))
      ]
    ];
  }

  pub new-lookup : (vb : ℕ) → lookup (with_table pgdir i q m) pgdir vb ≡ lookup m pgdir vb
  unfolding lookup
  new-lookup vb = elim (Bool-cases (pdx vb == i)) [
    | inl e ↦
        let same : pdx vb ≡ i = ground arith in
        rw
          (
            same,
            new-empty pgdir i q qs m d l a (ptx vb) (omega arith),
            new-entry pgdir i q qs m d l a,
            a,
          )
          (ground arith)
    | inr e ↦
        let n : pdx vb ≢ i = ground arith in
        let k : pdx vb < 1024 = omega arith in
        elim (Bool-cases (is_present (directory_entry m pgdir (pdx vb)))) [
          | inl p ↦
              let t = d.tables (pdx vb) k p in
              rw
                (
                  new-entry_ne pgdir i q qs m d l a (pdx vb) k n,
                  new-elsewhere pgdir i q qs m d l a (table m pgdir (pdx vb))
                      (table-aligned (directory_entry m pgdir (pdx vb))) (λ c. t.1.0 (sym c)) t.0
                      (ptx vb) (omega arith),
                )
                refl
          | inr p ↦ rw (new-entry_ne pgdir i q qs m d l a (pdx vb) k n, p) refl
        ]
  ]

-- The memory with a word in an entry of a table.
abbrev pub with_entry : ℕ → ℕ → ℕ → ℕ → Memory → Memory
with_entry pgdir i k w m = store_dword (table m pgdir i + 4 * k) w m

module _ (pgdir i k w : ℕ) (qs : List ℕ) (m : Memory) (d : IsDirectory pgdir qs m) (l : i < 1024)
    (h : k < 1024) (a : is_present (directory_entry m pgdir i) ≡ true) (b : w < 2 ^ 32) where
  -- A word outside the table is what it was.
  pub entry-elsewhere :
      (c : ℕ)
      → c % 4096 ≡ 0
      → c ≢ table m pgdir i
      → (j : ℕ) → j < 1024
      → dword_at (with_entry pgdir i k w m) (c + 4 * j) ≡ dword_at m (c + 4 * j)
  entry-elsewhere c e n j o =
      let t : table m pgdir i % 4096 ≡ 0 = table-aligned (directory_entry m pgdir i) in
      word_kept (table m pgdir i + 4 * k) w (c + 4 * j) m (omega (arith, t)) (omega (arith, t))
        (omega (arith, t))

  pub entry-directory :
      (j : ℕ)
      → j < 1024
      → directory_entry (with_entry pgdir i k w m) pgdir j ≡ directory_entry m pgdir j
  entry-directory j o = entry-elsewhere pgdir d.aligned (λ c. (d.tables i l a).0 (sym c)) j o

  pub entry-IsDirectory : IsDirectory pgdir qs (with_entry pgdir i k w m)
  entry-IsDirectory = record {
    aligned = d.aligned;
    pages = d.pages;
    distinct = d.distinct;
    tables = λ j o p. let e = entry-directory j o in rw e (d.tables j o (rw e at p));
    apart = λ j j' o o' n p p'.
        let e = entry-directory j o in
        let e' = entry-directory j' o' in
        rw (e, e') (d.apart j j' o o' n (rw e at p) (rw e' at p'));
  }

  pub entry-lookup :
      (vb : ℕ)
      → lookup (with_entry pgdir i k w m) pgdir vb
        ≡ (if pdx vb == i && ptx vb == k then present w else lookup m pgdir vb)
  unfolding lookup
  entry-lookup vb = elim (Bool-cases (pdx vb == i)) [
    | inl e ↦
        let same : pdx vb ≡ i = ground arith in
        elim (Bool-cases (ptx vb == k)) [
          | inl f ↦
              let same' : ptx vb ≡ k = ground arith in
              rw
                (
                  e,
                  f,
                  same,
                  same',
                  entry-directory i l,
                  word_stored (table m pgdir i + 4 * k) w m b,
                  a,
                )
                refl
          | inr f ↦
              let n : ptx vb ≢ k = ground arith in
              let t = table-aligned (directory_entry m pgdir i) in
              rw
                (
                  e,
                  f,
                  same,
                  entry-directory i l,
                  word_kept (table m pgdir i + 4 * k) w (table m pgdir i + 4 * ptx vb) m
                      (omega (arith, t)) (omega (arith, t)) (omega arith),
                )
                refl
        ]
    | inr e ↦ elim (Bool-cases (is_present (directory_entry m pgdir (pdx vb)))) [
      | inl p ↦
          rw
            (
              e,
              entry-directory (pdx vb) (omega arith),
              entry-elsewhere (table m pgdir (pdx vb))
                  (table-aligned (directory_entry m pgdir (pdx vb)))
                  (d.apart i (pdx vb) l (omega arith) (ground arith) a p) (ptx vb) (omega arith),
            )
            refl
      | inr p ↦ rw (e, entry-directory (pdx vb) (omega arith), p) refl
    ]
  ]
