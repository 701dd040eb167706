-- ===== src/Sysfile/Mode.antt =====
-- sys_open behind the search for its path.
use systems_programming_a.Prelude.{
  ℕ, ◌≡◌, ◌⊎◌, refl, arith, some, none, not, ◌||◌, List, ◌∷◌, set, get_elem?, Option-cases, inl,
  inr,
}
use systems_programming_a.Files.{Files, closing, fdalloc, handles_of, IsCounted}
use systems_programming_a.Fat.Search.{found}
use systems_programming_a.Sysfile.Defs.{Opening, Opened, refused, opened}
use systems_programming_a.Sysfile.Slots.{fdalloc-free, close_file-last, IsCounted-emptied}
use systems_programming_a.Sysfile.Paths.{is_wronly, is_rdwr, set_mode, with_descriptor, with_file}

-- Without a descriptor the file is closed again; otherwise it is behind one that was free, with the
-- mode.
abbrev pub OpensFile : ℕ → ℕ → Files → List ℕ → Opening → Opened ℕ → Type 0
OpensFile omode f t hs s o =
    ((s' : Opening) × (o ≡ refused s')
      × IsCounted s'.files hs
      × (s'.open_file ≡ s.open_file)
      × (s'.closed ≡ closing (t f) ∷ s.closed))
    ⊎ ((s' : Opening) × (fd : ℕ) × (o ≡ opened s' fd)
        × IsCounted s'.files (f ∷ hs)
        × (get_elem? s.open_file fd ≡ some none)
        × (s'.open_file ≡ set s.open_file fd (some f))
        × ((s'.files f).readable ≡ not (is_wronly omode))
        × ((s'.files f).writable ≡ (is_wronly omode || is_rdwr omode)))

-- With a file that fsFat12Open has given, whose slot has its first handle, sys_open either closes
-- it again, with the descriptors as before and every slot counting its other handles, or puts it
-- behind a descriptor that was free, readable and writable as the mode says.
pub with_file_lem :
    (omode f : ℕ) (t : Files) (hs : List ℕ) (s : Opening)
    → handles_of f hs ≡ 0
    → IsCounted t (f ∷ hs)
    → OpensFile omode f t hs s (with_file omode s (found f t))
unfolding with_file with_descriptor handles_of
with_file_lem omode f t hs s a h = elim (Option-cases (fdalloc f 0 s.open_file)) [
  | inl e ↦
      let one : (t f).reference_count ≡ 1 = ground (arith, h f) in
      rw e (
        inl (
          _,
          close_file-last f (record s { files = t }) refused one,
          IsCounted-emptied t (f ∷ hs) hs f h a (λ j n. ground arith),
          refl,
          refl,
        ))
  | inr ((fd, slots), e) ↦
      let (x, y) = fdalloc-free f fd s.open_file slots e in
      rw e (
        inr (
          record s { open_file = slots; files = set_mode omode f t },
          fd,
          refl,
          λ j. ground (arith, h j),
          x,
          y,
          ground arith,
          ground arith,
        ))
]
