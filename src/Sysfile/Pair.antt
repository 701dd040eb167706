-- ===== src/Sysfile/Pair.antt =====
-- sys_pipe: two descriptors for the ends of a pipe, or everything is given back.
use systems_programming_a.Prelude.{
  ℕ, ◌≡◌, ◌⊎◌, ◌∙◌, refl, ap, ap₂, arith, Option, some, none, Bool, true, false, List, ◌∷◌, set,
  get_elem?, Memory, Option-cases, inl, inr,
}
use systems_programming_a.Proc.{Process, Table}
use systems_programming_a.Pipe.{Pipe, initialise, pipeclose}
use systems_programming_a.Kalloc.{allocate_page}
use systems_programming_a.Syscall.{argptr}
use systems_programming_a.Files.{File, closing, close_pipe, fdalloc, IsCounted}
use systems_programming_a.Sysfile.Defs.{
  Opening, Opened, refused, opened, then_opened, close_ends, pipe_in, pipealloc, second_descriptor,
  first_descriptor, sys_pipe,
}
use systems_programming_a.Sysfile.Slots.{fdalloc-free, set-set, close_ends-last}
use systems_programming_a.Sysfile.Ends.{IsFresh, Kept, IsEnd, WithoutPipe, HasEnds, pipealloc_lem}

-- The page of a pipe was taken, and both ends of the pipe were closed again.
abbrev pub PipeClosed : Opening → Opening → Type 0
PipeClosed s s' =
    (p : ℕ) × (allocate_page s.kernel ≡ (s'.kernel, p))
    × (s'.closed ≡ close_pipe p true ∷ close_pipe p false ∷ s.closed)
    × ((ps : Table)
        → (pipeclose (pipeclose (record { pipe = pipe_in s'.kernel.memory p; procs = ps }) false)
            true).pipe.freed
          ≡ true)

abbrev pub GivesBack : Opening → List ℕ → Opening → Type 0
GivesBack s hs s' =
    IsCounted s'.files hs
    × Kept hs s.files s'.files
    × (s'.open_file ≡ s.open_file)
    × (WithoutPipe s s' ⊎ PipeClosed s s')

-- What sys_pipe leaves when it succeeds; `made` is how pipealloc left it.
pub record HasPair (s : Opening) (hs : List ℕ) (o : Opened (ℕ × ℕ × Pipe)) : Type 0 where
  pub made : Opening
  pub reader : ℕ
  pub writer : ℕ
  pub page : ℕ
  pub reader_descriptor : ℕ
  pub writer_descriptor : ℕ
  pub ends : HasEnds s hs made reader writer page
  pub reader_free : get_elem? s.open_file reader_descriptor ≡ some none
  pub writer_free :
      get_elem? (set s.open_file reader_descriptor (some reader)) writer_descriptor ≡ some none
  pub result :
      o
      ≡ opened
          (record made {
            open_file =
                set
                  (set s.open_file reader_descriptor (some reader))
                  writer_descriptor
                  (some writer);
          })
          (reader_descriptor, writer_descriptor, pipe_in made.kernel.memory page)

abbrev pub OpensPair : Opening → List ℕ → Opened (ℕ × ℕ × Pipe) → Type 0
OpensPair s hs o = ((s' : Opening) × (o ≡ refused s') × GivesBack s hs s') ⊎ HasPair s hs o

closing-IsEnd : (w : Bool) (p : ℕ) (x : File) → IsEnd w p x → closing x ≡ close_pipe p w
closing-IsEnd w p x e = rw (e.0, e.2, e.3) refl

freed_pipe :
    (m : Memory) (p : ℕ) (ps : Table)
    → (pipeclose (pipeclose (record { pipe = pipe_in m p; procs = ps }) false) true).pipe.freed
      ≡ true
unfolding pipeclose pipe_in initialise
freed_pipe m p ps = refl

-- Both ends are closed, with these descriptors left.
ends-undone :
    (s : Opening) (hs : List ℕ) (s1 : Opening) (f g p : ℕ) (slots : List (Option ℕ))
    → HasEnds s hs s1 f g p
    → slots ≡ s.open_file
    → OpensPair s hs (close_ends f g (record s1 { open_file = slots }))
ends-undone s hs s1 f g p slots h e =
    let (x, y) =
      close_ends-last f g (record s1 { open_file = slots }) hs h.apart h.reader.0 h.writer.0
        h.counted in
    inl (
      _,
      x,
      (
        y,
        λ i l. ground (arith, h.kept i l, h.reader.0, h.writer.0),
        e,
        inr (
          p,
          h.page.0,
          ap₂ (λ c d. c ∷ d ∷ s1.closed) (closing-IsEnd true p (s1.files g) h.writer.2)
                (closing-IsEnd false p (s1.files f) h.reader.2)
              ∙ ap (λ l. close_pipe p true ∷ close_pipe p false ∷ l) h.others.1,
          freed_pipe s1.kernel.memory p,
        ),
      ),
    )

descriptors_lem :
    (s : Opening) (hs : List ℕ) (s1 : Opening) (f g p : ℕ)
    → HasEnds s hs s1 f g p
    → OpensPair s hs
        (first_descriptor f g (pipe_in s1.kernel.memory p) s1 (fdalloc f 0 s1.open_file))
unfolding first_descriptor second_descriptor
descriptors_lem s hs s1 f g p h = elim (Option-cases (fdalloc f 0 s1.open_file)) [
  | inl e ↦ rw e (ends-undone s hs s1 f g p s1.open_file h h.others.0)
  | inr ((d, l), e) ↦
      let (x, y) = fdalloc-free f d s1.open_file l e in
      let o = h.others.0 in
      let u : set l d none ≡ s.open_file =
        ap (λ l. set l d none) y ∙ set-set s1.open_file d (some f) x ∙ o in
      elim (Option-cases (fdalloc g 0 l)) [
        | inl n ↦ rw (e, n) (ends-undone s hs s1 f g p (set l d none) h u)
        | inr ((c, l'), n) ↦
            let (v, w) = fdalloc-free g c l l' n in
            let y' : l ≡ set s.open_file d (some f) = y ∙ ap (λ l. set l d (some f)) o in
            inr (record {
              made = s1;
              reader = f;
              writer = g;
              page = p;
              reader_descriptor = d;
              writer_descriptor = c;
              ends = h;
              reader_free = rw o at x;
              writer_free = rw y' at v;
              result =
                  rw (e, n)
                    (ap
                      (λ l. opened (record s1 { open_file = l }) (d, c, pipe_in s1.kernel.memory p))
                      (w ∙ ap (λ l. set l c (some g)) y'));
            })
      ]
]

pipe_made :
    (s : Opening) (hs : List ℕ)
    → IsCounted s.files hs
    → IsFresh s.files
    → OpensPair s hs (
        then_opened
          (pipealloc s)
          (λ s (f0, f1, q). first_descriptor f0 f1 q s (fdalloc f0 0 s.open_file)))
pipe_made s hs h r = elim (pipealloc_lem s hs h r) [
  | inl (s', e, (a, b, c, d)) ↦ rw e (inl (s', refl, (a, b, c, inl d)))
  | inr (s1, f, g, p, e, x) ↦ rw e (descriptors_lem s hs s1 f g p x)
]

-- sys_pipe on a table in which every slot counts its handles and the slots without references have
-- no type. It neither panics nor fails to end. Either it returns -1: then every slot counts the
-- same handles as before, the files with handles and the descriptors are unchanged, and either it
-- took no page and nothing is behind what it closed, or it took the page of a pipe and closed both
-- its ends, which frees the page. Or it returns 0: then two slots that had no handle have one each,
-- a reading and a writing end of a pipe in the allocated page, behind two descriptors that were
-- free, and the other files with handles and the other descriptors are unchanged.
pub sys_pipe_lem :
    (p : Process) (user : Memory) (s : Opening) (hs : List ℕ)
    → IsCounted s.files hs
    → IsFresh s.files
    → OpensPair s hs (sys_pipe p user s)
unfolding sys_pipe
sys_pipe_lem p user s hs h r = elim (Option-cases (argptr p user 0 8)) [
  | inl e ↦ rw (sys_pipe, e) (inl (s, refl, (h, λ i l. refl, refl, inl (refl, 0, refl))))
  | inr (a, e) ↦ rw (sys_pipe, e) (pipe_made s hs h r)
]
