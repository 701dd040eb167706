-- ===== src/Fat/Search/Root.antt =====
-- What a search looks at: the whole root directory, and one block of a subdirectory.
use systems_programming_a.Prelude.{
  ℕ, zero, suc, ◌+◌, ◌*◌, ◌/◌, ◌%◌, ◌^◌, ◌≡◌, ◌∙◌, sym, ap, refl, arith, Bool, true, false, not,
  ◌&&◌, ◌||◌, Option, none, some, List, [], ◌∷◌, ◌++◌, ◌==◌, if◌then◌else◌, Memory, length, drop,
  get_or, update, update_self, Bool-cases, inl, inr,
}
use systems_programming_a.Files.{File, Files, fd_file}
use systems_programming_a.Fat.Mount.{Disk, Volume}
use systems_programming_a.Fat.Cluster.{slice, read_cluster}
use systems_programming_a.Fat.Reading.{
  Reading, read, ran_past, read_rounds, fs_read, advance_file, is_past_end, is_file, is_directory,
  follow, entry_first_cluster,
}
use systems_programming_a.Fat.Search.Defs.{
  found, missing, is_same, entry_name, find_in_sector, find_in_sectors, find_in_buffer, close_and,
  search_rounds,
}

-- The entry is in use and has the name.
abbrev pub is_wanted : List ℕ → List ℕ → Bool
is_wanted name e = not (get_or e 0 0 == 0) && is_same name (entry_name e)

pub first_of : (List ℕ → Bool) → List (List ℕ) → Option (List ℕ)
first_of f [] = none
first_of f (e ∷ es) = if f e then some e else first_of f es

-- The `n` entries of a sector from the entry `i` on, and those of `n` sectors from the sector `s` on.
pub sector_entries : Memory → ℕ → ℕ → List (List ℕ)
sector_entries sector zero i = []
sector_entries sector (suc n) i = slice sector (32 * i) 32 ∷ sector_entries sector n (i + 1)

pub directory_entries : Disk → ℕ → ℕ → List (List ℕ)
directory_entries disk zero s = []
directory_entries disk (suc n) s =
    sector_entries (disk s) 16 0 ++ directory_entries disk n ((s + 1) % 2 ^ 32)

or_else : Option (List ℕ) → Option (List ℕ) → Option (List ℕ)
or_else a b = elim a [ none ↦ b | some e ↦ some e ]

first_of-append :
    (f : List ℕ → Bool) (xs ys : List (List ℕ))
    → first_of f (xs ++ ys) ≡ or_else (first_of f xs) (first_of f ys)
unfolding first_of or_else
first_of-append f [] ys = refl
first_of-append f (x ∷ xs) ys = elim (Bool-cases (f x)) [
  | inl e ↦ rw e refl
  | inr e ↦ rw e (first_of-append f xs ys)
]

find_in_sector_lem :
    (name : List ℕ) (sector : Memory) (n i : ℕ)
    → find_in_sector name sector n i ≡ first_of (is_wanted name) (sector_entries sector n i)
unfolding find_in_sector first_of sector_entries
find_in_sector_lem name sector zero i = refl
find_in_sector_lem name sector (suc n) i = rw (find_in_sector_lem name sector n (i + 1)) refl

-- The search of the root directory finds the first entry of its sectors, sixteen in each, that is in
-- use and has the name, and nothing exactly when there is none.
pub find_in_sectors_lem :
    (disk : Disk) (name : List ℕ) (n s : ℕ)
    → find_in_sectors disk name n s ≡ first_of (is_wanted name) (directory_entries disk n s)
unfolding find_in_sectors first_of directory_entries or_else
find_in_sectors_lem disk name zero s = refl
find_in_sectors_lem disk name (suc n) s =
    let es = directory_entries disk n ((s + 1) % 2 ^ 32) in
    ap (or_else (find_in_sector name (disk s) 16 0))
      (find_in_sectors_lem disk name n ((s + 1) % 2 ^ 32))
    ∙ (ap (λ o. or_else o (first_of (is_wanted name) es)) (find_in_sector_lem name (disk s) 16 0)
        ∙ sym (first_of-append (is_wanted name) (sector_entries (disk s) 16 0) es))

-- The round of a read that passes the size marks the end of the file.
round-eof :
    (f f' : File) (bytes : List ℕ) (o : Option (List ℕ)) (b : List ℕ → Bool) (r : List ℕ → Reading)
    → f.file_type ≡ fd_file
    → f.size ≡ 0
    → elim o [
      | none ↦ ran_past
      | some bs ↦
          if is_past_end (advance_file f bs) || b bs
          then read (record (advance_file f bs) { eof = 1 }) bs
          else r bs
    ]
      ≡ read f' bytes
    → f'.eof ≡ 1
round-eof f f' bytes none b r t z e = absurd (cc e)
round-eof f f' bytes (some bs) b r t z e =
    let p : is_past_end (advance_file f bs) ≡ true = rw (t, z) (ground arith) in
    let e' : read (record (advance_file f bs) { eof = 1 }) bs ≡ read f' bytes = rw p at e in
    let same : record (advance_file f bs) { eof = 1 } ≡ f' = cc e' in rw (← same) refl

fs_read-empty :
    (disk : Disk) (v : Volume) (f f' : File) (size : ℕ) (bytes : List ℕ)
    → f.file_type ≡ fd_file
    → f.size ≡ 0
    → f.eof ≡ 0
    → fs_read disk v f (suc size) ≡ read f' bytes
    → f'.eof ≡ 1
unfolding fs_read read_rounds
fs_read-empty disk v f f' size bytes t z o h =
    let open_file : ((is_file f.file_type || is_directory f.file_type) && f.eof == 0) ≡ true =
      rw (t, o) refl in
    let y : (suc size == 0) ≡ false = ground arith in
    round-eof f f' bytes
      (read_cluster disk v.bpb v.mount
        (follow v.fat (f.position / v.mount.cluster_size) (entry_first_cluster f.directory_entry))
        (f.position % v.mount.cluster_size) (suc size))
      _ _ t z (rw (open_file, y) at h)

search_rounds-first :
    (disk : Disk) (v : Volume) (fuel : ℕ) (name : List ℕ) (slot : ℕ) (buffer : List ℕ) (t : Files)
    (f : File) (bytes : List ℕ)
    → (t slot).eof ≡ 0
    → fs_read disk v (t slot) 512 ≡ read f bytes
    → let buffer' = bytes ++ drop (length bytes) buffer in
      search_rounds disk v (suc fuel) name slot buffer t ≡ elim (find_in_buffer name 16 buffer') [
        | none ↦ search_rounds disk v fuel name slot buffer' (update t slot f)
        | some e ↦ close_and slot (update t slot f) (found e)
      ]
unfolding search_rounds
search_rounds-first disk v fuel name slot buffer t f bytes z h =
    let b : ((t slot).eof == 0) ≡ true = rw z refl in rw (b, h) refl

search_rounds-end :
    (disk : Disk) (v : Volume) (fuel : ℕ) (name : List ℕ) (slot : ℕ) (buffer : List ℕ) (t : Files)
    → (t slot).eof ≡ 1
    → search_rounds disk v (suc fuel) name slot buffer t ≡ close_and slot t missing
unfolding search_rounds
search_rounds-end disk v fuel name slot buffer t z =
    let b : ((t slot).eof == 0) ≡ false = rw z refl in rw b refl

-- The search in a subdirectory whose recorded size is 0, which FAT records for every directory: once
-- the first read of 512 bytes returns, either the name is in the 16 entries of the buffer, or the
-- search ends there without it, however many entries the directory has.
pub search_rounds-one_block :
    (disk : Disk) (v : Volume) (fuel : ℕ) (name : List ℕ) (slot : ℕ) (buffer : List ℕ) (t : Files)
    (f : File) (bytes : List ℕ)
    → (t slot).file_type ≡ fd_file
    → (t slot).size ≡ 0
    → (t slot).eof ≡ 0
    → fs_read disk v (t slot) 512 ≡ read f bytes
    → search_rounds disk v (suc (suc fuel)) name slot buffer t
      ≡ elim (find_in_buffer name 16 (bytes ++ drop (length bytes) buffer)) [
        | none ↦ close_and slot (update t slot f) missing
        | some e ↦ close_and slot (update t slot f) (found e)
      ]
search_rounds-one_block disk v fuel name slot buffer t f bytes ft fs fe h =
    let e : f.eof ≡ 1 = fs_read-empty disk v (t slot) f 511 bytes ft fs fe h in
    let u : update t slot f slot ≡ f = update_self t slot f in
    let buffer' = bytes ++ drop (length bytes) buffer in
    search_rounds-first disk v (suc fuel) name slot buffer t f bytes fe h
    ∙ ap
        (λ r. elim (find_in_buffer name 16 buffer') [
          | none ↦ r
          | some e ↦ close_and slot (update t slot f) (found e)
        ])
        (search_rounds-end disk v fuel name slot buffer' (update t slot f) (ap (λ x. x.eof) u ∙ e))
