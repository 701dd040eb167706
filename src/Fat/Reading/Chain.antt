-- ===== src/Fat/Reading/Chain.antt =====
-- A read returns the bytes of the clusters of the file's chain, one after the other.
use mathlib.Core.List.{append-nil}
use Prim.Native.Nat.{min}
use systems_programming_a.Prelude.{
  ℕ, zero, suc, ◌+◌, ◌-◌, ◌*◌, ◌/◌, ◌%◌, ◌^◌, ◌≤◌, ◌<◌, ◌≡◌, ◌≢◌, ◌∙◌, ap, refl, arith, Bool, true,
  false, ◌&&◌, ◌||◌, some, List, [], ◌∷◌, ◌++◌, leb, ◌==◌, if◌then◌else◌, Memory, length,
  Bool-cases, inl, inr,
}
use native.Mathlib.Nat.{div-add-mod', mod-lt, mod-mod_of_dvd, dvd-mul_left}
use systems_programming_a.Files.{File, fd_file}
use systems_programming_a.Fat.Mount.{Disk, Volume}
use systems_programming_a.Fat.Table.{get_next_cluster}
use systems_programming_a.Fat.Cluster.{read_cluster, read_cluster_lem, linear, slice, first_sector}
use systems_programming_a.Fat.Reading.Defs.{
  Reading, read, prepend, is_past_end, next_cluster, read_rounds, follow, fs_read, is_file,
  is_directory, entry_first_cluster,
}

length-slice : (m : Memory) (a n : ℕ) → length (slice m a n) ≡ n
unfolding slice
length-slice m a zero = refl
length-slice m a (suc n) = ap suc (length-slice m (a + 1) n)

module _ (disk : Disk) (v : Volume) (sectors : v.bpb.bytes_per_sector ≡ 512)
    (clusters : v.mount.cluster_size ≡ v.bpb.sectors_per_cluster * 512)
    (positive : 0 < v.mount.cluster_size) where
  abbrev cluster_size : ℕ
  cluster_size = v.mount.cluster_size

  abbrev start : ℕ → ℕ
  start c = first_sector v.bpb v.mount c * 512

  abbrev EndFits : ℕ → Type 0
  EndFits c = first_sector v.bpb v.mount c + v.mount.cluster_size < 2 ^ 32

  -- The clusters from `c` on follow each other in the table up to the end of the file, and lie on the
  -- disk.
  abbrev pub IsChain : ℕ → List ℕ → Type 0
  IsChain c [] = EndFits c × (get_next_cluster v.fat c ≡ 0)
  IsChain c (d ∷ ds) = EndFits c × (get_next_cluster v.fat c ≡ d) × (d ≢ 0) × IsChain d ds

  chain-EndFits : (c : ℕ) (ds : List ℕ) → IsChain c ds → EndFits c
  chain-EndFits c [] h = h.0
  chain-EndFits c (d ∷ ds) h = h.0

  -- `size` bytes from `offset` on of the clusters from `c` on.
  unfoldable pub chain_bytes : ℕ → List ℕ → ℕ → ℕ → List ℕ
  chain_bytes c [] offset size =
      slice (linear disk) (start c + offset) (min size (cluster_size - offset))
  chain_bytes c (d ∷ ds) offset size =
      slice (linear disk) (start c + offset) (min size (cluster_size - offset))
      ++ chain_bytes d ds 0 (size - min size (cluster_size - offset))

  chain_bytes_zero : (c : ℕ) (ds : List ℕ) (offset : ℕ) → chain_bytes c ds offset 0 ≡ []
  unfolding chain_bytes slice
  chain_bytes_zero c [] offset =
      let e : min 0 (cluster_size - offset) ≡ 0 = omega arith in rw e refl
  chain_bytes_zero c (d ∷ ds) offset =
      let e : min 0 (cluster_size - offset) ≡ 0 = omega arith in rw e (chain_bytes_zero d ds 0)

  chain_bytes_within :
      (c : ℕ) (ds : List ℕ) (offset size : ℕ)
      → size ≤ cluster_size - offset
      → chain_bytes c ds offset size ≡ slice (linear disk) (start c + offset) size
  unfolding chain_bytes
  chain_bytes_within c [] offset size h =
      let e : min size (cluster_size - offset) ≡ size = omega arith in rw e refl
  chain_bytes_within c (d ∷ ds) offset size h =
      let e : min size (cluster_size - offset) ≡ size = omega arith in
      let z : size - size ≡ 0 = omega arith in
      rw (e, z, chain_bytes_zero d ds 0) (append-nil (slice (linear disk) (start c + offset) size))

  -- The file after a read of `n` bytes that stays inside it.
  abbrev pub read_on : File → ℕ → File
  read_on f n = record f {
    position = f.position + n;
    eof = if n == 0 then f.eof else if f.position + n == f.size then 1 else f.eof;
  }

  round :
      (fuel : ℕ) (f : File) (c : ℕ) (ds : List ℕ) (offset size : ℕ)
      → size ≢ 0
      → f.position + size < 2 ^ 32
      → IsChain c ds
      → offset % 512 ≡ 0
      → offset < cluster_size
      → let n = min size (cluster_size - offset) in
        let bytes = slice (linear disk) (start c + offset) n in
        let f' = record f { position = f.position + n } in
        let next = next_cluster v c offset n in
        read_rounds disk v (suc fuel) f c offset size ≡ (
          if is_past_end f' || next == 0
          then read (record f' { eof = 1 }) bytes
          else prepend bytes (read_rounds disk v fuel f' next 0 (size - n)))
  unfolding read_rounds
  round fuel f c ds offset size z w h o b =
      let n = min size (cluster_size - offset) in
      let bytes = slice (linear disk) (start c + offset) n in
      let t : (size == 0) ≡ false = ground arith in
      let r : read_cluster disk v.bpb v.mount c offset size ≡ some bytes =
        read_cluster_lem disk v.bpb v.mount c offset size sectors clusters b (chain-EndFits c ds h)
          (inl o) in
      let k : length bytes ≡ n = length-slice (linear disk) (start c + offset) n in
      let m : (f.position + n) % 2 ^ 32 ≡ f.position + n = omega (arith, w) in rw (t, r, k, m) refl

  rounds_zero :
      (fuel : ℕ) (f : File) (c offset : ℕ) → read_rounds disk v fuel f c offset 0 ≡ read f []
  unfolding read_rounds
  rounds_zero zero f c offset = refl
  rounds_zero (suc fuel) f c offset = refl

  -- The round that reaches the end of the file.
  last_round :
      (f : File) (c : ℕ) (ds : List ℕ) (offset size : ℕ) (b : Bool) (r : Reading)
      → f.file_type ≡ fd_file
      → size ≢ 0
      → f.position + size ≤ f.size
      → leb f.size (f.position + min size (cluster_size - offset)) ≡ true
      → let n = min size (cluster_size - offset) in
        let f' = record f { position = f.position + n } in
        (if is_past_end f' || b
          then read (record f' { eof = 1 }) (slice (linear disk) (start c + offset) n)
          else r)
        ≡ read (read_on f size) (chain_bytes c ds offset size)
  last_round f c ds offset size b r t z e p =
      let le : f.size ≤ f.position + min size (cluster_size - offset) = ground arith in
      let k : min size (cluster_size - offset) ≡ size = omega (arith, e, le) in
      let w : size ≤ cluster_size - offset = omega (arith, k) in
      let y : (size == 0) ≡ false = ground arith in
      let q : (f.position + size == f.size) ≡ true = ground arith in
      let q' : leb f.size (f.position + size) ≡ true = ground arith in
      rw (k, t, q', q, y, chain_bytes_within c ds offset size w) refl

  -- A round that ends inside its cluster and before the end of the file is the last.
  short_round :
      (fuel : ℕ) (f : File) (c : ℕ) (ds : List ℕ) (offset size : ℕ)
      → c ≢ 0
      → size ≢ 0
      → offset < cluster_size
      → leb f.size (f.position + min size (cluster_size - offset)) ≡ false
      → (offset + min size (cluster_size - offset) == cluster_size) ≡ false
      → let n = min size (cluster_size - offset) in
        let f' = record f { position = f.position + n } in
        let next = next_cluster v c offset n in
        (if is_past_end f' || next == 0
          then read (record f' { eof = 1 }) (slice (linear disk) (start c + offset) n)
          else prepend
              (slice (linear disk) (start c + offset) n)
              (read_rounds disk v fuel f' next 0 (size - n)))
        ≡ read (read_on f size) (chain_bytes c ds offset size)
  short_round fuel f c ds offset size z y b p q =
      let o : offset + min size (cluster_size - offset) ≢ cluster_size = ground arith in
      let k : min size (cluster_size - offset) ≡ size = omega arith in
      let w : size ≤ cluster_size - offset = omega arith in
      let p' : leb f.size (f.position + size) ≡ false = rw k at p in
      let q' : (offset + size == cluster_size) ≡ false = rw k at q in
      let e : (f.position + size == f.size) ≡ false = ground arith in
      let y' : (size == 0) ≡ false = ground arith in
      let z' : (c == 0) ≡ false = ground arith in
      let d : size - size ≡ 0 = omega arith in
      rw
        (
          k,
          p',
          q',
          z',
          d,
          e,
          y',
          rounds_zero fuel (record f { position = f.position + size }) c 0,
          chain_bytes_within c ds offset size w,
          append-nil (slice (linear disk) (start c + offset) size),
        )
        refl

  read_rounds-chain :
      (fuel : ℕ) (f : File) (c : ℕ) (ds : List ℕ) (offset size : ℕ)
      → size ≤ fuel
      → f.file_type ≡ fd_file
      → c ≢ 0
      → IsChain c ds
      → offset % 512 ≡ 0
      → offset < cluster_size
      → f.position + size ≤ f.size
      → f.size < 2 ^ 32
      → f.size ≤ f.position + (cluster_size - offset) + length ds * cluster_size
      → read_rounds disk v fuel f c offset size
        ≡ read (read_on f size) (chain_bytes c ds offset size)
  unfolding chain_bytes
  read_rounds-chain fuel f c ds offset zero l t z h o b e w g =
      let k : f.position + 0 ≡ f.position = omega arith in
      rw (rounds_zero fuel f c offset, chain_bytes_zero c ds offset, k) refl
  read_rounds-chain zero f c ds offset (suc size) l t z h o b e w g = absurd (omega (arith, l))
  read_rounds-chain (suc fuel) f c [] offset (suc size) l t z h o b e w g =
      round fuel f c [] offset (suc size) (omega arith) (omega (arith, e, w)) h o b
      ∙ elim (Bool-cases (leb f.size (f.position + min (suc size) (cluster_size - offset)))) [
        | inl p ↦ last_round f c [] offset (suc size) _ _ t (omega arith) e p
        | inr p ↦ short_round fuel f c [] offset (suc size) z (omega arith) b p (ground (arith, g))
      ]
  read_rounds-chain (suc fuel) f c (d ∷ ds) offset (suc size) l t z h o b e w g =
      let n = min (suc size) (cluster_size - offset) in
      round fuel f c (d ∷ ds) offset (suc size) (omega arith) (omega (arith, e, w)) h o b
      ∙ elim (Bool-cases (leb f.size (f.position + n))) [
        | inl p ↦ last_round f c (d ∷ ds) offset (suc size) _ _ t (omega arith) e p
        | inr p ↦ elim (Bool-cases (offset + n == cluster_size)) [
          | inl q ↦
              let f' : File = record f { position = f.position + n } in
              let m : suc (length ds) * cluster_size ≡ cluster_size + length ds * cluster_size =
                ground arith in
              let a : offset + n ≡ cluster_size = ground arith in
              let k : f.position + n < f.size = ground arith in
              let r =
                read_rounds-chain fuel f' d ds 0 (suc size - n) (omega arith) t h.2 h.3 refl
                  positive (omega (arith, e, k)) w (omega (arith, g, m, a, k)) in
              let d' : (d == 0) ≡ false = ground (arith, h.2) in
              let y : (suc size == 0) ≡ false = ground arith in
              let same : f.position + n + (suc size - n) ≡ f.position + suc size = omega arith in
              rw (p, q, h.1, d', r, same)
                (elim (Bool-cases (suc size - n == 0)) [
                  | inl u ↦
                      let v : (f.position + suc size == f.size) ≡ false = ground arith in
                      rw (u, v, y) refl
                  | inr u ↦ rw (u, y) refl
                ])
          | inr q ↦ short_round fuel f c (d ∷ ds) offset (suc size) z (omega arith) b p q
        ]
      ]

  -- `size` bytes of the chain from the offset in the cluster that `hops` steps lead to.
  unfoldable pub file_bytes : ℕ → ℕ → List ℕ → ℕ → ℕ → List ℕ
  unfolding chain_bytes
  file_bytes zero c ds offset size = chain_bytes c ds offset size
  file_bytes (suc hops) c [] offset size = []
  file_bytes (suc hops) c (d ∷ ds) offset size = file_bytes hops d ds offset size

  hops-chain :
      (hops : ℕ) (f : File) (c : ℕ) (ds : List ℕ) (offset size : ℕ)
      → f.file_type ≡ fd_file
      → c ≢ 0
      → IsChain c ds
      → offset % 512 ≡ 0
      → offset < cluster_size
      → 0 < size
      → f.position + size ≤ f.size
      → f.size < 2 ^ 32
      → f.size + hops * cluster_size
        ≤ f.position + (cluster_size - offset) + length ds * cluster_size
      → read_rounds disk v size f (follow v.fat hops c) offset size
        ≡ read (read_on f size) (file_bytes hops c ds offset size)
  unfolding follow file_bytes
  hops-chain zero f c ds offset size t z h o b s e w g =
      read_rounds-chain size f c ds offset size (omega arith) t z h o b e w (omega (arith, g))
  hops-chain (suc hops) f c [] offset size t z h o b s e w g =
      let m : suc hops * cluster_size ≡ cluster_size + hops * cluster_size = ground arith in
      absurd (omega (arith, m, g, e, s))
  hops-chain (suc hops) f c (d ∷ ds) offset size t z h o b s e w g =
      let m : suc hops * cluster_size ≡ cluster_size + hops * cluster_size = ground arith in
      let k : suc (length ds) * cluster_size ≡ cluster_size + length ds * cluster_size =
        ground arith in
      rw h.1 (hops-chain hops f d ds offset size t h.2 h.3 o b s e w (omega (arith, m, k, g)))

  -- On a volume with sectors of 512 bytes, in a file, not at its end, whose clusters make a chain from
  -- its directory entry's first cluster on and have room for its size: a read of at least one byte
  -- from a position that is a multiple of 512, which does not go past the size, returns exactly the
  -- bytes asked for of the clusters of the chain, one after the other. The position moves by their
  -- number, and the end of the file is marked when the size is reached.
  pub fs_read_lem :
      (f : File) (ds : List ℕ) (size : ℕ)
      → f.file_type ≡ fd_file
      → f.eof ≡ 0
      → entry_first_cluster f.directory_entry ≢ 0
      → IsChain (entry_first_cluster f.directory_entry) ds
      → f.position % 512 ≡ 0
      → 0 < size
      → f.position + size ≤ f.size
      → f.size < 2 ^ 32
      → f.size ≤ suc (length ds) * cluster_size
      → fs_read disk v f size
        ≡ read
            (record f {
              position = f.position + size;
              eof = if f.position + size == f.size then 1 else 0;
            })
            (file_bytes
              (f.position / cluster_size)
              (entry_first_cluster f.directory_entry)
              ds
              (f.position % cluster_size)
              size)
  unfolding fs_read
  fs_read_lem f ds size t z c h o s e w g =
      let divided = div-add-mod' f.position cluster_size in
      let below = mod-lt f.position positive in
      let aligned : f.position % cluster_size % 512 ≡ 0 =
        rw (← clusters) at
          (mod-mod_of_dvd 512 f.position (dvd-mul_left 512 v.bpb.sectors_per_cluster))
        ∙ o in
      let k : suc (length ds) * cluster_size ≡ cluster_size + length ds * cluster_size =
        ground arith in
      let y : (size == 0) ≡ false = ground arith in
      let open_file : ((is_file f.file_type || is_directory f.file_type) && f.eof == 0) ≡ true =
        rw (t, z) refl in
      let bytes =
        file_bytes (f.position / cluster_size) (entry_first_cluster f.directory_entry) ds
          (f.position % cluster_size) size in
      let end : (if size == 0 then f.eof else if f.position + size == f.size then 1 else f.eof)
          ≡ (if f.position + size == f.size then 1 else 0) =
        rw (y, z) refl in
      rw open_file (
        hops-chain (f.position / cluster_size) f (entry_first_cluster f.directory_entry) ds
          (f.position % cluster_size) size t c h aligned below s e w
          (omega (arith, k, g, divided, below))
        ∙ ap (λ x. read (record f { position = f.position + size; eof = x }) bytes) end)
