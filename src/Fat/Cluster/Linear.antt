-- ===== src/Fat/Cluster/Linear.antt =====
-- What a read of a cluster returns.
use Prim.Native.Nat.{min}
use systems_programming_a.Prelude.{
  ℕ, zero, suc, ◌+◌, ◌-◌, ◌*◌, ◌/◌, ◌%◌, ◌^◌, ◌≤◌, ◌<◌, ◌≡◌, refl, ap, ◌∙◌, arith, none, some, ltb,
  if◌then◌else◌, inl, inr, true, ◌⊎◌,
}
use native.Mathlib.Decide.{dec_lt}
use systems_programming_a.Fat.Mount.{Disk, Bpb, MountInfo}
use systems_programming_a.Fat.Cluster.Defs.{
  slice, read_sectors, read_cluster, read_clipped, clip_offset, clip_size, first_sector,
}
use systems_programming_a.Fat.Cluster.Sectors.{
  linear, read_sectors_lem, read_sectors-last, read_overrun,
}

module _ (disk : Disk) (b : Bpb) (i : MountInfo) (cluster offset size : ℕ)
    (bytes : b.bytes_per_sector ≡ 512) (clusters : i.cluster_size ≡ b.sectors_per_cluster * 512)
    (inside : offset < i.cluster_size)
    (end_fits : first_sector b i cluster + i.cluster_size < 2 ^ 32) where
  -- The part of the request that lies in the cluster.
  abbrev wanted : ℕ
  wanted = min size (i.cluster_size - offset)

  clipped :
      (clip_offset i.cluster_size offset ≡ offset) × (clip_size i.cluster_size offset size ≡ wanted)
  clipped = ground arith

  clipped_call :
      read_cluster disk b i cluster offset size
      ≡ read_clipped disk b i (first_sector b i cluster) offset wanted
  unfolding read_cluster
  clipped_call =
      ap (λ o. read_clipped disk b i (first_sector b i cluster) o (clip_size i.cluster_size o size))
        clipped.0
      ∙ ap (read_clipped disk b i (first_sector b i cluster) offset) clipped.1

  -- What is left of the cluster is enough for what is wanted.
  enough :
      (if ltb (i.cluster_size - (offset / 512 * 512 + offset % 512)) wanted
        then i.cluster_size - (offset / 512 * 512 + offset % 512)
        else wanted)
      ≡ wanted
  enough = ground arith

  at_start :
      offset ≡ 0
      → read_cluster disk b i cluster offset size
        ≡ read_sectors disk 512 wanted (first_sector b i cluster) 0 wanted
  unfolding read_clipped
  at_start z = clipped_call ∙ (rw (bytes, z) refl)

  inside_it :
      0 < offset
      → read_cluster disk b i cluster offset size
        ≡ read_sectors disk 512 wanted
            (first_sector b i cluster + offset / 512)
            (offset % 512)
            wanted
  unfolding read_clipped
  inside_it p =
      let t : ltb 0 offset ≡ true = ground arith in
      let w : (first_sector b i cluster + offset / 512) % 2 ^ 32
          ≡ first_sector b i cluster + offset / 512 =
        omega arith in
      clipped_call ∙ (rw (bytes, t, enough, w) refl)

  -- On a volume with sectors of 512 bytes, for an offset inside the cluster whose sectors' numbers
  -- fit in 32 bits: a request that starts at a sector's boundary, or that ends in the sector in
  -- which it starts, returns the bytes of the disk from that offset of the cluster on, as many as
  -- were asked for and are left in the cluster.
  pub read_cluster_lem :
      (offset % 512 ≡ 0) ⊎ (offset % 512 + wanted ≤ 512)
      → read_cluster disk b i cluster offset size
        ≡ some (slice (linear disk) (first_sector b i cluster * 512 + offset) wanted)
  read_cluster_lem h = elim (dec_lt 0 offset) [
    | no z ↦
        at_start (omega arith)
        ∙ read_sectors_lem disk wanted (first_sector b i cluster) wanted (omega arith) (omega arith)
        ∙ ap (λ a. some (slice (linear disk) a wanted)) (omega arith)
    | yes p ↦ inside_it p ∙ split h
  ]
    where
      split :
          (offset % 512 ≡ 0) ⊎ (offset % 512 + wanted ≤ 512)
          → read_sectors disk 512 wanted
              (first_sector b i cluster + offset / 512)
              (offset % 512)
              wanted
            ≡ some (slice (linear disk) (first_sector b i cluster * 512 + offset) wanted)
      split (inl z) =
          ap (λ o. read_sectors disk 512 wanted (first_sector b i cluster + offset / 512) o wanted)
            z
          ∙ read_sectors_lem disk wanted (first_sector b i cluster + offset / 512) wanted
              (omega arith) (omega arith)
          ∙ ap (λ a. some (slice (linear disk) a wanted)) (omega arith)
      split (inr f) =
          read_sectors-last disk wanted (first_sector b i cluster + offset / 512) (offset % 512)
            wanted (omega arith) f
          ∙ ap (λ a. some (slice (linear disk) a wanted)) (omega arith)

  -- On a volume with sectors of 512 bytes, for an offset inside the cluster whose sectors' numbers
  -- fit in 32 bits: a request that starts inside a sector and goes on past its end reads past the
  -- end of that sector's buffer.
  pub read_cluster_overrun :
      0 < offset % 512
      → 512 < offset % 512 + wanted
      → read_cluster disk b i cluster offset size ≡ none
  read_cluster_overrun h k = inside_it (omega arith) ∙ overrun_at wanted (omega arith) k
    where
      overrun_at :
          (n : ℕ)
          → 0 < n
          → 512 < offset % 512 + n
          → read_sectors disk 512 n (first_sector b i cluster + offset / 512) (offset % 512) n
            ≡ none
      overrun_at zero z l = absurd (omega arith)
      overrun_at (suc n) z l = read_overrun disk n _ (offset % 512) (suc n) z (ground arith)
