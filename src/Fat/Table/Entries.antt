-- ===== src/Fat/Table/Entries.antt =====
-- The table as a FAT12 volume has it: two entries of 12 bits in three bytes.
use systems_programming_a.Prelude.{
  ℕ, ◌+◌, ◌*◌, ◌/◌, ◌%◌, ◌^◌, ◌<◌, ◌≡◌, arith, ◌==◌, leb, if◌then◌else◌, Memory, Bool-cases, inl,
  inr, ap, sym, ◌∙◌,
}
use systems_programming_a.Fat.Table.Defs.{entry, get_next_cluster}

-- The byte at an address of the table that holds the entries `e`.
unfoldable pub pack : (ℕ → ℕ) → Memory
pack e a =
    let i = a / 3 * 2 in
    if a % 3 == 0
    then e i % 256
    else if a % 3 == 1
    then e i / 256 + 16 * (e (i + 1) % 16)
    else e (i + 1) / 16

module _ (e : ℕ → ℕ) (k a : ℕ) where
  pack_low : a ≡ 3 * k → pack e a ≡ e (2 * k) % 256
  unfolding pack
  pack_low h = ground arith

  pack_middle : a ≡ 3 * k + 1 → pack e a ≡ e (2 * k) / 256 + 16 * (e (2 * k + 1) % 16)
  unfolding pack
  pack_middle h = ground arith

  pack_high : a ≡ 3 * k + 2 → pack e a ≡ e (2 * k + 1) / 16
  unfolding pack
  pack_high h = ground arith

entry-even :
    (e : ℕ → ℕ) (k c : ℕ) → e (2 * k) < 4096 → c < 2 ^ 31 → c ≡ 2 * k → entry (pack e) c ≡ e (2 * k)
unfolding entry
entry-even e k c h l q =
    let a = (c + c / 2) % 2 ^ 32 in ground (arith, pack_low e k a, pack_middle e k (a + 1))

entry-odd :
    (e : ℕ → ℕ) (k c : ℕ)
    → e (2 * k) < 4096
    → e (2 * k + 1) < 4096
    → c < 2 ^ 31
    → c ≡ 2 * k + 1
    → entry (pack e) c ≡ e (2 * k + 1)
unfolding entry
entry-odd e k c h h' l q =
    let a = (c + c / 2) % 2 ^ 32 in ground (arith, pack_middle e k a, pack_high e k (a + 1))

entry-pack : (e : ℕ → ℕ) (c : ℕ) → ((i : ℕ) → e i < 4096) → c < 2 ^ 31 → entry (pack e) c ≡ e c
entry-pack e c h l = elim (Bool-cases (c % 2 == 0)) [
  | inl even ↦
      let q : c ≡ 2 * (c / 2) = ground arith in entry-even e (c / 2) c (h _) l q ∙ ap e (sym q)
  | inr odd ↦
      let q : c ≡ 2 * (c / 2) + 1 = ground arith in
      entry-odd e (c / 2) c (h _) (h _) l q ∙ ap e (sym q)
]

-- In a table that packs 12-bit entries, two in three bytes, the next cluster of a cluster below
-- 2^31 is its entry, or 0 where the entry ends a file (0xff8 and up) or is free (0).
pub get_next_cluster-pack :
    (e : ℕ → ℕ) (c : ℕ)
    → ((i : ℕ) → e i < 4096)
    → c < 2 ^ 31
    → get_next_cluster (pack e) c ≡ (if leb 0xff8 (e c) then 0 else e c)
unfolding get_next_cluster
get_next_cluster-pack e c h k = rw (entry-pack e c h k) (ground arith)
