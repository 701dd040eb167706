-- ===== src/Bio/Choice.antt =====
-- What diskBufferGet takes, and what it changes.
use systems_programming_a.Prelude.{
  ℕ, ◌+◌, ◌%◌, ◌^◌, ◌≡◌, ◌⊎◌, inl, inr, refl, ap, arith, Bool, true, false, List, [], ◌∷◌, ◌++◌,
  Option, some, none, All, length, update, Bool-cases,
}
use systems_programming_a.Bio.Defs.{
  Cache, DiskBuffer, nbuf, is_cached, is_recyclable, share, recycle, obtain, buffer_get,
}
use systems_programming_a.Bio.Ring.{IsRing}
use systems_programming_a.Bio.Get.{first_with, last_with, get_from, buffer_get-get_from}

-- The first member with a property, and the last.
abbrev pub IsFirst : (ℕ → Type 0) → ℕ → List ℕ → Type 0
IsFirst P b xs = (us : List ℕ) × (vs : List ℕ) × (xs ≡ us ++ (b ∷ vs)) × P b × All (λ x. ¬ P x) us

abbrev pub IsLast : (ℕ → Type 0) → ℕ → List ℕ → Type 0
IsLast P b xs = (us : List ℕ) × (vs : List ℕ) × (xs ≡ us ++ (b ∷ vs)) × P b × All (λ x. ¬ P x) vs

first_with-cases :
    (P : ℕ → Type 0) (f : ℕ → Bool) (xs : List ℕ)
    → ((x : ℕ) → f x ≡ true → P x)
    → ((x : ℕ) → f x ≡ false → ¬ P x)
    → ((b : ℕ) × (first_with f xs ≡ some b) × IsFirst P b xs)
      ⊎ ((first_with f xs ≡ none) × All (λ x. ¬ P x) xs)
first_with-cases P f [] y n = inr (refl, tt)
first_with-cases P f (x ∷ xs) y n = elim (Bool-cases (f x)) [
  | inl e ↦ inl (x, rw e refl, ([], xs, refl, y x e, tt))
  | inr e ↦ elim (first_with-cases P f xs y n) [
    | inl (b, r, (us, vs, q, p, a)) ↦
        inl (b, rw e r, (x ∷ us, vs, ap (λ l. x ∷ l) q, p, (n x e, a)))
    | inr (r, a) ↦ inr (rw e r, (n x e, a))
  ]
]

last_with-cases :
    (P : ℕ → Type 0) (f : ℕ → Bool) (xs : List ℕ)
    → ((x : ℕ) → f x ≡ true → P x)
    → ((x : ℕ) → f x ≡ false → ¬ P x)
    → ((b : ℕ) × (last_with f xs ≡ some b) × IsLast P b xs)
      ⊎ ((last_with f xs ≡ none) × All (λ x. ¬ P x) xs)
last_with-cases P f [] y n = inr (refl, tt)
last_with-cases P f (x ∷ xs) y n = elim (last_with-cases P f xs y n) [
  | inl (b, r, (us, vs, q, p, a)) ↦ inl (b, rw r refl, (x ∷ us, vs, ap (λ l. x ∷ l) q, p, a))
  | inr (r, a) ↦ elim (Bool-cases (f x)) [
    | inl e ↦ inl (x, rw (r, e) refl, ([], xs, refl, y x e, a))
    | inr e ↦ inr (rw (r, e) refl, (n x e, a))
  ]
]

-- The buffer has the sector.
abbrev pub Has : ℕ → ℕ → Cache → ℕ → Type 0
Has dev sector c b = ((c.buffers b).device ≡ dev) × ((c.buffers b).sector_number ≡ sector)

-- Nobody uses the buffer, and it has nothing to be written.
abbrev pub IsIdle : Cache → ℕ → Type 0
IsIdle c b = ((c.buffers b).reference_count ≡ 0) × ((c.buffers b).is_dirty ≡ false)

-- The cache with another content of one buffer.
abbrev pub with_buffer : ℕ → DiskBuffer → Cache → Cache
with_buffer b x c = record c { buffers = update c.buffers b x }

-- What diskBufferGet comes to on the list of buffers.
abbrev pub Gets : ℕ → ℕ → List ℕ → Cache → Option (Cache × ℕ) → Type 0
Gets dev sector xs c o =
    ((b : ℕ) × IsFirst (Has dev sector c) b xs
      × (o
          ≡ some (
            with_buffer b
                (record (c.buffers b) {
                  reference_count = ((c.buffers b).reference_count + 1) % 2 ^ 32;
                })
                c,
            b,
          )))
    ⊎ (All (λ x. ¬ Has dev sector c x) xs
        × (((b : ℕ) × IsLast (IsIdle c) b xs
              × (o
                  ≡ some (
                    with_buffer b
                        (record {
                          is_valid = false;
                          is_dirty = false;
                          device = dev;
                          sector_number = sector;
                          is_locked = (c.buffers b).is_locked;
                          reference_count = 1;
                        })
                        c,
                    b,
                  )))
            ⊎ (All (λ x. ¬ IsIdle c x) xs × (o ≡ none))))

get_from-Gets :
    (dev sector : ℕ) (xs : List ℕ) (c : Cache) → Gets dev sector xs c (get_from dev sector xs c)
unfolding obtain share recycle
get_from-Gets dev sector xs c =
    let there =
      first_with-cases (Has dev sector c) (λ b. is_cached dev sector (c.buffers b)) xs
        (λ x e. ground arith) (λ x e h. ground arith) in
    let back =
      last_with-cases (IsIdle c) (λ b. is_recyclable (c.buffers b)) xs (λ x e. ground arith)
        (λ x e h. ground arith) in
    elim there [
      | inl (b, r, f) ↦ inl (b, f, rw r refl)
      | inr (r, a) ↦ elim back [
        | inl (b, q, l) ↦ inr (a, inl (b, l, rw (r, q) refl))
        | inr (q, l) ↦ inr (a, inr (l, rw (r, q) refl))
      ]
    ]

-- Where the links are those of a list of all the buffers: diskBufferGet takes the first buffer in the
-- list that has the sector, with one reference more; where none has it, the last one that has no
-- references and is not dirty, which is then the sector's, not valid, not dirty and with one reference;
-- and it panics where there is none of these either. No other buffer and no link is changed.
pub buffer_get_lem :
    (dev sector : ℕ) (c : Cache) (xs : List ℕ)
    → IsRing c xs
    → length xs ≡ nbuf
    → Gets dev sector xs c (buffer_get dev sector c)
buffer_get_lem dev sector c xs r n =
    rw (buffer_get-get_from dev sector c xs r n) (get_from-Gets dev sector xs c)
