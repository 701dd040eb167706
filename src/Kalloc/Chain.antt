-- ===== src/Kalloc/Chain.antt =====
-- The free list as a list of pages.
use systems_programming_a.Prelude.{
  ℕ, ◌+◌, ◌/◌, ◌^◌, ◌%◌, ◌≤◌, ◌<◌, ◌≡◌, ◌≢◌, ◌⊎◌, refl, arith, some, List, [], ◌∷◌, ◌==◌, Memory,
  All, false,
}
use systems_programming_a.Str.Block.Fill.{memset_lem}
use systems_programming_a.Syscall.{dword_at}
use systems_programming_a.Kalloc.Defs.{
  KernelMemory, page_size, is_bad_page, link, free_page, allocate_page,
}

-- From the word `h` on, the memory links these pages and no more.
abbrev pub Chain : Memory → ℕ → List ℕ → Type 0
Chain m h [] = h ≡ 0
Chain m h (q ∷ qs) = (h ≡ q) × (q ≢ 0) × Chain m (dword_at m q) qs

-- Two pages that do not overlap.
abbrev pub Apart : ℕ → ℕ → Type 0
Apart v q = (q + page_size ≤ v) ⊎ (v + page_size ≤ q)

-- The free list of the allocator is these pages.
abbrev pub IsFree : KernelMemory → List ℕ → Type 0
IsFree s qs = Chain s.memory s.free_list qs

link-elsewhere : (v w : ℕ) (m : Memory) (a : ℕ) → (a < v) ⊎ (v + page_size ≤ a) → link v w m a ≡ m a
link-elsewhere v w m a h = ground (arith, memset_lem v 1 page_size m a)

dword_at-link : (v w : ℕ) (m : Memory) → w < 2 ^ 32 → dword_at (link v w m) v ≡ w
unfolding dword_at
dword_at-link v w m h =
    let b0 : link v w m v ≡ w % 256 = ground arith in
    let b1 : link v w m (v + 1) ≡ w / 256 % 256 = ground arith in
    let b2 : link v w m (v + 2) ≡ w / 2 ^ 16 % 256 = ground arith in
    let b3 : link v w m (v + 3) ≡ w / 2 ^ 24 % 256 = ground arith in
    rw (b0, b1, b2, b3) (omega arith)

dword_at-elsewhere :
    (v w : ℕ) (m : Memory) (q : ℕ) → Apart v q → dword_at (link v w m) q ≡ dword_at m q
unfolding dword_at
dword_at-elsewhere v w m q h =
    rw
      (
        link-elsewhere v w m q (ground arith),
        link-elsewhere v w m (q + 1) (ground arith),
        link-elsewhere v w m (q + 2) (ground arith),
        link-elsewhere v w m (q + 3) (ground arith),
      )
      refl

Chain-link :
    (v w : ℕ) (m : Memory) (qs : List ℕ) (h : ℕ)
    → All (Apart v) qs
    → Chain m h qs
    → Chain (link v w m) h qs
Chain-link v w m [] h a c = c
Chain-link v w m (q ∷ qs) h a c =
    (c.0, c.1, rw (dword_at-elsewhere v w m q a.0) (Chain-link v w m qs (dword_at m q) a.1 c.2))

Chain-kept :
    (m m' : Memory) (h : ℕ) (qs : List ℕ)
    → Chain m h qs
    → All (λ q. dword_at m' q ≡ dword_at m q) qs
    → Chain m' h qs
Chain-kept m m' h [] c k = c
Chain-kept m m' h (q ∷ qs) c k = (c.0, c.1, rw k.0 (Chain-kept m m' (dword_at m q) qs c.2 k.1))

-- Stores that leave the first words of the free pages leave the free list.
pub IsFree-kept :
    (s : KernelMemory) (m' : Memory) (qs : List ℕ)
    → IsFree s qs
    → All (λ q. dword_at m' q ≡ dword_at s.memory q) qs
    → IsFree (record s { memory = m' }) qs
IsFree-kept s m' qs c k = Chain-kept s.memory m' s.free_list qs c k

-- Freeing a page that freePhysicalMemoryPage accepts, that is not 0 and that overlaps no free page,
-- where the head of the free list is a word: it does not panic, and the free list is then that page
-- in front of the pages that were free.
pub free_page-IsFree :
    (kernel_end v : ℕ) (s : KernelMemory) (qs : List ℕ)
    → IsFree s qs
    → All (Apart v) qs
    → v ≢ 0
    → s.free_list < 2 ^ 32
    → is_bad_page kernel_end v ≡ false
    → (s' : KernelMemory) × (free_page kernel_end v s ≡ some s')
      × IsFree s' (v ∷ qs)
      × (s'.free_list ≡ v)
unfolding free_page
free_page-IsFree kernel_end v s qs c a z f b = (
  record s { memory = link v s.free_list s.memory; free_list = v },
  rw b refl,
  (
    refl,
    z,
    rw (dword_at-link v s.free_list s.memory f)
        (Chain-link v s.free_list s.memory qs s.free_list a c),
  ),
  refl,
)

-- An allocation takes the first page of the free list and leaves the others; from an empty list it
-- returns 0 and changes nothing.
pub allocate_page-IsFree :
    (q : ℕ) (qs : List ℕ) (s : KernelMemory)
    → (IsFree s (q ∷ qs) → ((allocate_page s).1 ≡ q) × IsFree (allocate_page s).0 qs)
      × (IsFree s [] → allocate_page s ≡ (s, 0))
unfolding allocate_page
allocate_page-IsFree q qs s = (λ c. taken c, λ c. ground arith)
  where
    taken : IsFree s (q ∷ qs) → ((allocate_page s).1 ≡ q) × IsFree (allocate_page s).0 qs
    taken c = let n : (s.free_list == 0) ≡ false = ground arith in rw n (c.0, rw c.0 c.2)
