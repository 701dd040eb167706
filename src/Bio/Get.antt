-- ===== src/Bio/Get.antt =====
-- diskBufferGet and the order of use.
use systems_programming_a.Prelude.{
  ℕ, ◌+◌, ◌≡◌, ◌≢◌, ◌∙◌, sym, refl, ap, arith, Bool, true, false, List, [], ◌∷◌, Option, some, none,
  All, zero, suc, if◌then◌else◌, length,
}
use systems_programming_a.Bio.Defs.{
  Cache, nbuf, head, is_cached, is_recyclable, find_buffer, obtain, buffer_get,
}
use systems_programming_a.Bio.Ring.{Links, IsRing, AreNodes-head}

-- The first and the last member of a list that passes a test.
abbrev pub first_with : (ℕ → Bool) → List ℕ → Option ℕ
first_with f [] = none
first_with f (x ∷ xs) = if f x then some x else first_with f xs

abbrev pub or_else : Option ℕ → Option ℕ → Option ℕ
or_else none r = r
or_else (some x) r = some x

abbrev pub last_with : (ℕ → Bool) → List ℕ → Option ℕ
last_with f [] = none
last_with f (x ∷ xs) = or_else (last_with f xs) (if f x then some x else none)

-- diskBufferGet on the list of buffers.
abbrev pub get_from : ℕ → ℕ → List ℕ → Cache → Option (Cache × ℕ)
get_from dev sector xs c =
    obtain dev sector c (first_with (λ b. is_cached dev sector (c.buffers b)) xs)
      (last_with (λ b. is_recyclable (c.buffers b)) xs)

-- A round at a buffer.
find_buffer-step :
    (link : ℕ → ℕ) (f : ℕ → Bool) (n b : ℕ)
    → b ≢ head
    → find_buffer link f (suc n) b ≡ (if f b then some b else find_buffer link f n (link b))
unfolding find_buffer
find_buffer-step link f n b h = ground arith

find_buffer-head : (link : ℕ → ℕ) (f : ℕ → Bool) (n : ℕ) → find_buffer link f n head ≡ none
unfolding find_buffer
find_buffer-head link f zero = refl
find_buffer-head link f (suc n) = refl

forward_lem :
    (f : ℕ → Bool) (c : Cache) (a n : ℕ) (xs : List ℕ)
    → n ≡ length xs + 1
    → All (λ x. x ≢ head) xs
    → Links c a xs
    → find_buffer c.next f n (c.next a) ≡ first_with f xs
forward_lem f c a n [] e h l = ap (find_buffer c.next f n) l.0 ∙ find_buffer-head c.next f n
forward_lem f c a zero (x ∷ xs) e h l = absurd (omega arith)
forward_lem f c a (suc n) (x ∷ xs) e h l =
    ap (find_buffer c.next f (suc n)) l.0
    ∙ find_buffer-step c.next f n x h.0
    ∙ ap (λ r. if f x then some x else r) (forward_lem f c x n xs (omega arith) h.1 l.2)

or_else_assoc : (p q r : Option ℕ) → or_else (or_else p q) r ≡ or_else p (or_else q r)
or_else_assoc none q r = refl
or_else_assoc (some x) q r = refl

or_else-if :
    (t : Bool) (x : ℕ) (r : Option ℕ)
    → or_else (if t then some x else none) r ≡ (if t then some x else r)
or_else-if true x r = refl
or_else-if false x r = refl

-- The search backwards has passed the list, and goes on from `a`.
backward_lem :
    (f : ℕ → Bool) (c : Cache) (a k n : ℕ) (xs : List ℕ)
    → n ≡ length xs + k
    → All (λ x. x ≢ head) xs
    → Links c a xs
    → find_buffer c.previous f n (c.previous head)
      ≡ or_else (last_with f xs) (find_buffer c.previous f k a)
backward_lem f c a k n [] e h l =
    ap (find_buffer c.previous f n) l.1 ∙ ap (λ m. find_buffer c.previous f m a) (e ∙ omega arith)
backward_lem f c a k n (x ∷ xs) e h l =
    backward_lem f c x (suc k) n xs (omega arith) h.1 l.2
    ∙ ap (or_else (last_with f xs)) (
        find_buffer-step c.previous f k x h.0
        ∙ ap (λ y. if f x then some x else find_buffer c.previous f k y) l.1
        ∙ sym (or_else-if (f x) x (find_buffer c.previous f k a)))
    ∙ sym (
        or_else_assoc (last_with f xs) (if f x then some x else none)
          (find_buffer c.previous f k a))

or_else-none : (p : Option ℕ) → or_else p none ≡ p
or_else-none none = refl
or_else-none (some x) = refl

-- The searches along the links are those in the list.
pub buffer_get-get_from :
    (dev sector : ℕ) (c : Cache) (xs : List ℕ)
    → IsRing c xs
    → length xs ≡ nbuf
    → buffer_get dev sector c ≡ get_from dev sector xs c
unfolding buffer_get
buffer_get-get_from dev sector c xs r n =
    let h = AreNodes-head xs r.0 in
    let there =
      forward_lem (λ b. is_cached dev sector (c.buffers b)) c head (nbuf + 1) xs (omega arith) h
        r.1 in
    let back =
      backward_lem (λ b. is_recyclable (c.buffers b)) c head 1 (nbuf + 1) xs (omega arith) h r.1
      ∙ ap (or_else (last_with (λ b. is_recyclable (c.buffers b)) xs))
          (find_buffer-head c.previous (λ b. is_recyclable (c.buffers b)) 1)
      ∙ or_else-none (last_with (λ b. is_recyclable (c.buffers b)) xs) in
    ap
      (λ p.
        obtain dev sector c p
          (find_buffer c.previous (λ b. is_recyclable (c.buffers b)) (nbuf + 1) (c.previous head)))
      there
    ∙ ap (obtain dev sector c (first_with (λ b. is_cached dev sector (c.buffers b)) xs)) back
