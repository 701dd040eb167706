-- ===== src/Sysfile/Directory.antt =====
-- The current directory after sys_chdir.
use systems_programming_a.Prelude.{
  append_assoc, ℕ, zero, suc, ◌+◌, ◌-◌, ◌<◌, ◌≤◌, ◌≡◌, ◌≢◌, ◌∙◌, refl, sym, ap, arith, some, none,
  List, [], ◌∷◌, ◌++◌, length, take, update, Memory, true, ◌||◌,
}
use systems_programming_a.Proc.{Process}
use systems_programming_a.Str.Text.{IsText, strchr, safestrcpy}
use systems_programming_a.Str.Text.Copy.{safestrcpy_lem}
use systems_programming_a.Syscall.{argstr, argstr_lem}
use systems_programming_a.Sysfile.Paths.{
  text_at, lacks, add_slash, changed, changed_if, copy_cwd, sys_chdir,
}

-- The bytes of a string.
unfoldable pub bytes_at : Memory → ℕ → ℕ → List ℕ
bytes_at m a zero = []
bytes_at m a (suc n) = m a ∷ bytes_at m (a + 1) n

text_at-two :
    (m user : Memory) (a n x y : ℕ)
    → ((j : ℕ) → j < n → m (a + j) ≡ user (a + j))
    → m (a + n) ≡ x
    → m (a + n + 1) ≡ y
    → text_at m a (suc n) ≡ bytes_at user a n ++ (x ∷ y ∷ [])
unfolding text_at bytes_at
text_at-two m user a zero x y h e f = ground arith
text_at-two m user a (suc n) x y h e f =
    let r =
      text_at-two m user (a + 1) n x y (λ j l. ground (arith, h (j + 1))) (ground arith)
        (ground arith) in
    let z : m a ≡ user a = ground (arith, h 0) in rw (z, r) refl

length-bytes_at : (m : Memory) (a n : ℕ) → length (bytes_at m a n) ≡ n
unfolding bytes_at
length-bytes_at m a zero = refl
length-bytes_at m a (suc n) = ap suc (length-bytes_at m (a + 1) n)

strchr-absent :
    (m : Memory) (a n c : ℕ)
    → ((j : ℕ) → j < n → m (a + j) ≢ c)
    → c ≢ 0
    → m (a + n) ≡ 0
    → ((j : ℕ) → j < n → m (a + j) ≢ 0)
    → strchr (text_at m a n) c ≡ some none
unfolding strchr text_at
strchr-absent m a zero c h z e g = ground arith
strchr-absent m a (suc n) c h z e g =
    let r =
      strchr-absent m (a + 1) n c (λ j l. ground (arith, h (j + 1))) z (ground arith)
        (λ j l. ground (arith, g (j + 1))) in
    ground (arith, h 0, g 0)

add_slash_lem :
    (user : Memory) (a n : ℕ)
    → user 0 ≢ 0x5c
    → ((j : ℕ) → j < n → user (a + j) ≢ 0x5c)
    → user (a + n) ≡ 0
    → ((j : ℕ) → j < n → user (a + j) ≢ 0)
    → add_slash user a n ≡ (update (update user (a + n) 0x2f) (a + n + 1) 0, n + 1)
unfolding add_slash
add_slash_lem user a n z h e g =
    let q = strchr-absent user a n 0x5c h (omega arith) e g in
    let l : lacks user (text_at user a n) 0x5c ≡ true = rw (lacks, q) (ground arith) in
    let o : (lacks user (text_at user a n) 0x2f || lacks user (text_at user a n) 0x5c) ≡ true =
      rw l (ground arith) in
    rw o refl

slash-IsText :
    (m : Memory) (a n : ℕ)
    → ((j : ℕ) → j < n → m (a + j) ≢ 0)
    → IsText (bytes_at m a n ++ (0x2f ∷ []))
unfolding bytes_at
slash-IsText m a zero h = (omega arith, tt)
slash-IsText m a (suc n) h =
    (ground (arith, h 0), slash-IsText m (a + 1) n (λ j l. ground (arith, h (j + 1))))

take-slash :
    (m : Memory) (a n : ℕ)
    → take (suc n) (bytes_at m a n ++ (0x2f ∷ [])) ≡ bytes_at m a n ++ (0x2f ∷ [])
unfolding bytes_at
take-slash m a zero = refl
take-slash m a (suc n) = ap (λ l. m a ∷ l) (take-slash m (a + 1) n)

copied_cwd :
    (cwd cs rest : List ℕ) (m : Memory) (a len : ℕ)
    → text_at m a len ≡ cs ++ (0 ∷ [])
    → safestrcpy cwd (cs ++ (0 ∷ [])) (len + 1) ≡ some rest
    → copy_cwd cwd a (m, len) ≡ changed m rest
unfolding copy_cwd
copied_cwd cwd cs rest m a len t e =
    ap (λ l. changed_if m (safestrcpy cwd l (len + 1))) t ∙ ap (changed_if m) e

-- The copy of the string with its slash.
slash-copied :
    (cwd : List ℕ) (user m : Memory) (a n : ℕ)
    → ((j : ℕ) → j < n → user (a + j) ≢ 0)
    → text_at m a (suc n) ≡ bytes_at user a n ++ (0x2f ∷ 0 ∷ [])
    → n + 2 ≤ length cwd
    → (rest : List ℕ) × (copy_cwd cwd a (m, n + 1)
        ≡ changed m (bytes_at user a n ++ (0x2f ∷ 0 ∷ rest)))
slash-copied cwd user m a n g t l =
    let cs = bytes_at user a n ++ (0x2f ∷ []) in
    let s : n + 1 ≡ suc n = omega arith in
    let k : n + 1 + 1 - 1 ≡ suc n = omega arith in
    let (rest, c, d, f) =
      safestrcpy_lem cwd cs [] (n + 1 + 1) (slash-IsText user a n g) (omega arith)
        (omega (arith, l)) in
    let join = append_assoc (bytes_at user a n) (0x2f ∷ []) in
    (
      rest,
      copied_cwd cwd cs _ m a (n + 1) (ap (text_at m a) s ∙ t ∙ sym (join (0 ∷ []))) c
          ∙ ap (λ i. changed m (take i cs ++ (0 ∷ rest))) k
          ∙ ap (λ l. changed m (l ++ (0 ∷ rest))) (take-slash user a n)
          ∙ ap (changed m) (join (0 ∷ rest)),
    )

-- sys_chdir with a string that has no backslash, where the byte at 0 of the process is none either
-- and Cwd has room for the string, a slash and a terminator: the Cwd is then the string, a slash,
-- even if the string ends in one, and a terminator, and the slash and the terminator also stand
-- behind the string in the process's memory.
pub sys_chdir_lem :
    (p : Process) (user : Memory) (a n : ℕ)
    → argstr p user 0 ≡ some (a, n)
    → user 0 ≢ 0x5c
    → ((j : ℕ) → j < n → user (a + j) ≢ 0x5c)
    → n + 2 ≤ length p.cwd
    → (m : Memory) × (rest : List ℕ) × (sys_chdir p user
        ≡ changed m (bytes_at user a n ++ (0x2f ∷ 0 ∷ rest)))
      × (m (a + n) ≡ 0x2f)
      × (m (a + n + 1) ≡ 0)
unfolding sys_chdir
sys_chdir_lem p user a n e z h l =
    let (u, end, v, g) = argstr_lem p user 0 a n e in
    let m = update (update user (a + n) 0x2f) (a + n + 1) 0 in
    let t = text_at-two m user a n 0x2f 0 (λ j l. ground arith) (ground arith) (ground arith) in
    let (rest, c) = slash-copied p.cwd user m a n g t l in
    (
      m,
      rest,
      rw (sys_chdir, e) (ap (copy_cwd p.cwd a) (add_slash_lem user a n z h end g) ∙ c),
      ground arith,
      ground arith,
    )
