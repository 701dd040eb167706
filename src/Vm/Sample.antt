-- ===== src/Vm/Sample.antt =====
-- A page directory with nothing in it, and two free pages, for the tests.
use systems_programming_a.Prelude.{
  ℕ, ◌+◌, ◌≡◌, ◌<◌, refl, arith, update, true, Option, none, [], ◌∷◌,
}
use systems_programming_a.Syscall.{dword_at}
use systems_programming_a.Kalloc.{KernelMemory}
use systems_programming_a.Vm.Defs.{pdx}
use systems_programming_a.Vm.Directory.{directory_entry, lookup}
use systems_programming_a.Vm.Step.{Holds}

-- A page directory with nothing in it, and two free pages.
abbrev pub directory_page : ℕ
directory_page = 0x80400000

abbrev pub free_page_one : ℕ
free_page_one = 0x80500000

abbrev pub free_page_two : ℕ
free_page_two = 0x80600000

abbrev pub empty_directory : KernelMemory
empty_directory = record {
  use_lock = true;
  free_list = free_page_one;
  memory = update (update (λ a. 0) (free_page_one + 2) 0x60) (free_page_one + 3) 0x80;
}

abbrev pub nothing : ℕ → Option ℕ
nothing vb = none

pub no_entry : (i : ℕ) → i < 1024 → directory_entry empty_directory.memory directory_page i ≡ 0
unfolding dword_at
no_entry i l = ground arith

first_links : dword_at empty_directory.memory free_page_one ≡ free_page_two
unfolding dword_at
first_links = refl

second_links : dword_at empty_directory.memory free_page_two ≡ 0
unfolding dword_at
second_links = refl

pub empty_directory-Holds :
    Holds directory_page (free_page_one ∷ free_page_two ∷ []) nothing empty_directory
unfolding lookup
empty_directory-Holds = record {
  directory = record {
    aligned = refl;
    pages = grind arith;
    distinct = grind arith;
    tables = λ i l p. let e = no_entry i l in absurd (cc (rw e at p));
    apart = λ i j l l' n p p'. let e = no_entry i l in absurd (cc (rw e at p));
  };
  free = (refl, ground arith, (first_links, ground arith, second_links));
  lookups = λ vb c. let e = no_entry (pdx vb) (omega arith) in rw e refl;
}
