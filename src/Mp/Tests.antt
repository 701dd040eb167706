-- ===== src/Mp/Tests.antt =====
-- mpinit on the tables of a machine with two processors.
use systems_programming_a.Prelude.{
  ℕ, ◌+◌, ◌-◌, ◌≡◌, refl, arith, inl, ◌/◌, not, ◌&&◌, some, none, List, [], ◌∷◌, ◌++◌, replicate,
  length, get_or, ltb, leb, ◌==◌, if◌then◌else◌, Memory,
}
use systems_programming_a.Vm.{p2v}
use systems_programming_a.Mp.Defs.{
  Topology, mpconfig, mpsearch1, mpinit, ready, kind_of, unknown, conf_length, sizeof_mpconf,
  lapicaddr, imcrp,
}
use systems_programming_a.Mp.Floating.{IsFirst, mpsearch1_lem}
use systems_programming_a.Mp.Entries.{
  Entry, cpu_entry, io_entry, skipped, Holds, Added, processors, last_io_apic,
}
use systems_programming_a.Mp.Start.{mpinit_lem, mpinit-endless}

abbrev with_bytes : ℕ → List ℕ → Memory → Memory
with_bytes base bytes m a =
    if leb base a && ltb a (base + length bytes) then get_or bytes (a - base) 0 else m a

abbrev floating : List ℕ
floating = 95 ∷ 77 ∷ 80 ∷ 95 ∷ 0 ∷ 144 ∷ 0 ∷ 0 ∷ 1 ∷ 4 ∷ 144 ∷ 0 ∷ 128 ∷ 0 ∷ 0 ∷ 0 ∷ []

-- A processor, a bus, an I/O APIC and another processor
abbrev table : List ℕ
table =
    (80 ∷ 67 ∷ 77 ∷ 80 ∷ 100 ∷ 0 ∷ 4 ∷ 46 ∷ [])
    ++ (replicate 26 0
        ++ ((4 ∷ 0 ∷ 0 ∷ 0 ∷ 224 ∷ 254 ∷ [])
            ++ (replicate 5 0
                ++ ((7 ∷ 20 ∷ 3 ∷ [])
                    ++ (replicate 16 0
                        ++ ((1 ∷ [])
                            ++ (replicate 7 0
                                ++ ((2 ∷ 9 ∷ 17 ∷ 1 ∷ [])
                                    ++ (replicate 5 0
                                        ++ ((5 ∷ 20 ∷ 3 ∷ []) ++ (replicate 16 0)))))))))))

-- The I/O APIC has a type that mpinit does not know.
abbrev bad_table : List ℕ
bad_table =
    (80 ∷ 67 ∷ 77 ∷ 80 ∷ 100 ∷ 0 ∷ 4 ∷ 39 ∷ [])
    ++ (replicate 26 0
        ++ ((4 ∷ 0 ∷ 0 ∷ 0 ∷ 224 ∷ 254 ∷ [])
            ++ (replicate 5 0
                ++ ((7 ∷ 20 ∷ 3 ∷ [])
                    ++ (replicate 16 0
                        ++ ((1 ∷ [])
                            ++ (replicate 7 0
                                ++ ((9 ∷ 9 ∷ 17 ∷ 1 ∷ [])
                                    ++ (replicate 5 0
                                        ++ ((5 ∷ 20 ∷ 3 ∷ []) ++ (replicate 16 0)))))))))))

abbrev conf : ℕ
conf = 0x80009000

abbrev memory : List ℕ → Memory
memory bytes = with_bytes 0x800f0000 floating (with_bytes conf bytes (λ a. 0))

abbrev one_processor : Topology
one_processor = record { apicids = λ i. 0; ncpu = 0; ioapicid = 0 }

found : mpconfig (memory table) ≡ some (0x800f0000, conf)
unfolding mpconfig
found = refl

bad_found : mpconfig (memory bad_table) ≡ some (0x800f0000, conf)
unfolding mpconfig
bad_found = refl

mpsearch1_lem_example :
    IsFirst
      (memory table)
      ((0x400 + 15) / 16)
      (p2v 0xf0000)
      (mpsearch1 (memory table) 0xf0000 0x400)
mpsearch1_lem_example = mpsearch1_lem (memory table) 0xf0000 0x400

abbrev entries : List Entry
entries = cpu_entry 7 ∷ skipped 1 ∷ io_entry 9 ∷ cpu_entry 5 ∷ []

entries-Holds :
    Holds (memory table) (conf + sizeof_mpconf) entries (conf + conf_length (memory table) conf)
entries-Holds = (refl, refl, (refl, inl refl, (refl, refl, (refl, refl, refl))))

mpinit_lem_example :
    (t' : Topology) × (mpinit 8 (memory table) one_processor
      ≡ some
          (ready t' (lapicaddr (memory table) conf) (not (imcrp (memory table) 0x800f0000 == 0))))
    × Added one_processor t' (processors entries)
    × (t'.ioapicid ≡ last_io_apic entries one_processor.ioapicid)
mpinit_lem_example =
    mpinit_lem 8 (memory table) one_processor 0x800f0000 conf entries found entries-Holds
      (omega arith) (omega arith)

bad_type : kind_of (memory bad_table (conf + 72)) ≡ unknown
unfolding kind_of
bad_type = refl

mpinit-endless_example : mpinit 1000 (memory bad_table) one_processor ≡ none
mpinit-endless_example =
    mpinit-endless 1000 (memory bad_table) one_processor 0x800f0000 conf (conf + 72)
      (cpu_entry 7 ∷ skipped 1 ∷ []) bad_found (refl, refl, (refl, inl refl, refl)) (omega arith)
      bad_type
