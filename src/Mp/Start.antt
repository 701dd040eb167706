-- ===== src/Mp/Start.antt =====
-- mpinit over the table that mpconfig found.
use mathlib.Core.Option
use systems_programming_a.Prelude.{
  ℕ, zero, suc, ◌+◌, ◌<◌, ◌≤◌, ◌≡◌, ◌∙◌, refl, ap, arith, Bool, true, false, not, none, some, List,
  [], ◌∷◌, length, ◌==◌, Memory,
}
use systems_programming_a.Mp.Defs.{
  Topology, unknown, kind_of, read_entries, mpconfig, mpinit, read_table, add_processor,
  sizeof_mpproc, sizeof_mpioapic, ready, finish, conf_length, sizeof_mpconf, lapicaddr, imcrp,
  ncpu_max,
}
use systems_programming_a.Mp.Entries.{
  Entry, Holds, Added, processors, last_io_apic, cpu_entry, io_entry, skipped, Holds-le,
  read-processor, read-io_apic, read-other, read_entries_lem,
}

mpinit-found :
    (fuel : ℕ) (m : Memory) (t : Topology) (mp conf : ℕ)
    → mpconfig m ≡ some (mp, conf)
    → mpinit fuel m t
      ≡ Option.map
          (finish m mp conf)
          (read_entries fuel m (conf + conf_length m conf) (conf + sizeof_mpconf) t true)
unfolding mpinit
mpinit-found fuel m t mp conf h = ap (read_table fuel m t) h

-- Where mpconfig finds a table that is entries of known types up to its end, with at most 8
-- processors known before and more fuel than entries: mpinit does not panic. The processors that
-- there is room for stand behind those before, in the table's order, the others are left out, the
-- I/O APIC is the last one of the table, localApic is the table's, and IMCR is written exactly when
-- the structure says so.
pub mpinit_lem :
    (fuel : ℕ) (m : Memory) (t : Topology) (mp conf : ℕ) (es : List Entry)
    → mpconfig m ≡ some (mp, conf)
    → Holds m (conf + sizeof_mpconf) es (conf + conf_length m conf)
    → length es < fuel
    → t.ncpu ≤ ncpu_max
    → (t' : Topology) × (mpinit fuel m t
        ≡ some (ready t' (lapicaddr m conf) (not (imcrp m mp == 0))))
      × Added t t' (processors es)
      × (t'.ioapicid ≡ last_io_apic es t.ioapicid)
mpinit_lem fuel m t mp conf es h k l n =
    let (t', e, a, i) =
      read_entries_lem fuel m (conf + sizeof_mpconf) (conf + conf_length m conf) es t k l n in
    (t', mpinit-found fuel m t mp conf h ∙ ap (Option.map (finish m mp conf)) e, a, i)

-- An entry of an unknown type is read again and again.
read_entries-unknown :
    (fuel : ℕ) (m : Memory) (e q : ℕ) (t : Topology) (ismp : Bool)
    → q < e
    → kind_of (m q) ≡ unknown
    → read_entries fuel m e q t ismp ≡ none
unfolding read_entries
read_entries-unknown zero m e q t ismp l h = refl
read_entries-unknown (suc fuel) m e q t ismp l h =
    ground (arith, read_entries-unknown fuel m e q t false l h)

read_entries-zero :
    (m : Memory) (e p : ℕ) (t : Topology) (ismp : Bool) → read_entries zero m e p t ismp ≡ none
unfolding read_entries
read_entries-zero m e p t ismp = refl

-- The loop before such an entry
endless :
    (fuel : ℕ) (m : Memory) (p e q : ℕ) (es : List Entry) (t : Topology) (ismp : Bool)
    → Holds m p es q
    → q < e
    → kind_of (m q) ≡ unknown
    → read_entries fuel m e p t ismp ≡ none
endless fuel m p e q [] t ismp h l k =
    ap (λ a. read_entries fuel m e a t ismp) h ∙ read_entries-unknown fuel m e q t ismp l k
endless zero m p e q (x ∷ es) t ismp h l k = read_entries-zero m e p t ismp
endless (suc fuel) m p e q (cpu_entry id ∷ es) t ismp h l k =
    read-processor fuel m e p t ismp (omega (arith, Holds-le m (p + sizeof_mpproc) es q h.2)) h.0
    ∙ endless fuel m (p + sizeof_mpproc) e q es (add_processor (m (p + 1)) t) ismp h.2 l k
endless (suc fuel) m p e q (io_entry id ∷ es) t ismp h l k =
    read-io_apic fuel m e p t ismp (omega (arith, Holds-le m (p + sizeof_mpioapic) es q h.2)) h.0
    ∙ endless fuel m (p + sizeof_mpioapic) e q es (record t { ioapicid = m (p + 1) }) ismp h.2 l k
endless (suc fuel) m p e q (skipped type ∷ es) t ismp h l k =
    read-other fuel m e p t ismp (omega (arith, Holds-le m (p + 8) es q h.2)) (rw h.0 h.1)
    ∙ endless fuel m (p + 8) e q es t ismp h.2 l k

-- Where mpconfig finds a table with an entry of an unknown type behind known ones, mpinit does not
-- end: with any fuel, the fuel runs out, and the panic for an unsuitable machine is not reached.
pub mpinit-endless :
    (fuel : ℕ) (m : Memory) (t : Topology) (mp conf q : ℕ) (es : List Entry)
    → mpconfig m ≡ some (mp, conf)
    → Holds m (conf + sizeof_mpconf) es q
    → q < conf + conf_length m conf
    → kind_of (m q) ≡ unknown
    → mpinit fuel m t ≡ none
mpinit-endless fuel m t mp conf q es h k l u =
    mpinit-found fuel m t mp conf h
    ∙ ap (Option.map (finish m mp conf))
        (endless fuel m (conf + sizeof_mpconf) (conf + conf_length m conf) q es t true k l u)
