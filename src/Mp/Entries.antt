-- ===== src/Mp/Entries.antt =====
-- The entries of the configuration table.
use Prim.Native.Nat.{min}
use mathlib.Core.Path.{subst}
use native.Mathlib.Decide.{dec_lt}
use systems_programming_a.Prelude.{
  ℕ, zero, suc, ◌+◌, ◌-◌, ◌<◌, ◌≤◌, ◌≡◌, ◌∙◌, refl, ap, arith, Bool, true, some, List, [], ◌∷◌,
  length, get_elem?, ◌⊎◌, Memory, update, update_ne, update_self, sym,
}
use systems_programming_a.Mp.Defs.{
  Topology, add_processor, read_entries, sizeof_mpproc, sizeof_mpioapic, ncpu_max,
}

-- An entry of a known type: a processor with its local APIC, an I/O APIC, or a bus or interrupt.
pub data Entry : Type 0 where
  cpu_entry : ℕ → Entry
  io_entry : ℕ → Entry
  skipped : ℕ → Entry

-- The table from `p` on is these entries and ends at `q`.
abbrev pub Holds : Memory → ℕ → List Entry → ℕ → Type 0
Holds m p [] q = p ≡ q
Holds m p (cpu_entry id ∷ es) q = (m p ≡ 0) × (m (p + 1) ≡ id) × Holds m (p + sizeof_mpproc) es q
Holds m p (io_entry id ∷ es) q = (m p ≡ 2) × (m (p + 1) ≡ id) × Holds m (p + sizeof_mpioapic) es q
Holds m p (skipped type ∷ es) q =
    (m p ≡ type) × ((type ≡ 1) ⊎ (type ≡ 3) ⊎ (type ≡ 4)) × Holds m (p + 8) es q

-- What the entries make of the globals.
abbrev pub apply_entry : Entry → Topology → Topology
apply_entry (cpu_entry id) t = add_processor id t
apply_entry (io_entry id) t = record t { ioapicid = id }
apply_entry (skipped type) t = t

unfoldable pub apply_entries : List Entry → Topology → Topology
apply_entries [] t = t
apply_entries (x ∷ es) t = apply_entries es (apply_entry x t)

pub Holds-le : (m : Memory) (p : ℕ) (es : List Entry) (q : ℕ) → Holds m p es q → p ≤ q
Holds-le m p [] q h = omega arith
Holds-le m p (cpu_entry id ∷ es) q h = omega (arith, Holds-le m (p + sizeof_mpproc) es q h.2)
Holds-le m p (io_entry id ∷ es) q h = omega (arith, Holds-le m (p + sizeof_mpioapic) es q h.2)
Holds-le m p (skipped type ∷ es) q h = omega (arith, Holds-le m (p + 8) es q h.2)

module _ (fuel : ℕ) (m : Memory) (e p : ℕ) (t : Topology) (ismp : Bool) (before : p < e) where
  pub read-processor :
      m p ≡ 0
      → read_entries (suc fuel) m e p t ismp
        ≡ read_entries fuel m e (p + sizeof_mpproc) (add_processor (m (p + 1)) t) ismp
  unfolding read_entries
  read-processor h = ground arith

  pub read-io_apic :
      m p ≡ 2
      → read_entries (suc fuel) m e p t ismp
        ≡ read_entries fuel m e (p + sizeof_mpioapic) (record t { ioapicid = m (p + 1) }) ismp
  unfolding read_entries
  read-io_apic h = ground arith

  pub read-other :
      (m p ≡ 1) ⊎ (m p ≡ 3) ⊎ (m p ≡ 4)
      → read_entries (suc fuel) m e p t ismp ≡ read_entries fuel m e (p + 8) t ismp
  unfolding read_entries
  read-other h = ground arith

-- The rounds over the first entries.
pub read_entries-prefix :
    (fuel : ℕ) (m : Memory) (e p q : ℕ) (es : List Entry) (t : Topology) (ismp : Bool)
    → Holds m p es q
    → q ≤ e
    → read_entries (length es + fuel) m e p t ismp
      ≡ read_entries fuel m e q (apply_entries es t) ismp
unfolding apply_entries
read_entries-prefix fuel m e p q [] t ismp h l =
    ap (λ n. read_entries n m e p t ismp) (omega arith) ∙ ap (λ a. read_entries fuel m e a t ismp) h
read_entries-prefix fuel m e p q (cpu_entry id ∷ es) t ismp h l =
    ap (λ n. read_entries n m e p t ismp) (omega arith)
    ∙ read-processor (length es + fuel) m e p t ismp
        (omega (arith, Holds-le m (p + sizeof_mpproc) es q h.2)) h.0
    ∙ ap (λ i. read_entries (length es + fuel) m e (p + sizeof_mpproc) (add_processor i t) ismp) h.1
    ∙ read_entries-prefix fuel m e (p + sizeof_mpproc) q es (add_processor id t) ismp h.2 l
read_entries-prefix fuel m e p q (io_entry id ∷ es) t ismp h l =
    ap (λ n. read_entries n m e p t ismp) (omega arith)
    ∙ read-io_apic (length es + fuel) m e p t ismp
        (omega (arith, Holds-le m (p + sizeof_mpioapic) es q h.2)) h.0
    ∙ ap
        (λ i.
          read_entries (length es + fuel) m e (p + sizeof_mpioapic) (record t { ioapicid = i })
            ismp)
        h.1
    ∙ read_entries-prefix fuel m e (p + sizeof_mpioapic) q es (record t { ioapicid = id }) ismp h.2
        l
read_entries-prefix fuel m e p q (skipped type ∷ es) t ismp h l =
    ap (λ n. read_entries n m e p t ismp) (omega arith)
    ∙ read-other (length es + fuel) m e p t ismp (omega (arith, Holds-le m (p + 8) es q h.2))
        (rw h.0 h.1)
    ∙ read_entries-prefix fuel m e (p + 8) q es t ismp h.2 l

read_entries-end :
    (fuel : ℕ) (m : Memory) (e : ℕ) (t : Topology) (ismp : Bool)
    → read_entries (suc fuel) m e e t ismp ≡ some (t, ismp)
unfolding read_entries
read_entries-end fuel m e t ismp = ground arith

-- The local APICs of the processors, and the last I/O APIC.
abbrev pub processors : List Entry → List ℕ
processors [] = []
processors (cpu_entry id ∷ es) = id ∷ processors es
processors (io_entry id ∷ es) = processors es
processors (skipped type ∷ es) = processors es

abbrev pub last_io_apic : List Entry → ℕ → ℕ
last_io_apic [] id = id
last_io_apic (cpu_entry i ∷ es) id = last_io_apic es id
last_io_apic (io_entry i ∷ es) id = last_io_apic es i
last_io_apic (skipped type ∷ es) id = last_io_apic es id

-- The globals after some processors: those that there was room for are behind the ones before.
pub record Added (t t' : Topology) (ids : List ℕ) : Type 0 where
  pub counted : t'.ncpu ≡ min ncpu_max (t.ncpu + length ids)
  pub added :
      (k id : ℕ) → get_elem? ids k ≡ some id → t.ncpu + k < ncpu_max → t'.apicids (t.ncpu + k) ≡ id
  pub kept : (k : ℕ) → k < t.ncpu → t'.apicids k ≡ t.apicids k

abbrev with_processor : ℕ → Topology → Topology
with_processor id t = record t { apicids = update t.apicids t.ncpu id; ncpu = t.ncpu + 1 }

add_processor-room :
    (id : ℕ) (t : Topology) → t.ncpu < ncpu_max → add_processor id t ≡ with_processor id t
unfolding add_processor
add_processor-room id t h = ground arith

add_processor-full : (id : ℕ) (t : Topology) → ncpu_max ≤ t.ncpu → add_processor id t ≡ t
unfolding add_processor
add_processor-full id t h = ground arith

apicids-with_processor :
    (id : ℕ) (t u : Topology) (ids : List ℕ)
    → Added (with_processor id t) u ids
    → (k i : ℕ) → get_elem? (id ∷ ids) k ≡ some i
    → t.ncpu + k < ncpu_max
    → u.apicids (t.ncpu + k) ≡ i
apicids-with_processor id t u ids a zero i g l =
    ap u.apicids (omega arith) ∙ a.kept t.ncpu (omega arith) ∙ update_self t.apicids t.ncpu id ∙ cc
apicids-with_processor id t u ids a (suc k) i g l =
    ap u.apicids (omega arith) ∙ a.added k i g (omega arith)

-- One more processor in front.
Added-room :
    (id : ℕ) (t u : Topology) (ids : List ℕ)
    → t.ncpu < ncpu_max
    → Added (with_processor id t) u ids
    → Added t u (id ∷ ids)
Added-room id t u ids h a = record {
  counted = omega (arith, a.counted);
  added = apicids-with_processor id t u ids a;
  kept = λ k l. a.kept k (omega arith) ∙ update_ne t.apicids t.ncpu k id (omega arith);
}

Added-full :
    (id : ℕ) (t u : Topology) (ids : List ℕ)
    → ncpu_max ≤ t.ncpu
    → Added t u ids
    → Added t u (id ∷ ids)
Added-full id t u ids h a = record {
  counted = omega (arith, a.counted);
  added = λ k i g l. absurd (omega arith);
  kept = a.kept;
}

apply_entries-Added :
    (es : List Entry) (t : Topology)
    → t.ncpu ≤ ncpu_max
    → Added t (apply_entries es t) (processors es)
      × ((apply_entries es t).ioapicid ≡ last_io_apic es t.ioapicid)
unfolding apply_entries
apply_entries-Added [] t h =
    (record { counted = omega arith; added = λ k id g. absurd (cc); kept = λ k l. refl }, refl)
apply_entries-Added (cpu_entry id ∷ es) t h = elim (dec_lt t.ncpu ncpu_max) [
  | yes l ↦
      let (a, i) = apply_entries-Added es (with_processor id t) (omega arith) in
      subst
        (λ u.
          Added t (apply_entries es u) (id ∷ processors es)
          × ((apply_entries es u).ioapicid ≡ last_io_apic es t.ioapicid))
        (sym (add_processor-room id t l)) (Added-room id t _ (processors es) l a, i)
  | no n ↦
      let (a, i) = apply_entries-Added es t h in
      subst
        (λ u.
          Added t (apply_entries es u) (id ∷ processors es)
          × ((apply_entries es u).ioapicid ≡ last_io_apic es t.ioapicid))
        (sym (add_processor-full id t (omega arith)))
        (Added-full id t _ (processors es) (omega arith) a, i)
]
apply_entries-Added (io_entry id ∷ es) t h =
    let (a, l) = apply_entries-Added es (record t { ioapicid = id }) h in
    (record { counted = a.counted; added = a.added; kept = a.kept }, l)
apply_entries-Added (skipped type ∷ es) t h = apply_entries-Added es t h

-- The loop of mpinit over a table of known entries, with more fuel than entries
pub read_entries_lem :
    (fuel : ℕ) (m : Memory) (p e : ℕ) (es : List Entry) (t : Topology)
    → Holds m p es e
    → length es < fuel
    → t.ncpu ≤ ncpu_max
    → (t' : Topology) × (read_entries fuel m e p t true ≡ some (t', true))
      × Added t t' (processors es)
      × (t'.ioapicid ≡ last_io_apic es t.ioapicid)
read_entries_lem fuel m p e es t h l n =
    let (a, i) = apply_entries-Added es t n in
    (
      apply_entries es t,
      ap (λ f. read_entries f m e p t true) (omega arith)
          ∙ read_entries-prefix (suc (fuel - length es - 1)) m e p e es t true h (omega arith)
          ∙ read_entries-end (fuel - length es - 1) m e (apply_entries es t) true,
      a,
      i,
    )
