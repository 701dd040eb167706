-- ===== src/Mp/Defs.antt =====
-- sum, mpsearch1, mpsearch, mpconfig and mpinit of UoDOS/mp.c. The memory is a function from kernel
-- addresses to bytes, and a structure of UoDOS/mp.h is its address.
use mathlib.Core.Option
use systems_programming_a.Prelude.{
  ℕ, zero, suc, ◌+◌, ◌*◌, ◌-◌, ◌/◌, ◌%◌, ◌^◌, Bool, true, false, not, ◌&&◌, ◌||◌, Option, none,
  some, List, [], ◌∷◌, ◌==◌, ltb, if◌then◌else◌, update, Memory,
}
use systems_programming_a.Prelude.Int.{ℤ, pos}
use systems_programming_a.Str.Text.{memcmp}
use systems_programming_a.Vm.{p2v}

-- The `n` bytes from an address on.
abbrev pub bytes_at : Memory → ℕ → ℕ → List ℕ
bytes_at m a zero = []
bytes_at m a (suc n) = m a ∷ bytes_at m (a + 1) n

-- The loop of `sum`, which returns the lowest byte.
unfoldable pub sum_from : Memory → ℕ → ℕ → ℕ → ℕ
sum_from m a zero total = total
sum_from m a (suc n) total = sum_from m (a + 1) n (total + m a)

unfoldable pub sum : Memory → ℕ → ℕ → ℕ
unfolding sum_from
sum m a len = sum_from m a len 0 % 256

abbrev is_zero : Option ℤ → Bool
is_zero (some (pos n)) = n == 0
is_zero r = false

-- `memcmp(p, text, 4) == 0`
unfoldable pub has_signature : Memory → ℕ → List ℕ → Bool
unfolding memcmp
has_signature m p text = is_zero (memcmp (bytes_at m p 4) text 4)

abbrev pub mp_signature : List ℕ
mp_signature = b'_' ∷ b'M' ∷ b'P' ∷ b'_' ∷ []

abbrev pub conf_signature : List ℕ
conf_signature = b'P' ∷ b'C' ∷ b'M' ∷ b'P' ∷ []

-- sizeof(struct mp), sizeof(struct mpconf), sizeof(struct mpproc), sizeof(struct mpioapic)
abbrev pub sizeof_mp : ℕ
sizeof_mp = 16

abbrev pub sizeof_mpconf : ℕ
sizeof_mpconf = 44

abbrev pub sizeof_mpproc : ℕ
sizeof_mpproc = 20

abbrev pub sizeof_mpioapic : ℕ
sizeof_mpioapic = 8

-- The loop of mpsearch1 with `n` rounds left.
unfoldable pub search_from : Memory → ℕ → ℕ → Option ℕ
unfolding has_signature sum
search_from m zero p = none
search_from m (suc n) p =
    let rest = search_from m n (p + sizeof_mp) in
    if has_signature m p mp_signature && sum m p sizeof_mp == 0 then some p else rest

unfoldable pub mpsearch1 : Memory → ℕ → ℕ → Option ℕ
unfolding search_from
mpsearch1 m a len = search_from m ((len + (sizeof_mp - 1)) / sizeof_mp) (p2v a)

-- `(bda[i + 1] << 8) | bda[i]`
abbrev pub bda_word : Memory → ℕ → ℕ
bda_word m i = m (p2v 0x400 + i + 1) * 256 + m (p2v 0x400 + i)

unfoldable pub mpsearch : Memory → Option ℕ
unfolding mpsearch1
mpsearch m =
    let p = bda_word m 0x0e * 16 in
    let found =
      if not (p == 0)
      then mpsearch1 m p 1024
      else mpsearch1 m ((bda_word m 0x13 * 1024 + 2 ^ 32 - 1024) % 2 ^ 32) 1024 in
    elim found [ some mp ↦ some mp | none ↦ mpsearch1 m 0xf0000 0x10000 ]

-- A uint16_t and a uint32_t in memory, low byte first.
abbrev pub word16 : Memory → ℕ → ℕ
word16 m a = m a + 256 * m (a + 1)

abbrev pub word32 : Memory → ℕ → ℕ
word32 m a = word16 m a + 2 ^ 16 * word16 m (a + 2)

-- The fields of the structures that the code reads.
abbrev pub physaddr : Memory → ℕ → ℕ
physaddr m mp = word32 m (mp + 4)

abbrev pub imcrp : Memory → ℕ → ℕ
imcrp m mp = m (mp + 12)

abbrev pub conf_length : Memory → ℕ → ℕ
conf_length m conf = word16 m (conf + 4)

abbrev pub conf_version : Memory → ℕ → ℕ
conf_version m conf = m (conf + 6)

abbrev pub lapicaddr : Memory → ℕ → ℕ
lapicaddr m conf = word32 m (conf + 36)

-- The tests of mpconfig on the table.
unfoldable pub is_conf : Memory → ℕ → Bool
unfolding has_signature sum
is_conf m conf =
    has_signature m conf conf_signature
    && (conf_version m conf == 1 || conf_version m conf == 4)
    && sum m conf (conf_length m conf) == 0

-- mpconfig: the two structures.
unfoldable pub mpconfig : Memory → Option (ℕ × ℕ)
unfolding mpsearch is_conf
mpconfig m = elim (mpsearch m) [
  | none ↦ none
  | some mp ↦
      let conf = p2v (physaddr m mp) in
      if physaddr m mp == 0 then none else if is_conf m conf then some (mp, conf) else none
]

-- NCPU
abbrev pub ncpu_max : ℕ
ncpu_max = 8

-- The globals `cpus` (the field Apicid), `ncpu` and `ioapicid`.
pub record Topology : Type 0 where
  pub apicids : ℕ → ℕ
  pub ncpu : ℕ
  pub ioapicid : ℕ

-- The case MPPROC.
unfoldable pub add_processor : ℕ → Topology → Topology
add_processor id t =
    if ltb t.ncpu ncpu_max
    then record t { apicids = update t.apicids t.ncpu id; ncpu = t.ncpu + 1 }
    else t

-- The entries that the loop knows, by their type; `unknown` is the default.
pub data Kind : Type 0 where
  processor io_apic other unknown : Kind

unfoldable pub kind_of : ℕ → Kind
kind_of type =
    if type == 0
    then processor
    else if type == 2
    then io_apic
    else if type == 1 || type == 3 || type == 4
    then other
    else unknown

-- The loop of mpinit up to `e`, with the flag `ismp`; `none` is out of fuel. The `break` of the
-- default leaves the switch, not the loop, and `p` stays.
unfoldable pub read_entries : ℕ → Memory → ℕ → ℕ → Topology → Bool → Option (Topology × Bool)
unfolding kind_of
read_entries zero m e p t ismp = none
read_entries (suc fuel) m e p t ismp =
    if ltb p e
    then elim (kind_of (m p)) [
      | processor ↦ read_entries fuel m e (p + sizeof_mpproc) (add_processor (m (p + 1)) t) ismp
      | io_apic ↦
          read_entries fuel m e (p + sizeof_mpioapic) (record t { ioapicid = m (p + 1) }) ismp
      | other ↦ read_entries fuel m e (p + 8) t ismp
      | unknown ↦ read_entries fuel m e p t false
    ]
    else some (t, ismp)

-- What a call of mpinit comes to: `localApic`, and whether it writes the register IMCR.
pub data Ready : Type 0 where
  panicked : Ready
  ready : Topology → ℕ → Bool → Ready

abbrev pub finish : Memory → ℕ → ℕ → Topology × Bool → Ready
finish m mp conf (t, ismp) =
    if ismp then ready t (lapicaddr m conf) (not (imcrp m mp == 0)) else panicked

-- mpinit from the result of mpconfig on.
unfoldable pub read_table : ℕ → Memory → Topology → Option (ℕ × ℕ) → Option Ready
read_table fuel m t none = some panicked
read_table fuel m t (some (mp, conf)) =
    Option.map (finish m mp conf)
      (read_entries fuel m (conf + conf_length m conf) (conf + sizeof_mpconf) t true)

-- mpinit; `none` is out of fuel.
unfoldable pub mpinit : ℕ → Memory → Topology → Option Ready
unfolding read_table
mpinit fuel m t = read_table fuel m t (mpconfig m)
