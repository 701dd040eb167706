-- ===== src/Bio/Tests.antt =====
-- The buffer cache at concrete lists of buffers.
use systems_programming_a.Prelude.{
  ℕ, ◌≡◌, some, refl, true, false, [], ◌∷◌, arith, ◌==◌, if◌then◌else◌,
}
use systems_programming_a.Bio.Defs.{
  Cache, DiskBuffer, cache_initialise, buffer_release, nbuf, is_recyclable, buffer_get,
}
use systems_programming_a.Bio.Ring.{IsRing}
use systems_programming_a.Bio.Release.{IsReleased, buffer_release-IsRing}
use systems_programming_a.Bio.Get.{last_with}
use systems_programming_a.Bio.Choice.{Gets, buffer_get_lem}
use systems_programming_a.Bio.Start.{pushed, cache_initialise-IsRing}

abbrev no_buffer : DiskBuffer
no_buffer = record {
  is_valid = false;
  is_dirty = false;
  device = 0;
  sector_number = 0;
  is_locked = true;
  reference_count = 1;
}

abbrev no_cache : Cache
no_cache = record { buffers = λ b. no_buffer; previous = λ b. 0; next = λ b. 0 }

fresh_cache-IsRing : IsRing (cache_initialise no_cache) (pushed nbuf 0 [])
fresh_cache-IsRing = cache_initialise-IsRing no_cache

-- Three buffers in the order 2, 1, 0, each locked and with one reference.
abbrev links : ℕ → ℕ → ℕ → ℕ → ℕ → ℕ
links p q r h b = if b == 0 then p else if b == 1 then q else if b == 2 then r else h

abbrev three_buffers : Cache
three_buffers = record {
  buffers = λ b. no_buffer;
  next = links nbuf 0 1 2;
  previous = links 1 2 nbuf 0;
}

three_buffers-IsRing : IsRing three_buffers (2 ∷ 1 ∷ 0 ∷ [])
three_buffers-IsRing = (
  (
    (λ e. ground arith),
    ((λ e. ground arith), ((λ e. ground arith), tt)),
    ((λ e. ground arith), ((λ e. ground arith), tt), ((λ e. ground arith), tt, tt)),
  ),
  (refl, refl, (refl, refl, (refl, refl, (refl, refl)))),
)

buffer_release-IsRing_example :
    IsReleased 1 (2 ∷ []) (0 ∷ []) three_buffers (buffer_release 1 three_buffers)
buffer_release-IsRing_example =
    buffer_release-IsRing 1 (2 ∷ []) (0 ∷ []) three_buffers three_buffers-IsRing

-- With every buffer free, a sector that is not cached gets the last buffer of the list.
abbrev clean_buffer : DiskBuffer
clean_buffer = record no_buffer { is_locked = false; reference_count = 0 }

abbrev all_free : Cache
all_free =
    cache_initialise (record { buffers = λ b. clean_buffer; previous = λ b. 0; next = λ b. 0 })

buffer_get_lem_example : Gets 0 7 (pushed nbuf 0 []) all_free (buffer_get 0 7 all_free)
buffer_get_lem_example =
    buffer_get_lem 0 7 all_free (pushed nbuf 0 [])
      (cache_initialise-IsRing
        (record { buffers = λ b. clean_buffer; previous = λ b. 0; next = λ b. 0 }))
      refl

-- The first buffer put into the list is recycled first.
get_from-first : last_with (λ b. is_recyclable clean_buffer) (pushed nbuf 0 []) ≡ some 0
get_from-first = refl
