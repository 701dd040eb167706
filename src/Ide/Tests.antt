-- ===== src/Ide/Tests.antt =====
-- The disk driver with two requests.
use systems_programming_a.Prelude.{
  ℕ, ◌+◌, ◌*◌, ◌≡◌, refl, arith, true, false, some, none, [], ◌∷◌, ◌++◌, ◌==◌, if◌then◌else◌,
  update,
}
use systems_programming_a.Proc.{NoneAsleep, sleep}
use systems_programming_a.Bio.{DiskBuffer}
use systems_programming_a.Ide.Defs.{
  Ide, request_of, asleep, ide_wait, ide_read_write, ide_interrupt_handler,
}
use systems_programming_a.Ide.Request.{IsLive, new_output, ide_read_write_lem}
use systems_programming_a.Ide.Finish.{done, received, next_output, ide_interrupt_handler_lem}

abbrev empty_buffer : ℕ → DiskBuffer
empty_buffer n = record {
  is_valid = false;
  is_dirty = false;
  device = 0;
  sector_number = 0x1234 + n;
  is_locked = true;
  reference_count = 1;
}

abbrev idle : Ide
idle = record {
  buffers = empty_buffer;
  contents = λ b. [];
  queue_next = λ b. none;
  idequeue = none;
  havedisk1 = false;
  address = λ b. 0x1000 + 560 * b;
  procs = [];
  output = [];
}

idle-IsLive : IsLive idle []
idle-IsLive = record {
  linked = refl;
  distinct = tt;
  waiting = tt;
  started = tt;
  served = λ b n. tt;
}

-- Buffer 4 is being read, and buffer 2 waits.
abbrev at_work : Ide
at_work = record idle {
  idequeue = some 4;
  queue_next = λ b. if b == 4 then some 2 else none;
  output = request_of (empty_buffer 4) [];
}

at_work-IsLive : IsLive at_work (4 ∷ 2 ∷ [])
at_work-IsLive = record {
  linked = (refl, (refl, refl));
  distinct = (((λ e. ground arith), tt), (tt, tt));
  waiting = (refl, (refl, tt));
  started = ([], refl);
  served = λ b n. tt;
}

ready : ide_wait false (0x80 ∷ 0x40 ∷ []) ≡ some false
unfolding ide_wait
ready = refl

ready_to_check : ide_wait true (0x40 ∷ []) ≡ some false
unfolding ide_wait
ready_to_check = refl

ide_read_write_lem_example :
    (s' : Ide) × (ide_read_write 0 7 (0x80 ∷ 0x40 ∷ []) at_work ≡ asleep s')
    × IsLive s' ((4 ∷ 2 ∷ []) ++ 7 ∷ [])
    × (s'.output ≡ at_work.output ++ new_output (4 ∷ 2 ∷ []) 7 at_work)
    × (s'.procs ≡ sleep 0 (at_work.address 7) at_work.procs)
ide_read_write_lem_example =
    ide_read_write_lem 0 7 false (0x80 ∷ 0x40 ∷ []) (4 ∷ 2 ∷ []) at_work at_work-IsLive
      ((λ e. ground arith), ((λ e. ground arith), tt)) (omega arith) (λ x y e. omega (arith, e))
      refl refl refl ready

ide_interrupt_handler_lem_example :
    (s' : Ide) × (ide_interrupt_handler (0x40 ∷ []) (1 ∷ 2 ∷ []) (0x80 ∷ 0x40 ∷ []) at_work
      ≡ some s')
    × IsLive s' (2 ∷ [])
    × NoneAsleep (at_work.address 4) s'.procs
    × (s'.buffers ≡ update at_work.buffers 4 (done (at_work.buffers 4)))
    × (s'.contents ≡ received false (1 ∷ 2 ∷ []) 4 at_work)
    × (s'.output ≡ at_work.output ++ next_output (2 ∷ []) at_work)
ide_interrupt_handler_lem_example =
    ide_interrupt_handler_lem (0x40 ∷ []) (1 ∷ 2 ∷ []) (0x80 ∷ 0x40 ∷ []) false false 4 (2 ∷ [])
      at_work at_work-IsLive ready_to_check ready
