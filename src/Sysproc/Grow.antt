-- ===== src/Sysproc/Grow.antt =====
-- sys_sbrk, growProcess and the page tables.
use systems_programming_a.Task.Machine.{Machine, Task}
