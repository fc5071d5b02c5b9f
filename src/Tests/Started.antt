-- ===== src/Tests/Started.antt =====
-- The theorem on starting a program, applied to /bin/ps in a kernel that has just booted.
use bumbel_bee.Base.{ℕ, ◌+◌, ◌*◌}
use bumbel_bee.Exec.{Entry, ping_task, ring3_task, ps_task, netstat_task}
use bumbel_bee.Exec.Spawn.{Addresses}

abbrev entry_address : Entry → ℕ
entry_address ping_task = 0x1000
entry_address ring3_task = 0x1100
entry_address ps_task = 0x1200
entry_address netstat_task = 0x1300

abbrev addresses : Addresses
addresses = record {
  entry = entry_address;
  ping_job = λ i. 0x8000 + i * 44;
  generic_job = λ i. 0x9000 + i * 68;
}
