-- ===== src/Exec.antt =====
-- kernel/builtin_exec.c: the table of programs, and the tables of jobs that hold their arguments.
-- A null argument is `none`.
pub mod Render
pub mod Spawn
pub mod Demo
pub mod Placed
pub mod Outcome
use bumbel_bee.Base.{
  ℕ, zero, suc, ◌+◌, ◌-◌, ◌*◌, Bool, true, false, not, ◌&&◌, ◌||◌, Option, none, some, List, [],
  ◌∷◌, Array, write, ◌==◌, ltb, leb, if◌then◌else◌, u32, length, take, codes, first_from,
}
use bumbel_bee.Strings.{same_string}
use bumbel_bee.Fs.Layout.{zeros}
use bumbel_bee.Fs.Execs.{put_image}

-- struct ping_job
pub record PingJob : Type 0 where
  pub used : Bool
  pub target : List ℕ
  pub count : ℕ
  pub interval_ticks : ℕ

-- struct generic_job
pub record GenericJob : Type 0 where
  pub used : Bool
  pub arg : List ℕ

pub record Jobs : Type 0 where
  pub ping_jobs : Array PingJob
  pub generic_jobs : Array GenericJob

-- the entry points of the programs
pub data Entry : Type 0 where
  ping_task ring3_task ps_task netstat_task : Entry

-- struct builtin_program
pub record Program : Type 0 where
  pub path : List ℕ
  pub summary : List ℕ
  pub mode : List ℕ
  pub image : Array ℕ
  pub image_size : ℕ
  pub entry : Entry

abbrev pub image_bytes : ℕ
image_bytes = 120

-- The static images are a file header and a program header that describes both.
unfoldable pub elf_image : ℕ → Array ℕ
unfolding put_image
elf_image entry = put_image entry 0x401000 [] zeros

abbrev pub programs : List Program
programs =
    record {
      path = codes "/bin/ping";
      summary = codes "send file-modeled ICMP over /net";
      mode = codes "kernel-task";
      image = elf_image 0x401000;
      image_size = image_bytes;
      entry = ping_task;
    }
    ∷ record {
      path = codes "/bin/ring3demo";
      summary = codes "enter ring3, issue int 0x80, and return";
      mode = codes "user-transition";
      image = elf_image 0x401040;
      image_size = image_bytes;
      entry = ring3_task;
    }
    ∷ record {
      path = codes "/bin/ps";
      summary = codes "dump process and scheduler table";
      mode = codes "kernel-task";
      image = elf_image 0x401080;
      image_size = image_bytes;
      entry = ps_task;
    }
    ∷ record {
      path = codes "/bin/netstat";
      summary = codes "print network filesystem counters";
      mode = codes "kernel-task";
      image = elf_image 0x4010c0;
      image_size = image_bytes;
      entry = netstat_task;
    }
    ∷ []

-- the loop of `find_program`
unfoldable pub find_in : List ℕ → List Program → Option Program
unfolding same_string
find_in path [] = none
find_in path (p ∷ ps) =
    let rest = find_in path ps in if same_string p.path path then some p else rest

unfoldable pub find_program : List ℕ → Option Program
unfolding find_in
find_program path = find_in path programs

-- the loop of `parse_u32`
unfoldable pub parse_number : List ℕ → ℕ → Option ℕ
parse_number [] value = some value
parse_number (c ∷ cs) value =
    let rest = parse_number cs (u32 (value * 10 + (c - 48))) in
    if ltb c 48 || ltb 57 c then none else rest

unfoldable pub parse_u32 : List ℕ → Option ℕ
unfolding parse_number
parse_u32 [] = none
parse_u32 (c ∷ cs) = parse_number (c ∷ cs) 0

abbrev pub empty_ping_job : PingJob
empty_ping_job = record { used = false; target = []; count = 0; interval_ticks = 0 }

abbrev pub empty_generic_job : GenericJob
empty_generic_job = record { used = false; arg = [] }

unfoldable pub builtin_exec_init : Jobs
builtin_exec_init = record {
  ping_jobs = λ i. empty_ping_job;
  generic_jobs = λ i. empty_generic_job;
}

abbrev pub ping_jobs_max : ℕ
ping_jobs_max = 4

abbrev pub generic_jobs_max : ℕ
generic_jobs_max = 4

-- what fits into `arg[64]` before the terminator
abbrev pub clip_arg : Option (List ℕ) → List ℕ
clip_arg none = []
clip_arg (some arg) = if leb 64 (length arg) then take 63 arg else arg

unfoldable pub free_generic_job : Jobs → Option ℕ
free_generic_job j = first_from (λ i. not (j.generic_jobs i).used) generic_jobs_max 0

abbrev pub set_generic_job : ℕ → GenericJob → Jobs → Jobs
set_generic_job i job j = record j { generic_jobs = write j.generic_jobs i job }

unfoldable pub alloc_generic_job : Option (List ℕ) → Jobs → Option ℕ × Jobs
unfolding free_generic_job
alloc_generic_job arg j = elim (free_generic_job j) [
  | none ↦ (none, j)
  | some i ↦ (some i, set_generic_job i (record { used = true; arg = clip_arg arg }) j)
]

-- The loop over the target, with `room` places left: what it took, and where it stopped.
unfoldable pub split_target : ℕ → List ℕ → List ℕ × List ℕ
split_target zero arg = ([], arg)
split_target (suc room) [] = ([], [])
split_target (suc room) (c ∷ cs) =
    let (target, rest) = split_target room cs in
    if c == 32 then ([], c ∷ cs) else (c ∷ target, rest)

-- the number of packets that is asked for behind the target
unfoldable pub ping_count : List ℕ → ℕ
unfolding parse_u32
ping_count [] = 4
ping_count (c ∷ n) =
    if c == 32
    then elim (parse_u32 n) [
      | none ↦ 4
      | some parsed ↦ if ltb 0 parsed && ltb parsed 32 then parsed else 4
    ]
    else 4

unfoldable pub free_ping_job : Jobs → Option ℕ
free_ping_job j = first_from (λ i. not (j.ping_jobs i).used) ping_jobs_max 0

abbrev pub set_ping_job : ℕ → PingJob → Jobs → Jobs
set_ping_job i job j = record j { ping_jobs = write j.ping_jobs i job }

-- The job that an argument asks for; `none` where the target is empty.
unfoldable pub ping_job : Option (List ℕ) → Option PingJob
unfolding split_target ping_count
ping_job none = none
ping_job (some arg) =
    let (target, rest) = split_target 31 arg in
    if length target == 0
    then none
    else some (record { used = true; target = target; count = ping_count rest; interval_ticks = 5 })

unfoldable pub alloc_ping_job : Option (List ℕ) → Jobs → Option ℕ × Jobs
unfolding ping_job free_ping_job
alloc_ping_job arg j = elim (ping_job arg) [
  | none ↦ (none, j)
  | some job ↦ elim (free_ping_job j) [ none ↦ (none, j) | some i ↦ (some i, set_ping_job i job j) ]
]

abbrev pub builtin_exec_count : ℕ
builtin_exec_count = length programs
