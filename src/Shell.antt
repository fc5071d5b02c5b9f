-- ===== src/Shell.antt =====
-- kernel/shell.c: the line that is typed, and the words of a command. Running a command is not part
-- of the model: a line that is entered is handed over.
pub mod Editing
pub mod Words
pub mod Sim
use bumbel_bee.Base.{
  ℕ, zero, suc, ◌+◌, ◌-◌, ◌*◌, Bool, ◌&&◌, ◌||◌, not, List, [], ◌∷◌, Array, write, ◌==◌, leb, ltb,
  if◌then◌else◌, u32, codes,
}
use bumbel_bee.Data.{Kernel}
use bumbel_bee.Strings.{same_string, same_start, string_at}
use bumbel_bee.Trace.{trace_record, profile_none}
use bumbel_bee.Workload.{profile_attack, profile_sysload, profile_lifecycle}

-- enum trace_event_type
abbrev trace_event_shell : ℕ
trace_event_shell = 4

-- sizeof(line)
abbrev pub line_size : ℕ
line_size = 128

-- `line` and `len` of `shell_run`
pub record Line : Type 0 where
  pub chars : Array ℕ
  pub len : ℕ

-- What a character leads to: nothing, a text on the console and the serial line, or the command
-- that `exec_command` gets.
pub data Response : Type 0 where
  quiet : Response
  echo command : List ℕ → Response

-- The part of `shell_read_char` on what comes over the serial line.
unfoldable pub serial_key : ℕ → ℕ
serial_key ch = if ch == 13 then 10 else (if ch == 0x7f then 8 else ch)

-- A line that is entered is recorded, unless it starts a demonstration.
unfoldable pub note_line : List ℕ → ℕ → Kernel → Kernel
unfolding same_start
note_line cmd len k =
    if same_start cmd (codes "demo ") 5 then k else trace_record trace_event_shell 0 len 0 k

-- The loop of `shell_run` on one character. After a command it goes on with an empty line.
unfoldable pub shell_key : ℕ → Kernel → Line → Response × Kernel × Line
unfolding note_line string_at
shell_key ch k s =
    let ended = record s { chars = write s.chars s.len 0 } in
    let cmd = string_at line_size ended.chars 0 in
    if ch == 10
    then (command cmd, note_line cmd s.len k, record ended { len = 0 })
    else (if ch == 8
        then (if ltb 0 s.len
            then (echo (8 ∷ b' ' ∷ 8 ∷ []), k, record s { len = s.len - 1 })
            else (quiet, k, s))
        else (if ltb (s.len + 1) line_size && leb 32 ch && ltb ch 127
            then (echo (ch ∷ []), k, record { chars = write s.chars s.len ch; len = s.len + 1 })
            else (quiet, k, s)))

-- `isspace` of kernel/string.c
unfoldable pub isspace : ℕ → Bool
isspace ch = ch == b' ' || ch == 9 || ch == 10 || ch == 13

unfoldable pub parse_from : List ℕ → ℕ → ℕ
parse_from [] value = value
parse_from (c ∷ s) value =
    let rest = parse_from s (u32 (value * 10 + (c - b'0'))) in
    if leb b'0' c && leb c b'9' then rest else value

unfoldable pub parse_u32 : List ℕ → ℕ
unfolding parse_from
parse_u32 s = parse_from s 0

unfoldable pub skip_spaces : List ℕ → List ℕ
skip_spaces [] = []
skip_spaces (c ∷ s) = let rest = skip_spaces s in if c == b' ' || c == 9 then rest else c ∷ s

-- The loops that copy a word into `path`, `mode` or `target`, with room for so many more
-- characters: the word, and what follows it.
unfoldable pub take_word : ℕ → List ℕ → List ℕ × List ℕ
unfolding isspace
take_word room [] = ([], [])
take_word zero (c ∷ s) = ([], c ∷ s)
take_word (suc room) (c ∷ s) =
    let (word, rest) = take_word room s in if isspace c then ([], c ∷ s) else (c ∷ word, rest)

-- The two arguments of `write`: those of `open`, `execve` and `run` differ in the room for the
-- second.
unfoldable pub path_and_data : List ℕ → List ℕ × List ℕ
unfolding take_word skip_spaces
path_and_data args = let (path, rest) = take_word 47 (skip_spaces args) in (path, skip_spaces rest)

unfoldable pub parse_profile : List ℕ → ℕ
unfolding same_string
parse_profile s =
    if same_string s (codes "attack")
    then profile_attack
    else (if same_string s (codes "sysload")
        then profile_sysload
        else (if same_string s (codes "lifecycle") then profile_lifecycle else profile_none))
