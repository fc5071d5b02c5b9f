-- ===== src/Exec/Render.antt =====
-- kernel/builtin_exec.c: the text that a file below /bin reads as.
use bumbel_bee.Base.{
  ℕ, ◌||◌, Bool, Option, none, some, List, [], ◌∷◌, Array, ◌==◌, if◌then◌else◌, codes, write,
}
use bumbel_bee.Data.{FsState}
use bumbel_bee.Strings.{same_string}
use bumbel_bee.Text.{Out, Piece, text, number, char, append_all}
use bumbel_bee.Elf.{ElfInfo, elf_parse_image}
use bumbel_bee.Ata.{Drive}
use bumbel_bee.Fs.Files.{fs_snapshot_execs}
use bumbel_bee.Fs.Execs.{fs_read_exec_file}
use bumbel_bee.Exec.{Program, programs, find_program}

-- the loops of the index: over the programs on the disk, or over the table if there are none
exec_lines : List (List ℕ) → List Piece
exec_lines [] = []
exec_lines (path ∷ paths) = text (codes "  ") ∷ text path ∷ char 10 ∷ exec_lines paths

program_lines : List Program → List Piece
program_lines [] = []
program_lines (p ∷ ps) =
    text (codes "  ")
    ∷ text p.path
    ∷ text (codes " : ")
    ∷ text p.summary
    ∷ char 10
    ∷ program_lines ps

exec_index_pieces : List (List ℕ) → List Piece
unfolding exec_lines program_lines
exec_index_pieces [] = text (codes "executables:\n") ∷ program_lines programs
exec_index_pieces (path ∷ paths) = text (codes "executables:\n") ∷ exec_lines (path ∷ paths)

exec_pieces : Program → Bool → ElfInfo → List Piece
exec_pieces p on_disk info =
    text (codes "path=")
    ∷ text p.path
    ∷ text (codes "\nsummary=")
    ∷ text p.summary
    ∷ text (codes "\nmode=")
    ∷ text p.mode
    ∷ text (codes "\nsource=")
    ∷ text (if on_disk then codes "disk" else codes "kernel")
    ∷ text (codes "\nelf.machine=")
    ∷ number info.machine
    ∷ text (codes "\nelf.entry=")
    ∷ number info.entry
    ∷ text (codes "\nelf.phnum=")
    ∷ number info.phnum
    ∷ text (codes "\nelf.vaddr_range=")
    ∷ number info.first_vaddr
    ∷ char 45
    ∷ number info.last_vaddr
    ∷ char 10
    ∷ []

-- `image_bytes`, which starts as 0
abbrev pub stored_bytes : Option ℕ → ℕ
stored_bytes none = 0
stored_bytes (some bytes) = bytes

-- The image of a program: the one on the disk, where it can be read.
unfoldable pub program_info : Program → Bool × Array ℕ × Option ℕ → Option ElfInfo
program_info p (ok, image, bytes) =
    if ok
    then elf_parse_image (some image) (stored_bytes bytes)
    else elf_parse_image (some p.image) p.image_size

module _ (drive : Drive) where
  open drive use {Disk}

  -- what is appended for a path, with `image` the buffer on the stack
  unfoldable pub bin_pieces : List ℕ → Array ℕ → FsState Disk → Option (List Piece)
  unfolding same_string exec_index_pieces exec_pieces program_info find_program fs_snapshot_execs
      fs_read_exec_file
  bin_pieces path image s =
      let (ok, read_image, bytes) = fs_read_exec_file drive path image s in
      if same_string path (codes "/bin")
        || same_string path (codes "/bin/")
        || same_string path (codes "/bin/index")
      then some (exec_index_pieces (fs_snapshot_execs 8 s.inodes))
      else (elim (find_program path) [
        | none ↦ none
        | some p ↦ elim (program_info p (ok, read_image, bytes)) [
          | none ↦ none
          | some info ↦ some (exec_pieces p ok info)
        ]
      ])

  -- The text, and its length in `pos`; `none` is -1. Neither pointer is null.
  unfoldable pub builtin_exec_render_path :
      Array ℕ → FsState Disk → List ℕ → Array ℕ → ℕ → Option Out
  unfolding bin_pieces append_all
  builtin_exec_render_path image s path buf cap =
      if cap == 0 then none else (elim (bin_pieces path image s) [
        | none ↦ none
        | some pieces ↦ some (append_all cap pieces (record { buf = write buf 0 0; pos = 0 }))
      ])
