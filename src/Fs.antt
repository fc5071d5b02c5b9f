-- ===== src/Fs.antt =====
-- kernel/fs.c: the file system of recorded sessions and programs, over the disk of kernel/ata.c.
pub mod Layout
pub mod Files
pub mod Sessions
pub mod Execs
pub mod Transfer
pub mod Outcome
pub mod Table
pub mod Kept
pub mod RoundTrip
pub mod Refusal
pub mod Codec
pub mod Reload
pub mod Images
