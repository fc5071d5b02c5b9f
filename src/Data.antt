-- ===== src/Data.antt =====
-- The static data of the kernel's parts, as records, and the record of them all.
-- Each C file keeps its state in file-level variables; here they are the fields of one record.
mod Sched
mod Trace
mod Power
mod Keyboard
mod Net
mod Aspace
mod Fs
mod Machine
pub use Sched.*
pub use Trace.*
pub use Power.*
pub use Keyboard.*
pub use Net.*
pub use Aspace.*
pub use Fs.*
pub use Machine.*
