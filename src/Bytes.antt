-- ===== src/Bytes.antt =====
-- Physical memory as bytes: 64-bit little-endian words in it, packed structures, and the fills and copies of
-- kernel/string.c on it (`memset`, `memcpy`).
mod Word
mod Block
mod Packed
unfoldable pub use Word.*
unfoldable pub use Block.*
unfoldable pub use Packed.*
