-- ===== src/Files.antt =====
-- src/num8lora_meta.c: the metadata record in a file. The C library's files are a parameter.
pub mod Stdio
mod Defs
pub mod Atomic
unfoldable pub use Defs.*
