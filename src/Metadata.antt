-- ===== src/Metadata.antt =====
-- include/num8lora_metadata.h and src/num8lora_metadata.c: the record of the last operation applied, as
-- it is kept in a file.
mod Defs
pub mod RoundTrip
unfoldable pub use Defs.*
