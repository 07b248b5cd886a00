-- ===== src/Text.antt =====
-- What the source uses of std::string and of its conversions to and from numbers.
mod Bytes
pub mod Number
pub mod Slices
unfoldable pub use Bytes.*
