-- ===== src/Text.antt =====
-- Rust's `str`: a list of code points, with the operations of `std` that the crates call.
-- Lengths and byte tests go through `utf8`, the bytes that Rust stores.
mod Chars
mod Search
mod Split
mod Numbers
mod Tests
unfoldable pub use Chars.*
unfoldable pub use Search.*
unfoldable pub use Split.*
unfoldable pub use Numbers.*
