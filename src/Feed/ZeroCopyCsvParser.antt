-- ===== src/Feed/ZeroCopyCsvParser.antt =====
-- feed/ZeroCopyCsvParser.hpp: the line parser. Bytes are numbers. A pointer into the line is its
-- offset, and the walk carries the bytes from there to the end, so that it recurs on them.
mod Defs
mod Sane
pub mod Loop
pub mod Buffer
pub mod Quote
mod Pool
mod Rounds
pub mod RoundTrip
unfoldable pub use Defs.*
