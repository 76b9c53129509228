-- ===== src/Feed.antt =====
-- The feeds of feed/: the CSV parsers and the sources that turn bytes into orders.
pub mod ZeroCopyCsvParser
mod Tests
pub mod Text
pub mod Hashes
pub mod CsvFeedSource
pub mod CsvOrderParser
pub mod SocketFeedSource
pub mod SharedMemoryFeedSource
pub mod ShmWriterSimulator
pub mod FeedInjector
pub mod Descriptors
pub mod FeedSource
pub mod FeedManager
pub mod TcpLatencyProxy
mod SourceTests
mod SocketTests
mod ProxyTests
mod ShmTests
mod ManagerTests
mod PipeTests
mod AcceptTests
mod ArgsTests
mod BufferTests
mod ConnectionTests
mod MainTests
mod InjectorTests
