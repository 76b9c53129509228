-- ===== src/Security.antt =====
-- The logs of security/: the hashes of the feeds, and the messages with their sequence numbers.
pub mod FeedHashLogger
pub mod SecurityAwareLogger
mod Tests
