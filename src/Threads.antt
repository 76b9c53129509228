-- ===== src/Threads.antt =====
-- The thread pool of threads/.
pub mod ThreadPool
mod Tests
