-- ===== src/Threads.antt =====
-- framework/thread.
pub mod Condition
pub mod ThreadPool
pub mod CountDownLatch
pub mod MutexLock
pub mod BlockingQueue
pub mod CurrentThread
pub mod Thread
mod Tests
