-- ===== src/Lessons.antt =====
-- lessons/go: the operations of the lessons' core packages.
pub mod JobCounter
pub mod JobQueue
pub mod Pipelining
pub mod WalLab
pub mod CacheAside
