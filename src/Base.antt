-- ===== src/Base.antt =====
-- common/base: the configuration file, the splitting of its lists, the loop over the instances that
-- it names, and the thread pool.
pub mod Config
pub mod Explode
pub mod Any
pub mod Log
pub mod Task
pub mod Instances
pub mod Thread
pub mod Time
pub mod ThreadPool
mod Tests
